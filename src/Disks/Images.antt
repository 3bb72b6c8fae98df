-- ===== src/Disks/Images.antt =====
-- The disks of `PrepareDisks` in internal/hypervisor/qemu.go: the images of a virtual machine.
use terraform_provider_zedam.Prelude.{ℕ, suc, ◌||◌, List, [], ◌∷◌, ◌++◌, none, some, if◌then◌else◌}
use terraform_provider_zedam.Text.{Text, codes, concat, is_empty, ◌=ᵗ◌}
use terraform_provider_zedam.Text.Decimal.{format}
use terraform_provider_zedam.Text.Quote.{go_quote}
use terraform_provider_zedam.GoError.{new, error_text}
use terraform_provider_zedam.Exec.{Result, Host, Fallible, got, failure, format_int, join_path}
use terraform_provider_zedam.Disks.{DiskConfig, disk_overlay, disk_device, disk_file}

module _ (h : Host) where
  open h use {World, run}

  abbrev pub image_path : Text → ℕ → Text
  image_path d i = join_path d (codes "disk" ++ (format i ++ codes ".disk_img.qcow2"))

  -- the words of `qemu-img` that create an overlay
  unfoldable pub overlay_words : Text → DiskConfig → List Text
  overlay_words img disk =
      (codes "create"
        ∷ codes "-f"
        ∷ codes "qcow2"
        ∷ codes "-b"
        ∷ disk.source
        ∷ codes "-F"
        ∷ codes "qcow2"
        ∷ img
        ∷ [])
      ++ (if disk.has_size then (format_int disk.size_mb ++ codes "M") ∷ [] else [])

  -- nothing unwraps this error, so its text is all there is of it
  abbrev judge_image : ℕ → Text → Result × World → Fallible Text × World
  judge_image i img (res, w) = elim res.error [
    | none ↦ (got img, w)
    | some e ↦ (
      failure (
          new (
            concat (
              codes "unable to create disk "
              ∷ format i
              ∷ codes " image: "
              ∷ error_text e
              ∷ codes "; "
              ∷ res.stderr
              ∷ []))),
      w,
    )
  ]

  -- the image of one disk
  unfoldable pub prepare_disk : Text → Text → ℕ → DiskConfig → World → Fallible Text × World
  unfolding overlay_words ◌=ᵗ◌
  prepare_disk qemu_img d i disk w =
      if disk.type =ᵗ disk_device || disk.type =ᵗ disk_file
      then (got disk.source, w)
      else if disk.type =ᵗ disk_overlay || is_empty disk.type
      then judge_image i (image_path d i) (run d qemu_img (overlay_words (image_path d i) disk) w)
      else (
        failure (
            new (
              concat
                (codes "unknown disk " ∷ format i ∷ codes " type " ∷ go_quote disk.type ∷ []))),
        w,
      )

  abbrev with_image : Text → Fallible (List Text) × World → Fallible (List Text) × World
  with_image img (failure e, w) = (failure e, w)
  with_image img (got imgs, w) = (got (img ∷ imgs), w)

  abbrev pub then_images :
      Fallible Text × World → (World → Fallible (List Text) × World) → Fallible (List Text) × World
  then_images (failure e, w) k = (failure e, w)
  then_images (got img, w) k = with_image img (k w)

  -- the loop of `PrepareDisks` over the disks, in slot order
  unfoldable pub prepare_images :
      Text → Text → ℕ → List DiskConfig → World → Fallible (List Text) × World
  unfolding prepare_disk
  prepare_images qemu_img d i [] w = (got [], w)
  prepare_images qemu_img d i (disk ∷ disks) w =
      then_images (prepare_disk qemu_img d i disk w)
        (λ w1. prepare_images qemu_img d (suc i) disks w1)
