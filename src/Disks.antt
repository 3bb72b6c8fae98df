-- ===== src/Disks.antt =====
-- internal/provider/edge_node_disks.go: the disks of a virtual machine, from the attributes.
pub mod Valid
pub mod Images
use terraform_provider_zedam.Prelude.{
  ℕ, zero, suc, Bool, true, false, ◌&&◌, ◌||◌, not, List, [], ◌∷◌, ◌++◌, Option, none, some,
  if◌then◌else◌,
}
use terraform_provider_zedam.Prelude.Int.{ℤ, pos}
use terraform_provider_zedam.Text.{Text, codes, concat, is_empty, ◌=ᵗ◌}
use terraform_provider_zedam.Text.Decimal.{format}
use terraform_provider_zedam.Text.Quote.{go_quote}
use terraform_provider_zedam.Diag.{Diagnostic}
use terraform_provider_zedam.GoError.{GoError, new, error_text}
use terraform_provider_zedam.Exec.{Result, Host, Fallible, got, failure, format_int, join_path}
use terraform_provider_zedam.Attr.{Attr, null, unknown, known, is_null, value_string, value_int64}

-- `DiskBlockModel`
pub record DiskBlockModel : Type 0 where
  pub type : Attr Text
  pub source : Attr Text
  pub format : Attr Text
  pub size_mb : Attr ℤ
  pub drive_if : Attr Text
  pub options : Attr (List Text)

-- `legacyDiskAttrs`
pub record LegacyDiskAttrs : Type 0 where
  pub disk_image_base : Attr Text
  pub disk_1_image_base : Attr Text
  pub disk_size_mb : Attr ℤ
  pub drive_if : Attr Text

-- `DiskConfig` of internal/hypervisor/hypervisor.go
pub record DiskConfig : Type 0 where
  pub type : Text
  pub source : Text
  pub format : Text
  pub size_mb : ℤ
  pub has_size : Bool
  pub drive_if : Text
  pub options : List Text

-- `DiskOverlay`, `DiskDevice` and `DiskFile`
abbrev pub disk_overlay : Text
disk_overlay = codes "overlay"

abbrev pub disk_device : Text
disk_device = codes "device"

abbrev pub disk_file : Text
disk_file = codes "file"

abbrev pub zero_disk : DiskConfig
zero_disk = record {
  type = [];
  source = [];
  format = [];
  size_mb = pos 0;
  has_size = false;
  drive_if = [];
  options = [];
}

-- `diskImagePath`
unfoldable pub disk_image_path : List Text → ℕ → Text
disk_image_path [] i = []
disk_image_path (p ∷ paths) zero = p
disk_image_path (p ∷ paths) (suc i) = disk_image_path paths i

abbrev invalid : Text → List Diagnostic
invalid detail = record { summary = codes "Invalid disk configuration"; detail = detail } ∷ []

-- `disk <idx>: <message>`
abbrev of_disk : ℕ → Text → Text
of_disk idx message = codes "disk " ++ (format idx ++ (codes ": " ++ message))

-- what is wrong with the format of an overlay
unfoldable pub overlay_diags : ℕ → Text → List Diagnostic
unfolding ◌=ᵗ◌
overlay_diags idx format =
    if is_empty format || format =ᵗ codes "qcow2"
    then []
    else invalid (of_disk idx (codes "`type = \"overlay\"` only supports `format = \"qcow2\"`."))

unfoldable pub size_diags : ℕ → Text → Bool → List Diagnostic
size_diags idx type has_size =
    if has_size
    then invalid (
        of_disk idx (
          codes "`size_mb` is only valid for `type = \"overlay\"` (cannot resize a "
          ++ (type ++ codes " disk).")))
    else []

unfoldable pub stat_diags : ℕ → Text → Option GoError → List Diagnostic
stat_diags idx source none = []
stat_diags idx source (some e) = invalid (
    of_disk idx
      (concat (codes "cannot access source " ∷ go_quote source ∷ codes ": " ∷ error_text e ∷ [])))

abbrev pub options_of : Attr (List Text) → List Text
options_of null = []
options_of unknown = []
options_of (known os) = os

-- a value, or a default for ""
abbrev pub or_text : Text → Text → Text
or_text d t = if is_empty t then d else t

-- the disk of a block, of the given type and with its format resolved
abbrev pub disk_of : DiskBlockModel → Text → Text → DiskConfig
disk_of b type format = record {
  type = type;
  source = value_string b.source;
  format = format;
  size_mb = value_int64 b.size_mb;
  has_size = not (is_null b.size_mb);
  drive_if = value_string b.drive_if;
  options = options_of b.options;
}

module _ (h : Host) where
  open h use {World, stat, run}

  -- an existing device or file: the diagnostics of its size, then of its source
  unfoldable pub direct_disk :
      ℕ → DiskBlockModel → Text → Option GoError × World → (DiskConfig × List Diagnostic) × World
  direct_disk idx b type (e, w) = (
    (
      disk_of b type (or_text (codes "raw") (value_string b.format)),
      size_diags idx type (not (is_null b.size_mb)) ++ stat_diags idx (value_string b.source) e,
    ),
    w,
  )

  -- the `switch` on the type
  unfoldable pub disk_by_type :
      ℕ → DiskBlockModel → Text → World → (DiskConfig × List Diagnostic) × World
  unfolding direct_disk ◌=ᵗ◌
  disk_by_type idx b type w =
      if type =ᵗ disk_overlay
      then (
        (
          disk_of b type (or_text (codes "qcow2") (value_string b.format)),
          overlay_diags idx (value_string b.format),
        ),
        w,
      )
      else if type =ᵗ disk_device || type =ᵗ disk_file
      then direct_disk idx b type (stat (value_string b.source) w)
      else (
        (
          zero_disk,
          invalid (
              of_disk idx (
                concat (
                  codes "unknown type "
                  ∷ go_quote type
                  ∷ codes " (expected overlay, device, or file)."
                  ∷ []))),
        ),
        w,
      )

  -- `diskConfigFromBlock` (the diagnostics of options that are not texts are left out)
  unfoldable pub disk_config_from_block :
      ℕ → DiskBlockModel → World → (DiskConfig × List Diagnostic) × World
  unfolding disk_by_type
  disk_config_from_block idx b w =
      if is_empty (value_string b.source)
      then ((zero_disk, invalid (of_disk idx (codes "`source` must not be empty."))), w)
      else disk_by_type idx b (or_text disk_overlay (value_string b.type)) w

  abbrev with_first :
      (DiskConfig × List Diagnostic)
      → (List DiskConfig × List Diagnostic) × World
      → (List DiskConfig × List Diagnostic) × World
  with_first (c, ds) ((cs, es), w) = ((c ∷ cs, ds ++ es), w)

  -- the loop over the blocks
  unfoldable pub disks_from_blocks :
      ℕ → List DiskBlockModel → World → (List DiskConfig × List Diagnostic) × World
  disks_from_blocks idx [] w = (([], []), w)
  disks_from_blocks idx (b ∷ blocks) w =
      let (first, w1) = disk_config_from_block idx b w in
      with_first first (disks_from_blocks (suc idx) blocks w1)

  abbrev is_given : Attr Text → Bool
  is_given t = not (is_empty (value_string t))

  abbrev pub legacy_disk : LegacyDiskAttrs → Text → DiskConfig
  legacy_disk legacy base = record {
    type = disk_overlay;
    source = base;
    format = codes "qcow2";
    size_mb = value_int64 legacy.disk_size_mb;
    has_size = not (is_null legacy.disk_size_mb);
    drive_if = value_string legacy.drive_if;
    options = [];
  }

  -- the legacy attributes without blocks: the first disk is required
  unfoldable pub legacy_disks : LegacyDiskAttrs → List DiskConfig × List Diagnostic
  legacy_disks legacy =
      if not (is_given legacy.disk_image_base)
      then if is_given legacy.disk_1_image_base
        then (
          [],
          invalid (
              codes
                "`disk_1_image_base` is set without `disk_image_base`; the first disk (disk0) is required."),
        )
        else (
          [],
          record {
            summary = codes "Missing disk configuration";
            detail = codes "A disk is required: configure a `disk` block or set `disk_image_base`.";
          }
              ∷ [],
        )
      else (
        legacy_disk legacy (value_string legacy.disk_image_base)
            ∷ (if is_given legacy.disk_1_image_base
                then legacy_disk legacy (value_string legacy.disk_1_image_base) ∷ []
                else []),
        [],
      )

  unfoldable pub legacy_used : LegacyDiskAttrs → Bool
  legacy_used legacy =
      is_given legacy.disk_image_base
      || is_given legacy.disk_1_image_base
      || not (is_null legacy.disk_size_mb)
      || is_given legacy.drive_if

  -- `buildDisks`
  unfoldable pub build_disks :
      List DiskBlockModel → LegacyDiskAttrs → World → (List DiskConfig × List Diagnostic) × World
  unfolding disks_from_blocks legacy_disks legacy_used
  build_disks [] legacy w = (legacy_disks legacy, w)
  build_disks (b ∷ blocks) legacy w =
      if legacy_used legacy
      then (
        (
          [],
          record {
            summary = codes "Conflicting disk configuration";
            detail =
                codes
                  "Use either the `disk` blocks or the legacy `disk_image_base` / `disk_1_image_base` (and `disk_size_mb` / `drive_if`) attributes to configure disks, not both.";
          }
              ∷ [],
        ),
        w,
      )
      else disks_from_blocks 0 (b ∷ blocks) w
