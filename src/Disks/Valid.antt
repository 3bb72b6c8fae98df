-- ===== src/Disks/Valid.antt =====
-- What `buildDisks` of internal/provider/edge_node_disks.go hands to the hypervisor.
use terraform_provider_zedam.Prelude.{
  ℕ, suc, Bool, true, false, not, List, [], ◌∷◌, ◌++◌, Option, ◌≡◌, ◌≢◌, ◌⊎◌, inl, inr, refl, ap,
  arith, All, Bool-cases, length,
}
use terraform_provider_zedam.Text.{Text, codes, is_empty, ◌=ᵗ◌}
use terraform_provider_zedam.Text.Laws.{=ᵗ→≡}
use terraform_provider_zedam.GoError.{GoError}
use terraform_provider_zedam.Exec.{Host}
use terraform_provider_zedam.Attr.{is_null, value_string}
use terraform_provider_zedam.Disks.{
  DiskBlockModel, LegacyDiskAttrs, DiskConfig, disk_overlay, disk_device, disk_file, or_text,
  overlay_diags, size_diags, direct_disk, disk_by_type, disk_config_from_block, disks_from_blocks,
  legacy_disks, legacy_used, build_disks,
}

-- A disk that the hypervisor can use: it has a source; an overlay is qcow2, and a device or a file
-- has a format and is not resized.
abbrev pub IsValid : DiskConfig → Type 0
IsValid c =
    (is_empty c.source ≡ false)
    × (((c.type ≡ disk_overlay) × (c.format ≡ codes "qcow2"))
        ⊎ (((c.type ≡ disk_device) ⊎ (c.type ≡ disk_file))
            × (c.has_size ≡ false)
            × (is_empty c.format ≡ false)))

nil-append : {A : Type 0} (xs ys : List A) → xs ++ ys ≡ [] → (xs ≡ []) × (ys ≡ [])
nil-append [] ys h = (refl, h)
nil-append (x ∷ xs) ys h = absurd cc

qcow2_format :
    (idx : ℕ) (f : Text) → overlay_diags idx f ≡ [] → or_text (codes "qcow2") f ≡ codes "qcow2"
unfolding overlay_diags
qcow2_format idx f h = elim (Bool-cases (is_empty f)) [
  | inl y ↦ rw y refl
  | inr n ↦ elim (Bool-cases (f =ᵗ codes "qcow2")) [
    | inl y ↦ rw n (=ᵗ→≡ f (codes "qcow2") y)
    | inr m ↦ let bad : overlay_diags idx f ≡ [] → ⊥ = rw (n, m) (λ q. cc q) in absurd (bad h)
  ]
]

some_format : (f : Text) → is_empty (or_text (codes "raw") f) ≡ false
some_format [] = refl
some_format (c ∷ f) = refl

no_size : (idx : ℕ) (type : Text) (b : Bool) → size_diags idx type b ≡ [] → b ≡ false
unfolding size_diags
no_size idx type true h = absurd cc
no_size idx type false h = refl

ne_nil : {A B : Type 0} (xs : List A) (ys : List B) → length xs ≡ suc (length ys) → xs ≢ []
ne_nil [] ys e = absurd (omega arith)
ne_nil (x ∷ xs) ys e = cc

module _ (h : Host) where
  open h use {World, stat}

  direct-IsValid :
      (idx : ℕ) (b : DiskBlockModel) (type : Text) (r : Option GoError × World)
      → (type ≡ disk_device) ⊎ (type ≡ disk_file)
      → is_empty (value_string b.source) ≡ false
      → (direct_disk h idx b type r).0.1 ≡ []
      → IsValid (direct_disk h idx b type r).0.0
  unfolding direct_disk
  direct-IsValid idx b type (e, w) ht hs hd =
      let (sized, _) = nil-append (size_diags idx type (not (is_null b.size_mb))) _ hd in
      (
        hs,
        inr (
          ht,
          no_size idx type (not (is_null b.size_mb)) sized,
          some_format (value_string b.format),
        ),
      )

  by_type-IsValid :
      (idx : ℕ) (b : DiskBlockModel) (type : Text) (w : World)
      → is_empty (value_string b.source) ≡ false
      → (disk_by_type h idx b type w).0.1 ≡ []
      → IsValid (disk_by_type h idx b type w).0.0
  unfolding disk_by_type
  by_type-IsValid idx b type w hs = elim (Bool-cases (type =ᵗ disk_overlay)) [
    | inl y ↦
        rw y
          (λ hd. (hs, inl (=ᵗ→≡ type disk_overlay y, qcow2_format idx (value_string b.format) hd)))
    | inr n ↦ elim (Bool-cases (type =ᵗ disk_device)) [
      | inl y ↦
          rw (n, y)
            (direct-IsValid idx b type (stat (value_string b.source) w)
              (inl (=ᵗ→≡ type disk_device y)) hs)
      | inr m ↦ elim (Bool-cases (type =ᵗ disk_file)) [
        | inl y ↦
            rw (n, m, y)
              (direct-IsValid idx b type (stat (value_string b.source) w)
                (inr (=ᵗ→≡ type disk_file y)) hs)
        | inr k ↦ rw (n, m, k) (λ hd. absurd (cc hd))
      ]
    ]
  ]

  block-IsValid :
      (idx : ℕ) (b : DiskBlockModel) (w : World)
      → (disk_config_from_block h idx b w).0.1 ≡ []
      → IsValid (disk_config_from_block h idx b w).0.0
  unfolding disk_config_from_block
  block-IsValid idx b w = elim (Bool-cases (is_empty (value_string b.source))) [
    | inl y ↦ rw y (λ hd. absurd (cc hd))
    | inr n ↦ rw n (by_type-IsValid idx b (or_text disk_overlay (value_string b.type)) w n)
  ]

  blocks-IsValid :
      (idx : ℕ) (blocks : List DiskBlockModel) (w : World)
      → (disks_from_blocks h idx blocks w).0.1 ≡ []
      → All IsValid (disks_from_blocks h idx blocks w).0.0
        × (length (disks_from_blocks h idx blocks w).0.0 ≡ length blocks)
  unfolding disks_from_blocks
  blocks-IsValid idx [] w hd = (tt, refl)
  blocks-IsValid idx (b ∷ blocks) w hd =
      let w1 = (disk_config_from_block h idx b w).1 in
      let (one, others) =
        nil-append (disk_config_from_block h idx b w).0.1
          (disks_from_blocks h (suc idx) blocks w1).0.1 hd in
      let (all, len) = blocks-IsValid (suc idx) blocks w1 others in
      ((block-IsValid idx b w one, all), ap (λ n. suc n) len)

  given_base : (t : Text) → not (is_empty t) ≡ true → is_empty t ≡ false
  given_base t h = ground arith

  legacy-IsValid :
      (legacy : LegacyDiskAttrs)
      → (legacy_disks h legacy).1 ≡ []
      → All IsValid (legacy_disks h legacy).0 × ((legacy_disks h legacy).0 ≢ [])
  unfolding legacy_disks
  legacy-IsValid legacy = elim (Bool-cases (is_empty (value_string legacy.disk_image_base))) [
    | inl y ↦ elim (Bool-cases (is_empty (value_string legacy.disk_1_image_base))) [
      | inl z ↦ rw (y, z) (λ hd. absurd (cc hd))
      | inr z ↦ rw (y, z) (λ hd. absurd (cc hd))
    ]
    | inr n ↦ elim (Bool-cases (is_empty (value_string legacy.disk_1_image_base))) [
      | inl z ↦ rw (n, z) (λ hd. (((n, inl (refl, refl)), tt), cc))
      | inr z ↦ rw (n, z) (λ hd. (((n, inl (refl, refl)), ((z, inl (refl, refl)), tt)), cc))
    ]
  ]

  -- The disks that are built without a diagnostic are valid, and there is at least one; from blocks
  -- there are as many as blocks, and they came without the legacy attributes.
  pub build_disks-IsValid :
      (blocks : List DiskBlockModel) (legacy : LegacyDiskAttrs) (w : World)
      → (build_disks h blocks legacy w).0.1 ≡ []
      → All IsValid (build_disks h blocks legacy w).0.0
        × ((build_disks h blocks legacy w).0.0 ≢ [])
        × ((blocks ≡ [])
            ⊎ ((legacy_used h legacy ≡ false)
                × (length (build_disks h blocks legacy w).0.0 ≡ length blocks)))
  unfolding build_disks
  build_disks-IsValid [] legacy w =
      λ hd. let (all, some_disk) = legacy-IsValid legacy hd in (all, some_disk, inl refl)
  build_disks-IsValid (b ∷ blocks) legacy w = elim (Bool-cases (legacy_used h legacy)) [
    | inl y ↦ rw y (λ hd. absurd (cc hd))
    | inr n ↦ rw n (λ hd.
        let (all, len) = blocks-IsValid 0 (b ∷ blocks) w hd in
        (all, ne_nil _ blocks len, inr (refl, len)))
  ]
