-- ===== src/Tests/Images.antt =====
-- The disks of a virtual machine.
use terraform_provider_zedam.Prelude.{false, List, [], ◌∷◌, ◌≡◌, ◌≢◌, ◌⊎◌, refl, All, length}
use terraform_provider_zedam.Text.{codes}
use terraform_provider_zedam.Exec.{Host}
use terraform_provider_zedam.Attr.{null, known}
use terraform_provider_zedam.Disks.{
  DiskBlockModel, LegacyDiskAttrs, build_disks, legacy_used, disk_config_from_block, overlay_diags,
  size_diags, stat_diags,
}
use terraform_provider_zedam.Disks.Valid.{IsValid, build_disks-IsValid}
use terraform_provider_zedam.Tests.{printed, answering}

abbrev all_exist : Host
all_exist = answering (printed [])

abbrev test_blocks : List DiskBlockModel
test_blocks =
    record {
      type = null;
      source = known (codes "/images/base.qcow2");
      format = null;
      size_mb = null;
      drive_if = null;
      options = null;
    }
    ∷ record {
      type = known (codes "device");
      source = known (codes "/dev/sdb");
      format = null;
      size_mb = null;
      drive_if = known (codes "virtio");
      options = known (codes "cache=none" ∷ []);
    }
    ∷ []

abbrev no_legacy : LegacyDiskAttrs
no_legacy = record {
  disk_image_base = null;
  disk_1_image_base = null;
  disk_size_mb = null;
  drive_if = null;
}

build_disks-IsValid_example :
    All IsValid (build_disks all_exist test_blocks no_legacy 0).0.0
    × ((build_disks all_exist test_blocks no_legacy 0).0.0 ≢ [])
    × ((test_blocks ≡ [])
        ⊎ ((legacy_used all_exist no_legacy ≡ false)
            × (length (build_disks all_exist test_blocks no_legacy 0).0.0 ≡ length test_blocks)))
unfolding build_disks disk_config_from_block overlay_diags size_diags stat_diags
build_disks-IsValid_example = build_disks-IsValid all_exist test_blocks no_legacy 0 refl
