-- ===== src/Tests/Namespace.antt =====
-- Network namespaces.
use terraform_provider_zedam.Prelude.{true, [], ◌∷◌, Member, inl, inr, ◌≡◌, ◌↔◌, refl, arith}
use terraform_provider_zedam.Text.{codes}
use terraform_provider_zedam.Text.Decimal.{format}
use terraform_provider_zedam.GoError.{new, error_text}
use terraform_provider_zedam.Exec.{Host, diagnostics}
use terraform_provider_zedam.Exec.Act.{stop}
use terraform_provider_zedam.Attr.{known}
use terraform_provider_zedam.Resource.{run_ip}
use terraform_provider_zedam.NetNs.{NetNsModel, found, delete}
use terraform_provider_zedam.NetNs.Listing.{Entry, found_iff}
use terraform_provider_zedam.NetNs.Delete.{netns_delete_exited}
use terraform_provider_zedam.Tests.{exit_one, answering, test_conf}

-- `blue (id: 0)` and `red`
abbrev blue_line : Entry
blue_line = record {
  first = b'b';
  more = codes "lue";
  rest = codes " (id: 0)";
  no_space = ground arith;
  one_line = ground arith;
  apart = inr (codes "(id: 0)", refl);
}

abbrev red_line : Entry
red_line = record {
  first = b'r';
  more = codes "ed";
  rest = [];
  no_space = ground arith;
  one_line = ground arith;
  apart = inl refl;
}

found_iff_example :
    (found (codes "red") (codes "blue (id: 0)\nred\n") ≡ true)
    ↔ Member (codes "red") (codes "blue" ∷ codes "red" ∷ [])
found_iff_example = found_iff (codes "red") (blue_line ∷ red_line ∷ [])

abbrev test_netns : NetNsModel
test_netns = record { id = known (codes "0a1b2c3d"); name = known (codes "blue") }

-- the namespace is absent
abbrev netns_absent : Host
netns_absent =
    answering (exit_one (codes "Cannot remove namespace file \"/run/netns/blue\": No such file"))

-- The namespace is gone, `ip` says so, and the deletion fails.
netns_delete_exited_example : delete netns_absent test_conf test_netns 0 ≡ (
  stop (
      record {
        summary = codes "Failed to delete network namespace";
        detail = codes "exit status 1";
      }
      ∷ diagnostics
          (exit_one (codes "Cannot remove namespace file \"/run/netns/blue\": No such file"))),
  1,
)
unfolding run_ip error_text format
netns_delete_exited_example =
    netns_delete_exited netns_absent test_conf test_netns 0 (new (codes "exit status 1")) refl
      (1, inl refl)
