-- ===== src/Tests/Bond.antt =====
-- Bonds, on a host that keeps the members of one bond.
use terraform_provider_zedam.Prelude.{
  true, ◌&&◌, ◌||◌, not, List, [], ◌∷◌, none, if◌then◌else◌, ◌≡◌, ◌↔◌, ◌⊎◌, refl, arith,
}
use terraform_provider_zedam.Prelude.Int.{pos}
use terraform_provider_zedam.Text.{Text, codes, ◌=ᵗ◌, contains}
use terraform_provider_zedam.ErrChecker.{contains_one}
use terraform_provider_zedam.Exec.{Host, got}
use terraform_provider_zedam.Attr.{null, known, is_set, is_unknown, value_string}
use terraform_provider_zedam.IpLink.{has_text}
use terraform_provider_zedam.Resource.{IpCommand, run_ip}
use terraform_provider_zedam.Resource.ReadLink.{LinkState, try_run}
use terraform_provider_zedam.Lag.{
  LagModel, strings_difference, enslave_member, release_member, validate_config,
}
use terraform_provider_zedam.Lag.Handlers.{delete, remove_dir, resource_dir, enslave_members}
use terraform_provider_zedam.Lag.Update.{release_members, update_members}
use terraform_provider_zedam.Lag.Members.{BondLinks, has_text-strings_difference}
use terraform_provider_zedam.Lag.Sync.{update_members-exact}
use terraform_provider_zedam.Lag.Delete.{delete_absent}
use terraform_provider_zedam.Lag.Validate.{validate_config_ok}
use terraform_provider_zedam.Tests.{printed, exit_one, answering, test_net, test_conf}

-- `link set dev <link> <verb> ...` on the members
abbrev apply_verb : List Text → List Text → List Text
apply_verb (a ∷ b ∷ c ∷ link ∷ verb ∷ rest) ms =
    if verb =ᵗ codes "nomaster"
    then strings_difference ms (link ∷ [])
    else if verb =ᵗ codes "master"
    then link ∷ ms
    else ms
apply_verb words ms = ms

abbrev bonding : Host
bonding = record {
  World = List Text;
  run = λ d cmd args w. (printed [], apply_verb args w);
  mkdir_all = λ path mode w. (none, w);
  write_file = λ path content mode w. (none, w);
  chmod = λ path mode w. (none, w);
  remove = λ path w. (none, w);
  read_file = λ path w. (got [], w);
  stat = λ path w. (none, w);
  is_not_exist = λ e. true;
  open_write = λ path mode w. (none, w);
  write_out = λ path content w. (none, w);
  run_detached = λ d cmd args w. (printed [], w);
  is_running = λ pid exe w. (got true, w);
  kill = λ pid signal w. (none, w);
  self_path = codes "/usr/local/bin/provider";
  show_diagnostics = λ ds. [];
  getwd = λ w. (codes "/work", none);
  new_resource_id = λ w. (codes "0a1b2c3d", none, w);
}

abbrev plain_ip : IpCommand
plain_ip = (codes "/sbin/ip", [])

detached :
    (i x : Text) (ms : List Text)
    → has_text x (strings_difference ms (i ∷ [])) ≡ (not (i =ᵗ x) && has_text x ms)
unfolding has_text
detached i x ms = ground (arith, has_text-strings_difference ms (i ∷ []) x)

bonding-links : BondLinks bonding (codes "/d") plain_ip (codes "bond0")
unfolding run_ip ◌=ᵗ◌ has_text
bonding-links = record {
  is_member = λ x w. has_text x w;
  nomaster_done = λ i x w e. detached i x w;
  nomaster_missing = λ i x w e he t. detached i x w;
  master_done = λ i x w e. refl;
  down_keeps = λ i x w. refl;
  up_keeps = λ i x w. refl;
}

abbrev names : List Text
names = codes "eth1" ∷ codes "eth2" ∷ []

-- `eth1` leaves, `eth3` joins, `eth2` stays, and so does `tap0`, which is not managed
update_members-exact_example :
    bonding-links.is_member (codes "tap0") (codes "eth3" ∷ codes "eth2" ∷ codes "tap0" ∷ []) ≡ (
      has_text (codes "tap0") (codes "eth2" ∷ codes "eth3" ∷ [])
      || not (has_text (codes "tap0") names)
        && bonding-links.is_member (codes "tap0") (codes "eth1" ∷ codes "eth2" ∷ codes "tap0" ∷ []))
unfolding update_members release_members release_member enslave_members enslave_member try_run
    run_ip strings_difference has_text ◌=ᵗ◌ bonding-links
update_members-exact_example =
    update_members-exact bonding-links test_net test_conf (known (codes "eth2" ∷ codes "eth3" ∷ []))
      (known names) (codes "eth1" ∷ codes "eth2" ∷ codes "tap0" ∷ [])
      (codes "eth3" ∷ codes "eth2" ∷ codes "tap0" ∷ []) refl (λ x m. ground arith) refl
      (codes "tap0")

abbrev bond_link : LinkState
bond_link = record {
  mtu = null;
  state = known (codes "up");
  mac_address = null;
  ipv4_address = null;
  ipv6_address = null;
}

abbrev test_bond : LagModel
test_bond = record {
  id = known (codes "0a1b2c3d");
  name = known (codes "bond0");
  mode = known (codes "active-backup");
  miimon = known (pos 100);
  lacp_rate = known (codes "fast");
  xmit_hash_policy = null;
  link = bond_link;
  netns = null;
  enslaved_interfaces = known names;
}

-- the bond is absent, and the executor's error says only that the command failed
abbrev bond_absent : Host
bond_absent = answering (exit_one (codes "Cannot find device \"bond0\""))

delete_absent_example :
    delete bond_absent test_net test_conf test_bond 0
    ≡ remove_dir bond_absent test_net test_conf
        (resource_dir bond_absent test_net test_conf (codes "0a1b2c3d"))
        1
unfolding run_ip contains_one contains
delete_absent_example = delete_absent bond_absent test_net test_conf test_bond 0 refl

validate_config_ok_example : (validate_config test_bond ≡ []) ↔ (
    (is_unknown test_bond.mode ≡ true)
    ⊎ ((is_set test_bond.lacp_rate ≡ true → (value_string test_bond.mode =ᵗ codes "802.3ad") ≡ true)
        × (is_set test_bond.xmit_hash_policy ≡ true
            → (value_string test_bond.mode =ᵗ codes "802.3ad"
                || value_string test_bond.mode =ᵗ codes "balance-xor")
              ≡ true)))
validate_config_ok_example = validate_config_ok test_bond
