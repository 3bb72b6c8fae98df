-- ===== src/Tests/Network.antt =====
-- Bridges, link flags and addresses.
use terraform_provider_zedam.Prelude.{
  ℕ, true, List, [], ◌∷◌, Option, none, some, ◌≡◌, ◌↔◌, refl, Member, arith, length, take, All, ◌<◌,
}
use terraform_provider_zedam.Prelude.Int.{pos}
use terraform_provider_zedam.Text.{Text, codes, join, join_from, ◌=ᵗ◌}
use terraform_provider_zedam.GoError.{GoError, new, error_text}
use terraform_provider_zedam.LlAddr.{link_local_ipv6_from_mac, mac_of-link_local, mac_of}
use terraform_provider_zedam.Attr.{null, known}
use terraform_provider_zedam.Exec.{Host, diagnostics}
use terraform_provider_zedam.Prelude.{inl}
use terraform_provider_zedam.Text.Decimal.{format}
use terraform_provider_zedam.Exec.Act.{stop, ◌>>◌}
use terraform_provider_zedam.IpLink.{build_ip_command, link_flag_up, has_text}
use terraform_provider_zedam.IpLink.Flags.{link_flag_up_iff}
use terraform_provider_zedam.IpLink.Parse.{member_names}
use terraform_provider_zedam.Resource.{
  IpCommand, prepare, create_tf_back_pointer, write_pointer, run_ip,
}
use terraform_provider_zedam.Resource.Script.{run_script}
use terraform_provider_zedam.Resource.ReadLink.{LinkState, read_members, kept_members, try_run}
use terraform_provider_zedam.Bridge.{BridgeModel, read_enslaved, resource_dir}
use terraform_provider_zedam.Bridge.Handlers.{create, delete, finish_create}
use terraform_provider_zedam.Bridge.Configure.{create-script, bridge_script}
use terraform_provider_zedam.Bridge.Members.{read_enslaved-exact}
use terraform_provider_zedam.Bridge.Delete.{delete_exited}
use terraform_provider_zedam.Tests.{printed, exit_one, answering, test_net, test_conf}

abbrev test_link : LinkState
test_link = record {
  mtu = known (pos 1500);
  state = known (codes "up");
  mac_address = null;
  ipv4_address = known (codes "10.0.0.1/24");
  ipv6_address = null;
}

abbrev test_bridge : BridgeModel
test_bridge = record {
  id = known (codes "0a1b2c3d");
  name = known (codes "br0");
  link = test_link;
  netns = null;
  enslaved_interfaces = known (codes "eth1" ∷ codes "tap0" ∷ []);
}

abbrev members_listing : Text
members_listing = codes "7: tap0: <UP> mtu 9000\n8: tap1: <UP> mtu 9000\n"

-- a host on which every command succeeds and prints nothing
abbrev quiet : Host
quiet = answering (printed [])

abbrev bridge_dir : Text
bridge_dir = resource_dir quiet test_net test_conf (codes "0a1b2c3d")

abbrev test_ip : IpCommand
test_ip = build_ip_command test_conf []

create-script_example :
    create quiet test_net test_conf test_bridge 0
    ≡ (run_script quiet bridge_dir test_ip (bridge_script (codes "br0") test_bridge)
          >> finish_create quiet test_net test_conf bridge_dir test_ip test_bridge)
        3
unfolding prepare create_tf_back_pointer write_pointer
create-script_example =
    create-script quiet test_net test_conf test_bridge 0 3 (codes "0a1b2c3d") refl refl tt

-- a host that lists `tap0`, which the bridge manages, and `tap1`, which it does not
abbrev listing : Host
listing = answering (printed members_listing)

read_enslaved-exact_example : Member (codes "tap0") (codes "tap0" ∷ []) ↔ (
    Member (codes "tap0") (codes "eth1" ∷ codes "tap0" ∷ [])
    × Member (codes "tap0") (member_names members_listing))
unfolding read_enslaved read_members try_run kept_members run_ip has_text ◌=ᵗ◌ member_names
read_enslaved-exact_example =
    read_enslaved-exact listing test_net test_conf bridge_dir test_ip (codes "br0")
      (known (codes "eth1" ∷ codes "tap0" ∷ [])) (known (codes "tap0" ∷ [])) 4 5 refl (codes "tap0")

abbrev or_new : Option GoError → GoError
or_new none = new []
or_new (some e) = e

-- hosts on which iproute2 fails as the executors report it, and with the message itself
abbrev absent : Host
absent = answering (exit_one (codes "Cannot find device br0"))

abbrev absent_told : Host
absent_told =
    answering (record (printed []) { error = some (new (codes "Cannot find device br0")) })

delete_exited_example : delete absent test_net test_conf test_bridge 0 ≡ (
  stop (
      record { summary = codes "Failed to delete bridge"; detail = codes "exit status 1" }
      ∷ diagnostics (exit_one (codes "Cannot find device br0"))),
  1,
)
unfolding run_ip error_text format
delete_exited_example =
    delete_exited absent test_net test_conf test_bridge 0 (new (codes "exit status 1")) refl
      (1, inl refl)

link_flag_up_iff_example :
    (link_flag_up (codes "2: eth0: <NO-CARRIER,BROADCAST,UP> mtu 1500") ≡ true)
    ↔ Member (codes "UP") (codes "NO-CARRIER" ∷ codes "BROADCAST" ∷ codes "UP" ∷ [])
unfolding join join_from
link_flag_up_iff_example =
    link_flag_up_iff (codes "2: eth0: ") (codes " mtu 1500") (codes "NO-CARRIER")
      (codes "BROADCAST" ∷ codes "UP" ∷ []) (ground arith) (ground arith) (ground arith)

abbrev test_mac : List ℕ
test_mac = 0x02 ∷ 0x42 ∷ 0xac ∷ 0x11 ∷ 0 ∷ 2 ∷ []

mac_of-link_local_example :
    (ip : List ℕ) × (link_local_ipv6_from_mac test_mac ≡ some ip)
    × (length ip ≡ 16)
    × (take 8 ip ≡ 0xfe ∷ 0x80 ∷ 0 ∷ 0 ∷ 0 ∷ 0 ∷ 0 ∷ 0 ∷ [])
    × All (λ b. b < 256) ip
    × (mac_of ip ≡ test_mac)
mac_of-link_local_example = mac_of-link_local test_mac refl (ground arith)
