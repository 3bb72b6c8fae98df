-- ===== src/Tests/Taps.antt =====
-- The TAP interface and its mover.
use terraform_provider_zedam.Prelude.{false, List, [], ◌∷◌, none, ◌≡◌, ◌≢◌, refl, inl, inr, arith}
use terraform_provider_zedam.Prelude.Int.{pos}
use terraform_provider_zedam.Text.{Text, codes, trim_space, contains, split}
use terraform_provider_zedam.IpLink.Parse.{first_match, at_mtu, parse_int64}
use terraform_provider_zedam.Resource.ReadLink.{try_run}
use terraform_provider_zedam.ErrChecker.{contains_one}
use terraform_provider_zedam.Resource.{run_ip}
use terraform_provider_zedam.GoError.{new}
use terraform_provider_zedam.Exec.{Host, got}
use terraform_provider_zedam.Exec.Act.{go}
use terraform_provider_zedam.Attr.{null, known}
use terraform_provider_zedam.Tap.{TapModel, read_tap, parse_tap}
use terraform_provider_zedam.Tap.Mover.{content_status, read_mover_status}
use terraform_provider_zedam.Tap.Handlers.{read}
use terraform_provider_zedam.Tap.Pending.{KeepsPlan, read-KeepsPlan, read_forgets}
use terraform_provider_zedam.TapMover.{
  MoverCfg, Machine, Event, link_update, waiting, error_status, marshal, await_link, tap_mover_main,
}
use terraform_provider_zedam.TapMover.Waiting.{
  HasReported, tap_mover_main-HasReported, await_link_idle,
}
use terraform_provider_zedam.TapMover.Status.{content_status-error}
use terraform_provider_zedam.Tests.{printed, exit_one, answering, test_net, test_conf}

abbrev test_tap : TapModel
test_tap = record {
  id = known (codes "0a1b2c3d");
  name = known (codes "tap0");
  mtu = known (pos 1500);
  state = known (codes "up");
  owner = null;
  group = null;
  master = known (codes "br0");
  ipv4_address = null;
  netns = known (codes "blue");
  mover_status = known (codes "pending");
}

-- the interface in the default namespace, down and without a master
abbrev listing_tap : Host
listing_tap = answering (printed (codes "7: tap0: <BROADCAST> mtu 1500 state DOWN\n"))

pending_ne : codes "pending" ≢ codes "moved"
pending_ne = cc

read-KeepsPlan_example : KeepsPlan test_tap test_tap
unfolding read_mover_status trim_space contains read read_tap try_run run_ip parse_tap split
    first_match at_mtu parse_int64
read-KeepsPlan_example =
    read-KeepsPlan listing_tap test_net test_conf test_tap test_tap 0 3 refl pending_ne refl

-- the mover has failed behind its move
abbrev moved_away : Host
moved_away = record (answering (exit_one (codes "Device \"tap0\" does not exist."))) {
  read_file = λ path w. (got (codes "{\"status\":\"error\"}"), w);
}

read_forgets_example : (read moved_away test_net test_conf test_tap 0).0 ≡ go none
unfolding read_mover_status contains trim_space run_ip contains_one
read_forgets_example =
    read_forgets moved_away test_net test_conf test_tap 0 (new (codes "exit status 1")) refl refl
      refl refl

abbrev test_cfg : MoverCfg
test_cfg = record {
  tap_name = codes "tap0";
  netns = codes "blue";
  master = codes "br0";
  state = codes "up";
  ipv4_address = [];
  status_file = codes "/d/mover_status";
  timeout_s = pos 300;
  use_sudo = false;
  sudo_path = [];
  ip_path = codes "/sbin/ip";
}

-- a machine whose commands succeed, and which keeps what was written
abbrev test_machine : Machine
test_machine = record {
  World = List Text;
  combined_output = λ cmd args w. (([], none), w);
  write_file = λ path content mode w. (none, content ∷ w);
  now = λ w. codes "2026-01-02T03:04:05Z";
}

abbrev test_events : List Event
test_events = link_update (codes "eth0") (codes "up") ∷ link_update (codes "tap0") (codes "up") ∷ []

tap_mover_main-HasReported_example :
    HasReported test_machine test_cfg (tap_mover_main test_machine test_cfg none test_events [])
tap_mover_main-HasReported_example =
    tap_mover_main-HasReported test_machine test_cfg none test_events
      (link_update (codes "tap0") (codes "up")) [] (inr (inl refl)) refl

await_link_idle_example :
    await_link test_machine test_cfg (link_update (codes "eth0") (codes "up") ∷ []) []
    ≡ (waiting, [])
await_link_idle_example =
    await_link_idle test_machine test_cfg (link_update (codes "eth0") (codes "up") ∷ []) []
      (ground arith, tt)

content_status-error_example :
    content_status (
      trim_space
        (marshal (error_status (codes "timeout after 300s") (codes "2026-01-02T03:04:05Z"))))
    ≡ codes "error"
content_status-error_example =
    content_status-error (codes "timeout after 300s") (codes "2026-01-02T03:04:05Z") (ground arith)
      (ground arith) (ground arith) (ground arith)
