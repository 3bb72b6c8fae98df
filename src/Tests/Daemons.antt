-- ===== src/Tests/Daemons.antt =====
-- The daemon resources.
use terraform_provider_zedam.Prelude.{
  ℕ, true, false, [], ◌∷◌, Option, none, some, ◌≡◌, ◌↔◌, refl, inl, inr, arith,
}
use terraform_provider_zedam.Prelude.Int.{pos}
use terraform_provider_zedam.Text.{Text, codes, trim_space, ◌=ᵗ◌}
use terraform_provider_zedam.Text.Decimal.{format}
use terraform_provider_zedam.GoError.{GoError}
use terraform_provider_zedam.Exec.{Host, got}
use terraform_provider_zedam.Attr.{null, unknown, known}
use terraform_provider_zedam.Daemon.{
  parse_int32, write_pid_file, running, stopped, start_daemon, stop_daemon, read_daemon, read_pid,
}
use terraform_provider_zedam.Daemon.Handlers.{update_state}
use terraform_provider_zedam.DhcpServer.Pid.{read_pid-write_pid_file}
use terraform_provider_zedam.Daemon.Read.{update_state-desired, read_daemon_steady}
use terraform_provider_zedam.DhcpServer.{
  DhcpServerModel, PoolModel, StaticRouteModel, dhcp_kind, config_changed, start_dhcp_server,
}
use terraform_provider_zedam.DhcpServer.Config.{config_changed_iff, SameConfig}
use terraform_provider_zedam.DhcpServer.Update.{IsStarted, update_forgets_files}
use terraform_provider_zedam.InternetMonitor
use terraform_provider_zedam.InternetMonitor.{
  InternetMonitorModel, start_internet_monitor, read_internet_monitor,
}
use terraform_provider_zedam.DhcpServer
use terraform_provider_zedam.DhcpServer.{read_dhcp_server}
use terraform_provider_zedam.InternetMonitor.Update.{update_keeps}
use terraform_provider_zedam.Tests.{printed, answering, test_conf}

-- a host on which no process is found and every command succeeds
abbrev quiet : Host
quiet = answering (printed [])

abbrev dhcp_dir : Text
dhcp_dir = codes "/var/lib/zedamigo/dhcp_servers/0a1b2c3d"

abbrev start_it : ℕ → Option GoError × ℕ
start_it = start_daemon quiet dhcp_kind dhcp_dir (codes "/usr/local/bin/provider", [])

abbrev stop_it : ℕ → Option GoError × ℕ
stop_it = stop_daemon quiet dhcp_kind dhcp_dir

update_state-desired_example : known running ≡ known running
unfolding update_state ◌=ᵗ◌ start_daemon read_daemon read_pid parse_int32 trim_space
update_state-desired_example =
    update_state-desired quiet dhcp_kind dhcp_dir start_it stop_it (known running) (known stopped)
      (known running) 0 4 (inl refl) refl

read_daemon_steady_example :
    read_daemon quiet dhcp_kind dhcp_dir start_it stop_it (known stopped) 0 ≡ (got stopped, 2)
unfolding read_pid ◌=ᵗ◌ parse_int32 trim_space
read_daemon_steady_example =
    read_daemon_steady quiet dhcp_kind dhcp_dir start_it stop_it (known stopped) 0 (inr refl) refl
      refl

abbrev test_pool : PoolModel
test_pool = record { start = known (codes "10.0.0.10"); end = known (codes "10.0.0.20") }

abbrev test_dhcp : DhcpServerModel
test_dhcp = record {
  id = known (codes "0a1b2c3d");
  interface = known (codes "br0");
  server_id = known (codes "10.0.0.1");
  name_server = known (codes "10.0.0.1");
  router = known (codes "10.0.0.1");
  netmask = known (codes "255.255.255.0");
  pool = some test_pool;
  lease_time = known (pos 3600);
  static_routes = record { to = known (codes "10.1.0.0/16"); via = known (codes "10.0.0.2") } ∷ [];
  leases_file = known (codes "/d/leases.sqlite3");
  config_file = known (codes "/d/config.yaml");
  pid_file = known (codes "/d/pid");
  state = known stopped;
  netns = null;
}

-- the plan of an update that starts the server, with its computed attributes unknown
abbrev planned_dhcp : DhcpServerModel
planned_dhcp = record test_dhcp {
  config_file = unknown;
  pid_file = unknown;
  leases_file = unknown;
  state = known running;
}

config_changed_iff_example :
    (config_changed planned_dhcp test_dhcp test_pool test_pool ≡ false)
    ↔ SameConfig planned_dhcp test_dhcp test_pool test_pool
config_changed_iff_example = config_changed_iff planned_dhcp test_dhcp test_pool test_pool

update_forgets_files_example :
    (planned_dhcp.config_file ≡ unknown)
    × (planned_dhcp.pid_file ≡ unknown)
    × IsStarted quiet test_conf planned_dhcp dhcp_dir 0 4
unfolding DhcpServer.update config_changed ◌=ᵗ◌ update_state start_dhcp_server start_daemon
    read_dhcp_server read_daemon read_pid parse_int32 trim_space DhcpServer.equal_static_routes
    DhcpServer.resource_dir
update_forgets_files_example =
    update_forgets_files quiet test_conf planned_dhcp test_dhcp planned_dhcp 0 4 refl refl refl refl
      refl

-- a host that keeps one file, on which every process is found
abbrev one_file : Host
one_file = record {
  World = Text;
  run = λ d cmd args w. (printed [], w);
  mkdir_all = λ path mode w. (none, w);
  write_file = λ path text mode w. (none, text);
  chmod = λ path mode w. (none, w);
  remove = λ path w. (none, w);
  read_file = λ path w. (got w, w);
  stat = λ path w. (none, w);
  is_not_exist = λ e. true;
  open_write = λ path mode w. (none, w);
  write_out = λ path text w. (none, w);
  run_detached = λ d cmd args w. (printed [], w);
  is_running = λ pid exe w. (got true, w);
  kill = λ pid signal w. (none, w);
  self_path = codes "/usr/local/bin/provider";
  show_diagnostics = λ ds. [];
  getwd = λ w. (codes "/work", none);
  new_resource_id = λ w. (codes "0a1b2c3d", none, w);
}

read_pid-write_pid_file_example :
    read_pid one_file dhcp_dir
      (write_pid_file one_file (codes "/var/lib/zedamigo/dhcp_servers/0a1b2c3d/pid") 4711 []).1
    ≡ (got (true, pos 4711), codes "4711")
unfolding write_pid_file DhcpServer.with_files format
read_pid-write_pid_file_example =
    read_pid-write_pid_file one_file test_conf (codes "0a1b2c3d") dhcp_dir test_dhcp 4711 true []
      (codes "4711") (λ path text mode w ok. refl) (omega arith) refl refl

abbrev test_monitor : InternetMonitorModel
test_monitor = record {
  id = known (codes "0a1b2c3d");
  destinations = known (codes "example.org" ∷ []);
  interval = known (codes "30s");
  ping_count = known (pos 3);
  ping_timeout = known (codes "5s");
  dns_timeout = known (codes "5s");
  http_timeout = known (codes "5s");
  doh_endpoint = known (codes "https://dns.example.org");
  flush_every_n = known (pos 10);
  privileged_icmp = known true;
  output_file = known (codes "/d/output.msu.cbor");
  config_file = known (codes "/d/config.yaml");
  pid_file = known (codes "/d/pid");
  state = known stopped;
  netns = null;
}

abbrev planned_monitor : InternetMonitorModel
planned_monitor = record test_monitor {
  config_file = unknown;
  pid_file = unknown;
  state = known running;
}

abbrev running_monitor : InternetMonitorModel
running_monitor = record test_monitor { state = known running }

update_keeps_example :
    (running_monitor.state ≡ known running)
    × (running_monitor.config_file ≡ test_monitor.config_file)
    × (running_monitor.pid_file ≡ test_monitor.pid_file)
    × (running_monitor.output_file ≡ test_monitor.output_file)
unfolding InternetMonitor.update InternetMonitor.config_changed ◌=ᵗ◌ update_state
    start_internet_monitor start_daemon read_internet_monitor read_daemon read_pid parse_int32
    trim_space
update_keeps_example =
    update_keeps quiet test_conf planned_monitor test_monitor running_monitor 0 4 (inl refl) refl
