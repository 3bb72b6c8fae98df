-- ===== src/Tests.antt =====
-- Concrete hosts, errors and plans, and the theorems of the development at them.
pub mod Network
pub mod Waiting
pub mod Texts
pub mod Bond
pub mod Remote
pub mod Namespace
pub mod Barrier
pub mod Daemons
pub mod Taps
pub mod Images
pub mod Backend
use terraform_provider_zedam.Prelude.{ℕ, suc, ◌+◌, true, false, List, [], ◌∷◌, none, some}
use terraform_provider_zedam.Prelude.Int.{pos}
use terraform_provider_zedam.Text.{Text, codes}
use terraform_provider_zedam.GoError.{GoError, new}
use terraform_provider_zedam.Exec.{Result, Host, got}
use terraform_provider_zedam.IpLink.{ProviderConfig}
use terraform_provider_zedam.Resource.{NetLib}

-- a command's result
abbrev pub printed : Text → Result
printed out = record {
  cmd = codes "/sbin/ip";
  args = [];
  exit_code = pos 0;
  stdout = out;
  stderr = [];
  error = none;
  timed_out = false;
}

-- what both executors answer for a command that fails
abbrev pub exit_one : Text → Result
exit_one msg = record (printed []) {
  exit_code = pos 1;
  stderr = msg;
  error = some (new (codes "exit status 1"));
}

-- A host on which every command gives one result; its world counts the calls.
abbrev pub answering : Result → Host
answering res = record {
  World = ℕ;
  run = λ d cmd args w. (res, suc w);
  mkdir_all = λ path mode w. (none, suc w);
  write_file = λ path content mode w. (none, suc w);
  chmod = λ path mode w. (none, suc w);
  remove = λ path w. (none, suc w);
  read_file = λ path w. (got [], suc w);
  stat = λ path w. (none, suc w);
  is_not_exist = λ e. true;
  open_write = λ path mode w. (none, suc w);
  write_out = λ path content w. (none, suc w);
  run_detached = λ d cmd args w. (res, suc w);
  is_running = λ pid exe w. (got true, suc w);
  kill = λ pid signal w. (none, suc w);
  self_path = codes "/usr/local/bin/provider";
  show_diagnostics = λ ds. [];
  getwd = λ w. (codes "/work", none);
  new_resource_id = λ w. (codes "0a1b2c3d", none, suc w);
}

abbrev pub test_net : NetLib
test_net = record {
  parse_cidr = λ a. none;
  is_link_local_unicast = λ a. false;
  parse_mac = λ a. some (0x02 ∷ 0 ∷ 0 ∷ 0 ∷ 0 ∷ 1 ∷ []);
  parse_mac_error = λ a. new (codes "invalid MAC address");
  ip_string = λ ip. codes "fe80::ff:fe00:1";
}

abbrev pub test_conf : ProviderConfig
test_conf = record {
  ip = codes "/sbin/ip";
  sudo = codes "/usr/bin/sudo";
  bash = codes "/bin/bash";
  use_sudo = true;
  lib_path = codes "/var/lib/zedamigo";
  target_os = codes "linux";
  target_arch = codes "amd64";
}
