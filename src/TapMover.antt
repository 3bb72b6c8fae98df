-- ===== src/TapMover.antt =====
-- main_tap_mover_linux_amd64.go: the daemon that waits for an event on a TAP interface, then moves
-- it into its network namespace and configures it there. The channels of its `select` are one
-- sequence of events, in the order in which the loop takes them; the log is left out.
pub mod Waiting
pub mod Quoted
pub mod Status
use terraform_provider_zedam.Prelude.{
  ℕ, zero, suc, Bool, true, false, not, List, [], ◌∷◌, ◌++◌, Option, none, some, if◌then◌else◌,
}
use terraform_provider_zedam.Prelude.Int.{ℤ, pos, negsuc}
use terraform_provider_zedam.Text.{Text, codes, concat, is_empty, join, trim_space, ◌=ᵗ◌}
use terraform_provider_zedam.Text.Quote.{json_string}
use terraform_provider_zedam.GoError.{GoError, new, error_text}
use terraform_provider_zedam.Exec.{Fallible, got, failure, format_int}

-- `tapMoverCfg` without its poll interval, which nothing reads
pub record MoverCfg : Type 0 where
  pub tap_name : Text
  pub netns : Text
  pub master : Text
  pub state : Text
  pub ipv4_address : Text
  pub status_file : Text
  pub timeout_s : ℤ
  pub use_sudo : Bool
  pub sudo_path : Text
  pub ip_path : Text

-- `tapMoverStatus`
pub record MoverStatus : Type 0 where
  pub status : Text
  pub timestamp : Text
  pub operstate_was : Text
  pub error : Text

-- What the mover asks of its machine: a command's output and error, a file's content replaced, the
-- time as RFC 3339 writes it.
pub record Machine : Type 1 where
  pub World : Type 0
  pub combined_output : Text → List Text → World → (Text × Option GoError) × World
  pub write_file : Text → Text → ℕ → World → Option GoError × World
  pub now : World → Text

abbrev pub error_status : Text → Text → MoverStatus
error_status message t = record {
  status = codes "error";
  timestamp = t;
  operstate_was = [];
  error = message;
}

abbrev pub moved_status : Text → Text → MoverStatus
moved_status operstate t = record {
  status = codes "moved";
  timestamp = t;
  operstate_was = operstate;
  error = [];
}

-- a field with `omitempty`
abbrev pub optional_field : Text → Text → Text
optional_field key value =
    if is_empty value then [] else codes ",\"" ++ (key ++ (codes "\":" ++ json_string value))

-- `json.Marshal` of a status
unfoldable pub marshal : MoverStatus → Text
unfolding concat
marshal s = concat (
    codes "{\"status\":"
    ∷ json_string s.status
    ∷ codes ",\"timestamp\":"
    ∷ json_string s.timestamp
    ∷ optional_field (codes "operstate_was") s.operstate_was
    ∷ optional_field (codes "error") s.error
    ∷ codes "}"
    ∷ [])

-- the defaults for a configuration that says nothing
unfoldable pub positive_or : ℤ → ℤ → ℤ
positive_or d (pos zero) = d
positive_or d (pos (suc n)) = pos (suc n)
positive_or d (negsuc n) = d

-- an event that the loop takes: an update of a link with its name and state, or the end of the
-- context, by its deadline or by a signal
pub data Event : Type 0 where
  link_update : Text → Text → Event
  deadline : Event
  signal : Event

-- whether the program goes on or has ended, with its exit code
pub data Progress : Type 0 where
  waiting : Progress
  exited : ℕ → Progress

module _ (m : Machine) where
  open m use {World, combined_output, write_file, now}

  abbrev judge_cmd : Text → List Text → (Text × Option GoError) × World → Option GoError × World
  judge_cmd command args ((out, none), w) = (none, w)
  judge_cmd command args ((out, some e), w) = (
    some (
        new (
          concat (
            command
            ∷ codes " ["
            ∷ join args (codes " ")
            ∷ codes "]: "
            ∷ error_text e
            ∷ codes ": "
            ∷ trim_space out
            ∷ []))),
    w,
  )

  -- `execCmd`
  unfoldable pub exec_cmd : Text → List Text → World → Option GoError × World
  unfolding concat
  exec_cmd command args w = judge_cmd command args (combined_output command args w)

  -- `runIP`
  unfoldable pub run_ip : MoverCfg → List Text → World → Option GoError × World
  unfolding exec_cmd
  run_ip cfg args w =
      if cfg.use_sudo
      then exec_cmd cfg.sudo_path (codes "-n" ∷ cfg.ip_path ∷ args) w
      else exec_cmd cfg.ip_path args w

  -- `runIPInNetns`
  unfoldable pub run_ip_in_netns : MoverCfg → List Text → World → Option GoError × World
  unfolding exec_cmd
  run_ip_in_netns cfg args w =
      if cfg.use_sudo
      then exec_cmd cfg.sudo_path
          (codes "-n" ∷ cfg.ip_path ∷ codes "netns" ∷ codes "exec" ∷ cfg.netns ∷ cfg.ip_path ∷ args)
          w
      else exec_cmd cfg.ip_path (codes "netns" ∷ codes "exec" ∷ cfg.netns ∷ cfg.ip_path ∷ args) w

  -- `writeStatus`: its errors go to the log
  unfoldable pub write_status : Text → MoverStatus → World → World
  unfolding marshal
  write_status path s w = (write_file path (marshal s) 0o644 w).1

  -- a status with an error, and the exit
  unfoldable pub give_up : MoverCfg → Text → World → Progress × World
  unfolding write_status
  give_up cfg message w = (exited 1, write_status cfg.status_file (error_status message (now w)) w)

  unfoldable pub report_moved : MoverCfg → Text → World → Progress × World
  unfolding write_status
  report_moved cfg operstate w =
      (exited 0, write_status cfg.status_file (moved_status operstate (now w)) w)

  -- a command that must succeed, and what follows it
  abbrev pub or_give_up :
      MoverCfg → Text → Option GoError × World → (World → Progress × World) → Progress × World
  or_give_up cfg message (none, w) k = k w
  or_give_up cfg message (some e, w) k = give_up cfg (message ++ error_text e) w

  -- the same for an attribute that may be ""
  abbrev pub if_given :
      MoverCfg → Text → Text → List Text → (World → Progress × World) → World → Progress × World
  if_given cfg message value args k w =
      if is_empty value then k w else or_give_up cfg message (run_ip_in_netns cfg args w) k

  -- the end of `moveTAP`: the state inside the namespace, and the status
  unfoldable pub set_state : MoverCfg → Text → World → Progress × World
  unfolding run_ip_in_netns give_up report_moved
  set_state cfg operstate =
      if_given cfg (codes "failed to set state on TAP inside netns: ") cfg.state
        (codes "link" ∷ codes "set" ∷ cfg.tap_name ∷ cfg.state ∷ []) (report_moved cfg operstate)

  -- before it the address, which the kernel would have flushed in a move
  unfoldable pub add_address : MoverCfg → Text → World → Progress × World
  unfolding set_state
  add_address cfg operstate =
      if_given cfg (codes "failed to add IPv4 address on TAP inside netns: ") cfg.ipv4_address
        (codes "addr" ∷ codes "add" ∷ cfg.ipv4_address ∷ codes "dev" ∷ cfg.tap_name ∷ [])
        (set_state cfg operstate)

  -- and before that the master
  unfoldable pub set_master : MoverCfg → Text → World → Progress × World
  unfolding add_address
  set_master cfg operstate =
      if_given cfg (codes "failed to set master on TAP inside netns: ") cfg.master
        (codes "link" ∷ codes "set" ∷ cfg.tap_name ∷ codes "master" ∷ cfg.master ∷ [])
        (add_address cfg operstate)

  -- `moveTAP`: the link itself first
  unfoldable pub move_tap : MoverCfg → Text → World → Progress × World
  unfolding run_ip set_master
  move_tap cfg operstate w =
      or_give_up cfg (codes "failed to move TAP to netns: ")
        (run_ip cfg (codes "link" ∷ codes "set" ∷ cfg.tap_name ∷ codes "netns" ∷ cfg.netns ∷ []) w)
        (set_master cfg operstate)

  -- the loop of `tapMoverMain`, over the events that it takes
  unfoldable pub await_link : MoverCfg → List Event → World → Progress × World
  await_link cfg [] w = (waiting, w)
  await_link cfg (link_update name operstate ∷ es) w =
      let rest = await_link cfg es w in
      if not (name =ᵗ cfg.tap_name) then rest else move_tap cfg operstate w
  await_link cfg (deadline ∷ es) w =
      give_up cfg (codes "timeout after " ++ (format_int cfg.timeout_s ++ codes "s")) w
  await_link cfg (signal ∷ es) w = give_up cfg (codes "cancelled by signal") w

  -- `tapMoverMain` from where its configuration is read: the subscription to link events, which may
  -- fail, and the loop
  unfoldable pub tap_mover_main : MoverCfg → Option GoError → List Event → World → Progress × World
  unfolding await_link positive_or
  tap_mover_main cfg (some e) events w =
      give_up cfg (codes "failed to subscribe to netlink events: " ++ error_text e) w
  tap_mover_main cfg none events w =
      await_link (record cfg { timeout_s = positive_or (pos 300) cfg.timeout_s }) events w
