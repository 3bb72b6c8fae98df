-- ===== src/Daemon.antt =====
-- What the daemon resources of internal/provider share (dhcp_server_resource.go,
-- dhcp6_server_resource.go, radv_resource.go): a daemon is the provider's own binary, started
-- detached, that leaves its process identifier in the file `pid` of the resource's directory. The
-- functions are written out once per resource in the source, with the same text but for the names
-- of `Kind`.
pub mod Pid
pub mod Handlers
pub mod Read
use terraform_provider_zedam.Prelude.{
  ℕ, suc, ◌+◌, ◌-◌, ◌*◌, ◌^◌, ltb, leb, Bool, true, false, ◌&&◌, not, ◌==◌, List, [], ◌∷◌, ◌++◌,
  zero, Option, none, some, if◌then◌else◌, ◌≡◌, refl,
}
use terraform_provider_zedam.Prelude.Int.{ℤ, pos, negsuc}
use terraform_provider_zedam.Text.{Text, codes, ◌=ᵗ◌, is_empty, trim_space}
use terraform_provider_zedam.Text.Decimal.{format}
use terraform_provider_zedam.GoError.{GoError, new, errorf, error_text}
use terraform_provider_zedam.Exec.{Result, Host, Fallible, got, failure, diagnostics, join_path}
use terraform_provider_zedam.Attr.{Attr, null, unknown, known, value_string}
use terraform_provider_zedam.IpLink.{ProviderConfig}
use terraform_provider_zedam.IpLink.Parse.{is_digit}

-- the error of `strconv.ParseInt` (its text is quoted as it is, without the escapes of `%q`)
abbrev num_error : Text → Text → GoError
num_error s why = new (codes "strconv.ParseInt: parsing \"" ++ (s ++ (codes "\": " ++ why)))

-- the digits of a number of 32 bits; an error tells the reason
unfoldable pub scan32 : Text → ℕ → Fallible ℕ
scan32 [] n = got n
scan32 (c ∷ s) n =
    let m = n * 10 + (c - b'0') in
    let rest = scan32 s m in
    if not (is_digit c)
    then failure (new (codes "invalid syntax"))
    else if leb m (2 ^ 32 - 1)
    then rest
    else failure (new (codes "value out of range"))

unfoldable pub digits32 : Text → Fallible ℕ
unfolding scan32
digits32 [] = failure (new (codes "invalid syntax"))
digits32 (c ∷ s) = scan32 (c ∷ s) 0

abbrev negated : ℕ → ℤ
negated zero = pos 0
negated (suc n) = negsuc n

abbrev signed32 : Bool → Text → Fallible ℕ → Fallible ℤ
signed32 negative s (failure e) = failure (num_error s (error_text e))
signed32 true s (got n) =
    if leb n (2 ^ 31) then got (negated n) else failure (num_error s (codes "value out of range"))
signed32 false s (got n) =
    if ltb n (2 ^ 31) then got (pos n) else failure (num_error s (codes "value out of range"))

-- `strconv.ParseInt(s, 10, 32)`
unfoldable pub parse_int32 : Text → Fallible ℤ
unfolding digits32
parse_int32 [] = signed32 false [] (digits32 [])
parse_int32 (c ∷ s) =
    if c == b'-'
    then signed32 true (c ∷ s) (digits32 s)
    else if c == b'+'
    then signed32 false (c ∷ s) (digits32 s)
    else signed32 false (c ∷ s) (digits32 (c ∷ s))

-- the names of a daemon in titles and in messages: "DHCPServer" and "DHCP server"
pub record Kind : Type 0 where
  pub title : Text
  pub what : Text

abbrev pub running : Text
running = codes "running"

abbrev pub stopped : Text
stopped = codes "stopped"

-- the desired state of an attribute: "running" if it says nothing
abbrev pub desired_state : Attr Text → Text
desired_state state = if is_empty (value_string state) then running else value_string state

-- The command of a daemon: `srvCmd` and `srvArgs`, the binary itself, through sudo or not, inside a
-- namespace or not.
unfoldable pub self_command : ProviderConfig → Text → Text → Text × List Text
self_command conf self netns =
    if not (is_empty netns)
    then if conf.use_sudo
      then (conf.sudo, codes "-n" ∷ conf.ip ∷ codes "netns" ∷ codes "exec" ∷ netns ∷ self ∷ [])
      else (conf.ip, codes "netns" ∷ codes "exec" ∷ netns ∷ self ∷ [])
    else if conf.use_sudo
    then (conf.sudo, codes "-n" ∷ self ∷ [])
    else (self, [])

abbrev pub with_flags : Text × List Text → List Text → Text × List Text
with_flags (cmd, args) more = (cmd, args ++ more)

abbrev sigkill : ℕ
sigkill = 9

module _ (h : Host) where
  open h use {
    World, write_file, read_file, stat, is_not_exist, run_detached, is_running, kill,
    show_diagnostics,
  }

  -- `-pid-file` of main.go: the process writes its identifier, before anything else
  unfoldable pub write_pid_file : Text → ℕ → World → Option GoError × World
  write_pid_file path pid w =
      if is_empty path then (none, w) else write_file path (format pid) 0o644 w

  abbrev judge_running : ℤ → Fallible Bool × World → Fallible (Bool × ℤ) × World
  judge_running pid (got r, w) = (got (r, pid), w)
  judge_running pid (failure e, w) = (failure e, w)

  abbrev check_pid : Fallible ℤ → World → Fallible (Bool × ℤ) × World
  check_pid (failure e) w = (failure (errorf [] e), w)
  check_pid (got pid) w = judge_running pid (is_running pid [] w)

  abbrev pub check_file : Fallible Text × World → Fallible (Bool × ℤ) × World
  check_file (failure e, w) = (failure (errorf [] e), w)
  check_file (got x, w) = check_pid (parse_int32 (trim_space x)) w

  -- `readDHCPServerPID`; of its three results at an error the callers read the error alone
  unfoldable pub read_pid : Text → World → Fallible (Bool × ℤ) × World
  read_pid path w = check_file (read_file (join_path path (codes "pid")) w)

  abbrev pub is_alive : Fallible (Bool × ℤ) → Bool
  is_alive (got (r, pid)) = r
  is_alive (failure e) = false

  module _ (kind : Kind) where
    -- nothing unwraps this error, so its text is all there is of it
    abbrev judge_start : Result × World → Option GoError × World
    judge_start (res, w) = elim res.error [
      | none ↦ (none, w)
      | some e ↦ (
        some (
            new (
              codes "failed to start "
              ++ (kind.what
                  ++ (codes ": "
                      ++ (error_text e
                          ++ (codes ", diagnostics: " ++ show_diagnostics (diagnostics res))))))),
        w,
      )
    ]

    -- `startDHCPServer`, of the words of its command line
    unfoldable pub start_daemon : Text → Text × List Text → World → Option GoError × World
    start_daemon d (cmd, args) w = judge_start (run_detached d cmd args w)

    abbrev wrap_kill : Option GoError × World → Option GoError × World
    wrap_kill (none, w) = (none, w)
    wrap_kill (some e, w) =
        (some (errorf (codes "can't kill " ++ (kind.what ++ codes " process: ")) e), w)

    abbrev kill_found : Fallible (Bool × ℤ) × World → Option GoError × World
    kill_found (failure e, w) =
        (some (errorf (codes "can't find " ++ (kind.what ++ codes " process: ")) e), w)
    kill_found (got (r, pid), w) = elim r [
      | false ↦ (none, w)
      | true ↦ wrap_kill (kill pid sigkill w)
    ]

    -- `stopDHCPServer`
    unfoldable pub stop_daemon : Text → World → Option GoError × World
    stop_daemon d w = kill_found (read_pid d w)

    -- the state that is reported after a start or a stop
    abbrev reconciled : Text → Text → Option GoError × World → Fallible Text × World
    reconciled verb actual (none, w) = (got actual, w)
    reconciled verb actual (some e, w) = (
      failure (errorf (codes "failed to " ++ (verb ++ (codes " " ++ (kind.what ++ codes ": ")))) e),
      w,
    )

    abbrev no_directory : GoError
    no_directory = new (codes "resource directory does not exist")

    abbrev gone : Option GoError → Bool
    gone none = false
    gone (some e) = is_not_exist e

    module _ (d : Text) (start stop : World → Option GoError × World) where
      -- the actual state is brought to the desired one
      unfoldable pub reconcile : Text → Fallible (Bool × ℤ) × World → Fallible Text × World
      reconcile desired (pid, w) = elim (is_alive pid) [
        | false ↦
            if desired =ᵗ running
            then reconciled (codes "restart") running (start w)
            else (got stopped, w)
        | true ↦
            if desired =ᵗ stopped
            then reconciled (codes "stop") stopped (stop w)
            else (got running, w)
      ]

      abbrev pub after_stat : Attr Text → Option GoError × World → Fallible Text × World
      after_stat state (e, w) =
          if gone e
          then (failure no_directory, w)
          else reconcile (desired_state state) (read_pid d w)

      -- `readDHCPServer`, of the state attribute and with the resource's start and stop: the state
      -- that it sets
      unfoldable pub read_daemon : Attr Text → World → Fallible Text × World
      unfolding reconcile
      read_daemon state w = after_stat state (stat d w)
