-- ===== src/Tap/Mover.antt =====
-- `startTAPMover`, `stopTAPMover` and `readMoverStatus` of internal/provider/tap_resource.go.
use terraform_provider_zedam.Prelude.{List, [], ◌∷◌, ◌++◌, Option, none, some, if◌then◌else◌}
use terraform_provider_zedam.Prelude.Int.{ℤ}
use terraform_provider_zedam.Text.{Text, codes, concat, contains, trim_space}
use terraform_provider_zedam.Text.Quote.{go_quote}
use terraform_provider_zedam.GoError.{GoError, new, errorf, error_text}
use terraform_provider_zedam.Exec.{Result, Host, Fallible, got, failure, diagnostics, join_path}
use terraform_provider_zedam.Attr.{value_string}
use terraform_provider_zedam.IpLink.{ProviderConfig}
use terraform_provider_zedam.Daemon.{parse_int32, self_command, with_flags}
use terraform_provider_zedam.Radv.{format_bool}
use terraform_provider_zedam.Tap.{TapModel}

abbrev line : Text → Text → Text
line key value = key ++ (codes ": " ++ (value ++ codes "\n"))

-- the text of the mover's configuration file; a value that is not set is ""
unfoldable pub mover_config : ProviderConfig → Text → TapModel → Text → Text
unfolding concat
mover_config conf d model netns = concat (
    line (codes "tap_name") (go_quote (value_string model.name))
    ∷ line (codes "netns") (go_quote netns)
    ∷ line (codes "master") (go_quote (value_string model.master))
    ∷ line (codes "state") (go_quote (value_string model.state))
    ∷ line (codes "ipv4_address") (go_quote (value_string model.ipv4_address))
    ∷ line (codes "status_file") (go_quote (join_path d (codes "mover_status")))
    ∷ codes "poll_interval_ms: 500\ntimeout_s: 300\n"
    ∷ line (codes "use_sudo") (format_bool conf.use_sudo)
    ∷ line (codes "sudo_path") (go_quote conf.sudo)
    ∷ line (codes "ip_path") (go_quote conf.ip)
    ∷ [])

-- what the content of the status file says
unfoldable pub content_status : Text → Text
content_status content =
    if contains content (codes "\"moved\"")
    then codes "moved"
    else if contains content (codes "\"error\"")
    then codes "error"
    else codes "pending"

module _ (h : Host) where
  open h use {World, write_file, read_file, stat, run_detached, kill, self_path, show_diagnostics}

  abbrev judge_mover : Result × World → Option GoError × World
  judge_mover (res, w) = elim res.error [
    | none ↦ (none, w)
    | some e ↦ (
      some (
          new (
            codes "failed to start TAP mover: "
            ++ (error_text e ++ (codes ", diagnostics: " ++ show_diagnostics (diagnostics res))))),
      w,
    )
  ]

  abbrev then_start : Text → Text × List Text → Option GoError × World → Option GoError × World
  then_start d words (some e, w) = (some (errorf (codes "can't write mover config: ") e), w)
  then_start d (cmd, args) (none, w) = judge_mover (run_detached d cmd args w)

  -- `startTAPMover`; the mover itself runs in the default namespace
  unfoldable pub start_tap_mover :
      ProviderConfig → Text → TapModel → Text → World → Option GoError × World
  start_tap_mover conf d model netns w =
      let config_path = join_path d (codes "mover_config.yaml") in
      then_start d
        (with_flags (self_command conf self_path []) (
          codes "-pid-file"
          ∷ join_path d (codes "mover_pid")
          ∷ codes "-tap-mover"
          ∷ codes "-tm.config"
          ∷ config_path
          ∷ []))
        (write_file config_path (mover_config conf d model netns) 0o600 w)

  abbrev kill_pid : Fallible ℤ → World → World
  kill_pid (failure e) w = w
  kill_pid (got pid) w = (kill pid 9 w).1

  abbrev kill_file : Fallible Text × World → World
  kill_file (failure e, w) = w
  kill_file (got x, w) = kill_pid (parse_int32 (trim_space x)) w

  -- `stopTAPMover`, which reports nothing
  unfoldable pub stop_tap_mover : Text → World → World
  stop_tap_mover d w = kill_file (read_file (join_path d (codes "mover_pid")) w)

  abbrev by_pid_file : Option GoError × World → Text × World
  by_pid_file (none, w) = (codes "pending", w)
  by_pid_file (some e, w) = ([], w)

  abbrev by_content : Text → Fallible Text × World → Text × World
  by_content d (failure e, w) = by_pid_file (stat (join_path d (codes "mover_pid")) w)
  by_content d (got x, w) = (content_status (trim_space x), w)

  -- `readMoverStatus`
  unfoldable pub read_mover_status : Text → World → Text × World
  unfolding content_status
  read_mover_status d w = by_content d (read_file (join_path d (codes "mover_status")) w)
