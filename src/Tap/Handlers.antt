-- ===== src/Tap/Handlers.antt =====
-- `Create`, `Read`, `Update` and `Delete` of internal/provider/tap_resource.go. A handler that goes
-- on with a value sets it as the new state.
use terraform_provider_zedam.Prelude.{
  ◌||◌, not, List, [], ◌∷◌, ◌++◌, Option, none, some, if◌then◌else◌,
}
use terraform_provider_zedam.Text.{Text, codes, ◌=ᵗ◌}
use terraform_provider_zedam.Diag.{diags_any}
use terraform_provider_zedam.GoError.{error_text, error_contains_any}
use terraform_provider_zedam.Exec.{Result, Host, diagnostics, join_path}
use terraform_provider_zedam.Exec.Act.{Act, Step, go, stop, fail, pure, when, ◌>>=◌, ◌>>◌}
use terraform_provider_zedam.Exec.Try.{Attempt, done, failed, report}
use terraform_provider_zedam.Attr.{Attr, known, is_null, is_set, value_string}
use terraform_provider_zedam.IpLink.{ProviderConfig, build_ip_command}
use terraform_provider_zedam.Resource.{
  NetLib, IpCommand, intf_not_found_strs, not_tolerated, run_ip, run_or_fail, judge_err, prepare,
}
use terraform_provider_zedam.NetNs.{ip_command}
use terraform_provider_zedam.Lag.{option_words, format_attr, set_dev}
use terraform_provider_zedam.Lag.Handlers.{run_attr}
use terraform_provider_zedam.Tap.{TapModel, read_tap}
use terraform_provider_zedam.Tap.Mover.{start_tap_mover, stop_tap_mover, read_mover_status}

abbrev tap_error : Text
tap_error = codes "TAP Resource Error"

abbrev no_tap : Text
no_tap = codes "Unable to create a new TAP."

-- the words that add the interface
unfoldable pub add_words : Text → TapModel → List Text
add_words tap plan =
    (codes "tuntap" ∷ codes "add" ∷ codes "dev" ∷ tap ∷ codes "mode" ∷ codes "tap" ∷ [])
    ++ (option_words (codes "user") plan.owner ++ option_words (codes "group") plan.group)

module _ (h : Host) (net : NetLib) (conf : ProviderConfig) where
  open h use {World, remove}
  open net use {parse_cidr}

  -- `getResourceDir`
  unfoldable pub resource_dir : Text → Text
  resource_dir id = join_path (join_path conf.lib_path (codes "tap_intfs")) id

  -- the address is validated before anything uses it
  unfoldable pub check_address : Attr Text → Act World (Unit {0})
  check_address addr = when (is_set addr) (elim (parse_cidr (value_string addr)) [
    | none ↦ pure tt
    | some e ↦
        fail (codes "Invalid IPv4 address format")
          (codes "IPv4 address must be in CIDR format (e.g., '192.168.1.1/24'): " ++ error_text e)
          []
  ])

  -- the branch of `Create` with a namespace: the rest is the mover's
  unfoldable pub hand_over : Text → TapModel → Act World TapModel
  hand_over d plan = do
    (λ w.
        judge_err h tap_error (λ e. codes "Failed to start TAP mover daemon: " ++ error_text e)
          (start_tap_mover h conf d plan (value_string plan.netns) w))
    pure (record plan { mover_status = known (codes "pending") })

  -- the branch without one: master, then state, then address
  unfoldable pub configure : Text → IpCommand → TapModel → Act World TapModel
  configure d ip plan = do
    let tap = value_string plan.name
    run_attr h net conf d ip tap_error no_tap plan.master
        (λ m. set_dev tap (codes "master" ∷ m ∷ []))
    run_attr h net conf d ip tap_error no_tap plan.state (λ s. set_dev tap (s ∷ []))
    run_attr h net conf d ip tap_error no_tap plan.ipv4_address
        (λ a. codes "addr" ∷ codes "add" ∷ a ∷ codes "dev" ∷ tap ∷ [])
    (λ w.
        report (codes "Failed to read TAP state")
          (read_tap h net d ip (record plan { mover_status = known [] }) w))

  unfoldable pub create : TapModel → Act World TapModel
  unfolding check_address hand_over configure
  create plan = do
    id ← prepare h tap_error (join_path conf.lib_path (codes "tap_intfs"))
    let d = resource_dir id
    let tap = value_string plan.name
    let ip = ip_command conf
    let model = record plan { id = known id }
    run_or_fail h d ip tap_error no_tap (add_words tap plan)
    run_attr h net conf d ip tap_error no_tap (format_attr plan.mtu)
        (λ m. set_dev tap (codes "mtu" ∷ m ∷ []))
    check_address plan.ipv4_address
    (if is_set plan.netns then hand_over d model else configure d ip model)

  -- no value: the resource is removed from the state
  abbrev pub read_result : Attempt TapModel × World → Step (Option TapModel) × World
  read_result (done model, w) = (go (some model), w)
  read_result (failed ds e, w) =
      if error_contains_any e intf_not_found_strs || diags_any ds intf_not_found_strs
      then (go none, w)
      else (
        stop (record { summary = codes "Failed to read TAP state"; detail = error_text e } ∷ ds),
        w,
      )

  -- master, state and address are kept as they were asked for
  abbrev pub keep_planned : TapModel → Attempt TapModel × World → Attempt TapModel × World
  keep_planned plan (failed ds e, w) = (failed ds e, w)
  keep_planned plan (done model, w) = (
    done (record model {
      master = plan.master;
      state = plan.state;
      ipv4_address = plan.ipv4_address;
    }),
    w,
  )

  -- `Read` with a namespace, once the status of the mover is known
  unfoldable pub read_by_status : Text → TapModel → Text × World → Step (Option TapModel) × World
  unfolding ◌=ᵗ◌
  read_by_status d state (status, w) =
      let model = record state { mover_status = known status } in
      if status =ᵗ codes "moved"
      then read_result (read_tap h net d (build_ip_command conf (value_string state.netns)) model w)
      else read_result (keep_planned state (read_tap h net d (build_ip_command conf []) model w))

  unfoldable pub read : TapModel → Act World (Option TapModel)
  unfolding read_by_status
  read state w =
      let d = resource_dir (value_string state.id) in
      if is_set state.netns
      then read_by_status d state (read_mover_status h d w)
      else read_result
          (read_tap h net d (ip_command conf) (record state { mover_status = known [] }) w)

  unfoldable pub update : TapModel → Act World TapModel
  update plan = fail (codes "TAP Resource Update Error") (codes "Update is not supported.") []

  abbrev judge_delete : Result × World → Step (Unit {0}) × World
  judge_delete (res, w) = elim res.error [
    | none ↦ (go tt, w)
    | some e ↦
        if not_tolerated res e intf_not_found_strs
        then fail (codes "Failed to delete TAP") (error_text e) (diagnostics res) w
        else (go tt, w)
  ]

  -- with a namespace: the mover is stopped, and the interface moved back if it is there
  unfoldable pub take_back : Text → TapModel → World → World
  take_back d state w =
      if is_set state.netns
      then (run_ip h d (build_ip_command conf (value_string state.netns))
          (codes "link" ∷ codes "set" ∷ value_string state.name ∷ codes "netns" ∷ codes "1" ∷ [])
          (stop_tap_mover h d w)).1
      else w

  unfoldable pub delete : TapModel → Act World (Unit {0})
  unfolding take_back
  delete state = do
    let d = resource_dir (value_string state.id)
    let tap = value_string state.name
    (λ w. (go tt, take_back d state w))
    when (not (is_null state.master))
        (λ w. judge_delete (run_ip h d (ip_command conf) (set_dev tap (codes "nomaster" ∷ [])) w))
    (λ w. judge_delete (
        run_ip h d (ip_command conf)
          (codes "tuntap" ∷ codes "delete" ∷ codes "dev" ∷ tap ∷ codes "mode" ∷ codes "tap" ∷ [])
          w))
    (λ w.
        judge_err h (codes "TAP Resource Delete Error")
          (λ e. codes "Can't delete TAP resource directory: " ++ error_text e) (remove d w))
