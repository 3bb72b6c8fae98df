-- ===== src/Lag/Handlers.antt =====
-- `Create`, `Read` and `Delete` of internal/provider/lag_resource.go. A handler that goes on with a
-- value sets it as the new state.
use terraform_provider_zedam.Prelude.{◌||◌, List, [], ◌∷◌, ◌++◌, Option, none, some, if◌then◌else◌}
use terraform_provider_zedam.Prelude.Int.{ℤ}
use terraform_provider_zedam.Text.{Text, codes}
use terraform_provider_zedam.Diag.{diags_any}
use terraform_provider_zedam.GoError.{error_text, error_contains_any}
use terraform_provider_zedam.Exec.{Result, Host, diagnostics, format_int, join_path}
use terraform_provider_zedam.Exec.Act.{Act, Step, go, stop, fail, pure, when, ◌>>=◌, ◌>>◌}
use terraform_provider_zedam.Exec.Try.{Attempt, done, failed, report}
use terraform_provider_zedam.Attr.{Attr, null, unknown, known, is_set, value_string}
use terraform_provider_zedam.IpLink.{ProviderConfig, build_ip_command}
use terraform_provider_zedam.Resource.{
  NetLib, IpCommand, intf_not_found_strs, not_tolerated, run_ip, run_or_fail, judge_err, prepare,
}
use terraform_provider_zedam.Bridge.{netns_of}
use terraform_provider_zedam.Bridge.Handlers.{address, no_address, link_local_ipv6_from_mac_string}
use terraform_provider_zedam.Lag.{LagModel, add_words, set_dev, enslave_member, read_lag}

abbrev pub lag_error : Text
lag_error = codes "LAG Resource Error"

module _ (h : Host) (net : NetLib) (conf : ProviderConfig) where
  open h use {World, remove}
  open net use {parse_cidr, ip_string}

  -- `getResourceDir`
  unfoldable pub resource_dir : Text → Text
  resource_dir id = join_path (join_path conf.lib_path (codes "lag_intfs")) id

  -- a command with one attribute, if that is set
  abbrev pub run_attr :
      Text → IpCommand → Text → Text → Attr Text → (Text → List Text) → Act World (Unit {0})
  run_attr d ip title detail null words = pure tt
  run_attr d ip title detail unknown words = pure tt
  run_attr d ip title detail (known v) words = run_or_fail h d ip title detail (words v) >> pure tt

  abbrev mtu_text : Attr ℤ → Attr Text
  mtu_text null = null
  mtu_text unknown = unknown
  mtu_text (known n) = known (format_int n)

  unfoldable pub set_mtu : Text → IpCommand → Text → Text → Attr ℤ → Act World (Unit {0})
  set_mtu d ip title bond mtu =
      run_attr d ip title (codes "Unable to set bond MTU.") (mtu_text mtu)
        (λ m. set_dev bond (codes "mtu" ∷ m ∷ []))

  -- the members of `Create` and `Update`, up to the first that fails
  unfoldable pub enslave_members : Text → IpCommand → Text → Text → List Text → Act World (Unit {0})
  enslave_members d ip title bond [] = pure tt
  enslave_members d ip title bond (intf ∷ ifaces) =
      (λ w. report title (enslave_member h d ip bond intf w))
      >> enslave_members d ip title bond ifaces

  unfoldable pub enslave_set : Text → IpCommand → Text → Attr (List Text) → Act World (Unit {0})
  enslave_set d ip bond null = pure tt
  enslave_set d ip bond unknown = pure tt
  enslave_set d ip bond (known ifaces) = enslave_members d ip lag_error bond ifaces

  unfoldable pub add_address :
      Text → IpCommand → Text → Text → Text → Text → Attr Text → Act World (Unit {0})
  add_address d ip bond title hint detail addr =
      when (is_set addr) (elim (parse_cidr (value_string addr)) [
        | some e ↦ fail title (hint ++ error_text e) []
        | none ↦
            run_or_fail h d ip lag_error detail
              (codes "addr" ∷ codes "add" ∷ value_string addr ∷ codes "dev" ∷ bond ∷ [])
            >> pure tt
      ])

  unfoldable pub add_link_local : Text → IpCommand → LagModel → Act World (Unit {0})
  add_link_local d ip model w =
      if is_set model.link.ipv6_address
      then (elim (link_local_ipv6_from_mac_string net (value_string model.link.mac_address)) [
        | no_address e ↦
            fail lag_error
              (codes "Can't configure link-local address '<nil>' on bond interface: "
                ++ error_text e)
              [] w
        | address a ↦
            (run_or_fail h d ip lag_error (codes "Unable to configure bond link-local address.") (
                  codes "addr"
                  ∷ codes "add"
                  ∷ (ip_string a ++ codes "/64")
                  ∷ codes "scope"
                  ∷ codes "link"
                  ∷ codes "dev"
                  ∷ value_string model.name
                  ∷ [])
                >> pure tt)
              w
      ])
      else (go tt, w)

  -- the attributes of `Create` behind the bond itself, in order
  unfoldable pub configure_lag : Text → IpCommand → Text → LagModel → Act World (Unit {0})
  configure_lag d ip bond plan = do
    set_mtu d ip lag_error bond plan.link.mtu
    run_attr d ip lag_error (codes "Unable to set MAC address for bond.") plan.link.mac_address
        (λ m. set_dev bond (codes "address" ∷ m ∷ []))
    enslave_set d ip bond plan.enslaved_interfaces
    add_address d ip bond (codes "Invalid IPv4 address format")
        (codes "IPv4 address must be in CIDR format (e.g., '192.168.1.1/24'): ")
        (codes "Unable to configure bond IPv4 address.") plan.link.ipv4_address
    add_address d ip bond (codes "Invalid IPv6 address format")
        (codes "IPv6 address must be in CIDR format (e.g., 'fd00::1/64'): ")
        (codes "Unable to configure bond IPv6 address.") plan.link.ipv6_address
    run_attr d ip lag_error (codes "Unable to set bond state.") plan.link.state
        (λ s. set_dev bond (s ∷ []))

  unfoldable pub create : LagModel → Act World LagModel
  unfolding configure_lag add_link_local
  create plan = do
    id ← prepare h lag_error (join_path conf.lib_path (codes "lag_intfs"))
    let d = resource_dir id
    let bond = value_string plan.name
    let ip = build_ip_command conf (netns_of plan.netns)
    run_or_fail h d ip lag_error (codes "Unable to create a new bond.") (add_words bond plan)
    configure_lag d ip bond plan
    model ← λ w.
        report (codes "Failed to read bond state")
          (read_lag h net d ip (record plan { id = known id }) w)
    add_link_local d ip model
    pure model

  -- no value: the resource is removed from the state
  abbrev lag_result : Attempt LagModel × World → Step (Option LagModel) × World
  lag_result (done model, w) = (go (some model), w)
  lag_result (failed ds e, w) =
      if error_contains_any e intf_not_found_strs || diags_any ds intf_not_found_strs
      then (go none, w)
      else (
        stop (record { summary = codes "Failed to read bond state"; detail = error_text e } ∷ ds),
        w,
      )

  unfoldable pub read : LagModel → Act World (Option LagModel)
  read state w = lag_result (
      read_lag h net (resource_dir (value_string state.id))
        (build_ip_command conf (netns_of state.netns)) state w)

  unfoldable pub remove_dir : Text → Act World (Unit {0})
  remove_dir d w =
      judge_err h (codes "LAG Resource Delete Error")
        (λ e. codes "Can't delete LAG resource directory: " ++ error_text e) (remove d w)

  -- what follows the deletion of the bond
  unfoldable pub after_delete : Text → Result × World → Step (Unit {0}) × World
  after_delete d (res, w) = elim res.error [
    | none ↦ remove_dir d w
    | some e ↦
        if not_tolerated res e intf_not_found_strs
        then fail (codes "Failed to delete bond") (error_text e) (diagnostics res) w
        else remove_dir d w
  ]

  unfoldable pub delete : LagModel → Act World (Unit {0})
  delete state w =
      let d = resource_dir (value_string state.id) in
      after_delete d (
        run_ip h d (build_ip_command conf (netns_of state.netns))
          (codes "link"
            ∷ codes "delete"
            ∷ value_string state.name
            ∷ codes "type"
            ∷ codes "bond"
            ∷ [])
          w)
