-- ===== src/Bridge/Handlers.antt =====
-- `Create`, `Read`, `Update` and `Delete` of internal/provider/bridge_resource.go. A handler that
-- goes on with a value sets it as the new state; one that stops leaves the state unset.
use terraform_provider_zedam.Prelude.{
  ℕ, ◌||◌, not, List, [], ◌∷◌, ◌++◌, Option, none, some, if◌then◌else◌,
}
use terraform_provider_zedam.Text.{Text, codes}
use terraform_provider_zedam.Text.Decimal.{format}
use terraform_provider_zedam.Prelude.{length}
use terraform_provider_zedam.Diag.{diags_any}
use terraform_provider_zedam.ErrChecker.{contains_one}
use terraform_provider_zedam.GoError.{GoError, new, error_text, error_contains_any}
use terraform_provider_zedam.LlAddr.{link_local_ipv6_from_mac}
use terraform_provider_zedam.Exec.{Result, Host, diagnostics, join_path}
use terraform_provider_zedam.Exec.Act.{Act, Step, go, stop, fail, pure, ◌>>=◌, ◌>>◌}
use terraform_provider_zedam.Exec.Try.{Attempt, done, failed, report}
use terraform_provider_zedam.Attr.{known, is_set, value_string}
use terraform_provider_zedam.IpLink.{ProviderConfig, build_ip_command}
use terraform_provider_zedam.Resource.{
  NetLib, IpCommand, intf_not_found_strs, run_ip, run_or_fail, judge_err, prepare,
}
use terraform_provider_zedam.Bridge.{
  BridgeModel, bridge_error, no_bridge, netns_of, resource_dir, read_bridge, add_address, enslave,
  configure_link,
}

-- `LinkLocalIPv6FromMACString`: the address or the error
pub data LinkLocal : Type 0 where
  address : List ℕ → LinkLocal
  no_address : GoError → LinkLocal

abbrev of_mac : List ℕ → Option (List ℕ) → LinkLocal
of_mac hw (some ip) = address ip
of_mac hw none =
    no_address (new (codes "hardware address must be 6 or 8 bytes, got " ++ format (length hw)))

unfoldable pub link_local_ipv6_from_mac_string : NetLib → Text → LinkLocal
unfolding link_local_ipv6_from_mac
link_local_ipv6_from_mac_string net s = elim (net.parse_mac s) [
  | none ↦ no_address (net.parse_mac_error s)
  | some hw ↦ of_mac hw (link_local_ipv6_from_mac hw)
]

module _ (h : Host) (net : NetLib) (conf : ProviderConfig) where
  open h use {World, remove}
  open net use {ip_string}

  -- the link-local address of a bridge with an IPv6 address; the address of an error is nil
  unfoldable pub add_link_local : Text → IpCommand → BridgeModel → Act World (Unit {0})
  add_link_local d ip model w =
      if is_set model.link.ipv6_address
      then (elim (link_local_ipv6_from_mac_string net (value_string model.link.mac_address)) [
        | no_address e ↦
            fail bridge_error
              (codes "Can't configure link-local address '<nil>' on bridge interface: "
                ++ error_text e)
              [] w
        | address a ↦
            (run_or_fail h d ip bridge_error no_bridge (
                  codes "addr"
                  ∷ codes "add"
                  ∷ (ip_string a ++ codes "/64")
                  ∷ codes "scope"
                  ∷ codes "link"
                  ∷ codes "dev"
                  ∷ value_string model.name
                  ∷ [])
                >> pure tt)
              w
      ])
      else (go tt, w)

  -- the end of `Create`: the state is read back, then the link-local address is added
  unfoldable pub finish_create : Text → IpCommand → BridgeModel → Act World BridgeModel
  unfolding add_link_local
  finish_create d ip plan = do
    model ← λ w. report (codes "Failed to read bridge state") (read_bridge h net conf d ip plan w)
    add_link_local d ip model
    pure model

  unfoldable pub create : BridgeModel → Act World BridgeModel
  create plan = do
    id ← prepare h bridge_error (join_path conf.lib_path (codes "bridges"))
    let d = resource_dir h net conf id
    let br = value_string plan.name
    let ip = build_ip_command conf (netns_of plan.netns)
    configure_link h net conf d ip br plan.link
    add_address h net conf d ip br (codes "Invalid IPv4 address format")
        (codes "IPv4 address must be in CIDR format (e.g., '192.168.1.1/24'): ")
        plan.link.ipv4_address
    add_address h net conf d ip br (codes "Invalid IPv6 address format")
        (codes "IPv6 address must be in CIDR format (e.g., 'fd00::1/64'): ") plan.link.ipv6_address
    enslave h net conf d ip br plan.enslaved_interfaces
    finish_create d ip (record plan { id = known id })

  -- no value: the resource is removed from the state
  abbrev pub read_result : Attempt BridgeModel × World → Step (Option BridgeModel) × World
  read_result (done model, w) = (go (some model), w)
  read_result (failed ds e, w) =
      if error_contains_any e intf_not_found_strs || diags_any ds intf_not_found_strs
      then (go none, w)
      else (
        stop (record { summary = codes "Failed to read bridge state"; detail = error_text e } ∷ ds),
        w,
      )

  unfoldable pub read : BridgeModel → Act World (Option BridgeModel)
  read state w = read_result (
      read_bridge h net conf (resource_dir h net conf (value_string state.id))
        (build_ip_command conf (netns_of state.netns)) state w)

  unfoldable pub update : BridgeModel → Act World BridgeModel
  update plan = fail (codes "Bridge Resource Update Error") (codes "Update is not supported.") []

  -- the end of `Delete`
  unfoldable pub remove_dir : Text → Act World (Unit {0})
  remove_dir d w =
      judge_err h (codes "Bridge Resource Delete Error")
        (λ e. codes "Can't delete bridge resource directory: " ++ error_text e) (remove d w)

  -- what follows the deletion of the link
  unfoldable pub after_delete : Text → Result × World → Step (Unit {0}) × World
  unfolding remove_dir
  after_delete d (res, w) = elim res.error [
    | none ↦ remove_dir d w
    | some e ↦
        if not (contains_one (error_text e) intf_not_found_strs)
        then fail (codes "Failed to delete bridge") (error_text e) (diagnostics res) w
        else remove_dir d w
  ]

  unfoldable pub delete : BridgeModel → Act World (Unit {0})
  unfolding after_delete
  delete state w =
      let d = resource_dir h net conf (value_string state.id) in
      after_delete d (
        run_ip h d (build_ip_command conf (netns_of state.netns))
          (codes "link"
            ∷ codes "delete"
            ∷ value_string state.name
            ∷ codes "type"
            ∷ codes "bridge"
            ∷ [])
          w)
