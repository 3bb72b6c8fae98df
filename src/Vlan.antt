-- ===== src/Vlan.antt =====
-- internal/provider/vlan_resource.go: the VLAN sub-interface of a parent interface. A handler that
-- goes on with a value sets it as the new state.
use terraform_provider_zedam.Prelude.{◌||◌, [], ◌∷◌, ◌++◌, Option, none, some, if◌then◌else◌}
use terraform_provider_zedam.Prelude.Int.{ℤ}
use terraform_provider_zedam.Text.{Text, codes}
use terraform_provider_zedam.Diag.{diags_any}
use terraform_provider_zedam.GoError.{error_text, error_contains_any}
use terraform_provider_zedam.Exec.{Result, Host, diagnostics, format_int, join_path}
use terraform_provider_zedam.Exec.Act.{Act, Step, go, stop, fail, pure, when, ◌>>=◌, ◌>>◌}
use terraform_provider_zedam.Exec.Try.{Attempt, Try, done, failed, report}
use terraform_provider_zedam.Exec.Try
use terraform_provider_zedam.Attr.{Attr, known, is_set, value_string, value_int64}
use terraform_provider_zedam.IpLink.{ProviderConfig}
use terraform_provider_zedam.Resource.{
  NetLib, IpCommand, intf_not_found_strs, not_tolerated, run_ip, run_or_fail, judge_err, prepare,
}
use terraform_provider_zedam.Resource.ReadLink.{LinkState, read_link}
use terraform_provider_zedam.NetNs.{ip_command}
use terraform_provider_zedam.Bridge.Handlers.{address, no_address, link_local_ipv6_from_mac_string}
use terraform_provider_zedam.Lag.{format_attr, set_dev}
use terraform_provider_zedam.Lag.Handlers.{run_attr}

-- `VLANModel`; the attributes that are read back stand in `link`.
pub record VlanModel : Type 0 where
  pub id : Attr Text
  pub vlan_id : Attr ℤ
  pub name : Attr Text
  pub parent : Attr Text
  pub link : LinkState

abbrev vlan_error : Text
vlan_error = codes "VLAN Resource Error"

abbrev no_vlan : Text
no_vlan = codes "Unable to create a new VLAN."

-- the name of the sub-interface: `<parent>.<id>`
unfoldable pub sub_interface : VlanModel → Text
sub_interface plan =
    value_string plan.parent ++ (codes "." ++ format_int (value_int64 plan.vlan_id))

module _ (h : Host) (net : NetLib) (conf : ProviderConfig) where
  open h use {World, remove}
  open net use {parse_cidr, ip_string}

  -- `getResourceDir`
  unfoldable pub resource_dir : Text → Text
  resource_dir id = join_path (join_path conf.lib_path (codes "vlan_sub_intfs")) id

  -- `readVLAN`
  unfoldable pub read_vlan : Text → IpCommand → VlanModel → Try World VlanModel
  read_vlan d ip model =
      Try.◌>>=◌
        (read_link h net (codes "VLAN") (codes " addreses: ") d ip (value_string model.name)
          model.link)
        (λ link. Try.return (record model { link = link }))

  -- an address in CIDR format is added to the sub-interface
  unfoldable pub add_address :
      Text → IpCommand → Text → Text → Text → Attr Text → Act World (Unit {0})
  add_address d ip name title hint addr =
      when (is_set addr) (elim (parse_cidr (value_string addr)) [
        | some e ↦ fail title (hint ++ error_text e) []
        | none ↦
            run_or_fail h d ip vlan_error no_vlan
              (codes "addr" ∷ codes "add" ∷ value_string addr ∷ codes "dev" ∷ name ∷ [])
            >> pure tt
      ])

  -- the link-local address of a sub-interface with an IPv6 address; the address of an error is nil
  unfoldable pub add_link_local : Text → IpCommand → VlanModel → Act World (Unit {0})
  add_link_local d ip model w =
      if is_set model.link.ipv6_address
      then (elim (link_local_ipv6_from_mac_string net (value_string model.link.mac_address)) [
        | no_address e ↦
            fail vlan_error
              (codes "Can't configure link-local address '<nil>' on VLAN interface: "
                ++ error_text e)
              [] w
        | address a ↦
            (run_or_fail h d ip vlan_error no_vlan (
                  codes "addr"
                  ∷ codes "add"
                  ∷ (ip_string a ++ codes "/64")
                  ∷ codes "scope"
                  ∷ codes "link"
                  ∷ codes "dev"
                  ∷ value_string model.name
                  ∷ [])
                >> pure tt)
              w
      ])
      else (go tt, w)

  unfoldable pub create : VlanModel → Act World VlanModel
  unfolding sub_interface add_address add_link_local
  create plan = do
    id ← prepare h vlan_error (join_path conf.lib_path (codes "vlan_sub_intfs"))
    let d = resource_dir id
    let name = sub_interface plan
    let ip = ip_command conf
    run_or_fail h d ip vlan_error no_vlan (
        codes "link"
        ∷ codes "add"
        ∷ codes "link"
        ∷ value_string plan.parent
        ∷ codes "name"
        ∷ name
        ∷ codes "type"
        ∷ codes "vlan"
        ∷ codes "id"
        ∷ format_int (value_int64 plan.vlan_id)
        ∷ [])
    run_attr h net conf d ip vlan_error no_vlan (format_attr plan.link.mtu)
        (λ m. set_dev name (codes "mtu" ∷ m ∷ []))
    run_attr h net conf d ip vlan_error no_vlan plan.link.state (λ s. set_dev name (s ∷ []))
    add_address d ip name (codes "Invalid IPv4 address format")
        (codes "IPv4 address must be in CIDR format (e.g., '192.168.1.1/24'): ")
        plan.link.ipv4_address
    add_address d ip name (codes "Invalid IPv6 address format")
        (codes "IPv6 address must be in CIDR format (e.g., 'fd00::1/64'): ") plan.link.ipv6_address
    model ← λ w.
        report (codes "Failed to read VLAN state")
          (read_vlan d ip (record plan { id = known id; name = known name }) w)
    add_link_local d ip model
    pure model

  -- no value: the resource is removed from the state
  abbrev vlan_result : Attempt VlanModel × World → Step (Option VlanModel) × World
  vlan_result (done model, w) = (go (some model), w)
  vlan_result (failed ds e, w) =
      if error_contains_any e intf_not_found_strs || diags_any ds intf_not_found_strs
      then (go none, w)
      else (
        stop (record { summary = codes "Failed to read VLAN state"; detail = error_text e } ∷ ds),
        w,
      )

  unfoldable pub read : VlanModel → Act World (Option VlanModel)
  unfolding read_vlan
  read state w =
      vlan_result (read_vlan (resource_dir (value_string state.id)) (ip_command conf) state w)

  unfoldable pub update : VlanModel → Act World VlanModel
  update plan = fail (codes "VLAN Resource Update Error") (codes "Update is not supported.") []

  -- what follows the deletion of the sub-interface
  unfoldable pub after_delete : Text → Result × World → Step (Unit {0}) × World
  after_delete d (res, w) =
      let remove_dir : Act World (Unit {0}) = λ w1.
        judge_err h (codes "VLAN Resource Delete Error")
          (λ e. codes "Can't delete VLAN resource directory: " ++ error_text e) (remove d w1) in
      elim res.error [
        | none ↦ remove_dir w
        | some e ↦
            if not_tolerated res e intf_not_found_strs
            then fail (codes "Failed to delete VLAN") (error_text e) (diagnostics res) w
            else remove_dir w
      ]

  unfoldable pub delete : VlanModel → Act World (Unit {0})
  unfolding after_delete
  delete state w =
      let d = resource_dir (value_string state.id) in
      after_delete d
        (run_ip h d (ip_command conf) (codes "link" ∷ codes "del" ∷ value_string state.name ∷ []) w)
