-- ===== src/Bridge.antt =====
-- internal/provider/bridge_resource.go: the Linux bridge. The plan or the prior state that the
-- framework hands over is an argument, and an error of that hand-over is left out.
pub mod Handlers
pub mod Configure
pub mod Members
pub mod Delete
use terraform_provider_zedam.Prelude.{
  ℕ, Bool, true, false, ◌&&◌, not, List, [], ◌∷◌, ◌++◌, Option, none, some, if◌then◌else◌,
}
use terraform_provider_zedam.Prelude.Int.{ℤ}
use terraform_provider_zedam.Text.{Text, codes, contains}
use terraform_provider_zedam.Diag.{Diagnostic}
use terraform_provider_zedam.GoError.{GoError, new, error_text}
use terraform_provider_zedam.LlAddr.{link_local_ipv6_from_mac}
use terraform_provider_zedam.Exec.{Result, Host, diagnostics, format_int, join_path}
use terraform_provider_zedam.Exec.Act.{Act, Step, go, stop, next, fail, pure, when, ◌>>=◌, ◌>>◌}
use terraform_provider_zedam.Exec.Try.{Attempt, Try, report}
use terraform_provider_zedam.Exec.Try
use terraform_provider_zedam.Attr.{Attr, null, unknown, known, is_set, value_string}
use terraform_provider_zedam.IpLink.{ProviderConfig, build_ip_command}
use terraform_provider_zedam.Resource.{NetLib, IpCommand, run_ip, run_or_fail, judge_err, prepare}
use terraform_provider_zedam.Resource.ReadLink.{LinkState, read_link, read_members, kept_members}

-- `BridgeModel`; the attributes that are read back stand in `link`.
pub record BridgeModel : Type 0 where
  pub id : Attr Text
  pub name : Attr Text
  pub link : LinkState
  pub netns : Attr Text
  pub enslaved_interfaces : Attr (List Text)

abbrev pub bridge_error : Text
bridge_error = codes "Bridge Resource Error"

abbrev pub no_bridge : Text
no_bridge = codes "Unable to create a new bridge."

-- the namespace of a model, empty if none is set
abbrev pub netns_of : Attr Text → Text
netns_of n = if is_set n then value_string n else []

-- the members that are reported: the managed ones that are left, null if there is none
abbrev pub members_or_null : List Text → Attr (List Text)
members_or_null [] = null
members_or_null (m ∷ ms) = known (m ∷ ms)

module _ (h : Host) (net : NetLib) (conf : ProviderConfig) where
  open h use {World, remove}
  open net use {parse_cidr, parse_mac, parse_mac_error, ip_string}

  -- `getResourceDir`
  unfoldable pub resource_dir : Text → Text
  resource_dir id = join_path (join_path conf.lib_path (codes "bridges")) id

  -- the reconciliation at the end of `readBridge`
  unfoldable pub read_enslaved :
      Text → IpCommand → Text → Attr (List Text) → Try World (Attr (List Text))
  read_enslaved d ip br null = Try.return null
  read_enslaved d ip br unknown = Try.return null
  read_enslaved d ip br (known ms) =
      Try.◌>>=◌ (read_members h net (codes "bridge") d ip br)
        (λ current. Try.return (members_or_null (kept_members current ms)))

  unfoldable pub read_bridge : Text → IpCommand → BridgeModel → Try World BridgeModel
  unfolding read_enslaved
  read_bridge d ip model =
      let br = value_string model.name in
      Try.◌>>=◌ (read_link h net (codes "bridge") (codes " addreses: ") d ip br model.link) (λ link.
        Try.◌>>=◌ (read_enslaved d ip br model.enslaved_interfaces)
          (λ members. Try.return (record model { link = link; enslaved_interfaces = members })))

  -- an address in CIDR format is added to the bridge
  unfoldable pub add_address :
      Text → IpCommand → Text → Text → Text → Attr Text → Act World (Unit {0})
  add_address d ip br title hint addr = when (is_set addr) (elim (parse_cidr (value_string addr)) [
    | some e ↦ fail title (hint ++ error_text e) []
    | none ↦
        run_or_fail h d ip bridge_error no_bridge
          (codes "addr" ∷ codes "add" ∷ value_string addr ∷ codes "dev" ∷ br ∷ [])
        >> pure tt
  ])

  -- the loop over the interfaces to enslave: the master is set first, then the interface is up
  unfoldable pub enslave_all : Text → IpCommand → Text → List Text → Act World (Unit {0})
  enslave_all d ip br [] = pure tt
  enslave_all d ip br (intf ∷ ifaces) = do
    run_or_fail h d ip bridge_error
        (codes "Unable to enslave interface '"
          ++ (intf ++ (codes "' to bridge '" ++ (br ++ codes "'."))))
        (codes "link" ∷ codes "set" ∷ codes "dev" ∷ intf ∷ codes "master" ∷ br ∷ [])
    run_or_fail h d ip bridge_error
        (codes "Unable to bring enslaved interface '" ++ (intf ++ codes "' up."))
        (codes "link" ∷ codes "set" ∷ codes "dev" ∷ intf ∷ codes "up" ∷ [])
    enslave_all d ip br ifaces

  unfoldable pub enslave : Text → IpCommand → Text → Attr (List Text) → Act World (Unit {0})
  enslave d ip br null = pure tt
  enslave d ip br unknown = pure tt
  enslave d ip br (known ifaces) = enslave_all d ip br ifaces

  unfoldable pub set_mtu : Text → IpCommand → Text → Attr ℤ → Act World (Unit {0})
  set_mtu d ip br null = pure tt
  set_mtu d ip br unknown = pure tt
  set_mtu d ip br (known mtu) =
      run_or_fail h d ip bridge_error no_bridge
        (codes "link" ∷ codes "set" ∷ codes "dev" ∷ br ∷ codes "mtu" ∷ format_int mtu ∷ [])
      >> pure tt

  -- the commands of `Create` on the link itself, each attribute that is set
  unfoldable pub configure_link : Text → IpCommand → Text → LinkState → Act World (Unit {0})
  configure_link d ip br link = do
    run_or_fail h d ip bridge_error no_bridge
        (codes "link" ∷ codes "add" ∷ br ∷ codes "type" ∷ codes "bridge" ∷ [])
    set_mtu d ip br link.mtu
    when (is_set link.state) (
        run_or_fail h d ip bridge_error no_bridge
          (codes "link" ∷ codes "set" ∷ codes "dev" ∷ br ∷ value_string link.state ∷ [])
        >> pure tt)
    when (is_set link.mac_address) (
        run_or_fail h d ip bridge_error (codes "Unable to set MAC address for bridge.") (
          codes "link"
          ∷ codes "set"
          ∷ codes "dev"
          ∷ br
          ∷ codes "address"
          ∷ value_string link.mac_address
          ∷ [])
        >> pure tt)
