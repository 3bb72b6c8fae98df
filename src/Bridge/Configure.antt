-- ===== src/Bridge/Configure.antt =====
-- The commands that create a bridge, as a list computed from the plan.
use mathlib.Core.Path.{fun_ext}
use terraform_provider_zedam.Prelude.{List, [], ◌∷◌, ◌++◌, none, ◌≡◌, refl, ◌∙◌, append_assoc}
use terraform_provider_zedam.Prelude.Int.{ℤ}
use terraform_provider_zedam.Text.{Text, codes}
use terraform_provider_zedam.Exec.{Host, format_int, join_path}
use terraform_provider_zedam.Exec.Act.{Act, go, pure, when, ◌>>◌}
use terraform_provider_zedam.Attr.{Attr, null, unknown, known, is_set, value_string}
use terraform_provider_zedam.IpLink.{ProviderConfig, build_ip_command}
use terraform_provider_zedam.Resource.{NetLib, IpCommand, run_or_fail, prepare}
use terraform_provider_zedam.Resource.Script.{
  Command, run_script, run_script-append, run_script_then,
}
use terraform_provider_zedam.Resource.ReadLink.{LinkState}
use terraform_provider_zedam.Bridge.{
  BridgeModel, bridge_error, no_bridge, netns_of, resource_dir, add_address, enslave, enslave_all,
  configure_link, set_mtu,
}
use terraform_provider_zedam.Bridge.Handlers.{create, finish_create}

abbrev command : Text → List Text → Command
command detail words = record { words = words; summary = bridge_error; detail = detail }

abbrev of_attr : {A : Type 0} → Attr A → (A → List Command) → List Command
of_attr null f = []
of_attr unknown f = []
of_attr (known a) f = f a

abbrev set_words : Text → List Text → List Text
set_words dev words = codes "link" ∷ codes "set" ∷ codes "dev" ∷ dev ∷ words

abbrev address_script : Text → Text → List Command
address_script br a =
    command no_bridge (codes "addr" ∷ codes "add" ∷ a ∷ codes "dev" ∷ br ∷ []) ∷ []

abbrev enslave_script : Text → List Text → List Command
enslave_script br [] = []
enslave_script br (intf ∷ ifaces) =
    command
      (codes "Unable to enslave interface '"
        ++ (intf ++ (codes "' to bridge '" ++ (br ++ codes "'."))))
      (set_words intf (codes "master" ∷ br ∷ []))
    ∷ command (codes "Unable to bring enslaved interface '" ++ (intf ++ codes "' up."))
        (set_words intf (codes "up" ∷ []))
    ∷ enslave_script br ifaces

-- The commands for a plan, in order: add the bridge, then MTU, state and MAC address, the IPv4 and
-- the IPv6 address, and for each interface its master and then its state; one that is not set has
-- none.
abbrev pub bridge_script : Text → BridgeModel → List Command
bridge_script br plan =
    command no_bridge (codes "link" ∷ codes "add" ∷ br ∷ codes "type" ∷ codes "bridge" ∷ [])
    ∷ (of_attr plan.link.mtu
          (λ mtu. command no_bridge (set_words br (codes "mtu" ∷ format_int mtu ∷ [])) ∷ [])
        ++ (of_attr plan.link.state (λ s. command no_bridge (set_words br (s ∷ [])) ∷ [])
            ++ (of_attr plan.link.mac_address (λ m.
                  command (codes "Unable to set MAC address for bridge.")
                    (set_words br (codes "address" ∷ m ∷ []))
                  ∷ [])
                ++ (of_attr plan.link.ipv4_address (address_script br)
                    ++ (of_attr plan.link.ipv6_address (address_script br)
                        ++ of_attr plan.enslaved_interfaces (enslave_script br))))))

-- An address that is set is accepted by `net.ParseCIDR`.
abbrev pub IsCidr : NetLib → Attr Text → Type 0
IsCidr net null = Unit
IsCidr net unknown = Unit
IsCidr net (known a) = net.parse_cidr a ≡ none

module _ (h : Host) (net : NetLib) (conf : ProviderConfig) (d : Text) (ip : IpCommand)
    (br : Text) where
  open h use {World}

  one_command :
      (c : Command) (w : World)
      → run_script h d ip (c ∷ []) w ≡ (run_or_fail h d ip c.summary c.detail c.words >> pure tt) w
  unfolding run_script
  one_command c w = refl

  set_mtu-script :
      (mtu : Attr ℤ)
      → set_mtu h net conf d ip br mtu
        ≡ run_script h d ip (
            of_attr mtu
              (λ m. command no_bridge (set_words br (codes "mtu" ∷ format_int m ∷ [])) ∷ []))
  unfolding set_mtu run_script
  set_mtu-script null = refl
  set_mtu-script unknown = refl
  set_mtu-script (known m) = refl

  add_address-script :
      (title hint : Text) (addr : Attr Text)
      → IsCidr net addr
      → add_address h net conf d ip br title hint addr
        ≡ run_script h d ip (of_attr addr (address_script br))
  unfolding add_address run_script
  add_address-script title hint null ok = refl
  add_address-script title hint unknown ok = refl
  add_address-script title hint (known a) ok = rw ok

  enslave_all-script :
      (ifaces : List Text)
      → enslave_all h net conf d ip br ifaces ≡ run_script h d ip (enslave_script br ifaces)
  unfolding enslave_all run_script
  enslave_all-script [] = refl
  enslave_all-script (intf ∷ ifaces) = simp (enslave_all-script ifaces)

  enslave-script :
      (ifaces : Attr (List Text))
      → enslave h net conf d ip br ifaces ≡ run_script h d ip (of_attr ifaces (enslave_script br))
  unfolding enslave
  enslave-script null = unfold run_script in refl
  enslave-script unknown = unfold run_script in refl
  enslave-script (known ifaces) = enslave_all-script ifaces

  state_script : Attr Text → List Command
  state_script a = of_attr a (λ s. command no_bridge (set_words br (s ∷ [])) ∷ [])

  mac_script : Attr Text → List Command
  mac_script a = of_attr a (λ m.
      command (codes "Unable to set MAC address for bridge.")
        (set_words br (codes "address" ∷ m ∷ []))
      ∷ [])

  mtu_script : Attr ℤ → List Command
  mtu_script a =
      of_attr a (λ m. command no_bridge (set_words br (codes "mtu" ∷ format_int m ∷ [])) ∷ [])

  set_state-script :
      (a : Attr Text)
      → ◌≡◌ {A = Act World (Unit {0})}
          (when (is_set a) (
            run_or_fail h d ip bridge_error no_bridge (set_words br (value_string a ∷ []))
            >> pure tt))
          (run_script h d ip (state_script a))
  unfolding run_script state_script
  set_state-script null = refl
  set_state-script unknown = refl
  set_state-script (known s) = refl

  set_mac-script :
      (a : Attr Text)
      → ◌≡◌ {A = Act World (Unit {0})}
          (when (is_set a) (
            run_or_fail h d ip bridge_error
              (codes "Unable to set MAC address for bridge.")
              (set_words br (codes "address" ∷ value_string a ∷ []))
            >> pure tt))
          (run_script h d ip (mac_script a))
  unfolding run_script mac_script
  set_mac-script null = refl
  set_mac-script unknown = refl
  set_mac-script (known s) = refl

  add_script : List Command
  add_script =
      command no_bridge (codes "link" ∷ codes "add" ∷ br ∷ codes "type" ∷ codes "bridge" ∷ []) ∷ []

  configure_link-script :
      (link : LinkState)
      → configure_link h net conf d ip br link
        ≡ run_script h d ip (
            add_script
            ++ (mtu_script link.mtu ++ (state_script link.state ++ mac_script link.mac_address)))
  unfolding configure_link run_script add_script mtu_script
  configure_link-script link =
      rw (set_mtu-script link.mtu, set_state-script link.state, set_mac-script link.mac_address)
        (rw (
          fun_ext
              (run_script-append h d ip (state_script link.state) (mac_script link.mac_address)),
          fun_ext (
              run_script-append h d ip (mtu_script link.mtu)
                (state_script link.state ++ mac_script link.mac_address)),
        ))

  -- the whole of the configuration, before any action
  configure-script :
      {A : Type 0} (plan : BridgeModel) (t4 h4 t6 h6 : Text) (k : Act World A) (w : World)
      → IsCidr net plan.link.ipv4_address
      → IsCidr net plan.link.ipv6_address
      → (configure_link h net conf d ip br plan.link
            >> (add_address h net conf d ip br t4 h4 plan.link.ipv4_address
                >> (add_address h net conf d ip br t6 h6 plan.link.ipv6_address
                    >> (enslave h net conf d ip br plan.enslaved_interfaces >> k))))
          w
        ≡ (run_script h d ip (bridge_script br plan) >> k) w
  unfolding add_script mtu_script state_script mac_script
  configure-script plan t4 h4 t6 h6 k w ok4 ok6 =
      let ip4 = of_attr plan.link.ipv4_address (address_script br) in
      let ip6 = of_attr plan.link.ipv6_address (address_script br) in
      let members = of_attr plan.enslaved_interfaces (enslave_script br) in
      rw
        (
          configure_link-script plan.link,
          add_address-script t4 h4 plan.link.ipv4_address ok4,
          add_address-script t6 h6 plan.link.ipv6_address ok6,
          enslave-script plan.enslaved_interfaces,
        )
        (rw
          (
            fun_ext (run_script_then h d ip ip6 members k),
            fun_ext (run_script_then h d ip ip4 (ip6 ++ members) k),
          )
          (run_script_then h d ip _ (ip4 ++ (ip6 ++ members)) k w ∙ simp append_assoc))

-- `Create` runs exactly the commands of the plan, in order, up to the first that fails; only
-- behind the last one is the bridge read back and its state set. This holds for every target, once
-- the directory is prepared and the addresses that are set are accepted as CIDRs.
pub create-script :
    (h : Host) (net : NetLib) (conf : ProviderConfig) (plan : BridgeModel) (w w' : h.World)
    (id : Text)
    → prepare h bridge_error (join_path conf.lib_path (codes "bridges")) w ≡ (go id, w')
    → IsCidr net plan.link.ipv4_address
    → IsCidr net plan.link.ipv6_address
    → let d = resource_dir h net conf id in
      let ip = build_ip_command conf (netns_of plan.netns) in
      create h net conf plan w
      ≡ (run_script h d ip (bridge_script (value_string plan.name) plan)
            >> finish_create h net conf d ip (record plan { id = known id }))
          w'
unfolding create
create-script h net conf plan w w' id e ok4 ok6 =
    let d = resource_dir h net conf id in
    let ip = build_ip_command conf (netns_of plan.netns) in
    rw e (
      configure-script h net conf d ip (value_string plan.name) plan _ _ _ _
        (finish_create h net conf d ip (record plan { id = known id })) w' ok4 ok6)
