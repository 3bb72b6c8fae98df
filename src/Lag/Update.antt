-- ===== src/Lag/Update.antt =====
-- `Update` of internal/provider/lag_resource.go: the attributes that change in place.
use terraform_provider_zedam.Prelude.{Bool, false, ◌==◌, not, List, [], ◌∷◌}
use terraform_provider_zedam.Prelude.Int.{ℤ, pos, negsuc}
use terraform_provider_zedam.Text.{Text, codes, ◌=ᵗ◌}
use terraform_provider_zedam.Exec.{Host}
use terraform_provider_zedam.Exec.Act.{Act, pure, when, ◌>>◌}
use terraform_provider_zedam.Exec.Try.{report}
use terraform_provider_zedam.Attr.{Attr, is_unknown, value_string, equal}
use terraform_provider_zedam.IpLink.{ProviderConfig, build_ip_command}
use terraform_provider_zedam.Resource.{NetLib, IpCommand}
use terraform_provider_zedam.Bridge.{netns_of}
use terraform_provider_zedam.Lag.{
  LagModel, lag_members_slice, strings_difference, set_dev, release_member, reconcile_addr,
  read_lag,
}
use terraform_provider_zedam.Lag.Handlers.{resource_dir, run_attr, set_mtu, enslave_members}

abbrev pub update_error : Text
update_error = codes "LAG Resource Update Error"

abbrev int_equal : ℤ → ℤ → Bool
int_equal (pos m) (pos n) = m == n
int_equal (pos m) (negsuc n) = false
int_equal (negsuc m) (pos n) = false
int_equal (negsuc m) (negsuc n) = m == n

abbrev text_equal : Text → Text → Bool
text_equal s t = s =ᵗ t

module _ (h : Host) where
  open h use {World}

  -- the members that are no longer managed, up to the first that fails
  unfoldable pub release_members : Text → IpCommand → Text → List Text → Act World (Unit {0})
  release_members d ip title [] = pure tt
  release_members d ip title (intf ∷ ifaces) =
      (λ w. report title (release_member h d ip intf w)) >> release_members d ip title ifaces

  module _ (net : NetLib) (conf : ProviderConfig) where
    -- the change of the members: first those that leave, then those that join
    unfoldable pub update_members :
        Text → IpCommand → Text → Attr (List Text) → Attr (List Text) → Act World (Unit {0})
    update_members d ip bond plan state =
        let plan_members = lag_members_slice plan in
        let state_members = lag_members_slice state in
        when (not (is_unknown plan)) (
          release_members d ip update_error (strings_difference state_members plan_members)
          >> enslave_members h net conf d ip update_error bond
              (strings_difference plan_members state_members))

    unfoldable pub update_address :
        Text → IpCommand → Text → Attr Text → Attr Text → Act World (Unit {0})
    update_address d ip bond plan state =
        when (not (equal text_equal plan state))
          (λ w. report update_error (reconcile_addr h net d ip bond state plan w))

    unfoldable pub update : LagModel → LagModel → Act World LagModel
    unfolding update_members update_address
    update plan state = do
      let bond = value_string plan.name
      let d = resource_dir h net conf (value_string state.id)
      let ip = build_ip_command conf (netns_of plan.netns)
      when (not (equal int_equal plan.link.mtu state.link.mtu))
          (set_mtu h net conf d ip update_error bond plan.link.mtu)
      when (not (equal text_equal plan.link.mac_address state.link.mac_address)) (
          run_attr h net conf d ip update_error (codes "Unable to set bond MAC address.")
            plan.link.mac_address (λ m. set_dev bond (codes "address" ∷ m ∷ [])))
      update_address d ip bond plan.link.ipv4_address state.link.ipv4_address
      update_address d ip bond plan.link.ipv6_address state.link.ipv6_address
      update_members d ip bond plan.enslaved_interfaces state.enslaved_interfaces
      when (not (equal text_equal plan.link.state state.link.state)) (
          run_attr h net conf d ip update_error (codes "Unable to set bond state.") plan.link.state
            (λ s. set_dev bond (s ∷ [])))
      λ w. report (codes "Failed to read bond state after update") (read_lag h net d ip plan w)
