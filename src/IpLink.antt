-- ===== src/IpLink.antt =====
-- internal/provider/netns_helpers.go, and what the Linux networking resources share: the `ip`
-- command line, the flags of a link, and the reading of iproute2's output.
pub mod Flags
pub mod Parse
use terraform_provider_zedam.Prelude.{
  ℕ, zero, suc, Bool, true, false, ◌&&◌, ◌||◌, not, leb, ◌==◌, List, [], ◌∷◌, ◌++◌, Option, none,
  some, if◌then◌else◌, length, ◌≡◌, refl,
}
use terraform_provider_zedam.Text.{
  Text, codes, ◌=ᵗ◌, is_empty, is_space, cut, split, cut_prefix, contains,
}
use terraform_provider_zedam.Diag.{Diagnostic}

-- The provider's configuration, as far as these resources read it.
pub record ProviderConfig : Type 0 where
  pub ip : Text
  pub sudo : Text
  pub bash : Text
  pub use_sudo : Bool
  pub lib_path : Text
  pub target_os : Text
  pub target_arch : Text

-- `requireLinuxTarget`: the diagnostics that it adds
unfoldable pub require_linux_target : ProviderConfig → Text → List Diagnostic
unfolding ◌=ᵗ◌
require_linux_target conf resource_name =
    if conf.target_os =ᵗ codes "linux"
    then []
    else record {
      summary = resource_name ++ codes " requires a Linux target.";
      detail =
          codes "The "
          ++ (resource_name
              ++ (codes " resource depends on the Linux `ip` command and is not supported on "
                  ++ (conf.target_os ++ (codes "/" ++ (conf.target_arch ++ codes " targets.")))));
    }
      ∷ []

-- the text between the first `<` and the `>` behind it, as `linkFlagsRegex` captures it
unfoldable pub link_flags : Text → Option Text
link_flags line = elim (cut line b'<') [
  | none ↦ none
  | some (before, rest) ↦ elim (cut rest b'>') [ none ↦ none | some (flags, after) ↦ some flags ]
]

unfoldable pub has_text : Text → List Text → Bool
has_text t [] = false
has_text t (s ∷ ss) = s =ᵗ t || has_text t ss

-- `linkFlagUp`
unfoldable pub link_flag_up : Text → Bool
unfolding link_flags
link_flag_up line = elim (link_flags line) [
  | none ↦ false
  | some flags ↦ has_text (codes "UP") (split flags b',')
]

-- `buildIPCommand`
unfoldable pub build_ip_command : ProviderConfig → Text → Text × List Text
build_ip_command conf netns =
    let ip_cmd = if conf.use_sudo then conf.sudo else conf.ip in
    let ip_args = if conf.use_sudo then codes "-n" ∷ conf.ip ∷ [] else [] in
    if is_empty netns
    then (ip_cmd, ip_args)
    else if conf.use_sudo
    then (ip_cmd, codes "-n" ∷ conf.ip ∷ codes "netns" ∷ codes "exec" ∷ netns ∷ conf.ip ∷ [])
    else (ip_cmd, codes "netns" ∷ codes "exec" ∷ netns ∷ conf.ip ∷ [])
