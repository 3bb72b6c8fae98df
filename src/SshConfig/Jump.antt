-- ===== src/SshConfig/Jump.antt =====
-- How `parseJumpSpec` and `sshPort` of internal/provider/ssh_config.go read a host and a port.
use terraform_provider_zedam.Prelude.{
  false, ◌&&◌, not, [], ◌∷◌, ◌++◌, Option, none, some, ◌≡◌, refl, arith, Bool-cases, inl, inr,
}
use terraform_provider_zedam.Prelude.Int.{ℤ, is_zero}
use terraform_provider_zedam.Text.{Text, is_empty}
use terraform_provider_zedam.Text.Laws.{Lacks, cut_at, cut-Lacks}
use terraform_provider_zedam.Attr.{Attr, is_null}
use terraform_provider_zedam.SshConfig.{
  SettingsLib, value_int, port_or_default, ssh_port, parse_jump_spec,
}

port_or_default_ne : (o : Option ℤ) → is_zero (port_or_default o) ≡ false
port_or_default_ne none = refl
port_or_default_ne (some n) = elim (Bool-cases (is_zero n)) [
  | inl z ↦ rw z refl
  | inr nz ↦ rw nz nz
]

module _ (lib : SettingsLib) where
  -- A jump host with one `@` is read as what stands before it, which may be nothing, for the user,
  -- and for the host and the port as the rest alone is read, which names no user.
  pub parse_jump_spec-user :
      (user hostport : Text)
      → Lacks b'@' user
      → Lacks b'@' hostport
      → (parse_jump_spec lib (user ++ b'@' ∷ hostport)
          ≡ (user, (parse_jump_spec lib hostport).1, (parse_jump_spec lib hostport).2))
        × ((parse_jump_spec lib hostport).0 ≡ [])
  unfolding parse_jump_spec
  parse_jump_spec-user user hostport lacks rest =
      rw (cut_at user hostport b'@' lacks, cut-Lacks hostport b'@' rest, parse_jump_spec)
        (refl, refl)

  -- The port is never 0, whatever the attribute and the environment say.
  pub ssh_port_ne : (v : Attr ℤ) (env : Text) → is_zero (ssh_port lib v env) ≡ false
  unfolding ssh_port
  ssh_port_ne v env = elim (Bool-cases (not (is_null v) && not (is_zero (value_int v)))) [
    | inl set ↦ rw set (ground arith)
    | inr unset ↦ rw unset (elim (Bool-cases (not (is_empty (lib.getenv env)))) [
      | inl given ↦ rw given (port_or_default_ne (lib.parse_int (lib.getenv env)))
      | inr absent ↦ rw absent refl
    ])
  ]
