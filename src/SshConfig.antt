-- ===== src/SshConfig.antt =====
-- The settings of internal/provider/ssh_config.go: attributes with the environment behind them,
-- jump hosts in OpenSSH's notation, and the last line of a command's output.
pub mod Jump
use terraform_provider_zedam.Prelude.{
  ℕ, Bool, true, false, ◌&&◌, ◌||◌, not, List, [], ◌∷◌, ◌++◌, Option, none, some, if◌then◌else◌,
  reverse, length, take, drop, ◌-◌,
}
use terraform_provider_zedam.Prelude.Int.{ℤ, pos, is_zero}
use terraform_provider_zedam.Text.{
  Text, codes, ◌=ᵗ◌, is_empty, has_prefix, has_suffix, cut, split, trim_space,
}
use terraform_provider_zedam.Attr.{Attr, null, unknown, known, is_null, value_string}

-- `os.Getenv`, `strings.ToLower`, `strconv.ParseInt(s, 10, 64)` and `net.SplitHostPort`
pub record SettingsLib : Type 0 where
  pub getenv : Text → Text
  pub to_lower : Text → Text
  pub parse_int : Text → Option ℤ
  pub split_host_port : Text → Option (Text × Text)

-- `v.ValueInt64()` and `v.ValueBool()`, 0 and false for a value that is not known
abbrev pub value_int : Attr ℤ → ℤ
value_int null = pos 0
value_int unknown = pos 0
value_int (known n) = n

abbrev pub value_bool : Attr Bool → Bool
value_bool null = false
value_bool unknown = false
value_bool (known b) = b

-- a number that is parsed and not 0, or 22
abbrev pub port_or_default : Option ℤ → ℤ
port_or_default none = pos 22
port_or_default (some n) = if not (is_zero n) then n else pos 22

-- the loop of `lastNonEmptyLine`, over the lines from the last one on
unfoldable pub first_non_empty : List Text → Text
first_non_empty [] = []
first_non_empty (l ∷ ls) =
    let rest = first_non_empty ls in if not (is_empty (trim_space l)) then trim_space l else rest

-- `lastNonEmptyLine`
unfoldable pub last_non_empty_line : Text → Text
unfolding first_non_empty
last_non_empty_line s = first_non_empty (reverse (split s 10))

module _ (lib : SettingsLib) where
  open lib use {getenv, to_lower, parse_int, split_host_port}

  -- `sshStr`
  unfoldable pub ssh_str : Attr Text → Text → Text
  ssh_str v env =
      if not (is_null v) && not (is_empty (value_string v)) then value_string v else getenv env

  -- `sshBool`
  unfoldable pub ssh_bool : Attr Bool → Text → Bool
  ssh_bool v env =
      if not (is_null v)
      then value_bool v
      else (let s = to_lower (getenv env) in
          s =ᵗ codes "1" || (s =ᵗ codes "true" || (s =ᵗ codes "yes" || s =ᵗ codes "on")))

  -- `sshPort`
  unfoldable pub ssh_port : Attr ℤ → Text → ℤ
  ssh_port v env =
      if not (is_null v) && not (is_zero (value_int v))
      then value_int v
      else if not (is_empty (getenv env))
      then port_or_default (parse_int (getenv env))
      else pos 22

  -- a bare IPv6 literal without its brackets
  abbrev pub without_brackets : Text → Text
  without_brackets h =
      if has_prefix h (codes "[") && has_suffix h (codes "]")
      then take (length h - 2) (drop 1 h)
      else h

  -- `splitHostPortDefault`
  unfoldable pub split_host_port_default : Text → Text → Text × Text
  split_host_port_default hostport def_port = elim (split_host_port hostport) [
    | some (h, p) ↦ (h, p)
    | none ↦ (without_brackets hostport, def_port)
  ]

  -- `parseJumpSpec`
  unfoldable pub parse_jump_spec : Text → Text × Text × Text
  unfolding split_host_port_default
  parse_jump_spec spec = elim (cut spec b'@') [
    | some (user, hostport) ↦
        (let (host, port) = split_host_port_default hostport (codes "22") in (user, host, port))
    | none ↦ (let (host, port) = split_host_port_default spec (codes "22") in ([], host, port))
  ]
