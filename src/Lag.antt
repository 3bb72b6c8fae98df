-- ===== src/Lag.antt =====
-- internal/provider/lag_resource.go: the bond of several links. The members of a set are a list in
-- the order in which the framework gives them.
pub mod Members
pub mod Handlers
pub mod Update
pub mod Sync
pub mod Delete
pub mod Validate
use terraform_provider_zedam.Prelude.{
  ℕ, Bool, true, false, ◌&&◌, ◌==◌, not, List, [], ◌∷◌, ◌++◌, Option, none, some, if◌then◌else◌,
}
use terraform_provider_zedam.Prelude.Int.{ℤ, pos, negsuc}
use terraform_provider_zedam.Text.{Text, codes, ◌=ᵗ◌}
use terraform_provider_zedam.Diag.{Diagnostic}
use terraform_provider_zedam.GoError.{GoError, errorf, error_text}
use terraform_provider_zedam.Exec.{Result, Host, diagnostics, format_int, join_path}
use terraform_provider_zedam.Exec.Try.{Attempt, done, failed, Try}
use terraform_provider_zedam.Exec.Try
use terraform_provider_zedam.Attr.{Attr, null, unknown, known, is_set, is_unknown, value_string}
use terraform_provider_zedam.IpLink.{ProviderConfig, has_text}
use terraform_provider_zedam.Resource.{
  NetLib, IpCommand, intf_not_found_strs, not_tolerated, run_ip,
}
use terraform_provider_zedam.Resource.ReadLink.{
  LinkState, quoted, try_run, judge_try, read_link, read_members, kept_members,
}

-- `LAGModel`; the attributes that are read back stand in `link`.
pub record LagModel : Type 0 where
  pub id : Attr Text
  pub name : Attr Text
  pub mode : Attr Text
  pub miimon : Attr ℤ
  pub lacp_rate : Attr Text
  pub xmit_hash_policy : Attr Text
  pub link : LinkState
  pub netns : Attr Text
  pub enslaved_interfaces : Attr (List Text)

-- `addrNotFoundStrs`
abbrev pub addr_not_found_strs : List Text
addr_not_found_strs =
    codes "Cannot assign requested address" ∷ codes "cannot assign requested address" ∷ []

-- `lagMembersSlice`
abbrev pub lag_members_slice : Attr (List Text) → List Text
lag_members_slice null = []
lag_members_slice unknown = []
lag_members_slice (known ms) = ms

-- `stringsDifference`
unfoldable pub strings_difference : List Text → List Text → List Text
strings_difference [] b = []
strings_difference (s ∷ a) b =
    let rest = strings_difference a b in if not (has_text s b) then s ∷ rest else rest

-- an option of `ip link add type bond`, if its attribute is set
abbrev pub option_words : Text → Attr Text → List Text
option_words name null = []
option_words name unknown = []
option_words name (known v) = name ∷ v ∷ []

abbrev pub format_attr : Attr ℤ → Attr Text
format_attr null = null
format_attr unknown = unknown
format_attr (known n) = known (format_int n)

-- the words of `Create` that add the bond
unfoldable pub add_words : Text → LagModel → List Text
add_words bond model =
    (codes "link" ∷ codes "add" ∷ bond ∷ codes "type" ∷ codes "bond" ∷ [])
    ++ (option_words (codes "mode") model.mode
        ++ (option_words (codes "miimon") (format_attr model.miimon)
            ++ (option_words (codes "lacp_rate") model.lacp_rate
                ++ option_words (codes "xmit_hash_policy") model.xmit_hash_policy)))

rate_diags : Attr Text → Text → List Diagnostic
rate_diags lacp_rate mode =
    if is_set lacp_rate && not (mode =ᵗ codes "802.3ad")
    then record {
      summary = codes "Invalid lacp_rate usage";
      detail = codes "\"lacp_rate\" is only valid when \"mode\" is \"802.3ad\".";
    }
      ∷ []
    else []

policy_diags : Attr Text → Text → List Diagnostic
policy_diags policy mode =
    if is_set policy && not (mode =ᵗ codes "802.3ad") && not (mode =ᵗ codes "balance-xor")
    then record {
      summary = codes "Invalid xmit_hash_policy usage";
      detail =
          codes
            "\"xmit_hash_policy\" is only valid when \"mode\" is \"802.3ad\" or \"balance-xor\".";
    }
      ∷ []
    else []

-- `ValidateConfig`: the diagnostics that it adds
unfoldable pub validate_config : LagModel → List Diagnostic
unfolding rate_diags policy_diags
validate_config model =
    if is_unknown model.mode
    then []
    else rate_diags model.lacp_rate (value_string model.mode)
      ++ policy_diags model.xmit_hash_policy (value_string model.mode)

abbrev pub set_dev : Text → List Text → List Text
set_dev dev words = codes "link" ∷ codes "set" ∷ codes "dev" ∷ dev ∷ words

module _ (h : Host) where
  open h use {World}

  abbrev pub judge_tolerant : Text → List Text → Result × World → Attempt (Unit {0}) × World
  judge_tolerant message tolerable (res, w) = elim res.error [
    | none ↦ (done tt, w)
    | some e ↦
        if not_tolerated res e tolerable
        then (failed (diagnostics res) (errorf message e), w)
        else (done tt, w)
  ]

  -- `enslaveMember`: down, attached to the bond, up
  unfoldable pub enslave_member : Text → IpCommand → Text → Text → Try World (Unit {0})
  enslave_member d ip bond intf =
      Try.◌>>◌
        (try_run h d ip
          (quoted (codes "can't set member") intf
            (quoted (codes " down before enslaving to bond") bond (codes ": ")))
          (set_dev intf (codes "down" ∷ [])))
        (Try.◌>>◌
          (try_run h d ip
            (quoted (codes "can't enslave member") intf
              (quoted (codes " to bond") bond (codes ": ")))
            (set_dev intf (codes "master" ∷ bond ∷ [])))
          (Try.◌>>◌
            (try_run h d ip (quoted (codes "can't bring enslaved member") intf (codes " up: "))
              (set_dev intf (codes "up" ∷ [])))
            (Try.return tt)))

  -- `releaseMember`
  unfoldable pub release_member : Text → IpCommand → Text → Try World (Unit {0})
  release_member d ip intf w =
      judge_tolerant (quoted (codes "can't release member") intf (codes " from bond: "))
        intf_not_found_strs (run_ip h d ip (set_dev intf (codes "nomaster" ∷ [])) w)

  module _ (net : NetLib) where
    open net use {parse_cidr}

    unfoldable pub remove_old : Text → IpCommand → Text → Attr Text → Try World (Unit {0})
    remove_old d ip bond null = Try.return tt
    remove_old d ip bond unknown = Try.return tt
    remove_old d ip bond (known a) = λ w.
        judge_tolerant
          (quoted (codes "can't remove old address") a
            (quoted (codes " from bond") bond (codes ": ")))
          (intf_not_found_strs ++ addr_not_found_strs)
          (run_ip h d ip (codes "addr" ∷ codes "del" ∷ a ∷ codes "dev" ∷ bond ∷ []) w)

    unfoldable pub add_new : Text → IpCommand → Text → Attr Text → Try World (Unit {0})
    add_new d ip bond null = Try.return tt
    add_new d ip bond unknown = Try.return tt
    add_new d ip bond (known a) = elim (parse_cidr a) [
      | some e ↦
          Try.reject
            (record {
              summary = codes "Invalid address format";
              detail = codes "address must be in CIDR format: " ++ error_text e;
            }
              ∷ [])
            (errorf
              (quoted (codes "invalid address") a (quoted (codes " for bond") bond (codes ": "))) e)
      | none ↦
          Try.◌>>◌
            (try_run h d ip
              (quoted (codes "can't add address") a (quoted (codes " to bond") bond (codes ": ")))
              (codes "addr" ∷ codes "add" ∷ a ∷ codes "dev" ∷ bond ∷ []))
            (Try.return tt)
    ]

    -- `reconcileAddr`: the old address goes, then the new one is added
    unfoldable pub reconcile_addr :
        Text → IpCommand → Text → Attr Text → Attr Text → Try World (Unit {0})
    unfolding remove_old add_new
    reconcile_addr d ip bond old new = Try.◌>>◌ (remove_old d ip bond old) (add_new d ip bond new)

    -- the reconciliation at the end of `readLAG`: a known set stays known
    unfoldable pub read_enslaved :
        Text → IpCommand → Text → Attr (List Text) → Try World (Attr (List Text))
    read_enslaved d ip bond null = Try.return null
    read_enslaved d ip bond unknown = Try.return null
    read_enslaved d ip bond (known ms) =
        Try.◌>>=◌ (read_members h net (codes "bond") d ip bond)
          (λ current. Try.return (known (kept_members current ms)))

    -- `readLAG`
    unfoldable pub read_lag : Text → IpCommand → LagModel → Try World LagModel
    unfolding read_enslaved
    read_lag d ip model =
        let bond = value_string model.name in
        Try.◌>>=◌ (read_link h net (codes "bond") (codes " addresses: ") d ip bond model.link)
          (λ link.
            Try.◌>>=◌ (read_enslaved d ip bond model.enslaved_interfaces)
              (λ members. Try.return (record model { link = link; enslaved_interfaces = members })))
