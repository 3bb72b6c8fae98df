-- ===== src/Tap.antt =====
-- internal/provider/tap_resource.go: the TAP interface. With a network namespace it is created in
-- the default one, and the mover daemon (main_tap_mover_linux_amd64.go) moves and configures it once
-- a virtual machine has opened it.
pub mod Mover
pub mod Handlers
pub mod Pending
use terraform_provider_zedam.Prelude.{
  Bool, true, false, ◌||◌, not, List, [], ◌∷◌, ◌++◌, Option, none, some, if◌then◌else◌, ◌>>=◌,
}
use terraform_provider_zedam.Prelude.Int.{ℤ}
use terraform_provider_zedam.Text.{Text, codes, cut_prefix, split, contains}
use terraform_provider_zedam.GoError.{new}
use terraform_provider_zedam.Exec.{Result, Host, diagnostics}
use terraform_provider_zedam.Exec.Try.{Attempt, done, failed, Try}
use terraform_provider_zedam.Exec.Try
use terraform_provider_zedam.Attr.{Attr, null, known, value_string}
use terraform_provider_zedam.IpLink.{link_flag_up}
use terraform_provider_zedam.IpLink.Parse.{
  Matcher, is_blank, span, span1, at_mtu, at_inet, first_match,
}
use terraform_provider_zedam.Resource.{NetLib, IpCommand}
use terraform_provider_zedam.Resource.ReadLink.{
  quoted, first_line, read_mtu, or_old, accepted, try_run,
}

-- `TAPModel`
pub record TapModel : Type 0 where
  pub id : Attr Text
  pub name : Attr Text
  pub mtu : Attr ℤ
  pub state : Attr Text
  pub owner : Attr Text
  pub group : Attr Text
  pub master : Attr Text
  pub ipv4_address : Attr Text
  pub netns : Attr Text
  pub mover_status : Attr Text

-- `master (\S+)`
unfoldable pub at_master : Matcher
unfolding span1 cut_prefix
at_master s = do r ← cut_prefix s (codes "master "); span1 (λ c. not (is_blank c)) r

-- MTU, master and administrative state of the output of `ip link show`
-- (the unparseable output is quoted as it is, without the escapes of `%q`)
unfoldable pub parse_tap : Text → Result → TapModel → Attempt TapModel
unfolding read_mtu at_master
parse_tap name res model =
    let line = first_line (split res.stdout 10) in
    if not (contains line (codes "<"))
    then failed (diagnostics res) (
        new (
          quoted (codes "can't parse TAP") name
            (codes " link details, unexpected output: " ++ res.stdout)))
    else elim (read_mtu (codes "TAP") name model.mtu (first_match at_mtu line)) [
      | failed ds e ↦ failed ds e
      | done mtu ↦ done (record model {
        mtu = mtu;
        master = or_old null (first_match at_master line);
        state = known (if link_flag_up line then codes "up" else codes "down");
      })
    ]

module _ (net : NetLib) where
  open net use {parse_cidr}

  abbrev valid_or_null : Option Text → Attr Text
  valid_or_null none = null
  valid_or_null (some a) = if accepted (parse_cidr a) then known a else null

  -- the address of the output of `ip addr show`, null if there is none
  unfoldable pub tap_address : Text → Attr Text
  unfolding accepted
  tap_address stdout = valid_or_null (first_match at_inet stdout)

module _ (h : Host) (net : NetLib) where
  open h use {World}

  -- `readTAP`
  unfoldable pub read_tap : Text → IpCommand → TapModel → Try World TapModel
  unfolding tap_address
  read_tap d ip model =
      let tap = value_string model.name in
      Try.◌>>=◌
        (try_run h d ip (quoted (codes "can't retrieve TAP") tap (codes " details: "))
          (codes "link" ∷ codes "show" ∷ tap ∷ []))
        (λ res.
          Try.◌>>=◌ (λ w. (parse_tap tap res model, w))
            (λ m.
              Try.◌>>=◌
                (try_run h d ip (quoted (codes "can't retrieve TAP") tap (codes " addreses: "))
                  (codes "addr" ∷ codes "show" ∷ tap ∷ []))
                (λ res'. Try.return (record m { ipv4_address = tap_address net res'.stdout }))))
