-- ===== src/Resource/ReadLink.antt =====
-- How `readBridge` (internal/provider/bridge_resource.go), `readLAG` (lag_resource.go) and `readVLAN`
-- (vlan_resource.go) read a link's state from iproute2. The functions share this text, but for the
-- word `what` and the end of one message.
use terraform_provider_zedam.Prelude.{
  Bool, true, false, ◌&&◌, not, List, [], ◌∷◌, ◌++◌, Option, none, some, if◌then◌else◌,
}
use terraform_provider_zedam.Prelude.Int.{ℤ, pos}
use terraform_provider_zedam.Text.{Text, codes, split, contains}
use terraform_provider_zedam.GoError.{GoError, new, errorf, error_text}
use terraform_provider_zedam.Exec.{Result, Host, diagnostics}
use terraform_provider_zedam.Exec.Try.{Attempt, done, failed, Try, ◌>>=◌, return}
use terraform_provider_zedam.Attr.{Attr, known}
use terraform_provider_zedam.IpLink.{link_flag_up, has_text}
use terraform_provider_zedam.IpLink.Parse.{
  at_mtu, at_mac, at_inet, at_inet6, first_match, all_matches, member_names, parse_int64,
}
use terraform_provider_zedam.Resource.{NetLib, IpCommand, run_ip}

-- The attributes of a link that are read back.
pub record LinkState : Type 0 where
  pub mtu : Attr ℤ
  pub state : Attr Text
  pub mac_address : Attr Text
  pub ipv4_address : Attr Text
  pub ipv6_address : Attr Text

-- `<before> '<name>' <after>`
abbrev pub quoted : Text → Text → Text → Text
quoted before name after = before ++ (codes " '" ++ (name ++ (codes "'" ++ after)))

abbrev pub second_line : List Text → Text
second_line [] = []
second_line (l ∷ []) = []
second_line (l ∷ m ∷ ls) = m

abbrev pub first_line : List Text → Text
first_line [] = []
first_line (l ∷ ls) = l

-- the error of a MTU that does not fit 64 bits
unfoldable pub mtu_error : Text → Text → Text → GoError
mtu_error what name digits =
    errorf
      (quoted (codes "invalid " ++ what) name (codes " MTU value '" ++ (digits ++ codes "': ")))
      (new (codes "strconv.ParseInt: parsing \"" ++ (digits ++ codes "\": value out of range")))

abbrev mtu_failed : Text → GoError → Attempt (Attr ℤ)
mtu_failed what e =
    failed
      (record {
        summary = codes "Can't find " ++ (what ++ codes " interface MTU value");
        detail = error_text e;
      }
        ∷ [])
      e

-- the MTU of the first line, if one stands there
unfoldable pub read_mtu : Text → Text → Attr ℤ → Option Text → Attempt (Attr ℤ)
unfolding mtu_error
read_mtu what name old none = done old
read_mtu what name old (some digits) = elim (parse_int64 digits) [
  | none ↦ mtu_failed what (mtu_error what name digits)
  | some n ↦ done (known (pos n))
]

abbrev pub or_old : Attr Text → Option Text → Attr Text
or_old old none = old
or_old old (some t) = known t

-- MTU, administrative state and MAC address of the output of `ip link show`
-- (the unparseable output is quoted as it is, without the escapes of `%q`)
unfoldable pub parse_link : Text → Text → Result → LinkState → Attempt LinkState
unfolding read_mtu
parse_link what name res link =
    let lines = split res.stdout 10 in
    let line = first_line lines in
    if not (contains line (codes "<"))
    then failed (diagnostics res) (
        new (
          quoted (codes "can't parse " ++ what) name
            (codes " link details, unexpected output: " ++ res.stdout)))
    else elim (read_mtu what name link.mtu (first_match at_mtu line)) [
      | failed ds e ↦ failed ds e
      | done mtu ↦ done (record link {
        mtu = mtu;
        state = known (if link_flag_up line then codes "up" else codes "down");
        mac_address = or_old link.mac_address (first_match at_mac (second_line lines));
      })
    ]

unfoldable pub accepted : Option GoError → Bool
accepted none = true
accepted (some e) = false

module _ (net : NetLib) where
  open net use {parse_cidr, is_link_local_unicast}

  valid_cidr : Attr Text → Option Text → Attr Text
  valid_cidr old none = old
  valid_cidr old (some a) = if accepted (parse_cidr a) then known a else old

  -- the loop over the IPv6 addresses: the first that is valid and not link-local
  global_address : Attr Text → List Text → Attr Text
  global_address old [] = old
  global_address old (a ∷ as') =
      let rest = global_address old as' in
      if accepted (parse_cidr a) && not (is_link_local_unicast a) then known a else rest

  -- the addresses of the output of `ip addr show`
  unfoldable pub parse_addresses : Text → LinkState → LinkState
  unfolding accepted valid_cidr global_address
  parse_addresses stdout link = record link {
    ipv4_address = valid_cidr link.ipv4_address (first_match at_inet stdout);
    ipv6_address = global_address link.ipv6_address (all_matches at_inet6 stdout);
  }

-- the interfaces of the model that are still members
unfoldable pub kept_members : List Text → List Text → List Text
kept_members current [] = []
kept_members current (m ∷ ms) =
    let rest = kept_members current ms in if has_text m current then m ∷ rest else rest

module _ (h : Host) where
  open h use {World}

  abbrev pub judge_try : Text → Result × World → Attempt Result × World
  judge_try message (res, w) = elim res.error [
    | none ↦ (done res, w)
    | some e ↦ (failed (diagnostics res) (errorf message e), w)
  ]

  -- run `ip`; its error is wrapped by a message
  unfoldable pub try_run : Text → IpCommand → Text → List Text → Try World Result
  try_run d ip message words w = judge_try message (run_ip h d ip words w)

  module _ (net : NetLib) where
    -- the part that the two functions share, before the members
    unfoldable pub read_link :
        Text → Text → Text → IpCommand → Text → LinkState → Try World LinkState
    read_link what addresses d ip name link = do
      res ←
          try_run d ip (quoted (codes "can't retrieve " ++ what) name (codes " details: "))
            (codes "link" ∷ codes "show" ∷ name ∷ [])
      link' ← λ w. (parse_link what name res link, w)
      res' ←
          try_run d ip (quoted (codes "can't retrieve " ++ what) name addresses)
            (codes "addr" ∷ codes "show" ∷ name ∷ [])
      return (parse_addresses net res'.stdout link')

    -- the names of the interfaces whose master is `name`
    unfoldable pub read_members : Text → Text → IpCommand → Text → Try World (List Text)
    read_members what d ip name = do
      res ←
          try_run d ip (quoted (codes "can't retrieve " ++ what) name (codes " members: "))
            (codes "link" ∷ codes "show" ∷ codes "master" ∷ name ∷ [])
      return (member_names res.stdout)
