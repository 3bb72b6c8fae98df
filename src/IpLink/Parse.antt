-- ===== src/IpLink/Parse.antt =====
-- The regular expressions with which internal/provider/bridge_resource.go and lag_resource.go read
-- the output of `ip link show` and `ip addr show`, as functions: a matcher takes a text at a
-- position and gives what it captures and the rest. None of the expressions has a choice to go
-- back on, since the classes that meet in them are disjoint.
use terraform_provider_zedam.Prelude.{
  ℕ, zero, suc, ◌^◌, ◌-◌, Bool, true, false, ◌&&◌, ◌||◌, not, leb, ◌==◌, List, [], ◌∷◌, ◌++◌,
  Option, none, some, if◌then◌else◌, length, ◌>>=◌, ◌≡◌, refl,
}
use terraform_provider_zedam.Text.{Text, codes, is_empty, cut_prefix}
use terraform_provider_zedam.Text.Decimal.{parse_uint}

abbrev pub Matcher : Type 0
Matcher = Text → Option (Text × Text)

-- `\d`
abbrev pub is_digit : ℕ → Bool
is_digit c = leb b'0' c && leb c b'9'

-- `\s`
abbrev pub is_blank : ℕ → Bool
is_blank c = c == 32 || c == 9 || c == 10 || c == 12 || c == 13

-- `[0-9a-fA-F:]`
abbrev pub is_hex_colon : ℕ → Bool
is_hex_colon c = leb b'0' c && leb c b':' || leb b'a' c && leb c b'f' || leb b'A' c && leb c b'F'

-- `[^:@\s]`
abbrev pub is_name_byte : ℕ → Bool
is_name_byte c = not (c == b':' || c == b'@' || is_blank c)

-- the longest beginning in a class, and the rest
unfoldable pub span : (ℕ → Bool) → Text → Text × Text
span cls [] = ([], [])
span cls (c ∷ s) = let (a, r) = span cls s in if cls c then (c ∷ a, r) else ([], c ∷ s)

-- one or more characters of a class
unfoldable pub span1 : (ℕ → Bool) → Matcher
unfolding span
span1 cls s = let (a, r) = span cls s in if is_empty a then none else some (a, r)

-- `mtu (\d+)`
unfoldable pub at_mtu : Matcher
unfolding span1 cut_prefix
at_mtu s = do r ← cut_prefix s (codes "mtu "); span1 is_digit r

-- `link/ether\s+([0-9a-fA-F:]+)`
unfoldable pub at_mac : Matcher
unfolding span1 cut_prefix
at_mac s = do
  r ← cut_prefix s (codes "link/ether")
  (gap, r1) ← span1 is_blank r
  span1 is_hex_colon r1

-- `inet (\d+\.\d+\.\d+\.\d+/\d+)`
unfoldable pub at_inet : Matcher
unfolding span1 cut_prefix
at_inet s = do
  r ← cut_prefix s (codes "inet ")
  (a, r1) ← span1 is_digit r
  r2 ← cut_prefix r1 (codes ".")
  (b, r3) ← span1 is_digit r2
  r4 ← cut_prefix r3 (codes ".")
  (c, r5) ← span1 is_digit r4
  r6 ← cut_prefix r5 (codes ".")
  (d, r7) ← span1 is_digit r6
  r8 ← cut_prefix r7 (codes "/")
  (e, r9) ← span1 is_digit r8
  some (a ++ (codes "." ++ (b ++ (codes "." ++ (c ++ (codes "." ++ (d ++ (codes "/" ++ e))))))), r9)

-- `inet6 ([0-9a-fA-F:]+/\d+)`
unfoldable pub at_inet6 : Matcher
unfolding span1 cut_prefix
at_inet6 s = do
  r ← cut_prefix s (codes "inet6 ")
  (a, r1) ← span1 is_hex_colon r
  r2 ← cut_prefix r1 (codes "/")
  (b, r3) ← span1 is_digit r2
  some (a ++ (codes "/" ++ b), r3)

-- `\s*\d+:\s+([^:@\s]+)`, behind `(?m)^`
unfoldable pub at_member : Matcher
unfolding span1 cut_prefix
at_member s = do
  (n, r1) ← span1 is_digit (span is_blank s).1
  r2 ← cut_prefix r1 (codes ":")
  (gap, r3) ← span1 is_blank r2
  span1 is_name_byte r3

-- `FindStringSubmatch`: the first position that matches
unfoldable pub first_match : Matcher → Text → Option Text
first_match m [] = none
first_match m (c ∷ s) = elim (m (c ∷ s)) [ some (x, r) ↦ some x | none ↦ first_match m s ]

-- `FindAllStringSubmatch`, on fuel for each character
unfoldable pub matches_from : Matcher → ℕ → Text → List Text
matches_from m zero s = []
matches_from m (suc f) [] = []
matches_from m (suc f) (c ∷ s) = elim (m (c ∷ s)) [
  | some (x, r) ↦ x ∷ matches_from m f r
  | none ↦ matches_from m f s
]

unfoldable pub all_matches : Matcher → Text → List Text
unfolding matches_from
all_matches m s = matches_from m (length s) s

-- The same at the beginnings of lines alone; the second argument says whether one stands here.
unfoldable pub lines_from : Matcher → ℕ → Bool → Text → List Text
lines_from m zero start s = []
lines_from m (suc f) start [] = []
lines_from m (suc f) start (c ∷ s) = elim (if start then m (c ∷ s) else none) [
  | some (x, r) ↦ x ∷ lines_from m f false r
  | none ↦ lines_from m f (c == 10) s
]

-- `memberRegex.FindAllStringSubmatch(stdout, -1)`
unfoldable pub member_names : Text → List Text
unfolding lines_from at_member
member_names stdout = lines_from at_member (length stdout) true stdout

-- `strconv.ParseInt(digits, 10, 64)` of a text of digits
unfoldable pub parse_int64 : Text → Option ℕ
unfolding parse_uint
parse_int64 s = do n ← parse_uint s; if leb n (2 ^ 63 - 1) then some n else none

abbrev link_output : Text
link_output =
    codes
      "5: eth1.10@eth1: <BROADCAST,UP> mtu 1500 master br0\n    link/ether 00:1a:2b:3c:4d:5e brd ff:ff:ff:ff:ff:ff\n7: tap0: <UP> mtu 9000\n"

reads_members : member_names link_output ≡ codes "eth1.10" ∷ codes "tap0" ∷ []
unfolding member_names
reads_members = refl

reads_mtu : first_match at_mtu link_output ≡ some (codes "1500")
unfolding first_match at_mtu
reads_mtu = refl

reads_mac : first_match at_mac link_output ≡ some (codes "00:1a:2b:3c:4d:5e")
unfolding first_match at_mac
reads_mac = refl

reads_addresses :
    all_matches at_inet6
      (codes "inet 10.0.0.1/24 brd\ninet6 fd00::1/64 scope global\ninet6 fe80::1/64 scope link")
    ≡ codes "fd00::1/64" ∷ codes "fe80::1/64" ∷ []
unfolding all_matches at_inet6
reads_addresses = refl
