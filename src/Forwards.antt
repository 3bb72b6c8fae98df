-- ===== src/Forwards.antt =====
-- internal/hypervisor/forwards.go, the standard port forwards of an edge node's first NIC, and
-- `parseForwards` of main_gvproxy.go, which reads back what `GvproxyForwards` writes.
-- Ports are not negative here, so the decimal print needs no sign.
pub mod Gvproxy
use terraform_provider_zedam.Prelude.{
  ℕ, ◌+◌, Bool, true, false, ◌||◌, List, [], ◌∷◌, ◌++◌, Option, none, some, if◌then◌else◌, map, ltb,
  ◌≡◌, refl,
}
use terraform_provider_zedam.Text.{
  Text, codes, ◌=ᵗ◌, is_empty, trim_space, trim_prefix, split, cut, join,
}
use terraform_provider_zedam.Text.Decimal.{format}

pub record StandardForward : Type 0 where
  pub host_offset : ℕ
  pub guest_port : ℕ

abbrev pub standard_forwards : List StandardForward
standard_forwards =
    record { host_offset = 0; guest_port = 22 }
    ∷ record { host_offset = 1; guest_port = 10022 }
    ∷ record { host_offset = 2; guest_port = 10080 }
    ∷ []

slirp_part : ℕ → StandardForward → Text
slirp_part ssh_port f =
    codes "hostfwd=tcp::"
    ++ (format (ssh_port + f.host_offset) ++ (codes "-:" ++ format f.guest_port))

unfoldable pub slirp_nic0 : ℕ → Text
unfolding slirp_part
slirp_nic0 ssh_port =
    codes "user,id=usernet0,ipv6=off,"
    ++ (join (map (slirp_part ssh_port) standard_forwards) (codes ",") ++ codes ",model=virtio")

doc_part : StandardForward → Text
doc_part f =
    let host =
      if ltb 0 f.host_offset
      then codes "<PORT+" ++ (format f.host_offset ++ codes ">")
      else codes "<PORT>" in
    codes "hostfwd=tcp::" ++ (host ++ (codes "-:" ++ format f.guest_port))

unfoldable pub slirp_nic0_doc : Text
unfolding doc_part
slirp_nic0_doc =
    codes "user,id=usernet0,ipv6=off,"
    ++ (join (map doc_part standard_forwards) (codes ",") ++ codes ",model=virtio")

-- the two sides of an entry of `-gp.forwards`
unfoldable pub gvproxy_host : ℕ → StandardForward → Text
gvproxy_host ssh_port f = codes "0.0.0.0:" ++ format (ssh_port + f.host_offset)

unfoldable pub gvproxy_guest : Text → StandardForward → Text
gvproxy_guest guest_ip f = guest_ip ++ (codes ":" ++ format f.guest_port)

unfoldable pub gvproxy_part : ℕ → Text → StandardForward → Text
gvproxy_part ssh_port guest_ip f =
    gvproxy_host ssh_port f ++ (codes "/" ++ gvproxy_guest guest_ip f)

unfoldable pub gvproxy_forwards : ℕ → Text → Text
gvproxy_forwards ssh_port guest_ip =
    join (map (gvproxy_part ssh_port guest_ip) standard_forwards) (codes ",")

describe_part : Text → ℕ → StandardForward → Text
describe_part host ssh_port f =
    codes "tcp/"
    ++ (host
        ++ (codes ":"
            ++ (format (ssh_port + f.host_offset) ++ (codes "->:" ++ format f.guest_port))))

unfoldable pub describe_port_forwards : Text → ℕ → Text
unfolding describe_part ◌=ᵗ◌
describe_port_forwards host ssh_port =
    let shown = if is_empty host || host =ᵗ codes "localhost" then codes "127.0.0.1" else host in
    join (map (describe_part shown ssh_port) standard_forwards) (codes ", ")

-- The errors of `parseForwards`, each with the entry that it quotes.
pub data ForwardError : Type 0 where
  missing_slash empty_side : Text → ForwardError

pub data Parsed (A : Type 0) : Type 0 where
  ok : A → Parsed A
  err : ForwardError → Parsed A

-- `result[host] = guest`
unfoldable pub insert : Text → Text → List (Text × Text) → List (Text × Text)
insert host guest [] = (host, guest) ∷ []
insert host guest ((h, g) ∷ m) =
    let rest = insert host guest m in if h =ᵗ host then (host, guest) ∷ m else (h, g) ∷ rest

unfoldable pub sides : Text → Text → Text → Parsed (Text × Text)
sides entry host guest =
    if is_empty host || is_empty guest then err (empty_side entry) else ok (host, guest)

-- the body of the loop, for an entry that is not empty
unfoldable pub parse_entry : Text → Parsed (Text × Text)
unfolding sides
parse_entry trimmed =
    let entry = trim_prefix trimmed (codes "tcp://") in
    elim (cut entry b'/') [
      | none ↦ err (missing_slash entry)
      | some (a, b) ↦ sides entry (trim_space a) (trim_space b)
    ]

unfoldable pub parse_entries : List Text → List (Text × Text) → Parsed (List (Text × Text))
parse_entries [] result = ok result
parse_entries (e ∷ es) result = elim (is_empty (trim_space e)) [
  | true ↦ parse_entries es result
  | false ↦ elim (parse_entry (trim_space e)) [
    | err x ↦ err x
    | ok (host, guest) ↦ parse_entries es (insert host guest result)
  ]
]

-- A nil map and an empty one are not told apart.
unfoldable pub parse_forwards : Text → Parsed (List (Text × Text))
unfolding parse_entries
parse_forwards raw = if is_empty raw then ok [] else parse_entries (split raw b',') []
