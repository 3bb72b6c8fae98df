-- ===== src/Forwards/Gvproxy.antt =====
-- The flag that the hypervisor hands to gvproxy is read back as the forwards that it stands for.
use terraform_provider_zedam.Forwards.{
  StandardForward, standard_forwards, gvproxy_host, gvproxy_guest, gvproxy_part, gvproxy_forwards,
  ok, insert, sides, parse_entry, parse_entries, parse_forwards,
}
use terraform_provider_zedam.Prelude.{
  ℕ, ◌+◌, ◌≤◌, false, List, [], ◌∷◌, some, ◌≡◌, ◌≢◌, refl, arith, All, All-append, map,
}
use terraform_provider_zedam.Text.{
  Text, codes, is_empty, is_space, ◌=ᵗ◌, join, split, cut, trim_space, trim_prefix,
}
use terraform_provider_zedam.Text.Laws.{
  Lacks, NoSpace, trim_space_id, cut_at, split-join, is_empty-append, =ᵗ_ne,
}
use terraform_provider_zedam.Text.Decimal.{format, format-IsDigit, format_ne, IsDigit, max_u64}

-- A byte that neither ends an entry nor is trimmed.
abbrev pub IsHostByte : ℕ → Type 0
IsHostByte c = (is_space c ≡ false) × (c ≢ b',')

IsDigit-IsHostByte : (s : Text) → All IsDigit s → All IsHostByte s
IsDigit-IsHostByte [] h = tt
IsDigit-IsHostByte (c ∷ s) (hc, hs) = (ground arith, IsDigit-IsHostByte s hs)

IsDigit-Lacks_slash : (s : Text) → All IsDigit s → Lacks b'/' s
IsDigit-Lacks_slash [] h = tt
IsDigit-Lacks_slash (c ∷ s) (hc, hs) = (omega arith, IsDigit-Lacks_slash s hs)

IsHostByte-NoSpace : (s : Text) → All IsHostByte s → NoSpace s
IsHostByte-NoSpace [] h = tt
IsHostByte-NoSpace (c ∷ s) (hc, hs) = (hc.0, IsHostByte-NoSpace s hs)

IsHostByte-Lacks : (s : Text) → All IsHostByte s → Lacks b',' s
IsHostByte-Lacks [] h = tt
IsHostByte-Lacks (c ∷ s) (hc, hs) = (hc.1, IsHostByte-Lacks s hs)

module _ (ssh_port : ℕ) (guest_ip : Text) (plain : All IsHostByte guest_ip)
    (f : StandardForward) where
  host-IsHostByte : All IsHostByte (gvproxy_host ssh_port f)
  unfolding gvproxy_host
  host-IsHostByte =
      All-append IsHostByte (codes "0.0.0.0:") _ (ground arith)
        (IsDigit-IsHostByte _ (format-IsDigit _))

  host-Lacks_slash : Lacks b'/' (gvproxy_host ssh_port f)
  unfolding gvproxy_host
  host-Lacks_slash =
      All-append _ (codes "0.0.0.0:") _ (omega arith) (IsDigit-Lacks_slash _ (format-IsDigit _))

  guest-IsHostByte : All IsHostByte (gvproxy_guest guest_ip f)
  unfolding gvproxy_guest
  guest-IsHostByte =
      All-append IsHostByte guest_ip _ plain (
        All-append IsHostByte (codes ":") _ (ground arith)
          (IsDigit-IsHostByte _ (format-IsDigit _)))

  part-IsHostByte : All IsHostByte (gvproxy_part ssh_port guest_ip f)
  unfolding gvproxy_part
  part-IsHostByte =
      All-append IsHostByte (gvproxy_host ssh_port f) _ host-IsHostByte
        (All-append IsHostByte (codes "/") _ (ground arith) guest-IsHostByte)

  trim-part : trim_space (gvproxy_part ssh_port guest_ip f) ≡ gvproxy_part ssh_port guest_ip f
  trim-part = trim_space_id _ (IsHostByte-NoSpace _ part-IsHostByte)

  part-ne-empty : is_empty (gvproxy_part ssh_port guest_ip f) ≡ false
  unfolding gvproxy_part gvproxy_host
  part-ne-empty = refl

  trim_prefix-part :
      trim_prefix (gvproxy_part ssh_port guest_ip f) (codes "tcp://")
      ≡ gvproxy_part ssh_port guest_ip f
  unfolding gvproxy_part gvproxy_host trim_prefix
  trim_prefix-part = refl

  cut-part :
      cut (gvproxy_part ssh_port guest_ip f) b'/'
      ≡ some (gvproxy_host ssh_port f, gvproxy_guest guest_ip f)
  unfolding gvproxy_part
  cut-part = cut_at (gvproxy_host ssh_port f) (gvproxy_guest guest_ip f) b'/' host-Lacks_slash

  sides-part :
      (e : Text)
      → sides e (gvproxy_host ssh_port f) (gvproxy_guest guest_ip f)
        ≡ ok (gvproxy_host ssh_port f, gvproxy_guest guest_ip f)
  unfolding sides gvproxy_guest gvproxy_host
  sides-part e = rw (is_empty-append guest_ip b':' (format f.guest_port))

  parse_entry-part :
      parse_entry (gvproxy_part ssh_port guest_ip f)
      ≡ ok (gvproxy_host ssh_port f, gvproxy_guest guest_ip f)
  unfolding parse_entry
  parse_entry-part =
      rw (trim_prefix-part, cut-part, parse_entry)
        (rw
          (
            trim_space_id _ (IsHostByte-NoSpace _ host-IsHostByte),
            trim_space_id _ (IsHostByte-NoSpace _ guest-IsHostByte),
          )
          (sides-part _))

  parse_entries-part :
      (es : List Text) (m : List (Text × Text))
      → parse_entries (gvproxy_part ssh_port guest_ip f ∷ es) m
        ≡ parse_entries es (insert (gvproxy_host ssh_port f) (gvproxy_guest guest_ip f) m)
  unfolding parse_entries
  parse_entries-part es m =
      rw (trim-part, part-ne-empty, trim-part, parse_entry-part, parse_entries)

host_ne :
    (n m : ℕ) (f g : StandardForward)
    → n + f.host_offset ≤ max_u64
    → m + g.host_offset ≤ max_u64
    → n + f.host_offset ≢ m + g.host_offset
    → (gvproxy_host n f =ᵗ gvproxy_host m g) ≡ false
unfolding gvproxy_host ◌=ᵗ◌
host_ne n m f g hn hm h = =ᵗ_ne _ _ (format_ne _ _ hn hm h)

-- What gvproxy is to forward: each host port to its guest port.
abbrev pub forwards_of : ℕ → Text → List StandardForward → List (Text × Text)
forwards_of ssh_port guest_ip = map (λ f. (gvproxy_host ssh_port f, gvproxy_guest guest_ip f))

abbrev f0 : StandardForward
f0 = record { host_offset = 0; guest_port = 22 }

abbrev f1 : StandardForward
f1 = record { host_offset = 1; guest_port = 10022 }

abbrev f2 : StandardForward
f2 = record { host_offset = 2; guest_port = 10080 }

module _ (ssh_port : ℕ) (guest_ip : Text) (plain : All IsHostByte guest_ip) where
  parts-Lacks : All (Lacks b',') (map (gvproxy_part ssh_port guest_ip) standard_forwards)
  parts-Lacks = (comma f0, (comma f1, (comma f2, tt)))
    where
      comma : (f : StandardForward) → Lacks b',' (gvproxy_part ssh_port guest_ip f)
      comma f = IsHostByte-Lacks _ (part-IsHostByte ssh_port guest_ip plain f)

  forwards-ne-empty : is_empty (gvproxy_forwards ssh_port guest_ip) ≡ false
  unfolding gvproxy_forwards join gvproxy_part gvproxy_host
  forwards-ne-empty = refl

  split-forwards :
      split (gvproxy_forwards ssh_port guest_ip) b','
      ≡ map (gvproxy_part ssh_port guest_ip) standard_forwards
  unfolding gvproxy_forwards
  split-forwards = split-join _ _ b',' parts-Lacks

  -- gvproxy reads back what the hypervisor writes: for every base port whose forwards fit 64 bits
  -- and every guest address without white space and commas, parsing the `-gp.forwards` flag gives
  -- exactly the standard forwards, each host port mapped to its guest port, with none lost to
  -- another of the same key.
  pub parse_forwards-gvproxy_forwards :
      ssh_port + 2 ≤ max_u64
      → parse_forwards (gvproxy_forwards ssh_port guest_ip)
        ≡ ok (forwards_of ssh_port guest_ip standard_forwards)
  unfolding parse_forwards parse_entries insert
  parse_forwards-gvproxy_forwards fits =
      rw (forwards-ne-empty, split-forwards)
        (simp (parse_entries-part ssh_port guest_ip plain) (
          rw (
            host_ne ssh_port ssh_port f0 f1 (omega arith) (omega arith) (omega arith),
            host_ne ssh_port ssh_port f0 f2 (omega arith) (omega arith) (omega arith),
            host_ne ssh_port ssh_port f1 f2 (omega arith) (omega arith) (omega arith),
            insert,
          )))
