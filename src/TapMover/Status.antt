-- ===== src/TapMover/Status.antt =====
-- The status file: what the mover of main_tap_mover_linux_amd64.go writes, and what
-- `readMoverStatus` of internal/provider/tap_resource.go makes of it.
use terraform_provider_zedam.Prelude.{
  ℕ, ◌≤◌, true, false, [], ◌∷◌, ◌++◌, ◌≡◌, ◌≢◌, ◌⊎◌, inl, inr, refl, sym, arith, All, reverse, drop,
  ◌∙◌, ap, ap₂, append_assoc,
}
use mathlib.Core.List.{reverse-cons, reverse-reverse}
use terraform_provider_zedam.Text.{Text, codes, concat, contains, has_prefix, trim_space, trim_left}
use terraform_provider_zedam.Tap.Mover.{content_status}
use terraform_provider_zedam.TapMover.{
  MoverStatus, error_status, moved_status, marshal, optional_field,
}
use terraform_provider_zedam.Text.Laws.{Lacks}
use terraform_provider_zedam.Text.Quote.{json_byte, json_bytes, json_string}
use terraform_provider_zedam.TapMover.Quoted.{
  moved_name, moved_text, skip_all, skip_quote, not_moved, json_free, TailFree,
}

-- the bytes of RFC 3339 in UTC
abbrev pub IsTime : Text → Type 0
IsTime = All (λ c. ((b'-' ≤ c) × (c ≤ b':')) ⊎ (c ≡ b'T') ⊎ (c ≡ b'Z'))

time_byte : (c : ℕ) → ((b'-' ≤ c) × (c ≤ b':')) ⊎ (c ≡ b'T') ⊎ (c ≡ b'Z') → json_byte c ≡ c ∷ []
unfolding json_byte
time_byte c (inl (lo, hi)) = ground arith
time_byte c (inr (inl e)) = rw e refl
time_byte c (inr (inr e)) = rw e refl

time_ne : (c : ℕ) → ((b'-' ≤ c) × (c ≤ b':')) ⊎ (c ≡ b'T') ⊎ (c ≡ b'Z') → c ≢ b'"'
time_ne c (inl (lo, hi)) = omega arith
time_ne c (inr (inl e)) = omega arith
time_ne c (inr (inr e)) = omega arith

time_m : (c : ℕ) → ((b'-' ≤ c) × (c ≤ b':')) ⊎ (c ≡ b'T') ⊎ (c ≡ b'Z') → c ≢ b'm'
time_m c (inl (lo, hi)) = omega arith
time_m c (inr (inl e)) = omega arith
time_m c (inr (inr e)) = omega arith

time-json : (t : Text) → IsTime t → json_bytes t ≡ t
unfolding json_bytes
time-json [] h = refl
time-json (c ∷ t) (hc, h) = ap₂ (λ a b. a ++ b) (time_byte c hc) (time-json t h)

-- A text that ends in a brace.
abbrev IsBraced : Text → Type 0
IsBraced x = (s : Text) × (x ≡ s ++ (b'}' ∷ []))

append-IsBraced : (a x : Text) → IsBraced x → IsBraced (a ++ x)
append-IsBraced a x (s, e) = (a ++ s, ap (λ y. a ++ y) e ∙ sym (append_assoc a s (b'}' ∷ [])))

reverse_last : (s : Text) (d : ℕ) → reverse (s ++ (d ∷ [])) ≡ d ∷ reverse s
reverse_last [] d = refl
reverse_last (c ∷ s) d =
    reverse-cons c (s ++ (d ∷ []))
    ∙ (ap (λ x. x ++ (c ∷ [])) (reverse_last s d) ∙ ap (λ x. d ∷ x) (sym (reverse-cons c s)))

trim_braced : (x : Text) → IsBraced x → trim_space (b'{' ∷ x) ≡ b'{' ∷ x
unfolding trim_space
trim_braced x (s, e) =
    let back : reverse (b'{' ∷ x) ≡ b'}' ∷ reverse (b'{' ∷ s) =
      ap (λ y. reverse (b'{' ∷ y)) e ∙ reverse_last (b'{' ∷ s) b'}' in
    ap (λ y. reverse (trim_left y)) back ∙ (ap reverse (sym back) ∙ reverse-reverse (b'{' ∷ x))

-- the text behind the timestamp of an error
abbrev behind_time : Text → Text
behind_time message = b'"' ∷ (codes ",\"error\":\"" ++ (json_bytes message ++ codes "\"}"))

marshal_error :
    (message t : Text)
    → message ≢ []
    → IsTime t
    → marshal (error_status message t)
      ≡ codes "{\"status\":\"error\",\"timestamp\":\"" ++ (t ++ behind_time message)
unfolding marshal concat json_string
marshal_error [] t h ht = absurd (h refl)
marshal_error (c ∷ s) t h ht =
    ap (λ x. codes "{\"status\":\"error\",\"timestamp\":\"" ++ x)
      (append_assoc (json_bytes t) (b'"' ∷ [])
          (codes ",\"error\":\"" ++ ((json_bytes (c ∷ s) ++ (b'"' ∷ [])) ++ codes "}"))
        ∙ ap₂ (λ a b. a ++ (b'"' ∷ (codes ",\"error\":\"" ++ b))) (time-json t ht)
            (append_assoc (json_bytes (c ∷ s)) (b'"' ∷ []) (codes "}")))

time-Lacks : (t : Text) → IsTime t → Lacks b'"' t
time-Lacks [] h = tt
time-Lacks (c ∷ t) (hc, h) = (time_ne c hc, time-Lacks t h)

-- A timestamp does not begin the word.
time_head :
    (t r : Text) → IsTime t → has_prefix (t ++ (b'"' ∷ r)) (moved_name ++ (b'"' ∷ [])) ≡ false
unfolding has_prefix
time_head [] r h = refl
time_head (c ∷ t) r (hc, h) = ground (arith, time_m c hc)

skip_front :
    (x : Text)
    → contains (codes "{\"status\":\"error\",\"timestamp\":\"" ++ x) moved_text
      ≡ contains (b'"' ∷ x) moved_text
unfolding contains has_prefix
skip_front x = refl

skip_key :
    (x : Text) → contains (codes "\",\"error\":\"" ++ x) moved_text ≡ contains (b'"' ∷ x) moved_text
unfolding contains has_prefix
skip_key x = refl

error_free :
    (message t : Text)
    → message ≢ moved_name
    → TailFree message
    → IsTime t
    → contains
        (codes "{\"status\":\"error\",\"timestamp\":\"" ++ (t ++ behind_time message))
        moved_text
      ≡ false
error_free message t ne free ht =
    skip_front (t ++ behind_time message)
    ∙ (skip_quote (t ++ behind_time message) (time_head t _ ht)
        ∙ (skip_all t (behind_time message) (time-Lacks t ht)
            ∙ (skip_key (json_bytes message ++ codes "\"}")
                ∙ (skip_quote (json_bytes message ++ codes "\"}") (not_moved message (codes "}") ne)
                    ∙ json_free message free))))

marshal-IsBraced : (s : MoverStatus) → IsBraced (drop 1 (marshal s))
unfolding marshal concat
marshal-IsBraced s = append-IsBraced (codes "\"status\":") _ (
    append-IsBraced (json_string s.status) _ (
      append-IsBraced (codes ",\"timestamp\":") _ (
        append-IsBraced (json_string s.timestamp) _ (
          append-IsBraced (optional_field (codes "operstate_was") s.operstate_was) _
            (append-IsBraced (optional_field (codes "error") s.error) (codes "}") ([], refl))))))

trim_marshal : (s : MoverStatus) → trim_space (marshal s) ≡ marshal s
unfolding marshal
trim_marshal s = trim_braced (drop 1 (marshal s)) (marshal-IsBraced s)

says_error :
    (x : Text)
    → contains x moved_text ≡ false
    → contains x (codes "\"error\"") ≡ true
    → content_status x ≡ codes "error"
unfolding content_status
says_error x m e = rw (m, e) refl

says_moved : (x : Text) → contains x moved_text ≡ true → content_status x ≡ codes "moved"
unfolding content_status
says_moved x m = rw m refl

has_error :
    (x : Text)
    → contains (codes "{\"status\":\"error\",\"timestamp\":\"" ++ x) (codes "\"error\"") ≡ true
unfolding contains has_prefix
has_error x = refl

has_moved : (operstate t : Text) → contains (marshal (moved_status operstate t)) moved_text ≡ true
unfolding marshal concat json_string contains has_prefix
has_moved operstate t = refl

-- What the mover reports as an error is read back as one: for a timestamp of RFC 3339 and a message
-- that is not empty, is not `moved`, and does not end in that word behind a quote.
pub content_status-error :
    (message t : Text)
    → message ≢ []
    → message ≢ codes "moved"
    → TailFree message
    → IsTime t
    → content_status (trim_space (marshal (error_status message t))) ≡ codes "error"
content_status-error message t h ne free ht =
    ap content_status (trim_marshal (error_status message t) ∙ marshal_error message t h ht)
    ∙ says_error _ (error_free message t ne free ht) (has_error (t ++ behind_time message))

-- What it reports as moved is read back so, whatever the timestamp and the state of the link.
pub content_status-moved :
    (operstate t : Text)
    → content_status (trim_space (marshal (moved_status operstate t))) ≡ codes "moved"
content_status-moved operstate t =
    ap content_status (trim_marshal (moved_status operstate t))
    ∙ says_moved (marshal (moved_status operstate t)) (has_moved operstate t)
