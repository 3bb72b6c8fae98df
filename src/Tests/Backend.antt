-- ===== src/Tests/Backend.antt =====
-- The HTTP back end for states.
use terraform_provider_zedam.Prelude.{
  true, false, List, [], ◌∷◌, ◌++◌, none, some, ◌≡◌, ◌≢◌, refl, inl, inr, subst, sym, ◌∙◌, arith,
  All, if◌then◌else◌,
}
use terraform_provider_zedam.Text.{Text, codes, ◌=ᵗ◌, has_prefix, join, split}
use terraform_provider_zedam.Text.Laws.{=ᵗ_refl, =ᵗ_ne}
use terraform_provider_zedam.StateBackend.{
  Request, get, put, delete, Content, content, missing, removed, Files, ok, full_path, escapes,
  state_handler, clean, clean_path,
}
use terraform_provider_zedam.StateBackend.Paths.{IsName, full_path-inside}
use terraform_provider_zedam.StateBackend.Requests.{
  IsInside, IsKept, serve_all, serve_all-IsKept, get_after_put,
}

-- files as a function of their paths
abbrev Store : Type 0
Store = Text → Content

abbrev with_file : Text → Content → Store → Store
with_file p c s q = if p =ᵗ q then c else s q

abbrev memory : Files
memory = record {
  Store = Store;
  read_file = λ p s. s p;
  mkdir_all = λ p s. (true, s);
  write_file = λ p text s. (true, with_file p (content text) s);
  remove = λ p s. (removed, with_file p missing s);
}

other_file :
    (p q text : Text) (c : Content) (s : Store)
    → p ≢ q
    → s q ≡ content text
    → with_file p c s q ≡ content text
other_file p q text c s ne held = rw (=ᵗ_ne p q ne) held

memory_stored :
    (p text : Text) (s : Store)
    → (memory.write_file p text s).0 ≡ true
    → memory.read_file p (memory.write_file p text s).1 ≡ content text
memory_stored p text s done = rw (=ᵗ_refl p) refl

abbrev shadow : Store
shadow = with_file (codes "/etc/shadow") (content (codes "secret")) (λ q. missing)

abbrev states_dir : Text
states_dir = codes "/srv/states"

abbrev attacks : List Request
attacks =
    record { method = put; path = codes "/../../etc/shadow"; body = some (codes "{}") }
    ∷ record { method = delete; path = codes "../../etc/shadow"; body = none }
    ∷ []

abbrev HasSecret : Store → Type 0
HasSecret s = s (codes "/etc/shadow") ≡ content (codes "secret")

inside_ne : (p : Text) → IsInside memory states_dir p → p ≢ codes "/etc/shadow"
unfolding has_prefix ◌=ᵗ◌
inside_ne p (cleaned, inl below) e =
    let bad : has_prefix (codes "/etc/shadow") (states_dir ++ codes "/") ≡ true =
      subst (λ z. has_prefix z (states_dir ++ codes "/") ≡ true) e below in
    absurd (cc bad)
inside_ne p (cleaned, inr same) e =
    let bad : (codes "/etc/shadow" =ᵗ states_dir) ≡ true =
      subst (λ z. (z =ᵗ states_dir) ≡ true) (sym same ∙ e) (=ᵗ_refl states_dir) in
    absurd (cc bad)

secret-IsKept : IsKept memory states_dir HasSecret
secret-IsKept = record {
  by_mkdir = λ p s inside held. held;
  by_write = λ p text s inside held.
      other_file p (codes "/etc/shadow") (codes "secret") (content text) s (inside_ne p inside)
        held;
  by_remove = λ p s inside held.
      other_file p (codes "/etc/shadow") (codes "secret") missing s (inside_ne p inside) held;
}

serve_all-IsKept_example :
    serve_all memory states_dir attacks shadow (codes "/etc/shadow") ≡ content (codes "secret")
unfolding has_prefix ◌=ᵗ◌
serve_all-IsKept_example =
    serve_all-IsKept memory states_dir HasSecret secret-IsKept attacks shadow refl

get_after_put_example :
    state_handler memory states_dir
      (record { method = get; path = codes "/a/b"; body = none })
      (state_handler memory states_dir
        (record { method = put; path = codes "/a/b"; body = some (codes "{}") })
        shadow).1
    ≡ (
      ok (codes "{}"),
      (state_handler memory states_dir
          (record { method = put; path = codes "/a/b"; body = some (codes "{}") })
          shadow).1,
    )
unfolding state_handler has_prefix clean join split clean_path
get_after_put_example =
    get_after_put memory memory_stored states_dir (codes "/a/b") (codes "{}") put none shadow
      (inr refl) refl

full_path-inside_example :
    (e : Text) × (es : List Text) × All IsName (e ∷ es)
    × (full_path (codes "/srv/states") (codes "/../a")
        ≡ codes "/srv/states" ++ (b'/' ∷ join (e ∷ es) (codes "/")))
    × (escapes (codes "/srv/states") (full_path (codes "/srv/states") (codes "/../a")) ≡ false)
unfolding ◌=ᵗ◌ join
full_path-inside_example =
    full_path-inside (codes "srv") (codes "states" ∷ []) (codes "../a")
      ((ground arith, refl, refl), ((ground arith, refl, refl), tt))
