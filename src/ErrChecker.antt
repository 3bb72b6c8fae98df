-- ===== src/ErrChecker.antt =====
-- internal/errchecker/checker.go: the search through an error and all that it wraps for a message
-- that holds one of some texts. Errors are what Go's `error` interface shows of them.
pub mod Search
pub mod Found
use terraform_provider_zedam.Prelude.{
  ℕ, zero, suc, ◌+◌, Bool, true, false, ◌||◌, ◌&&◌, List, [], ◌∷◌, ◌++◌, Option, none, some,
  if◌then◌else◌, ◌≡◌, ◌↔◌, length, Member,
}
use terraform_provider_zedam.Text.{Text, contains}

-- Go's errors: their message, equality as the keys of a map, what `errors.Unwrap` gives, and what
-- the `Unwrap() []error` of a joined error gives (nothing for the others).
pub record Errors : Type 1 where
  pub Err : Type 0
  pub message : Err → Text
  pub same : Err → Err → Bool
  pub same_iff : (a b : Err) → (same a b ≡ true) ↔ (a ≡ b)
  pub unwrap : Err → Option Err
  pub unwrap_all : Err → List Err

abbrev pub to_list : {A : Type 0} → Option A → List A
to_list none = []
to_list (some a) = a ∷ []

-- the inner loop over `searchStrings`
unfoldable pub contains_one : Text → List Text → Bool
contains_one msg [] = false
contains_one msg (s ∷ strs) = contains msg s || contains_one msg strs

module _ (g : Errors) where
  open g use {Err, message, same, unwrap, unwrap_all}

  -- what the loop appends to the queue
  abbrev pub wrapped : Err → List Err
  wrapped e = to_list (unwrap e) ++ unwrap_all e

  -- `visited[current]`
  unfoldable pub seen : Err → List Err → Bool
  seen e [] = false
  seen e (v ∷ vs) = same e v || seen e vs

  -- the loop of `ContainsAny`; `none` means that the fuel ran out
  unfoldable pub search_any : List Text → ℕ → List Err → List Err → Option Bool
  search_any strs fuel visited [] = some false
  search_any strs zero visited (e ∷ queue) = none
  search_any strs (suc fuel) visited (e ∷ queue) =
      let skip = search_any strs fuel visited queue in
      let next = search_any strs fuel (e ∷ visited) (queue ++ wrapped e) in
      if seen e visited then skip else if contains_one (message e) strs then some true else next

  -- the loop of `ContainsNone`
  unfoldable pub search_none : List Text → ℕ → List Err → List Err → Option Bool
  search_none strs fuel visited [] = some true
  search_none strs zero visited (e ∷ queue) = none
  search_none strs (suc fuel) visited (e ∷ queue) =
      let skip = search_none strs fuel visited queue in
      let next = search_none strs fuel (e ∷ visited) (queue ++ wrapped e) in
      if seen e visited then skip else if contains_one (message e) strs then some false else next

  unfoldable pub contains_any : ℕ → Option Err → List Text → Option Bool
  contains_any fuel none strs = some false
  contains_any fuel (some err) [] = some false
  contains_any fuel (some err) (s ∷ strs) = search_any (s ∷ strs) fuel [] (err ∷ [])

  unfoldable pub contains_none : ℕ → Option Err → List Text → Option Bool
  contains_none fuel none strs = some true
  contains_none fuel (some err) [] = some true
  contains_none fuel (some err) (s ∷ strs) = search_none (s ∷ strs) fuel [] (err ∷ [])

  -- how many errors the members of a list wrap
  unfoldable pub degree : List Err → ℕ
  degree [] = 0
  degree (u ∷ us) = length (wrapped u) + degree us

  -- A list that holds all that its members wrap.
  abbrev pub IsClosed : List Err → Type 0
  IsClosed us = (x : Err) → Member x us → (c : Err) → Member c (wrapped x) → Member c us

  pub data Reach (err : Err) : Err → Type 0 where
    here : Reach err err
    wraps : {b : Err} (c : Err) → Reach err b → Member c (wrapped b) → Reach err c

  -- The message of `e` holds one of the texts.
  abbrev pub Hits : List Text → Err → Type 0
  Hits strs e = (s : Text) × Member s strs × (contains (message e) s ≡ true)
