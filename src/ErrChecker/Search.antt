-- ===== src/ErrChecker/Search.antt =====
-- The searches of `ContainsAny` and `ContainsNone` end, and one is the negation of the other.
use terraform_provider_zedam.Prelude.{
  ℕ, zero, suc, ◌+◌, ◌≤◌, Bool, true, false, not, List, [], ◌∷◌, ◌++◌, Option, none, some,
  if◌then◌else◌, ◌≡◌, refl, inl, inr, arith, length, Member, length-append, Bool-cases,
  Member-append, subst, ◌∙◌,
}
use mathlib.Core.Option
use terraform_provider_zedam.Text.{Text}
use terraform_provider_zedam.ErrChecker.{
  Errors, wrapped, seen, contains_one, search_any, search_none, contains_any, contains_none, degree,
  IsClosed,
}

module _ (g : Errors) where
  open g use {Err, message, same, same_iff}

  -- what the errors that are not visited yet would add to the queue
  weight : List Err → List Err → ℕ
  weight visited [] = 0
  weight visited (u ∷ us) =
      (if seen g u visited then 0 else length (wrapped g u)) + weight visited us

  weight_mono : (e : Err) (visited us : List Err) → weight (e ∷ visited) us ≤ weight visited us
  unfolding weight seen
  weight_mono e visited [] = omega arith
  weight_mono e visited (u ∷ us) = ground (arith, weight_mono e visited us)

  weight_visit :
      (e : Err) (visited us : List Err)
      → Member e us
      → seen g e visited ≡ false
      → length (wrapped g e) + weight (e ∷ visited) us ≤ weight visited us
  unfolding weight seen
  weight_visit e visited [] m new = elim m [ ]
  weight_visit e visited (u ∷ us) (inl p) new =
      ground (arith, p, (same_iff u e).1, weight_mono e visited us)
  weight_visit e visited (u ∷ us) (inr m) new = ground (arith, weight_visit e visited us m new)

  -- The three branches of a round.
  search_any-seen :
      (strs : List Text) (fuel : ℕ) (visited : List Err) (e : Err) (queue : List Err)
      → seen g e visited ≡ true
      → search_any g strs (suc fuel) visited (e ∷ queue) ≡ search_any g strs fuel visited queue
  unfolding search_any
  search_any-seen strs fuel visited e queue old = rw old

  search_any-hit :
      (strs : List Text) (fuel : ℕ) (visited : List Err) (e : Err) (queue : List Err)
      → seen g e visited ≡ false
      → contains_one (message e) strs ≡ true
      → search_any g strs (suc fuel) visited (e ∷ queue) ≡ some true
  unfolding search_any
  search_any-hit strs fuel visited e queue new hit = rw (new, hit)

  search_any-next :
      (strs : List Text) (fuel : ℕ) (visited : List Err) (e : Err) (queue : List Err)
      → seen g e visited ≡ false
      → contains_one (message e) strs ≡ false
      → search_any g strs (suc fuel) visited (e ∷ queue)
        ≡ search_any g strs fuel (e ∷ visited) (queue ++ wrapped g e)
  unfolding search_any
  search_any-next strs fuel visited e queue new miss = rw (new, miss)

  sub_next :
      (us : List Err)
      → IsClosed g us
      → (e : Err) (queue : List Err) → ((x : Err) → Member x (e ∷ queue) → Member x us)
      → (x : Err) → Member x (queue ++ wrapped g e)
      → Member x us
  sub_next us closed e queue sub x m = elim (Member-append x queue (wrapped g e) m) [
    | inl q ↦ sub x (inr q)
    | inr w ↦ closed e (sub e (inl refl)) x w
  ]

  only : (us : List Err) (err : Err) → Member err us → (x : Err) → Member x (err ∷ []) → Member x us
  only us err m x (inl p) = subst (λ y. Member y us) p m
  only us err m x (inr n) = elim n [ ]

  -- Enough fuel: the length of the queue and what is still to be added to it.
  search_any_total :
      (strs : List Text) (us : List Err)
      → IsClosed g us
      → (fuel : ℕ) (visited queue : List Err) → ((x : Err) → Member x queue → Member x us)
      → length queue + weight visited us ≤ fuel
      → (b : Bool) × (search_any g strs fuel visited queue ≡ some b)
  search_any_total strs us closed zero visited [] sub enough = (false, unfold search_any in refl)
  search_any_total strs us closed (suc fuel) visited [] sub enough =
      (false, unfold search_any in refl)
  search_any_total strs us closed zero visited (e ∷ queue) sub enough = absurd (omega arith)
  search_any_total strs us closed (suc fuel) visited (e ∷ queue) sub enough =
      elim (Bool-cases (seen g e visited)) [
        | inl old ↦
            let (b, r) =
              search_any_total strs us closed fuel visited queue (λ x m. sub x (inr m))
                (omega arith) in
            (b, search_any-seen strs fuel visited e queue old ∙ r)
        | inr new ↦ elim (Bool-cases (contains_one (message e) strs)) [
          | inl hit ↦ (true, search_any-hit strs fuel visited e queue new hit)
          | inr miss ↦
              let (b, r) =
                search_any_total strs us closed fuel (e ∷ visited) (queue ++ wrapped g e)
                  (sub_next us closed e queue sub)
                  (omega (
                    arith,
                    length-append queue (wrapped g e),
                    weight_visit e visited us (sub e (inl refl)) new,
                  )) in
              (b, search_any-next strs fuel visited e queue new miss ∙ r)
        ]
      ]

  -- `ContainsNone` answers the negation of what `ContainsAny` answers, and ends with it.
  search_none-not :
      (strs : List Text) (fuel : ℕ) (visited queue : List Err)
      → search_none g strs fuel visited queue
        ≡ Option.map not (search_any g strs fuel visited queue)
  unfolding search_none search_any
  search_none-not strs zero visited [] = refl
  search_none-not strs (suc fuel) visited [] = refl
  search_none-not strs zero visited (e ∷ queue) = refl
  search_none-not strs (suc fuel) visited (e ∷ queue) = ground (
    arith,
    search_none-not strs fuel visited queue,
    search_none-not strs fuel (e ∷ visited) (queue ++ wrapped g e),
  )

  weight-degree : (visited us : List Err) → weight visited us ≤ degree g us
  unfolding weight degree
  weight-degree visited [] = omega arith
  weight-degree visited (u ∷ us) = ground (arith, weight-degree visited us)

  -- `ContainsNone` is the negation of `ContainsAny` for every error, nil included, and every list
  -- of texts: one ends when the other does, with the opposite answer.
  pub contains_none-not :
      (fuel : ℕ) (err : Option Err) (strs : List Text)
      → contains_none g fuel err strs ≡ Option.map not (contains_any g fuel err strs)
  unfolding contains_none contains_any
  contains_none-not fuel none strs = refl
  contains_none-not fuel (some err) [] = refl
  contains_none-not fuel (some err) (s ∷ strs) = search_none-not (s ∷ strs) fuel [] (err ∷ [])

  pub contains_any_total :
      (us : List Err) (err : Err) (strs : List Text)
      → IsClosed g us
      → Member err us
      → (b : Bool) × (contains_any g (suc (degree g us)) (some err) strs ≡ some b)
  unfolding contains_any
  contains_any_total us err [] closed m = (false, refl)
  contains_any_total us err (s ∷ strs) closed m =
      search_any_total (s ∷ strs) us closed (suc (degree g us)) [] (err ∷ []) (only us err m)
        (omega (arith, weight-degree [] us))
