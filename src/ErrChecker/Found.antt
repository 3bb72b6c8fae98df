-- ===== src/ErrChecker/Found.antt =====
-- What the search finds: a message among the errors that the first one wraps, at any depth.
use terraform_provider_zedam.Prelude.{
  ℕ, zero, suc, Bool, true, false, List, [], ◌∷◌, ◌++◌, some, ◌≡◌, refl, sym, subst, ◌⊎◌, ◌↔◌, inl,
  inr, arith, Member, Member-append, Member-append_left, Member-append_right, Bool-cases,
}
use terraform_provider_zedam.Text.{Text, contains}
use terraform_provider_zedam.ErrChecker.{
  Errors, wrapped, seen, contains_one, search_any, contains_any, degree, IsClosed, Reach, here,
  wraps, Hits,
}
use terraform_provider_zedam.ErrChecker.Search.{contains_any_total}

contains_one-Member :
    (msg : Text) (strs : List Text)
    → contains_one msg strs ≡ true
    → (s : Text) × Member s strs × (contains msg s ≡ true)
unfolding contains_one
contains_one-Member msg [] h = cc
contains_one-Member msg (s ∷ strs) h = elim (Bool-cases (contains msg s)) [
  | inl y ↦ (s, inl refl, y)
  | inr n ↦ let (t, m, y) = contains_one-Member msg strs (ground arith) in (t, inr m, y)
]

Member-contains_one :
    (msg s : Text) (strs : List Text)
    → Member s strs
    → contains msg s ≡ true
    → contains_one msg strs ≡ true
unfolding contains_one
Member-contains_one msg s [] m h = elim m [ ]
Member-contains_one msg s (t ∷ strs) (inl e) h = ground (arith, e)
Member-contains_one msg s (t ∷ strs) (inr m) h = ground (arith, Member-contains_one msg s strs m h)

module _ (g : Errors) where
  open g use {Err, message, same, same_iff}

  seen→Member : (e : Err) (vs : List Err) → seen g e vs ≡ true → Member e vs
  unfolding seen
  seen→Member e [] h = cc
  seen→Member e (v ∷ vs) h = elim (Bool-cases (same e v)) [
    | inl y ↦ inl (sym ((same_iff e v).0 y))
    | inr n ↦ inr (seen→Member e vs (ground arith))
  ]

  -- Whatever stands in the queue is reached from `err`; so is the error that hits.
  search_any_sound :
      (strs : List Text) (err : Err) (fuel : ℕ) (visited queue : List Err)
      → ((x : Err) → Member x queue → Reach g err x)
      → search_any g strs fuel visited queue ≡ some true
      → (e : Err) × Reach g err e × Hits g strs e
  unfolding search_any
  search_any_sound strs err zero visited [] from h = cc
  search_any_sound strs err (suc fuel) visited [] from h = cc
  search_any_sound strs err zero visited (e ∷ queue) from h = cc
  search_any_sound strs err (suc fuel) visited (e ∷ queue) from h =
      elim (Bool-cases (seen g e visited)) [
        | inl old ↦
            search_any_sound strs err fuel visited queue (λ x m. from x (inr m)) (rw old at h)
        | inr new ↦ elim (Bool-cases (contains_one (message e) strs)) [
          | inl hit ↦ (e, from e (inl refl), contains_one-Member (message e) strs hit)
          | inr miss ↦
              search_any_sound strs err fuel (e ∷ visited) (queue ++ wrapped g e)
                (λ x m. elim (Member-append x queue (wrapped g e) m) [
                  | inl q ↦ from x (inr q)
                  | inr w ↦ wraps x (from e (inl refl)) w
                ])
                (rw (new, miss) at h)
        ]
      ]

  start : (err x : Err) → Member x (err ∷ []) → Reach g err x
  start err x (inl p) = subst (λ y. Reach g err y) p here
  start err x (inr n) = elim n [ ]

  -- Errors that were looked at in vain, with all that they wrap.
  abbrev Barren : List Text → List Err → List Err → Type 0
  Barren strs visited queue =
      (x : Err)
      → Member x visited
      → (contains_one (message x) strs ≡ false)
        × ((c : Err) → Member c (wrapped g x) → Member c visited ⊎ Member c queue)

  abbrev Covers : List Text → List Err → List Err → Type 0
  Covers strs visited queue =
      (vs : List Err) × ((x : Err)
        → Member x vs
        → (contains_one (message x) strs ≡ false)
          × ((c : Err) → Member c (wrapped g x) → Member c vs))
      × ((x : Err) → Member x visited ⊎ Member x queue → Member x vs)

  all_visited :
      (strs : List Text) (visited : List Err) → Barren strs visited [] → Covers strs visited []
  all_visited strs visited barren = (
    visited,
    λ x m. ((barren x m).0, λ c w. elim ((barren x m).1 c w) [ inl v ↦ v | inr q ↦ elim q [ ] ]),
    λ x m. elim m [ inl v ↦ v | inr q ↦ elim q [ ] ],
  )

  -- A round that skips a visited error.
  Barren-skip :
      (strs : List Text) (visited : List Err) (e : Err) (queue : List Err)
      → Member e visited
      → Barren strs visited (e ∷ queue)
      → Barren strs visited queue
  Barren-skip strs visited e queue old barren x m = (
    (barren x m).0,
    λ c w. elim ((barren x m).1 c w) [
      | inl v ↦ inl v
      | inr (inl p) ↦ inl (subst (λ y. Member y visited) p old)
      | inr (inr q) ↦ inr q
    ],
  )

  -- A round that looks at an error in vain.
  Barren-next :
      (strs : List Text) (visited : List Err) (e : Err) (queue : List Err)
      → contains_one (message e) strs ≡ false
      → Barren strs visited (e ∷ queue)
      → Barren strs (e ∷ visited) (queue ++ wrapped g e)
  Barren-next strs visited e queue miss barren x (inl p) = (
    subst (λ y. contains_one (message y) strs ≡ false) p miss,
    λ c w.
        inr (
          Member-append_right c queue (wrapped g e)
            (subst (λ y. Member c (wrapped g y)) (sym p) w)),
  )
  Barren-next strs visited e queue miss barren x (inr m) = (
    (barren x m).0,
    λ c w. elim ((barren x m).1 c w) [
      | inl v ↦ inl (inr v)
      | inr (inl p) ↦ inl (inl p)
      | inr (inr q) ↦ inr (Member-append_left c queue (wrapped g e) q)
    ],
  )

  Covers-skip :
      (strs : List Text) (visited : List Err) (e : Err) (queue : List Err)
      → Member e visited
      → Covers strs visited queue
      → Covers strs visited (e ∷ queue)
  Covers-skip strs visited e queue old (vs, closed, all) = (
    vs,
    closed,
    λ x m. elim m [
      | inl v ↦ all x (inl v)
      | inr (inl p) ↦ all x (inl (subst (λ y. Member y visited) p old))
      | inr (inr q) ↦ all x (inr q)
    ],
  )

  Covers-next :
      (strs : List Text) (visited : List Err) (e : Err) (queue : List Err)
      → Covers strs (e ∷ visited) (queue ++ wrapped g e)
      → Covers strs visited (e ∷ queue)
  Covers-next strs visited e queue (vs, closed, all) = (
    vs,
    closed,
    λ x m. elim m [
      | inl v ↦ all x (inl (inr v))
      | inr (inl p) ↦ all x (inl (inl p))
      | inr (inr q) ↦ all x (inr (Member-append_left x queue (wrapped g e) q))
    ],
  )

  -- At the end of a search that found nothing.
  search_any_complete :
      (strs : List Text) (fuel : ℕ) (visited queue : List Err)
      → Barren strs visited queue
      → search_any g strs fuel visited queue ≡ some false
      → Covers strs visited queue
  unfolding search_any
  search_any_complete strs zero visited [] barren h = all_visited strs visited barren
  search_any_complete strs (suc fuel) visited [] barren h = all_visited strs visited barren
  search_any_complete strs zero visited (e ∷ queue) barren h = cc
  search_any_complete strs (suc fuel) visited (e ∷ queue) barren h =
      elim (Bool-cases (seen g e visited)) [
        | inl old ↦
            let m = seen→Member e visited old in
            Covers-skip strs visited e queue m (
              search_any_complete strs fuel visited queue
                (Barren-skip strs visited e queue m barren) (rw old at h))
        | inr new ↦ elim (Bool-cases (contains_one (message e) strs)) [
          | inl hit ↦ absurd (cc (rw (new, hit) at h))
          | inr miss ↦ Covers-next strs visited e queue (
              search_any_complete strs fuel (e ∷ visited) (queue ++ wrapped g e)
                (Barren-next strs visited e queue miss barren) (rw (new, miss) at h))
        ]
      ]

  -- All that is reached from a covered error is covered.
  Reach-Covers :
      (strs : List Text) (err : Err) (vs : List Err)
      → ((x : Err)
          → Member x vs
          → (contains_one (message x) strs ≡ false)
            × ((c : Err) → Member c (wrapped g x) → Member c vs))
      → Member err vs
      → {e : Err} → Reach g err e
      → Member e vs
  Reach-Covers strs err vs closed m here = m
  Reach-Covers strs err vs closed m (wraps {b} c r w) =
      (closed b (Reach-Covers strs err vs closed m r)).1 c w

  search_any_misses :
      (strs : List Text) (err : Err) (fuel : ℕ)
      → search_any g strs fuel [] (err ∷ []) ≡ some false
      → (e : Err) → Reach g err e
      → contains_one (message e) strs ≡ false
  search_any_misses strs err fuel h e r =
      let (vs, closed, all) = search_any_complete strs fuel [] (err ∷ []) (λ x m. elim m [ ]) h in
      (closed e (Reach-Covers strs err vs closed (all err (inr (inl refl))) r)).0

  answers :
      (strs : List Text) (fuel : ℕ) (err : Err) (b : Bool)
      → contains_any g fuel (some err) strs ≡ some b
      → (b ≡ true) ↔ ((e : Err) × Reach g err e × Hits g strs e)
  unfolding contains_any
  answers [] fuel err b h = (λ t. cc, λ (e, r, (s, m, y)). elim m [ ])
  answers (s ∷ strs) fuel err true h =
      (λ t. search_any_sound (s ∷ strs) err fuel [] (err ∷ []) (start err) h, λ w. refl)
  answers (s ∷ strs) fuel err false h = (
    λ t. cc,
    λ (e, r, (t, m, y)). cc (
      search_any_misses (s ∷ strs) err fuel h e r,
      Member-contains_one (message e) t (s ∷ strs) m y,
    ),
  )

  -- `ContainsAny` decides reachability. If the errors that `err` wraps, at any depth, are among the
  -- members of a finite list, then fuel for one round more than their edges is enough: the search
  -- answers, and it answers true exactly when some error reached from `err` has a message that
  -- holds one of the texts, cycles and shared errors included.
  pub contains_any_exact :
      (us : List Err) (err : Err) (strs : List Text)
      → IsClosed g us
      → Member err us
      → (b : Bool) × (contains_any g (suc (degree g us)) (some err) strs ≡ some b)
        × ((b ≡ true) ↔ ((e : Err) × Reach g err e × Hits g strs e))
  contains_any_exact us err strs closed m =
      let (b, r) = contains_any_total g us err strs closed m in
      (b, r, answers strs (suc (degree g us)) err b r)
