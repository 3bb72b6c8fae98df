-- ===== src/StateBackend/Paths.antt =====
-- Where misc/tf_state_backend_http/main.go maps the path of a request.
use terraform_provider_zedam.Prelude.{
  ℕ, true, false, ◌==◌, List, [], ◌∷◌, ◌++◌, ◌≡◌, ◌≢◌, refl, sym, ap, subst, arith, All, Bool-cases,
  inl, inr, ◌∙◌, append_assoc, append-nil,
}
use terraform_provider_zedam.Text.{
  Text, codes, ◌=ᵗ◌, has_prefix, split, onto_first, join, join_from,
}
use terraform_provider_zedam.Text.Laws.{Lacks, split_at, split-join}
use terraform_provider_zedam.StateBackend.{
  is_dropped, push, walk, unstack, clean, join_clean, clean_path, full_path, escapes,
}

-- A name of a file or directory: not empty, `.` or `..`, and without a slash.
abbrev pub IsName : Text → Type 0
IsName c = Lacks b'/' c × (is_dropped c ≡ false) × ((c =ᵗ codes "..") ≡ false)

onto_lem :
    (c sep : ℕ) (ps : List Text) → c ≢ sep → All (Lacks sep) ps → All (Lacks sep) (onto_first c ps)
onto_lem c sep [] ne h = ((ne, tt), tt)
onto_lem c sep (p ∷ ps) ne (hp, h) = ((ne, hp), h)

split-All-Lacks : (s : Text) (sep : ℕ) → All (Lacks sep) (split s sep)
unfolding split
split-All-Lacks [] sep = (tt, tt)
split-All-Lacks (c ∷ s) sep = elim (Bool-cases (c == sep)) [
  | inl y ↦ rw y (tt, split-All-Lacks s sep)
  | inr n ↦ rw n (onto_lem c sep (split s sep) (ground arith) (split-All-Lacks s sep))
]

-- one component onto names keeps them names, at the root
push-All-IsName :
    (stack : List Text) (c : Text)
    → Lacks b'/' c
    → All IsName stack
    → All IsName (push true stack c)
unfolding push
push-All-IsName [] c lc h = elim (Bool-cases (is_dropped c)) [
  | inl y ↦ rw y tt
  | inr n ↦ elim (Bool-cases (c =ᵗ codes "..")) [
    | inl y ↦ rw (n, y) tt
    | inr m ↦ rw (n, m) ((lc, n, m), tt)
  ]
]
push-All-IsName (last ∷ stack) c lc ((ll, ld, ln), h) = elim (Bool-cases (is_dropped c)) [
  | inl y ↦ rw y ((ll, ld, ln), h)
  | inr n ↦ elim (Bool-cases (c =ᵗ codes "..")) [
    | inl y ↦ rw (n, y, ln) h
    | inr m ↦ rw (n, m) ((lc, n, m), ((ll, ld, ln), h))
  ]
]

walk-All-IsName :
    (stack cs : List Text)
    → All (Lacks b'/') cs
    → All IsName stack
    → All IsName (walk true stack cs)
unfolding walk
walk-All-IsName stack [] lcs h = h
walk-All-IsName stack (c ∷ cs) (lc, lcs) h =
    walk-All-IsName (push true stack c) cs lcs (push-All-IsName stack c lc h)

unstack-All : (P : Text → Type 0) (st cs : List Text) → All P st → All P cs → All P (unstack st cs)
unfolding unstack
unstack-All P [] cs h k = k
unstack-All P (c ∷ st) cs (hc, h) k = unstack-All P st (c ∷ cs) h (hc, k)

push_name : (stack : List Text) (c : Text) → IsName c → push true stack c ≡ c ∷ stack
unfolding push
push_name [] c (l, d, n) = rw (d, n) refl
push_name (last ∷ stack) c (l, d, n) = rw (d, n) refl

-- names in order onto a stack
walk_names :
    (stack cs rest : List Text)
    → All IsName cs
    → walk true stack (cs ++ rest) ≡ walk true (unstack cs stack) rest
unfolding walk unstack
walk_names stack [] rest h = refl
walk_names stack (c ∷ cs) rest (hc, h) =
    ap (λ st. walk true st (cs ++ rest)) (push_name stack c hc) ∙ walk_names (c ∷ stack) cs rest h

unstack_twice : (xs ys zs : List Text) → unstack (unstack xs ys) zs ≡ unstack ys (xs ++ zs)
unfolding unstack
unstack_twice [] ys zs = refl
unstack_twice (x ∷ xs) ys zs = unstack_twice xs (x ∷ ys) zs

push_nothing : (stack : List Text) → push true stack [] ≡ stack
unfolding push
push_nothing [] = refl
push_nothing (c ∷ stack) = refl

split-join_append :
    (d : Text) (ds : List Text) (r : Text)
    → All IsName (d ∷ ds)
    → split (join (d ∷ ds) (codes "/") ++ (b'/' ∷ r)) b'/' ≡ (d ∷ ds) ++ split r b'/'
unfolding join join_from
split-join_append d [] r ((ld, _, _), h) = split_at d r b'/' ld
split-join_append d (q ∷ qs) r ((ld, _, _), h) =
    ap (λ x. split x b'/') (append_assoc d (codes "/" ++ join_from q qs (codes "/")) (b'/' ∷ r))
    ∙ (split_at d (join_from q qs (codes "/") ++ (b'/' ∷ r)) b'/' ld
        ∙ ap (λ x. d ∷ x) (split-join_append q qs r h))

join-append :
    (d : Text) (ds : List Text) (e : Text) (es : List Text)
    → join ((d ∷ ds) ++ (e ∷ es)) (codes "/")
      ≡ join (d ∷ ds) (codes "/") ++ (b'/' ∷ join (e ∷ es) (codes "/"))
unfolding join join_from
join-append d [] e es = refl
join-append d (q ∷ qs) e es =
    ap (λ x. d ++ (b'/' ∷ x)) (join-append q qs e es)
    ∙ sym (
        append_assoc d (codes "/" ++ join_from q qs (codes "/")) (b'/' ∷ join (e ∷ es) (codes "/")))

lacks : (cs : List Text) → All IsName cs → All (Lacks b'/') cs
lacks [] h = tt
lacks (c ∷ cs) ((l, _, _), h) = (l, lacks cs h)

walk_nothing : (stack cs : List Text) → walk true stack ([] ∷ cs) ≡ walk true stack cs
unfolding walk
walk_nothing stack cs = ap (λ st. walk true st cs) (push_nothing stack)

walk-All : (stack cs : List Text) → All IsName cs → walk true stack cs ≡ unstack cs stack
unfolding walk unstack
walk-All stack [] h = refl
walk-All stack (c ∷ cs) (hc, h) =
    ap (λ st. walk true st cs) (push_name stack c hc) ∙ walk-All (c ∷ stack) cs h

-- the components of a clean directory and a clean path below it
walk_both :
    (d : Text) (ds : List Text) (e : Text) (es : List Text)
    → All IsName (d ∷ ds)
    → All IsName (e ∷ es)
    → unstack (walk true [] ([] ∷ ((d ∷ ds) ++ ([] ∷ (e ∷ es))))) [] ≡ (d ∷ ds) ++ (e ∷ es)
unfolding unstack
walk_both d ds e es hd he =
    let s = unstack (d ∷ ds) [] in
    ap (λ st. unstack st [])
      (walk_nothing [] ((d ∷ ds) ++ ([] ∷ (e ∷ es)))
        ∙ (walk_names [] (d ∷ ds) ([] ∷ (e ∷ es)) hd
            ∙ (walk_nothing s (e ∷ es) ∙ walk-All s (e ∷ es) he)))
    ∙ (unstack_twice (e ∷ es) s []
        ∙ (unstack_twice (d ∷ ds) [] ((e ∷ es) ++ [])
            ∙ ap (λ x. (d ∷ ds) ++ x) (append-nil (e ∷ es))))

join_clean_both :
    (d : Text) (ds : List Text) (e : Text) (es : List Text)
    → All IsName (d ∷ ds)
    → All IsName (e ∷ es)
    → join_clean (b'/' ∷ join (d ∷ ds) (codes "/")) (b'/' ∷ join (e ∷ es) (codes "/"))
      ≡ (b'/' ∷ join (d ∷ ds) (codes "/")) ++ (b'/' ∷ join (e ∷ es) (codes "/"))
unfolding join_clean clean split
join_clean_both d ds e es hd he =
    ap (λ x. b'/' ∷ x)
      (ap (λ cs. join (unstack (walk true [] cs) []) (codes "/"))
          (ap (λ x. [] ∷ x)
            (split-join_append d ds (b'/' ∷ join (e ∷ es) (codes "/")) hd
              ∙ ap (λ x. (d ∷ ds) ++ ([] ∷ x)) (split-join e es b'/' (lacks (e ∷ es) he))))
        ∙ (ap (λ cs. join cs (codes "/")) (walk_both d ds e es hd he) ∙ join-append d ds e es))

-- A clean path at the root: its components are names.
clean_rooted :
    (r : Text) → (cs : List Text) × All IsName cs × (clean (b'/' ∷ r) ≡ b'/' ∷ join cs (codes "/"))
unfolding clean
clean_rooted r = (
  unstack (walk true [] (split r b'/')) [],
  unstack-All IsName (walk true [] (split r b'/')) []
      (walk-All-IsName [] (split r b'/') (split-All-Lacks r b'/') tt) tt,
  refl,
)

join_ne :
    (e : Text) (es : List Text) → is_dropped e ≡ false → (join (e ∷ es) (codes "/") =ᵗ []) ≡ false
unfolding join join_from ◌=ᵗ◌
join_ne [] es h = absurd cc
join_ne (c ∷ e) [] h = refl
join_ne (c ∷ e) (q ∷ es) h = refl

-- What `cleanPath` is for a clean path at the root.
cleaned :
    (p : Text) (cs : List Text)
    → All IsName cs
    → clean p ≡ b'/' ∷ join cs (codes "/")
    → (e : Text) × (es : List Text) × All IsName (e ∷ es)
      × (clean_path p ≡ b'/' ∷ join (e ∷ es) (codes "/"))
unfolding clean_path join ◌=ᵗ◌
cleaned p [] h eq = (codes "default.tfstate", [], ((ground arith, refl, refl), tt), rw eq refl)
cleaned p (e ∷ es) ((l, d, n), h) eq = (e, es, ((l, d, n), h), rw (eq, join_ne e es d) refl)

has_prefix-append : (a b : Text) → has_prefix (a ++ b) a ≡ true
unfolding has_prefix
has_prefix-append [] b = refl
has_prefix-append (c ∷ a) b = ground (arith, has_prefix-append a b)

not_escaping : (dir x : Text) → escapes dir (dir ++ (b'/' ∷ x)) ≡ false
unfolding escapes
not_escaping dir x =
    let inside : has_prefix (dir ++ (b'/' ∷ x)) (dir ++ codes "/") ≡ true =
      subst (λ t. has_prefix t (dir ++ codes "/") ≡ true) (append_assoc dir (codes "/") x)
        (has_prefix-append (dir ++ codes "/") x) in
    rw inside refl

-- The path of a request that begins at the root is mapped to a file below the state directory: the
-- directory, a slash, and at least one name, none of them empty, `.` or `..`; so the guard lets it
-- pass. The directory is a clean absolute one other than the root.
pub full_path-inside :
    (d : Text) (ds : List Text) (r : Text)
    → All IsName (d ∷ ds)
    → (e : Text) × (es : List Text) × All IsName (e ∷ es)
      × (full_path (b'/' ∷ join (d ∷ ds) (codes "/")) (b'/' ∷ r)
          ≡ (b'/' ∷ join (d ∷ ds) (codes "/")) ++ (b'/' ∷ join (e ∷ es) (codes "/")))
      × (escapes
            (b'/' ∷ join (d ∷ ds) (codes "/"))
            (full_path (b'/' ∷ join (d ∷ ds) (codes "/")) (b'/' ∷ r))
          ≡ false)
unfolding full_path
full_path-inside d ds r hd =
    let (cs, h, eq) = clean_rooted r in
    let (e, es, he, path) = cleaned (b'/' ∷ r) cs h eq in
    let dir = b'/' ∷ join (d ∷ ds) (codes "/") in
    let same : full_path dir (b'/' ∷ r) ≡ dir ++ (b'/' ∷ join (e ∷ es) (codes "/")) =
      ap (λ x. join_clean dir x) path ∙ join_clean_both d ds e es hd he in
    (e, es, he, same, ap (λ x. escapes dir x) same ∙ not_escaping dir (join (e ∷ es) (codes "/")))
