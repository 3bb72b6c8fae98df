-- ===== src/WaitUntil/LastProbe.antt =====
-- The probe that ends a successful wait of internal/provider/wait_until_resource.go.
use terraform_provider_zedam.Prelude.{
  ℕ, zero, suc, ◌-◌, List, Option, none, some, ltb, ◌==◌, ◌≡◌, refl, Bool-cases, inl, inr, subst,
  arith,
}
use terraform_provider_zedam.Text.{Text}
use terraform_provider_zedam.Exec.{Host, join_path}
use terraform_provider_zedam.GoError.{GoError}
use terraform_provider_zedam.WaitUntil.{
  ProbeKind, ready, not_ready, exec_error, hung, is_hung, classify_probe, Event, finished, expired,
  cancelled, Runtime, WaitParams, WaitOutcome, no_outcome, WaitError, Turn, finish, continue,
  format4, probe_of, run_probe,
}
use terraform_provider_zedam.WaitUntil.Loop.{
  budget_of, remaining, record_probe, rest_round, settle, judge, round, follow, loop,
  wait_for_script,
}

module _ (h : Host) (rt : Runtime h) (p : WaitParams) where
  open h use {World}
  open rt use {now, attempt, sleep}

  -- The last thing that was done is an attempt of the parameters' command; its result is the last one
  -- of the outcome, and the duration is the time from the start of the wait to its end.
  abbrev pub IsLast : ℕ → WaitOutcome → World → Type 0
  IsLast start out w =
      (log_dir : Text) × (budget : ℕ) × (w0 : World) × (attempt log_dir p.argv budget w0
        ≡ (finished out.last, w))
      × (out.elapsed ≡ now w - start)

  abbrev TurnLast : ℕ → Turn World → Type 0
  TurnLast start (finish out none w) = IsLast start out w
  TurnLast start (finish out (some e) w) = Unit
  TurnLast start (continue out completed w) = Unit

  rest_round-last :
      (start : ℕ) (out : WaitOutcome) (completed : List Text) (w : World)
      → TurnLast start (rest_round h rt p start out completed w)
  unfolding rest_round
  rest_round-last start out completed w = ground arith

  settle-last :
      (start : ℕ) (out : WaitOutcome) (completed : List Text) (log_dir : Text) (kind : ProbeKind)
      (w : World)
      → TurnLast start (settle h rt p start out completed log_dir kind w)
  unfolding settle
  settle-last start out completed log_dir kind w = elim (Bool-cases (is_hung kind)) [
    | inl y ↦ rw y (rest_round-last start out completed w)
    | inr n ↦ rw n (rest_round-last start out _ _)
  ]

  judge-last :
      (start n : ℕ) (out : WaitOutcome) (completed : List Text) (log_dir : Text) (kind : ProbeKind)
      (err : Option GoError) (w : World)
      → (kind ≡ ready → err ≡ none → IsLast start out w)
      → TurnLast start (judge h rt p start n out completed log_dir kind err w)
  unfolding judge
  judge-last start n out completed log_dir kind (some e) w pr = tt
  judge-last start n out completed log_dir ready none w pr = pr refl refl
  judge-last start n out completed log_dir exec_error none w pr = elim (Bool-cases (n == 1)) [
    | inl y ↦ rw y tt
    | inr more ↦ rw more (settle-last start out completed log_dir exec_error w)
  ]
  judge-last start n out completed log_dir not_ready none w pr =
      settle-last start out completed log_dir not_ready w
  judge-last start n out completed log_dir hung none w pr =
      settle-last start out completed log_dir hung w

  probed :
      (start n : ℕ) (out : WaitOutcome) (completed : List Text) (log_dir : Text) (budget : ℕ)
      (w : World) (r : Event × World)
      → attempt log_dir p.argv budget w ≡ r
      → TurnLast start (
          judge h rt p start n
            (record_probe h rt p start n out log_dir
              (probe_of p.argv r.0).0
              (probe_of p.argv r.0).1
              r.1)
            completed
            log_dir
            (probe_of p.argv r.0).1
            (probe_of p.argv r.0).2
            r.1)
  unfolding record_probe classify_probe
  probed start n out completed log_dir budget w (finished res, w') e =
      judge-last start n (record_probe h rt p start n out log_dir res (classify_probe res) w')
        completed log_dir (classify_probe res) none w'
        (λ is_ready done. elim (Bool-cases (is_hung (classify_probe res))) [
          | inl y ↦ absurd (cc (y, is_ready))
          | inr whole ↦ rw whole (log_dir, budget, w, e, refl)
        ])
  probed start n out completed log_dir budget w (expired, w') e =
      judge-last start n _ completed log_dir hung none w' (λ is_ready done. absurd (cc is_ready))
  probed start n out completed log_dir budget w (cancelled x, w') e = unfold judge in tt

  round-last :
      (start n : ℕ) (out : WaitOutcome) (completed : List Text) (w : World)
      → TurnLast start (round h rt p start n out completed w)
  unfolding round run_probe
  round-last start n out completed w =
      let log_dir = join_path p.attempts_root (format4 n) in
      let budget = budget_of p (remaining h rt p start w) in
      elim (Bool-cases (ltb 0 (remaining h rt p start w))) [
        | inl more ↦
            rw (more, TurnLast)
              (probed start n out completed log_dir budget w (attempt log_dir p.argv budget w) refl)
        | inr over ↦ rw (over, TurnLast) tt
      ]

  abbrev SaysLast : ℕ → Option (WaitOutcome × Option WaitError × World) → Type 0
  SaysLast start none = Unit
  SaysLast start (some (out, none, w)) = IsLast start out w
  SaysLast start (some (out, some e, w)) = Unit

  follow-last :
      (start : ℕ)
      (again : WaitOutcome → List Text → World → Option (WaitOutcome × Option WaitError × World))
      (t : Turn World)
      → ((out : WaitOutcome) (completed : List Text) (w : World)
          → SaysLast start (again out completed w))
      → TurnLast start t
      → SaysLast start (follow h rt p start again t)
  follow-last start again (finish out none w) rec last = last
  follow-last start again (finish out (some e) w) rec last = tt
  follow-last start again (continue out completed w) rec last = rec out completed w

  loop-last :
      (start fuel n : ℕ) (out : WaitOutcome) (completed : List Text) (w : World)
      → SaysLast start (loop h rt p start fuel n out completed w)
  unfolding loop
  loop-last start zero n out completed w = tt
  loop-last start (suc fuel) n out completed w =
      follow-last start (λ o c w'. loop h rt p start fuel (suc n) o c w')
        (round h rt p start n out completed w) (λ o c w'. loop-last start fuel (suc n) o c w')
        (round-last start n out completed w)

  pub wait_for_script-IsLast :
      (fuel : ℕ) (w w' : World) (out : WaitOutcome)
      → wait_for_script h rt p fuel w ≡ some (out, none, w')
      → IsLast (now w) out w'
  unfolding wait_for_script
  wait_for_script-IsLast fuel w w' out e =
      subst (SaysLast (now w)) e (loop-last (now w) fuel 1 no_outcome _ w)
