-- ===== src/WaitUntil/Outcome.antt =====
-- What the outcome of a wait says of its last round.
use terraform_provider_zedam.Prelude.{
  ℕ, zero, suc, ◌≤◌, ◌<◌, List, [], Option, none, some, ltb, ◌==◌, ◌≡◌, refl, arith, Bool-cases,
  inl, inr, subst,
}
use terraform_provider_zedam.Text.{Text}
use terraform_provider_zedam.Exec.{Host, join_path}
use terraform_provider_zedam.GoError.{GoError}
use terraform_provider_zedam.WaitUntil.{
  ProbeKind, ready, not_ready, exec_error, hung, is_hung, classify_probe, Event, finished, expired,
  cancelled, Runtime, WaitParams, WaitOutcome, no_outcome, WaitError, wait_timeout, aborted,
  not_run, Turn, finish, continue, format4, probe_of, run_probe,
}
use terraform_provider_zedam.WaitUntil.Loop.{
  budget_of, remaining, record_probe, rest_round, settle, judge, round, follow, loop,
  wait_for_script,
}

module _ (h : Host) (rt : Runtime h) (p : WaitParams) where
  open h use {World}
  open rt use {now}

  -- No error: the last probe exited 0, and its result is the one that is reported. Time out: the
  -- budget was spent. Not run: the first probe, which ended with an error and exit code 0.
  abbrev pub Ends : WaitOutcome → Option WaitError → Type 0
  Ends out none =
      (out.last_kind ≡ ready)
      × (out.last.error ≡ none)
      × (out.last_completed ≡ out.last)
      × (out.last_completed_attempt ≡ out.attempts)
      × (0 < out.attempts)
  Ends out (some wait_timeout) = p.timeout ≤ out.elapsed
  Ends out (some (aborted e)) = Unit
  Ends out (some (not_run e)) = (out.attempts ≡ 1) × (out.last_kind ≡ exec_error)

  -- what a round hands on
  abbrev TurnSays : ℕ → Turn World → Type 0
  TurnSays attempt (finish out err w) =
      Ends out err × (out.last_completed_attempt ≤ out.attempts) × (out.attempts ≤ attempt)
  TurnSays attempt (continue out completed w) =
      (out.attempts ≡ attempt) × (out.last_completed_attempt ≤ attempt)

  rest_round-says :
      (start attempt : ℕ) (out : WaitOutcome) (completed : List Text) (w : World)
      → out.attempts ≡ attempt
      → out.last_completed_attempt ≤ attempt
      → TurnSays attempt (rest_round h rt p start out completed w)
  unfolding rest_round
  rest_round-says start attempt out completed w e le = ground arith

  settle-says :
      (start attempt : ℕ) (out : WaitOutcome) (completed : List Text) (log_dir : Text)
      (kind : ProbeKind) (w : World)
      → out.attempts ≡ attempt
      → out.last_completed_attempt ≤ attempt
      → TurnSays attempt (settle h rt p start out completed log_dir kind w)
  unfolding settle
  settle-says start attempt out completed log_dir kind w e le = elim (Bool-cases (is_hung kind)) [
    | inl y ↦ rw y (rest_round-says start attempt out completed w e le)
    | inr n ↦ rw n (rest_round-says start attempt out _ _ e le)
  ]

  -- The outcome holds this round's probe, and a probe that exited 0 as the last completed one.
  record Probed (attempt : ℕ) (kind : ProbeKind) (out : WaitOutcome) : Type 0 where
    counted : out.attempts ≡ attempt
    positive : 0 < attempt
    completed_le : out.last_completed_attempt ≤ attempt
    same_kind : out.last_kind ≡ kind
    done :
        kind ≡ ready
        → (out.last.error ≡ none)
          × (out.last_completed ≡ out.last)
          × (out.last_completed_attempt ≡ attempt)

  judge-says :
      (start attempt : ℕ) (out : WaitOutcome) (completed : List Text) (log_dir : Text)
      (kind : ProbeKind) (err : Option GoError) (w : World)
      → Probed attempt kind out
      → TurnSays attempt (judge h rt p start attempt out completed log_dir kind err w)
  judge-says start attempt out completed log_dir kind (some e) w pr =
      unfold judge in (tt, omega arith, omega arith)
  judge-says start attempt out completed log_dir ready none w pr =
      unfold judge in
      (
        (
          pr.same_kind,
          (pr.done refl).0,
          (pr.done refl).1,
          ground (arith, pr.done refl),
          omega arith,
        ),
        omega arith,
        omega arith,
      )
  judge-says start attempt out completed log_dir exec_error none w pr =
      elim (Bool-cases (attempt == 1)) [
        | inl y ↦ unfold judge in rw y ((ground arith, pr.same_kind), omega arith, omega arith)
        | inr n ↦
            unfold judge in
            rw n (
              settle-says start attempt out completed log_dir exec_error w pr.counted
                pr.completed_le)
      ]
  judge-says start attempt out completed log_dir not_ready none w pr =
      unfold judge in
      settle-says start attempt out completed log_dir not_ready w pr.counted pr.completed_le
  judge-says start attempt out completed log_dir hung none w pr =
      unfold judge in
      settle-says start attempt out completed log_dir hung w pr.counted pr.completed_le

  record_probe-Probed :
      (start attempt : ℕ) (out : WaitOutcome) (log_dir : Text) (event : Event) (w : World)
      → 0 < attempt
      → out.last_completed_attempt ≤ attempt
      → let pr = probe_of p.argv event in
        Probed attempt pr.1 (record_probe h rt p start attempt out log_dir pr.0 pr.1 w)
  unfolding record_probe classify_probe
  record_probe-Probed start attempt out log_dir (finished res) w pos le = ground arith
  record_probe-Probed start attempt out log_dir expired w pos le = ground arith
  record_probe-Probed start attempt out log_dir (cancelled e) w pos le = ground arith

  round-says :
      (start attempt : ℕ) (out : WaitOutcome) (completed : List Text) (w : World)
      → 0 < attempt
      → out.attempts < attempt
      → out.last_completed_attempt ≤ out.attempts
      → TurnSays attempt (round h rt p start attempt out completed w)
  unfolding round run_probe
  round-says start attempt out completed w pos lt le =
      let log_dir = join_path p.attempts_root (format4 attempt) in
      let (event, w') = rt.attempt log_dir p.argv (budget_of p (remaining h rt p start w)) w in
      let (res, kind, err) = probe_of p.argv event in
      elim (Bool-cases (ltb 0 (remaining h rt p start w))) [
        | inl more ↦
            rw (more, TurnSays)
              (judge-says start attempt (record_probe h rt p start attempt out log_dir res kind w')
                completed log_dir kind err w'
                (record_probe-Probed start attempt out log_dir event w' pos (omega arith)))
        | inr over ↦ rw (over, TurnSays) (ground arith, omega arith, omega arith)
      ]

  -- what holds if the loop returns
  abbrev Says : Option (WaitOutcome × Option WaitError × World) → Type 0
  Says none = Unit
  Says (some (out, err, w)) = Ends out err × (out.last_completed_attempt ≤ out.attempts)

  follow-Says :
      (start fuel attempt : ℕ) (t : Turn World)
      → ((out : WaitOutcome) (completed : List Text) (w : World)
          → out.attempts < suc attempt
          → out.last_completed_attempt ≤ out.attempts
          → Says (loop h rt p start fuel (suc attempt) out completed w))
      → TurnSays attempt t
      → Says (follow h rt p start (loop h rt p start fuel (suc attempt)) t)
  follow-Says start fuel attempt (finish out err w) ih (ends, le, _) = (ends, le)
  follow-Says start fuel attempt (continue out completed w) ih (e, le) =
      ih out completed w (omega arith) (omega arith)

  loop-Says :
      (start fuel attempt : ℕ) (out : WaitOutcome) (completed : List Text) (w : World)
      → 0 < attempt
      → out.attempts < attempt
      → out.last_completed_attempt ≤ out.attempts
      → Says (loop h rt p start fuel attempt out completed w)
  unfolding loop
  loop-Says start zero attempt out completed w pos lt le = tt
  loop-Says start (suc fuel) attempt out completed w pos lt le =
      follow-Says start fuel attempt (round h rt p start attempt out completed w)
        (λ out' completed' w' lt' le'.
          loop-Says start fuel (suc attempt) out' completed' w' (omega arith) lt' le')
        (round-says start attempt out completed w pos lt le)

  pub wait_for_script-Ends :
      (fuel : ℕ) (w w' : World) (out : WaitOutcome) (err : Option WaitError)
      → wait_for_script h rt p fuel w ≡ some (out, err, w')
      → Ends out err × (out.last_completed_attempt ≤ out.attempts)
  unfolding wait_for_script
  wait_for_script-Ends fuel w w' out err e =
      subst Says e
        (loop-Says (now w) fuel 1 no_outcome [] w (omega arith) (omega arith) (omega arith))
