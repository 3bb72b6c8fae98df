-- ===== src/WaitUntil/Deadline.antt =====
-- A wait comes to an end: how many rounds it can take, and how long.
use terraform_provider_zedam.Prelude.{
  ℕ, zero, suc, ◌+◌, ◌-◌, ◌*◌, ◌≤◌, ◌<◌, List, [], ◌∷◌, ◌++◌, Option, none, some, if◌then◌else◌,
  ltb, ◌==◌, ◌≡◌, refl, arith, Bool-cases, inl, inr,
}
use terraform_provider_zedam.Text.{Text}
use terraform_provider_zedam.Exec.{Host, join_path}
use terraform_provider_zedam.GoError.{GoError}
use terraform_provider_zedam.WaitUntil.{
  ProbeKind, ready, not_ready, exec_error, hung, is_hung, Runtime, WaitParams, WaitOutcome,
  no_outcome, WaitError, Turn, finish, continue, format4, probe_of, run_probe, prune_attempt_logs,
}
use terraform_provider_zedam.WaitUntil.Loop.{
  budget_of, remaining, record_probe, rest_round, settle, judge, round, follow, loop,
  wait_for_script,
}
use terraform_provider_zedam.WaitUntil.Outcome.{Ends, wait_for_script-Ends}

-- The clock of the Go runtime does not run backwards, and a sleep that its timer ends takes as
-- long as was asked.
pub record IsTimely (h : Host) (rt : Runtime h) : Type 0 where
  pub attempt_on :
      (l : Text) (a : List Text) (b : ℕ) (w : h.World) → rt.now w ≤ rt.now (rt.attempt l a b w).1
  pub sleep_on :
      (d : ℕ) (w : h.World) → (rt.sleep d w).0 ≡ none → rt.now w + d ≤ rt.now (rt.sleep d w).1
  pub remove_on : (v : Text) (w : h.World) → rt.now w ≤ rt.now (h.remove v w).1

module _ (h : Host) (rt : Runtime h) (p : WaitParams) (timely : IsTimely h rt) where
  open h use {World}
  open rt use {now}

  -- A round that goes on has spent an interval, or all that was left.
  abbrev TurnSpends : ℕ → ℕ → World → Turn World → Type 0
  TurnSpends start attempt w (finish out err w') =
      (out.attempts ≤ attempt) × (remaining h rt p start w ≡ 0 → out.attempts < attempt)
  TurnSpends start attempt w (continue out completed w') =
      (out.attempts ≡ attempt)
      × (0 < remaining h rt p start w)
      × (remaining h rt p start w' ≤ remaining h rt p start w - p.interval)

  prune-on :
      (completed : List Text) (keep : ℕ) (w : World)
      → now w ≤ now (prune_attempt_logs h rt completed keep w).1
  unfolding prune_attempt_logs
  prune-on [] keep w = ground arith
  prune-on (first ∷ []) keep w = ground arith
  prune-on (first ∷ victim ∷ rest) keep w = ground (arith, timely.remove_on victim w)

  rest_round-spends :
      (start attempt : ℕ) (out : WaitOutcome) (completed : List Text) (w w1 : World)
      → out.attempts ≡ attempt
      → now w ≤ now w1
      → 0 < remaining h rt p start w
      → TurnSpends start attempt w (rest_round h rt p start out completed w1)
  unfolding rest_round
  rest_round-spends start attempt out completed w w1 e le pos =
      let rem = remaining h rt p start w1 in
      ground (arith, timely.sleep_on (if ltb rem p.interval then rem else p.interval) w1)

  settle-spends :
      (start attempt : ℕ) (out : WaitOutcome) (completed : List Text) (log_dir : Text)
      (kind : ProbeKind) (w w1 : World)
      → out.attempts ≡ attempt
      → now w ≤ now w1
      → 0 < remaining h rt p start w
      → TurnSpends start attempt w (settle h rt p start out completed log_dir kind w1)
  unfolding settle
  settle-spends start attempt out completed log_dir kind w w1 e le pos =
      let (completed', w2) = prune_attempt_logs h rt (completed ++ log_dir ∷ []) p.retain_logs w1 in
      elim (Bool-cases (is_hung kind)) [
        | inl y ↦ rw (y, TurnSpends) (rest_round-spends start attempt out completed w w1 e le pos)
        | inr n ↦
            rw (n, TurnSpends)
              (rest_round-spends start attempt out completed' w w2 e
                (omega (arith, prune-on (completed ++ log_dir ∷ []) p.retain_logs w1)) pos)
      ]

  judge-spends :
      (start attempt : ℕ) (out : WaitOutcome) (completed : List Text) (log_dir : Text)
      (kind : ProbeKind) (err : Option GoError) (w w1 : World)
      → out.attempts ≡ attempt
      → now w ≤ now w1
      → 0 < remaining h rt p start w
      → TurnSpends start attempt w (judge h rt p start attempt out completed log_dir kind err w1)
  unfolding judge
  judge-spends start attempt out completed log_dir kind (some x) w w1 e le pos =
      (omega arith, λ z. absurd (omega arith))
  judge-spends start attempt out completed log_dir ready none w w1 e le pos =
      (omega arith, λ z. absurd (omega arith))
  judge-spends start attempt out completed log_dir exec_error none w w1 e le pos =
      elim (Bool-cases (attempt == 1)) [
        | inl y ↦ rw (y, TurnSpends) (omega arith, λ z. absurd (omega arith))
        | inr n ↦
            rw (n, TurnSpends)
              (settle-spends start attempt out completed log_dir exec_error w w1 e le pos)
      ]
  judge-spends start attempt out completed log_dir not_ready none w w1 e le pos =
      settle-spends start attempt out completed log_dir not_ready w w1 e le pos
  judge-spends start attempt out completed log_dir hung none w w1 e le pos =
      settle-spends start attempt out completed log_dir hung w w1 e le pos

  record_probe-attempts :
      (start attempt : ℕ) (out : WaitOutcome) (log_dir : Text) (event : ProbeKind) (w : World)
      → (res : terraform_provider_zedam.Exec.Result)
      → (record_probe h rt p start attempt out log_dir res event w).attempts ≡ attempt
  unfolding record_probe
  record_probe-attempts start attempt out log_dir kind w res = ground arith

  round-spends :
      (start attempt : ℕ) (out : WaitOutcome) (completed : List Text) (w : World)
      → out.attempts < attempt
      → TurnSpends start attempt w (round h rt p start attempt out completed w)
  unfolding round run_probe
  round-spends start attempt out completed w lt =
      let log_dir = join_path p.attempts_root (format4 attempt) in
      let budget = budget_of p (remaining h rt p start w) in
      let (event, w') = rt.attempt log_dir p.argv budget w in
      let (res, kind, err) = probe_of p.argv event in
      elim (Bool-cases (ltb 0 (remaining h rt p start w))) [
        | inl more ↦
            rw (more, TurnSpends)
              (judge-spends start attempt
                (record_probe h rt p start attempt out log_dir res kind w') completed log_dir kind
                err w w' (record_probe-attempts start attempt out log_dir kind w' res)
                (timely.attempt_on log_dir p.argv budget w) (ground arith))
        | inr over ↦ rw (over, TurnSpends) (omega arith, λ z. lt)
      ]

  -- the loop has returned, before the given attempt
  abbrev Returns : ℕ → Option (WaitOutcome × Option WaitError × World) → Type 0
  Returns bound none = ⊥
  Returns bound (some (out, err, w)) = out.attempts < bound

  follow-Returns :
      (start k attempt bound : ℕ) (w : World) (t : Turn World)
      → attempt + k ≤ bound
      → remaining h rt p start w ≤ k * p.interval
      → ((out : WaitOutcome) (completed : List Text) (w' : World)
          → out.attempts < suc attempt
          → remaining h rt p start w' ≤ (k - 1) * p.interval
          → 0 < k
          → Returns bound (loop h rt p start k (suc attempt) out completed w'))
      → TurnSpends start attempt w t
      → Returns bound (follow h rt p start (loop h rt p start k (suc attempt)) t)
  follow-Returns start zero attempt bound w (finish out err w') b le ih (a, z) =
      omega (arith, z (omega arith))
  follow-Returns start (suc k) attempt bound w (finish out err w') b le ih (a, z) = omega arith
  follow-Returns start zero attempt bound w (continue out completed w') b le ih (a, pos, less) =
      absurd (omega arith)
  follow-Returns start (suc k) attempt bound w (continue out completed w') b le ih (a, pos, less) =
      ih out completed w' (omega arith) (grind arith) (omega arith)

  loop-Returns :
      (start k attempt bound : ℕ) (out : WaitOutcome) (completed : List Text) (w : World)
      → attempt + k ≤ bound
      → out.attempts < attempt
      → remaining h rt p start w ≤ k * p.interval
      → Returns bound (loop h rt p start (suc k) attempt out completed w)
  unfolding loop
  loop-Returns start zero attempt bound out completed w b lt le =
      follow-Returns start zero attempt bound w (round h rt p start attempt out completed w) b le
        (λ o c w' a r pos. absurd (omega arith)) (round-spends start attempt out completed w lt)
  loop-Returns start (suc k) attempt bound out completed w b lt le =
      follow-Returns start (suc k) attempt bound w (round h rt p start attempt out completed w) b le
        (λ o c w' a r pos.
          loop-Returns start k (suc attempt) bound o c w' (omega arith) a (grind arith))
        (round-spends start attempt out completed w lt)

  returned :
      (bound : ℕ) (r : Option (WaitOutcome × Option WaitError × World))
      → Returns bound r
      → (out : WaitOutcome) × (err : Option WaitError) × (w' : World) × (r ≡ some (out, err, w'))
        × (out.attempts < bound)
  returned bound none r = elim r [ ]
  returned bound (some (out, err, w')) r = (out, err, w', refl, r)

  -- A wait ends, on a clock that does not run backwards and with sleeps as long as asked. If `k`
  -- intervals cover the timeout, then `k + 1` rounds are enough, whatever the
  -- script and the target do: the wait returns after at most `k` attempts, and the outcome is the
  -- truth of its last round.
  pub wait_for_script_terminates :
      (k : ℕ) (w : World)
      → p.timeout ≤ k * p.interval
      → (out : WaitOutcome) × (err : Option WaitError) × (w' : World) × (wait_for_script h rt p
            (suc k)
            w
          ≡ some (out, err, w'))
        × (out.attempts ≤ k)
        × Ends h rt p out err
  wait_for_script_terminates k w covers =
      let (out, err, w', e, lt) = returned (1 + k) (wait_for_script h rt p (suc k) w) (
        unfold wait_for_script in
        loop-Returns (now w) k 1 (1 + k) no_outcome [] w (omega arith) (omega arith)
          (omega arith)) in
      (out, err, w', e, omega arith, (wait_for_script-Ends h rt p (suc k) w w' out err e).0)
