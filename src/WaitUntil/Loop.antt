-- ===== src/WaitUntil/Loop.antt =====
-- `waitForScript` of internal/provider/wait_until_resource.go: one round of its loop, and the loop.
-- The round number and what a round leaves behind are arguments; the messages of `tflog` are left
-- out.
use terraform_provider_zedam.Prelude.{
  ℕ, zero, suc, ◌+◌, ◌-◌, true, false, ◌&&◌, List, [], ◌∷◌, ◌++◌, Option, none, some, if◌then◌else◌,
  ltb, ◌==◌,
}
use terraform_provider_zedam.Text.{Text, codes}
use terraform_provider_zedam.GoError.{GoError, new, errorf}
use terraform_provider_zedam.Exec.{Result, Host, join_path}
use terraform_provider_zedam.WaitUntil.{
  ProbeKind, ready, not_ready, exec_error, hung, is_hung, Runtime, WaitParams, WaitOutcome,
  no_outcome, WaitError, wait_timeout, aborted, not_run, Turn, finish, continue, format4, run_probe,
  prune_attempt_logs,
}

-- the budget of a probe, for a remaining time that is not 0
abbrev pub budget_of : WaitParams → ℕ → ℕ
budget_of p remaining =
    if ltb 0 p.attempt_timeout && ltb p.attempt_timeout remaining
    then p.attempt_timeout
    else remaining

abbrev pub the_error : Option GoError → GoError
the_error none = new []
the_error (some e) = e

module _ (h : Host) (rt : Runtime h) (p : WaitParams) (start : ℕ) where
  open h use {World}
  open rt use {now, sleep}

  -- `time.Until(deadline)`, 0 once the deadline has passed
  abbrev pub remaining : World → ℕ
  remaining w = start + p.timeout - now w

  -- `time.Since(start)`
  abbrev pub since : World → ℕ
  since w = now w - start

  -- the outcome after a probe that ended at `w`
  unfoldable pub record_probe : ℕ → WaitOutcome → Text → Result → ProbeKind → World → WaitOutcome
  record_probe attempt out log_dir res kind w =
      let out' = record out {
        attempts = attempt;
        elapsed = since w;
        last = res;
        last_kind = kind;
        last_logs = log_dir;
      } in
      if is_hung kind
      then out'
      else record out' { last_completed = res; last_completed_attempt = attempt }

  -- the sleep at the end of a round
  unfoldable pub rest_round : WaitOutcome → List Text → World → Turn World
  rest_round out completed w =
      let rem = remaining w in
      let (err, w') = sleep (if ltb rem p.interval then rem else p.interval) w in
      elim (ltb 0 rem) [
        | false ↦ finish (record out { elapsed = since w }) (some wait_timeout) w
        | true ↦ elim err [
          | none ↦ continue out completed w'
          | some e ↦ finish (record out { elapsed = since w' }) (some (aborted e)) w'
        ]
      ]

  -- a completed attempt's logs are retained, then the oldest but the first are pruned
  unfoldable pub settle : WaitOutcome → List Text → Text → ProbeKind → World → Turn World
  unfolding rest_round
  settle out completed log_dir kind w =
      if is_hung kind
      then rest_round out completed w
      else (let (completed', w') =
            prune_attempt_logs h rt (completed ++ log_dir ∷ []) p.retain_logs w in
          rest_round out completed' w')

  -- the `switch` on the probe's kind, behind the test for a cancelled context
  unfoldable pub judge :
      ℕ → WaitOutcome → List Text → Text → ProbeKind → Option GoError → World → Turn World
  unfolding settle
  judge attempt out completed log_dir kind (some e) w = finish out (some (aborted e)) w
  judge attempt out completed log_dir ready none w = finish out none w
  judge attempt out completed log_dir exec_error none w =
      if attempt == 1
      then finish out
          (some (
            not_run (
              errorf (codes "the script could not be run on the target: ")
                (the_error out.last.error))))
          w
      else settle out completed log_dir exec_error w
  judge attempt out completed log_dir not_ready none w = settle out completed log_dir not_ready w
  judge attempt out completed log_dir hung none w = settle out completed log_dir hung w

  -- one round
  unfoldable pub round : ℕ → WaitOutcome → List Text → World → Turn World
  unfolding record_probe judge run_probe
  round attempt out completed w =
      let log_dir = join_path p.attempts_root (format4 attempt) in
      let ((res, kind, err), w') = run_probe h rt log_dir p.argv (budget_of p (remaining w)) w in
      elim (ltb 0 (remaining w)) [
        | false ↦ finish (record out { elapsed = since w }) (some wait_timeout) w
        | true ↦
            judge attempt (record_probe attempt out log_dir res kind w') completed log_dir kind err
              w'
      ]

  -- the return at the end of a round, or the next round
  abbrev pub follow :
      (WaitOutcome → List Text → World → Option (WaitOutcome × Option WaitError × World))
      → Turn World
      → Option (WaitOutcome × Option WaitError × World)
  follow again (finish out err w) = some (out, err, w)
  follow again (continue out completed w) = again out completed w

  -- the `for` loop; `none` means that the fuel ran out
  unfoldable pub loop :
      ℕ → ℕ → WaitOutcome → List Text → World → Option (WaitOutcome × Option WaitError × World)
  loop zero attempt out completed w = none
  loop (suc fuel) attempt out completed w =
      follow (loop fuel (suc attempt)) (round attempt out completed w)

-- `waitForScript`: the outcome, and no error if the script succeeded
unfoldable pub wait_for_script :
    (h : Host) (rt : Runtime h)
    → WaitParams
    → ℕ
    → h.World
    → Option (WaitOutcome × Option WaitError × h.World)
wait_for_script h rt p fuel w = loop h rt p (rt.now w) fuel 1 no_outcome [] w
