-- ===== src/Tests/Waiting.antt =====
-- Waits on a host whose clock each probe advances by two seconds.
use terraform_provider_zedam.Prelude.{ℕ, ◌+◌, ◌≤◌, [], ◌∷◌, Option, none, some, ◌≡◌, arith}
use terraform_provider_zedam.Text.{codes}
use terraform_provider_zedam.Exec.{Host}
use terraform_provider_zedam.WaitUntil.{
  ready, Runtime, finished, WaitParams, WaitOutcome, WaitError,
}
use terraform_provider_zedam.WaitUntil.Loop.{wait_for_script}
use terraform_provider_zedam.WaitUntil.Outcome.{Ends}
use terraform_provider_zedam.WaitUntil.Prune.{log_rounds, remove_each, log_rounds-retained}
use terraform_provider_zedam.WaitUntil.Deadline.{IsTimely, wait_for_script_terminates}
use terraform_provider_zedam.Tests.{printed, exit_one, answering}

abbrev pub waiting : Host
waiting = answering (printed [])

-- the world is the time
abbrev pub never_ready : Runtime waiting
never_ready = record {
  now = λ w. w;
  attempt = λ l a b w. (finished (exit_one (codes "not yet")), w + 2);
  sleep = λ d w. (none, w + d);
}

abbrev pub at_once : Runtime waiting
at_once = record {
  now = λ w. w;
  attempt = λ l a b w. (finished (printed (codes "up")), w + 2);
  sleep = λ d w. (none, w + d);
}

pub never_ready-IsTimely : IsTimely waiting never_ready
never_ready-IsTimely = record {
  attempt_on = λ l a b w. omega arith;
  sleep_on = λ d w e. omega arith;
  remove_on = λ v w. omega arith;
}

abbrev test_params : WaitParams
test_params = record {
  attempts_root = codes "/var/lib/zedamigo/wait/1/attempts";
  argv = codes "/bin/sh" ∷ codes "script" ∷ [];
  timeout = 12;
  interval = 5;
  attempt_timeout = 3;
  retain_logs = 2;
}

wait_for_script_terminates_example :
    (out : WaitOutcome) × (err : Option WaitError) × (w' : ℕ) × (wait_for_script waiting never_ready
        test_params 4 100
      ≡ some (out, err, w'))
    × (out.attempts ≤ 3)
    × Ends waiting never_ready test_params out err
wait_for_script_terminates_example =
    wait_for_script_terminates waiting never_ready test_params never_ready-IsTimely 3 100
      (omega arith)

abbrev ready_outcome : WaitOutcome
ready_outcome = record {
  attempts = 1;
  elapsed = 2;
  last = printed (codes "up");
  last_kind = ready;
  last_logs = codes "/var/lib/zedamigo/wait/1/attempts/0001";
  last_completed = printed (codes "up");
  last_completed_attempt = 1;
}

log_rounds-retained_example :
    log_rounds waiting never_ready 2 []
      (codes "0001" ∷ codes "0002" ∷ codes "0003" ∷ codes "0004" ∷ [])
      100
    ≡ (codes "0001" ∷ codes "0003" ∷ codes "0004" ∷ [], 101)
unfolding remove_each
log_rounds-retained_example =
    log_rounds-retained waiting never_ready 2 (codes "0001")
      (codes "0002" ∷ codes "0003" ∷ codes "0004" ∷ []) 100 (omega arith)
