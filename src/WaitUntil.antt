-- ===== src/WaitUntil.antt =====
-- internal/provider/wait_until_resource.go: the barrier that runs a script until it exits 0.
-- This file has the probes, the log retention and the loop of `waitForScript`; the resource's
-- handlers stand in WaitUntil/Handlers.antt. Durations and times are nanoseconds that are not
-- negative, as after the validation of the attributes, so `d <= 0` is `d == 0`.
pub mod Loop
pub mod Prune
pub mod Outcome
pub mod Deadline
pub mod Report
pub mod Handlers
pub mod Planned
pub mod LastProbe
pub mod Barrier
use terraform_provider_zedam.Prelude.{
  ℕ, zero, suc, ◌+◌, ◌-◌, ◌*◌, ◌^◌, Bool, true, false, ◌&&◌, ◌||◌, not, List, [], ◌∷◌, ◌++◌, Option,
  none, some, if◌then◌else◌, ltb, leb, ◌==◌, length, take, drop, ◌≡◌, refl,
}
use terraform_provider_zedam.Prelude.Int.{ℤ, pos, is_zero}
use terraform_provider_zedam.Text.{Text, codes}
use terraform_provider_zedam.Text.Decimal.{format}
use terraform_provider_zedam.GoError.{GoError, errorf}
use terraform_provider_zedam.Exec.{Result, Host, join_path}

-- `probeKind`
pub data ProbeKind : Type 0 where
  ready not_ready exec_error hung : ProbeKind

unfoldable pub kind_string : ProbeKind → Text
kind_string ready = codes "ready"
kind_string not_ready = codes "not-ready"
kind_string exec_error = codes "exec-error"
kind_string hung = codes "abandoned"

abbrev pub is_hung : ProbeKind → Bool
is_hung hung = true
is_hung ready = false
is_hung not_ready = false
is_hung exec_error = false

classify : Option GoError → ℤ → ProbeKind
classify none code = ready
classify (some e) code = if not (is_zero code) then not_ready else exec_error

-- `classifyProbe`
unfoldable pub classify_probe : Result → ProbeKind
unfolding classify
classify_probe res = classify res.error res.exit_code

-- Which case of the `select` of `runProbe` is taken: the command's result, the timer, or the end
-- of the context with its error.
pub data Event : Type 0 where
  finished : Result → Event
  expired : Event
  cancelled : GoError → Event

-- What the Go runtime adds to the target: a clock that advances in the calls alone, a command that
-- runs until it ends, its budget is spent or the context is cancelled, and a sleep, which answers
-- nothing if its timer fired and otherwise the context's error.
pub record Runtime (h : Host) : Type 1 where
  pub now : h.World → ℕ
  pub attempt : Text → List Text → ℕ → h.World → Event × h.World
  pub sleep : ℕ → h.World → Option GoError × h.World

pub record WaitParams : Type 0 where
  pub attempts_root : Text
  pub argv : List Text
  pub timeout : ℕ
  pub interval : ℕ
  pub attempt_timeout : ℕ
  pub retain_logs : ℕ

pub record WaitOutcome : Type 0 where
  pub attempts : ℕ
  pub elapsed : ℕ
  pub last : Result
  pub last_kind : ProbeKind
  pub last_logs : Text
  pub last_completed : Result
  pub last_completed_attempt : ℕ

abbrev pub no_result : Result
no_result = record {
  cmd = [];
  args = [];
  exit_code = pos 0;
  stdout = [];
  stderr = [];
  error = none;
  timed_out = false;
}

-- `var out waitOutcome`
abbrev pub no_outcome : WaitOutcome
no_outcome = record {
  attempts = 0;
  elapsed = 0;
  last = no_result;
  last_kind = ready;
  last_logs = [];
  last_completed = no_result;
  last_completed_attempt = 0;
}

-- `errWaitTimeout`, the context's error, and the script that could not be run
pub data WaitError : Type 0 where
  wait_timeout : WaitError
  aborted not_run : GoError → WaitError

unfoldable pub zeros : ℕ → Text
zeros zero = []
zeros (suc n) = b'0' ∷ zeros n

-- `fmt.Sprintf("%04d", n)`
unfoldable pub format4 : ℕ → Text
unfolding zeros
format4 n = zeros (4 - length (format n)) ++ format n

abbrev pub cmd_of : List Text → Text
cmd_of [] = []
cmd_of (c ∷ args) = c

-- an abandoned probe: the command, no output
abbrev pub abandoned : List Text → Bool → Result
abandoned argv timed_out = record no_result {
  cmd = cmd_of argv;
  args = drop 1 argv;
  timed_out = timed_out;
}

abbrev pub probe_of : List Text → Event → Result × ProbeKind × Option GoError
probe_of argv (finished res) = (res, classify_probe res, none)
probe_of argv expired = (abandoned argv true, hung, none)
probe_of argv (cancelled e) = (abandoned argv false, hung, some e)

-- the pruned list; the caller removes the victim's directory
abbrev pub without_second : List Text → List Text
without_second completed = take 1 completed ++ drop 2 completed

abbrev pub prune_needed : List Text → ℕ → Bool
prune_needed completed keep = not (keep == 0 || leb (length completed) (keep + 1))

-- the round's result and, where the loop goes on, what it carries
pub data Turn (W : Type 0) : Type 0 where
  finish : WaitOutcome → Option WaitError → W → Turn W
  continue : WaitOutcome → List Text → W → Turn W

module _ (h : Host) (rt : Runtime h) where
  open h use {World, remove}
  open rt use {now, attempt, sleep}

  -- `runProbe`
  unfoldable pub run_probe :
      Text → List Text → ℕ → World → (Result × ProbeKind × Option GoError) × World
  run_probe log_dir argv budget w =
      let (event, w') = attempt log_dir argv budget w in (probe_of argv event, w')

  remove_second : List Text → World → World
  remove_second [] w = w
  remove_second (first ∷ []) w = w
  remove_second (first ∷ victim ∷ rest) w = (remove victim w).1

  -- `pruneAttemptLogs`; an error of the removal is only logged
  unfoldable pub prune_attempt_logs : List Text → ℕ → World → List Text × World
  unfolding remove_second
  prune_attempt_logs completed keep w =
      if prune_needed completed keep
      then (without_second completed, remove_second completed w)
      else (completed, w)
