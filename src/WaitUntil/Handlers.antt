-- ===== src/WaitUntil/Handlers.antt =====
-- `Create`, `Read`, `Update` and `Delete` of internal/provider/wait_until_resource.go. A handler
-- that goes on with a value sets it as the new state. The map of triggers, which nothing but the
-- framework reads, is left out.
use terraform_provider_zedam.Prelude.{ℕ, List, [], ◌∷◌, ◌++◌, Option, none, some}
use terraform_provider_zedam.Prelude.Int.{pos}
use terraform_provider_zedam.Text.{Text, codes}
use terraform_provider_zedam.Diag.{Diagnostic}
use terraform_provider_zedam.GoError.{error_text}
use terraform_provider_zedam.Exec.{Host, join_path}
use terraform_provider_zedam.Exec.Act.{Act, Step, go, stop, pure, fail, ◌>>=◌, ◌>>◌}
use terraform_provider_zedam.Attr.{Attr, null, unknown, known, value_string}
use terraform_provider_zedam.IpLink.{ProviderConfig}
use terraform_provider_zedam.Resource.{judge_err, prepare}
use terraform_provider_zedam.WaitUntil.{Runtime, WaitParams, WaitOutcome, WaitError}
use terraform_provider_zedam.WaitUntil.Loop.{wait_for_script}
use terraform_provider_zedam.WaitUntil.Report.{
  TimeLib, wait_error, wait_until_durations, wait_until_err_diag, summary_text, tail_string,
}

-- `WaitUntilModel`
pub record WaitUntilModel : Type 0 where
  pub id : Attr Text
  pub script : Attr Text
  pub interpreter : Attr (List Text)
  pub timeout : Attr Text
  pub interval : Attr Text
  pub attempt_timeout : Attr Text
  pub attempts : Attr ℕ
  pub elapsed : Attr Text
  pub stdout : Attr Text
  pub stderr : Attr Text
  pub script_path : Attr Text

-- `waitUntilArgv`
abbrev pub wait_until_argv : List Text → Text → List Text
wait_until_argv interp script_path = interp ++ script_path ∷ []

abbrev pub stop_if : {W : Type 0} → List Diagnostic → Act W (Unit {0})
stop_if [] = pure tt
stop_if (d ∷ ds) = λ w. (stop (d ∷ ds), w)

unfoldable pub default_interpreter : {W : Type 0} → Text → Act W (List Text)
default_interpreter [] =
    fail wait_error
      (codes
        "The `bash` executable was not found on the target, so the default interpreter cannot be used. Install bash on the target or set an explicit `interpreter`.")
      []
default_interpreter (c ∷ bash) = pure ((c ∷ bash) ∷ [])

-- `resolveInterpreter`, with the return of its caller
unfoldable pub resolve_interpreter :
    {W : Type 0} → ProviderConfig → Attr (List Text) → Act W (List Text)
unfolding default_interpreter
resolve_interpreter conf null = default_interpreter conf.bash
resolve_interpreter conf unknown = default_interpreter conf.bash
resolve_interpreter conf (known interp) = pure interp

-- `waitUntilRetainLogs`
abbrev pub retain_logs : ℕ
retain_logs = 5

module _ (h : Host) (rt : Runtime h) (tl : TimeLib) (conf : ProviderConfig) where
  open h use {World, write_file, chmod, remove}
  open tl use {show, round_second}

  -- `getResourceDir`
  unfoldable pub resource_dir : Text → Text
  resource_dir id = join_path (join_path conf.lib_path (codes "wait_until")) id

  abbrev pub script_of : Text → Text
  script_of d = join_path d (codes "wait_until.sh")

  -- `Create` up to the wait: the resource's identifier and the parameters of the wait
  unfoldable pub begin_create : WaitUntilModel → Act World (Text × WaitParams)
  unfolding resource_dir
  begin_create plan = do
    let (timeout, interval, attempt_timeout, dz) =
        wait_until_durations tl plan.timeout plan.interval plan.attempt_timeout
    stop_if dz
    interp ← resolve_interpreter conf plan.interpreter
    id ← prepare h wait_error (join_path conf.lib_path (codes "wait_until"))
    let d = resource_dir id
    (λ w.
        judge_err h wait_error
          (λ e. codes "Unable to write the script on the target: " ++ error_text e)
          (write_file (script_of d) (value_string plan.script) 0o755 w))
    (λ w.
        judge_err h wait_error
          (λ e. codes "Unable to make the script executable on the target: " ++ error_text e)
          (chmod (script_of d) 0o755 w))
    pure (
      id,
      record {
        attempts_root = join_path d (codes "attempts");
        argv = wait_until_argv interp (script_of d);
        timeout = timeout;
        interval = interval;
        attempt_timeout = attempt_timeout;
        retain_logs = retain_logs;
      },
    )

  -- `writeSummary`, whose error is only logged
  unfoldable pub write_summary : Text → WaitParams → WaitOutcome → Option WaitError → World → World
  write_summary d p out err w =
      (write_file (join_path d (codes "summary.txt")) (summary_text tl p out err) 0o640 w).1

  -- the state of a wait that succeeded
  abbrev pub waited : WaitUntilModel → Text → WaitOutcome → WaitUntilModel
  waited plan id out = record plan {
    id = known id;
    script_path = known (script_of (resource_dir id));
    attempts = known out.attempts;
    elapsed = known (show (pos (round_second out.elapsed)));
    stdout = known (tail_string out.last.stdout 8192);
    stderr = known (tail_string out.last.stderr 8192);
  }

  -- `Create` behind the wait
  unfoldable pub end_create :
      WaitUntilModel → Text → WaitParams → WaitOutcome → Option WaitError → Act World WaitUntilModel
  end_create plan id p out (some err) w = (
    stop (wait_until_err_diag tl out p (resource_dir id) err ∷ []),
    write_summary (resource_dir id) p out (some err) w,
  )
  end_create plan id p out none w =
      (go (waited plan id out), write_summary (resource_dir id) p out none w)

  abbrev pub conclude :
      WaitUntilModel
      → Text
      → WaitParams
      → Option (WaitOutcome × Option WaitError × World)
      → Option (Step WaitUntilModel × World)
  conclude plan id p none = none
  conclude plan id p (some (out, err, w)) = some (end_create plan id p out err w)

  abbrev pub create_from :
      ℕ → WaitUntilModel → Step (Text × WaitParams) × World → Option (Step WaitUntilModel × World)
  create_from fuel plan (stop ds, w) = some (stop ds, w)
  create_from fuel plan (go (id, p), w) = conclude plan id p (wait_for_script h rt p fuel w)

  -- `Create`; `none` means that the fuel of the wait ran out
  unfoldable pub create : ℕ → WaitUntilModel → World → Option (Step WaitUntilModel × World)
  unfolding begin_create
  create fuel plan w = create_from fuel plan (begin_create plan w)

  -- `Read` asks nothing of the target.
  unfoldable pub read : WaitUntilModel → Act World WaitUntilModel
  read state = pure state

  unfoldable pub update : WaitUntilModel → WaitUntilModel → Act World WaitUntilModel
  update plan state = pure (record plan {
    id = state.id;
    script_path = state.script_path;
    attempts = state.attempts;
    elapsed = state.elapsed;
    stdout = state.stdout;
    stderr = state.stderr;
  })

  unfoldable pub delete : WaitUntilModel → Act World (Unit {0})
  delete state w =
      judge_err h (codes "Wait Until Resource Delete Error")
        (λ e. codes "Can't delete WaitUntil resource directory: " ++ error_text e)
        (remove (resource_dir (value_string state.id)) w)
