-- ===== src/WaitUntil/Planned.antt =====
-- What `Create` of internal/provider/wait_until_resource.go has done before the wait, and which
-- parameters the wait gets, written out from the plan.
use terraform_provider_zedam.Prelude.{
  ℕ, zero, suc, ◌<◌, if◌then◌else◌, List, [], ◌∷◌, ◌++◌, Option, none, some, ◌≡◌, ◌≢◌, ◌⊎◌, inl,
  inr, refl, ap, ◌∙◌, subst, arith,
}
use terraform_provider_zedam.Prelude.Int.{pos, negsuc}
use terraform_provider_zedam.Text.{Text, codes, is_empty}
use terraform_provider_zedam.Diag.{Diagnostic}
use terraform_provider_zedam.GoError.{GoError, error_text}
use terraform_provider_zedam.Exec.{Host, join_path}
use terraform_provider_zedam.Exec.Act.{Act, Step, go, stop, pure, next, next_all}
use terraform_provider_zedam.Attr.{Attr, null, unknown, known, value_string}
use terraform_provider_zedam.IpLink.{ProviderConfig}
use terraform_provider_zedam.Resource.{judge_err, prepare}
use terraform_provider_zedam.WaitUntil.{Runtime, WaitParams}
use terraform_provider_zedam.WaitUntil.Report.{
  TimeLib, duration_error, Duration, duration, no_duration, wait_error, text_or, positive,
  parse_attr, wait_until_durations,
}
use terraform_provider_zedam.WaitUntil.Handlers.{
  WaitUntilModel, stop_if, default_interpreter, resolve_interpreter, resource_dir, begin_create,
}

-- The words in front of the script: those of the plan, or the `bash` of the target.
abbrev pub IsInterpreter : ProviderConfig → Attr (List Text) → List Text → Type 0
IsInterpreter conf (known words) interp = interp ≡ words
IsInterpreter conf null interp = (conf.bash ≢ []) × (interp ≡ conf.bash ∷ [])
IsInterpreter conf unknown interp = (conf.bash ≢ []) × (interp ≡ conf.bash ∷ [])

default_found :
    {W : Type 0} (bash : Text) (interp : List Text) (w w' : W)
    → default_interpreter bash w ≡ (go interp, w')
    → ((bash ≢ []) × (interp ≡ bash ∷ [])) × (w' ≡ w)
unfolding default_interpreter
default_found [] interp w w' e = absurd (cc e)
default_found (c ∷ bash) interp w w' e = ((cc, cc), cc)

resolve_IsInterpreter :
    {W : Type 0} (conf : ProviderConfig) (v : Attr (List Text)) (interp : List Text) (w w' : W)
    → resolve_interpreter conf v w ≡ (go interp, w')
    → IsInterpreter conf v interp × (w' ≡ w)
unfolding resolve_interpreter
resolve_IsInterpreter conf (known words) interp w w' e = (cc, cc)
resolve_IsInterpreter conf null interp w w' e = default_found conf.bash interp w w' e
resolve_IsInterpreter conf unknown interp w w' e = default_found conf.bash interp w w' e

stop_if_go :
    {W : Type 0} (ds : List Diagnostic) (u : Unit {0}) (w w' : W)
    → stop_if ds w ≡ (go u, w')
    → (ds ≡ []) × (w' ≡ w)
stop_if_go [] u w w' e = (refl, cc)
stop_if_go (d ∷ ds) u w w' e = absurd (cc e)

append-nil_left : {A : Type 0} (xs ys : List A) → xs ++ ys ≡ [] → (xs ≡ []) × (ys ≡ [])
append-nil_left [] ys e = (refl, e)
append-nil_left (x ∷ xs) ys e = absurd (cc e)

module _ (tl : TimeLib) where
  open tl use {parse_duration}

  -- A duration of the plan, or its default: a positive one, or 0 where no text says it.
  abbrev pub IsPeriod : Attr Text → Text → ℕ → Type 0
  IsPeriod v fallback n =
      ((text_or v fallback ≡ []) × (n ≡ 0))
      ⊎ ((parse_duration (text_or v fallback) ≡ duration (pos n)) × (0 < n))

  positive_lem :
      (name : Text) (d : Duration)
      → (positive tl name d).1 ≡ []
      → (d ≡ duration (pos (positive tl name d).0)) × (0 < (positive tl name d).0)
  unfolding positive duration_error
  positive_lem name (no_duration e) h = absurd (cc h)
  positive_lem name (duration (negsuc n)) h = absurd (cc h)
  positive_lem name (duration (pos zero)) h = absurd (cc h)
  positive_lem name (duration (pos (suc n))) h = (refl, omega arith)

  said :
      (name t : Text) (n : ℕ) (ds : List Diagnostic)
      → (if is_empty t then (0, []) else positive tl name (parse_duration t)) ≡ (n, ds)
      → ds ≡ []
      → ((t ≡ []) × (n ≡ 0)) ⊎ ((parse_duration t ≡ duration (pos n)) × (0 < n))
  said name [] n ds e h = inl (refl, cc)
  said name (c ∷ t) n ds e h =
      let (same, more) = positive_lem name (parse_duration (c ∷ t)) (ap (λ z. z.1) e ∙ h) in
      inr (
        subst (λ z. (parse_duration (c ∷ t) ≡ duration (pos z)) × (0 < z)) (ap (λ z. z.0) e)
          (same, more))

  parse_attr-IsPeriod :
      (name : Text) (v : Attr Text) (fallback : Text)
      → (parse_attr tl name v fallback).1 ≡ []
      → IsPeriod v fallback (parse_attr tl name v fallback).0
  unfolding parse_attr
  parse_attr-IsPeriod name v fallback h = said name (text_or v fallback) _ _ refl h

  durations_lem :
      (a b c : Attr Text)
      → (wait_until_durations tl a b c).3 ≡ []
      → IsPeriod a (codes "30m") (wait_until_durations tl a b c).0
        × IsPeriod b (codes "15s") (wait_until_durations tl a b c).1
        × IsPeriod c [] (wait_until_durations tl a b c).2
  unfolding wait_until_durations
  durations_lem a b c none_said =
      let (da, rest) = append-nil_left _ _ none_said in
      let (db, dc) = append-nil_left _ _ rest in
      (
        parse_attr-IsPeriod (codes "timeout") a (codes "30m") da,
        parse_attr-IsPeriod (codes "interval") b (codes "15s") db,
        parse_attr-IsPeriod (codes "attempt_timeout") c [] dc,
      )

module _ (h : Host) (rt : Runtime h) (tl : TimeLib) (conf : ProviderConfig)
    (plan : WaitUntilModel) where
  open h use {World, write_file, chmod}

  abbrev root : Text
  root = join_path conf.lib_path (codes "wait_until")

  abbrev pub script_path_of : Text → Text
  script_path_of id = join_path (join_path root id) (codes "wait_until.sh")

  -- The resource's directory was made, the script of the plan was written to it and made executable,
  -- and the wait is to run that script behind the interpreter, with the durations of the plan.
  abbrev pub IsPlanned : World → Text → WaitParams → World → Type 0
  IsPlanned w id p w1 =
      (interp : List Text) × (w0 : World) × IsInterpreter conf plan.interpreter interp
      × (p.argv ≡ interp ++ script_path_of id ∷ [])
      × (p.attempts_root ≡ join_path (join_path root id) (codes "attempts"))
      × IsPeriod tl plan.timeout (codes "30m") p.timeout
      × IsPeriod tl plan.interval (codes "15s") p.interval
      × IsPeriod tl plan.attempt_timeout [] p.attempt_timeout
      × (p.retain_logs ≡ 5)
      × (prepare h wait_error root w ≡ (go id, w0))
      × ((write_file (script_path_of id) (value_string plan.script) 0o755 w0).0 ≡ none)
      × (chmod (script_path_of id) 0o755
            (write_file (script_path_of id) (value_string plan.script) 0o755 w0).1
          ≡ (none, w1))

  -- what the first part of `Create` hands on
  abbrev pub Begun : World → Step (Text × WaitParams) × World → Type 0
  Begun w (stop ds, w1) = Unit
  Begun w (go (id, p), w1) = IsPlanned w id p w1

  judged :
      (summary : Text) (detail : GoError → Text) (r : Option GoError × World) (u : Unit {0})
      (w' : World)
      → judge_err h summary detail r ≡ (go u, w')
      → r ≡ (none, w')
  judged summary detail (none, w) u w' e = cc
  judged summary detail (some x, w) u w' e = absurd (cc e)

  abbrev params_of : List Text → Text → WaitParams
  params_of interp id = record {
    attempts_root = join_path (join_path root id) (codes "attempts");
    argv = interp ++ script_path_of id ∷ [];
    timeout = (wait_until_durations tl plan.timeout plan.interval plan.attempt_timeout).0;
    interval = (wait_until_durations tl plan.timeout plan.interval plan.attempt_timeout).1;
    attempt_timeout = (wait_until_durations tl plan.timeout plan.interval plan.attempt_timeout).2;
    retain_logs = 5;
  }

  -- the script: written, made executable, and run by the wait
  written_lem :
      (w : World) (interp : List Text) (id : Text) (w0 : World)
      → IsPeriod tl plan.timeout (codes "30m") (params_of interp id).timeout
      → IsPeriod tl plan.interval (codes "15s") (params_of interp id).interval
      → IsPeriod tl plan.attempt_timeout [] (params_of interp id).attempt_timeout
      → IsInterpreter conf plan.interpreter interp
      → prepare h wait_error root w ≡ (go id, w0)
      → Begun w (
          next
            (judge_err h wait_error
              (λ e. codes "Unable to write the script on the target: " ++ error_text e)
              (write_file (script_path_of id) (value_string plan.script) 0o755 w0))
            (λ u1 w1.
              next
                (judge_err h wait_error
                  (λ e.
                    codes "Unable to make the script executable on the target: " ++ error_text e)
                  (chmod (script_path_of id) 0o755 w1))
                (λ u2. pure (id, params_of interp id))))
  written_lem w interp id w0 pt pi pa said_so prepared =
      let stops : (ds : List Diagnostic) (w1 : World) → Begun w (stop ds, w1) = λ ds w1. tt in
      let wrote = write_file (script_path_of id) (value_string plan.script) 0o755 w0 in
      let last : Unit {0} → Act World (Text × WaitParams) = λ u. pure (id, params_of interp id) in
      let refuse : Text → GoError → Text = λ t e. t ++ error_text e in
      let chmod_refused = refuse (codes "Unable to make the script executable on the target: ") in
      let write_refused = refuse (codes "Unable to write the script on the target: ") in
      next_all (Begun w) stops (judge_err h wait_error write_refused wrote)
        (λ u1 w1.
          next (judge_err h wait_error chmod_refused (chmod (script_path_of id) 0o755 w1)) last)
        (λ u1 w1 e1.
          next_all (Begun w) stops
            (judge_err h wait_error chmod_refused (chmod (script_path_of id) 0o755 w1)) last
            (λ u2 w2 e2.
              let done = judged wait_error write_refused wrote u1 w1 e1 in
              (
                interp,
                w0,
                said_so,
                refl,
                refl,
                pt,
                pi,
                pa,
                refl,
                prepared,
                ap (λ z. z.0) done,
                ap (λ z. chmod (script_path_of id) 0o755 z.1) done
                    ∙ judged wait_error chmod_refused (chmod (script_path_of id) 0o755 w1) u2 w2 e2,
              )))

  pub begin_create-Begun : (w : World) → Begun w (begin_create h rt tl conf plan w)
  unfolding begin_create resource_dir
  begin_create-Begun w =
      let stops : (ds : List Diagnostic) (w1 : World) → Begun w (stop ds, w1) = λ ds w1. tt in
      next_all (Begun w) stops (stop_if _ w) _ (λ u wa ea.
        let (none_said, sa) = stop_if_go _ u w wa ea in
        let (pt, pi, pa) =
          durations_lem tl plan.timeout plan.interval plan.attempt_timeout none_said in
        next_all (Begun w) stops (resolve_interpreter conf plan.interpreter wa) _ (λ interp wb eb.
          let (said_so, sb) = resolve_IsInterpreter conf plan.interpreter interp wa wb eb in
          next_all (Begun w) stops (prepare h wait_error root wb) _ (λ id wc ec.
            written_lem w interp id wc pt pi pa said_so
              (subst (λ z. prepare h wait_error root z ≡ (go id, wc)) (sb ∙ sa) ec))))
