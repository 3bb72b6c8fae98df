-- ===== src/WaitUntil/Barrier.antt =====
-- When `Create` of internal/provider/wait_until_resource.go lets the plan go on.
use terraform_provider_zedam.Prelude.{ℕ, Option, none, some, ◌≡◌, refl}
use terraform_provider_zedam.Text.{Text}
use terraform_provider_zedam.Exec.{Host}
use terraform_provider_zedam.Exec.Act.{Step, go, stop}
use terraform_provider_zedam.IpLink.{ProviderConfig}
use terraform_provider_zedam.WaitUntil.{Runtime, WaitParams, WaitOutcome, WaitError}
use terraform_provider_zedam.WaitUntil.Loop.{wait_for_script}
use terraform_provider_zedam.WaitUntil.LastProbe.{IsLast, wait_for_script-IsLast}
use terraform_provider_zedam.WaitUntil.Outcome.{Ends, wait_for_script-Ends}
use terraform_provider_zedam.WaitUntil.Planned.{
  IsPlanned, Begun, begin_create-Begun, script_path_of,
}
use terraform_provider_zedam.Prelude.Int.{pos}
use terraform_provider_zedam.Attr.{known}
use terraform_provider_zedam.WaitUntil.Report.{TimeLib, tail_string}
use terraform_provider_zedam.WaitUntil.Handlers.{
  WaitUntilModel, begin_create, end_create, resource_dir, conclude, create_from, create,
}

module _ (h : Host) (rt : Runtime h) (tl : TimeLib) (conf : ProviderConfig)
    (plan : WaitUntilModel) where
  open h use {World}

  -- The wait behind a created resource: what was done before it and its parameters, by the plan, its
  -- outcome, and the state, which is the plan with what the outcome says.
  abbrev pub Waited : ℕ → World → WaitUntilModel → Type 0
  Waited fuel w model =
      (id : Text) × (p : WaitParams) × (w1 : World) × (out : WaitOutcome) × (w2 : World) × IsPlanned
        h rt tl conf plan w id p w1
      × (wait_for_script h rt p fuel w1 ≡ some (out, none, w2))
      × Ends h rt p out none
      × IsLast h rt p (rt.now w1) out w2
      × (model ≡ record plan {
        id = known id;
        script_path = known (script_path_of h rt tl conf plan id);
        attempts = known out.attempts;
        elapsed = known (tl.show (pos (tl.round_second out.elapsed)));
        stdout = known (tail_string out.last.stdout 8192);
        stderr = known (tail_string out.last.stderr 8192);
      })

  conclude-Waited :
      (fuel : ℕ) (w : World) (id : Text) (p : WaitParams) (w1 w' : World) (model : WaitUntilModel)
      (o : Option (WaitOutcome × Option WaitError × World))
      → IsPlanned h rt tl conf plan w id p w1
      → wait_for_script h rt p fuel w1 ≡ o
      → conclude h rt tl conf plan id p o ≡ some (go model, w')
      → Waited fuel w model
  unfolding end_create resource_dir
  conclude-Waited fuel w id p w1 w' model none planned q e = absurd (cc e)
  conclude-Waited fuel w id p w1 w' model (some (out, some err, w2)) planned q e = absurd (cc e)
  conclude-Waited fuel w id p w1 w' model (some (out, none, w2)) planned q e = (
    id,
    p,
    w1,
    out,
    w2,
    planned,
    q,
    (wait_for_script-Ends h rt p fuel w1 w2 out none q).0,
    wait_for_script-IsLast h rt p fuel w1 w2 out q,
    cc e,
  )

  create_from-Waited :
      (fuel : ℕ) (w : World) (r : Step (Text × WaitParams) × World) (w' : World)
      (model : WaitUntilModel)
      → Begun h rt tl conf plan w r
      → create_from h rt tl conf fuel plan r ≡ some (go model, w')
      → Waited fuel w model
  create_from-Waited fuel w (stop ds, w1) w' model begun e = absurd (cc e)
  create_from-Waited fuel w (go (id, p), w1) w' model begun e =
      conclude-Waited fuel w id p w1 w' model (wait_for_script h rt p fuel w1) begun refl e

  -- The barrier holds: a wait_until resource is created only if its script was written to its
  -- directory and made executable, the wait ran exactly that script behind the planned interpreter,
  -- or else the target's bash, with the planned durations or their defaults, and ended with an attempt
  -- that exited 0. The state is the plan with the number of attempts, the time from the start to the
  -- end of that attempt, rounded, and the last 8192 bytes of its two outputs.
  pub create-Waited :
      (fuel : ℕ) (w w' : World) (model : WaitUntilModel)
      → create h rt tl conf fuel plan w ≡ some (go model, w')
      → Waited fuel w model
  unfolding create
  create-Waited fuel w w' model e =
      create_from-Waited fuel w (begin_create h rt tl conf plan w) w' model
        (begin_create-Begun h rt tl conf plan w) e
