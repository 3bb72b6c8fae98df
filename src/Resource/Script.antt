-- ===== src/Resource/Script.antt =====
-- A list of `ip` commands, each with the detail of its diagnostic, run until one fails.
use terraform_provider_zedam.Prelude.{List, [], ◌∷◌, ◌++◌, ◌≡◌, refl}
use terraform_provider_zedam.Text.{Text}
use terraform_provider_zedam.Exec.{Host, Result}
use terraform_provider_zedam.Exec.Act.{Act, Step, go, stop, pure, next, ◌>>◌}
use terraform_provider_zedam.Resource.{IpCommand, run_or_fail}

pub record Command : Type 0 where
  pub words : List Text
  pub summary : Text
  pub detail : Text

module _ (h : Host) (d : Text) (ip : IpCommand) where
  open h use {World}

  unfoldable pub run_script : List Command → Act World (Unit {0})
  run_script [] = pure tt
  run_script (c ∷ cs) = do run_or_fail h d ip c.summary c.detail c.words; run_script cs

  after_first :
      (cs ds : List Command) (r : Step Result × World)
      → ((w : World) → (run_script cs >> run_script ds) w ≡ run_script (cs ++ ds) w)
      → next (next r (λ _. run_script cs)) (λ _. run_script ds)
        ≡ next r (λ _. run_script (cs ++ ds))
  after_first cs ds (go a, w) ih = ih w
  after_first cs ds (stop x, w) ih = refl

  -- Scripts one after the other are their concatenation.
  pub run_script-append :
      (cs ds : List Command) (w : World)
      → (run_script cs >> run_script ds) w ≡ run_script (cs ++ ds) w
  unfolding run_script
  run_script-append [] ds w = refl
  run_script-append (c ∷ cs) ds w =
      after_first cs ds (run_or_fail h d ip c.summary c.detail c.words w) (run_script-append cs ds)

  script_then_first :
      {A : Type 0} (cs ds : List Command) (k : Act World A) (r : Step Result × World)
      → ((w : World)
          → next (run_script cs w) (λ _. run_script ds >> k) ≡ (run_script (cs ++ ds) >> k) w)
      → next (next r (λ _. run_script cs)) (λ _. run_script ds >> k)
        ≡ next (next r (λ _. run_script (cs ++ ds))) (λ _. k)
  script_then_first cs ds k (go a, w) ih = ih w
  script_then_first cs ds k (stop x, w) ih = refl

  -- So they are before any action.
  pub run_script_then :
      {A : Type 0} (cs ds : List Command) (k : Act World A) (w : World)
      → (run_script cs >> (run_script ds >> k)) w ≡ (run_script (cs ++ ds) >> k) w
  unfolding run_script
  run_script_then [] ds k w = refl
  run_script_then (c ∷ cs) ds k w =
      script_then_first cs ds k (run_or_fail h d ip c.summary c.detail c.words w)
        (run_script_then cs ds k)
