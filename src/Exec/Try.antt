-- ===== src/Exec/Try.antt =====
-- The helpers of the handlers that return diagnostics with an error, `(diag.Diagnostics, error)`:
-- a value, or both of these.
use terraform_provider_zedam.Prelude.{List, ◌∷◌}
use terraform_provider_zedam.Text.{Text}
use terraform_provider_zedam.Diag.{Diagnostic}
use terraform_provider_zedam.GoError.{GoError, error_text}
use terraform_provider_zedam.Exec.Act.{Step, go, stop}

pub data Attempt (A : Type 0) : Type 0 where
  done : A → Attempt A
  failed : List Diagnostic → GoError → Attempt A

abbrev pub Try : Type 0 → Type 0 → Type 0
Try W A = W → Attempt A × W

abbrev pub then_try : {W A B : Type 0} → Attempt A × W → (A → Try W B) → Attempt B × W
then_try (done a, w) f = f a w
then_try (failed ds e, w) f = (failed ds e, w)

infixl 5 ◌>>=◌ ◌>>◌
abbrev pub ◌>>=◌ : {W A B : Type 0} → Try W A → (A → Try W B) → Try W B
◌>>=◌ m f w = then_try (m w) f

abbrev pub ◌>>◌ : {W A B : Type 0} → Try W A → Try W B → Try W B
m >> k = m >>= λ _. k

abbrev pub return : {W A : Type 0} → A → Try W A
return a w = (done a, w)

abbrev pub reject : {W A : Type 0} → List Diagnostic → GoError → Try W A
reject ds e w = (failed ds e, w)

-- How the handlers report such a failure: `AddError(summary, err.Error())`, then the diagnostics.
abbrev pub report : {W A : Type 0} → Text → Attempt A × W → Step A × W
report summary (done a, w) = (go a, w)
report summary (failed ds e, w) =
    (stop (record { summary = summary; detail = error_text e } ∷ ds), w)
