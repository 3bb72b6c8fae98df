-- ===== src/Exec/Act.antt =====
-- Handlers as actions on the world that give a value or stop with diagnostics, as the early
-- returns of the source do: every error diagnostic there is followed by a return.
use terraform_provider_zedam.Prelude.{List, ◌∷◌, Bool, true, false, ◌≡◌, refl}
use terraform_provider_zedam.Text.{Text}
use terraform_provider_zedam.Diag.{Diagnostic}

pub data Step (A : Type 0) : Type 0 where
  go : A → Step A
  stop : List Diagnostic → Step A

abbrev pub Act : Type 0 → Type 0 → Type 0
Act W A = W → Step A × W

-- continue with a value, or stay stopped
abbrev pub next : {W A B : Type 0} → Step A × W → (A → Act W B) → Step B × W
next (go a, w) f = f a w
next (stop ds, w) f = (stop ds, w)

infixl 5 ◌>>=◌ ◌>>◌
abbrev pub ◌>>=◌ : {W A B : Type 0} → Act W A → (A → Act W B) → Act W B
◌>>=◌ m f w = next (m w) f

abbrev pub ◌>>◌ : {W A B : Type 0} → Act W A → Act W B → Act W B
m >> k = m >>= λ _. k

abbrev pub pure : {W A : Type 0} → A → Act W A
pure a w = (go a, w)

-- `resp.Diagnostics.AddError(summary, detail)`, what is appended behind it, and the return
abbrev pub fail : {W A : Type 0} → Text → Text → List Diagnostic → Act W A
fail summary detail more w = (stop (record { summary = summary; detail = detail } ∷ more), w)

-- `if cond { ... }`
abbrev pub when : {W : Type 0} → Bool → Act W (Unit {0}) → Act W (Unit {0})
when true m = m
when false m = pure tt

-- A sequence that goes on has gone on at its first step.
pub next_go :
    {W A B : Type 0} (Q : Type 0) (r : Step A × W) (f : A → Act W B) (b : B) (w' : W)
    → next r f ≡ (go b, w')
    → ((a : A) (w1 : W) → r ≡ (go a, w1) → f a w1 ≡ (go b, w') → Q)
    → Q
next_go Q (go a, w) f b w' e k = k a w refl e
next_go Q (stop ds, w) f b w' e k = absurd (cc e)

-- A guard that fails lets nothing go on.
pub when-fail :
    {W B : Type 0} (c : Bool) (summary detail : Text) (more : List Diagnostic) (w w' : W)
    (f : Unit {0} → Act W B) (b : B)
    → next (when c (fail summary detail more) w) f ≡ (go b, w')
    → f tt w ≡ (go b, w')
when-fail true summary detail more w w' f b e = absurd (cc e)
when-fail false summary detail more w w' f b e = e

-- What holds of a stopped sequence, and of what follows a first step that goes on, holds of both.
pub next_all :
    {W A B : Type 0} (Q : Step B × W → Type 0)
    → ((ds : List Diagnostic) (w : W) → Q (stop ds, w))
    → (r : Step A × W) (f : A → Act W B) → ((a : A) (w1 : W) → r ≡ (go a, w1) → Q (f a w1))
    → Q (next r f)
next_all Q stops (go a, w) f k = k a w refl
next_all Q stops (stop ds, w) f k = stops ds w
