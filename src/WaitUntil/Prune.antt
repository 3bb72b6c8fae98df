-- ===== src/WaitUntil/Prune.antt =====
-- What the retention of log directories comes to over a whole wait.
use terraform_provider_zedam.Prelude.{
  ℕ, zero, suc, ◌+◌, ◌-◌, ◌≤◌, ◌<◌, List, [], ◌∷◌, ◌++◌, ltb, length, take, drop, ◌≡◌, inl, inr,
  arith, append_assoc, append-nil, length-append, Bool-cases,
}
use terraform_provider_zedam.Text.{Text}
use terraform_provider_zedam.Exec.{Host}
use terraform_provider_zedam.WaitUntil.{Runtime, prune_attempt_logs}

module _ (h : Host) (rt : Runtime h) (keep : ℕ) where
  open h use {World, remove}

  -- the completed attempts of a wait, one after the other
  pub log_rounds : List Text → List Text → World → List Text × World
  log_rounds completed [] w = (completed, w)
  log_rounds completed (d ∷ ds) w =
      let (completed', w') = prune_attempt_logs h rt (completed ++ d ∷ []) keep w in
      log_rounds completed' ds w'

  unfoldable pub remove_each : List Text → World → World
  remove_each [] w = w
  remove_each (d ∷ ds) w = remove_each ds (remove d w).1

  -- with room left nothing is pruned
  prune_room :
      (first d : Text) (t : List Text) (w : World)
      → length t < keep
      → prune_attempt_logs h rt (first ∷ t ++ d ∷ []) keep w ≡ (first ∷ t ++ d ∷ [], w)
  unfolding prune_attempt_logs
  prune_room first d t w room = ground (arith, length-append t (d ∷ []))

  prune_first :
      (first : Text) (w : World) → prune_attempt_logs h rt (first ∷ []) keep w ≡ (first ∷ [], w)
  unfolding prune_attempt_logs
  prune_first first w = ground arith

  -- without room the second directory goes
  prune_full :
      (first d victim : Text) (t : List Text) (w : World)
      → suc (length t) ≡ keep
      → prune_attempt_logs h rt (first ∷ victim ∷ t ++ d ∷ []) keep w
        ≡ (first ∷ t ++ d ∷ [], (remove victim w).1)
  unfolding prune_attempt_logs
  prune_full first d victim t w full = ground (arith, length-append t (d ∷ []))

  -- From a list with its first entry and some of the latest, `n` of the entries behind the first
  -- are removed, the oldest ones.
  abbrev Retains : Text → List Text → Type 0
  Retains first ds =
      (t : List Text) (n : ℕ) (w : World)
      → length t + length ds - keep ≡ n
      → 0 < keep
      → length t ≤ keep
      → log_rounds (first ∷ t) ds w ≡ (first ∷ drop n (t ++ ds), remove_each (take n (t ++ ds)) w)

  Retains-room :
      (first d : Text) (t ds : List Text) (n : ℕ) (w : World)
      → Retains first ds
      → length t + length (d ∷ ds) - keep ≡ n
      → length t < keep
      → log_rounds (first ∷ t) (d ∷ ds) w
        ≡ (first ∷ drop n (t ++ d ∷ ds), remove_each (take n (t ++ d ∷ ds)) w)
  unfolding log_rounds
  Retains-room first d t ds n w ih e room = rw (prune_room first d t w room) (
      rw (append_assoc t (d ∷ []) ds) at (
        ih (t ++ d ∷ []) n w (omega (arith, length-append t (d ∷ []))) (omega arith)
          (omega (arith, length-append t (d ∷ [])))))

  Retains-full :
      (first d v : Text) (t ds : List Text) (n : ℕ) (w : World)
      → Retains first ds
      → length (v ∷ t) + length (d ∷ ds) - keep ≡ n
      → length (v ∷ t) ≡ keep
      → log_rounds (first ∷ v ∷ t) (d ∷ ds) w
        ≡ (first ∷ drop n (v ∷ t ++ d ∷ ds), remove_each (take n (v ∷ t ++ d ∷ ds)) w)
  unfolding log_rounds remove_each
  Retains-full first d v t ds zero w ih e full = absurd (omega arith)
  Retains-full first d v t ds (suc n) w ih e full = rw (prune_full first d v t w full) (
      rw (append_assoc t (d ∷ []) ds) at (
        ih (t ++ d ∷ []) n (remove v w).1 (omega (arith, length-append t (d ∷ []))) (omega arith)
          (omega (arith, length-append t (d ∷ [])))))

  log_rounds_none :
      (first : Text) (t : List Text) (n : ℕ) (w : World)
      → n ≡ 0
      → log_rounds (first ∷ t) [] w ≡ (first ∷ drop n (t ++ []), remove_each (take n (t ++ [])) w)
  unfolding log_rounds remove_each
  log_rounds_none first t zero w e = rw append-nil
  log_rounds_none first t (suc n) w e = absurd (omega arith)

  log_rounds_from : (first : Text) (ds : List Text) → Retains first ds
  log_rounds_from first [] t n w e pos fits = log_rounds_none first t n w (omega arith)
  log_rounds_from first (d ∷ ds) [] n w e pos fits =
      Retains-room first d [] ds n w (log_rounds_from first ds) e pos
  log_rounds_from first (d ∷ ds) (v ∷ t) n w e pos fits =
      elim (Bool-cases (ltb (length (v ∷ t)) keep)) [
        | inl room ↦ Retains-room first d (v ∷ t) ds n w (log_rounds_from first ds) e (ground arith)
        | inr full ↦ Retains-full first d v t ds n w (log_rounds_from first ds) e (ground arith)
      ]

  -- However many attempts complete, the first one's logs are kept, and of the later ones those of
  -- the last `keep`, in order; exactly the others are removed, each once, the oldest first.
  pub log_rounds-retained :
      (first : Text) (ds : List Text) (w : World)
      → 0 < keep
      → log_rounds [] (first ∷ ds) w
        ≡ (first ∷ drop (length ds - keep) ds, remove_each (take (length ds - keep) ds) w)
  unfolding log_rounds
  log_rounds-retained first ds w pos =
      rw (prune_first first w) (log_rounds_from first ds [] _ w (omega arith) pos (omega arith))
