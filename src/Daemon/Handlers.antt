-- ===== src/Daemon/Handlers.antt =====
-- The handlers of the daemon resources from where the daemon comes in: the end of `Create`, `Read`,
-- `Update` behind its test of the configuration, and `Delete`. They are over the start, the stop and
-- the reading of the resource, the last as a function of the state attribute of the model.
use terraform_provider_zedam.Prelude.{Bool, [], ◌∷◌, ◌++◌, Option, none, some, if◌then◌else◌}
use terraform_provider_zedam.Text.{Text, codes, ◌=ᵗ◌, contains}
use terraform_provider_zedam.GoError.{GoError, error_text}
use terraform_provider_zedam.Exec.{Host, Fallible, got, failure}
use terraform_provider_zedam.Exec.Act.{Act, Step, go, stop, pure, ◌>>◌}
use terraform_provider_zedam.Attr.{Attr, known, equal}
use terraform_provider_zedam.Resource.{judge_err}
use terraform_provider_zedam.Daemon.{Kind, running, stopped, desired_state}

-- `Equal` of two string attributes
abbrev pub same_text : Attr Text → Attr Text → Bool
same_text v w = equal (λ s t. s =ᵗ t) v w

module _ (h : Host) (kind : Kind) where
  open h use {World, remove}

  abbrev pub message : Text → Text → Text
  message verb ending = codes "Failed to " ++ (verb ++ (codes " " ++ (kind.what ++ ending)))

  abbrev pub judge_read : Text → Fallible Text × World → Step (Attr Text) × World
  judge_read title (got s, w) = (go (known s), w)
  judge_read title (failure e, w) =
      (stop (record { summary = title; detail = error_text e } ∷ []), w)

  abbrev pub read_title : Text → Text
  read_title ending = codes "Failed to read " ++ (kind.title ++ (codes " state" ++ ending))

  -- `Read`; no value: the resource is removed from the state
  abbrev pub read_result : Fallible Text × World → Step (Option (Attr Text)) × World
  read_result (got s, w) = (go (some (known s)), w)
  read_result (failure e, w) =
      if contains (error_text e) (codes "does not exist")
      then (go none, w)
      else (stop (record { summary = read_title []; detail = error_text e } ∷ []), w)

  unfoldable pub read :
      (Attr Text → World → Fallible Text × World) → Attr Text → Act World (Option (Attr Text))
  read read_back state w = read_result (read_back state w)

  -- `Delete`: an error of the stop is a warning in the log
  unfoldable pub delete : (World → Option GoError × World) → Text → Act World (Unit {0})
  delete stop_it d w =
      judge_err h (kind.title ++ codes " Resource Delete Error")
        (λ e.
          codes "Can't delete " ++ (kind.title ++ (codes " resource directory: " ++ error_text e)))
        (remove d (stop_it w).1)

  module _ (start_it stop_it : World → Option GoError × World)
      (read_back : Attr Text → World → Fallible Text × World) where
    -- the end of `Create`: the state as it is reported
    unfoldable pub finish_create : Attr Text → Act World (Attr Text)
    finish_create state = do
      (if desired_state state =ᵗ running
          then (λ w.
              judge_err h (kind.title ++ codes " Resource Error")
                (λ e. message (codes "start") (codes ": ") ++ error_text e) (start_it w))
          else pure tt)
      (λ w. judge_read (read_title []) (read_back (known (desired_state state)) w))

    -- the start or stop of `Update`
    unfoldable pub change_state : Text → Act World (Unit {0})
    change_state desired w =
        if desired =ᵗ running
        then judge_err h (kind.title ++ codes " Resource Update Error")
            (λ e. message (codes "start") (codes ": ") ++ error_text e) (start_it w)
        else if desired =ᵗ stopped
        then judge_err h (kind.title ++ codes " Resource Update Error")
            (λ e. message (codes "stop") (codes ": ") ++ error_text e) (stop_it w)
        else (go tt, w)

    -- `Update` behind its test of the configuration: the planned and the prior state attribute
    unfoldable pub update_state : Attr Text → Attr Text → Act World (Attr Text)
    unfolding change_state
    update_state plan old = do
      (if same_text plan old then pure tt else change_state (desired_state plan))
      (λ w.
          judge_read (read_title (codes " after update"))
            (read_back (if same_text plan old then plan else known (desired_state plan)) w))
