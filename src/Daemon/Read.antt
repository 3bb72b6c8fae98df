-- ===== src/Daemon/Read.antt =====
-- What the reading of a daemon reports, and what `Create` and `Update` save.
use terraform_provider_zedam.Prelude.{
  Bool, true, false, Option, none, some, ◌≡◌, ◌⊎◌, inl, inr, refl, sym, ap, subst, Bool-cases, ◌∙◌,
}
use terraform_provider_zedam.Prelude.Int.{ℤ}
use terraform_provider_zedam.Text.{Text, codes, ◌=ᵗ◌}
use terraform_provider_zedam.GoError.{GoError}
use terraform_provider_zedam.Exec.{Host, Fallible, got, failure}
use terraform_provider_zedam.Exec.Act.{go, next_go}
use terraform_provider_zedam.Attr.{Attr, known}
use terraform_provider_zedam.Daemon.Handlers.{
  same_text, judge_read, read_title, update_state, change_state,
}
use terraform_provider_zedam.Daemon.{
  Kind, running, stopped, desired_state, is_alive, read_pid, reconciled, reconcile, after_stat,
  read_daemon,
}

-- The states that the schema admits.
abbrev pub IsState : Text → Type 0
IsState s = (s ≡ running) ⊎ (s ≡ stopped)

module _ (h : Host) (kind : Kind) where
  open h use {World, stat, is_not_exist}

  reconciled_lem :
      (verb actual s : Text) (r : Option GoError × World) (w' : World)
      → reconciled h kind verb actual r ≡ (got s, w')
      → s ≡ actual
  reconciled_lem verb actual s (none, w) w' e = sym (cc e)
  reconciled_lem verb actual s (some x, w) w' e = absurd (cc e)

  module _ (d : Text) (start_it stop_it : World → Option GoError × World) where
    reconcile-desired :
        (desired s : Text) (p : Fallible (Bool × ℤ)) (w w' : World)
        → IsState desired
        → reconcile h kind d start_it stop_it desired (p, w) ≡ (got s, w')
        → s ≡ desired
    unfolding reconcile ◌=ᵗ◌
    reconcile-desired desired s p w w' (inl e) = elim (Bool-cases (is_alive h p)) [
      | inl y ↦ rw (y, reconcile) (rw e (λ q. sym (cc q)))
      | inr n ↦
          rw (n, reconcile)
            (rw e (λ q. reconciled_lem (codes "restart") running s (start_it w) w' q))
    ]
    reconcile-desired desired s p w w' (inr e) = elim (Bool-cases (is_alive h p)) [
      | inl y ↦
          rw (y, reconcile) (rw e (λ q. reconciled_lem (codes "stop") stopped s (stop_it w) w' q))
      | inr n ↦ rw (n, reconcile) (rw e (λ q. sym (cc q)))
    ]

    after_stat_lem :
        (state : Attr Text) (s : Text) (r : Option GoError × World) (w' : World)
        → IsState (desired_state state)
        → after_stat h kind d start_it stop_it state r ≡ (got s, w')
        → s ≡ desired_state state
    after_stat_lem state s (none, w) w' hs =
        reconcile-desired (desired_state state) s (read_pid h d w).0 (read_pid h d w).1 w' hs
    after_stat_lem state s (some x, w) w' hs = elim (Bool-cases (is_not_exist x)) [
      | inl y ↦ rw y (λ e. absurd (cc e))
      | inr n ↦
          rw n
            (reconcile-desired (desired_state state) s (read_pid h d w).0 (read_pid h d w).1 w' hs)
    ]

    -- For a resource whose desired state is one of the two, reading either fails or reports that
    -- state, never the other one.
    pub read_daemon-desired :
        (state : Attr Text) (s : Text) (w w' : World)
        → IsState (desired_state state)
        → read_daemon h kind d start_it stop_it state w ≡ (got s, w')
        → s ≡ desired_state state
    unfolding read_daemon
    read_daemon-desired state s w w' hs = after_stat_lem state s (stat d w) w' hs

    steady_lem :
        (desired : Text) (p : Fallible (Bool × ℤ)) (w : World)
        → IsState desired
        → is_alive h p ≡ (desired =ᵗ running)
        → reconcile h kind d start_it stop_it desired (p, w) ≡ (got desired, w)
    unfolding ◌=ᵗ◌ reconcile
    steady_lem desired p w (inl e) alive =
        let up : is_alive h p ≡ true = alive ∙ rw e refl in rw (up, reconcile) (rw e refl)
    steady_lem desired p w (inr e) alive =
        let down : is_alive h p ≡ false = alive ∙ rw e refl in rw (down, reconcile) (rw e refl)

    -- If the directory is there and the daemon is found as desired, which is one of the two states,
    -- then reading gives the desired state, and nothing is started or stopped: only the directory and
    -- the process were looked at.
    pub read_daemon_steady :
        (state : Attr Text) (w : World)
        → IsState (desired_state state)
        → (stat d w).0 ≡ none
        → is_alive h (read_pid h d (stat d w).1).0 ≡ (desired_state state =ᵗ running)
        → read_daemon h kind d start_it stop_it state w
          ≡ (got (desired_state state), (read_pid h d (stat d w).1).1)
    unfolding read_daemon
    read_daemon_steady state w hs there alive = rw there (
        steady_lem (desired_state state) (read_pid h d (stat d w).1).0 (read_pid h d (stat d w).1).1
          hs alive)

desired_known : (s : Text) → IsState s → desired_state (known s) ≡ s
desired_known s (inl e) = rw e refl
desired_known s (inr e) = rw e refl

module _ (h : Host) (kind : Kind) (d : Text) where
  open h use {World}

  judged :
      (title s : Text) (v : Attr Text) (r : Fallible Text × World) (w' : World)
      → ((t : Text) (w1 : World) → r ≡ (got t, w1) → t ≡ s)
      → judge_read h kind title r ≡ (go v, w')
      → v ≡ known s
  judged title s v (got t, w) w' is_s e = sym (cc e) ∙ ap known (is_s t w refl)
  judged title s v (failure x, w) w' is_s e = absurd (cc e)

  module _ (start_it stop_it : World → Option GoError × World) where
    judge_read_lem :
        (title : Text) (state v : Attr Text) (w w' : World)
        → IsState (desired_state state)
        → judge_read h kind title (read_daemon h kind d start_it stop_it state w) ≡ (go v, w')
        → v ≡ known (desired_state state)
    judge_read_lem title state v w w' hs =
        judged title (desired_state state) v (read_daemon h kind d start_it stop_it state w) w'
          (λ s w1 r. read_daemon-desired h kind d start_it stop_it state s w w1 hs r)

    known_lem :
        (title : Text) (plan v : Attr Text) (w w' : World)
        → IsState (desired_state plan)
        → judge_read h kind title
            (read_daemon h kind d start_it stop_it (known (desired_state plan)) w)
          ≡ (go v, w')
        → v ≡ known (desired_state plan)
    known_lem title plan v w w' hs e =
        let same : desired_state (known (desired_state plan)) ≡ desired_state plan =
          desired_known (desired_state plan) hs in
        judge_read_lem title (known (desired_state plan)) v w w' (subst IsState (sym same) hs) e
        ∙ ap known same

    -- `Update` of a resource whose planned state is one of the two either fails or saves that state,
    -- whether the state has changed or not.
    pub update_state-desired :
        (plan old v : Attr Text) (w w' : World)
        → IsState (desired_state plan)
        → update_state h kind start_it stop_it (read_daemon h kind d start_it stop_it) plan old w
          ≡ (go v, w')
        → v ≡ known (desired_state plan)
    unfolding update_state
    update_state-desired plan old v w w' hs = elim (Bool-cases (same_text plan old)) [
      | inl y ↦
          rw y (λ e. judge_read_lem (read_title h kind (codes " after update")) plan v w w' hs e)
      | inr n ↦ rw n (λ e.
          next_go (v ≡ known (desired_state plan))
            (change_state h kind start_it stop_it (read_daemon h kind d start_it stop_it)
              (desired_state plan) w)
            (λ x w2.
              judge_read h kind (read_title h kind (codes " after update"))
                (read_daemon h kind d start_it stop_it (known (desired_state plan)) w2))
            v w' e
            (λ a w1 first r.
              known_lem (read_title h kind (codes " after update")) plan v w1 w' hs r))
    ]
