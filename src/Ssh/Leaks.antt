-- ===== src/Ssh/Leaks.antt =====
-- No connection leaks: what `conn` and `Close` of internal/exec/ssh.go leave open, on every path.
use terraform_provider_zedam.Prelude.{
  List, [], ◌∷◌, ◌++◌, Option, none, some, ◌≡◌, refl, ap, ◌∙◌, sym, subst, append_assoc, ◌⊎◌, inl,
  inr, reverse, Bool-cases,
}
use terraform_provider_zedam.Text.{is_empty}
use terraform_provider_zedam.GoError.{GoError}
use terraform_provider_zedam.ErrChecker.{to_list}
use terraform_provider_zedam.Ssh.{
  Reply, ok, err, SshLib, SshExecutor, close_clients, Dialled, dial, Connected, with_sftp,
  with_request, with_agent, with_dialled, conn_with, conn, close_option, close_all, close_executor,
  first_error,
}
use terraform_provider_zedam.Ssh.Dial.{Grows, IsStack, Dials, close_each_lem, dial_lem}

module _ (lib : SshLib) (opened : lib.World → List lib.Handle) where
  open lib use {World, Handle, Config}

  -- the connections that an executor holds, the latest first
  abbrev pub held : SshExecutor lib → List Handle
  held x = to_list x.sftp ++ (to_list x.client ++ reverse x.jump_clients)

  -- An executor is connected, with both of its clients, or holds nothing.
  abbrev pub IsWhole : SshExecutor lib → Type 0
  IsWhole x =
      ((c : Handle) × (sc : Handle) × (x.client ≡ some c) × (x.sftp ≡ some sc))
      ⊎ ((x.client ≡ none) × (x.sftp ≡ none) × (x.jump_clients ≡ []))

  -- The executor holds all that is open above `s`, and its client if the call succeeded.
  abbrev pub Holds : List Handle → Connected lib → Type 0
  Holds s (ok (client, sc), x, w) =
      (opened w ≡ held x ++ s) × (x.client ≡ some client) × (x.sftp ≡ some sc)
  Holds s (err e, x, w) = (opened w ≡ held x ++ s) × IsWhole x

  module _ (stack : IsStack lib opened) where
    module _ (x : SshExecutor lib) (s : List Handle) (free : held x ≡ []) (whole : IsWhole x) where
      dropped_lem :
          (client : Handle) (jcs : List Handle) (w : World)
          → opened w ≡ client ∷ (reverse jcs ++ s)
          → opened (close_clients lib jcs (lib.close client w).1) ≡ held x ++ s
      unfolding close_clients
      dropped_lem client jcs w h = rw free (
          close_each_lem lib opened stack (reverse jcs) s _
            (stack.close_latest client (reverse jcs ++ s) w h))

      with_sftp_lem :
          (client : Handle) (jcs : List Handle) (r : Reply Handle × World)
          → Grows lib opened (client ∷ (reverse jcs ++ s)) r
          → Holds s (with_sftp lib x client jcs r)
      with_sftp_lem client jcs (err e, w) h = (dropped_lem client jcs w h, whole)
      with_sftp_lem client jcs (ok sc, w) h = (h, refl, refl)

      new_sftp_lem :
          (client : Handle) (jcs : List Handle) (w : World)
          → opened w ≡ client ∷ (reverse jcs ++ s)
          → Holds s (with_sftp lib x client jcs (lib.new_sftp client w))
      new_sftp_lem client jcs w h =
          with_sftp_lem client jcs (lib.new_sftp client w)
            (subst (λ l. Grows lib opened l (lib.new_sftp client w)) h (stack.sftp_grows client w))

      with_request_lem :
          (client : Handle) (jcs : List Handle) (r : Option GoError × World)
          → opened r.1 ≡ client ∷ (reverse jcs ++ s)
          → Holds s (with_request lib x client jcs r)
      with_request_lem client jcs (some e, w) h = (dropped_lem client jcs w h, whole)
      with_request_lem client jcs (none, w) h = new_sftp_lem client jcs w h

      with_agent_lem :
          (client : Handle) (jcs : List Handle) (r : Option GoError × World)
          → opened r.1 ≡ client ∷ (reverse jcs ++ s)
          → Holds s (with_agent lib x client jcs r)
      with_agent_lem client jcs (some e, w) h = (dropped_lem client jcs w h, whole)
      with_agent_lem client jcs (none, w) h =
          with_request_lem client jcs (lib.request_agent_forwarding client w)
            (stack.request_keeps client w ∙ h)

      with_dialled_lem :
          (r : Dialled lib) → Dials lib opened stack s r → Holds s (with_dialled lib x r)
      with_dialled_lem (err e, w) h = (rw free h, whole)
      with_dialled_lem (ok (client, jcs), w) h = elim (Bool-cases (is_empty x.agent_socket)) [
        | inl plain ↦
            (let same : with_dialled lib x (ok (client, jcs), w)
                  ≡ with_sftp lib x client jcs (lib.new_sftp client w) =
                rw (plain, with_dialled) refl in
              subst (λ r. Holds s r) (sym same) (new_sftp_lem client jcs w h))
        | inr agent ↦
            (let call = lib.forward_to_remote client x.agent_socket w in
              let same : with_dialled lib x (ok (client, jcs), w)
                  ≡ with_agent lib x client jcs call =
                rw (agent, with_dialled) refl in
              subst (λ r. Holds s r) (sym same)
                (with_agent_lem client jcs call (stack.forward_keeps client x.agent_socket w ∙ h)))
      ]

    conn_with_lem :
        (x : SshExecutor lib) (s : List Handle) (w : World) (client sftp : Option Handle)
        → x.client ≡ client
        → x.sftp ≡ sftp
        → IsWhole x
        → opened w ≡ held x ++ s
        → Holds s (conn_with lib x client sftp w)
    conn_with_lem x s w (some c) (some sc) qc qs whole h = (h, qc, qs)
    conn_with_lem x s w (some c) none qc qs (inl (c', sc, ec, es)) h = absurd cc
    conn_with_lem x s w (some c) none qc qs (inr (ec, es, ej)) h = absurd cc
    conn_with_lem x s w none sftp qc qs (inl (c, sc, ec, es)) h = absurd cc
    conn_with_lem x s w none sftp qc qs (inr (ec, es, ej)) h =
        let free : held x ≡ [] = rw (ec, es, ej) refl in
        let from : opened w ≡ s = h ∙ ap (λ l. l ++ s) free in
        with_dialled_lem x s free (inr (ec, es, ej)) (dial lib x x.jumps w) (
          subst (λ l. Dials lib opened stack l (dial lib x x.jumps w)) from
            (dial_lem lib opened stack x x.jumps w))

    -- Asking for the connection leaks nothing, with packages that open and close as a stack does. For
    -- an executor that is whole and holds what is open above `s`,
    -- whatever fails on the way (a hop, the target, the agent, the SFTP client), `conn` ends with
    -- an executor that does so too: an error leaves it as it was, with all that was opened closed.
    pub conn-Holds :
        (x : SshExecutor lib) (s : List Handle) (w : World)
        → IsWhole x
        → opened w ≡ held x ++ s
        → Holds s (conn lib x w)
    unfolding conn
    conn-Holds x s w whole h = conn_with_lem x s w x.client x.sftp refl refl whole h

    close_all_lem :
        (e : Option GoError) (cs s : List Handle) (w : World)
        → opened w ≡ cs ++ s
        → opened (close_all lib e cs w).1 ≡ s
    unfolding close_all
    close_all_lem e [] s w h = h
    close_all_lem e (c ∷ cs) s w h =
        let (x, w') = lib.close c w in
        close_all_lem (first_error lib e x) cs s w' (stack.close_latest c (cs ++ s) w h)

    close_option_lem :
        (o : Option Handle) (s : List Handle) (w : World)
        → opened w ≡ to_list o ++ s
        → opened (close_option lib o w).1 ≡ s
    close_option_lem none s w h = h
    close_option_lem (some c) s w h = stack.close_latest c s w h

    -- `Close` closes exactly what the executor holds, the hops after the clients that run through
    -- them, and leaves an executor that holds nothing.
    pub close_executor-frees :
        (x : SshExecutor lib) (s : List Handle) (w : World)
        → opened w ≡ held x ++ s
        → let (e, x', w') = close_executor lib x w in (opened w' ≡ s) × (held x' ≡ []) × IsWhole x'
    unfolding close_executor
    close_executor-frees x s w h =
        let (e1, w1) = close_option lib x.sftp w in
        let (e2, w2) = close_option lib x.client w1 in
        (
          close_all_lem (first_error lib e1 e2) (reverse x.jump_clients) s w2 (
              close_option_lem x.client (reverse x.jump_clients ++ s) w1 (
                close_option_lem x.sftp (to_list x.client ++ (reverse x.jump_clients ++ s)) w (
                  h
                  ∙ (append_assoc (to_list x.sftp) (to_list x.client ++ reverse x.jump_clients) s
                      ∙ ap (λ l. to_list x.sftp ++ l)
                          (append_assoc (to_list x.client) (reverse x.jump_clients) s))))),
          refl,
          inr (refl, refl, refl),
        )
