-- ===== src/Ssh/Dial.antt =====
-- What `dial` of internal/exec/ssh.go leaves open, on every path.
use mathlib.Core.List.{reverse-append}
use terraform_provider_zedam.Prelude.{List, [], ◌∷◌, ◌++◌, ◌≡◌, subst, reverse}
use terraform_provider_zedam.Text.{Text}
use terraform_provider_zedam.Ssh.{
  Reply, ok, err, SshLib, JumpHost, SshExecutor, handshake, over_conn, tunnel, close_each,
  close_clients, Dialled, reached, dial_from, dial,
}

module _ (lib : SshLib) (opened : lib.World → List lib.Handle) where
  open lib use {World, Handle, Config}

  -- A call that opens a connection on top of those that are open, or fails and changes none.
  abbrev pub Grows : List Handle → Reply Handle × World → Type 0
  Grows s (ok c, w) = opened w ≡ c ∷ s
  Grows s (err e, w) = opened w ≡ s

  -- A client in place of its raw connection, or a failure that leaves that open.
  abbrev pub Replaces : Handle → List Handle → Reply Handle × World → Type 0
  Replaces raw s (ok c, w) = opened w ≡ c ∷ s
  Replaces raw s (err e, w) = opened w ≡ raw ∷ s

  -- What the packages document of the connections that they open and close. Those that are open
  -- are listed with the latest first, and closing the latest leaves the others.
  pub record IsStack : Type 0 where
    pub dial_grows : (a : Text) (c : Config) (w : World) → Grows (opened w) (lib.ssh_dial a c w)
    pub through_grows :
        (via : Handle) (a : Text) (w : World) → Grows (opened w) (lib.dial_through via a w)
    pub client_replaces :
        (raw : Handle) (a : Text) (c : Config) (s : List Handle) (w : World)
        → opened w ≡ raw ∷ s
        → Replaces raw s (lib.new_client raw a c w)
    pub sftp_grows : (c : Handle) (w : World) → Grows (opened w) (lib.new_sftp c w)
    pub forward_keeps :
        (c : Handle) (a : Text) (w : World) → opened (lib.forward_to_remote c a w).1 ≡ opened w
    pub request_keeps :
        (c : Handle) (w : World) → opened (lib.request_agent_forwarding c w).1 ≡ opened w
    pub close_latest :
        (c : Handle) (s : List Handle) (w : World) → opened w ≡ c ∷ s → opened (lib.close c w).1 ≡ s

  module _ (stack : IsStack) where
    handshake_lem :
        (raw : Handle) (s : List Handle) (r : Reply Handle × World)
        → Replaces raw s r
        → Grows s (handshake lib raw r)
    handshake_lem raw s (ok c, w) h = h
    handshake_lem raw s (err e, w) h = stack.close_latest raw s w h

    over_conn_lem :
        (a : Text) (c : Config) (s : List Handle) (r : Reply Handle × World)
        → Grows s r
        → Grows s (over_conn lib a c r)
    over_conn_lem a c s (err e, w) h = h
    over_conn_lem a c s (ok raw, w) h =
        handshake_lem raw s (lib.new_client raw a c w) (stack.client_replaces raw a c s w h)

    tunnel_lem :
        (via : Handle) (a : Text) (c : Config) (w : World) → Grows (opened w) (tunnel lib via a c w)
    unfolding tunnel
    tunnel_lem via a c w =
        over_conn_lem a c (opened w) (lib.dial_through via a w) (stack.through_grows via a w)

    pub close_each_lem :
        (cs s : List Handle) (w : World) → opened w ≡ cs ++ s → opened (close_each lib cs w) ≡ s
    unfolding close_each
    close_each_lem [] s w h = h
    close_each_lem (c ∷ cs) s w h =
        close_each_lem cs s (lib.close c w).1 (stack.close_latest c (cs ++ s) w h)

    -- the target's client above those of the hops, or nothing more than before
    abbrev pub Dials : List Handle → Dialled lib → Type 0
    Dials s (ok (t, cs), w) = opened w ≡ t ∷ (reverse cs ++ s)
    Dials s (err e, w) = opened w ≡ s

    reached_lem :
        (cs s : List Handle) (message : Text) (k : Handle → World → Dialled lib)
        (r : Reply Handle × World)
        → Grows (reverse cs ++ s) r
        → ((c : Handle) (w : World) → opened w ≡ c ∷ (reverse cs ++ s) → Dials s (k c w))
        → Dials s (reached lib cs message k r)
    unfolding close_clients
    reached_lem cs s message k (ok c, w) h go_on = go_on c w h
    reached_lem cs s message k (err e, w) h go_on = close_each_lem (reverse cs) s w h

    dial_from_lem :
        (x : SshExecutor lib) (via : Handle) (cs s : List Handle) (hops : List (JumpHost lib))
        (w : World)
        → opened w ≡ reverse cs ++ s
        → Dials s (dial_from lib x via cs hops w)
    unfolding dial_from
    dial_from_lem x via cs s [] w h =
        reached_lem cs s _ _ (tunnel lib via x.addr x.cfg w)
          (subst (λ l. Grows l (tunnel lib via x.addr x.cfg w)) h (tunnel_lem via x.addr x.cfg w))
          (λ c w' q. q)
    dial_from_lem x via cs s (hop ∷ hops) w h =
        let r = tunnel lib via hop.addr hop.client_config w in
        reached_lem cs s _ _ r
          (subst (λ l. Grows l r) h (tunnel_lem via hop.addr hop.client_config w))
          (λ c w' q. dial_from_lem x c (cs ++ c ∷ []) s hops w' (rw (reverse-append cs (c ∷ [])) q))

    pub dial_lem :
        (x : SshExecutor lib) (jumps : List (JumpHost lib)) (w : World)
        → Dials (opened w) (dial lib x jumps w)
    unfolding dial
    dial_lem x [] w =
        reached_lem [] (opened w) _ _ (lib.ssh_dial x.addr x.cfg w)
          (stack.dial_grows x.addr x.cfg w) (λ c w' q. q)
    dial_lem x (first ∷ hops) w =
        reached_lem [] (opened w) _ _ (lib.ssh_dial first.addr first.client_config w)
          (stack.dial_grows first.addr first.client_config w)
          (λ c w' q. dial_from_lem x c (c ∷ []) (opened w) hops w' q)
