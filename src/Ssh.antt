-- ===== src/Ssh.antt =====
-- The connection of internal/exec/ssh.go: `conn`, `dial`, `tunnel`, `closeClients` and `Close` of
-- the SSH executor. The packages ssh and sftp are a parameter. The lock, under which each of these
-- runs, and the keep-alive of a connection are left out.
pub mod Dial
pub mod Leaks
use terraform_provider_zedam.Prelude.{
  ℕ, Bool, true, false, not, List, [], ◌∷◌, ◌++◌, Option, none, some, if◌then◌else◌, reverse,
}
use terraform_provider_zedam.Text.{Text, codes, is_empty}
use terraform_provider_zedam.GoError.{GoError, errorf}

pub data Reply (A : Type 0) : Type 0 where
  ok : A → Reply A
  err : GoError → Reply A

-- What the executor calls of golang.org/x/crypto/ssh and github.com/pkg/sftp. A handle is a raw
-- connection, an SSH client or an SFTP client.
pub record SshLib : Type 1 where
  pub World : Type 0
  pub Handle : Type 0
  pub Config : Type 0
  pub ssh_dial : Text → Config → World → Reply Handle × World
  -- `via.Dial("tcp", addr)`
  pub dial_through : Handle → Text → World → Reply Handle × World
  -- `ssh.NewClientConn` and `ssh.NewClient` on a raw connection
  pub new_client : Handle → Text → Config → World → Reply Handle × World
  pub forward_to_remote : Handle → Text → World → Option GoError × World
  pub request_agent_forwarding : Handle → World → Option GoError × World
  pub new_sftp : Handle → World → Reply Handle × World
  pub close : Handle → World → Option GoError × World

module _ (lib : SshLib) where
  open lib use {
    World, Handle, Config, ssh_dial, dial_through, new_client, forward_to_remote,
    request_agent_forwarding, new_sftp, close,
  }

  -- `JumpHost`
  pub record JumpHost : Type 0 where
    pub addr : Text
    pub client_config : Config

  -- `SSHExecutor`, as far as its connection goes; `is_done` says that the channel is closed.
  pub record SshExecutor : Type 0 where
    pub addr : Text
    pub cfg : Config
    pub jumps : List JumpHost
    pub agent_socket : Text
    pub client : Option Handle
    pub jump_clients : List Handle
    pub sftp : Option Handle
    pub is_done : Bool

  abbrev pub handshake : Handle → Reply Handle × World → Reply Handle × World
  handshake conn (ok c, w) = (ok c, w)
  handshake conn (err e, w) = (err e, (close conn w).1)

  abbrev pub over_conn : Text → Config → Reply Handle × World → Reply Handle × World
  over_conn addr cfg (err e, w) = (err e, w)
  over_conn addr cfg (ok conn, w) = handshake conn (new_client conn addr cfg w)

  -- `tunnel`
  unfoldable pub tunnel : Handle → Text → Config → World → Reply Handle × World
  tunnel via addr cfg w = over_conn addr cfg (dial_through via addr w)

  unfoldable pub close_each : List Handle → World → World
  close_each [] w = w
  close_each (c ∷ cs) w = close_each cs (close c w).1

  -- `closeClients`: the last one first
  unfoldable pub close_clients : List Handle → World → World
  unfolding close_each
  close_clients cs w = close_each (reverse cs) w

  abbrev pub Dialled : Type 0
  Dialled = Reply (Handle × List Handle) × World

  -- the deferred closing, for an error behind the first hop
  abbrev pub give_up : List Handle → Text → GoError → World → Dialled
  give_up cs message e w = (err (errorf message e), close_clients cs w)

  abbrev pub reached :
      List Handle → Text → (Handle → World → Dialled) → Reply Handle × World → Dialled
  reached cs message k (ok c, w) = k c w
  reached cs message k (err e, w) = give_up cs message e w

  -- the hops behind `via`, the last of `cs`, and then the target
  unfoldable pub dial_from : SshExecutor → Handle → List Handle → List JumpHost → World → Dialled
  dial_from x via cs [] w =
      reached cs (codes "ssh dial target " ++ (x.addr ++ codes " via jump host: "))
        (λ target w'. (ok (target, cs), w')) (tunnel via x.addr x.cfg w)
  dial_from x via cs (hop ∷ hops) w =
      reached cs (codes "ssh dial jump host " ++ (hop.addr ++ codes ": "))
        (λ next. dial_from x next (cs ++ next ∷ []) hops) (tunnel via hop.addr hop.client_config w)

  -- `dial`: the target's client and the clients of the hops
  unfoldable pub dial : SshExecutor → List JumpHost → World → Dialled
  unfolding dial_from
  dial x [] w =
      reached [] (codes "ssh dial " ++ (x.addr ++ codes ": ")) (λ client w'. (ok (client, []), w'))
        (ssh_dial x.addr x.cfg w)
  dial x (first ∷ hops) w =
      reached [] (codes "ssh dial jump host " ++ (first.addr ++ codes ": "))
        (λ jc. dial_from x jc (jc ∷ []) hops) (ssh_dial first.addr first.client_config w)

  abbrev pub Connected : Type 0
  Connected = Reply (Handle × Handle) × SshExecutor × World

  -- the client and the clients of the hops are closed, and the error is returned
  abbrev pub drop_clients : SshExecutor → Handle → List Handle → GoError → World → Connected
  drop_clients x client jcs e w = (err e, x, close_clients jcs (close client w).1)

  abbrev pub with_sftp : SshExecutor → Handle → List Handle → Reply Handle × World → Connected
  with_sftp x client jcs (err e, w) = drop_clients x client jcs (errorf (codes "sftp client: ") e) w
  with_sftp x client jcs (ok sc, w) =
      (ok (client, sc), record x { client = some client; jump_clients = jcs; sftp = some sc }, w)

  abbrev pub with_request : SshExecutor → Handle → List Handle → Option GoError × World → Connected
  with_request x client jcs (some e, w) = drop_clients x client jcs e w
  with_request x client jcs (none, w) = with_sftp x client jcs (new_sftp client w)

  abbrev pub with_agent : SshExecutor → Handle → List Handle → Option GoError × World → Connected
  with_agent x client jcs (some e, w) =
      drop_clients x client jcs
        (errorf (codes "can't forward the SSH agent at " ++ (x.agent_socket ++ codes ": ")) e) w
  with_agent x client jcs (none, w) = with_request x client jcs (request_agent_forwarding client w)

  abbrev pub with_dialled : SshExecutor → Dialled → Connected
  with_dialled x (err e, w) = (err e, x, w)
  with_dialled x (ok (client, jcs), w) = elim (is_empty x.agent_socket) [
    | true ↦ with_sftp x client jcs (new_sftp client w)
    | false ↦ with_agent x client jcs (forward_to_remote client x.agent_socket w)
  ]

  abbrev pub conn_with : SshExecutor → Option Handle → Option Handle → World → Connected
  conn_with x (some client) (some sc) w = (ok (client, sc), x, w)
  conn_with x (some client) none w = with_dialled x (dial x x.jumps w)
  conn_with x none sc w = with_dialled x (dial x x.jumps w)

  -- `conn`
  unfoldable pub conn : SshExecutor → World → Connected
  conn x w = conn_with x x.client x.sftp w

  -- the first error of a sequence of calls
  abbrev pub first_error : Option GoError → Option GoError → Option GoError
  first_error none e = e
  first_error (some x) e = some x

  abbrev pub close_option : Option Handle → World → Option GoError × World
  close_option none w = (none, w)
  close_option (some c) w = close c w

  unfoldable pub close_all : Option GoError → List Handle → World → Option GoError × World
  close_all e [] w = (e, w)
  close_all e (c ∷ cs) w = let (x, w') = close c w in close_all (first_error e x) cs w'

  -- `Close`
  unfoldable pub close_executor : SshExecutor → World → Option GoError × SshExecutor × World
  unfolding close_all
  close_executor x w =
      let (e1, w1) = close_option x.sftp w in
      let (e2, w2) = close_option x.client w1 in
      let (e3, w3) = close_all (first_error e1 e2) (reverse x.jump_clients) w2 in
      (e3, record x { client = none; jump_clients = []; sftp = none; is_done = true }, w3)
