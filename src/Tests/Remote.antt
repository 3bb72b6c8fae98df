-- ===== src/Tests/Remote.antt =====
-- A remote target behind two jump hosts, on a library that numbers its connections.
use terraform_provider_zedam.Prelude.{arith}
use terraform_provider_zedam.Prelude.{
  ℕ, Bool, true, false, List, [], ◌∷◌, none, some, if◌then◌else◌, ◌≡◌, refl, length, drop, inr,
}
use terraform_provider_zedam.Text.{codes, ◌=ᵗ◌}
use terraform_provider_zedam.GoError.{new}
use terraform_provider_zedam.Ssh.{Reply, ok, err, SshLib, SshExecutor, conn, close_executor}
use terraform_provider_zedam.Prelude.Int.{pos, is_zero}
use terraform_provider_zedam.Text.{cut}
use terraform_provider_zedam.Attr.{null}
use terraform_provider_zedam.SshConfig.{
  SettingsLib, split_host_port_default, parse_jump_spec, ssh_port,
}
use terraform_provider_zedam.SshConfig.Jump.{parse_jump_spec-user, ssh_port_ne}
use terraform_provider_zedam.Ssh.Dial.{IsStack, Replaces}
use terraform_provider_zedam.Ssh.Leaks.{held, IsWhole, Holds, conn-Holds, close_executor-frees}

-- the world lists the open connections; a target named `down` is not reached
abbrev grow : List ℕ → Reply ℕ × List ℕ
grow w = (ok (length w), length w ∷ w)

abbrev numbered : SshLib
numbered = record {
  World = List ℕ;
  Handle = ℕ;
  Config = Unit;
  ssh_dial = λ a c w. grow w;
  dial_through = λ via a w. grow w;
  new_client = λ raw a c w.
      if a =ᵗ codes "down"
      then (err (new (codes "handshake failed")), w)
      else (ok raw, raw ∷ drop 1 w);
  forward_to_remote = λ c a w. (none, w);
  request_agent_forwarding = λ c w. (none, w);
  new_sftp = λ c w. grow w;
  close = λ c w. (none, drop 1 w);
}

replaces_lem :
    (b : Bool) (raw : ℕ) (s w : List ℕ)
    → w ≡ raw ∷ s
    → Replaces numbered
        (λ w. w)
        raw
        s
        (if b then (err (new (codes "handshake failed")), w) else (ok raw, raw ∷ drop 1 w))
replaces_lem true raw s w h = h
replaces_lem false raw s w h = rw h refl

numbered-IsStack : IsStack numbered (λ w. w)
numbered-IsStack = record {
  dial_grows = λ a c w. refl;
  through_grows = λ via a w. refl;
  client_replaces = λ raw a c s w h. replaces_lem (a =ᵗ codes "down") raw s w h;
  sftp_grows = λ c w. refl;
  forward_keeps = λ c a w. refl;
  request_keeps = λ c w. refl;
  close_latest = λ c s w h. rw h refl;
}

abbrev behind_two : SshExecutor numbered
behind_two = record {
  addr = codes "down";
  cfg = tt;
  jumps =
      record { addr = codes "hop1"; client_config = tt }
      ∷ record { addr = codes "hop2"; client_config = tt }
      ∷ [];
  agent_socket = [];
  client = none;
  jump_clients = [];
  sftp = none;
  is_done = false;
}

-- the target fails behind both hops
conn-Holds_example : Holds numbered (λ w. w) (7 ∷ []) (conn numbered behind_two (7 ∷ []))
conn-Holds_example =
    conn-Holds numbered (λ w. w) numbered-IsStack behind_two (7 ∷ []) (7 ∷ [])
      (inr (refl, refl, refl)) refl

abbrev connected : SshExecutor numbered
connected = record behind_two { client = some 3; jump_clients = 1 ∷ 2 ∷ []; sftp = some 4 }

close_executor-frees_example :
    let (e, x', w') = close_executor numbered connected (4 ∷ 3 ∷ 2 ∷ 1 ∷ 7 ∷ []) in
    (w' ≡ 7 ∷ []) × (held numbered (λ w. w) x' ≡ []) × IsWhole numbered (λ w. w) x'
close_executor-frees_example =
    close_executor-frees numbered (λ w. w) numbered-IsStack connected (7 ∷ [])
      (4 ∷ 3 ∷ 2 ∷ 1 ∷ 7 ∷ []) refl

abbrev test_settings : SettingsLib
test_settings = record {
  getenv = λ name. codes "0";
  to_lower = λ s. s;
  parse_int = λ s. some (pos 0);
  split_host_port =
      λ s. if s =ᵗ codes "bastion:2222" then some (codes "bastion", codes "2222") else none;
}

parse_jump_spec-user_example :
    (parse_jump_spec test_settings (codes "root@bastion:2222")
      ≡ (codes "root", codes "bastion", codes "2222"))
    × ((parse_jump_spec test_settings (codes "bastion:2222")).0 ≡ [])
unfolding split_host_port_default ◌=ᵗ◌ cut parse_jump_spec
parse_jump_spec-user_example =
    parse_jump_spec-user test_settings (codes "root") (codes "bastion:2222") (ground arith)
      (ground arith)

ssh_port_ne_example : is_zero (ssh_port test_settings null (codes "SSH_PORT")) ≡ false
ssh_port_ne_example = ssh_port_ne test_settings null (codes "SSH_PORT")
