-- ===== src/DhcpServer/Update.antt =====
-- The attributes that `Update` of internal/provider/dhcp_server_resource.go saves.
use terraform_provider_zedam.Prelude.{Option, none, some, ◌≡◌, sym, ap, ap₂, ◌∙◌, [], ◌∷◌}
use terraform_provider_zedam.Text.{Text, codes, ◌=ᵗ◌}
use terraform_provider_zedam.Exec.{Host, Fallible, got, failure}
use terraform_provider_zedam.GoError.{GoError, error_text}
use terraform_provider_zedam.Resource.{judge_err}
use terraform_provider_zedam.Prelude.{List, ◌++◌, refl}
use terraform_provider_zedam.Exec.Act.{Act, Step, go, stop, pure, next, next_go, when-fail, ◌>>=◌}
use terraform_provider_zedam.Attr.{Attr, known, unknown, value_string}
use terraform_provider_zedam.IpLink.{ProviderConfig}
use terraform_provider_zedam.Bridge.{netns_of}
use terraform_provider_zedam.Daemon.{running, stopped, start_daemon, self_command, with_flags}
use terraform_provider_zedam.Daemon.Handlers.{
  update_state, change_state, judge_read, read_title, message,
}
use terraform_provider_zedam.DhcpServer.{
  DhcpServerModel, PoolModel, dhcp_kind, config_changed, resource_dir, start_dhcp_server,
  stop_dhcp_server, read_dhcp_server, dhcp_update_error, recreate, update_with, update_pools,
  update,
}

abbrev taken : DhcpServerModel → Step DhcpServerModel → DhcpServerModel
taken d (go m) = m
taken d (stop ds) = d

-- The files of the other model.
abbrev pub SameFiles : DhcpServerModel → DhcpServerModel → Type 0
SameFiles plan v =
    (v.config_file ≡ plan.config_file)
    × (v.pid_file ≡ plan.pid_file)
    × (v.leases_file ≡ plan.leases_file)

module _ (h : Host) (conf : ProviderConfig) where
  open h use {World}

  read_after :
      (r : Fallible Text × World) (s : Attr Text) (w' : World)
      → judge_read h dhcp_kind (read_title h dhcp_kind (codes " after update")) r ≡ (go s, w')
      → w' ≡ r.1
  read_after (got t, w) s w' e = ap (λ z. z.1) (sym e)
  read_after (failure x, w) s w' e = absurd (cc e)

  read_behind :
      (r : Option GoError × World) (read_back : World → Fallible Text × World) (s : Attr Text)
      (w' : World)
      → next
          (judge_err h
            (dhcp_kind.title ++ codes " Resource Update Error")
            (λ x. message h dhcp_kind (codes "start") (codes ": ") ++ error_text x)
            r)
          (λ u w1.
            judge_read h dhcp_kind (read_title h dhcp_kind (codes " after update")) (read_back w1))
        ≡ (go s, w')
      → (r.0 ≡ none) × (w' ≡ (read_back r.1).1)
  read_behind (none, w) read_back s w' e = (refl, read_after (read_back w) s w' e)
  read_behind (some x, w) read_back s w' e = absurd (cc e)

  saved :
      (plan v : DhcpServerModel) (s : Attr Text) (w w' : World)
      → pure (record plan { state = s }) w ≡ (go v, w')
      → SameFiles plan v
  saved plan v s w w' e =
      let same : record plan { state = s } ≡ v = ap (λ r. taken plan r.0) e in
      (
        ap (λ z. z.config_file) (sym same),
        ap (λ z. z.pid_file) (sym same),
        ap (λ z. z.leases_file) (sym same),
      )

  update_with-SameFiles :
      (plan state v : DhcpServerModel) (p q : PoolModel) (w w' : World)
      → update_with h conf plan state p q w ≡ (go v, w')
      → SameFiles plan v
  unfolding update_with
  update_with-SameFiles plan state v p q w w' e =
      let d = resource_dir h conf (value_string state.id) in
      let last : Act World (Attr Text) = λ w1.
        update_state h dhcp_kind (start_dhcp_server h conf d plan) (stop_dhcp_server h conf d)
          (read_dhcp_server h conf d plan) plan.state state.state w1 in
      next_go (SameFiles plan v) (last w) (λ s. pure (record plan { state = s })) v w'
        (when-fail (config_changed plan state p q) (dhcp_update_error h conf) recreate [] w w'
          (λ u w1. (last >>= λ s. pure (record plan { state = s })) w1) v e)
        (λ s w1 first r. saved plan v s w1 w' r)

  update_pools-SameFiles :
      (plan state v : DhcpServerModel) (p q : Option PoolModel) (w w' : World)
      → update_pools h conf plan state p q w ≡ (go v, w')
      → SameFiles plan v
  update_pools-SameFiles plan state v none q w w' e = absurd (cc e)
  update_pools-SameFiles plan state v (some p) none w w' e = absurd (cc e)
  update_pools-SameFiles plan state v (some p) (some q) w w' e =
      update_with-SameFiles plan state v p q w w' e

  -- what an update that starts the daemon has done: the start succeeded, and the state was read
  started :
      (start_it stop_it : World → Option GoError × World)
      (read_back : Attr Text → World → Fallible Text × World) (s : Attr Text) (w w' : World)
      → update_state h dhcp_kind start_it stop_it read_back (known running) (known stopped) w
        ≡ (go s, w')
      → ((start_it w).0 ≡ none) × (w' ≡ (read_back (known running) (start_it w).1).1)
  unfolding update_state change_state ◌=ᵗ◌
  started start_it stop_it read_back s w w' e =
      read_behind (start_it w) (λ w1. read_back (known running) w1) s w' e

  -- the command line of a daemon whose two files are the empty text
  abbrev pub command_of : DhcpServerModel → Text × List Text
  command_of plan =
      with_flags (self_command conf h.self_path (netns_of plan.netns))
        (codes "-pid-file" ∷ [] ∷ codes "-dhcp-server" ∷ codes "-ds.config" ∷ [] ∷ [])

  start_unknown :
      (plan : DhcpServerModel) (d : Text) (w : World)
      → plan.config_file ≡ unknown
      → plan.pid_file ≡ unknown
      → start_dhcp_server h conf d plan w ≡ start_daemon h dhcp_kind d (command_of plan) w
  unfolding start_dhcp_server
  start_unknown plan d w hc hp =
      ap₂
        (λ a b.
          start_daemon h dhcp_kind d
            (with_flags (self_command conf h.self_path (netns_of plan.netns)) (
              codes "-pid-file"
              ∷ value_string a
              ∷ codes "-dhcp-server"
              ∷ codes "-ds.config"
              ∷ value_string b
              ∷ []))
            w)
        hp hc

  -- what `update_forgets_files` says of the daemon
  abbrev pub IsStarted : DhcpServerModel → Text → World → World → Type 0
  IsStarted plan d w w' =
      ((start_daemon h dhcp_kind d (command_of plan) w).0 ≡ none)
      × (w'
          ≡ (read_dhcp_server h conf d plan (known running)
              (start_daemon h dhcp_kind d (command_of plan) w).1).1)

  update_with-IsStarted :
      (plan state v : DhcpServerModel) (p q : PoolModel) (w w' : World)
      → plan.config_file ≡ unknown
      → plan.pid_file ≡ unknown
      → plan.state ≡ known running
      → state.state ≡ known stopped
      → update_with h conf plan state p q w ≡ (go v, w')
      → IsStarted plan (resource_dir h conf (value_string state.id)) w w'
  unfolding update_with
  update_with-IsStarted plan state v p q w w' hc hp hs ho e =
      let d = resource_dir h conf (value_string state.id) in
      let last : Attr Text → Attr Text → Act World (Attr Text) = λ a b w1.
        update_state h dhcp_kind (start_dhcp_server h conf d plan) (stop_dhcp_server h conf d)
          (read_dhcp_server h conf d plan) a b w1 in
      next_go (IsStarted plan d w w') (last plan.state state.state w)
        (λ s. pure (record plan { state = s })) v w'
        (when-fail (config_changed plan state p q) (dhcp_update_error h conf) recreate [] w w'
          (λ u w1. (last plan.state state.state >>= λ s. pure (record plan { state = s })) w1) v e)
        (λ s w1 first r.
          let (ok, there) =
            started (start_dhcp_server h conf d plan) (stop_dhcp_server h conf d)
              (read_dhcp_server h conf d plan) s w w1
              (sym (ap₂ (λ a b. last a b w) hs ho) ∙ first) in
          let same = start_unknown plan d w hc hp in
          (
            sym (ap (λ z. z.0) same) ∙ ok,
            sym (ap (λ z. z.1) r)
                ∙ (there ∙ ap (λ z. (read_dhcp_server h conf d plan (known running) z.1).1) same),
          ))

  update_pools-IsStarted :
      (plan state v : DhcpServerModel) (p q : Option PoolModel) (w w' : World)
      → plan.config_file ≡ unknown
      → plan.pid_file ≡ unknown
      → plan.state ≡ known running
      → state.state ≡ known stopped
      → update_pools h conf plan state p q w ≡ (go v, w')
      → IsStarted plan (resource_dir h conf (value_string state.id)) w w'
  update_pools-IsStarted plan state v none q w w' hc hp hs ho e = absurd (cc e)
  update_pools-IsStarted plan state v (some p) none w w' hc hp hs ho e = absurd (cc e)
  update_pools-IsStarted plan state v (some p) (some q) w w' hc hp hs ho e =
      update_with-IsStarted plan state v p q w w' hc hp hs ho e

  -- When the framework plans the files as unknown, as it does for computed attributes without a plan
  -- modifier, an update from the state "stopped" to "running" that goes on saves unknown files, and
  -- the first thing it does is to start the daemon, with success, with the empty text for its process
  -- file and for its configuration; nothing else is done but to read the state behind that.
  pub update_forgets_files :
      (plan state v : DhcpServerModel) (w w' : World)
      → plan.config_file ≡ unknown
      → plan.pid_file ≡ unknown
      → plan.state ≡ known running
      → state.state ≡ known stopped
      → update h conf plan state w ≡ (go v, w')
      → (v.config_file ≡ unknown)
        × (v.pid_file ≡ unknown)
        × IsStarted plan (resource_dir h conf (value_string state.id)) w w'
  unfolding update
  update_forgets_files plan state v w w' hc hp hs ho e =
      let (c, p, l) = update_pools-SameFiles plan state v plan.pool state.pool w w' e in
      (c ∙ hc, p ∙ hp, update_pools-IsStarted plan state v plan.pool state.pool w w' hc hp hs ho e)
