-- ===== src/Dhcp6Server.antt =====
-- internal/provider/dhcp6_server_resource.go: the DHCPv6 server of one interface. Its pool is that
-- of the DHCP server.
use terraform_provider_zedam.Prelude.{
  Bool, ◌||◌, not, [], ◌∷◌, ◌++◌, Option, none, some, if◌then◌else◌,
}
use terraform_provider_zedam.Prelude.Int.{ℤ, pos}
use terraform_provider_zedam.Text.{Text, codes, concat, is_empty}
use terraform_provider_zedam.GoError.{GoError, error_text}
use terraform_provider_zedam.Exec.{Host, Fallible, format_int, join_path}
use terraform_provider_zedam.Exec.Act.{Act, fail, pure, when, ◌>>=◌, ◌>>◌}
use terraform_provider_zedam.Attr.{Attr, known, value_string, value_int64, same_int64, or_default}
use terraform_provider_zedam.IpLink.{ProviderConfig}
use terraform_provider_zedam.Resource.{judge_err, prepare}
use terraform_provider_zedam.Daemon.{
  Kind, self_command, with_flags, start_daemon, stop_daemon, read_daemon,
}
use terraform_provider_zedam.Daemon.Handlers.{same_text, finish_create, update_state}
use terraform_provider_zedam.Daemon.Handlers
use terraform_provider_zedam.DhcpServer.{PoolModel, require_pool, same_pool, recreate}

-- `DHCP6ServerModel`
pub record Dhcp6ServerModel : Type 0 where
  pub id : Attr Text
  pub interface : Attr Text
  pub server_id : Attr Text
  pub prefix : Attr Text
  pub name_server : Attr Text
  pub pool : Option PoolModel
  pub lease_time : Attr ℤ
  pub leases_file : Attr Text
  pub config_file : Attr Text
  pub pid_file : Attr Text
  pub state : Attr Text

prefix_line : Text → Text
unfolding concat
prefix_line prefix =
    if is_empty prefix then [] else concat (codes "    - prefix: \"" ∷ prefix ∷ codes "\"" ∷ [])

-- `dhcp6ConfigTemplate`, filled in
unfoldable pub dhcp6_config : Dhcp6ServerModel → PoolModel → Text
unfolding prefix_line concat
dhcp6_config plan pool = concat (
    codes "# CoreDHCP config for simple DHCP v6 server for a specific interface.\n"
    ∷ codes "server6:\n  listen:\n    - \"[ff02::1:2%"
    ∷ value_string plan.interface
    ∷ codes "]\"\n  plugins:\n    # server_id is mandatory for RFC-compliant operation.\n"
    ∷ codes "    # - server_id: <DUID format> <LL address>\n"
    ∷ codes "    # The supported DUID formats are LL and LLT\n    - server_id: LL "
    ∷ value_string plan.server_id
    ∷ codes "\n    - dns: "
    ∷ value_string plan.name_server
    ∷ codes "\n    - range: "
    ∷ value_string plan.leases_file
    ∷ codes " "
    ∷ value_string pool.start
    ∷ codes " "
    ∷ value_string pool.end
    ∷ codes " "
    ∷ format_int (value_int64 plan.lease_time)
    ∷ codes "s\n"
    ∷ prefix_line (value_string plan.prefix)
    ∷ codes "\n"
    ∷ [])

abbrev dhcp6_kind : Kind
dhcp6_kind = record { title = codes "DHCP6Server"; what = codes "DHCPv6 server" }

-- `configChanged` of `Update`, of the two pools
unfoldable pub config_changed : Dhcp6ServerModel → Dhcp6ServerModel → PoolModel → PoolModel → Bool
config_changed plan state p q =
    not (same_text plan.interface state.interface)
    || not (same_text plan.server_id state.server_id)
    || not (same_text plan.prefix state.prefix)
    || not (same_text plan.name_server state.name_server)
    || not (same_pool p q)
    || not (same_int64 plan.lease_time state.lease_time)

module _ (h : Host) (conf : ProviderConfig) where
  open h use {World, open_write, write_out, self_path}

  -- `getResourceDir`
  unfoldable pub resource_dir : Text → Text
  resource_dir id = join_path (join_path conf.lib_path (codes "dhcp6_servers")) id

  -- `startDHCP6Server`
  unfoldable pub start_dhcp6_server : Text → Dhcp6ServerModel → World → Option GoError × World
  start_dhcp6_server d model w =
      start_daemon h dhcp6_kind d
        (with_flags (self_command conf self_path []) (
          codes "-pid-file"
          ∷ value_string model.pid_file
          ∷ codes "-dhcp6-server"
          ∷ codes "-d6s.config"
          ∷ value_string model.config_file
          ∷ []))
        w

  -- `stopDHCP6Server`
  unfoldable pub stop_dhcp6_server : Text → World → Option GoError × World
  stop_dhcp6_server d w = stop_daemon h dhcp6_kind d w

  -- `readDHCP6Server`, of a model and of its state attribute as it is then
  unfoldable pub read_dhcp6_server :
      Text → Dhcp6ServerModel → Attr Text → World → Fallible Text × World
  read_dhcp6_server d model state w =
      read_daemon h dhcp6_kind d (start_dhcp6_server d model) (stop_dhcp6_server d) state w

  abbrev dhcp6_error : Text
  dhcp6_error = codes "DHCP6Server Resource Error"

  -- the configuration file of `Create`: it is opened first, and filled in once the pool is there
  unfoldable pub write_config : Text → Dhcp6ServerModel → Act World (Unit {0})
  write_config path plan = do
    (λ w.
        judge_err h dhcp6_error
          (λ e. codes "Can't create file '" ++ (path ++ (codes "': " ++ error_text e)))
          (open_write path 0o644 w))
    pool ← require_pool h conf dhcp6_error plan.pool
    (λ w.
        judge_err h dhcp6_error
          (λ e.
            codes "Can't write templated config file '" ++ (path ++ (codes "': " ++ error_text e)))
          (write_out path (dhcp6_config plan pool) w))

  -- the model of `Create` with what it computes before the daemon comes in
  unfoldable pub with_files : Text → Text → Dhcp6ServerModel → Dhcp6ServerModel
  with_files id d plan = record plan {
    id = known id;
    config_file = known (join_path d (codes "config.yaml"));
    leases_file = known (join_path d (codes "leases.sqlite3"));
    lease_time = or_default (pos 3600) plan.lease_time;
    pid_file = known (join_path d (codes "pid"));
  }

  unfoldable pub create : Dhcp6ServerModel → Act World Dhcp6ServerModel
  unfolding with_files write_config
  create plan = do
    id ← prepare h dhcp6_error (join_path conf.lib_path (codes "dhcp6_servers"))
    let d = resource_dir id
    let model = with_files id d plan
    write_config (join_path d (codes "config.yaml")) model
    state ←
        finish_create h dhcp6_kind (start_dhcp6_server d model) (stop_dhcp6_server d)
          (read_dhcp6_server d model) plan.state
    pure (record model { state = state })

  abbrev with_state : Dhcp6ServerModel → Option (Attr Text) → Option Dhcp6ServerModel
  with_state model none = none
  with_state model (some s) = some (record model { state = s })

  unfoldable pub read : Dhcp6ServerModel → Act World (Option Dhcp6ServerModel)
  read model = do
    state ←
        Handlers.read h dhcp6_kind (read_dhcp6_server (resource_dir (value_string model.id)) model)
          model.state
    pure (with_state model state)

  abbrev dhcp6_update_error : Text
  dhcp6_update_error = codes "DHCP6Server Resource Update Error"

  -- `Update` of two models whose pools are there
  unfoldable pub update_with :
      Dhcp6ServerModel → Dhcp6ServerModel → PoolModel → PoolModel → Act World Dhcp6ServerModel
  update_with plan state p q = do
    let d = resource_dir (value_string state.id)
    when (config_changed plan state p q) (fail dhcp6_update_error recreate [])
    s ←
        update_state h dhcp6_kind (start_dhcp6_server d plan) (stop_dhcp6_server d)
          (read_dhcp6_server d plan) plan.state state.state
    pure (record plan { state = s })

  abbrev pub update_pools :
      Dhcp6ServerModel
      → Dhcp6ServerModel
      → Option PoolModel
      → Option PoolModel
      → Act World Dhcp6ServerModel
  update_pools plan state none old =
      fail dhcp6_update_error (codes "Pool configuration is required but was not provided") []
  update_pools plan state (some p) none =
      fail dhcp6_update_error (codes "Pool configuration is required but was not provided") []
  update_pools plan state (some p) (some q) = update_with plan state p q

  unfoldable pub update : Dhcp6ServerModel → Dhcp6ServerModel → Act World Dhcp6ServerModel
  unfolding update_with
  update plan state = update_pools plan state plan.pool state.pool

  unfoldable pub delete : Dhcp6ServerModel → Act World (Unit {0})
  delete model =
      let d = resource_dir (value_string model.id) in
      Handlers.delete h dhcp6_kind (stop_dhcp6_server d) d
