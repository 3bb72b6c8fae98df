-- ===== src/DhcpServer.antt =====
-- internal/provider/dhcp_server_resource.go: the DHCP server of one interface.
pub mod Config
pub mod Update
pub mod Pid
use terraform_provider_zedam.Prelude.{
  ℕ, Bool, true, false, ◌&&◌, ◌||◌, not, ◌==◌, List, [], ◌∷◌, ◌++◌, Option, none, some,
  if◌then◌else◌,
}
use terraform_provider_zedam.Prelude.Int.{ℤ, pos, negsuc}
use terraform_provider_zedam.Text.{Text, codes, concat}
use terraform_provider_zedam.GoError.{GoError, error_text}
use terraform_provider_zedam.Exec.{Host, Fallible, format_int, join_path}
use terraform_provider_zedam.Exec.Act.{Act, fail, pure, when, ◌>>=◌, ◌>>◌}
use terraform_provider_zedam.Attr.{
  Attr, null, unknown, known, value_string, value_int64, same_int64, or_default,
}
use terraform_provider_zedam.IpLink.{ProviderConfig}
use terraform_provider_zedam.Resource.{judge_err, prepare}
use terraform_provider_zedam.Bridge.{netns_of}
use terraform_provider_zedam.Daemon.{
  Kind, self_command, with_flags, start_daemon, stop_daemon, read_daemon,
}
use terraform_provider_zedam.Daemon.Handlers.{same_text, finish_create, update_state}
use terraform_provider_zedam.Daemon.Handlers

-- `DHCPPoolModel`
pub record PoolModel : Type 0 where
  pub start : Attr Text
  pub end : Attr Text

-- `DHCPStaticRouteModel`
pub record StaticRouteModel : Type 0 where
  pub to : Attr Text
  pub via : Attr Text

-- `DHCPServerModel`; `none` for a pool that is nil
pub record DhcpServerModel : Type 0 where
  pub id : Attr Text
  pub interface : Attr Text
  pub server_id : Attr Text
  pub name_server : Attr Text
  pub router : Attr Text
  pub netmask : Attr Text
  pub pool : Option PoolModel
  pub lease_time : Attr ℤ
  pub static_routes : List StaticRouteModel
  pub leases_file : Attr Text
  pub config_file : Attr Text
  pub pid_file : Attr Text
  pub state : Attr Text
  pub netns : Attr Text

-- the loop of `equalStaticRoutes` behind its test of the lengths, which the two last clauses are
unfoldable pub equal_static_routes : List StaticRouteModel → List StaticRouteModel → Bool
equal_static_routes [] [] = true
equal_static_routes [] (s ∷ b) = false
equal_static_routes (r ∷ a) [] = false
equal_static_routes (r ∷ a) (s ∷ b) =
    same_text r.to s.to && same_text r.via s.via && equal_static_routes a b

-- the entries of the template's `range`
unfoldable pub route_lines : List StaticRouteModel → Text
route_lines [] = []
route_lines (r ∷ routes) =
    codes "\n    - staticroute: "
    ++ (value_string r.to ++ (codes "," ++ (value_string r.via ++ route_lines routes)))

-- `dhcpConfigTemplate`, filled in
unfoldable pub dhcp_config : DhcpServerModel → PoolModel → Text
unfolding route_lines concat
dhcp_config plan pool = concat (
    codes "# CoreDHCP config for simple DHCP v4 server for a specific interface.\n"
    ∷ codes "server4:\n  listen:\n    - \"%"
    ∷ value_string plan.interface
    ∷ codes ":67\"\n  plugins:\n    - server_id: "
    ∷ value_string plan.server_id
    ∷ codes "\n    - dns: "
    ∷ value_string plan.name_server
    ∷ codes "\n    - router: "
    ∷ value_string plan.router
    ∷ codes "\n    - netmask: "
    ∷ value_string plan.netmask
    ∷ codes "\n    - range: "
    ∷ value_string plan.leases_file
    ∷ codes " "
    ∷ value_string pool.start
    ∷ codes " "
    ∷ value_string pool.end
    ∷ codes " "
    ∷ format_int (value_int64 plan.lease_time)
    ∷ codes "s"
    ∷ route_lines plan.static_routes
    ∷ codes "\n"
    ∷ [])

abbrev pub dhcp_kind : Kind
dhcp_kind = record { title = codes "DHCPServer"; what = codes "DHCP server" }

abbrev pub same_pool : PoolModel → PoolModel → Bool
same_pool p q = same_text p.start q.start && same_text p.end q.end

abbrev pub recreate : Text
recreate =
    codes
      "Configuration changes require resource recreation. Only the 'state' field can be updated in-place."

-- `configChanged` of `Update`, of the two pools
unfoldable pub config_changed : DhcpServerModel → DhcpServerModel → PoolModel → PoolModel → Bool
config_changed plan state p q =
    not (same_text plan.interface state.interface)
    || not (same_text plan.server_id state.server_id)
    || not (same_text plan.name_server state.name_server)
    || not (same_text plan.router state.router)
    || not (same_text plan.netmask state.netmask)
    || not (same_pool p q)
    || not (same_int64 plan.lease_time state.lease_time)
    || not (equal_static_routes plan.static_routes state.static_routes)

module _ (h : Host) (conf : ProviderConfig) where
  open h use {World, open_write, write_out, self_path}

  -- `getResourceDir`
  unfoldable pub resource_dir : Text → Text
  resource_dir id = join_path (join_path conf.lib_path (codes "dhcp_servers")) id

  -- `startDHCPServer`
  unfoldable pub start_dhcp_server : Text → DhcpServerModel → World → Option GoError × World
  start_dhcp_server d model w =
      start_daemon h dhcp_kind d
        (with_flags (self_command conf self_path (netns_of model.netns)) (
          codes "-pid-file"
          ∷ value_string model.pid_file
          ∷ codes "-dhcp-server"
          ∷ codes "-ds.config"
          ∷ value_string model.config_file
          ∷ []))
        w

  -- `stopDHCPServer`
  unfoldable pub stop_dhcp_server : Text → World → Option GoError × World
  stop_dhcp_server d w = stop_daemon h dhcp_kind d w

  -- `readDHCPServer`, of a model and of its state attribute as it is then
  unfoldable pub read_dhcp_server :
      Text → DhcpServerModel → Attr Text → World → Fallible Text × World
  read_dhcp_server d model state w =
      read_daemon h dhcp_kind d (start_dhcp_server d model) (stop_dhcp_server d) state w

  abbrev pub require_pool : Text → Option PoolModel → Act World PoolModel
  require_pool title none =
      fail title (codes "Pool configuration is required but was not provided") []
  require_pool title (some p) = pure p

  abbrev dhcp_error : Text
  dhcp_error = codes "DHCPServer Resource Error"

  -- the configuration file of `Create`: it is opened first, and filled in once the pool is there
  unfoldable pub write_config : Text → DhcpServerModel → Act World (Unit {0})
  write_config path plan = do
    (λ w.
        judge_err h dhcp_error
          (λ e. codes "Can't create file '" ++ (path ++ (codes "': " ++ error_text e)))
          (open_write path 0o644 w))
    pool ← require_pool dhcp_error plan.pool
    (λ w.
        judge_err h dhcp_error
          (λ e.
            codes "Can't write templated config file '" ++ (path ++ (codes "': " ++ error_text e)))
          (write_out path (dhcp_config plan pool) w))

  -- the model of `Create` with what it computes before the daemon comes in
  unfoldable pub with_files : Text → Text → DhcpServerModel → DhcpServerModel
  with_files id d plan = record plan {
    id = known id;
    config_file = known (join_path d (codes "config.yaml"));
    leases_file = known (join_path d (codes "leases.sqlite3"));
    lease_time = or_default (pos 3600) plan.lease_time;
    pid_file = known (join_path d (codes "pid"));
  }

  unfoldable pub create : DhcpServerModel → Act World DhcpServerModel
  unfolding with_files write_config
  create plan = do
    id ← prepare h dhcp_error (join_path conf.lib_path (codes "dhcp_servers"))
    let d = resource_dir id
    let model = with_files id d plan
    write_config (join_path d (codes "config.yaml")) model
    state ←
        finish_create h dhcp_kind (start_dhcp_server d model) (stop_dhcp_server d)
          (read_dhcp_server d model) plan.state
    pure (record model { state = state })

  abbrev with_state : DhcpServerModel → Option (Attr Text) → Option DhcpServerModel
  with_state model none = none
  with_state model (some s) = some (record model { state = s })

  unfoldable pub read : DhcpServerModel → Act World (Option DhcpServerModel)
  read model = do
    state ←
        Handlers.read h dhcp_kind (read_dhcp_server (resource_dir (value_string model.id)) model)
          model.state
    pure (with_state model state)

  abbrev pub dhcp_update_error : Text
  dhcp_update_error = codes "DHCPServer Resource Update Error"

  -- `Update` of two models whose pools are there
  unfoldable pub update_with :
      DhcpServerModel → DhcpServerModel → PoolModel → PoolModel → Act World DhcpServerModel
  update_with plan state p q = do
    let d = resource_dir (value_string state.id)
    when (config_changed plan state p q) (fail dhcp_update_error recreate [])
    s ←
        update_state h dhcp_kind (start_dhcp_server d plan) (stop_dhcp_server d)
          (read_dhcp_server d plan) plan.state state.state
    pure (record plan { state = s })

  abbrev pub update_pools :
      DhcpServerModel
      → DhcpServerModel
      → Option PoolModel
      → Option PoolModel
      → Act World DhcpServerModel
  update_pools plan state none old =
      fail dhcp_update_error (codes "Pool configuration is required but was not provided") []
  update_pools plan state (some p) none =
      fail dhcp_update_error (codes "Pool configuration is required but was not provided") []
  update_pools plan state (some p) (some q) = update_with plan state p q

  unfoldable pub update : DhcpServerModel → DhcpServerModel → Act World DhcpServerModel
  unfolding update_with
  update plan state = update_pools plan state plan.pool state.pool

  unfoldable pub delete : DhcpServerModel → Act World (Unit {0})
  delete model =
      let d = resource_dir (value_string model.id) in
      Handlers.delete h dhcp_kind (stop_dhcp_server d) d
