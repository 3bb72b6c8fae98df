-- ===== src/Radv.antt =====
-- internal/provider/radv_resource.go: the router advertisement daemon of one interface.
use terraform_provider_zedam.Prelude.{
  Bool, true, false, List, [], ◌∷◌, ◌++◌, Option, none, some, if◌then◌else◌, map,
}
use terraform_provider_zedam.Prelude.Int.{ℤ}
use terraform_provider_zedam.Text.{Text, codes, concat, join}
use terraform_provider_zedam.GoError.{GoError, error_text}
use terraform_provider_zedam.Exec.{Host, Fallible, format_int, join_path}
use terraform_provider_zedam.Exec.Act.{Act, pure, ◌>>=◌, ◌>>◌}
use terraform_provider_zedam.Attr.{Attr, known, value_string, value_int64, value_bool, or_default}
use terraform_provider_zedam.IpLink.{ProviderConfig}
use terraform_provider_zedam.Resource.{judge_err, prepare}
use terraform_provider_zedam.Daemon.{
  Kind, self_command, with_flags, start_daemon, stop_daemon, read_daemon,
}
use terraform_provider_zedam.Daemon.Handlers.{finish_create, update_state}
use terraform_provider_zedam.Daemon.Handlers

-- `RADVModel`; of a `RadvRouteModel` its one field
pub record RadvModel : Type 0 where
  pub id : Attr Text
  pub interface : Attr Text
  pub prefix : Attr Text
  pub routes : List (Attr Text)
  pub prefix_on_link : Attr Bool
  pub prefix_autonomous : Attr Bool
  pub prefix_valid_lifetime : Attr ℤ
  pub prefix_preferred_lifetime : Attr ℤ
  pub dns_servers : Attr Text
  pub managed_config : Attr Bool
  pub other_config : Attr Bool
  pub router_lifetime : Attr ℤ
  pub max_interval : Attr ℤ
  pub min_interval : Attr ℤ
  pub hop_limit : Attr ℤ
  pub config_file : Attr Text
  pub pid_file : Attr Text
  pub state : Attr Text

-- how a template prints a truth value
abbrev pub format_bool : Bool → Text
format_bool b = if b then codes "true" else codes "false"

abbrev quote_route : Attr Text → Text
quote_route prefix = codes "\"" ++ (value_string prefix ++ codes "\"")

-- `radvConfigTemplate`, filled in
unfoldable pub radv_config : RadvModel → Text
unfolding concat
radv_config plan = concat (
    codes "# Router Advertisement configuration\ninterface: "
    ∷ value_string plan.interface
    ∷ codes "\nprefix: "
    ∷ value_string plan.prefix
    ∷ codes "\nprefix_on_link: "
    ∷ format_bool (value_bool plan.prefix_on_link)
    ∷ codes "\nprefix_autonomous: "
    ∷ format_bool (value_bool plan.prefix_autonomous)
    ∷ codes "\nprefix_valid_lifetime: "
    ∷ format_int (value_int64 plan.prefix_valid_lifetime)
    ∷ codes "\nprefix_preferred_lifetime: "
    ∷ format_int (value_int64 plan.prefix_preferred_lifetime)
    ∷ codes "\nroutes: ["
    ∷ join (map (λ r. quote_route r) plan.routes) (codes ",")
    ∷ codes "]\ndns_servers: "
    ∷ value_string plan.dns_servers
    ∷ codes "\nmanaged_config: "
    ∷ format_bool (value_bool plan.managed_config)
    ∷ codes "\nother_config: "
    ∷ format_bool (value_bool plan.other_config)
    ∷ codes "\nrouter_lifetime: "
    ∷ format_int (value_int64 plan.router_lifetime)
    ∷ codes "\nmax_interval: "
    ∷ format_int (value_int64 plan.max_interval)
    ∷ codes "\nmin_interval: "
    ∷ format_int (value_int64 plan.min_interval)
    ∷ codes "\nhop_limit: "
    ∷ format_int (value_int64 plan.hop_limit)
    ∷ codes "\n"
    ∷ [])

abbrev radv_kind : Kind
radv_kind = record { title = codes "RADV"; what = codes "RADV daemon" }

module _ (h : Host) (conf : ProviderConfig) where
  open h use {World, open_write, write_out, self_path}

  -- `getResourceDir`
  unfoldable pub resource_dir : Text → Text
  resource_dir id = join_path (join_path conf.lib_path (codes "radv")) id

  -- `startRADV`
  unfoldable pub start_radv : Text → RadvModel → World → Option GoError × World
  start_radv d model w =
      start_daemon h radv_kind d
        (with_flags (self_command conf self_path []) (
          codes "-pid-file"
          ∷ value_string model.pid_file
          ∷ codes "-radv"
          ∷ codes "-radv.wait"
          ∷ codes "-radv.config"
          ∷ value_string model.config_file
          ∷ []))
        w

  -- `stopRADV`
  unfoldable pub stop_radv : Text → World → Option GoError × World
  stop_radv d w = stop_daemon h radv_kind d w

  -- `readRADV`, of a model and of its state attribute as it is then
  unfoldable pub read_radv : Text → RadvModel → Attr Text → World → Fallible Text × World
  read_radv d model state w = read_daemon h radv_kind d (start_radv d model) (stop_radv d) state w

  abbrev radv_error : Text
  radv_error = codes "RADV Resource Error"

  -- the configuration file of `Create`
  unfoldable pub write_config : Text → RadvModel → Act World (Unit {0})
  write_config path plan = do
    (λ w.
        judge_err h radv_error
          (λ e. codes "Can't create file '" ++ (path ++ (codes "': " ++ error_text e)))
          (open_write path 0o644 w))
    (λ w.
        judge_err h radv_error
          (λ e.
            codes "Can't write templated config file '" ++ (path ++ (codes "': " ++ error_text e)))
          (write_out path (radv_config plan) w))

  -- the model of `Create` with what it computes before the daemon comes in
  unfoldable pub with_files : Text → Text → RadvModel → RadvModel
  with_files id d plan = record plan {
    id = known id;
    prefix_on_link = or_default true plan.prefix_on_link;
    prefix_autonomous = or_default true plan.prefix_autonomous;
    managed_config = or_default false plan.managed_config;
    other_config = or_default false plan.other_config;
    config_file = known (join_path d (codes "config.yaml"));
    pid_file = known (join_path d (codes "pid"));
  }

  unfoldable pub create : RadvModel → Act World RadvModel
  unfolding with_files write_config
  create plan = do
    id ← prepare h radv_error (join_path conf.lib_path (codes "radv"))
    let d = resource_dir id
    let model = with_files id d plan
    write_config (join_path d (codes "config.yaml")) model
    state ←
        finish_create h radv_kind (start_radv d model) (stop_radv d) (read_radv d model) plan.state
    pure (record model { state = state })

  abbrev with_state : RadvModel → Option (Attr Text) → Option RadvModel
  with_state model none = none
  with_state model (some s) = some (record model { state = s })

  unfoldable pub read : RadvModel → Act World (Option RadvModel)
  read model = do
    state ←
        Handlers.read h radv_kind (read_radv (resource_dir (value_string model.id)) model)
          model.state
    pure (with_state model state)

  -- there is no test of the configuration: the schema replaces the resource when it changes
  unfoldable pub update : RadvModel → RadvModel → Act World RadvModel
  update plan state = do
    let d = resource_dir (value_string state.id)
    s ←
        update_state h radv_kind (start_radv d plan) (stop_radv d) (read_radv d plan) plan.state
          state.state
    pure (record plan { state = s })

  unfoldable pub delete : RadvModel → Act World (Unit {0})
  delete model =
      let d = resource_dir (value_string model.id) in Handlers.delete h radv_kind (stop_radv d) d
