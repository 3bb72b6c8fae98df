-- ===== src/InternetMonitor.antt =====
-- internal/provider/internet_monitor_resource.go: the daemon that probes destinations on the
-- internet. The diagnostics of a list of destinations that is unknown, or not of texts, are left
-- out: the schema requires it, and it is known when the resource is applied.
pub mod Update
use terraform_provider_zedam.Prelude.{
  Bool, true, false, ◌&&◌, ◌||◌, not, List, [], ◌∷◌, ◌++◌, Option, none, some, if◌then◌else◌,
}
use terraform_provider_zedam.Prelude.Int.{ℤ}
use terraform_provider_zedam.Text.{Text, codes, concat, is_empty, ◌=ᵗ◌}
use terraform_provider_zedam.GoError.{GoError, errorf, error_text}
use terraform_provider_zedam.Exec.{Host, Fallible, format_int, join_path}
use terraform_provider_zedam.Exec.Act.{Act, fail, pure, when, ◌>>=◌, ◌>>◌}
use terraform_provider_zedam.Attr.{
  Attr, null, unknown, known, value_string, value_int64, value_bool, same_int64, same_bool, equal,
}
use terraform_provider_zedam.IpLink.{ProviderConfig}
use terraform_provider_zedam.Resource.{judge_err, prepare}
use terraform_provider_zedam.Bridge.{netns_of}
use terraform_provider_zedam.Daemon.{
  Kind, self_command, with_flags, start_daemon, stop_daemon, read_daemon,
}
use terraform_provider_zedam.Daemon.Handlers.{same_text, finish_create, update_state}
use terraform_provider_zedam.Daemon.Handlers
use terraform_provider_zedam.Radv.{format_bool}
use terraform_provider_zedam.DhcpServer.{recreate}

-- `InternetMonitorModel`
pub record InternetMonitorModel : Type 0 where
  pub id : Attr Text
  pub destinations : Attr (List Text)
  pub interval : Attr Text
  pub ping_count : Attr ℤ
  pub ping_timeout : Attr Text
  pub dns_timeout : Attr Text
  pub http_timeout : Attr Text
  pub doh_endpoint : Attr Text
  pub flush_every_n : Attr ℤ
  pub privileged_icmp : Attr Bool
  pub output_file : Attr Text
  pub config_file : Attr Text
  pub pid_file : Attr Text
  pub state : Attr Text
  pub netns : Attr Text

-- `extractStringList`
abbrev extract_string_list : Attr (List Text) → List Text
extract_string_list null = []
extract_string_list unknown = []
extract_string_list (known ts) = ts

unfoldable pub same_texts : List Text → List Text → Bool
same_texts [] [] = true
same_texts [] (t ∷ ts) = false
same_texts (s ∷ ss) [] = false
same_texts (s ∷ ss) (t ∷ ts) = s =ᵗ t && same_texts ss ts

-- the entries of the template's `range`
unfoldable pub destination_lines : List Text → Text
destination_lines [] = []
destination_lines (t ∷ ts) = codes "\n  - \"" ++ (t ++ (codes "\"" ++ destination_lines ts))

-- `imConfigTemplateText`, filled in
unfoldable pub im_config : InternetMonitorModel → List Text → Text
unfolding concat destination_lines
im_config plan destinations = concat (
    codes "# Internet monitor configuration (auto-generated)\noutput_file: "
    ∷ value_string plan.output_file
    ∷ codes "\ninterval: \""
    ∷ value_string plan.interval
    ∷ codes "\"\nping_count: "
    ∷ format_int (value_int64 plan.ping_count)
    ∷ codes "\nping_timeout: \""
    ∷ value_string plan.ping_timeout
    ∷ codes "\"\ndns_timeout: \""
    ∷ value_string plan.dns_timeout
    ∷ codes "\"\nhttp_timeout: \""
    ∷ value_string plan.http_timeout
    ∷ codes "\"\ndoh_endpoint: \""
    ∷ value_string plan.doh_endpoint
    ∷ codes "\"\nflush_every_n: "
    ∷ format_int (value_int64 plan.flush_every_n)
    ∷ codes "\nprivileged_icmp: "
    ∷ format_bool (value_bool plan.privileged_icmp)
    ∷ codes "\ndestinations:"
    ∷ destination_lines destinations
    ∷ codes "\n"
    ∷ [])

abbrev im_kind : Kind
im_kind = record { title = codes "InternetMonitor"; what = codes "internet-monitor daemon" }

-- `configChanged` of `Update`
unfoldable pub config_changed : InternetMonitorModel → InternetMonitorModel → Bool
unfolding same_texts
config_changed plan state =
    not (equal (λ s t. same_texts s t) plan.destinations state.destinations)
    || not (same_text plan.interval state.interval)
    || not (same_int64 plan.ping_count state.ping_count)
    || not (same_text plan.ping_timeout state.ping_timeout)
    || not (same_text plan.dns_timeout state.dns_timeout)
    || not (same_text plan.http_timeout state.http_timeout)
    || not (same_text plan.doh_endpoint state.doh_endpoint)
    || not (same_int64 plan.flush_every_n state.flush_every_n)
    || not (same_bool plan.privileged_icmp state.privileged_icmp)
    || not (same_text plan.output_file state.output_file)

module _ (h : Host) (conf : ProviderConfig) where
  open h use {World, open_write, write_out, self_path}

  -- `getResourceDir`
  unfoldable pub resource_dir : Text → Text
  resource_dir id = join_path (join_path conf.lib_path (codes "internet_monitors")) id

  -- `startInternetMonitor`
  unfoldable pub start_internet_monitor :
      Text → InternetMonitorModel → World → Option GoError × World
  start_internet_monitor d model w =
      start_daemon h im_kind d
        (with_flags (self_command conf self_path (netns_of model.netns)) (
          codes "-pid-file"
          ∷ value_string model.pid_file
          ∷ codes "-internet-monitor"
          ∷ codes "-im.config"
          ∷ value_string model.config_file
          ∷ []))
        w

  -- `stopInternetMonitor`
  unfoldable pub stop_internet_monitor : Text → World → Option GoError × World
  stop_internet_monitor d w = stop_daemon h im_kind d w

  -- `readInternetMonitor`, of a model and of its state attribute as it is then
  unfoldable pub read_internet_monitor :
      Text → InternetMonitorModel → Attr Text → World → Fallible Text × World
  read_internet_monitor d model state w =
      read_daemon h im_kind d (start_internet_monitor d model) (stop_internet_monitor d) state w

  abbrev im_error : Text
  im_error = codes "InternetMonitor Resource Error"

  abbrev written : Text → Option GoError × World → Option GoError × World
  written path (none, w) = (none, w)
  written path (some e, w) = (some (errorf (codes "write " ++ (path ++ codes ": ")) e), w)

  abbrev opened : Text → Text → Option GoError × World → Option GoError × World
  opened path content (some e, w) = (some (errorf (codes "create " ++ (path ++ codes ": ")) e), w)
  opened path content (none, w) = written path (write_out path content w)

  -- `writeIMConfig`
  unfoldable pub write_im_config :
      Text → InternetMonitorModel → List Text → World → Option GoError × World
  write_im_config path plan destinations w =
      opened path (im_config plan destinations) (open_write path 0o644 w)

  -- the output file of `Create`
  abbrev or_output : Text → Attr Text → Attr Text
  or_output d file =
      if is_empty (value_string file) then known (join_path d (codes "output.msu.cbor")) else file

  -- the model of `Create` with what it computes before the daemon comes in
  unfoldable pub with_files : Text → Text → InternetMonitorModel → InternetMonitorModel
  with_files id d plan = record plan {
    id = known id;
    output_file = or_output d plan.output_file;
    config_file = known (join_path d (codes "config.yaml"));
    pid_file = known (join_path d (codes "pid"));
  }

  unfoldable pub create : InternetMonitorModel → Act World InternetMonitorModel
  unfolding with_files write_im_config
  create plan = do
    id ← prepare h im_error (join_path conf.lib_path (codes "internet_monitors"))
    let d = resource_dir id
    let model = with_files id d plan
    (λ w.
        judge_err h im_error (λ e. codes "Unable to write config file: " ++ error_text e)
          (write_im_config (join_path d (codes "config.yaml")) model
            (extract_string_list plan.destinations) w))
    state ←
        finish_create h im_kind (start_internet_monitor d model) (stop_internet_monitor d)
          (read_internet_monitor d model) plan.state
    pure (record model { state = state })

  abbrev with_state : InternetMonitorModel → Option (Attr Text) → Option InternetMonitorModel
  with_state model none = none
  with_state model (some s) = some (record model { state = s })

  unfoldable pub read : InternetMonitorModel → Act World (Option InternetMonitorModel)
  read model = do
    state ←
        Handlers.read h im_kind (read_internet_monitor (resource_dir (value_string model.id)) model)
          model.state
    pure (with_state model state)

  -- the computed attributes of the prior state are kept
  unfoldable pub keep_files : InternetMonitorModel → InternetMonitorModel → InternetMonitorModel
  keep_files plan state = record plan {
    config_file = state.config_file;
    pid_file = state.pid_file;
    output_file = state.output_file;
  }

  unfoldable pub update :
      InternetMonitorModel → InternetMonitorModel → Act World InternetMonitorModel
  unfolding keep_files
  update plan state = do
    let d = resource_dir (value_string state.id)
    when (config_changed plan state)
        (fail (codes "InternetMonitor Resource Update Error") recreate [])
    let kept = keep_files plan state
    s ←
        update_state h im_kind (start_internet_monitor d kept) (stop_internet_monitor d)
          (read_internet_monitor d kept) plan.state state.state
    pure (record kept { state = s })

  unfoldable pub delete : InternetMonitorModel → Act World (Unit {0})
  delete model =
      let d = resource_dir (value_string model.id) in
      Handlers.delete h im_kind (stop_internet_monitor d) d
