-- ===== src/InternetMonitor/Update.antt =====
-- The attributes that `Update` of internal/provider/internet_monitor_resource.go saves.
use terraform_provider_zedam.Prelude.{◌≡◌, sym, ap, ◌∙◌, []}
use terraform_provider_zedam.Text.{Text, codes}
use terraform_provider_zedam.Exec.{Host}
use terraform_provider_zedam.Exec.Act.{Act, Step, go, stop, pure, next_go, when-fail, ◌>>=◌}
use terraform_provider_zedam.Attr.{Attr, known, value_string}
use terraform_provider_zedam.IpLink.{ProviderConfig}
use terraform_provider_zedam.Daemon.{desired_state}
use terraform_provider_zedam.Daemon.Handlers.{update_state}
use terraform_provider_zedam.Daemon.Read.{IsState, update_state-desired}
use terraform_provider_zedam.DhcpServer.{recreate}
use terraform_provider_zedam.InternetMonitor.{
  InternetMonitorModel, im_kind, config_changed, resource_dir, start_internet_monitor,
  stop_internet_monitor, read_internet_monitor, keep_files, update,
}

abbrev taken : InternetMonitorModel → Step InternetMonitorModel → InternetMonitorModel
taken d (go m) = m
taken d (stop ds) = d

module _ (h : Host) (conf : ProviderConfig) where
  open h use {World}

  -- An update of a monitor whose planned state is one of the two either fails or saves that state
  -- with the configuration file, the process file and the output file of the prior state, whatever
  -- the plan says of them.
  pub update_keeps :
      (plan state v : InternetMonitorModel) (w w' : World)
      → IsState (desired_state plan.state)
      → update h conf plan state w ≡ (go v, w')
      → (v.state ≡ known (desired_state plan.state))
        × (v.config_file ≡ state.config_file)
        × (v.pid_file ≡ state.pid_file)
        × (v.output_file ≡ state.output_file)
  unfolding update keep_files read_internet_monitor
  update_keeps plan state v w w' hs e =
      let d = resource_dir h conf (value_string state.id) in
      let kept = keep_files h conf plan state in
      let last : Act World (Attr Text) = λ w1.
        update_state h im_kind (start_internet_monitor h conf d kept)
          (stop_internet_monitor h conf d) (read_internet_monitor h conf d kept) plan.state
          state.state w1 in
      let finish : Attr Text → Act World InternetMonitorModel =
        λ s. pure (record kept { state = s }) in
      next_go _ (last w) finish v w'
        (when-fail (config_changed plan state) (codes "InternetMonitor Resource Update Error")
          recreate [] w w' (λ u w1. (last >>= finish) w1) v e)
        (λ s w1 first r.
          let saved_state : s ≡ known (desired_state plan.state) =
            update_state-desired h im_kind d (start_internet_monitor h conf d kept)
              (stop_internet_monitor h conf d) plan.state state.state s w w1 hs first in
          let same : record kept { state = s } ≡ v = ap (λ x. taken plan x.0) r in
          (
            sym (ap (λ z. z.state) same) ∙ saved_state,
            ap (λ z. z.config_file) (sym same),
            ap (λ z. z.pid_file) (sym same),
            ap (λ z. z.output_file) (sym same),
          ))
