-- ===== src/Tests/Barrier.antt =====
-- wait_until resources, with durations that are easy to count.
use terraform_provider_zedam.Prelude.{false, [], if◌then◌else◌, refl}
use terraform_provider_zedam.Prelude.Int.{pos}
use terraform_provider_zedam.Text.{Text, codes, ◌=ᵗ◌}
use terraform_provider_zedam.Text.Decimal.{format}
use terraform_provider_zedam.Attr.{null, known}
use terraform_provider_zedam.Resource.{prepare, create_tf_back_pointer, write_pointer}
use terraform_provider_zedam.WaitUntil.{classify_probe, format4, zeros, run_probe}
use terraform_provider_zedam.WaitUntil.Loop.{wait_for_script, loop, round, judge, record_probe}
use terraform_provider_zedam.WaitUntil.Report.{
  TimeLib, duration, wait_until_durations, parse_attr, positive, tail_string,
}
use terraform_provider_zedam.WaitUntil.Handlers.{
  WaitUntilModel, begin_create, create, end_create, resource_dir, resolve_interpreter,
  default_interpreter, write_summary,
}
use terraform_provider_zedam.WaitUntil.Barrier.{Waited, create-Waited}
use terraform_provider_zedam.Tests.{test_conf}
use terraform_provider_zedam.Tests.Waiting.{waiting, at_once}

abbrev test_time : TimeLib
test_time = record {
  parse_duration = λ s. if s =ᵗ codes "15s" then duration (pos 15) else duration (pos 40);
  show = λ d. codes "40s";
  round_second = λ d. d;
  is_cancelled = λ e. false;
}

abbrev test_plan : WaitUntilModel
test_plan = record {
  id = null;
  script = known (codes "curl -sf http://localhost");
  interpreter = null;
  timeout = known (codes "40s");
  interval = null;
  attempt_timeout = null;
  attempts = null;
  elapsed = null;
  stdout = null;
  stderr = null;
  script_path = null;
}

abbrev test_dir : Text
test_dir = codes "/var/lib/zedamigo/wait_until/0a1b2c3d"

abbrev created : WaitUntilModel
created = record test_plan {
  id = known (codes "0a1b2c3d");
  script_path = known (codes "/var/lib/zedamigo/wait_until/0a1b2c3d/wait_until.sh");
  attempts = known 1;
  elapsed = known (codes "40s");
  stdout = known (codes "up");
  stderr = known [];
}

create-Waited_example : Waited waiting at_once test_time test_conf test_plan 4 100 created
unfolding create begin_create prepare create_tf_back_pointer write_pointer resolve_interpreter
    default_interpreter wait_until_durations parse_attr positive ◌=ᵗ◌ resource_dir end_create
    wait_for_script loop round run_probe judge record_probe format4 zeros classify_probe format
    write_summary tail_string
create-Waited_example =
    create-Waited waiting at_once test_time test_conf test_plan 4 100 108 created refl
