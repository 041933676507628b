-- ===== src/Tests/Dispatch.antt =====
-- The theorems on the dispatcher and the scheduler, at concrete inputs.
use bmu.Prelude.{◌+◌, ◌≡◌, ◌↔◌, refl, false, none, some, List, [], ◌∷◌}
use bmu.Prelude.{ok, All, In, Distinct, tally, length, ◌⊎◌, ◌==◌, string_eq}
use bmu.Models.Run.{Run, RunBatch, pending}
use bmu.Models.Schedule.{Schedule}
use bmu.Queue.{job_stream_pressure, publish_job}
use bmu.Models.Job.{kind_value}
use bmu.Jobs.{JobSpec}
use bmu.Models.Credential.{provider_value}
use bmu.Credentials.{resolve_credential}
use bmu.Dispatch.Specs.{
  Target, device_group_pairs, target_ids, pool_of, credential_of, default_credential, spec_for,
}
use bmu.Dispatch.Fire.{Fired, count_streams, new_runs, capacity_error, publish_all, fire_job}
use bmu.Dispatch.Targets.{
  Listed, ListedInGroups, Through, device_group_pairs-In, device_group_pairs-Through,
}
use bmu.Dispatch.Tallies.{stream_of}
use bmu.Dispatch.Streams.{HasRoom, capacity_error_iff}
use bmu.Dispatch.Firing.{fire_job-queued}
use bmu.Dispatch.Added.{IsAdded, fire_job-runs}
use bmu.Settings.{Settings}
use bmu.Prelude.{err, String}
use bmu.Scheduler.{next_fire, turn, fire_schedule, fire_due}
use bmu.Scheduler.Ticks.{IsAhead, fire_due_once}
use bmu.Scheduler.Raises.{IsStopped, fire_due-IsStopped}
use bmu.Tests.Values.{
  server, server_log, json, secrets, repr, cron, cron_forward, settings, credential, device_with,
  group, job, schedule_with, db, run_with,
}

abbrev pub nightly : RunBatch
nightly = record {
  id = 1;
  schedule_id = none;
  schedule_name = "nightly";
  kind = "backup";
  total = 2;
  succeeded = 0;
  failed = 1;
  started_at = some 50;
  finished_at = none;
  commit_sha = none;
  created_at = 49;
}

abbrev fired : Fired server settings json secrets repr
fired = fire_job server settings json secrets repr db [] job none none 50 49

fired_example : fired.answer ≡ ok nightly
unfolding fire_job publish_all capacity_error count_streams device_group_pairs job_stream_pressure
    new_runs spec_for credential_of resolve_credential publish_job default_credential kind_value
fired_example = refl

-- No job is let through.
abbrev full : Settings
full = record settings { high_water = 0 }

full_example :
    (fire_job server full json secrets repr db [] job none none 50 49).answer
    ≡ err "name 'log' is not defined"
unfolding fire_job capacity_error count_streams device_group_pairs job_stream_pressure
full_example = refl

fire_job-runs_example :
    ((fired.db ≡ db)
      × (fired.streams ≡ [])
      × (e : String) × (capacity_error server settings json secrets repr []
            (count_streams settings [] (device_group_pairs job))
          ≡ err e)
      × (fired.answer ≡ err e))
    ⊎ ((batch : RunBatch) × (rs : List Run) × (capacity_error server settings json secrets repr []
            (count_streams settings [] (device_group_pairs job))
          ≡ ok none)
        × IsAdded db fired.db job batch rs
        × ((fired.answer ≡ ok batch) ⊎ ((e : String) × (fired.answer ≡ err e))))
fire_job-runs_example = fire_job-runs server settings json secrets repr db [] job none none 50 49

fire_job-queued_example :
    (nightly.total ≡ length (device_group_pairs job))
    × (length fired.streams + nightly.failed ≡ 0 + nightly.total)
fire_job-queued_example =
    fire_job-queued server server_log settings json secrets repr db [] job none none 50 49 nightly
      fired_example

targets_example :
    Distinct (target_ids (device_group_pairs job))
    × (In 2 (target_ids (device_group_pairs job))
        ↔ (ListedInGroups 2 job.device_groups ⊎ Listed 2 job.devices))
targets_example = device_group_pairs-In job 2

paired_example : All (Through job) (device_group_pairs job)
paired_example = device_group_pairs-Through job

abbrev first_target : Target
first_target = (device_with 1 (some credential), some group)

capacity_error_iff_example :
    (capacity_error server settings json secrets repr []
        (count_streams settings [] (device_group_pairs job))
      ≡ ok none)
    ↔ ((t : Target)
        → In t (device_group_pairs job)
        → HasRoom server settings json secrets repr []
            (stream_of settings t)
            (tally (λ x. stream_of settings x == stream_of settings t) (device_group_pairs job)))
capacity_error_iff_example =
    capacity_error_iff server settings json secrets repr [] (device_group_pairs job)

abbrev hourly : Schedule
hourly = schedule_with "0 * * * *" false

tick_example :
    (fire_due cron server settings json secrets repr 120 119 db [] (hourly ∷ [])).raised ≡ none
unfolding fire_due turn next_fire fire_schedule
tick_example = refl

fire_due_once_example :
    let t = fire_due cron server settings json secrets repr 120 119 db [] (hourly ∷ []) in
    All (IsAhead 120) t.schedules
    × (fire_due cron server settings json secrets repr 120 121 t.db t.streams t.schedules ≡ record {
      raised = none;
      schedules = t.schedules;
      db = t.db;
      streams = t.streams;
      queued = 0;
    })
fire_due_once_example =
    fire_due_once cron cron_forward server settings json secrets repr 120 119 121 db []
      (hourly ∷ []) tick_example

abbrev stopping : List Schedule
stopping = hourly ∷ schedule_with "bad" false ∷ hourly ∷ []

stopping_example :
    (fire_due cron server settings json secrets repr 120 119 db [] stopping).raised
    ≡ some "bad cron"
unfolding fire_due turn next_fire fire_schedule
stopping_example = refl

fire_due-IsStopped_example :
    (before : List Schedule) × (sched : Schedule) × (rest : List Schedule) × IsStopped cron server
      settings json secrets repr 120 119 db [] stopping before sched rest "bad cron"
fire_due-IsStopped_example =
    fire_due-IsStopped cron server settings json secrets repr 120 119 db [] stopping "bad cron"
      stopping_example

abbrev pub spec : JobSpec
spec = record {
  run_id = 7;
  schedule_id = none;
  device_id = 1;
  device_name = "r1";
  hostname = "10.0.0.1";
  port = none;
  kind = "backup";
  job_id = 9;
  driver_kind = "cli";
  platform = some "cisco_iosxe";
  custom_platform_yaml = none;
  transport = none;
  commands = [];
  rpc = none;
  parser_template_id = none;
  parser_type = none;
  parser_body = none;
  cve_vendor = none;
  cve_product = none;
  connect_timeout = none;
  command_timeout = none;
  worker_pool = none;
  credential = record { provider = "local"; credential_id = 5; ref = none };
  credential_material = some (record {
    username = "admin";
    password = none;
    enable_password = none;
    private_key = none;
    private_key_passphrase = none;
  });
}

spec_example : spec_for secrets none job none first_target (run_with pending) ≡ ok (some spec)
unfolding spec_for credential_of resolve_credential kind_value pool_of provider_value
spec_example = refl
