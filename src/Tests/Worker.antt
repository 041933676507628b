-- ===== src/Tests/Worker.antt =====
-- The theorems on the worker, at concrete inputs.
use bmu.Prelude.{
  ℕ, zero, suc, ◌<◌, ap, ◌+◌, ◌-◌, ◌≡◌, refl, ◌↔◌, String, true, false, Option, none, some, List,
  [], ◌∷◌, ◌++◌, ok, err, map, contains, All, arith, ◌==◌, string_eq, if◌then◌else◌,
}
use bmu.Text.{universal_newlines}
use bmu.Runtime.{Row}
use bmu.Parsers.{Parsed, nothing, listing, dict}
use bmu.Models.Credential.{CredentialMaterial}
use bmu.Prelude.{Result}
use bmu.Jobs.{JobSpec, CommandResult, JobResult}
use bmu.Queue.{value, publish_result, ack_job}
use bmu.Recorder.Store.{stage}
use bmu.Recorder.Persist.{version_of}
use bmu.Worker.{failure_result, result_of, handle}
use bmu.Worker.Handling.{IsKept}
use bmu.Worker.Normalize.{drop_blank_end}
use bmu.Worker.Sessions.{Sessions, Outcome, returned, raising, answer, Host, IsFresh}
use bmu.Worker.Execute.{execute, cpe_of}
use bmu.Worker.Outcomes.{command_of}
use bmu.Worker.Executing.{execute-commands, execute-temp_files, handle-execute}
use bmu.Worker.Backups.{execute-stage}
use bmu.Worker.Scans.{apply_some, execute-version_of}
use bmu.Tests.Values.{python, engine, git, server, server_log, json, repr, settings, memory}
use bmu.Tests.Dispatch.{spec}

kept_value :
    (s s' : List (String × String)) → server.xack s "jobs" "workers" "1-0" ≡ value s' → s' ≡ s
kept_value s s' h = cc

abbrev server_kept : IsKept server server_log
server_kept = record {
  xack_keeps = λ s stream group id s' h. kept_value s s' h;
  xdel_keeps = λ s stream ids s' h. kept_value s s' h;
}

size : String → ℕ
size String.[] = 0
size (String.◌∷◌ c s) = suc (size s)

-- A text of a given size, and a name that is longer than others together.
text_of_size : ℕ → String
text_of_size zero = ""
text_of_size (suc n) = String.◌∷◌ "x" (text_of_size n)

total : List String → ℕ
total [] = 0
total (n ∷ ns) = size n + total ns

longer : List String → String
longer names = text_of_size (suc (total names))

size-text_of_size : (n : ℕ) → size (text_of_size n) ≡ n
unfolding size text_of_size
size-text_of_size zero = refl
size-text_of_size (suc n) = ap suc (size-text_of_size n)

ap_size : (a b : String) → a ≡ b → size a ≡ size b
ap_size a b e = ap size e

too_long : (n : ℕ) (names : List String) → total names < n → contains (text_of_size n) names ≡ false
unfolding total
too_long n [] h = refl
too_long n (m ∷ ms) h = ground (
  arith,
  h,
  too_long n ms,
  string_eq.same_iff (text_of_size n) m,
  ap_size (text_of_size n) m,
  size-text_of_size n,
)

longer_fresh : (names : List String) → contains (longer names) names ≡ false
unfolding longer
longer_fresh names = too_long (suc (total names)) names (omega arith)

-- A device that does not answer the command "reload"; each call takes one tick.
abbrev lab : Sessions
lab = record {
  World = ℕ;
  Driver = String;
  cli = λ config definition. ok definition;
  netconf = λ config. err "no netconf";
  open_session = λ d files w. returned tt (w + 1);
  send_input = λ d raw cmd w.
      if cmd == "reload"
      then raising "TimeoutExceeded" (w + 1)
      else returned (record { result = "show run\r\nhostname r1 \r\n\n"; failed = false }) (w + 1);
  raw_rpc = λ d rpc w. raising "no netconf" w;
  close = λ d w. returned tt (w + 1);
  mkstemp = λ w names. longer names;
  local_definition = λ platform. none;
  now_iso = λ w. "t1";
  elapsed_ms = λ v w. w - v;
}

abbrev lab_fresh : IsFresh lab
lab_fresh = record { fresh = λ w names. longer_fresh names }

abbrev no_feed : String → ℕ → Outcome ℕ (List (Row python))
no_feed cpe w = raising "offline" w

abbrev host : Host lab
host = record { world = 0; temp_files = ("t0", "platform") ∷ [] }

abbrev backup_spec : JobSpec
backup_spec = record spec {
  commands = "show run" ∷ "reload" ∷ "show version" ∷ [];
  custom_platform_yaml = some "prompt";
}

abbrev material : CredentialMaterial
material = record {
  username = "admin";
  password = none;
  enable_password = none;
  private_key = none;
  private_key_passphrase = none;
}

abbrev ran : Outcome (Host lab) (JobResult python)
ran = execute lab python engine repr no_feed settings backup_spec material host

-- The first command was answered, and the second one raised.
abbrev cut_short : JobResult python
cut_short = record {
  run_id = 7;
  device_id = 1;
  device_name = "r1";
  kind = "backup";
  success = false;
  error = some "TimeoutExceeded";
  started_at = "t1";
  finished_at = "t1";
  config_text = some "hostname r1";
  command_results =
      record { command = "show run"; output = "hostname r1"; elapsed_ms = 1; failed = false } ∷ [];
  parsed = nothing;
  parse_error = none;
  parser_template_id = none;
  job_id = some 9;
  cve_entries = [];
  cpe = none;
}

ran_example : ran ≡ returned cut_short (record { world = 3; temp_files = ("t0", "platform") ∷ [] })
unfolding execute drop_blank_end longer universal_newlines text_of_size total size
ran_example = refl

execute-commands_example :
    ((unsent : List String) × (map command_of cut_short.command_results ++ unsent
        ≡ backup_spec.commands)
      × (cut_short.error ≡ none → unsent ≡ []))
    × ((cut_short.success ≡ true) ↔ (
        (cut_short.error ≡ none)
        × All (λ (c : CommandResult). c.failed ≡ false) cut_short.command_results))
execute-commands_example =
    execute-commands lab python engine repr no_feed settings backup_spec material host
      (record { world = 3; temp_files = host.temp_files }) cut_short refl ran_example

execute-temp_files_example : ("t0", "platform") ∷ [] ≡ host.temp_files
execute-temp_files_example =
    execute-temp_files lab python engine repr no_feed settings lab_fresh backup_spec material host
      (record { world = 3; temp_files = ("t0", "platform") ∷ [] }) cut_short refl ran_example

execute-stage_example :
    stage git (stage git memory.store "core" "r1" "hostname r1").store "core" "r1" "hostname r1"
    ≡ record {
      changed = false;
      sha = "hostname r1";
      store = (stage git memory.store "core" "r1" "hostname r1").store;
    }
execute-stage_example =
    execute-stage lab python engine repr no_feed git settings backup_spec material host
      (record { world = 3; temp_files = host.temp_files }) cut_short "hostname r1" "core"
      memory.store refl ran_example refl

abbrev runs_in_lab : JobSpec → CredentialMaterial → Result (JobResult python)
runs_in_lab spec cred = answer (execute lab python engine repr no_feed settings spec cred host)

handled_example :
    handle server settings json runs_in_lab repr "t0" "t2" [] "1-0" backup_spec
    ≡ ok (("results", "r1") ∷ [])
unfolding handle publish_result ack_job result_of failure_result execute
handled_example = refl

handle-execute_example :
    (r : JobResult python) × (r.run_id ≡ 7)
    × (server_log.added (("results", "r1") ∷ []) ≡ [] ++ ("results", json.dump_result r) ∷ [])
handle-execute_example =
    handle-execute lab python engine repr no_feed settings server server_log server_kept json host
      "t0" "t2" [] (("results", "r1") ∷ []) "1-0" backup_spec handled_example

abbrev scan_spec : JobSpec
scan_spec = record spec {
  kind = "cve_scan";
  commands = "show version" ∷ [];
  parser_type = some "textfsm";
  parser_body = some "Value host";
  cve_vendor = some "cisco";
  cve_product = some "ios";
}

abbrev scanned : Outcome (Host lab) (JobResult python)
scanned = execute lab python engine repr no_feed settings scan_spec material host

abbrev found : JobResult python
found = record {
  run_id = 7;
  device_id = 1;
  device_name = "r1";
  kind = "cve_scan";
  success = true;
  error = none;
  started_at = "t1";
  finished_at = "t1";
  config_text = none;
  command_results =
      record {
        command = "show version";
        output = "show run\r\nhostname r1 \r\n\n";
        elapsed_ms = 1;
        failed = false;
      }
      ∷ [];
  parsed = listing (
      dict (("host", "r1") ∷ ("version", "1") ∷ [])
      ∷ dict (("host", "r2") ∷ ("version", "2") ∷ [])
      ∷ []);
  parse_error = none;
  parser_template_id = none;
  job_id = none;
  cve_entries = [];
  cpe = some "cpe:2.3:o:cisco:ios:1:*:*:*:*:*:*:*";
}

abbrev iso : String → Option ℕ
iso s = none

abbrev to_json : Parsed python → String
to_json p = ""

scanned_example : scanned ≡ returned found (record { world = 3; temp_files = host.temp_files })
unfolding execute
scanned_example = refl

execute-version_of_example :
    found.cpe
    ≡ apply_some
        (cpe_of lab python engine repr "cisco" "ios")
        (version_of git python engine iso to_json found.parsed)
execute-version_of_example =
    execute-version_of lab python engine repr no_feed git iso to_json settings scan_spec material
      "cisco" "ios" host (record { world = 3; temp_files = host.temp_files }) found refl refl refl
      refl scanned_example refl
