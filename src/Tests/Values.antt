-- ===== src/Tests/Values.antt =====
-- Small instances of the parameters, and rows for the examples.
use bmu.Prelude.{
  ℕ, ◌+◌, ◌≡◌, String, Bool, true, false, not, Option, none, some, List, [], ◌∷◌, ◌++◌, arith,
}
use bmu.Prelude.{ok, err, ltb, leb, length, nat_beq, if◌then◌else◌, ◌==◌, string_eq, ◌<◌}
use bmu.Text.{is_empty, has_infix}
use bmu.Runtime.{Runtime}
use bmu.Settings.{Settings}
use bmu.Parsers.{Engines}
use bmu.Models.Credential.{Credential, local}
use bmu.Models.Device.{Device, DeviceGroup}
use bmu.Models.Job.{Job, backup}
use bmu.Models.Run.{Run, RunBatch, RunStatus, pending}
use bmu.Models.Schedule.{Schedule}
use bmu.Models.Compliance.{ComplianceCheck, CompliancePolicy}
use bmu.Credentials.{Secrets}
use bmu.Queue.{Redis, Codec, value}
use bmu.Dispatch.Specs.{Db}
use bmu.Dispatch.NewRuns.{IsLog}
use bmu.Scheduler.{Cron}
use bmu.Scheduler.Ticks.{IsForward}
use bmu.Recorder.Store.{Git}
use bmu.Recorder.State.{Rows, Memory}

-- Objects are texts, and a number is a text of one digit.
abbrev pub python : Runtime
python = record {
  Object = String;
  Float = ℕ;
  text = λ s. s;
  is_text = λ o s. o == s;
  is_none = λ o. false;
  is_true = λ o. not (is_empty o);
  str = λ o. o;
  float = λ o. ok (if o == "1" then some 1 else if o == "2" then some 2 else none);
  feq = nat_beq;
  flt = ltb;
  fle = leb;
  lower = λ s. s;
  re_search = λ pattern s. if pattern == "(" then err "missing )" else ok (has_infix pattern s);
  re_sub = λ pattern replacement s. s;
}

abbrev pub engine : Engines python
engine = record {
  textfsm =
      λ template payload. ok ("host" ∷ "version" ∷ [], ("r1" ∷ "1" ∷ []) ∷ ("r2" ∷ "2" ∷ []) ∷ []);
  ttp = λ template payload. err "no template";
  list_object = λ items. "";
  Pattern = Unit;
  compile = λ template. ok tt;
  match_line = λ p s. none;
  search_line = λ p s. none;
  transform = λ body payload. ok payload;
}

-- A server whose state is the list of what was added.
abbrev pub server : Redis
server = record {
  State = List (String × String);
  xlen = λ s stream. value (length s);
  xinfo_groups = λ s stream. value [];
  xadd = λ s stream body max_len. value ("1-0", s ++ (stream, body) ∷ []);
  xgroup_create = λ s stream group. value s;
  xreadgroup = λ s stream group consumer count. value ([], s);
  xread = λ s stream from count. value [];
  xack = λ s stream group id. value s;
  xdel = λ s stream ids. value s;
  scan = λ s pattern. value [];
}

pub added_once :
    (s : List (String × String)) (stream body id : String) (s' : List (String × String))
    → server.xadd s stream body 0 ≡ value (id, s')
    → s' ≡ s ++ (stream, body) ∷ []
added_once s stream body id s' h = cc

abbrev pub server_log : IsLog server
server_log = record {
  added = λ s. s;
  xadd_adds = λ s stream body max_len id s' h. added_once s stream body id s' h;
}

abbrev pub json : Codec python
json = record {
  dump_spec = λ spec. spec.device_name;
  load_spec = λ s. none;
  dump_result = λ result. result.device_name;
  load_result = λ s. none;
}

abbrev pub secrets : Secrets
secrets = record { decrypt = λ s. ok []; read_secret = λ mount path. ok [] }

abbrev pub repr : String → String
repr s = s

abbrev pub cron : Cron
cron = record {
  Zone = Unit;
  utc = tt;
  zone = λ name. some tt;
  get_next = λ expression z base. if expression == "bad" then err "bad cron" else ok (base + 60);
}

pub get_next-later :
    (expression : String) (base t : ℕ)
    → (if expression == "bad" then err "bad cron" else ok (base + 60)) ≡ ok t
    → base < t
get_next-later expression base t h = ground (arith, h)

abbrev pub cron_forward : IsForward cron
cron_forward = record { later = λ expression z base t h. get_next-later expression base t h }

-- A repository that has something to commit when files were added.
abbrev pub git : Git
git = record {
  Repo = List String;
  index_add = λ repo files paths. paths;
  index_differs = λ repo. leb 1 (length repo);
  index_commit = λ repo message. ("c0ffee", []);
  sha256 = λ s. s;
  is_alnum = λ c. true;
}

abbrev pub settings : Settings
settings = record {
  job_stream = "jobs";
  result_stream = "results";
  job_consumer_group = "workers";
  result_consumer_group = "recorders";
  worker_pool = none;
  stream_max_len = 100;
  high_water = 90;
  result_stream_max_len = 100;
  worker_concurrency = 4;
  recorder_batch_timeout = 3_600;
  worker_connect_timeout = 30;
  worker_command_timeout = 60;
}

abbrev pub credential : Credential
credential = record {
  id = 5;
  name = "lab";
  description = none;
  provider = local;
  encrypted_payload = some "blob";
  ref = none;
  username = some "admin";
  is_default = false;
}

abbrev pub device_with : ℕ → Option Credential → Device
device_with id cred = record {
  id = id;
  name = "r1";
  hostname = "10.0.0.1";
  port = none;
  description = none;
  platform = some "cisco_iosxe";
  custom_platform_id = none;
  custom_platform = none;
  transport = none;
  driver_kind = none;
  connect_timeout = none;
  command_timeout = none;
  credential_id = none;
  credential = cred;
  make = none;
  model = none;
  role = none;
  enabled = true;
  worker_pool = none;
  latest_backup_path = none;
  latest_backup_at = none;
}

abbrev pub group : DeviceGroup
group = record {
  id = 3;
  name = "core";
  description = none;
  default_credential_id = none;
  default_credential = none;
  max_parallel = 5;
  worker_pool = none;
  devices = device_with 1 (some credential) ∷ device_with 2 none ∷ [];
}

-- A backup of a device with a credential and one without; the first is listed twice.
abbrev pub job : Job
job = record {
  id = 9;
  name = "nightly";
  description = none;
  kind = backup;
  commands = none;
  rpc = none;
  parser_template_id = none;
  parser_template = none;
  cve_vendor = none;
  cve_product = none;
  show_on_device = false;
  device_groups = group ∷ [];
  devices = device_with 1 (some credential) ∷ [];
}

abbrev pub check_with : String → String → String → ComplianceCheck
check_with operator expected mode = record {
  id = 1;
  policy_id = 4;
  name = "version";
  field = "version";
  operator = operator;
  expected = some expected;
  mode = mode;
  severity = "warning";
  description = none;
  sort_order = 0;
}

abbrev pub policy_with : List ComplianceCheck → CompliancePolicy
policy_with checks = record {
  id = 4;
  name = "versions";
  description = none;
  parser_type = "textfsm";
  parser_body = "Value host";
  enabled = true;
  auto_evaluate = true;
  checks = checks;
  device_groups = group ∷ [];
  devices = device_with 1 none ∷ [];
}

abbrev pub schedule_with : String → Bool → Schedule
schedule_with expression skip = record {
  id = 6;
  name = "every hour";
  description = none;
  job_id = some 9;
  job = some job;
  cron = expression;
  timezone = "UTC";
  enabled = true;
  skip_next_run = skip;
  last_run_at = none;
  next_run_at = some 100;
}

abbrev pub db : Db
db = record { credentials = []; batches = []; runs = []; next_batch = 1; next_run = 1 }

abbrev pub run_with : RunStatus → Run
run_with status = record {
  id = 7;
  schedule_id = none;
  batch_id = some 2;
  device_id = 1;
  kind = "backup";
  status = status;
  started_at = none;
  finished_at = none;
  commit_sha = none;
  payload_sha256 = none;
  bytes_captured = none;
  error = none;
  parsed_data = none;
  parse_error = none;
  parser_template_id = none;
  job_id = none;
}

abbrev pub batch : RunBatch
batch = record {
  id = 2;
  schedule_id = none;
  schedule_name = "nightly";
  kind = "backup";
  total = 2;
  succeeded = 0;
  failed = 1;
  started_at = some 10;
  finished_at = none;
  commit_sha = none;
  created_at = 10;
}

abbrev pub rows : Rows python
rows = record {
  runs = run_with pending ∷ [];
  batches = batch ∷ [];
  devices = device_with 1 none ∷ [];
  group_names = λ d. "core" ∷ [];
  configs = [];
  scans = [];
  policies = [];
  results = [];
}

abbrev pub memory : Memory git
memory = record { store = record { files = []; repo = [] }; staged = [] }
