-- ===== src/Worker/Cli.antt =====
-- `_build_cli_driver` and `_run_cli` of src/kiroku/worker/scrapli_runner.py. `crash_text` is the
-- text that is made of an exception and its trace.
use Prim.Native.String.{◌++◌ as ◌<>◌}
use bmu.Prelude.{ℕ, String, Bool, false, ◌&&◌, not, Option, none, some, is_some}
use bmu.Prelude.{List, [], ◌∷◌, map, any, Result, ok, err}
use bmu.Prelude.{if◌then◌else◌, ◌==◌, string_eq}
use bmu.Text.{is_empty, truthy, nonempty, decimal, join}
use bmu.Runtime.{Runtime}
use bmu.Settings.{Settings}
use bmu.Parsers.{Parsed, nothing, Engines, parse}
use bmu.Models.Credential.{CredentialMaterial}
use bmu.Jobs.{JobSpec, CommandResult, JobResult}
use bmu.Recorder.Payload.{key_of}
use bmu.Worker.Normalize.{strip_echo, normalize_config}
use bmu.Worker.Sessions.{
  TransportOptions, telnet, bin, SessionConfig, TempFiles, Sessions, Outcome, returned, raising,
  Host, unlink, file_names,
}

-- `number or default`
abbrev pub or_number : Option ℕ → ℕ → ℕ
or_number o default = elim (key_of o) [ none ↦ default | some n ↦ n ]

-- `text or ""`, and `text or None`
abbrev pub or_empty : Option String → String
or_empty o = elim o [ none ↦ "" | some s ↦ s ]

abbrev pub or_none : Option String → Option String
or_none o = elim o [ none ↦ none | some s ↦ nonempty s ]

abbrev given : Option String → String → String
given none default = default
given (some s) default = s

abbrev pub no_platform : String
no_platform = "device has no platform or custom_platform_yaml configured"

-- The SSH binary, with its time limit.
unfoldable pub ssh : Settings → JobSpec → TransportOptions
unfolding decimal
ssh settings spec =
    let connect_timeout = or_number spec.connect_timeout settings.worker_connect_timeout in
    bin false ("-o" ∷ ("ConnectTimeout=" <> decimal connect_timeout) ∷ [])

abbrev is_telnet : Option String → Bool
is_telnet none = false
is_telnet (some t) = t == "telnet"

unfoldable pub cli_config : Settings → JobSpec → CredentialMaterial → SessionConfig
unfolding ssh
cli_config settings spec cred =
    let over_telnet = is_telnet spec.transport in
    record {
      host = spec.hostname;
      port = or_number spec.port (if over_telnet then 23 else 22);
      auth_options = record {
        username = cred.username;
        password = or_empty cred.password;
        private_key_path = or_none cred.private_key;
        private_key_passphrase = or_none cred.private_key_passphrase;
        lookups = elim (or_none cred.enable_password) [
          | none ↦ none
          | some p ↦ some (("enable", p) ∷ [])
        ];
      };
      operation_timeout_s = or_number spec.command_timeout settings.worker_command_timeout;
      transport_options = if over_telnet then telnet else ssh settings spec;
    }

-- All answers of the commands that were sent, and the exception that ended them.
pub record Captured (sessions : Sessions) : Type 0 where
  pub cmd_results : List CommandResult
  pub raised : Option String
  pub world : sessions.World

module _ (sessions : Sessions) where
  -- The definition that the driver is to read, and the temporary file if it is one.
  unfoldable pub definition_of :
      Runtime → JobSpec → Host sessions → Outcome (Host sessions) (String × Option String)
  definition_of py spec host =
      let platform_name = py.lower (or_empty spec.platform) in
      elim (or_none spec.custom_platform_yaml) [
        | some yaml ↦
            let path = sessions.mkstemp host.world (file_names host.temp_files) in
            returned (path, some path) (record host { temp_files = (path, yaml) ∷ host.temp_files })
        | none ↦
            if is_empty platform_name
            then raising no_platform host
            else returned (given (sessions.local_definition platform_name) platform_name, none) host
      ]

  -- `_build_cli_driver`: the driver, and the temporary file that its caller has to delete.
  unfoldable pub build_cli_driver :
      Settings
      → Runtime
      → JobSpec
      → CredentialMaterial
      → Host sessions
      → Outcome (Host sessions) (sessions.Driver × Option String)
  unfolding definition_of cli_config
  build_cli_driver settings py spec cred host = elim (definition_of py spec host) [
    | raising e host' ↦ raising e host'
    | returned (definition, temp_path) host' ↦
        elim (sessions.cli (cli_config settings spec cred) definition) [
          | err e ↦ raising e host'
          | ok driver ↦ returned (driver, temp_path) host'
        ]
  ]

  unfoldable pub drop_temp : Option String → TempFiles → TempFiles
  unfolding unlink
  drop_temp none files = files
  drop_temp (some path) files = unlink path files

  -- The text that is kept of an answer.
  unfoldable pub output_of : Runtime → Bool → String → String → String
  unfolding strip_echo normalize_config
  output_of py backup cmd text = if backup then strip_echo (normalize_config py text) cmd else text

  -- The loop over the commands.
  unfoldable pub send_commands :
      Runtime → Bool → sessions.Driver → List String → sessions.World → Captured sessions
  unfolding output_of
  send_commands py backup driver [] w = record { cmd_results = []; raised = none; world = w }
  send_commands py backup driver (cmd ∷ cmds) w = elim (sessions.send_input driver backup cmd w) [
    | raising e w' ↦ record { cmd_results = []; raised = some e; world = w' }
    | returned resp w' ↦
        let rest = send_commands py backup driver cmds w' in
        let answer : CommandResult = record {
          command = cmd;
          output = output_of py backup cmd resp.result;
          elapsed_ms = sessions.elapsed_ms w w';
          failed = resp.failed;
        } in
        record rest { cmd_results = answer ∷ rest.cmd_results }
  ]

  -- The loop, and the close of the session when no command raised.
  unfoldable pub run_session :
      Runtime → Bool → sessions.Driver → List String → sessions.World → Captured sessions
  unfolding send_commands
  run_session py backup driver commands w =
      let got = send_commands py backup driver commands w in
      elim got.raised [
        | some e ↦ got
        | none ↦ elim (sessions.close driver got.world) [
          | returned u w' ↦ record got { world = w' }
          | raising e w' ↦ record got { raised = some e; world = w' }
        ]
      ]

  -- The try block with its finally: what was captured, and the temporary files then.
  unfoldable pub capture :
      Runtime
      → Bool
      → sessions.Driver
      → Option String
      → List String
      → Host sessions
      → Captured sessions × TempFiles
  unfolding run_session drop_temp
  capture py backup driver temp_path commands host =
      elim (sessions.open_session driver host.temp_files host.world) [
        | raising e w ↦ (
          record { cmd_results = []; raised = some e; world = w },
          drop_temp temp_path host.temp_files,
        )
        | returned u w ↦
            (run_session py backup driver commands w, drop_temp temp_path host.temp_files)
      ]

  -- `"\n".join(c.output for c in cmd_results)`
  unfoldable pub outputs : List CommandResult → String
  unfolding join
  outputs rs = join "\n" (map (λ (c : CommandResult). c.output) rs)

  -- `error is None and not any(c.failed for c in cmd_results)`
  unfoldable pub succeeded : Captured sessions → Bool
  succeeded got =
      not (is_some got.raised) && not (any (λ (c : CommandResult). c.failed) got.cmd_results)

  module _ (py : Runtime) (engines : Engines py) (crash_text : String → String) where
    -- The parser runs on the joined outputs, if there are any.
    unfoldable pub parse_outputs : JobSpec → List CommandResult → Result (Parsed py)
    unfolding parse outputs
    parse_outputs spec [] = ok nothing
    parse_outputs spec (r ∷ rs) =
        if truthy spec.parser_type
        then parse py engines spec.parser_type spec.parser_body (outputs (r ∷ rs))
        else ok nothing

    -- What is returned of a captured session.
    unfoldable pub cli_result : String → JobSpec → Captured sessions → JobResult py
    unfolding parse_outputs outputs succeeded
    cli_result started spec got =
        let parsed : Result (Parsed py) =
          if spec.kind == "collect" then parse_outputs spec got.cmd_results else ok nothing in
        record {
          run_id = spec.run_id;
          device_id = spec.device_id;
          device_name = spec.device_name;
          kind = spec.kind;
          success = succeeded got;
          error = elim got.raised [ none ↦ none | some e ↦ some (crash_text e) ];
          started_at = started;
          finished_at = sessions.now_iso got.world;
          config_text =
              if spec.kind == "backup"
              then elim got.cmd_results [ [] ↦ none | c ∷ cs ↦ some (outputs got.cmd_results) ]
              else none;
          command_results = got.cmd_results;
          parsed = elim parsed [ ok p ↦ p | err e ↦ nothing ];
          parse_error = elim parsed [ ok p ↦ none | err e ↦ some (crash_text e) ];
          parser_template_id = spec.parser_template_id;
          job_id = some spec.job_id;
          cve_entries = [];
          cpe = none;
        }

    unfoldable pub run_cli :
        Settings
        → JobSpec
        → CredentialMaterial
        → Host sessions
        → Outcome (Host sessions) (JobResult py)
    unfolding build_cli_driver capture cli_result
    run_cli settings spec cred host =
        let started = sessions.now_iso host.world in
        elim (build_cli_driver settings py spec cred host) [
          | raising e host' ↦ raising e host'
          | returned (driver, temp_path) host' ↦
              let (got, files) =
                capture py (spec.kind == "backup") driver temp_path spec.commands host' in
              returned (cli_result started spec got)
                (record { world = got.world; temp_files = files })
        ]
