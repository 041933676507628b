-- ===== src/Worker/Netconf.antt =====
-- `_run_netconf` of src/kiroku/worker/scrapli_runner.py.
use bmu.Prelude.{String, true, false, Option, none, some}
use bmu.Prelude.{[], ok, err, if◌then◌else◌, ◌==◌, string_eq}
use bmu.Text.{truthy}
use bmu.Runtime.{Runtime}
use bmu.Settings.{Settings}
use bmu.Parsers.{Parsed, nothing, Engines, parse}
use bmu.Models.Credential.{CredentialMaterial}
use bmu.Jobs.{JobSpec, JobResult}
use bmu.Worker.Normalize.{normalize_config}
use bmu.Worker.Sessions.{SessionConfig, Sessions, Outcome, returned, raising, Host}
use bmu.Worker.Cli.{or_number, or_empty, or_none, ssh}

abbrev pub no_rpc : String
no_rpc = "netconf profile is missing rpc"

unfoldable pub netconf_config : Settings → JobSpec → CredentialMaterial → SessionConfig
unfolding ssh
netconf_config settings spec cred = record {
  host = spec.hostname;
  port = or_number spec.port 830;
  auth_options = record {
    username = cred.username;
    password = or_empty cred.password;
    private_key_path = none;
    private_key_passphrase = none;
    lookups = none;
  };
  operation_timeout_s = or_number spec.command_timeout settings.worker_command_timeout;
  transport_options = ssh settings spec;
}

module _ (sessions : Sessions) (py : Runtime) (engines : Engines py)
    (crash_text : String → String) where
  -- The XML that came, if it did, and the exception.
  pub record Fetched : Type 0 where
    pub raw_xml : Option String
    pub raised : Option String
    pub world : sessions.World

  -- The call and the close; an exception of the close keeps the XML.
  unfoldable pub fetch_rpc : sessions.Driver → String → sessions.World → Fetched
  unfolding normalize_config
  fetch_rpc driver rpc w = elim (sessions.raw_rpc driver rpc w) [
    | raising e w' ↦ record { raw_xml = none; raised = some e; world = w' }
    | returned result w' ↦ elim (sessions.close driver w') [
      | raising e w'' ↦ record {
        raw_xml = some (normalize_config py result);
        raised = some e;
        world = w'';
      }
      | returned u w'' ↦ record {
        raw_xml = some (normalize_config py result);
        raised = none;
        world = w'';
      }
    ]
  ]

  -- The try block.
  unfoldable pub fetch : Settings → JobSpec → CredentialMaterial → Host sessions → Fetched
  unfolding netconf_config fetch_rpc
  fetch settings spec cred host = elim (sessions.netconf (netconf_config settings spec cred)) [
    | err e ↦ record { raw_xml = none; raised = some e; world = host.world }
    | ok driver ↦ elim (sessions.open_session driver host.temp_files host.world) [
      | raising e w ↦ record { raw_xml = none; raised = some e; world = w }
      | returned u w ↦ elim (or_none spec.rpc) [
        | none ↦ record { raw_xml = none; raised = some no_rpc; world = w }
        | some rpc ↦ fetch_rpc driver rpc w
      ]
    ]
  ]

  -- What the parser makes of the XML; an exception of the parser is only logged.
  unfoldable pub parse_xml : JobSpec → Option String → Parsed py
  unfolding parse
  parse_xml spec raw_xml = elim (or_none raw_xml) [
    | none ↦ nothing
    | some xml ↦
        if truthy spec.parser_type
        then elim (parse py engines spec.parser_type spec.parser_body xml) [
          | ok p ↦ p
          | err e ↦ nothing
        ]
        else nothing
  ]

  unfoldable pub run_netconf :
      Settings
      → JobSpec
      → CredentialMaterial
      → Host sessions
      → Outcome (Host sessions) (JobResult py)
  unfolding fetch parse_xml
  run_netconf settings spec cred host =
      let got = fetch settings spec cred host in
      returned
        (record {
          run_id = spec.run_id;
          device_id = spec.device_id;
          device_name = spec.device_name;
          kind = spec.kind;
          success = elim got.raised [ none ↦ true | some e ↦ false ];
          error = elim got.raised [ none ↦ none | some e ↦ some (crash_text e) ];
          started_at = sessions.now_iso host.world;
          finished_at = sessions.now_iso got.world;
          config_text = if spec.kind == "backup" then got.raw_xml else none;
          command_results = [];
          parsed = parse_xml spec got.raw_xml;
          parse_error = none;
          parser_template_id = spec.parser_template_id;
          job_id = some spec.job_id;
          cve_entries = [];
          cpe = none;
        })
        (record host { world = got.world })
