-- ===== src/Worker/Execute.antt =====
-- `_run_cve_scan` and `execute` of src/kiroku/worker/scrapli_runner.py. `query_cpe` is that of
-- src/kiroku/cve.
use Prim.Native.String.{◌++◌ as ◌<>◌}
use bmu.Prelude.{String, false, Option, none, some}
use bmu.Prelude.{List, [], ◌∷◌, ◌++◌, ok, err, if◌then◌else◌, ◌==◌, string_eq}
use bmu.Runtime.{Runtime, Row, row_get}
use bmu.Settings.{Settings}
use bmu.Parsers.{Item, dict, other, Parsed, nothing, listing, mapping, Engines}
use bmu.Models.Credential.{CredentialMaterial}
use bmu.Jobs.{JobSpec, JobResult}
use bmu.Worker.Sessions.{Sessions, Outcome, returned, raising, Host}
use bmu.Worker.Cli.{or_none, Captured, build_cli_driver, capture, succeeded, parse_outputs, run_cli}
use bmu.Worker.Netconf.{run_netconf}

module _ (sessions : Sessions) (py : Runtime) (engines : Engines py)
    (crash_text : String → String) where
  -- `row.get("version")`, if the row is a dict and the value is true.
  unfoldable pub version_in : Item py → Option String
  unfolding row_get
  version_in (other o) = none
  version_in (dict r) = elim (row_get "version" r) [
    | none ↦ none
    | some v ↦ if py.is_true v then some (py.str v) else none
  ]

  unfoldable pub cpe_of : String → String → String → String
  cpe_of vendor product version =
      "cpe:2.3:o:" <> (vendor <> (":" <> (product <> (":" <> (version <> ":*:*:*:*:*:*:*")))))

  -- The entries, the first name that was asked for, and the world after the queries.
  pub record Scanned : Type 0 where
    pub entries : List (Row py)
    pub first_cpe : Option String
    pub world : sessions.World

  module _ (query_cpe : String → sessions.World → Outcome sessions.World (List (Row py))) where
    -- The loop over the rows; an exception of a query is only logged.
    unfoldable pub query_rows : String → String → List (Item py) → sessions.World → Scanned
    unfolding version_in cpe_of
    query_rows vendor product [] w = record { entries = []; first_cpe = none; world = w }
    query_rows vendor product (row ∷ rows) w = elim (version_in row) [
      | none ↦ query_rows vendor product rows w
      | some version ↦
          let cpe = cpe_of vendor product version in
          elim (query_cpe cpe w) [
            | raising e w' ↦ record (query_rows vendor product rows w') { first_cpe = some cpe }
            | returned found w' ↦
                let rest = query_rows vendor product rows w' in
                record rest { entries = found ++ rest.entries; first_cpe = some cpe }
          ]
    ]

    -- The rows of what was parsed: none if it is false.
    unfoldable pub scan_rows : Parsed py → List (Item py)
    scan_rows nothing = []
    scan_rows (listing items) = items
    scan_rows (mapping []) = []
    scan_rows (mapping (p ∷ ps)) = dict (p ∷ ps) ∷ []

    -- The queries, when there was no error and the job names a product.
    unfoldable pub scan : JobSpec → Captured sessions → Parsed py → Scanned
    unfolding query_rows scan_rows
    scan spec got parsed =
        let idle : Scanned = record { entries = []; first_cpe = none; world = got.world } in
        elim got.raised [
          | some e ↦ idle
          | none ↦ elim (or_none spec.cve_vendor) [
            | none ↦ idle
            | some vendor ↦ elim (or_none spec.cve_product) [
              | none ↦ idle
              | some product ↦ query_rows vendor product (scan_rows parsed) got.world
            ]
          ]
        ]

    unfoldable pub scan_result :
        String → JobSpec → Captured sessions → JobResult py × sessions.World
    unfolding parse_outputs succeeded scan
    scan_result started spec got =
        let parsed : Parsed py =
          elim (parse_outputs sessions py engines crash_text spec got.cmd_results) [
            | ok p ↦ p
            | err e ↦ nothing
          ] in
        let found = scan spec got parsed in
        (
          record {
            run_id = spec.run_id;
            device_id = spec.device_id;
            device_name = spec.device_name;
            kind = spec.kind;
            success = succeeded sessions got;
            error = elim got.raised [ none ↦ none | some e ↦ some (crash_text e) ];
            started_at = started;
            finished_at = sessions.now_iso found.world;
            config_text = none;
            command_results = got.cmd_results;
            parsed = parsed;
            parse_error = none;
            parser_template_id = none;
            job_id = none;
            cve_entries = found.entries;
            cpe = found.first_cpe;
          },
          found.world,
        )

    unfoldable pub run_cve_scan :
        Settings
        → JobSpec
        → CredentialMaterial
        → Host sessions
        → Outcome (Host sessions) (JobResult py)
    unfolding build_cli_driver capture scan_result
    run_cve_scan settings spec cred host =
        let started = sessions.now_iso host.world in
        elim (build_cli_driver sessions settings py spec cred host) [
          | raising e host' ↦ raising e host'
          | returned (driver, temp_path) host' ↦
              let (got, files) = capture sessions py false driver temp_path spec.commands host' in
              let (result, w) = scan_result started spec got in
              returned result (record { world = w; temp_files = files })
        ]

    unfoldable pub execute :
        Settings
        → JobSpec
        → CredentialMaterial
        → Host sessions
        → Outcome (Host sessions) (JobResult py)
    unfolding run_cli run_netconf run_cve_scan
    execute settings spec cred host =
        if spec.driver_kind == "cli"
        then if spec.kind == "cve_scan"
          then run_cve_scan settings spec cred host
          else run_cli sessions py engines crash_text settings spec cred host
        else if spec.driver_kind == "netconf"
        then run_netconf sessions py engines crash_text settings spec cred host
        else raising ("unknown driver kind: " <> spec.driver_kind) host
