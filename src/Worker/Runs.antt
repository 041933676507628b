-- ===== src/Worker/Runs.antt =====
-- What `execute` of src/kiroku/worker/scrapli_runner.py returns, for each kind of driver.
use bmu.Prelude.{
  String, Bool, ◌≡◌, refl, false, Option, none, some, List, [], ◌∷◌, arith, inl, inr, ◌↔◌, All, any,
  Bool-cases, Result-cases, ◌==◌, string_eq,
}
use bmu.Runtime.{Runtime, Row}
use bmu.Settings.{Settings}
use bmu.Parsers.{Engines}
use bmu.Models.Credential.{CredentialMaterial}
use bmu.Jobs.{JobSpec, JobResult}
use bmu.Worker.Sessions.{Sessions, Outcome, returned, Outcome-cases, Host, IsFresh}
use bmu.Worker.Cli.{
  Captured, definition_of, build_cli_driver, cli_config, drop_temp, capture, cli_result, succeeded,
  run_cli,
}
use bmu.Worker.Execute.{scan_result, run_cve_scan}
use bmu.Worker.Outcomes.{Answers, capture-Answers, capture-files, definition_of-files}

pub not_any :
    {A : Type 0} (p : A → Bool) (xs : List A) → (any p xs ≡ false) ↔ All (λ x. p x ≡ false) xs
not_any p [] = (λ h. tt, λ h. refl)
not_any p (x ∷ xs) = ground (arith, not_any p xs, Bool-cases (p x))

module _ (sessions : Sessions) (py : Runtime) (engines : Engines py) (crash_text : String → String)
    (query_cpe : String → sessions.World → Outcome sessions.World (List (Row py))) where
  -- The result of a session: which one, and what is left of the disk.
  pub record Ran (spec : JobSpec) (host h : Host sessions) (r : JobResult py) : Type 0 where
    pub got : Captured sessions
    pub answers : Answers sessions spec.commands got
    pub files : IsFresh sessions → h.temp_files ≡ host.temp_files
    pub results : r.command_results ≡ got.cmd_results
    pub success : r.success ≡ succeeded sessions got
    pub error : r.error ≡ elim got.raised [ none ↦ none | some e ↦ some (crash_text e) ]
    pub run_id : r.run_id ≡ spec.run_id

  build_cli_driver-files :
      (fresh : IsFresh sessions) (settings : Settings) (spec : JobSpec) (cred : CredentialMaterial)
      (host h : Host sessions) (b : sessions.Driver × Option String)
      → build_cli_driver sessions settings py spec cred host ≡ returned b h
      → drop_temp sessions b.1 h.temp_files ≡ host.temp_files
  unfolding build_cli_driver
  build_cli_driver-files fresh settings spec cred host h b eq =
      elim (Outcome-cases (definition_of sessions py spec host)) [
        | inr (e, h', bad) ↦ absurd (ground (arith, bad, eq))
        | inl (d, h', good) ↦
            elim (Result-cases (sessions.cli (cli_config settings spec cred) d.0)) [
              | inr (e, bad) ↦ absurd (ground (arith, good, bad, eq))
              | inl (driver, made) ↦
                  ground (
                    arith,
                    good,
                    made,
                    eq,
                    definition_of-files sessions fresh py spec host h' d good,
                  )
            ]
      ]

  pub run_cli-Ran :
      (settings : Settings) (spec : JobSpec) (cred : CredentialMaterial) (host h : Host sessions)
      (r : JobResult py)
      → run_cli sessions py engines crash_text settings spec cred host ≡ returned r h
      → Ran spec host h r
  unfolding run_cli cli_result
  run_cli-Ran settings spec cred host h r eq =
      elim (Outcome-cases (build_cli_driver sessions settings py spec cred host)) [
        | inr (e, h', bad) ↦ absurd (ground (arith, bad, eq))
        | inl ((driver, temp), h', good) ↦
            let c = capture sessions py (spec.kind == "backup") driver temp spec.commands h' in
            record {
              got = c.0;
              answers =
                  capture-Answers sessions py (spec.kind == "backup") driver temp spec.commands h';
              files = λ fresh. ground (
                arith,
                good,
                eq,
                capture-files sessions py (spec.kind == "backup") driver temp spec.commands h',
                build_cli_driver-files fresh settings spec cred host h' (driver, temp) good,
              );
              results = ground (arith, good, eq);
              success = ground (arith, good, eq);
              error = ground (arith, good, eq);
              run_id = ground (arith, good, eq);
            }
      ]

  pub run_cve_scan-Ran :
      (settings : Settings) (spec : JobSpec) (cred : CredentialMaterial) (host h : Host sessions)
      (r : JobResult py)
      → run_cve_scan sessions py engines crash_text query_cpe settings spec cred host ≡ returned r h
      → Ran spec host h r
  unfolding run_cve_scan scan_result
  run_cve_scan-Ran settings spec cred host h r eq =
      elim (Outcome-cases (build_cli_driver sessions settings py spec cred host)) [
        | inr (e, h', bad) ↦ absurd (ground (arith, bad, eq))
        | inl ((driver, temp), h', good) ↦
            let c = capture sessions py false driver temp spec.commands h' in
            record {
              got = c.0;
              answers = capture-Answers sessions py false driver temp spec.commands h';
              files = λ fresh. ground (
                arith,
                good,
                eq,
                capture-files sessions py false driver temp spec.commands h',
                build_cli_driver-files fresh settings spec cred host h' (driver, temp) good,
              );
              results = ground (arith, good, eq);
              success = ground (arith, good, eq);
              error = ground (arith, good, eq);
              run_id = ground (arith, good, eq);
            }
      ]
