-- ===== src/Worker/Executing.antt =====
-- Whatever the driver: `execute` of src/kiroku/worker/scrapli_runner.py, and `_handle` of
-- src/kiroku/worker/runner.py over it.
use bmu.Prelude.{
  String, ◌≡◌, sym, ap, ◌∙◌, true, false, none, List, [], ◌∷◌, ◌++◌, map, arith, ok, inl, inr, ◌↔◌,
  All, Option-cases, Bool-cases, ◌==◌, string_eq,
}
use bmu.Runtime.{Runtime, Row}
use bmu.Settings.{Settings}
use bmu.Parsers.{Engines}
use bmu.Models.Credential.{CredentialMaterial}
use bmu.Jobs.{JobSpec, CommandResult, JobResult}
use bmu.Queue.{Redis, Codec}
use bmu.Dispatch.NewRuns.{IsLog}
use bmu.Worker.{handle}
use bmu.Worker.Handling.{IsKept, handle-added}
use bmu.Worker.Sessions.{Sessions, Outcome, returned, answer, Outcome-cases, Host, IsFresh}
use bmu.Worker.Cli.{succeeded}
use bmu.Worker.Execute.{execute}
use bmu.Worker.Netconf.{run_netconf}
use bmu.Worker.Outcomes.{command_of}
use bmu.Worker.Runs.{not_any, Ran, run_cli-Ran, run_cve_scan-Ran}

module _ (sessions : Sessions) (py : Runtime) (engines : Engines py) (crash_text : String → String)
    (query_cpe : String → sessions.World → Outcome sessions.World (List (Row py)))
    (settings : Settings) where
  execute-Ran :
      (spec : JobSpec) (cred : CredentialMaterial) (host h : Host sessions) (r : JobResult py)
      → spec.driver_kind ≡ "cli"
      → execute sessions py engines crash_text query_cpe settings spec cred host ≡ returned r h
      → Ran sessions py engines crash_text query_cpe spec host h r
  unfolding execute
  execute-Ran spec cred host h r cli eq =
      let over = (string_eq.same_iff spec.driver_kind "cli").1 cli in
      elim (Bool-cases (spec.kind == "cve_scan")) [
        | inl scans ↦
            run_cve_scan-Ran sessions py engines crash_text query_cpe settings spec cred host h r
              (ground (arith, over, scans, eq))
        | inr other ↦
            run_cli-Ran sessions py engines crash_text query_cpe settings spec cred host h r
              (ground (arith, over, other, eq))
      ]

  -- The commands of the results of a job over the command line are the first ones of the job, in
  -- order, and all of them if there is no error; the job succeeds exactly if there is no error and
  -- no command failed.
  pub execute-commands :
      (spec : JobSpec) (cred : CredentialMaterial) (host h : Host sessions) (r : JobResult py)
      → spec.driver_kind ≡ "cli"
      → execute sessions py engines crash_text query_cpe settings spec cred host ≡ returned r h
      → ((unsent : List String) × (map command_of r.command_results ++ unsent ≡ spec.commands)
          × (r.error ≡ none → unsent ≡ []))
        × ((r.success ≡ true)
            ↔ ((r.error ≡ none) × All (λ (c : CommandResult). c.failed ≡ false) r.command_results))
  unfolding succeeded
  execute-commands spec cred host h r cli eq =
      let ran = execute-Ran spec cred host h r cli eq in
      let (unsent, whole, complete) = ran.answers in
      let fine = not_any (λ (c : CommandResult). c.failed) ran.got.cmd_results in
      elim (Option-cases ran.got.raised) [
        | inl quiet ↦ (
          (unsent, ground (arith, whole, ran.results), λ e. complete quiet),
          rw ran.results (ground (arith, quiet, ran.success, ran.error, fine)),
        )
        | inr (e, bad) ↦ (
          (
            unsent,
            ground (arith, whole, ran.results),
            λ x. absurd (ground (arith, ran.error, bad, x)),
          ),
          ground (arith, bad, ran.success, ran.error),
        )
      ]

  -- A job over the command line that returns a result leaves the temporary files as they were.
  pub execute-temp_files :
      (fresh : IsFresh sessions) (spec : JobSpec) (cred : CredentialMaterial)
      (host h : Host sessions) (r : JobResult py)
      → spec.driver_kind ≡ "cli"
      → execute sessions py engines crash_text query_cpe settings spec cred host ≡ returned r h
      → h.temp_files ≡ host.temp_files
  execute-temp_files fresh spec cred host h r cli eq =
      (execute-Ran spec cred host h r cli eq).files fresh

  netconf-run_id :
      (spec : JobSpec) (cred : CredentialMaterial) (host h : Host sessions) (r : JobResult py)
      → run_netconf sessions py engines crash_text settings spec cred host ≡ returned r h
      → r.run_id ≡ spec.run_id
  unfolding run_netconf
  netconf-run_id spec cred host h r eq = ground (arith, eq)

  execute-run_id :
      (spec : JobSpec) (cred : CredentialMaterial) (host : Host sessions) (r : JobResult py)
      → answer (execute sessions py engines crash_text query_cpe settings spec cred host) ≡ ok r
      → r.run_id ≡ spec.run_id
  unfolding execute
  execute-run_id spec cred host r eq =
      elim (Outcome-cases
        (execute sessions py engines crash_text query_cpe settings spec cred host)) [
          | inr (e, h, bad) ↦ absurd (ground (arith, bad, eq))
          | inl (r', h, good) ↦
              let same : r' ≡ r = ground (arith, good, eq) in
              ap (λ (x : JobResult py). x.run_id) (sym same)
              ∙ elim (Bool-cases (spec.driver_kind == "cli")) [
                | inl cli ↦
                    (execute-Ran spec cred host h r'
                      ((string_eq.same_iff spec.driver_kind "cli").0 cli) good).run_id
                | inr other ↦ elim (Bool-cases (spec.driver_kind == "netconf")) [
                  | inl netconf ↦
                      netconf-run_id spec cred host h r' (ground (arith, other, netconf, good))
                  | inr unknown ↦ absurd (ground (arith, other, unknown, good))
                ]
              ]
        ]

  -- When a worker that runs its jobs by `execute` has handled a job, it has added one result to the
  -- result stream and nothing else, and the result is of the job's run, whether the job ran, failed
  -- or raised.
  pub handle-execute :
      (redis : Redis) (log : IsLog redis) (kept : IsKept redis log) (codec : Codec py)
      (host : Host sessions) (now later : String) (s s' : redis.State) (msg_id : String)
      (spec : JobSpec)
      → handle redis settings codec
          (λ spec cred.
            answer (execute sessions py engines crash_text query_cpe settings spec cred host))
          crash_text
          now
          later
          s
          msg_id
          spec
        ≡ ok s'
      → (r : JobResult py) × (r.run_id ≡ spec.run_id)
        × (log.added s' ≡ log.added s ++ (settings.result_stream, codec.dump_result r) ∷ [])
  handle-execute redis log kept codec host now later s s' msg_id spec done =
      handle-added redis log kept settings codec
        (λ spec cred.
          answer (execute sessions py engines crash_text query_cpe settings spec cred host))
        crash_text now later s s' msg_id spec (λ m r ran. execute-run_id spec m host r ran) done
