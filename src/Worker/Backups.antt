-- ===== src/Worker/Backups.antt =====
-- The text of a backup that `execute` of src/kiroku/worker/scrapli_runner.py returns, and `stage` of
-- src/kiroku/recorder/git_store.py on it.
use bmu.Prelude.{
  String, ◌≡◌, refl, ap, ◌∙◌, subst, true, false, Option, some, List, [], ◌∷◌, map, arith, inl, inr,
  All, Option-cases, Bool-cases, Result-cases, if◌then◌else◌, ◌==◌, string_eq,
}
use bmu.Text.{strip, splitlines, join, universal_newlines}
use bmu.Runtime.{Runtime, Row}
use bmu.Settings.{Settings}
use bmu.Parsers.{Engines}
use bmu.Models.Credential.{CredentialMaterial}
use bmu.Jobs.{JobSpec, CommandResult, JobResult}
use bmu.Recorder.Store.{Git, Store, stage}
use bmu.Recorder.Staging.{stage_again}
use bmu.Worker.Normalize.{strip_echo, normalize_config}
use bmu.Worker.Endings.{
  IsPlain, lines_from-IsPlain, join-IsPlain, normalize_config-IsPlain, newlines_from-IsPlain,
}
use bmu.Worker.Sessions.{Sessions, Outcome, returned, Outcome-cases, Host}
use bmu.Worker.Cli.{
  Captured, build_cli_driver, output_of, send_commands, run_session, capture, outputs, cli_result,
  run_cli,
}
use bmu.Worker.Execute.{execute}
use bmu.Worker.Netconf.{netconf_config, fetch_rpc, fetch, run_netconf}
use bmu.Worker.Cli.{or_none}

strip_echo-IsPlain : (text cmd : String) → IsPlain text → IsPlain (strip_echo text cmd)
unfolding strip_echo splitlines
strip_echo-IsPlain text cmd h = go (splitlines text) (lines_from-IsPlain false text)
  where
    go :
        (ls : List String)
        → All IsPlain ls
        → IsPlain (elim ls [
          | [] ↦ text
          | line ∷ rest ↦ if strip line == strip cmd then join "\n" rest else text
        ])
    go [] ps = h
    go (line ∷ rest) ps = elim (Bool-cases (strip line == strip cmd)) [
      | inl echo ↦ rw echo (join-IsPlain rest ps.1)
      | inr other ↦ rw other h
    ]

-- The texts of a list of results.
abbrev texts_of : List CommandResult → List String
texts_of rs = map (λ (c : CommandResult). c.output) rs

module _ (sessions : Sessions) (py : Runtime) where
  output_of-IsPlain : (cmd text : String) → IsPlain (output_of sessions py true cmd text)
  unfolding output_of
  output_of-IsPlain cmd text =
      strip_echo-IsPlain (normalize_config py text) cmd (normalize_config-IsPlain py text)

  send_commands-IsPlain :
      (driver : sessions.Driver) (commands : List String) (w : sessions.World)
      → All IsPlain (texts_of (send_commands sessions py true driver commands w).cmd_results)
  unfolding send_commands
  send_commands-IsPlain driver [] w = tt
  send_commands-IsPlain driver (cmd ∷ cmds) w =
      elim (Outcome-cases (sessions.send_input driver true cmd w)) [
        | inr (e, w', bad) ↦ rw (bad, send_commands) tt
        | inl (resp, w', good) ↦
            rw (good, send_commands)
              (output_of-IsPlain cmd resp.result, send_commands-IsPlain driver cmds w')
      ]

  run_session-IsPlain :
      (driver : sessions.Driver) (commands : List String) (w : sessions.World)
      → All IsPlain (texts_of (run_session sessions py true driver commands w).cmd_results)
  unfolding run_session
  run_session-IsPlain driver commands w =
      let got = send_commands sessions py true driver commands w in
      let plain = send_commands-IsPlain driver commands w in
      elim (Option-cases got.raised) [
        | inr (e, bad) ↦ rw (bad, run_session) plain
        | inl quiet ↦ elim (Outcome-cases (sessions.close driver got.world)) [
          | inl (u, w', good) ↦ rw (quiet, good, run_session) plain
          | inr (e, w', bad) ↦ rw (quiet, bad, run_session) plain
        ]
      ]

  capture-IsPlain :
      (driver : sessions.Driver) (temp : Option String) (commands : List String)
      (host : Host sessions)
      → All IsPlain (texts_of (capture sessions py true driver temp commands host).0.cmd_results)
  unfolding capture
  capture-IsPlain driver temp commands host =
      elim (Outcome-cases (sessions.open_session driver host.temp_files host.world)) [
        | inr (e, w, bad) ↦ rw (bad, capture) tt
        | inl (u, w, good) ↦ rw (good, capture) (run_session-IsPlain driver commands w)
      ]

  module _ (engines : Engines py) (crash_text : String → String) where
    cli_result-IsPlain :
        (started : String) (spec : JobSpec) (got : Captured sessions) (content : String)
        → All IsPlain (texts_of got.cmd_results)
        → (cli_result sessions py engines crash_text started spec got).config_text ≡ some content
        → IsPlain content
    unfolding cli_result outputs
    cli_result-IsPlain started spec got content plain there =
        let whole = join-IsPlain (texts_of got.cmd_results) plain in
        let same : outputs sessions got.cmd_results ≡ content =
          ground (arith, there, Bool-cases (spec.kind == "backup")) in
        subst IsPlain same whole

    run_cli-IsPlain :
        (settings : Settings) (spec : JobSpec) (cred : CredentialMaterial) (host h : Host sessions)
        (r : JobResult py) (content : String)
        → (spec.kind == "backup") ≡ true
        → run_cli sessions py engines crash_text settings spec cred host ≡ returned r h
        → r.config_text ≡ some content
        → IsPlain content
    unfolding run_cli
    run_cli-IsPlain settings spec cred host h r content kind eq there =
        elim (Outcome-cases (build_cli_driver sessions settings py spec cred host)) [
          | inr (e, h', bad) ↦ absurd (ground (arith, bad, eq))
          | inl ((driver, temp), h', good) ↦
              let got = (capture sessions py true driver temp spec.commands h').0 in
              let started = sessions.now_iso host.world in
              let same : cli_result sessions py engines crash_text started spec got ≡ r =
                ground (arith, kind, good, eq) in
              cli_result-IsPlain started spec got content
                (capture-IsPlain driver temp spec.commands h')
                (ap (λ (x : JobResult py). x.config_text) same ∙ there)
        ]

    fetch-IsPlain :
        (settings : Settings) (spec : JobSpec) (cred : CredentialMaterial) (host : Host sessions)
        (content : String)
        → (fetch sessions py engines crash_text settings spec cred host).raw_xml ≡ some content
        → IsPlain content
    unfolding fetch fetch_rpc
    fetch-IsPlain settings spec cred host content eq =
        elim (Result-cases (sessions.netconf (netconf_config settings spec cred))) [
          | inr (e, bad) ↦ absurd (ground (arith, bad, eq))
          | inl (driver, made) ↦
              elim (Outcome-cases (sessions.open_session driver host.temp_files host.world)) [
                | inr (e, w, bad) ↦ absurd (ground (arith, made, bad, eq))
                | inl (u, w, good) ↦ elim (Option-cases (or_none spec.rpc)) [
                  | inl absent ↦ absurd (ground (arith, made, good, absent, eq))
                  | inr (rpc, given) ↦ elim (Outcome-cases (sessions.raw_rpc driver rpc w)) [
                    | inr (e, w', bad) ↦ absurd (ground (arith, made, good, given, bad, eq))
                    | inl (text, w', came) ↦
                        let same : normalize_config py text ≡ content =
                          elim (Outcome-cases (sessions.close driver w')) [
                            | inl (v, w'', shut) ↦ ground (arith, made, good, given, came, shut, eq)
                            | inr (e, w'', bad) ↦ ground (arith, made, good, given, came, bad, eq)
                          ] in
                        subst IsPlain same (normalize_config-IsPlain py text)
                  ]
                ]
              ]
        ]

    module _ (query_cpe : String → sessions.World → Outcome sessions.World (List (Row py))) where
      execute-IsPlain :
          (settings : Settings) (spec : JobSpec) (cred : CredentialMaterial)
          (host h : Host sessions) (r : JobResult py) (content : String)
          → spec.kind ≡ "backup"
          → execute sessions py engines crash_text query_cpe settings spec cred host ≡ returned r h
          → r.config_text ≡ some content
          → IsPlain content
      unfolding execute run_netconf
      execute-IsPlain settings spec cred host h r content kind eq there =
          let backup = (string_eq.same_iff spec.kind "backup").1 kind in
          let quiet : (spec.kind == "cve_scan") ≡ false = rw kind refl in
          elim (Bool-cases (spec.driver_kind == "cli")) [
            | inl cli ↦
                run_cli-IsPlain settings spec cred host h r content backup
                  (ground (arith, cli, quiet, eq)) there
            | inr other ↦ elim (Bool-cases (spec.driver_kind == "netconf")) [
              | inr unknown ↦ absurd (ground (arith, other, unknown, eq))
              | inl netconf ↦
                  fetch-IsPlain settings spec cred host content
                    (ground (arith, other, netconf, backup, eq, there))
            ]
          ]

      -- The text of a backup that a worker has run, staged twice: the second time finds it
      -- unchanged and leaves the store as it is, whatever the driver and whatever the device sent.
      pub execute-stage :
          (git : Git) (settings : Settings) (spec : JobSpec) (cred : CredentialMaterial)
          (host h : Host sessions) (r : JobResult py) (content group : String) (s : Store git)
          → spec.kind ≡ "backup"
          → execute sessions py engines crash_text query_cpe settings spec cred host ≡ returned r h
          → r.config_text ≡ some content
          → stage git (stage git s group r.device_name content).store group r.device_name content
            ≡ record {
              changed = false;
              sha = git.sha256 content;
              store = (stage git s group r.device_name content).store;
            }
      unfolding universal_newlines
      execute-stage git settings spec cred host h r content group s kind eq there =
          stage_again git s group r.device_name content (
            newlines_from-IsPlain content
              (execute-IsPlain settings spec cred host h r content kind eq there))
