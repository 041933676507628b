-- ===== src/Worker/Outcomes.antt =====
-- What the sessions of src/kiroku/worker/scrapli_runner.py capture, and what they leave on the disk.
use bmu.Prelude.{
  String, Bool, ◌≡◌, refl, ap, false, Option, none, List, [], ◌∷◌, ◌++◌, map, arith, inl, inr,
  contains, Option-cases, string_eq,
}
use bmu.Runtime.{Runtime}
use bmu.Jobs.{JobSpec, CommandResult}
use bmu.Worker.Sessions.{
  Sessions, returned, Outcome-cases, Host, IsFresh, TempFiles, unlink, file_names,
}
use bmu.Worker.Cli.{
  or_none, Captured, definition_of, drop_temp, send_commands, run_session, capture,
}

abbrev pub command_of : CommandResult → String
command_of c = c.command

unlink_fresh :
    (path : String) (files : TempFiles)
    → contains path (file_names files) ≡ false
    → unlink path files ≡ files
unfolding unlink
unlink_fresh path [] h = refl
unlink_fresh path ((name, text) ∷ files) h =
    ground (
      arith,
      h,
      unlink_fresh path files,
      string_eq.same_iff name path,
      string_eq.same_iff path name,
    )

module _ (sessions : Sessions) where
  -- The answers are those of the first commands, and of all of them if nothing was raised.
  abbrev pub Answers : List String → Captured sessions → Type 0
  Answers commands got =
      (unsent : List String) × (map command_of got.cmd_results ++ unsent ≡ commands)
      × (got.raised ≡ none → unsent ≡ [])

  send_commands-Answers :
      (py : Runtime) (backup : Bool) (driver : sessions.Driver) (commands : List String)
      (w : sessions.World)
      → Answers commands (send_commands sessions py backup driver commands w)
  unfolding send_commands
  send_commands-Answers py backup driver [] w = ([], refl, λ h. refl)
  send_commands-Answers py backup driver (cmd ∷ cmds) w =
      elim (Outcome-cases (sessions.send_input driver backup cmd w)) [
        | inr (e, w', bad) ↦
            rw (bad, send_commands) (cmd ∷ cmds, refl, λ h. absurd (ground (arith, h)))
        | inl (resp, w', good) ↦
            let (unsent, whole, complete) = send_commands-Answers py backup driver cmds w' in
            rw (good, send_commands) (unsent, ap (λ l. cmd ∷ l) whole, complete)
      ]

  run_session-Answers :
      (py : Runtime) (backup : Bool) (driver : sessions.Driver) (commands : List String)
      (w : sessions.World)
      → Answers commands (run_session sessions py backup driver commands w)
  unfolding run_session
  run_session-Answers py backup driver commands w =
      let got = send_commands sessions py backup driver commands w in
      let (unsent, whole, complete) = send_commands-Answers py backup driver commands w in
      elim (Option-cases got.raised) [
        | inr (e, bad) ↦ rw (bad, run_session) (unsent, whole, complete)
        | inl quiet ↦ elim (Outcome-cases (sessions.close driver got.world)) [
          | inl (u, w', good) ↦ rw (quiet, good, run_session) (unsent, whole, λ h. complete quiet)
          | inr (e, w', bad) ↦ rw (quiet, bad, run_session) (unsent, whole, λ h. complete quiet)
        ]
      ]

  pub capture-Answers :
      (py : Runtime) (backup : Bool) (driver : sessions.Driver) (temp : Option String)
      (commands : List String) (host : Host sessions)
      → Answers commands (capture sessions py backup driver temp commands host).0
  unfolding capture
  capture-Answers py backup driver temp commands host =
      elim (Outcome-cases (sessions.open_session driver host.temp_files host.world)) [
        | inr (e, w, bad) ↦ rw (bad, capture) (commands, refl, λ h. absurd (ground (arith, h)))
        | inl (u, w, good) ↦ rw (good, capture) (run_session-Answers py backup driver commands w)
      ]

  pub capture-files :
      (py : Runtime) (backup : Bool) (driver : sessions.Driver) (temp : Option String)
      (commands : List String) (host : Host sessions)
      → (capture sessions py backup driver temp commands host).1
        ≡ drop_temp sessions temp host.temp_files
  unfolding capture
  capture-files py backup driver temp commands host =
      elim (Outcome-cases (sessions.open_session driver host.temp_files host.world)) [
        | inr (e, w, bad) ↦ rw (bad, capture) refl
        | inl (u, w, good) ↦ rw (good, capture) refl
      ]

  -- Without its temporary file, the disk is as before.
  pub definition_of-files :
      (fresh : IsFresh sessions) (py : Runtime) (spec : JobSpec) (host h : Host sessions)
      (d : String × Option String)
      → definition_of sessions py spec host ≡ returned d h
      → drop_temp sessions d.1 h.temp_files ≡ host.temp_files
  unfolding definition_of drop_temp unlink
  definition_of-files fresh py spec host h d eq =
      elim (Option-cases (or_none spec.custom_platform_yaml)) [
        | inr (yaml, custom) ↦
            let path = sessions.mkstemp host.world (file_names host.temp_files) in
            let new = fresh.fresh host.world (file_names host.temp_files) in
            ground (
              arith,
              custom,
              eq,
              unlink_fresh path host.temp_files new,
              string_eq.same_iff path path,
            )
        | inl plain ↦ ground (arith, plain, eq)
      ]
