-- ===== src/Worker/Scans.antt =====
-- The name under which a CVE scan asks for its entries, in src/kiroku/worker/scrapli_runner.py,
-- against the version that the recorder notes, in src/kiroku/recorder/runner.py.
use bmu.Prelude.{
  ℕ, String, ◌≡◌, refl, ap, ◌∙◌, subst, false, Option, none, some, List, [], ◌∷◌, arith, inl, inr,
  Option-cases, string_eq,
}
use bmu.Runtime.{Runtime, Row}
use bmu.Settings.{Settings}
use bmu.Parsers.{Item, dict, other, Parsed, nothing, listing, mapping, Engines}
use bmu.Models.Credential.{CredentialMaterial}
use bmu.Jobs.{JobSpec, JobResult}
use bmu.Recorder.Store.{Git}
use bmu.Recorder.Persist.{first_version, version_of}
use bmu.Worker.Sessions.{Sessions, Outcome, returned, Outcome-cases, Host}
use bmu.Worker.Cli.{or_none, Captured, build_cli_driver, capture}
use bmu.Worker.Execute.{
  version_in, cpe_of, query_rows, scan_rows, scan, scan_result, run_cve_scan, execute,
}

-- `None`, or a function of the value.
abbrev pub apply_some : {A B : Type 0} → (A → B) → Option A → Option B
apply_some f none = none
apply_some f (some a) = some (f a)

module _ (sessions : Sessions) (py : Runtime) (engines : Engines py) (crash_text : String → String)
    (query_cpe : String → sessions.World → Outcome sessions.World (List (Row py))) (git : Git)
    (iso : String → Option ℕ) (json : Parsed py → String) where
  query_rows-first_version :
      (vendor product : String) (rows : List (Item py)) (w : sessions.World)
      → (query_rows sessions py engines crash_text query_cpe vendor product rows w).first_cpe
        ≡ apply_some
            (cpe_of sessions py engines crash_text vendor product)
            (first_version git py engines iso json rows)
  unfolding query_rows version_in first_version
  query_rows-first_version vendor product [] w = refl
  query_rows-first_version vendor product (other o ∷ rows) w =
      query_rows-first_version vendor product rows w
  query_rows-first_version vendor product (dict r ∷ rows) w =
      elim (Option-cases (version_in sessions py engines crash_text (dict r))) [
        | inl absent ↦ ground (arith, absent, query_rows-first_version vendor product rows w)
        | inr (version, there) ↦
            let cpe = cpe_of sessions py engines crash_text vendor product version in
            elim (Outcome-cases (query_cpe cpe w)) [
              | inl (found, w', good) ↦ ground (arith, there, good)
              | inr (e, w', bad) ↦ ground (arith, there, bad)
            ]
      ]

  scan_rows-version_of :
      (p : Parsed py)
      → first_version git py engines iso json (scan_rows sessions py engines crash_text query_cpe p)
        ≡ version_of git py engines iso json p
  unfolding scan_rows version_of first_version
  scan_rows-version_of nothing = refl
  scan_rows-version_of (listing items) = refl
  scan_rows-version_of (mapping []) = refl
  scan_rows-version_of (mapping (q ∷ qs)) = refl

  no_error :
      (started : String) (spec : JobSpec) (got : Captured sessions)
      → (scan_result sessions py engines crash_text query_cpe started spec got).0.error ≡ none
      → got.raised ≡ none
  unfolding scan_result
  no_error started spec got h = elim (Option-cases got.raised) [
    | inl quiet ↦ quiet
    | inr (e, bad) ↦ absurd (ground (arith, bad, h))
  ]

  scan_result-version_of :
      (started vendor product : String) (spec : JobSpec) (got : Captured sessions)
      → or_none spec.cve_vendor ≡ some vendor
      → or_none spec.cve_product ≡ some product
      → got.raised ≡ none
      → let r = (scan_result sessions py engines crash_text query_cpe started spec got).0 in
        r.cpe
        ≡ apply_some
            (cpe_of sessions py engines crash_text vendor product)
            (version_of git py engines iso json r.parsed)
  unfolding scan_result scan
  scan_result-version_of started vendor product spec got names_vendor names_product quiet =
      let p = (scan_result sessions py engines crash_text query_cpe started spec got).0.parsed in
      let rows = scan_rows sessions py engines crash_text query_cpe p in
      ground (
        arith,
        names_vendor,
        names_product,
        quiet,
        query_rows-first_version vendor product rows got.world
            ∙ ap (apply_some (cpe_of sessions py engines crash_text vendor product))
                (scan_rows-version_of p),
      )

  -- A CVE scan over the command line without an error, of a job that names a vendor and a product:
  -- the name that the result gives is that of the version that the recorder takes from its parsed
  -- rows, and there is none if the recorder finds no version.
  pub execute-version_of :
      (settings : Settings) (spec : JobSpec) (cred : CredentialMaterial) (vendor product : String)
      (host h : Host sessions) (r : JobResult py)
      → spec.driver_kind ≡ "cli"
      → spec.kind ≡ "cve_scan"
      → or_none spec.cve_vendor ≡ some vendor
      → or_none spec.cve_product ≡ some product
      → execute sessions py engines crash_text query_cpe settings spec cred host ≡ returned r h
      → r.error ≡ none
      → r.cpe
        ≡ apply_some
            (cpe_of sessions py engines crash_text vendor product)
            (version_of git py engines iso json r.parsed)
  unfolding execute run_cve_scan
  execute-version_of settings spec cred vendor product host h r cli kind names_vendor names_product
        eq fine =
      let over = (string_eq.same_iff spec.driver_kind "cli").1 cli in
      let scans = (string_eq.same_iff spec.kind "cve_scan").1 kind in
      elim (Outcome-cases (build_cli_driver sessions settings py spec cred host)) [
        | inr (e, h', bad) ↦ absurd (ground (arith, over, scans, bad, eq))
        | inl ((driver, temp), h', good) ↦
            let got = (capture sessions py false driver temp spec.commands h').0 in
            let started = sessions.now_iso host.world in
            let same : (scan_result sessions py engines crash_text query_cpe started spec got).0
                ≡ r =
              ground (arith, over, scans, good, eq) in
            subst
              (λ (x : JobResult py).
                x.cpe
                ≡ apply_some (cpe_of sessions py engines crash_text vendor product)
                    (version_of git py engines iso json x.parsed))
              same
              (scan_result-version_of started vendor product spec got names_vendor names_product
                (no_error started spec got (ap (λ (x : JobResult py). x.error) same ∙ fine)))
      ]
