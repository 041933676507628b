-- ===== src/Tests/Cve.antt =====
-- A query of the CVE service, src/kiroku/cve/nvd.py, at concrete answers.
use bmu.Prelude.{Result, ◌≡◌, refl, none, some, List, [], ◌∷◌, Option, ok, err}
use bmu.Tests.Values.{python}
use bmu.Cve.{CveEntry, CveNode, Request, query_cpe}

abbrev node : CveNode python
node = record {
  id = some "CVE-1";
  metrics = record {
    v31 = [];
    v30 = record { base_score = some "2"; base_severity = some "LOW" } ∷ [];
    v2 = record { base_score = some "1"; base_severity = none } ∷ [];
  };
  descriptions =
      record { lang = some "es"; value = none }
      ∷ record { lang = some "en"; value = some "An overflow" }
      ∷ [];
  references = [];
  published = none;
}

abbrev answering :
    List (Option (CveNode python)) → Request python → Result (List (Option (CveNode python)))
answering vulns r = ok vulns

abbrev entries : List (CveEntry python)
entries =
    record {
      cve_id = "CVE-1";
      cvss_v3_score = some 2;
      severity = some "LOW";
      summary = some "An overflow";
      published_at = none;
      url = "https://nvd.nist.gov/vuln/detail/CVE-1";
    }
    ∷ []

unanswered : query_cpe python (λ s. s) (λ r. err "timeout") none "cpe" ≡ ok []
unfolding query_cpe
unanswered = refl
