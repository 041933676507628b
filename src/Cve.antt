-- ===== src/Cve.antt =====
-- src/kiroku/cve: the query of the NVD service. The service and the quoting of a URL are parameters.
-- A document of the service is given by the fields that the code reads, `none` or the empty list
-- where a key is missing; a field of `cvssData` is `none` also where that is missing. Of an
-- exception it is only kept that it is raised, by a score that is no number or a key that is missing.
pub mod Entries
use Prim.Native.String.{◌++◌ as ◌<>◌}
use bmu.Prelude.{String, Option, none, some, List, [], ◌∷◌, map, Result, ok, err, ◌>>=◌}
use bmu.Prelude.{if◌then◌else◌, ◌==◌, string_eq, map_ok}
use bmu.Runtime.{Runtime}
use bmu.Text.{truthy}

module _ (py : Runtime) where
  pub record Metric : Type 0 where
    pub base_score : Option py.Object
    pub base_severity : Option String

  pub record Description : Type 0 where
    pub lang : Option String
    pub value : Option String

  pub record Metrics : Type 0 where
    pub v31 : List Metric
    pub v30 : List Metric
    pub v2 : List Metric

  pub record CveNode : Type 0 where
    pub id : Option String
    pub metrics : Metrics
    pub descriptions : List Description
    -- The URL of each reference.
    pub references : List (Option String)
    pub published : Option String

  pub record CveEntry : Type 0 where
    pub cve_id : String
    pub cvss_v3_score : Option py.Float
    pub severity : Option String
    pub summary : Option String
    pub published_at : Option String
    pub url : String

  pub record Request : Type 0 where
    pub url : String
    pub user_agent : String
    pub api_key : Option String

  -- `float(score) if score is not None else None`
  unfoldable pub score_of : Option py.Object → Result (Option py.Float)
  score_of none = ok none
  score_of (some o) =
      if py.is_none o
      then ok none
      else (do number ← py.float o; elim number [ none ↦ err "ValueError" | some x ↦ ok (some x) ])

  unfoldable pub first_metric : List (List Metric) → Option Metric
  first_metric [] = none
  first_metric ([] ∷ rest) = first_metric rest
  first_metric ((m ∷ ms) ∷ rest) = some m

  unfoldable pub extract_severity : Metrics → Result (Option py.Float × Option String)
  unfolding first_metric score_of
  extract_severity m = elim (first_metric (m.v31 ∷ m.v30 ∷ m.v2 ∷ [])) [
    | none ↦ ok (none, none)
    | some first ↦ do score ← score_of first.base_score; ok (score, first.base_severity)
  ]

  -- `d[key]`
  unfoldable pub item_of : String → Option String → Result String
  item_of key none = err key
  item_of key (some v) = ok v

  -- The first description in English.
  unfoldable pub summary_of : List Description → Result (Option String)
  unfolding item_of
  summary_of [] = ok none
  summary_of (d ∷ ds) =
      let rest = summary_of ds in
      elim d.lang [
        | none ↦ rest
        | some lang ↦
            if lang == "en" then (do text ← item_of "value" d.value; ok (some text)) else rest
      ]

  unfoldable pub url_of : String → List (Option String) → Result String
  unfolding item_of
  url_of cve_id [] = ok ("https://nvd.nist.gov/vuln/detail/" <> cve_id)
  url_of cve_id (r ∷ rs) = item_of "url" r

  abbrev no_node : CveNode
  no_node = record {
    id = none;
    metrics = record { v31 = []; v30 = []; v2 = [] };
    descriptions = [];
    references = [];
    published = none;
  }

  -- `vuln.get("cve", {})`
  unfoldable pub node_of : Option CveNode → CveNode
  node_of none = no_node
  node_of (some cve) = cve

  -- `cve.get("id", "")`
  unfoldable pub id_of : CveNode → String
  id_of cve = elim cve.id [ none ↦ "" | some i ↦ i ]

  -- The body of the loop over the vulnerabilities.
  unfoldable pub entry_of : Option CveNode → Result CveEntry
  unfolding node_of id_of extract_severity summary_of url_of
  entry_of vuln =
      let cve = node_of vuln in
      do
        (score, severity) ← extract_severity cve.metrics
        summary ← summary_of cve.descriptions
        link ← url_of (id_of cve) cve.references
        ok (record {
          cve_id = id_of cve;
          cvss_v3_score = score;
          severity = severity;
          summary = summary;
          published_at = cve.published;
          url = link;
        })

  module _ (quote : String → String) (urlopen : Request → Result (List (Option CveNode))) where
    unfoldable pub request_for : Option String → String → Request
    request_for key cpe = record {
      url = "https://services.nvd.nist.gov/rest/json/cves/2.0?cpeName=" <> quote cpe;
      user_agent = "kiroku/1.0";
      api_key = if truthy key then key else none;
    }

    -- A request that fails is logged, and gives no entries.
    unfoldable pub query_cpe : Option String → String → Result (List CveEntry)
    unfolding request_for entry_of
    query_cpe key cpe = elim (urlopen (request_for key cpe)) [
      | err e ↦ ok []
      | ok vulns ↦ map_ok entry_of vulns
    ]
