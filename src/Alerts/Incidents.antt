-- ===== src/Alerts/Incidents.antt =====
-- api/alerts.py: `receive_alertmanager_webhook`. The session of backend/app/database.py does not
-- flush by itself, so a query sees the rows of the table, with their changes, but none of the rows
-- that were added since the last commit.
use tantor_v.Prelude.{
  ℕ, String, Option, none, some, List, [], ◌∷◌, ◌++◌, ◌==◌, length, if◌then◌else◌,
}
use tantor_v.Prelude.Dict.{Dict, lookup}
use tantor_v.Models.{or_text}

-- An alert of the payload, with the keys that are read; `body` is its text as JSON.
pub record Alert : Type 0 where
  pub fingerprint : Option String
  pub status : Option String
  pub starts_at : Option String
  pub ends_at : Option String
  pub labels : Dict String
  pub annotations : Dict String
  pub body : String

-- A row of the table; times are numbers.
pub record Incident : Type 0 where
  pub fingerprint : String
  pub cluster_id : Option String
  pub rule_id : Option String
  pub alert_name : String
  pub severity : String
  pub status : String
  pub summary : Option String
  pub description : Option String
  pub payload : String
  pub started_at : ℕ
  pub resolved_at : Option ℕ
  pub last_seen_at : ℕ

abbrev pub or_else : {A : Type 0} → Option A → A → A
or_else none d = d
or_else (some a) d = a

-- The library's calls: the digest of the labels, the reading of a time, and the shortened text.
pub record Codec : Type 0 where
  pub digest : Dict String → String
  pub from_isoformat : String → Option ℕ
  pub shorten : String → String

module _ (codec : Codec) (now : ℕ) where
  -- `_parse_iso`
  unfoldable pub parse_iso : Option String → Option ℕ
  parse_iso none = none
  parse_iso (some value) = if value == "" then none else codec.from_isoformat value

  -- `alert.get("fingerprint") or _synthesize_fingerprint(labels)`
  unfoldable pub fingerprint_of : Alert → String
  fingerprint_of alert = or_text alert.fingerprint (codec.digest alert.labels)

  unfoldable pub status_of : Alert → String
  status_of alert = if or_text alert.status "" == "resolved" then "resolved" else "firing"

  -- `db.query(AlertIncident).filter(…).first()`
  unfoldable pub find_incident : String → List Incident → Option Incident
  find_incident fingerprint [] = none
  find_incident fingerprint (row ∷ rest) =
      if row.fingerprint == fingerprint then some row else find_incident fingerprint rest

  abbrev resolved_then : Alert → Option ℕ → Option ℕ
  resolved_then alert (some t) = some t
  resolved_then alert none = some (or_else (parse_iso alert.ends_at) now)

  unfoldable pub seen_again : Alert → Incident → Incident
  unfolding status_of parse_iso
  seen_again alert row = record row {
    status = status_of alert;
    last_seen_at = now;
    resolved_at =
        if status_of alert == "resolved"
        then resolved_then alert row.resolved_at
        else row.resolved_at;
  }

  -- The row that the query found is changed in place.
  unfoldable pub update_first : Alert → String → List Incident → List Incident
  unfolding seen_again
  update_first alert fingerprint [] = []
  update_first alert fingerprint (row ∷ rest) =
      let later = update_first alert fingerprint rest in
      if row.fingerprint == fingerprint then seen_again alert row ∷ rest else row ∷ later

  unfoldable pub new_incident : Alert → Incident
  unfolding fingerprint_of status_of parse_iso
  new_incident alert = record {
    fingerprint = fingerprint_of alert;
    cluster_id = lookup "tantor_cluster_id" alert.labels;
    rule_id = lookup "tantor_rule_id" alert.labels;
    alert_name = or_else (lookup "alertname" alert.labels) "unknown";
    severity = or_else (lookup "severity" alert.labels) "warning";
    status = status_of alert;
    summary = lookup "summary" alert.annotations;
    description = lookup "description" alert.annotations;
    payload = codec.shorten alert.body;
    started_at = or_else (parse_iso alert.starts_at) now;
    resolved_at = if status_of alert == "resolved" then parse_iso alert.ends_at else none;
    last_seen_at = now;
  }

  -- The loop: the rows of the table, and those that are added.
  unfoldable pub record_alerts : List Incident → List Incident → List Alert → List Incident
  unfolding find_incident update_first new_incident fingerprint_of
  record_alerts stored added [] = stored ++ added
  record_alerts stored added (alert ∷ rest) = elim (find_incident (fingerprint_of alert) stored) [
    | some _ ↦ record_alerts (update_first alert (fingerprint_of alert) stored) added rest
    | none ↦ record_alerts stored (added ++ new_incident alert ∷ []) rest
  ]

  -- The rows after the commit, and the number that is answered.
  unfoldable pub receive_webhook : List Incident → List Alert → List Incident × ℕ
  unfolding record_alerts
  receive_webhook rows alerts = (record_alerts rows [] alerts, length alerts)
