-- ===== src/Alerts/Revised.antt =====
-- api/alerts.py: what a call of the webhook leaves of each row of the table, written out row by row.
use tantor_v.Prelude.{
  ℕ, String, ◌≡◌, refl, sym, ap, ◌∙◌, Bool, true, false, not, ◌||◌, Option, none, some, List, [],
  ◌∷◌, ◌++◌, ◌==◌, map, any, filter, Bool-cases, false≢true, or_left, or_right, inl, inr,
  if◌then◌else◌, eq_iff, arith,
}
use mathlib.Core.List.{append-nil}
use tantor_v.Models.{or_text}
use tantor_v.Alerts.Incidents.{
  Alert, Incident, Codec, or_else, parse_iso, fingerprint_of, status_of, find_incident, seen_again,
  update_first, new_incident, record_alerts, receive_webhook,
}
use tantor_v.Alerts.Recorded.{
  fingerprints, fresh, is_recorded, is_some, find_incident_lem, shift, is_recorded-update_first,
  receive_webhook-fingerprints,
}

abbrev is_resolved : Alert → Bool
is_resolved alert = or_text alert.status "" == "resolved"

-- The status that the last of the alerts gives.
abbrev pub last_status : String → List Alert → String
last_status status [] = status
last_status status (a ∷ rest) = last_status (if is_resolved a then "resolved" else "firing") rest

module _ (codec : Codec) (now : ℕ) where
  -- The end that the first resolved alert gives, where the row has none yet.
  abbrev pub resolution : Option ℕ → List Alert → Option ℕ
  resolution (some t) alerts = some t
  resolution none [] = none
  resolution none (a ∷ rest) =
      let later = resolution none rest in
      if is_resolved a then some (or_else (parse_iso codec now a.ends_at) now) else later

  abbrev pub last_seen : ℕ → List Alert → ℕ
  last_seen t [] = t
  last_seen t (_ ∷ _) = now

  -- The row after the alerts that found it.
  abbrev pub revised : List Alert → Incident → Incident
  revised found row = record {
    fingerprint = row.fingerprint;
    cluster_id = row.cluster_id;
    rule_id = row.rule_id;
    alert_name = row.alert_name;
    severity = row.severity;
    status = last_status row.status found;
    summary = row.summary;
    description = row.description;
    payload = row.payload;
    started_at = row.started_at;
    resolved_at = resolution row.resolved_at found;
    last_seen_at = last_seen row.last_seen_at found;
  }

  abbrev pub alerts_of : String → List Alert → List Alert
  alerts_of f alerts = filter (λ a. f == fingerprint_of codec now a) alerts

  abbrev is_earlier : String → List String → Bool
  is_earlier f earlier = any (λ g. g == f) earlier

  -- Every row after all alerts: of the rows with one fingerprint only the first one is found.
  abbrev pub revise : List String → List Alert → List Incident → List Incident
  revise earlier alerts [] = []
  revise earlier alerts (row ∷ rest) =
      (if is_earlier row.fingerprint earlier
        then row
        else revised (alerts_of row.fingerprint alerts) row)
      ∷ revise (row.fingerprint ∷ earlier) alerts rest

  -- The alerts whose fingerprint no row has.
  abbrev pub unrecorded : List Incident → List Alert → List Alert
  unrecorded rows alerts = filter (λ a. not (is_recorded rows (fingerprint_of codec now a))) alerts

  or_false : (a b : Bool) → (a || b) ≡ false → (a ≡ false) × (b ≡ false)
  or_false a b h = (ground (arith, h), ground (arith, h))

  if_same : {A : Type 0} (b : Bool) (x : A) → (if b then x else x) ≡ x
  if_same true x = refl
  if_same false x = refl

  resolution-nil : (o : Option ℕ) → resolution o [] ≡ o
  resolution-nil none = refl
  resolution-nil (some t) = refl

  revise-nil : (earlier : List String) (rows : List Incident) → revise earlier [] rows ≡ rows
  revise-nil earlier [] = refl
  revise-nil earlier (r ∷ rest) =
      rw
        (
          resolution-nil r.resolved_at,
          if_same (is_earlier r.fingerprint earlier) r,
          revise-nil (r.fingerprint ∷ earlier) rest,
        )
        refl

  last_seen-now : (found : List Alert) → last_seen now found ≡ now
  last_seen-now [] = refl
  last_seen-now (_ ∷ _) = refl

  resolution-again :
      (a : Alert) (found : List Alert) (o : Option ℕ)
      → resolution
          (if (if is_resolved a then "resolved" else "firing") == "resolved"
            then (elim o [
              | none ↦ some (or_else (parse_iso codec now a.ends_at) now)
              | some t ↦ some t
            ])
            else o)
          found
        ≡ resolution o (a ∷ found)
  resolution-again a found (some t) =
      rw (if_same ((if is_resolved a then "resolved" else "firing") == "resolved") (some t)) refl
  resolution-again a found none = elim (Bool-cases (is_resolved a)) [
    | inl e ↦ rw e refl
    | inr e ↦ rw e refl
  ]

  revised-seen_again :
      (a : Alert) (found : List Alert) (row : Incident)
      → revised found (seen_again codec now a row) ≡ revised (a ∷ found) row
  unfolding seen_again status_of
  revised-seen_again a found row =
      rw (resolution-again a found row.resolved_at, last_seen-now found) refl

  fingerprint_lem :
      (a : Alert) (row : Incident) → (seen_again codec now a row).fingerprint ≡ row.fingerprint
  unfolding seen_again
  fingerprint_lem a row = refl

  differs :
      (f g : String) (earlier : List String)
      → is_earlier f earlier ≡ true
      → is_earlier g earlier ≡ false
      → (g == f) ≡ false
  differs f g earlier hf hg = elim (Bool-cases (g == f)) [
    | inl same ↦
        absurd (false≢true (sym hg ∙ ap (λ x. is_earlier x earlier) ((eq_iff g f).0 same) ∙ hf))
    | inr other ↦ other
  ]

  -- An alert whose fingerprint an earlier row has finds none of the rows behind it.
  revise-earlier :
      (a : Alert) (earlier : List String) (alerts : List Alert) (rows : List Incident)
      → is_earlier (fingerprint_of codec now a) earlier ≡ true
      → revise earlier (a ∷ alerts) rows ≡ revise earlier alerts rows
  revise-earlier a earlier alerts [] h = refl
  revise-earlier a earlier alerts (r ∷ rest) h =
      let f = fingerprint_of codec now a in
      let later =
        revise-earlier a (r.fingerprint ∷ earlier) alerts rest
          (or_right (r.fingerprint == f) (is_earlier f earlier) h) in
      elim (Bool-cases (is_earlier r.fingerprint earlier)) [
        | inl e ↦ rw (e, later) refl
        | inr e ↦ rw (e, differs f r.fingerprint earlier h e, later) refl
      ]

  revise-update_first :
      (a : Alert) (earlier : List String) (alerts : List Alert) (rows : List Incident)
      → is_earlier (fingerprint_of codec now a) earlier ≡ false
      → revise earlier alerts (update_first codec now a (fingerprint_of codec now a) rows)
        ≡ revise earlier (a ∷ alerts) rows
  unfolding update_first
  revise-update_first a earlier alerts [] h = refl
  revise-update_first a earlier alerts (r ∷ rest) h =
      let f = fingerprint_of codec now a in
      elim (Bool-cases (r.fingerprint == f)) [
        | inl same ↦
            let first : is_earlier r.fingerprint earlier ≡ false =
              ap (λ x. is_earlier x earlier) ((eq_iff r.fingerprint f).0 same) ∙ h in
            rw
              (
                same,
                fingerprint_lem a r,
                first,
                revise-earlier a (r.fingerprint ∷ earlier) alerts rest
                    (or_left (r.fingerprint == f) (is_earlier f earlier) same),
              )
              (ap (λ x. x ∷ revise (r.fingerprint ∷ earlier) alerts rest)
                (revised-seen_again a (alerts_of r.fingerprint alerts) r))
        | inr other ↦
            rw (other, revise-update_first a (r.fingerprint ∷ earlier) alerts rest (rw other h))
              refl
      ]

  update_first-absent :
      (a : Alert) (f : String) (rows : List Incident)
      → is_recorded rows f ≡ false
      → update_first codec now a f rows ≡ rows
  unfolding update_first
  update_first-absent a f [] h = refl
  update_first-absent a f (r ∷ rest) h =
      let apart = or_false (r.fingerprint == f) (is_recorded rest f) h in
      rw (apart.0, update_first-absent a f rest apart.1) refl

  unrecorded-update_first :
      (a : Alert) (f : String) (rows : List Incident) (alerts : List Alert)
      → unrecorded (update_first codec now a f rows) alerts ≡ unrecorded rows alerts
  unrecorded-update_first a f rows [] = refl
  unrecorded-update_first a f rows (b ∷ rest) =
      rw
        (
          is_recorded-update_first codec now a f (fingerprint_of codec now b) rows,
          unrecorded-update_first a f rows rest,
        )
        refl

  record_alerts-revise :
      (stored added : List Incident) (alerts : List Alert)
      → record_alerts codec now stored added alerts
        ≡ revise [] alerts stored
          ++ added
          ++ map (new_incident codec now) (unrecorded stored alerts)
  unfolding record_alerts
  record_alerts-revise stored added [] = rw (revise-nil [] stored, append-nil) refl
  record_alerts-revise stored added (a ∷ rest) =
      by_found (find_incident codec now f stored) (sym (find_incident_lem codec now f stored))
        (λ s t. record_alerts-revise s t rest)
    where
      f : String
      f = fingerprint_of codec now a

      later : Bool → List Alert
      later recorded = if not recorded then a ∷ unrecorded stored rest else unrecorded stored rest

      by_found :
          (o : Option Incident)
          → is_recorded stored f ≡ is_some o
          → ((s t : List Incident)
              → record_alerts codec now s t rest
                ≡ revise [] rest s ++ t ++ map (new_incident codec now) (unrecorded s rest))
          → (elim o [
            | some _ ↦ record_alerts codec now (update_first codec now a f stored) added rest
            | none ↦ record_alerts codec now stored (added ++ new_incident codec now a ∷ []) rest
          ])
            ≡ revise [] (a ∷ rest) stored
              ++ added
              ++ map (new_incident codec now) (later (is_recorded stored f))
      by_found (some row) e ih = rw e (
          ih (update_first codec now a f stored) added
          ∙ rw (revise-update_first a [] rest stored refl, unrecorded-update_first a f stored rest)
              refl)
      by_found none e ih =
          let same : revise [] rest stored ≡ revise [] (a ∷ rest) stored =
            sym (ap (λ rows. revise [] rest rows) (update_first-absent a f stored e))
            ∙ revise-update_first a [] rest stored refl in
          rw e (
            ih stored (added ++ new_incident codec now a ∷ [])
            ∙ rw same (
                shift (revise [] (a ∷ rest) stored) added (new_incident codec now a)
                  (map (new_incident codec now) (unrecorded stored rest))))

-- After a call of the webhook the table has its old rows, in their order, and behind them the row of
-- new_incident for each alert whose fingerprint no row of the table had, in the order of the alerts;
-- two such alerts with one fingerprint have two rows. Of the old rows with one fingerprint only the
-- first changes: where alerts have its fingerprint it has the status of the last of them and is seen
-- now; the first resolved one gives it its end, or the present time, unless it had one; all else, the
-- first start and the cluster included, stays. The fingerprints are those of the rows and of the
-- alerts.
pub receive_webhook-revise :
    (codec : Codec) (now : ℕ) (rows : List Incident) (alerts : List Alert)
    → ((receive_webhook codec now rows alerts).0
        ≡ revise codec now [] alerts rows
          ++ map (new_incident codec now) (unrecorded codec now rows alerts))
      × (fingerprints (receive_webhook codec now rows alerts).0
          ≡ fingerprints rows ++ fresh codec now rows alerts)
unfolding receive_webhook
receive_webhook-revise codec now rows alerts = (
  rw append-nil at (record_alerts-revise codec now rows [] alerts),
  receive_webhook-fingerprints codec now rows alerts,
)
