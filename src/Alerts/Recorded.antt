-- ===== src/Alerts/Recorded.antt =====
-- api/alerts.py: which incidents there are after a call of the webhook.
use tantor_v.Prelude.{
  ℕ, String, ◌≡◌, refl, sym, ap, ◌∙◌, Bool, true, false, not, Option, none, some, List, [], ◌∷◌,
  ◌++◌, ◌==◌, map, any, filter, Bool-cases, inl, inr, if◌then◌else◌,
}
use mathlib.Core.List.{append-nil}
use tantor_v.Alerts.Incidents.{
  Alert, Incident, Codec, fingerprint_of, find_incident, seen_again, update_first, new_incident,
  record_alerts, receive_webhook,
}

abbrev pub fingerprints : List Incident → List String
fingerprints rows = map (λ r. r.fingerprint) rows

-- Whether a row has this fingerprint.
abbrev pub is_recorded : List Incident → String → Bool
is_recorded rows fingerprint = any (λ r. r.fingerprint == fingerprint) rows

abbrev pub is_some : Option Incident → Bool
is_some none = false
is_some (some _) = true

pub shift :
    {A : Type 0} (s a : List A) (f : A) (r : List A) → s ++ (a ++ f ∷ []) ++ r ≡ s ++ a ++ f ∷ r
shift [] [] f r = refl
shift [] (x ∷ a) f r = ap (λ xs. x ∷ xs) (shift [] a f r)
shift (x ∷ s) a f r = ap (λ xs. x ∷ xs) (shift s a f r)

module _ (codec : Codec) (now : ℕ) where
  pub find_incident_lem :
      (f : String) (rows : List Incident)
      → is_some (find_incident codec now f rows) ≡ is_recorded rows f
  unfolding find_incident
  find_incident_lem f [] = refl
  find_incident_lem f (r ∷ rest) = elim (Bool-cases (r.fingerprint == f)) [
    | inl same ↦ rw same refl
    | inr other ↦ rw other (find_incident_lem f rest)
  ]

  fingerprints-update_first :
      (a : Alert) (f : String) (rows : List Incident)
      → fingerprints (update_first codec now a f rows) ≡ fingerprints rows
  unfolding update_first seen_again
  fingerprints-update_first a f [] = refl
  fingerprints-update_first a f (r ∷ rest) = elim (Bool-cases (r.fingerprint == f)) [
    | inl same ↦ rw same refl
    | inr other ↦ rw (other, fingerprints-update_first a f rest) refl
  ]

  pub is_recorded-update_first :
      (a : Alert) (f g : String) (rows : List Incident)
      → is_recorded (update_first codec now a f rows) g ≡ is_recorded rows g
  unfolding update_first seen_again
  is_recorded-update_first a f g [] = refl
  is_recorded-update_first a f g (r ∷ rest) = elim (Bool-cases (r.fingerprint == f)) [
    | inl same ↦ rw same refl
    | inr other ↦ rw (other, is_recorded-update_first a f g rest) refl
  ]

  fingerprints-append :
      (xs ys : List Incident) → fingerprints (xs ++ ys) ≡ fingerprints xs ++ fingerprints ys
  fingerprints-append [] ys = refl
  fingerprints-append (x ∷ xs) ys = ap (λ fs. x.fingerprint ∷ fs) (fingerprints-append xs ys)

  -- The fingerprints of the alerts that no row had.
  abbrev pub fresh : List Incident → List Alert → List String
  fresh rows alerts = filter (λ f. not (is_recorded rows f)) (map (fingerprint_of codec now) alerts)

  fresh-update_first :
      (a : Alert) (f : String) (rows : List Incident) (alerts : List Alert)
      → fresh (update_first codec now a f rows) alerts ≡ fresh rows alerts
  fresh-update_first a f rows [] = refl
  fresh-update_first a f rows (b ∷ rest) =
      rw
        (
          is_recorded-update_first a f (fingerprint_of codec now b) rows,
          fresh-update_first a f rows rest,
        )
        refl

  record_alerts_lem :
      (stored added : List Incident) (alerts : List Alert)
      → fingerprints (record_alerts codec now stored added alerts)
        ≡ fingerprints stored ++ fingerprints added ++ fresh stored alerts
  unfolding record_alerts
  record_alerts_lem stored added [] = rw append-nil (fingerprints-append stored added)
  record_alerts_lem stored added (a ∷ rest) =
      by_found (find_incident codec now f stored) (sym (find_incident_lem f stored))
        (λ s t. record_alerts_lem s t rest)
    where
      f : String
      f = fingerprint_of codec now a

      later : Bool → List String
      later recorded = if not recorded then f ∷ fresh stored rest else fresh stored rest

      by_found :
          (o : Option Incident)
          → is_recorded stored f ≡ is_some o
          → ((s t : List Incident)
              → fingerprints (record_alerts codec now s t rest)
                ≡ fingerprints s ++ fingerprints t ++ fresh s rest)
          → fingerprints (elim o [
            | some _ ↦ record_alerts codec now (update_first codec now a f stored) added rest
            | none ↦ record_alerts codec now stored (added ++ new_incident codec now a ∷ []) rest
          ])
            ≡ fingerprints stored ++ fingerprints added ++ later (is_recorded stored f)
      by_found (some row) e ih = rw e (
          ih (update_first codec now a f stored) added
          ∙ rw (fingerprints-update_first a f stored, fresh-update_first a f stored rest) refl)
      by_found none e ih = rw e (
          ih stored (added ++ new_incident codec now a ∷ [])
          ∙ rw (fingerprints-append added (new_incident codec now a ∷ []))
              (shift (fingerprints stored) (fingerprints added) f (fresh stored rest)))

-- After a call of the webhook the table has its old rows, in their order and with their fingerprints,
-- and behind them one row for each alert whose fingerprint no row of the table had, in the order of
-- the alerts; two such alerts with one fingerprint have two rows.
pub receive_webhook-fingerprints :
    (codec : Codec) (now : ℕ) (rows : List Incident) (alerts : List Alert)
    → fingerprints (receive_webhook codec now rows alerts).0
      ≡ fingerprints rows ++ fresh codec now rows alerts
unfolding receive_webhook
receive_webhook-fingerprints codec now rows alerts =
    rw append-nil at (record_alerts_lem codec now rows [] alerts)
