-- ===== src/Alerts/Tests.antt =====
-- The theorem on the webhook at a concrete input.
use tantor_v.Prelude.{String, ◌≡◌, [], ◌∷◌, none, some, true, refl, List, map}
use Prim.Native.String.{◌++◌ as ◌++s◌}
use tantor_v.Prelude.Int.{pos}
use tantor_v.Prelude.Text.{decimal}
use tantor_v.Alerts.Scalars.{yaml_str, seconds_to_duration}
use tantor_v.Alerts.Rules.{AlertRule, seed_default_rules}
use tantor_v.Alerts.Readable.{read_yaml, read_yaml-yaml_str}
use tantor_v.Alerts.Durations.{read_duration, read_duration-seconds_to_duration}
use tantor_v.Alerts.Seeded.{seed_default_rules_idem}
use tantor_v.Alerts.Incidents.{
  Alert, Incident, Codec, fingerprint_of, parse_iso, new_incident, receive_webhook,
}
use tantor_v.Alerts.Recorded.{fingerprints}
use tantor_v.Alerts.Revised.{receive_webhook-revise}

abbrev codec : Codec
codec = record { digest = λ labels. "d"; from_isoformat = λ s. none; shorten = λ s. s }

abbrev alert : String → Alert
alert fingerprint = record {
  fingerprint = some fingerprint;
  status = some "firing";
  starts_at = none;
  ends_at = none;
  labels = [];
  annotations = [];
  body = "{}";
}

-- An incident that is open.
abbrev open_row : Incident
open_row = record {
  fingerprint = "a";
  cluster_id = some "c";
  rule_id = some "r";
  alert_name = "BrokerDown";
  severity = "critical";
  status = "firing";
  summary = none;
  description = none;
  payload = "{}";
  started_at = 3;
  resolved_at = none;
  last_seen_at = 5;
}

abbrev alerts : List Alert
alerts = alert "b" ∷ record (alert "a") { status = some "resolved" } ∷ alert "b" ∷ []

receive_webhook-revise_example :
    ((receive_webhook codec 7 (open_row ∷ []) alerts).0
      ≡ record open_row { status = "resolved"; resolved_at = some 7; last_seen_at = 7 }
        ∷ map (new_incident codec 7) (alert "b" ∷ alert "b" ∷ []))
    × (fingerprints (receive_webhook codec 7 (open_row ∷ []) alerts).0 ≡ "a" ∷ "b" ∷ "b" ∷ [])
unfolding fingerprint_of parse_iso
receive_webhook-revise_example = receive_webhook-revise codec 7 (open_row ∷ []) alerts

abbrev one_rule : List AlertRule
one_rule =
    record {
      id = "r";
      cluster_id = "c";
      name = "BrokerDown";
      expr = "up == 0";
      for_seconds = pos 60;
      severity = "critical";
      summary = none;
      description = none;
      channel_ids = none;
      enabled = true;
    }
    ∷ []

read_yaml-yaml_str_example : read_yaml (yaml_str (some "a\"b\\") ++s "\n") ≡ some ("a\"b\\", "\n")
read_yaml-yaml_str_example = read_yaml-yaml_str (some "a\"b\\") "\n" refl

seed_default_rules_idem_example :
    seed_default_rules (λ n. "v") "c" (seed_default_rules (λ n. "u") "c" one_rule)
    ≡ seed_default_rules (λ n. "u") "c" one_rule
seed_default_rules_idem_example = seed_default_rules_idem (λ n. "u") (λ n. "v") "c" one_rule

seconds_to_duration_lem : seconds_to_duration (pos 5400) ≡ "90m"
unfolding seconds_to_duration decimal
seconds_to_duration_lem = refl

read_duration-seconds_to_duration_example :
    read_duration (seconds_to_duration (pos 5400)) ≡ some 5400
read_duration-seconds_to_duration_example = read_duration-seconds_to_duration 5400
