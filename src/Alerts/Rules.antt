-- ===== src/Alerts/Rules.antt =====
-- services/alert_manager.py: the rules that are seeded for a cluster, and the file of rules that
-- Prometheus reads.
use tantor_v.Prelude.{
  ℕ, ◌+◌, String, Bool, true, Option, none, some, List, [], ◌∷◌, ◌++◌, ◌==◌, any, filter, map,
  if◌then◌else◌,
}
use tantor_v.Prelude.Int.{ℤ, pos}
use tantor_v.Prelude.Text.{concat, join, strip, split}
use tantor_v.Models.{or_text}
use tantor_v.Alerts.Templates.{Template, rule_templates}
use tantor_v.Alerts.Scalars.{yaml_str, seconds_to_duration}

-- A row of "alert_rules".
pub record AlertRule : Type 0 where
  pub id : String
  pub cluster_id : String
  pub name : String
  pub expr : String
  pub for_seconds : ℤ
  pub severity : String
  pub summary : Option String
  pub description : Option String
  pub channel_ids : Option String
  pub enabled : Bool

abbrev pub seeded : String → String → Template → AlertRule
seeded id cluster_id tpl = record {
  id = id;
  cluster_id = cluster_id;
  name = tpl.name;
  expr = tpl.expr;
  for_seconds = pos tpl.for_seconds;
  severity = tpl.severity;
  summary = some tpl.summary;
  description = some tpl.description;
  channel_ids = some "[]";
  enabled = true;
}

-- `tpl["name"] in existing_names`
abbrev pub has_name : String → List AlertRule → Bool
has_name name rules = any (λ r. r.name == name) rules

-- The loop of `seed_default_rules`: the rows that it adds. The names are read before it, and the
-- ids are the uuids in the order in which they come.
unfoldable pub seed_from : (ℕ → String) → String → List AlertRule → List Template → List AlertRule
seed_from uuid cluster_id existing [] = []
seed_from uuid cluster_id existing (tpl ∷ rest) =
    let later = seed_from (λ n. uuid (n + 1)) cluster_id existing rest in
    let same = seed_from uuid cluster_id existing rest in
    if has_name tpl.name existing then same else seeded (uuid 0) cluster_id tpl ∷ later

-- `seed_default_rules`: the table after it.
unfoldable pub seed_default_rules : (ℕ → String) → String → List AlertRule → List AlertRule
seed_default_rules uuid cluster_id rules =
    rules
    ++ seed_from uuid cluster_id (filter (λ r. r.cluster_id == cluster_id) rules)
        (map (λ e. e.1) rule_templates)

abbrev first : List String → String
first [] = ""
first (s ∷ rest) = s

-- `(rule.channel_ids.split(",") + [""])[0].strip()`, where there is a label at all.
unfoldable pub primary_channel : AlertRule → Option String
primary_channel rule =
    let channel_ids = or_text rule.channel_ids "" in
    let primary = strip (first (split b',' channel_ids)) in
    if channel_ids == "" then none else if primary == "" then none else some primary

abbrev line : String → Option String → String
line key value = concat (key ∷ yaml_str value ∷ [])

abbrev channel_lines : Option String → List String
channel_lines none = []
channel_lines (some primary) = line "          tantor_channel: " (some primary) ∷ []

abbrev description_lines : String → List String
description_lines text = if text == "" then [] else line "          description: " (some text) ∷ []

-- The lines of one rule.
unfoldable pub rule_lines : AlertRule → List String
rule_lines rule =
    line "      - alert: " (some rule.name)
      ∷ line "        expr: " (some rule.expr)
      ∷ concat ("        for: " ∷ seconds_to_duration rule.for_seconds ∷ [])
      ∷ "        labels:"
      ∷ line "          severity: " (some rule.severity)
      ∷ line "          tantor_cluster_id: " (some rule.cluster_id)
      ∷ line "          tantor_rule_id: " (some rule.id)
      ∷ channel_lines (primary_channel rule)
    ++ "        annotations:"
      ∷ line "          summary: " (some (or_text rule.summary rule.name))
      ∷ description_lines (or_text rule.description "")

rules_lines : List AlertRule → List String
rules_lines [] = []
rules_lines (rule ∷ rest) =
    let later = rules_lines rest in if rule.enabled then rule_lines rule ++ later else later

-- `render_prometheus_rules`
unfoldable pub render_prometheus_rules : List AlertRule → String
unfolding rules_lines
render_prometheus_rules rules =
    concat
      (join "\n" ("groups:" ∷ "  - name: tantor" ∷ "    rules:" ∷ rules_lines rules) ∷ "\n" ∷ [])
