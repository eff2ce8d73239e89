-- ===== src/Alerts/Templates.antt =====
-- services/alert_manager.py: the templates of alert rules (`RULE_TEMPLATES`).
use tantor_v.Prelude.{ℕ, String, [], ◌∷◌}
use tantor_v.Prelude.Dict.{Dict}

pub record Template : Type 0 where
  pub name : String
  pub severity : String
  pub for_seconds : ℕ
  pub expr : String
  pub summary : String
  pub description : String

abbrev broker_down : Template
broker_down = record {
  name = "BrokerDown";
  severity = "critical";
  for_seconds = 60;
  expr = "up{job=\"kafka-jmx\"} == 0";
  summary = "Kafka broker {{ $labels.instance }} is down";
  description = "JMX scrape is failing for {{ $labels.instance }} for over 1 minute.";
}

abbrev isr_shrunk : Template
isr_shrunk = record {
  name = "IsrShrunk";
  severity = "warning";
  for_seconds = 300;
  expr = "kafka_server_replicamanager_underreplicatedpartitions > 0";
  summary = "Under-replicated partitions on {{ $labels.instance }}";
  description = "{{ $value }} under-replicated partition(s) for over 5 minutes.";
}

abbrev consumer_lag_high : Template
consumer_lag_high = record {
  name = "ConsumerLagHigh";
  severity = "warning";
  for_seconds = 600;
  expr = "kafka_consumergroup_lag > 100000";
  summary = "Consumer lag > 100k on {{ $labels.consumergroup }}";
  description = "Consumer group {{ $labels.consumergroup }} is lagging by {{ $value }} messages.";
}

abbrev consumer_stalled : Template
consumer_stalled = record {
  name = "ConsumerStalled";
  severity = "warning";
  for_seconds = 900;
  expr = "kafka_consumergroup_lag > 0 and deriv(kafka_consumergroup_lag[15m]) >= 0";
  summary = "Consumer group {{ $labels.consumergroup }} is stalled (no progress)";
  description =
      "Consumer group {{ $labels.consumergroup }} has lag {{ $value }} that hasn't decreased in 15 minutes — likely a hung consumer.";
}

abbrev consumer_failed : Template
consumer_failed = record {
  name = "ConsumerFailed";
  severity = "critical";
  for_seconds = 300;
  expr = "kafka_consumergroup_members == 0";
  summary = "Consumer group {{ $labels.consumergroup }} has no live members";
  description =
      "Consumer group {{ $labels.consumergroup }} has zero active members for over 5 minutes — consumers may have crashed.";
}

abbrev disk_almost_full : Template
disk_almost_full = record {
  name = "DiskAlmostFull";
  severity = "warning";
  for_seconds = 300;
  expr =
      "(node_filesystem_avail_bytes{mountpoint=\"/\"} / node_filesystem_size_bytes{mountpoint=\"/\"}) < 0.20";
  summary = "Disk usage > 80% on {{ $labels.instance }}";
  description = "Less than 20% disk free on / for over 5 minutes.";
}

abbrev pub rule_templates : Dict Template
rule_templates =
    ("broker_down", broker_down)
    ∷ ("isr_shrunk", isr_shrunk)
    ∷ ("consumer_lag_high", consumer_lag_high)
    ∷ ("consumer_stalled", consumer_stalled)
    ∷ ("consumer_failed", consumer_failed)
    ∷ ("disk_almost_full", disk_almost_full)
    ∷ []
