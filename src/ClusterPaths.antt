-- ===== src/ClusterPaths.antt =====
-- services/cluster_paths.py: the install directory and the systemd unit of a cluster. The settings
-- are read from the environment when the module is loaded; they are a parameter.
pub mod Assign
pub mod Slugs
pub mod Twice
mod Tests
use tantor_v.Prelude.{String, some}
use tantor_v.Models.{Cluster, or_text}

pub record Settings : Type 0 where
  pub kafka_install_dir : String
  pub kafka_data_dir : String

abbrev pub default_unit_name : String
default_unit_name = "kafka.service"

abbrev pub default_install_dir : Settings → String
default_install_dir settings = or_text (some settings.kafka_install_dir) "/opt/kafka"

abbrev pub default_data_dir : Settings → String
default_data_dir settings = or_text (some settings.kafka_data_dir) "/var/lib/kafka/data"

abbrev pub install_dir : Settings → Cluster → String
install_dir settings cluster = or_text cluster.kafka_install_dir (default_install_dir settings)

abbrev pub data_dir : Settings → Cluster → String
data_dir settings cluster = or_text cluster.kafka_data_dir (default_data_dir settings)

abbrev pub unit_name : Cluster → String
unit_name cluster = or_text cluster.kafka_unit_name default_unit_name
