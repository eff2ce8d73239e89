-- ===== src/Manager/Order.antt =====
-- services/cluster_manager.py: the orders of start and stop, against each other.
use tantor_v.Prelude.{◌+◌, ◌<◌, String, ◌≡◌, ◌≢◌, ◌↔◌, refl, arith}
use tantor_v.Models.{
  Role, broker, broker_controller, controller, zookeeper, ksqldb, kafka_connect, schema_registry,
  other,
}
use tantor_v.Manager.Units.{start_order, stop_order}

-- A role of the tables.
abbrev pub IsKnown : Role → Type 0
IsKnown role = (text : String) → role ≢ other text

start_order-stop_order : (role : Role) → IsKnown role → start_order role + stop_order role ≡ 3
unfolding start_order stop_order
start_order-stop_order broker h = refl
start_order-stop_order broker_controller h = refl
start_order-stop_order controller h = refl
start_order-stop_order zookeeper h = refl
start_order-stop_order ksqldb h = refl
start_order-stop_order kafka_connect h = refl
start_order-stop_order schema_registry h = refl
start_order-stop_order (other text) h = elim (h text refl) [ ]

-- Of two known roles the one that starts first stops last.
pub start_order-reverses :
    (a b : Role)
    → IsKnown a
    → IsKnown b
    → (start_order a < start_order b) ↔ (stop_order b < stop_order a)
start_order-reverses a b ka kb =
    let ha = start_order-stop_order a ka in
    let hb = start_order-stop_order b kb in (λ h. omega arith, λ h. omega arith)
