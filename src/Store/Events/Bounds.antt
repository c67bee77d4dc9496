-- ===== src/Store/Events/Bounds.antt =====
-- How much the delivery log keeps.
use esp32_rig.Base.{ℕ, ◌≤◌, min, ◌≡◌, String, List, [], ◌∷◌, arith}
use esp32_rig.Store.Table.{count_where}
use esp32_rig.Store.Events.{
  Delivery, Deliveries, is_of, keep_newest, record_webhook_delivery, webhook_deliveries_kept,
}

count_where-keep_newest :
    (sub : String) (n : ℕ) (ds : List Delivery)
    → count_where (is_of sub) (keep_newest sub n ds) ≡ min n (count_where (is_of sub) ds)
count_where-keep_newest sub n [] = omega arith
count_where-keep_newest sub n (d ∷ ds) = ground (arith, count_where-keep_newest sub n ds)

-- After any delivery at most two hundred of its subscription's are kept.
pub kept-le :
    (d : Delivery) (log : Deliveries)
    → count_where (is_of d.sub_id) (record_webhook_delivery d log).rows ≤ webhook_deliveries_kept
unfolding record_webhook_delivery
kept-le d log = omega (arith, count_where-keep_newest d.sub_id webhook_deliveries_kept)
