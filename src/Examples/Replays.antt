-- ===== src/Examples/Replays.antt =====
-- A redelivery, a ping and the pages of a log, on concrete data.
use webhooks_engine.Prelude.{
  ◌-◌, ◌≡◌, refl, none, some, [], ◌∷◌, codes, lookup, insert, text_eq, take, drop, length, arith,
  err, ok,
}
use webhooks_engine.Types.{DeliveryRecord, SubscriptionSnapshot}
use webhooks_engine.Store.Defs.{new, enqueue}
use webhooks_engine.Ssrf.Target.{TargetFault, check_target}
use webhooks_engine.Admin.Defs.{delivery_not_found, bad_target, redeliver, list_deliveries}
use webhooks_engine.Admin.Replay.{Adds, Repeats, Claimable, redeliver-Guarded}
use webhooks_engine.Admin.Pages.{log_of, list_deliveries-repeats}
use webhooks_engine.Examples.Setup.{net, security, store, lost}

fresh_id : lookup (codes "n") store.records ≡ none
unfolding enqueue new lookup insert text_eq
fresh_id = refl

redeliver-Guarded_example :
    let ended = redeliver net security (codes "n") 9 (codes "a") store in
    (lookup (codes "a") store.records ≡ none → ended ≡ (err delivery_not_found, store))
    × ((r : DeliveryRecord)
        → lookup (codes "a") store.records ≡ some r
        → ((e : TargetFault)
            → check_target net security r.resolved_ip r.target_url ≡ err e
            → ended ≡ (err (bad_target e), store))
          × (check_target net security r.resolved_ip r.target_url ≡ ok tt
              → (c : DeliveryRecord) × Repeats net security 9 store (codes "n") r c
                × Adds c store ended
                × Claimable net security 9 store (codes "n") 12 30 5 c ended.1))
redeliver-Guarded_example =
    redeliver-Guarded net security 9 store (codes "n") (codes "a") 12 30 5 fresh_id (omega arith)

abbrev subscription : SubscriptionSnapshot
subscription = record {
  id = codes "sub";
  owner_id = codes "owner";
  url = codes "https://a.example";
  resolved_ip = codes "8.8.8.8";
}

log_size : length (log_of (codes "sub") store) ≡ 3
unfolding enqueue new lookup insert text_eq
log_size = refl

list_deliveries-repeats_example :
    let page = list_deliveries (codes "sub") 1 2 store in
    let log = log_of (codes "sub") store in
    (page.items ≡ take 1 (drop (length log - 1) log)) × (page.total ≡ 3)
list_deliveries-repeats_example =
    list_deliveries-repeats (codes "sub") 1 2 store (omega arith) (omega (arith, log_size))

-- The first and the last page of three records are the same.
pages-test :
    ((list_deliveries (codes "sub") 1 0 store).items ≡ lost ∷ [])
    × ((list_deliveries (codes "sub") 1 2 store).items ≡ lost ∷ [])
unfolding list_deliveries enqueue new lookup insert text_eq
pages-test = (refl, refl)
