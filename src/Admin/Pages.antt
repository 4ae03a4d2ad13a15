-- ===== src/Admin/Pages.antt =====
-- The pages of the delivery log over the in-memory store.
use webhooks_engine.Prelude.{
  ℕ, zero, suc, ◌+◌, ◌-◌, ◌≤◌, ◌<◌, ◌≡◌, refl, sym, ◌∙◌, ap, false, List, [], ◌∷◌, Text, text_eq,
  take, drop, filter, values, length, length-drop, arith, ◌==◌,
}
use webhooks_engine.Types.{DeliveryRecord}
use webhooks_engine.Store.Defs.{Store, recent_for_subscription, last_of}
use webhooks_engine.Admin.Defs.{list_deliveries}

drop-nil : {A : Type 0} (n : ℕ) → drop {A = A} n [] ≡ []
drop-nil zero = refl
drop-nil (suc n) = refl

drop-drop : {A : Type 0} (a b : ℕ) (xs : List A) → drop a (drop b xs) ≡ drop (b + a) xs
drop-drop a zero xs = let e : zero + a ≡ a = omega arith in rw e refl
drop-drop a (suc b) [] = drop-nil a ∙ sym (drop-nil (suc b + a))
drop-drop a (suc b) (x ∷ xs) =
    let e : suc b + a ≡ suc (b + a) = omega arith in rw e (drop-drop a b xs)

-- The records of a subscription, in the order in which they were enqueued.
abbrev pub log_of : Text → Store → List DeliveryRecord
log_of sub s = filter (λ r. text_eq r.subscription_id sub) (values s.records)

last_of-drop :
    (limit offset : ℕ) (xs : List DeliveryRecord)
    → 0 < limit
    → offset + limit ≤ length xs
    → drop offset (last_of (offset + limit) xs) ≡ drop (length xs - limit) xs
unfolding last_of
last_of-drop limit offset xs pos fits =
    let some_limit : (offset + limit == 0) ≡ false = ground arith in
    let e : length xs - (offset + limit) + offset ≡ length xs - limit = omega arith in
    rw some_limit (drop-drop offset (length xs - (offset + limit)) xs ∙ ap (λ n. drop n xs) e)

-- Every page that lies within the log is the same one: it shows the last `limit` records
-- of the log, whatever the offset; and its total is not the size of the log but `offset + limit`.
pub list_deliveries-repeats :
    (sub : Text) (limit offset : ℕ) (s : Store)
    → 0 < limit
    → offset + limit ≤ length (log_of sub s)
    → let page = list_deliveries sub limit offset s in
      (page.items ≡ take limit (drop (length (log_of sub s) - limit) (log_of sub s)))
      × (page.total ≡ offset + limit)
unfolding list_deliveries recent_for_subscription
list_deliveries-repeats sub limit offset s pos fits = (
  rw (last_of-drop limit offset (log_of sub s) pos fits) refl,
  unfold last_of in
      ground (arith, length-drop (length (log_of sub s) - (offset + limit)) (log_of sub s)),
)
