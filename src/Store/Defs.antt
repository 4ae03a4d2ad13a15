-- ===== src/Store/Defs.antt =====
-- webhook_engine/stores/memory.py: `MemoryWebhookDeliveryStore`.
-- Each method runs under the store's lock, so it is one atomic action on the three dicts. A
-- method that raises (`KeyError` of an unknown id) leaves what it had written before.
use webhooks_engine.Prelude.{
  ℕ, ◌+◌, ◌-◌, Bool, ◌&&◌, Option, none, some, List, [], ◌∷◌, ◌++◌, Text, Dict, text_eq, lookup,
  contains, insert, erase, values, length, take, drop, filter, ltb, leb, ◌==◌, if◌then◌else◌,
  Result, ok, err, Fault, key_error, Action, ◌>>◌, modify,
}
use webhooks_engine.Types.{
  DateTime, DeliveryRecord, AttemptRecord, DeliveryStatus, pending, in_flight, sent, failed_retry,
  dead_lettered, is_ready, is_in_flight, seconds,
}

pub record Store : Type 0 where
  pub records : Dict DeliveryRecord
  pub attempts : Dict (List AttemptRecord)
  pub lease_expiry : Dict DateTime

unfoldable pub new : Store
new = record { records = []; attempts = []; lease_expiry = [] }

abbrev pub Call : Type 0 → Type 0
Call A = Action Store A

-- The body of the loop of `enqueue_many`.
unfoldable pub enqueue : DeliveryRecord → Store → Store
enqueue r s = if contains r.delivery_id s.records then s else record s {
  records = insert r.delivery_id r s.records;
  attempts = insert r.delivery_id [] s.attempts;
}

unfoldable pub enqueue_many : List DeliveryRecord → Store → Store
unfolding enqueue
enqueue_many [] s = s
enqueue_many (r ∷ rs) s = enqueue_many rs (enqueue r s)

-- `self._records[delivery_id] = f(self._records[delivery_id])`
abbrev pub update_record : Text → (DeliveryRecord → DeliveryRecord) → Call (Unit {0})
update_record did f s = elim (lookup did s.records) [
  | none ↦ (err key_error, s)
  | some r ↦ (ok tt, record s { records = insert did (f r) s.records })
]

-- `_set_status`
abbrev pub set_status : Text → DeliveryStatus → Call (Unit {0})
set_status did st = update_record did (λ r. record r { status = st })

-- `self._attempts[delivery_id].append(attempt)`
abbrev pub add_attempt : Text → AttemptRecord → Call (Unit {0})
add_attempt did a s = elim (lookup did s.attempts) [
  | none ↦ (err key_error, s)
  | some as' ↦ (ok tt, record s { attempts = insert did (as' ++ a ∷ []) s.attempts })
]

-- `self._lease_expiry.pop(delivery_id, None)`
abbrev pub pop_lease : Text → Call (Unit {0})
pop_lease did = modify (λ s. record s { lease_expiry = erase did s.lease_expiry })

-- The three steps that `mark_sent`, `schedule_retry` and `mark_dead` share.
abbrev pub settle : Text → (DeliveryRecord → DeliveryRecord) → AttemptRecord → Call (Unit {0})
settle did f a = do update_record did f; add_attempt did a; pop_lease did

unfoldable pub mark_sent : Text → AttemptRecord → Call (Unit {0})
mark_sent did a = settle did (λ r. record r { status = sent }) a

unfoldable pub schedule_retry : Text → DateTime → AttemptRecord → Call (Unit {0})
schedule_retry did fire_at a =
    settle did
      (λ r. record r { status = failed_retry; fire_at = fire_at; attempts = r.attempts + 1 }) a

unfoldable pub mark_dead : Text → AttemptRecord → Call (Unit {0})
mark_dead did a = settle did (λ r. record r { status = dead_lettered }) a

-- `self._attempts.setdefault(delivery_id, []).append(attempt)`
unfoldable pub append_attempt : Text → AttemptRecord → Store → Store
append_attempt did a s = elim (lookup did s.attempts) [
  | none ↦ record s { attempts = insert did (a ∷ []) s.attempts }
  | some as' ↦ record s { attempts = insert did (as' ++ a ∷ []) s.attempts }
]

unfoldable pub get : Text → Store → Option DeliveryRecord
get did s = lookup did s.records

-- `xs[-limit:]`; at 0 that is the whole list.
unfoldable pub last_of {ℓ} : {A : Type ℓ} → ℕ → List A → List A
last_of limit xs = if limit == 0 then xs else drop (length xs - limit) xs

unfoldable pub recent_for_subscription : Text → ℕ → Store → List DeliveryRecord
unfolding last_of
recent_for_subscription sub_id limit s =
    last_of limit (filter (λ r. text_eq r.subscription_id sub_id) (values s.records))

-- The test of the generator in `claim_batch`.
unfoldable pub claimable : DateTime → DeliveryRecord → Bool
claimable now r = is_ready r.status && leb r.fire_at now

-- `sorted(…, key=lambda r: r.fire_at)` is stable: a record goes in front of those that are not
-- earlier, from the last to the first.
unfoldable pub insert_by_fire_at : DeliveryRecord → List DeliveryRecord → List DeliveryRecord
insert_by_fire_at r [] = r ∷ []
insert_by_fire_at r (x ∷ xs) =
    if leb r.fire_at x.fire_at then r ∷ x ∷ xs else x ∷ insert_by_fire_at r xs

unfoldable pub sort_by_fire_at : List DeliveryRecord → List DeliveryRecord
unfolding insert_by_fire_at
sort_by_fire_at [] = []
sort_by_fire_at (r ∷ rs) = insert_by_fire_at r (sort_by_fire_at rs)

-- `ready` in `claim_batch`.
unfoldable pub ready : DateTime → Store → List DeliveryRecord
unfolding sort_by_fire_at claimable
ready now s = sort_by_fire_at (filter (claimable now) (values s.records))

-- The body of the loop of `claim_batch`.
unfoldable pub lease : DateTime → DeliveryRecord → Store → Store
lease expiry r s = record s {
  records = insert r.delivery_id (record r { status = in_flight }) s.records;
  lease_expiry = insert r.delivery_id expiry s.lease_expiry;
}

unfoldable pub lease_all : DateTime → List DeliveryRecord → Store → Store
unfolding lease
lease_all expiry [] s = s
lease_all expiry (r ∷ rs) s = lease_all expiry rs (lease expiry r s)

unfoldable pub claim_batch : DateTime → ℕ → ℕ → Store → List DeliveryRecord × Store
unfolding ready lease_all
claim_batch now lease_ttl_s batch_size s =
    let batch = take batch_size (ready now s) in
    (batch, lease_all (now + seconds lease_ttl_s) batch s)

-- `stale` in `reclaim_stale`; `self._records[did]` is read for an expired lease only, and raises
-- where there is no such record.
unfoldable pub stale_ids : DateTime → Dict DeliveryRecord → Dict DateTime → Result Fault (List Text)
stale_ids now records [] = ok []
stale_ids now records ((did, expiry) ∷ leases) =
    let rest = stale_ids now records leases in
    if ltb expiry now
    then elim (lookup did records) [
      | none ↦ err key_error
      | some r ↦ elim rest [
        | err e ↦ err e
        | ok ids ↦ ok (if is_in_flight r.status then did ∷ ids else ids)
      ]
    ]
    else rest

-- The body of the second loop of `reclaim_stale`.
unfoldable pub release : Text → Call (Unit {0})
release did = do set_status did pending; pop_lease did

unfoldable pub release_all : List Text → Call (Unit {0})
unfolding release
release_all [] s = (ok tt, s)
release_all (did ∷ ids) s =
    let (r, s') = release did s in elim r [ ok _ ↦ release_all ids s' | err e ↦ (err e, s') ]

unfoldable pub reclaim_stale : DateTime → Call ℕ
unfolding stale_ids release_all
reclaim_stale now s = elim (stale_ids now s.records s.lease_expiry) [
  | err e ↦ (err e, s)
  | ok ids ↦
      let (r, s') = release_all ids s in (elim r [ ok _ ↦ ok (length ids) | err e ↦ err e ], s')
]
