-- ===== src/Engine/Tick.antt =====
-- `tick` of engine.py as a whole: the store and the counters that it leaves.
use webhooks_engine.Prelude.{
  ℕ, suc, ap, Bool, true, false, if◌then◌else◌, ◌+◌, ◌≤◌, ◌≡◌, refl, ◌⊎◌, inl, inr, List, [], ◌∷◌,
  arith, Result, ok, err, Fault, All, All-map, length, Bool-cases, is_empty,
}
use webhooks_engine.Types.{
  DateTime, DeliveryRecord, DispatchOutcome, DeliveryStatus, is_sent, sent, failed_retry,
  dead_lettered,
}
use webhooks_engine.Store.Defs.{Store, claim_batch, reclaim_stale}
use webhooks_engine.Store.Invariant.{IsValid}
use webhooks_engine.Store.Leases.{Known}
use webhooks_engine.Store.Claim.{claim_batch-IsDue, claim_batch-IsValid, claim_batch-leases}
use webhooks_engine.Store.Reclaim.{reclaim_stale-expired, reclaim_stale-IsValid}
use webhooks_engine.Dispatcher.Env.{Env, Request}
use webhooks_engine.Dispatcher.Defs.{World, send}
use webhooks_engine.Dispatcher.Verdict.{
  Verdict, delivered, retried, given_up, stopped, Judged, send-Verdict,
}
use webhooks_engine.Engine.Defs.{
  DispatchConfig, Moments, EngineTickStats, shield, dispatch_one, dispatch_all, count_status,
  count_outcome, count_all, no_stats, tick,
}
use webhooks_engine.Engine.Frame.{dispatch_all-Keeps}

-- The records of a claimed batch are known to the store that the claim leaves.
claimed-Known :
    (now : DateTime) (ttl batch_size : ℕ) (s : Store)
    → IsValid s
    → let (batch, s') = claim_batch now ttl batch_size s in Known s'.records batch
claimed-Known now ttl batch_size s v =
    All-map _ _ _
      (λ r h. ground (arith, (claim_batch-leases now ttl batch_size s r.delivery_id v).0))
      (claim_batch-IsDue now ttl batch_size s v).2

-- A tick keeps the delivery store valid, whatever its sends run into.
pub tick-IsValid :
    (cfg : DispatchConfig) (env : Env) (now claim_now : DateTime) (at : DeliveryRecord → Moments)
    (w : World)
    → IsValid w.store
    → IsValid (tick cfg env now claim_now at w).1.store
unfolding tick
tick-IsValid cfg env now claim_now at w v =
    let s = (reclaim_stale now w.store).1 in
    let (batch, s') = claim_batch claim_now cfg.lease_ttl_s cfg.batch_size s in
    let v' = reclaim_stale-IsValid now w.store v in
    let v'' = claim_batch-IsValid claim_now cfg.lease_ttl_s cfg.batch_size s v' in
    let after =
      dispatch_all-Keeps cfg env at batch (record w { store = s' }) v''
        (claimed-Known claim_now cfg.lease_ttl_s cfg.batch_size s v') in
    elim (Bool-cases (is_empty batch)) [
      | inl nothing ↦ rw nothing v''
      | inr some_records ↦ rw some_records after.0
    ]

-- How many outcomes the counters hold.
abbrev total : EngineTickStats → ℕ
total t = t.sent + t.retried + t.dead + t.errors

-- An outcome of `send` is one of the three that are counted.
abbrev IsCounted : Result Fault DispatchOutcome → Type 0
IsCounted (ok o) = (o.status ≡ sent) ⊎ ((o.status ≡ failed_retry) ⊎ (o.status ≡ dead_lettered))
IsCounted (err e) = Unit

Verdict-IsCounted :
    (env : Env) (now : DateTime) (rec' : DeliveryRecord) (before after : List Request)
    (o : DispatchOutcome)
    → Verdict env now rec' before after o
    → IsCounted (ok o)
Verdict-IsCounted env now rec' before after o (delivered a c s e) = inl (ap (λ x. x.status) e)
Verdict-IsCounted env now rec' before after o (retried p a at f c t l b b' e) =
    inr (inl (ap (λ x. x.status) e))
Verdict-IsCounted env now rec' before after o (given_up p a f c n r e) =
    inr (inr (ap (λ x. x.status) e))
Verdict-IsCounted env now rec' before after o (stopped t n e) = inr (inr (ap (λ x. x.status) e))

dispatch_one-IsCounted :
    (cfg : DispatchConfig) (env : Env) (at : Moments) (rec' : DeliveryRecord) (w : World)
    → ((j : ℕ) → env.uniform j ≤ j + j)
    → IsCounted (dispatch_one cfg env at rec' w).0
unfolding dispatch_one
dispatch_one-IsCounted cfg env (now, caught) rec' w range =
    go (send env now rec' w) (send-Verdict env now rec' w range)
  where
    go :
        (ended : Result Fault DispatchOutcome × World)
        → Judged env now rec' w.posts ended
        → IsCounted (shield cfg caught rec' ended).0
    go (ok o, w') v = Verdict-IsCounted env now rec' w.posts w'.posts o v
    go (err e, w') v = tt

dispatch_all-IsCounted :
    (cfg : DispatchConfig) (env : Env) (at : DeliveryRecord → Moments) (batch : List DeliveryRecord)
    (w : World)
    → ((j : ℕ) → env.uniform j ≤ j + j)
    → let os = (dispatch_all cfg env at batch w).0 in All IsCounted os × (length os ≡ length batch)
unfolding dispatch_all
dispatch_all-IsCounted cfg env at [] w range = (tt, refl)
dispatch_all-IsCounted cfg env at (rec' ∷ batch) w range =
    let (counted, same) =
      dispatch_all-IsCounted cfg env at batch (dispatch_one cfg env (at rec') rec' w).1 range in
    ((dispatch_one-IsCounted cfg env (at rec') rec' w range, counted), ap suc same)

total-count_outcome :
    (o : Result Fault DispatchOutcome) (t : EngineTickStats)
    → IsCounted o
    → (total (count_outcome o t) ≡ total t + 1) × ((count_outcome o t).claimed ≡ t.claimed)
total-count_outcome (ok o) t h = ground arith
total-count_outcome (err e) t h = ground arith

total-count_all :
    (os : List (Result Fault DispatchOutcome)) (t : EngineTickStats)
    → All IsCounted os
    → (total (count_all os t) ≡ total t + length os) × ((count_all os t).claimed ≡ t.claimed)
unfolding count_all
total-count_all [] t h = (omega arith, refl)
total-count_all (o ∷ os) t h =
    ground (arith, total-count_outcome o t h.0, total-count_all os (count_outcome o t) h.1)

abbrev is_retried : DeliveryStatus → Bool
is_retried failed_retry = true
is_retried _ = false

abbrev is_dead : DeliveryStatus → Bool
is_dead dead_lettered = true
is_dead _ = false

-- How many of the sends ended with such a status, and how many raised.
abbrev pub ended : (DeliveryStatus → Bool) → List (Result Fault DispatchOutcome) → ℕ
ended p [] = 0
ended p (err e ∷ os) = ended p os
ended p (ok o ∷ os) = (if p o.status then 1 else 0) + ended p os

abbrev pub raised : List (Result Fault DispatchOutcome) → ℕ
raised [] = 0
raised (err e ∷ os) = 1 + raised os
raised (ok o ∷ os) = raised os

-- The counters from `t` to `u` are the tallies of the outcomes.
abbrev pub Tallies :
    List (Result Fault DispatchOutcome) → EngineTickStats → EngineTickStats → Type 0
Tallies os t u =
    (u.sent ≡ t.sent + ended is_sent os)
    × (u.retried ≡ t.retried + ended is_retried os)
    × (u.dead ≡ t.dead + ended is_dead os)
    × (u.errors ≡ t.errors + raised os)

count_status-tally :
    (st : DeliveryStatus) (t : EngineTickStats)
    → ((count_status st t).sent ≡ t.sent + (if is_sent st then 1 else 0))
      × ((count_status st t).retried ≡ t.retried + (if is_retried st then 1 else 0))
      × ((count_status st t).dead ≡ t.dead + (if is_dead st then 1 else 0))
      × ((count_status st t).errors ≡ t.errors)
count_status-tally sent t = ground arith
count_status-tally failed_retry t = ground arith
count_status-tally dead_lettered t = ground arith
count_status-tally _ t = ground arith

count_all-Tallies :
    (os : List (Result Fault DispatchOutcome)) (t : EngineTickStats) → Tallies os t (count_all os t)
unfolding count_all
count_all-Tallies [] t = ground arith
count_all-Tallies (err e ∷ os) t = ground (arith, count_all-Tallies os (count_outcome (err e) t))
count_all-Tallies (ok o ∷ os) t =
    ground (arith, count_all-Tallies os (count_status o.status t), count_status-tally o.status t)

empty-batch :
    (batch : List DeliveryRecord) (os : List (Result Fault DispatchOutcome))
    → length os ≡ length batch
    → is_empty batch ≡ true
    → (os ≡ []) × (length batch ≡ 0)
empty-batch [] [] h e = (refl, refl)
empty-batch [] (o ∷ os) h e = absurd (ground arith)
empty-batch (r ∷ batch) os h e = absurd (ground arith)

-- On a valid store, with the random draws in their range: a tick reports as claimed the records
-- that its claim takes from the store that its reclaim leaves, no more than `batch_size`; as
-- sent, to be retried, dead and errors the sends of these records that ended so; and these four
-- add up to the claimed ones.
pub tick-accounts :
    (cfg : DispatchConfig) (env : Env) (now claim_now : DateTime) (at : DeliveryRecord → Moments)
    (w : World)
    → IsValid w.store
    → ((j : ℕ) → env.uniform j ≤ j + j)
    → let s = (reclaim_stale now w.store).1 in
      let (batch, s') = claim_batch claim_now cfg.lease_ttl_s cfg.batch_size s in
      let os = (dispatch_all cfg env at batch (record w { store = s' })).0 in
      let stats = (tick cfg env now claim_now at w).0 in
      (stats.claimed ≡ length batch)
      × (stats.claimed ≤ cfg.batch_size)
      × Tallies os (no_stats 0 0) stats
      × (stats.sent + stats.retried + stats.dead + stats.errors ≡ stats.claimed)
unfolding tick
tick-accounts cfg env now claim_now at w v range =
    let s = (reclaim_stale now w.store).1 in
    let (batch, s') = claim_batch claim_now cfg.lease_ttl_s cfg.batch_size s in
    let bounded =
      (claim_batch-IsDue claim_now cfg.lease_ttl_s cfg.batch_size s
        (reclaim_stale-IsValid now w.store v)).0 in
    let quiet = (reclaim_stale-expired now w.store [] v).0 in
    let (counted, same) = dispatch_all-IsCounted cfg env at batch (record w { store = s' }) range in
    let os = (dispatch_all cfg env at batch (record w { store = s' })).0 in
    ground (
      arith,
      total-count_all os (no_stats (length batch) 0) counted,
      count_all-Tallies os (no_stats (length batch) 0),
      empty-batch batch os same,
    )
