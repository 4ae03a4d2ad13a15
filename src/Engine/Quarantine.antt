-- ===== src/Engine/Quarantine.antt =====
-- What `_quarantine` leaves of a record whose `send` raised.
use webhooks_engine.Prelude.{
  In, All-In, text_eq, ap, true, ◌+◌, ◌<◌, ◌≡◌, refl, inl, inr, Bool, none, some, List, [], ◌∷◌,
  ◌++◌, Text, lookup, lookup-insert, text_eq_refl, arith, if◌then◌else◌, Result, ok, err, Fault,
  leb, Bool-cases,
}
use webhooks_engine.Types.{
  DateTime, DeliveryRecord, AttemptRecord, DispatchOutcome, dead_lettered, pending, seconds,
}
use webhooks_engine.Store.Defs.{Store, append_attempt, claim_batch, reclaim_stale}
use webhooks_engine.Store.Claim.{
  listed, leased_record, claim_batch-IsDue, claim_batch-IsValid, claim_batch-leases,
}
use webhooks_engine.Store.Invariant.{IsValid, append_attempt-IsValid}
use webhooks_engine.Store.Marks.{mark_dead-Settles, records-append_attempt}
use webhooks_engine.Store.Reclaim.{reclaim_stale-expired}
use webhooks_engine.Dispatcher.Env.{Env}
use webhooks_engine.Dispatcher.Defs.{World, send}
use webhooks_engine.Dispatcher.Atomic.{Lands, Stands, send-Lands}
use webhooks_engine.Engine.Defs.{
  DispatchConfig, quarantine, unhandled_attempt, shield, dispatch_one,
}
use webhooks_engine.Engine.Frame.{dispatch_one-Keeps}

-- What a quarantine leaves of the record `r` that the store holds under the id: the record, its
-- lease, and how the attempts of the id grow.
abbrev pub Parked : Bool → Text → DeliveryRecord → AttemptRecord → Store → Store → Type 0
Parked last did r a s s' =
    (lookup did s'.records ≡ some (if last then record r { status = dead_lettered } else r))
    × (lookup did s'.lease_expiry ≡ (if last then none else lookup did s.lease_expiry))
    × ((as' : List AttemptRecord)
        → lookup did s.attempts ≡ some as'
        → lookup did s'.attempts ≡ some (if last then (as' ++ a ∷ []) ++ a ∷ [] else as' ++ a ∷ []))

log-append_attempt :
    (did : Text) (a : AttemptRecord) (s : Store) (as' : List AttemptRecord)
    → lookup did s.attempts ≡ some as'
    → lookup did (append_attempt did a s).attempts ≡ some (as' ++ a ∷ [])
unfolding append_attempt
log-append_attempt did a s as' e =
    ground (arith, lookup-insert did did (as' ++ a ∷ []) s.attempts, text_eq_refl did)

quarantine-Parked :
    (cfg : DispatchConfig) (caught : DateTime) (rec' r : DeliveryRecord) (e : Fault) (s : Store)
    → IsValid s
    → lookup rec'.delivery_id s.records ≡ some r
    → Parked
        (leb cfg.max_unhandled_attempts (rec'.attempts + 1))
        rec'.delivery_id
        r
        (unhandled_attempt caught rec' e)
        s
        (quarantine cfg caught rec' e s)
unfolding quarantine
quarantine-Parked cfg caught rec' r e s v h =
    let did = rec'.delivery_id in
    let a = unhandled_attempt caught rec' e in
    let s' = append_attempt did a s in
    let v' = append_attempt-IsValid did a s v in
    let (same, same_leases) = records-append_attempt did a s in
    elim (Bool-cases (leb cfg.max_unhandled_attempts (rec'.attempts + 1))) [
      | inl last ↦
          let dead = ((mark_dead-Settles did a s' v').0 r (rw same h)).1 in
          rw last (
            dead.own,
            dead.unleased,
            λ as' k. dead.log (as' ++ a ∷ []) (log-append_attempt did a s as' k),
          )
      | inr more ↦
          rw more (rw same h, rw same_leases refl, λ as' k. log-append_attempt did a s as' k)
    ]

-- Where a valid store holds `r` under the id of the record that is sent, a send that raises
-- leaves `r` and its lease as they were, with the synthetic attempt logged once, unless `attempts
-- + 1` of the record that is sent reaches `max_unhandled_attempts`: then `r` is DEAD_LETTERED,
-- its lease is gone, and the attempt is logged twice. The exception is raised again.
pub dispatch_one-Parked :
    (cfg : DispatchConfig) (env : Env) (now caught : DateTime) (rec' r : DeliveryRecord) (w : World)
    (e : Fault)
    → Stands rec' r w
    → (send env now rec' w).0 ≡ err e
    → let (res, w') = dispatch_one cfg env (now, caught) rec' w in
      (res ≡ err e)
      × Parked
          (leb cfg.max_unhandled_attempts (rec'.attempts + 1))
          rec'.delivery_id
          r
          (unhandled_attempt caught rec' e)
          w.store
          w'.store
unfolding dispatch_one
dispatch_one-Parked cfg env now caught rec' r w e h raised =
    go (send env now rec' w) (send-Lands env now rec' r w h) raised
  where
    go :
        (ended : Result Fault DispatchOutcome × World)
        → Lands env rec' r w ended
        → ended.0 ≡ err e
        → ((shield cfg caught rec' ended).0 ≡ err e)
          × Parked
              (leb cfg.max_unhandled_attempts (rec'.attempts + 1))
              rec'.delivery_id
              r
              (unhandled_attempt caught rec' e)
              w.store
              (shield cfg caught rec' ended).1.store
    go (ok o, w') l raised = absurd (ground arith)
    go (err e', w') (same, _) raised =
        let same_fault : e' ≡ e = ground arith in
        (raised, rw same (rw same_fault (quarantine-Parked cfg caught rec' r e w.store h.0 h.1)))

-- The world with the store that the claim of a tick leaves.
abbrev pub claimed : DispatchConfig → DateTime → World → World
claimed cfg claim_now w = record w {
  store = (claim_batch claim_now cfg.lease_ttl_s cfg.batch_size w.store).1;
}

In-listed :
    (r : DeliveryRecord) (rs : List DeliveryRecord) → In r rs → listed r.delivery_id rs ≡ true
In-listed r [] i = absurd i
In-listed r (x ∷ rs) (inl same) =
    ground (arith, text_eq_refl r.delivery_id, ap (λ (y : DeliveryRecord). y.delivery_id) same)
In-listed r (x ∷ rs) (inr there) =
    ground (arith, In-listed r rs there, Bool-cases (text_eq r.delivery_id x.delivery_id))

-- From a valid store, a record that a claim hands out, and that is sent straight after the claim,
-- makes no progress where its send raises and its `attempts + 1` is below
-- `max_unhandled_attempts`: once the lease of the claim has run out, a reclaim gives back the
-- record that was handed out, pending, with the same number of attempts.
pub dispatch_one-loops :
    (cfg : DispatchConfig) (env : Env) (claim_now now caught later : DateTime)
    (rec' : DeliveryRecord) (w : World) (e : Fault)
    → IsValid w.store
    → In rec' (claim_batch claim_now cfg.lease_ttl_s cfg.batch_size w.store).0
    → (send env now rec' (claimed cfg claim_now w)).0 ≡ err e
    → rec'.attempts + 1 < cfg.max_unhandled_attempts
    → claim_now + seconds cfg.lease_ttl_s < later
    → let s' = (dispatch_one cfg env (now, caught) rec' (claimed cfg claim_now w)).1.store in
      lookup rec'.delivery_id (reclaim_stale later s').1.records
      ≡ some (record rec' { status = pending })
dispatch_one-loops cfg env claim_now now caught later rec' w e v taken raised more late =
    let w' = claimed cfg claim_now w in
    let k = rec'.delivery_id in
    let v' = claim_batch-IsValid claim_now cfg.lease_ttl_s cfg.batch_size w.store v in
    let (records, leases) =
      claim_batch-leases claim_now cfg.lease_ttl_s cfg.batch_size w.store k v in
    let due =
      All-In _ _ (claim_batch-IsDue claim_now cfg.lease_ttl_s cfg.batch_size w.store v).2 taken in
    let handed = In-listed rec' _ taken in
    let held : lookup k w'.store.records ≡ some (leased_record rec') = ground arith in
    let leased : lookup k w'.store.lease_expiry ≡ some (claim_now + seconds cfg.lease_ttl_s) =
      ground arith in
    let v'' = (dispatch_one-Keeps cfg env (now, caught) rec' w' v' (ground arith)).0 in
    ground (
      arith,
      dispatch_one-Parked cfg env now caught rec' (leased_record rec') w' e (v', held) raised,
      reclaim_stale-expired later (dispatch_one cfg env (now, caught) rec' w').1.store k v'',
    )
