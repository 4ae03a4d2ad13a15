-- ===== src/Engine/Frame.antt =====
-- The dispatch of a batch in engine.py, and the validity of the store.
use webhooks_engine.Prelude.{
  ◌+◌, ◌≡◌, inl, inr, true, List, [], ◌∷◌, Text, text_eq, text_eq→eq, lookup, contains, arith,
  Result, ok, err, Fault, All-map, leb, Bool-cases, Option-cases,
}
use webhooks_engine.Types.{DateTime, DeliveryRecord, AttemptRecord, DispatchOutcome}
use webhooks_engine.Store.Defs.{Store, append_attempt, mark_dead}
use webhooks_engine.Store.Invariant.{IsValid, append_attempt-IsValid, mark_dead-IsValid}
use webhooks_engine.Store.Marks.{Landed, mark_dead-Settles, records-append_attempt}
use webhooks_engine.Store.Leases.{Known}
use webhooks_engine.Dispatcher.Env.{Env}
use webhooks_engine.Dispatcher.Defs.{World, send}
use webhooks_engine.Dispatcher.Atomic.{Lands, send-Lands}
use webhooks_engine.Engine.Defs.{
  DispatchConfig, Moments, quarantine, unhandled_attempt, shield, dispatch_one, dispatch_all,
}

-- The store stays valid and keeps every id.
abbrev pub Keeps : Store → Store → Type 0
Keeps s s' = IsValid s' × ((k : Text) → contains k s.records ≡ true → contains k s'.records ≡ true)

Landed-keeps :
    (did : Text) {r : DeliveryRecord} {a : AttemptRecord} (s s' : Store)
    → Landed did r a s s'
    → (k : Text) → contains k s.records ≡ true
    → contains k s'.records ≡ true
Landed-keeps did s s' l k h = elim (Bool-cases (text_eq k did)) [
  | inl same ↦ ground (arith, text_eq→eq k did, l.own)
  | inr other ↦ ground (arith, l.others k other)
]

mark_dead-Keeps :
    (did : Text) (a : AttemptRecord) (s : Store) → IsValid s → Keeps s (mark_dead did a s).1
mark_dead-Keeps did a s v = (
  mark_dead-IsValid did a s v,
  λ k h. elim (Option-cases (lookup did s.records)) [
    | inl gone ↦ rw ((mark_dead-Settles did a s v).1 gone).1 h
    | inr (r, e) ↦ Landed-keeps did s _ ((mark_dead-Settles did a s v).0 r e).1 k h
  ],
)

append_attempt-Keeps :
    (did : Text) (a : AttemptRecord) (s : Store) → IsValid s → Keeps s (append_attempt did a s)
append_attempt-Keeps did a s v =
    (append_attempt-IsValid did a s v, λ k h. rw ((records-append_attempt did a s).0) h)

quarantine-Keeps :
    (cfg : DispatchConfig) (now : DateTime) (rec' : DeliveryRecord) (e : Fault) (s : Store)
    → IsValid s
    → Keeps s (quarantine cfg now rec' e s)
unfolding quarantine
quarantine-Keeps cfg now rec' e s v =
    let a = unhandled_attempt now rec' e in
    let (v', kept) = append_attempt-Keeps rec'.delivery_id a s v in
    elim (Bool-cases (leb cfg.max_unhandled_attempts (rec'.attempts + 1))) [
      | inl last ↦
          let (v'', kept') =
            mark_dead-Keeps rec'.delivery_id a (append_attempt rec'.delivery_id a s) v' in
          rw last (v'', λ k h. kept' k (kept k h))
      | inr more ↦ rw more (v', kept)
    ]

shield-Keeps :
    (cfg : DispatchConfig) (env : Env) (caught : DateTime) (rec' r : DeliveryRecord) (w : World)
    (ended : Result Fault DispatchOutcome × World)
    → IsValid w.store
    → Lands env rec' r w ended
    → Keeps w.store (shield cfg caught rec' ended).1.store
shield-Keeps cfg env caught rec' r w (ok o, w') v h =
    (h.1, Landed-keeps rec'.delivery_id w.store w'.store h.0)
shield-Keeps cfg env caught rec' r w (err e, w') v h =
    rw h.0 (quarantine-Keeps cfg caught rec' e w.store v)

pub dispatch_one-Keeps :
    (cfg : DispatchConfig) (env : Env) (at : Moments) (rec' : DeliveryRecord) (w : World)
    → IsValid w.store
    → contains rec'.delivery_id w.store.records ≡ true
    → Keeps w.store (dispatch_one cfg env at rec' w).1.store
unfolding dispatch_one
dispatch_one-Keeps cfg env (now, caught) rec' w v known =
    elim (Option-cases (lookup rec'.delivery_id w.store.records)) [
      | inl gone ↦ absurd (ground arith)
      | inr (r, e) ↦
          shield-Keeps cfg env caught rec' r w (send env now rec' w) v
            (send-Lands env now rec' r w (v, e))
    ]

pub dispatch_all-Keeps :
    (cfg : DispatchConfig) (env : Env) (at : DeliveryRecord → Moments) (batch : List DeliveryRecord)
    (w : World)
    → IsValid w.store
    → Known w.store.records batch
    → Keeps w.store (dispatch_all cfg env at batch w).1.store
unfolding dispatch_all
dispatch_all-Keeps cfg env at [] w v known = (v, λ k h. h)
dispatch_all-Keeps cfg env at (rec' ∷ batch) w v known =
    let w' = (dispatch_one cfg env (at rec') rec' w).1 in
    let (v', kept) = dispatch_one-Keeps cfg env (at rec') rec' w v known.0 in
    let (v'', kept') =
      dispatch_all-Keeps cfg env at batch w' v'
        (All-map _ _ batch (λ r. kept r.delivery_id) known.1) in
    (v'', λ k h. kept' k (kept k h))
