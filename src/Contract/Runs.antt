-- ===== src/Contract/Runs.antt =====
-- Workers that share a store: any sequence of their calls, as a step relation.
use webhooks_engine.Prelude.{
  ℕ, ◌≡◌, ◌∙◌, true, false, some, List, Text, text_eq, All, arith, Bool-cases,
}
use webhooks_engine.Types.{DateTime, DeliveryRecord, AttemptRecord}
use webhooks_engine.Contract.Queue.{Mark, LeaseQueue, has}

module _ {State : Type 0} (q : LeaseQueue State) where
  open q use {
    Locks, Admits, IsValid, lease, until, is_over, claim, reclaim, mark, log, enqueue,
    claim_IsValid, reclaim_IsValid, mark_IsValid, log_IsValid, enqueue_IsValid, claim_free,
    claim_takes, reclaim_keeps, mark_frees, log_keeps, enqueue_keeps,
  }

  -- A call by any worker that does not end the lease of `k` until `e`: it is no transition of `k`,
  -- and a reclaim comes before the lease is over. What is enqueued is what the store admits.
  pub data Step (k : Text) (e : ℕ) (s : State) : State → Type 0 where
    claims : (w : Locks) (now : DateTime) (ttl n : ℕ) → Step k e s (claim w now ttl n s).1
    reclaims : (now : DateTime) → is_over e now ≡ false → Step k e s (reclaim now s)
    marks : (j : Text) (m : Mark) → text_eq k j ≡ false → Step k e s (mark j m s)
    logs : (j : Text) (a : AttemptRecord) → Step k e s (log j a s)
    enqueues : (rs : List DeliveryRecord) → All (λ r. Admits r s) rs → Step k e s (enqueue rs s)

  pub data Run (k : Text) (e : ℕ) (s : State) : State → Type 0 where
    stop : Run k e s s
    next : {t u : State} → Run k e s t → Step k e t u → Run k e s u

  Step-keeps :
      {k : Text} {e : ℕ} {s t : State}
      → IsValid s
      → lease k s ≡ some e
      → Step k e s t
      → IsValid t × (lease k t ≡ some e)
  Step-keeps {k} {e} {s} v h (claims w now ttl n) = (
    claim_IsValid w now ttl n s v,
    ground (
      arith,
      claim_takes w now ttl n s k v,
      claim_free w now ttl n s k v,
      Bool-cases (has k (claim w now ttl n s).0),
    ),
  )
  Step-keeps {k} {e} {s} v h (reclaims now running) =
      (reclaim_IsValid now s v, ground (arith, reclaim_keeps now s k e v h))
  Step-keeps {k} {s} v h (marks j m other) =
      (mark_IsValid j m s v, ground (arith, mark_frees k j m s v))
  Step-keeps {k} {s} v h (logs j a) = (log_IsValid j a s v, log_keeps k j a s v ∙ h)
  Step-keeps {k} {s} v h (enqueues rs fresh) =
      (enqueue_IsValid rs s fresh v, enqueue_keeps k rs s fresh v ∙ h)

  -- A lease survives every run of other calls.
  pub Run-keeps :
      {k : Text} {e : ℕ} {s t : State}
      → IsValid s
      → lease k s ≡ some e
      → Run k e s t
      → IsValid t × (lease k t ≡ some e)
  Run-keeps v h stop = (v, h)
  Run-keeps v h (next r step) = let (v', h') = Run-keeps v h r in Step-keeps v' h' step

  -- The lease that a claim takes stands after every run of other calls.
  pub Run-lease :
      (w : Locks) (now : DateTime) (ttl n : ℕ) (k : Text) (s t : State)
      → IsValid s
      → has k (claim w now ttl n s).0 ≡ true
      → Run k (until now ttl) (claim w now ttl n s).1 t
      → IsValid t × (lease k t ≡ some (until now ttl))
  Run-lease w now ttl n k s t v taken r =
      Run-keeps (claim_IsValid w now ttl n s v) (ground (arith, claim_takes w now ttl n s k v)) r

  -- What is leased is not handed out.
  pub claimed_free :
      (w : Locks) (now : DateTime) (ttl n : ℕ) (k : Text) (s : State) {e : ℕ}
      → IsValid s
      → lease k s ≡ some e
      → has k (claim w now ttl n s).0 ≡ false
  claimed_free w now ttl n k s v h =
      ground (arith, claim_free w now ttl n s k v, Bool-cases (has k (claim w now ttl n s).0))

  -- Once a claim has handed out `k`, no claim hands it out again, after any sequence of calls by
  -- any workers in which `k` is not marked and no reclaim finds the lease over.
  pub Run-exclusive :
      (w w' : Locks) (now now' : DateTime) (ttl ttl' n n' : ℕ) (k : Text) (s t : State)
      → IsValid s
      → has k (claim w now ttl n s).0 ≡ true
      → Run k (until now ttl) (claim w now ttl n s).1 t
      → has k (claim w' now' ttl' n' t).0 ≡ false
  Run-exclusive w w' now now' ttl ttl' n n' k s t v taken r =
      let (v', h) = Run-lease w now ttl n k s t v taken r in claimed_free w' now' ttl' n' k t v' h
