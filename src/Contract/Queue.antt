-- ===== src/Contract/Queue.antt =====
-- `WebhookDeliveryStoreProtocol` of protocols.py: its operations, and the laws on leases that the
-- docstrings of the protocol and of the stores promise.
use webhooks_engine.Prelude.{
  ℕ, ◌≡◌, Bool, true, Option, none, some, List, Text, text_eq, any, All, if◌then◌else◌,
}
use webhooks_engine.Types.{DateTime, DeliveryRecord, AttemptRecord}

-- The three transitions of a delivery that was sent.
pub data Mark : Type 0 where
  to_sent to_dead : AttemptRecord → Mark
  to_retry : DateTime → AttemptRecord → Mark

-- Whether the id is in the list.
abbrev pub has : Text → List Text → Bool
has k = any (text_eq k)

-- A store with its operations. `lease k` is the time until which `k` is leased, in the unit of
-- the store; `until` is the lease that a claim takes, and `is_over` says that a lease has run
-- out. `Locks` is what a claim sees of calls that have not ended. `Admits` says of a record what
-- the store wants of those who enqueue it.
pub record LeaseQueue (State : Type 0) : Type 1 where
  pub Locks : Type 0
  pub Admits : DeliveryRecord → State → Type 0
  pub IsValid : State → Type 0
  pub lease : Text → State → Option ℕ
  pub until : DateTime → ℕ → ℕ
  pub is_over : ℕ → DateTime → Bool
  pub claim : Locks → DateTime → ℕ → ℕ → State → List Text × State
  pub reclaim : DateTime → State → State
  pub mark : Text → Mark → State → State
  pub log : Text → AttemptRecord → State → State
  pub enqueue : List DeliveryRecord → State → State
  pub claim_IsValid :
      (w : Locks) (now : DateTime) (ttl n : ℕ) (s : State)
      → IsValid s
      → IsValid (claim w now ttl n s).1
  pub reclaim_IsValid : (now : DateTime) (s : State) → IsValid s → IsValid (reclaim now s)
  pub mark_IsValid : (k : Text) (m : Mark) (s : State) → IsValid s → IsValid (mark k m s)
  pub log_IsValid : (k : Text) (a : AttemptRecord) (s : State) → IsValid s → IsValid (log k a s)
  pub enqueue_IsValid :
      (rs : List DeliveryRecord) (s : State)
      → All (λ r. Admits r s) rs
      → IsValid s
      → IsValid (enqueue rs s)
  -- A claim hands out no id that is leased.
  pub claim_free :
      (w : Locks) (now : DateTime) (ttl n : ℕ) (s : State) (k : Text)
      → IsValid s
      → has k (claim w now ttl n s).0 ≡ true
      → lease k s ≡ none
  -- It leases what it hands out, and leaves every other lease.
  pub claim_takes :
      (w : Locks) (now : DateTime) (ttl n : ℕ) (s : State) (k : Text)
      → IsValid s
      → let (ids, s') = claim w now ttl n s in
        lease k s' ≡ (if has k ids then some (until now ttl) else lease k s)
  -- A reclaim ends the leases that are over, and no other.
  pub reclaim_keeps :
      (now : DateTime) (s : State) (k : Text) (e : ℕ)
      → IsValid s
      → lease k s ≡ some e
      → lease k (reclaim now s) ≡ (if is_over e now then none else some e)
  -- A transition ends the lease of its delivery, and no other.
  pub mark_frees :
      (j k : Text) (m : Mark) (s : State)
      → IsValid s
      → lease j (mark k m s) ≡ (if text_eq j k then none else lease j s)
  pub log_keeps :
      (j k : Text) (a : AttemptRecord) (s : State) → IsValid s → lease j (log k a s) ≡ lease j s
  pub enqueue_keeps :
      (j : Text) (rs : List DeliveryRecord) (s : State)
      → All (λ r. Admits r s) rs
      → IsValid s
      → lease j (enqueue rs s) ≡ lease j s
