-- ===== src/Mongo/Queue.antt =====
-- The Mongo delivery store as a `LeaseQueue`.
use webhooks_engine.Prelude.{
  ℕ, ◌≡◌, refl, ◌∙◌, true, false, none, some, List, [], ◌∷◌, Text, text_eq, text_eq→eq, lookup,
  contains, insert, lookup-insert, ltb, arith, if◌then◌else◌, Option-cases, Bool-cases, inl, inr,
}
use webhooks_engine.Prelude.Tables.{update_where, lookup-update_where}
use webhooks_engine.Prelude.Keyed.{update_where-IsKeyed, insert-IsKeyed, lookup-update_key}
use webhooks_engine.Types.{DateTime, DeliveryRecord, AttemptRecord, pending, is_in_flight}
use webhooks_engine.Contract.Queue.{Mark, to_sent, to_dead, to_retry, LeaseQueue, has}
use webhooks_engine.Contract.Runs.{Run, Run-exclusive}
use webhooks_engine.Mongo.Defs.{
  bson_date, Doc, Collection, record_to_doc, id_of, insert_all, enqueue_many, is_id, claim_batch,
  is_stale, set_free, reclaim_stale, push, mark_sent, schedule_retry, mark_dead, append_attempt,
}
use webhooks_engine.Mongo.Claims.{
  lease_of, doc_lease, IsValid, ids_of, until, claim, mark, claim_IsValid_lem, claim_free_lem,
  claim_takes_lem,
}

update_id-frees :
    (j k : Text) (f : Doc → Doc) (docs : Collection)
    → IsValid docs
    → ((doc : Doc) → doc_lease (some (f doc)) ≡ none)
    → lease_of j (update_where (is_id k) f docs) ≡ (if text_eq j k then none else lease_of j docs)
update_id-frees j k f docs v free = elim (Option-cases (lookup j docs)) [
  | inl gone ↦ ground (arith, lookup-update_key id_of j k f docs v)
  | inr (doc, e) ↦ ground (arith, lookup-update_key id_of j k f docs v, free doc)
]

pub mark_IsValid_lem :
    (limit : ℕ) (k : Text) (m : Mark) (docs : Collection)
    → IsValid docs
    → IsValid (mark limit k m docs)
unfolding mark_sent mark_dead schedule_retry
mark_IsValid_lem limit k (to_sent a) docs v =
    update_where-IsKeyed id_of (is_id k) _ docs (λ doc. refl) v
mark_IsValid_lem limit k (to_dead a) docs v =
    update_where-IsKeyed id_of (is_id k) _ docs (λ doc. refl) v
mark_IsValid_lem limit k (to_retry at a) docs v =
    update_where-IsKeyed id_of (is_id k) _ docs (λ doc. refl) v

pub mark_frees_lem :
    (limit : ℕ) (j k : Text) (m : Mark) (docs : Collection)
    → IsValid docs
    → lease_of j (mark limit k m docs) ≡ (if text_eq j k then none else lease_of j docs)
unfolding mark_sent mark_dead schedule_retry
mark_frees_lem limit j k (to_sent a) docs v = update_id-frees j k _ docs v (λ doc. refl)
mark_frees_lem limit j k (to_dead a) docs v = update_id-frees j k _ docs v (λ doc. refl)
mark_frees_lem limit j k (to_retry at a) docs v = update_id-frees j k _ docs v (λ doc. refl)

pub reclaim_IsValid_lem :
    (now : DateTime) (docs : Collection) → IsValid docs → IsValid (reclaim_stale now docs).1
unfolding reclaim_stale
reclaim_IsValid_lem now docs v =
    update_where-IsKeyed id_of (is_stale now) (set_free pending) docs (λ doc. refl) v

pub reclaim_keeps_lem :
    (now : DateTime) (docs : Collection) (k : Text) (e : ℕ)
    → lease_of k docs ≡ some e
    → lease_of k (reclaim_stale now docs).1 ≡ (if ltb e (bson_date now) then none else some e)
unfolding reclaim_stale
reclaim_keeps_lem now docs k e h = elim (Option-cases (lookup k docs)) [
  | inl gone ↦ absurd (ground arith)
  | inr (doc, found) ↦ elim (Bool-cases (is_in_flight doc.fields.status)) [
    | inl flying ↦ ground (arith, lookup-update_where k (is_stale now) (set_free pending) docs)
    | inr landed ↦ absurd (ground arith)
  ]
]

pub log_IsValid_lem :
    (limit : ℕ) (k : Text) (a : AttemptRecord) (docs : Collection)
    → IsValid docs
    → IsValid (append_attempt limit k a docs)
unfolding append_attempt
log_IsValid_lem limit k a docs v =
    update_where-IsKeyed id_of (is_id k) (push limit a) docs (λ doc. refl) v

pub log_keeps_lem :
    (limit : ℕ) (j k : Text) (a : AttemptRecord) (docs : Collection)
    → IsValid docs
    → lease_of j (append_attempt limit k a docs) ≡ lease_of j docs
unfolding append_attempt
log_keeps_lem limit j k a docs v = elim (Option-cases (lookup j docs)) [
  | inl gone ↦ ground (arith, lookup-update_key id_of j k (push limit a) docs v)
  | inr (doc, e) ↦ ground (arith, lookup-update_key id_of j k (push limit a) docs v)
]

insert_all-keeps :
    (j : Text) (rs : List DeliveryRecord) (docs : Collection)
    → IsValid docs
    → IsValid (insert_all rs docs) × (lease_of j (insert_all rs docs) ≡ lease_of j docs)
unfolding insert_all
insert_all-keeps j [] docs v = (v, refl)
insert_all-keeps j (r ∷ rs) docs v = elim (Bool-cases (contains r.delivery_id docs)) [
  | inl there ↦ rw there (insert_all-keeps j rs docs v)
  | inr new ↦
      let docs' = insert r.delivery_id (record_to_doc r) docs in
      let (v', kept) =
        insert_all-keeps j rs docs' (insert-IsKeyed id_of (record_to_doc r) docs v) in
      rw new (
        v',
        kept
            ∙ ground (
              arith,
              lookup-insert j r.delivery_id (record_to_doc r) docs,
              text_eq→eq j r.delivery_id,
            ),
      )
]

-- Whatever is enqueued: a document that is there is left as it is, and a new one has no lease.
pub enqueue_keeps_lem :
    (j : Text) (rs : List DeliveryRecord) (docs : Collection)
    → IsValid docs
    → IsValid (enqueue_many rs docs) × (lease_of j (enqueue_many rs docs) ≡ lease_of j docs)
unfolding enqueue_many
enqueue_keeps_lem j [] docs v = (v, refl)
enqueue_keeps_lem j (r ∷ rs) docs v = insert_all-keeps j (r ∷ rs) docs v

-- The Mongo store keeps the contract, whatever its limit on the attempts.
abbrev pub mongo_queue : ℕ → LeaseQueue Collection
mongo_queue limit = record {
  Locks = Unit {0};
  IsValid = IsValid;
  lease = lease_of;
  until = until;
  is_over = λ e now. ltb e (bson_date now);
  claim = λ w. claim;
  reclaim = λ now docs. (reclaim_stale now docs).1;
  mark = mark limit;
  log = append_attempt limit;
  Admits = λ r docs. Unit;
  enqueue = enqueue_many;
  claim_IsValid = λ w. claim_IsValid_lem;
  reclaim_IsValid = reclaim_IsValid_lem;
  mark_IsValid = mark_IsValid_lem limit;
  log_IsValid = log_IsValid_lem limit;
  enqueue_IsValid = λ rs docs fresh v. (enqueue_keeps_lem [] rs docs v).0;
  claim_free = λ w. claim_free_lem;
  claim_takes = λ w. claim_takes_lem;
  reclaim_keeps = λ now docs k e v. reclaim_keeps_lem now docs k e;
  mark_frees = mark_frees_lem limit;
  log_keeps = log_keeps_lem limit;
  enqueue_keeps = λ j rs docs fresh v. (enqueue_keeps_lem j rs docs v).1;
}

-- From a valid collection of the Mongo store: once a claim has returned the document of `k`, no
-- claim returns it again, after any sequence of calls of any workers in which `k` is not marked
-- and no reclaim finds the lease over, to the millisecond, whatever is enqueued.
pub mongo-exclusive :
    (limit : ℕ) (now now' : DateTime) (ttl ttl' n n' : ℕ) (k : Text) (docs docs' : Collection)
    → IsValid docs
    → has k (ids_of (claim_batch now ttl n docs).0) ≡ true
    → Run (mongo_queue limit) k (until now ttl) (claim_batch now ttl n docs).1 docs'
    → has k (ids_of (claim_batch now' ttl' n' docs').0) ≡ false
mongo-exclusive limit = Run-exclusive (mongo_queue limit) tt tt
