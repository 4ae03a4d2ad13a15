-- ===== src/Mongo/Claims.antt =====
-- The loop of a claim of the Mongo store, and the leases that it takes.
use webhooks_engine.Prelude.{
  ℕ, zero, suc, ◌+◌, ◌≡◌, refl, subst, true, false, Option, none, some, List, [], ◌∷◌, map, Text,
  text_eq→eq, lookup, values, values-lookup, All, All-filter, arith, if◌then◌else◌, Option-cases,
  Bool-cases, inl, inr,
}
use webhooks_engine.Prelude.Tables.{update_where, All-order_by}
use webhooks_engine.Prelude.Keyed.{IsKeyed, update_where-IsKeyed, lookup-update_key}
use webhooks_engine.Types.{
  DateTime, DeliveryRecord, DeliveryStatus, pending, in_flight, sent, failed_retry, dead_lettered,
  cancelled, is_in_flight, is_ready, seconds,
}
use webhooks_engine.Contract.Queue.{Mark, to_sent, to_dead, to_retry, has}
use webhooks_engine.Mongo.Defs.{
  bson_date, Doc, Collection, id_of, claimable, fires_before, first, picked, is_id, leased_doc,
  claim_loop, claim_batch, mark_sent, schedule_retry, mark_dead,
}

-- The lease of a document that is in flight.
abbrev pub doc_lease : Option Doc → Option ℕ
doc_lease none = none
doc_lease (some doc) = if is_in_flight doc.fields.status then doc.lease_expiry else none

abbrev pub lease_of : Text → Collection → Option ℕ
lease_of k docs = doc_lease (lookup k docs)

abbrev pub IsValid : Collection → Type 0
IsValid docs = IsKeyed id_of docs

abbrev pub ids_of : List DeliveryRecord → List Text
ids_of = map (λ r. r.delivery_id)

abbrev pub until : DateTime → ℕ → DateTime
until now ttl = bson_date (now + seconds ttl)

abbrev pub claim : DateTime → ℕ → ℕ → Collection → List Text × Collection
claim now ttl n docs = let (rs, docs') = claim_batch now ttl n docs in (ids_of rs, docs')

abbrev pub mark : ℕ → Text → Mark → Collection → Collection
mark limit k (to_sent a) = mark_sent limit k a
mark limit k (to_dead a) = mark_dead limit k a
mark limit k (to_retry at a) = schedule_retry limit k at a

is_ready_landed : (st : DeliveryStatus) → is_ready st ≡ true → is_in_flight st ≡ false
is_ready_landed in_flight e = absurd (ground arith)
is_ready_landed pending e = refl
is_ready_landed failed_retry e = refl
is_ready_landed sent e = absurd (ground arith)
is_ready_landed dead_lettered e = absurd (ground arith)
is_ready_landed cancelled e = absurd (ground arith)

first_All :
    (P : Doc → Type 0) (doc : Doc) (docs : List Doc) → All P docs → first docs ≡ some doc → P doc
first_All P doc [] h e = absurd (ground arith)
first_All P doc (d ∷ docs) h e = let same : d ≡ doc = ground arith in subst P same h.0

-- The document picked is in the collection, and claimable.
picked-claimable :
    (now : DateTime) (docs : Collection) (doc : Doc)
    → IsValid docs
    → picked now docs ≡ some doc
    → (lookup (id_of doc) docs ≡ some doc) × (claimable now doc ≡ true)
unfolding picked
picked-claimable now docs doc v = first_All _ doc _ (
    All-order_by (λ d. (lookup (id_of d) docs ≡ some d) × (claimable now d ≡ true)) fires_before _
      (All-filter _ (claimable now) (values docs) (values-lookup id_of docs v.distinct v.keyed)))

abbrev leased : Doc → DateTime → Collection → Collection
leased doc e docs = update_where (is_id (id_of doc)) (leased_doc e) docs

leased-IsValid :
    (doc : Doc) (e : DateTime) (docs : Collection) → IsValid docs → IsValid (leased doc e docs)
leased-IsValid doc e docs v =
    update_where-IsKeyed id_of (is_id (id_of doc)) (leased_doc e) docs (λ d. refl) v

claim_loop-IsValid :
    (now e : DateTime) (n : ℕ) (docs : Collection)
    → IsValid docs
    → IsValid (claim_loop now e n docs).1
unfolding claim_loop
claim_loop-IsValid now e zero docs v = v
claim_loop-IsValid now e (suc n) docs v = elim (Option-cases (picked now docs)) [
  | inl nothing ↦ rw (nothing, claim_loop) v
  | inr (doc, found) ↦
      rw (found, claim_loop)
        (claim_loop-IsValid now e n (leased doc e docs) (leased-IsValid doc e docs v))
]

claim_loop-free :
    (now e : DateTime) (n : ℕ) (docs : Collection) (k : Text)
    → IsValid docs
    → has k (ids_of (claim_loop now e n docs).0) ≡ true
    → lease_of k docs ≡ none
unfolding claim_loop
claim_loop-free now e zero docs k v h = absurd (ground arith)
claim_loop-free now e (suc n) docs k v h = elim (Option-cases (picked now docs)) [
  | inl nothing ↦ absurd (ground arith)
  | inr (doc, found) ↦
      let (there, ready) = picked-claimable now docs doc v found in
      ground (
        arith,
        claim_loop-free now e n (leased doc e docs) k (leased-IsValid doc e docs v),
        lookup-update_key id_of k (id_of doc) (leased_doc e) docs v,
        is_ready_landed doc.fields.status,
        text_eq→eq k (id_of doc),
      )
]

claim_loop-takes :
    (now e : DateTime) (n : ℕ) (docs : Collection) (k : Text)
    → IsValid docs
    → lease_of k (claim_loop now e n docs).1
      ≡ (if has k (ids_of (claim_loop now e n docs).0) then some e else lease_of k docs)
unfolding claim_loop
claim_loop-takes now e zero docs k v = refl
claim_loop-takes now e (suc n) docs k v = elim (Option-cases (picked now docs)) [
  | inl nothing ↦ rw (nothing, claim_loop) refl
  | inr (doc, found) ↦
      let (there, ready) = picked-claimable now docs doc v found in
      ground (
        arith,
        claim_loop-takes now e n (leased doc e docs) k (leased-IsValid doc e docs v),
        lookup-update_key id_of k (id_of doc) (leased_doc e) docs v,
        text_eq→eq k (id_of doc),
        Bool-cases (has k (ids_of (claim_loop now e n (leased doc e docs)).0)),
      )
]

pub claim_IsValid_lem :
    (now : DateTime) (ttl n : ℕ) (docs : Collection)
    → IsValid docs
    → IsValid (claim now ttl n docs).1
unfolding claim_batch
claim_IsValid_lem now ttl n docs v = claim_loop-IsValid now (until now ttl) n docs v

pub claim_free_lem :
    (now : DateTime) (ttl n : ℕ) (docs : Collection) (k : Text)
    → IsValid docs
    → has k (claim now ttl n docs).0 ≡ true
    → lease_of k docs ≡ none
unfolding claim_batch
claim_free_lem now ttl n docs k v h = claim_loop-free now (until now ttl) n docs k v h

pub claim_takes_lem :
    (now : DateTime) (ttl n : ℕ) (docs : Collection) (k : Text)
    → IsValid docs
    → let (ids, docs') = claim now ttl n docs in
      lease_of k docs' ≡ (if has k ids then some (until now ttl) else lease_of k docs)
unfolding claim_batch
claim_takes_lem now ttl n docs k v = claim_loop-takes now (until now ttl) n docs k v
