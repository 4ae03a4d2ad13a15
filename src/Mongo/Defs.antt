-- ===== src/Mongo/Defs.antt =====
-- `MongoWebhookDeliveryStore` of stores/mongo.py on one collection, by the documented semantics
-- of the commands; each is one step on one document. A time is kept as BSON keeps it, in whole
-- milliseconds. The database does not fail.
use webhooks_engine.Prelude.{
  ℕ, zero, suc, ◌+◌, ◌*◌, ◌/◌, Bool, false, ◌&&◌, Option, none, some, List, [], ◌∷◌, map, Text,
  text_eq, Dict, lookup, contains, insert, values, filter, take, leb, ltb, is_empty, if◌then◌else◌,
}
use webhooks_engine.Prelude.Tables.{update_where, count_where, order_by}
use webhooks_engine.Types.{
  DateTime, DeliveryRecord, AttemptRecord, DeliveryStatus, pending, in_flight, sent, failed_retry,
  dead_lettered, is_in_flight, is_ready, seconds, default_profile,
}

-- A BSON date: microseconds below a millisecond are cut off.
abbrev pub bson_date : DateTime → DateTime
bson_date t = t / 1000 * 1000

-- `_attempt_to_subdoc`
pub record AttemptDoc : Type 0 where
  pub attempt : ℕ
  pub attempted_at : DateTime
  pub http_code : Option ℕ
  pub duration_ms : ℕ
  pub error : Option Text
  pub response_snippet : Text

abbrev pub attempt_to_subdoc : AttemptRecord → AttemptDoc
attempt_to_subdoc a = record {
  attempt = a.attempt;
  attempted_at = bson_date a.attempted_at;
  http_code = a.http_code;
  duration_ms = a.duration_ms;
  error = a.error;
  response_snippet = a.response_snippet;
}

-- A document: the fields of the record, the lease, and the attempts, newest first.
pub record Doc : Type 0 where
  pub fields : DeliveryRecord
  pub lease_expiry : Option DateTime
  pub attempt_log : List AttemptDoc

-- The collection, by `_id`.
abbrev pub Collection : Type 0
Collection = Dict Doc

-- `_record_to_doc`
abbrev pub record_to_doc : DeliveryRecord → Doc
record_to_doc r = record {
  fields = record r {
    emitted_at = bson_date r.emitted_at;
    fire_at = bson_date r.fire_at;
    created_at = bson_date r.created_at;
  };
  lease_expiry = none;
  attempt_log = [];
}

abbrev pub id_of : Doc → Text
id_of doc = doc.fields.delivery_id

-- `insert_many(docs, ordered=False)`, with the duplicates passed over
unfoldable pub insert_all : List DeliveryRecord → Collection → Collection
unfolding insert lookup
insert_all [] docs = docs
insert_all (r ∷ rs) docs =
    insert_all rs
      (if contains r.delivery_id docs then docs else insert r.delivery_id (record_to_doc r) docs)

unfoldable pub enqueue_many : List DeliveryRecord → Collection → Collection
unfolding insert_all
enqueue_many rs docs = if is_empty rs then docs else insert_all rs docs

-- The filter of `claim_batch`.
abbrev pub claimable : DateTime → Doc → Bool
claimable now doc = is_ready doc.fields.status && leb doc.fields.fire_at (bson_date now)

abbrev pub fires_before : Doc → Doc → Bool
fires_before a b = leb a.fields.fire_at b.fields.fire_at

abbrev pub first : List Doc → Option Doc
first [] = none
first (doc ∷ docs) = some doc

-- The document that `find_one_and_update` picks.
unfoldable pub picked : DateTime → Collection → Option Doc
unfolding order_by
picked now docs = first (order_by fires_before (filter (claimable now) (values docs)))

-- `{"_id": id}`
abbrev pub is_id : Text → Doc → Bool
is_id id doc = text_eq (id_of doc) id

abbrev pub leased_doc : DateTime → Doc → Doc
leased_doc lease_expiry doc = record doc {
  fields = record doc.fields { status = in_flight };
  lease_expiry = some lease_expiry;
}

-- `profile or DEFAULT_PROFILE`
abbrev pub or_default : Text → Text
or_default [] = default_profile
or_default (c ∷ s) = c ∷ s

-- `_doc_to_record`
abbrev pub doc_to_record : Doc → DeliveryRecord
doc_to_record doc = record doc.fields { profile = or_default doc.fields.profile }

-- The loop of `claim_batch`: it ends when nothing is found.
unfoldable pub claim_loop : DateTime → DateTime → ℕ → Collection → List DeliveryRecord × Collection
unfolding picked update_where
claim_loop now lease_expiry zero docs = ([], docs)
claim_loop now lease_expiry (suc n) docs = elim (picked now docs) [
  | none ↦ ([], docs)
  | some doc ↦
      let (rs, docs') =
        claim_loop now lease_expiry n
          (update_where (is_id (id_of doc)) (leased_doc lease_expiry) docs) in
      (doc_to_record (leased_doc lease_expiry doc) ∷ rs, docs')
]

unfoldable pub claim_batch : DateTime → ℕ → ℕ → Collection → List DeliveryRecord × Collection
unfolding claim_loop
claim_batch now lease_ttl_s batch_size docs =
    claim_loop now (bson_date (now + seconds lease_ttl_s)) batch_size docs

-- The filter of `reclaim_stale`; null is not less than a date.
abbrev pub is_stale : DateTime → Doc → Bool
is_stale now doc =
    is_in_flight doc.fields.status
    && elim doc.lease_expiry [ none ↦ false | some e ↦ ltb e (bson_date now) ]

abbrev pub set_free : DeliveryStatus → Doc → Doc
set_free status doc = record doc {
  fields = record doc.fields { status = status };
  lease_expiry = none;
}

unfoldable pub reclaim_stale : DateTime → Collection → ℕ × Collection
unfolding update_where count_where
reclaim_stale now docs =
    (count_where (is_stale now) docs, update_where (is_stale now) (set_free pending) docs)

-- `$push` at position 0 with `$slice`
abbrev pub push : ℕ → AttemptRecord → Doc → Doc
push attempts_limit a doc = record doc {
  attempt_log = take attempts_limit (attempt_to_subdoc a ∷ doc.attempt_log);
}

abbrev pub set_attempts : ℕ → Doc → Doc
set_attempts n doc = record doc { fields = record doc.fields { attempts = n } }

abbrev pub set_fire_at : DateTime → Doc → Doc
set_fire_at at doc = record doc { fields = record doc.fields { fire_at = bson_date at } }

unfoldable pub mark_sent : ℕ → Text → AttemptRecord → Collection → Collection
unfolding update_where
mark_sent attempts_limit id a =
    update_where (is_id id)
      (λ doc. push attempts_limit a (set_attempts a.attempt (set_free sent doc)))

unfoldable pub schedule_retry : ℕ → Text → DateTime → AttemptRecord → Collection → Collection
unfolding update_where
schedule_retry attempts_limit id fire_at a = update_where (is_id id) (λ doc.
    push attempts_limit a
      (set_fire_at fire_at (set_attempts a.attempt (set_free failed_retry doc))))

unfoldable pub mark_dead : ℕ → Text → AttemptRecord → Collection → Collection
unfolding update_where
mark_dead attempts_limit id a =
    update_where (is_id id)
      (λ doc. push attempts_limit a (set_attempts a.attempt (set_free dead_lettered doc)))

unfoldable pub append_attempt : ℕ → Text → AttemptRecord → Collection → Collection
unfolding update_where
append_attempt attempts_limit id a = update_where (is_id id) (push attempts_limit a)

unfoldable pub get : Text → Collection → Option DeliveryRecord
unfolding lookup
get id docs = elim (lookup id docs) [ none ↦ none | some doc ↦ some (doc_to_record doc) ]

abbrev pub newer : Doc → Doc → Bool
newer a b = leb b.fields.created_at a.fields.created_at

unfoldable pub recent_for_subscription : Text → ℕ → Collection → List DeliveryRecord
unfolding order_by
recent_for_subscription sub_id limit docs = map doc_to_record (
    take limit
      (order_by newer (filter (λ doc. text_eq doc.fields.subscription_id sub_id) (values docs))))
