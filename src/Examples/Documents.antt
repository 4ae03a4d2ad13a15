-- ===== src/Examples/Documents.antt =====
-- The Mongo store shared by workers.
use webhooks_engine.Prelude.{◌≡◌, refl, true, false, [], ◌∷◌, codes, text_eq, lookup, insert, arith}
use webhooks_engine.Prelude.Tables.{update_where, order_by, insert_by}
use webhooks_engine.Prelude.Keyed.{IsKeyed}
use webhooks_engine.Contract.Queue.{to_sent, has}
use webhooks_engine.Contract.Runs.{stop, next, reclaims, marks, claims}
use webhooks_engine.Mongo.Defs.{
  Collection, id_of, insert_all, enqueue_many, picked, claim_loop, claim_batch, reclaim_stale,
  mark_sent,
}
use webhooks_engine.Mongo.Claims.{ids_of}
use webhooks_engine.Mongo.Queue.{mongo-exclusive, enqueue_keeps_lem}
use webhooks_engine.Examples.Setup.{first, inward, lost, attempt}

abbrev docs : Collection
docs = enqueue_many (first ∷ inward ∷ lost ∷ []) []

docs-IsKeyed : IsKeyed id_of docs
unfolding lookup
docs-IsKeyed =
    (enqueue_keeps_lem [] (first ∷ inward ∷ lost ∷ []) []
      (record { distinct = tt; keyed = λ k doc h. absurd (ground arith) })).0

docs-claimed : has (codes "b") (ids_of (claim_batch 5000 30 2 docs).0) ≡ true
unfolding claim_batch claim_loop picked order_by insert_by update_where enqueue_many insert_all
    lookup insert text_eq
docs-claimed = refl

mongo-exclusive_example :
    let docs1 = (claim_batch 5000 30 2 docs).1 in
    let docs2 = (reclaim_stale 6000 docs1).1 in
    let docs3 = mark_sent 20 (codes "c") attempt docs2 in
    let docs4 = (claim_batch 7000 30 2 docs3).1 in
    has (codes "b") (ids_of (claim_batch 8000 30 2 docs4).0) ≡ false
unfolding text_eq
mongo-exclusive_example =
    mongo-exclusive 20 5000 8000 30 30 2 2 (codes "b") docs _ docs-IsKeyed docs-claimed (
      next (next (next stop (reclaims 6000 refl)) (marks (codes "c") (to_sent attempt) refl))
        (claims tt 7000 30 2))
