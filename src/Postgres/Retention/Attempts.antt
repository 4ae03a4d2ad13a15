-- ===== src/Postgres/Retention/Attempts.antt =====
-- Which attempts of a delivery a purge looks at, and which rows it may delete.
use webhooks_engine.Prelude.{
  ◌<◌, ◌≡◌, ◌≢◌, refl, Bool, true, false, not, List, [], ◌∷◌, Text, text_eq, text_eq→eq, filter,
  All, arith, if◌then◌else◌, Bool-cases, inl, inr,
}
use webhooks_engine.Types.{DateTime, is_sent}
use webhooks_engine.Contract.Queue.{has}
use webhooks_engine.Postgres.Defs.{Row, AttemptRow, Db}
use webhooks_engine.Postgres.Purge.{has_old_attempt, has_new_attempt}

-- The attempts of a delivery.
abbrev pub attempts_of : Text → List AttemptRow → List AttemptRow
attempts_of k = filter (λ (a : AttemptRow). text_eq a.delivery_id k)

-- A sent row, older than the time, which no other transaction holds, with an attempt, every one of
-- which is older than the time.
abbrev pub IsPurgeable : (Text → Bool) → DateTime → Db → Text → Row → Type 0
IsPurgeable locked older_than db k row =
    (is_sent row.columns.status ≡ true)
    × (row.columns.created_at < older_than)
    × (locked k ≡ false)
    × (attempts_of k db.attempts ≢ [])
    × All (λ a. a.attempted_at < older_than) (attempts_of k db.attempts)

pub no_new_attempt :
    (older_than : DateTime) (k : Text) (log : List AttemptRow)
    → has_new_attempt older_than k log ≡ false
    → All (λ a. a.attempted_at < older_than) (attempts_of k log)
no_new_attempt t k [] h = tt
no_new_attempt t k (a ∷ rest) h = elim (Bool-cases (text_eq a.delivery_id k)) [
  | inl own ↦ rw own (ground arith, no_new_attempt t k rest (ground arith))
  | inr other ↦ rw other (no_new_attempt t k rest (ground arith))
]

pub some_old_attempt :
    (older_than : DateTime) (k : Text) (log : List AttemptRow)
    → has_old_attempt older_than k log ≡ true
    → attempts_of k log ≢ []
some_old_attempt t k [] h e = ground arith
some_old_attempt t k (a ∷ rest) h e = ground (arith, some_old_attempt t k rest)

pub has_new_attempt-All :
    (older_than : DateTime) (k : Text) (log : List AttemptRow)
    → All (λ a. a.attempted_at < older_than) (attempts_of k log)
    → has_new_attempt older_than k log ≡ false
has_new_attempt-All t k [] h = refl
has_new_attempt-All t k (a ∷ log) h = elim (Bool-cases (text_eq a.delivery_id k)) [
  | inl own ↦
      let h' : All (λ x. x.attempted_at < t) (a ∷ attempts_of k log) = rw own at h in
      ground (arith, has_new_attempt-All t k log h'.1, h'.0)
  | inr other ↦
      let h' : All (λ x. x.attempted_at < t) (attempts_of k log) = rw other at h in
      ground (arith, has_new_attempt-All t k log h')
]

pub has_old_attempt-some :
    (older_than : DateTime) (k : Text) (log : List AttemptRow)
    → attempts_of k log ≢ []
    → All (λ a. a.attempted_at < older_than) (attempts_of k log)
    → has_old_attempt older_than k log ≡ true
has_old_attempt-some t k [] some_ h = absurd (some_ refl)
has_old_attempt-some t k (a ∷ log) some_ h = elim (Bool-cases (text_eq a.delivery_id k)) [
  | inl own ↦
      let h' : All (λ x. x.attempted_at < t) (a ∷ attempts_of k log) = rw own at h in
      ground (arith, h'.0)
  | inr other ↦
      let h' : All (λ x. x.attempted_at < t) (attempts_of k log) = rw other at h in
      let some' : attempts_of k log ≢ [] = rw other at some_ in
      ground (arith, has_old_attempt-some t k log some' h')
]

pub attempts-deleted :
    (ids : List Text) (k : Text) (log : List AttemptRow)
    → attempts_of k (filter (λ (a : AttemptRow). not (has a.delivery_id ids)) log)
      ≡ (if has k ids then [] else attempts_of k log)
attempts-deleted ids k [] = ground (arith, Bool-cases (has k ids))
attempts-deleted ids k (a ∷ log) = ground (
  arith,
  attempts-deleted ids k log,
  text_eq→eq a.delivery_id k,
  Bool-cases (has a.delivery_id ids),
  Bool-cases (has k ids),
)
