-- ===== src/Examples/Sends.antt =====
-- Sends of the example records, and ticks over them.
use webhooks_engine.Prelude.{
  In, inl, ◌*◌, ◌⊎◌, length, ℕ, ◌+◌, ◌≤◌, ◌≡◌, refl, ◌↔◌, true, false, Option, none, some, [], ◌∷◌,
  codes, lookup, insert, text_eq, arith, err, unknown_profile, value_error, leb, is_empty, any,
}
use webhooks_engine.Prelude.Strings.{strip}
use webhooks_engine.Types.{DeliveryRecord, pending, in_flight}
use webhooks_engine.Store.Defs.{
  new, enqueue, mark_sent, mark_dead, append_attempt, claim_batch, reclaim_stale, ready,
  sort_by_fire_at, insert_by_fire_at, claimable, lease_all, lease,
}
use webhooks_engine.Store.Invariant.{IsValid}
use webhooks_engine.Store.Claim.{claim_batch-IsValid}
use webhooks_engine.Ssrf.Address.{blocks, from_strings, default_blocked_cidrs}
use webhooks_engine.Ssrf.Host.{is_trusted_private}
use webhooks_engine.Policy.Defs.{default_retry, next_delay, parse_retry_after, all_digits}
use webhooks_engine.Policy.Delay.{IsBackoff, next_delay_bounds}
use webhooks_engine.Policy.RetryAfter.{parse_retry_after-raises, has_no_value}
use webhooks_engine.Dispatcher.Defs.{World, send, send_with}
use webhooks_engine.Dispatcher.Atomic.{Lands, Stands, send-Lands}
use webhooks_engine.Dispatcher.Safety.{PostsAllowed, send-PostsAllowed}
use webhooks_engine.Dispatcher.Verdict.{Judged, send-Verdict}
use webhooks_engine.Engine.Defs.{
  DispatchConfig, quarantine, dispatch_one, dispatch_all, no_stats, tick, unhandled_attempt,
}
use webhooks_engine.Engine.Tick.{Tallies, tick-IsValid, tick-accounts}
use webhooks_engine.Engine.Quarantine.{Parked, claimed, dispatch_one-Parked, dispatch_one-loops}
use webhooks_engine.Examples.Setup.{dates, env, first, inward, lost, store, world}
use webhooks_engine.Examples.Deliveries.{store-IsValid}

abbrev config : DispatchConfig
config = record { batch_size = 100; lease_ttl_s = 30; max_unhandled_attempts = 8 }

first-Stands : Stands first first world
unfolding enqueue new lookup insert text_eq
first-Stands = (store-IsValid, refl)

send-Lands_example : Lands (env 200) first first world (send (env 200) 9 first world)
send-Lands_example = send-Lands (env 200) 9 first first world first-Stands

send-PostsAllowed_example : PostsAllowed (env 200) inward world (send (env 200) 9 inward world).1
send-PostsAllowed_example = send-PostsAllowed (env 200) 9 inward world

send-Verdict_example : Judged (env 503) 9 first [] (send (env 503) 9 first world)
send-Verdict_example = send-Verdict (env 503) 9 first world (λ j. omega arith)

-- A claim hands out `lost` and leaves it in flight, under a lease.
abbrev in_flight_lost : DeliveryRecord
in_flight_lost = record lost { status = in_flight }

abbrev after_claim : World
after_claim = claimed config 5 world

lost-Stands : Stands lost in_flight_lost after_claim
unfolding claim_batch ready sort_by_fire_at insert_by_fire_at claimable lease_all lease enqueue new
    lookup insert text_eq
lost-Stands = (claim_batch-IsValid 5 30 100 store store-IsValid, refl)

lost_claimed : In lost (claim_batch 5 30 100 store).0
unfolding claim_batch ready sort_by_fire_at insert_by_fire_at claimable lease_all lease enqueue new
    lookup insert text_eq
lost_claimed = inl refl

lost_raises : (send (env 200) 9 lost after_claim).0 ≡ err unknown_profile
unfolding send send_with lookup text_eq
lost_raises = refl

dispatch_one-Parked_example :
    let (res, w') = dispatch_one config (env 200) (9, 10) lost after_claim in
    (res ≡ err unknown_profile)
    × Parked
        (leb 8 1)
        (codes "c")
        in_flight_lost
        (unhandled_attempt 10 lost unknown_profile)
        after_claim.store
        w'.store
dispatch_one-Parked_example =
    dispatch_one-Parked config (env 200) 9 10 lost in_flight_lost after_claim unknown_profile
      lost-Stands lost_raises

dispatch_one-loops_example :
    let s' = (dispatch_one config (env 200) (9, 10) lost after_claim).1.store in
    lookup (codes "c") (reclaim_stale 31_000_000 s').1.records
    ≡ some (record lost { status = pending })
dispatch_one-loops_example =
    dispatch_one-loops config (env 200) 5 9 10 31_000_000 lost world unknown_profile store-IsValid
      lost_claimed lost_raises (omega arith) (omega arith)

tick-IsValid_example : IsValid (tick config (env 200) 9 9 (λ r. (10, 11)) world).1.store
tick-IsValid_example = tick-IsValid config (env 200) 9 9 (λ r. (10, 11)) world store-IsValid

tick-accounts_example :
    let s = (reclaim_stale 9 store).1 in
    let (batch, s') = claim_batch 9 30 100 s in
    let os =
      (dispatch_all config (env 200) (λ r. (10, 11)) batch (record world { store = s' })).0 in
    let stats = (tick config (env 200) 9 9 (λ r. (10, 11)) world).0 in
    (stats.claimed ≡ length batch)
    × (stats.claimed ≤ 100)
    × Tallies os (no_stats 0 0) stats
    × (stats.sent + stats.retried + stats.dead + stats.errors ≡ stats.claimed)
tick-accounts_example =
    tick-accounts config (env 200) 9 9 (λ r. (10, 11)) world store-IsValid (λ j. omega arith)

-- One tick over the three: one is sent, the inward one is dead, the lost one is an error.
tick-test :
    (tick config (env 200) 9 9 (λ r. (10, 11)) world).0
    ≡ record { claimed = 3; sent = 1; retried = 0; dead = 1; errors = 1 }
unfolding tick claim_batch reclaim_stale enqueue lookup new insert text_eq send blocks from_strings
    default_blocked_cidrs mark_sent is_trusted_private mark_dead quarantine append_attempt
tick-test = refl

abbrev no_wait : Option ℕ
no_wait = none

next_delay_bounds_example :
    let delay = next_delay (λ j. j) 3 default_retry no_wait in
    (100 * delay ≤ default_retry.max_delay * (100 + default_retry.jitter_pct))
    × ((w : ℕ)
        → no_wait ≡ some w
        → (delay ≤ w)
          × (delay ≤ default_retry.max_delay)
          × ((delay ≡ w) ⊎ (delay ≡ default_retry.max_delay)))
    × (no_wait ≡ none
        → (d : ℕ) × IsBackoff 3 default_retry d
          × (100 * d ≤ 100 * delay + d * default_retry.jitter_pct)
          × (100 * delay ≤ 100 * d + d * default_retry.jitter_pct))
next_delay_bounds_example = next_delay_bounds (λ j. j) 3 default_retry no_wait (λ j. omega arith)

abbrev timed_out : ℕ
timed_out = 408

-- The superscript two is a digit that `float` does not read.
parse_retry_after-raises_example :
    (parse_retry_after dates (some (178 ∷ [])) 9 ≡ err value_error) ↔ (
      (is_empty (strip (178 ∷ [])) ≡ false)
      × (all_digits dates (strip (178 ∷ [])) ≡ true)
      × (any (has_no_value dates) (strip (178 ∷ [])) ≡ true))
parse_retry_after-raises_example = parse_retry_after-raises dates (178 ∷ []) 9
