-- ===== src/Dispatcher/Safety.antt =====
-- `send` of dispatcher.py: the requests that it posts.
use webhooks_engine.Prelude.{
  ℕ, ◌≤◌, ◌≡◌, refl, ◌⊎◌, inl, inr, Option, none, some, ◌∷◌, Text, Dict, arith, Result, ok, err,
  Fault, length, ltb, Bool-cases,
}
use webhooks_engine.Types.{
  Bytes, DateTime, DeliveryRecord, AttemptRecord, DeliveryStatus, sent, failed_retry,
}
use webhooks_engine.Ssrf.Guard.{Url, Checked, host_of, port_of, check_ip}
use webhooks_engine.Dispatcher.Env.{Env, Profile, SecretMaterial, Answer, crashed, Request}
use webhooks_engine.Dispatcher.Defs.{
  World, current_ip, dead_letter_from_attempt, dead_letter, retry_later, schedule, transition,
  conclude, post_and_conclude, request_of, send_request, send_signed, send_checked, send_guarded,
  send_to, send_with, send,
}

-- The request goes to the record's own URL, at an address that passes `check_ip` for its host and
-- port, and the stored payload is within the limit.
abbrev pub IsAllowed : Env → DeliveryRecord → Request → Type 0
IsAllowed env rec' q =
    (url : Url) × (env.net.urlsplit rec'.target_url ≡ some url)
    × (q.url ≡ rec'.target_url)
    × (check_ip env.net env.security q.resolved_ip (some (host_of url)) (some (port_of url))
        ≡ ok tt)
    × (length rec'.data_json ≤ env.limits.max_body_bytes)

-- At most one request is new, and it is allowed.
abbrev pub PostsAllowed : Env → DeliveryRecord → World → World → Type 0
PostsAllowed env rec' w w' =
    (w'.posts ≡ w.posts) ⊎ ((q : Request) × (w'.posts ≡ q ∷ w.posts) × IsAllowed env rec' q)

module _ (env : Env) (now : DateTime) (rec' : DeliveryRecord) where
  posts-dead_letter_from_attempt :
      (a : AttemptRecord) (w : World) → (dead_letter_from_attempt env rec' a w).1.posts ≡ w.posts
  unfolding dead_letter_from_attempt
  posts-dead_letter_from_attempt a w = ground arith

  posts-dead_letter :
      (error : Text) (w : World) → (dead_letter env now rec' error w).1.posts ≡ w.posts
  unfolding dead_letter
  posts-dead_letter error w = posts-dead_letter_from_attempt _ w

  posts-schedule :
      (profile : Profile) (a : AttemptRecord) (asked : Result Fault (Option ℕ)) (w : World)
      → (schedule env now rec' profile a asked w).1.posts ≡ w.posts
  unfolding schedule
  posts-schedule profile a asked w = ground arith

  posts-transition :
      (profile : Profile) (answer : Answer) (status : DeliveryStatus) (w : World)
      → (transition env now rec' profile answer status w).1.posts ≡ w.posts
  unfolding transition retry_later
  posts-transition profile answer sent w = ground arith
  posts-transition profile answer failed_retry w = posts-schedule profile _ _ w
  posts-transition profile answer _ w = posts-dead_letter_from_attempt _ w

  posts-conclude :
      (profile : Profile) (answer : Answer) (w : World)
      → (conclude env now rec' profile answer w).1.posts ≡ w.posts
  unfolding conclude
  posts-conclude profile (crashed e) w = refl
  posts-conclude profile answer w = posts-transition profile answer _ w

  module _ (profile : Profile) (url : Url) (split : env.net.urlsplit rec'.target_url ≡ some url)
      (fits : length rec'.data_json ≤ env.limits.max_body_bytes) (ip : Text) (w : World) where
    send_request-PostsAllowed :
        check_ip env.net env.security ip (some (host_of url)) (some (port_of url)) ≡ ok tt
        → (signed : Result Fault (Bytes × Dict Text))
        → PostsAllowed env rec' w (send_request env now rec' profile ip signed w).1
    unfolding send_request post_and_conclude request_of
    send_request-PostsAllowed pass (err e) = inl refl
    send_request-PostsAllowed pass (ok signed) =
        let q = request_of env rec' profile ip signed in
        inr (
          q,
          posts-conclude profile (env.post w.posts q) (record w { posts = q ∷ w.posts }),
          (url, split, refl, pass, fits),
        )

    send_signed-PostsAllowed :
        check_ip env.net env.security ip (some (host_of url)) (some (port_of url)) ≡ ok tt
        → (secret : Result Fault SecretMaterial)
        → PostsAllowed env rec' w (send_signed env now rec' profile ip secret w).1
    unfolding send_signed
    send_signed-PostsAllowed pass (err e) = inl (posts-dead_letter _ w)
    send_signed-PostsAllowed pass (ok secret) = send_request-PostsAllowed pass _

    send_checked-PostsAllowed :
        (checked : Checked (Unit {0}))
        → check_ip env.net env.security ip (some (host_of url)) (some (port_of url)) ≡ checked
        → PostsAllowed env rec' w (send_checked env now rec' profile ip checked w).1
    unfolding send_checked
    send_checked-PostsAllowed (err reason) e = inl (posts-dead_letter _ w)
    send_checked-PostsAllowed (ok u) e = send_signed-PostsAllowed e _

  send_guarded-PostsAllowed :
      (profile : Profile) (url : Url) (w : World)
      → env.net.urlsplit rec'.target_url ≡ some url
      → PostsAllowed env rec' w (send_guarded env now rec' profile url w).1
  unfolding send_guarded
  send_guarded-PostsAllowed profile url w split =
      elim (Bool-cases (ltb env.limits.max_body_bytes (length rec'.data_json))) [
        | inl large ↦ rw large (inl (posts-dead_letter _ w))
        | inr fits ↦ rw fits (
            send_checked-PostsAllowed profile url split (ground arith)
              (current_ip env rec' (host_of url)) w _ refl)
      ]

  send_to-PostsAllowed :
      (profile : Profile) (url : Option Url) (w : World)
      → env.net.urlsplit rec'.target_url ≡ url
      → PostsAllowed env rec' w (send_to env now rec' profile url w).1
  unfolding send_to
  send_to-PostsAllowed profile none w split = inl refl
  send_to-PostsAllowed profile (some url) w split = send_guarded-PostsAllowed profile url w split

  send_with-PostsAllowed :
      (profile : Option Profile) (w : World)
      → PostsAllowed env rec' w (send_with env now rec' profile w).1
  unfolding send_with
  send_with-PostsAllowed none w = inl refl
  send_with-PostsAllowed (some profile) w = send_to-PostsAllowed profile _ w refl

  -- However `send` ends, it has posted at most one request: to the record's own URL, at an address
  -- that `check_ip` passes for the URL's host and port, with a payload within the size limit.
  pub send-PostsAllowed : (w : World) → PostsAllowed env rec' w (send env now rec' w).1
  unfolding send
  send-PostsAllowed w = send_with-PostsAllowed _ w
