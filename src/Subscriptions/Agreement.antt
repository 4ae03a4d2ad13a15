-- ===== src/Subscriptions/Agreement.antt =====
-- Two stores of subscriptions under the same calls.
use webhooks_engine.Prelude.{◌≡◌, sym, ◌∙◌, ap, Option, List, [], ◌∷◌, Text}
use webhooks_engine.Contract.Queue.{has}
use webhooks_engine.Subscriptions.Types.{Row, ids_of}
use webhooks_engine.Subscriptions.Contract.{
  Call, create, delete, set_status, rotate_secret, after, serves, secret_of, IsFresh,
  SubscriptionStore, call_all, AreFresh,
}

IsFresh-agree :
    (c : Call) (f g : Text → Option Row) → ((k : Text) → f k ≡ g k) → IsFresh c f → IsFresh c g
IsFresh-agree (create net draws owner_id url events secret) f g same h =
    (sym (same draws.uuid) ∙ h.0, h.1)
IsFresh-agree (delete k) f g same h = tt
IsFresh-agree (set_status k status) f g same h = tt
IsFresh-agree (rotate_secret draws k grace_s secret) f g same h = h

module _ {S T : Type 0} (q : SubscriptionStore S) (r : SubscriptionStore T) where
  open q use {
    IsValid, find, for_event, get_secret, call, call_IsValid, call_finds, for_event_exact,
    get_secret_exact,
  }

  -- Both states are well-formed, and under each id both stores find the same row.
  pub record Agree (s : S) (t : T) : Type 0 where
    pub left : IsValid s
    pub right : r.IsValid t
    pub same : (k : Text) → find k s ≡ r.find k t

  call-Agree :
      (c : Call) (s : S) (t : T)
      → IsFresh c (λ k. find k s)
      → Agree s t
      → Agree (call c s) (r.call c t)
  call-Agree c s t fresh h =
      let fresh' = IsFresh-agree c (λ k. find k s) (λ k. r.find k t) h.same fresh in
      record {
        left = call_IsValid c s fresh h.left;
        right = r.call_IsValid c t fresh' h.right;
        same = λ k.
            call_finds c k s fresh h.left
            ∙ ap (after c k) (h.same k)
            ∙ sym (r.call_finds c k t fresh' h.right);
      }

  pub call_all-Agree :
      (cs : List Call) (s : S) (t : T)
      → AreFresh q cs s
      → Agree s t
      → Agree (call_all q cs s) (call_all r cs t)
  unfolding call_all AreFresh
  call_all-Agree [] s t fresh h = h
  call_all-Agree (c ∷ cs) s t fresh h =
      call_all-Agree cs (call c s) (r.call c t) fresh.1 (call-Agree c s t fresh.0 h)

  -- The two stores serve the same ids and the same secrets after the same calls.
  pub call_all-serves :
      (cs : List Call) (s : S) (t : T) (k event_name : Text) (tenant_id : Option Text)
      → AreFresh q cs s
      → Agree s t
      → let s' = call_all q cs s in
        let t' = call_all r cs t in
        (has k (ids_of (for_event event_name tenant_id s'))
          ≡ has k (ids_of (r.for_event event_name tenant_id t')))
        × (get_secret k s' ≡ r.get_secret k t')
  call_all-serves cs s t k event_name tenant_id fresh h =
      let s' = call_all q cs s in
      let t' = call_all r cs t in
      let h' = call_all-Agree cs s t fresh h in
      (
        for_event_exact k event_name tenant_id s' h'.left
            ∙ ap (serves event_name tenant_id) (h'.same k)
            ∙ sym (r.for_event_exact k event_name tenant_id t' h'.right),
        get_secret_exact k s' h'.left
            ∙ ap secret_of (h'.same k)
            ∙ sym (r.get_secret_exact k t' h'.right),
      )
