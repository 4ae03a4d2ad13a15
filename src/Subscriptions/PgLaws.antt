-- ===== src/Subscriptions/PgLaws.antt =====
-- The Postgres store of subscriptions as a `SubscriptionStore`.
use webhooks_engine.Prelude.{
  ◌≡◌, refl, sym, ◌∙◌, ap, subst, ◌+◌, Option, none, Text, text_eq, lookup, insert, lookup-insert,
  ok, err, Result-cases, Option-cases, Bool-cases, inl, inr, arith,
}
use webhooks_engine.Prelude.Tables.{lookup-delete_where}
use webhooks_engine.Prelude.Keyed
use webhooks_engine.Prelude.Strings.{pos, negsuc}
use webhooks_engine.Types.{seconds}
use webhooks_engine.Contract.Queue.{has}
use webhooks_engine.Dispatcher.Env.{grace_until}
use webhooks_engine.Subscriptions.Types.{resolve_ip, chosen, created, ids_of}
use webhooks_engine.Subscriptions.Contract.{
  Call, create, delete, set_status, rotate_secret, after, serves, secret_of, IsFresh,
  SubscriptionStore,
}
use webhooks_engine.Subscriptions.Pg
use webhooks_engine.Subscriptions.PgRows.{
  id_of, IsKeyed, call, find, has-snapshots, rotate_secret-rows, sealed_row, create-rows,
}

unfound :
    (cipher : Pg.Cipher) (k : Text) (rows : Pg.Table)
    → find cipher k rows ≡ none
    → lookup k rows ≡ none
unfound cipher k rows h = ground (arith, Option-cases (lookup k rows))

module _ (cipher : Pg.Cipher) (opens : (t : Text) → cipher.open_ (cipher.seal t) ≡ t) where
  pub call_IsValid_lem :
      (c : Call) (rows : Pg.Table)
      → IsFresh c (λ k. find cipher k rows)
      → IsKeyed rows
      → IsKeyed (call cipher c rows)
  unfolding Pg.create Pg.delete Pg.set_status Pg.rotate_secret grace_until
  call_IsValid_lem (delete k) rows fresh v = Keyed.delete_where-IsKeyed id_of (Pg.is_id k) rows v
  call_IsValid_lem (set_status k status) rows fresh v =
      Keyed.update_where-IsKeyed id_of (Pg.is_id k) (Pg.with_status status) rows (λ row. refl) v
  call_IsValid_lem (rotate_secret draws k (negsuc n) secret) rows fresh v = v
  call_IsValid_lem (rotate_secret draws k (pos n) secret) rows fresh v =
      subst IsKeyed (sym (rotate_secret-rows cipher draws k n secret rows))
        (Keyed.update_where-IsKeyed id_of (Pg.is_id k) _ rows (λ row. refl) v)
  call_IsValid_lem (create net draws owner_id url events secret) rows fresh v =
      subst IsKeyed
        (sym (
          create-rows net cipher draws owner_id url events secret rows
            (unfound cipher draws.uuid rows fresh.0)))
        (elim (resolve_ip net url)
          as (λ r. IsKeyed (elim r [
            | err e ↦ rows
            | ok ip ↦
                insert draws.uuid (sealed_row cipher (created draws owner_id url events secret ip))
                  rows
          ])) [
            | err e ↦ v
            | ok ip ↦
                Keyed.insert-IsKeyed id_of
                  (sealed_row cipher (created draws owner_id url events secret ip)) rows v
          ])

  pub call_finds_lem :
      (c : Call) (j : Text) (rows : Pg.Table)
      → IsFresh c (λ k. find cipher k rows)
      → IsKeyed rows
      → find cipher j (call cipher c rows) ≡ after c j (find cipher j rows)
  unfolding Pg.create Pg.delete Pg.set_status Pg.rotate_secret grace_until
  call_finds_lem (delete k) j rows fresh v = elim (Option-cases (lookup j rows)) [
    | inl gone ↦ ground (arith, lookup-delete_where j (Pg.is_id k) rows v.distinct)
    | inr (row, e) ↦
        ground (arith, lookup-delete_where j (Pg.is_id k) rows v.distinct, v.keyed j row e)
  ]
  call_finds_lem (set_status k status) j rows fresh v = ground (
    arith,
    Keyed.lookup-update_key id_of j k (Pg.with_status status) rows v,
    Option-cases (lookup j rows),
  )
  call_finds_lem (rotate_secret draws k (negsuc n) secret) j rows fresh v = refl
  call_finds_lem (rotate_secret draws k (pos n) secret) j rows fresh v =
      let new = chosen secret draws.token in
      let f = Pg.rotated (cipher.seal new) (draws.now + seconds n) in
      ap (λ (rows' : Pg.Table). find cipher j rows')
        (rotate_secret-rows cipher draws k n secret rows)
      ∙ ground (
        arith,
        Keyed.lookup-update_key id_of j k f rows v,
        Option-cases (lookup j rows),
        opens new,
      )
  call_finds_lem (create net draws owner_id url events secret) j rows fresh v =
      ap (λ (rows' : Pg.Table). find cipher j rows')
        (create-rows net cipher draws owner_id url events secret rows
          (unfound cipher draws.uuid rows fresh.0))
      ∙ elim (Result-cases (resolve_ip net url)) [
        | inr (e, unresolved) ↦ rw (unresolved, after) refl
        | inl (ip, resolved) ↦
            let sub = created draws owner_id url events secret ip in
            rw (resolved, after)
              (ground (
                arith,
                lookup-insert j draws.uuid (sealed_row cipher sub) rows,
                opens sub.secret,
                Bool-cases (text_eq j draws.uuid),
              ))
      ]

  pub for_event_exact_lem :
      (k event_name : Text) (tenant_id : Option Text) (rows : Pg.Table)
      → IsKeyed rows
      → has k (ids_of (Pg.for_event event_name tenant_id rows))
        ≡ serves event_name tenant_id (find cipher k rows)
  unfolding Pg.for_event
  for_event_exact_lem k event_name tenant_id rows v = ground (
    arith,
    has-snapshots k (Pg.matches event_name tenant_id) rows v,
    Option-cases (lookup k rows),
  )

  pub get_secret_exact_lem :
      (k : Text) (rows : Pg.Table)
      → IsKeyed rows
      → Pg.get_secret cipher k rows ≡ secret_of (find cipher k rows)
  unfolding Pg.get_secret
  get_secret_exact_lem k rows v = ground (arith, Option-cases (lookup k rows))

-- The Postgres store keeps the contract, with a cipher that opens what it seals.
abbrev pub pg_subscriptions :
    (cipher : Pg.Cipher)
    → ((t : Text) → cipher.open_ (cipher.seal t) ≡ t)
    → SubscriptionStore Pg.Table
pg_subscriptions cipher opens = record {
  IsValid = IsKeyed;
  find = find cipher;
  for_event = Pg.for_event;
  get_secret = Pg.get_secret cipher;
  call = call cipher;
  call_IsValid = call_IsValid_lem cipher opens;
  call_finds = call_finds_lem cipher opens;
  for_event_exact = for_event_exact_lem cipher opens;
  get_secret_exact = get_secret_exact_lem cipher opens;
}
