-- ===== src/Payload/Sensitive.antt =====
-- The automatic rule of `should_auto_redact` and the listed fields, as what a name looks like.
use webhooks_engine.Prelude.{
  ◌≡◌, refl, sym, ◌∙◌, ap, ◌⊎◌, ◌↔◌, inl, inr, Bool, true, false, ◌||◌, List, [], ◌∷◌, ◌++◌, Text,
  text_eq, text_eq→eq, text_eq_refl, codes, any, In, arith, Bool-cases, ◌==◌,
}
use mathlib.Core.List.{reverse, reverse-reverse, reverse-append}
use webhooks_engine.Prelude.Strings.{lower, starts_with, ends_with}
use webhooks_engine.Payload.Defs.{search, search_at_end, should_auto_redact, Meta, is_redacted}

-- The text ends in `p`, perhaps with a newline behind it.
abbrev pub EndsIn : Text → Text → Type 0
EndsIn p s = ((a : Text) × (s ≡ a ++ p)) ⊎ ((a : Text) × (s ≡ a ++ (p ++ b'\n' ∷ [])))

-- The text holds `p`.
abbrev pub Holds : Text → Text → Type 0
Holds p s = (a b : Text) × (s ≡ a ++ p ++ b)

-- The name of a field that is taken for sensitive: it ends in `_enc` or `_token`, or, whatever
-- the case of its letters, holds `password` or ends in `secret`.
abbrev pub LooksSensitive : Text → Type 0
LooksSensitive name =
    ((EndsIn (codes "_enc") name ⊎ EndsIn (codes "_token") name)
      ⊎ Holds (codes "password") (lower name))
    ⊎ EndsIn (codes "secret") (lower name)

-- The field is listed, or the automatic rule is on and takes its name for sensitive.
abbrev pub IsHidden : Meta → Text → Type 0
IsHidden meta k = In k meta.redacted_fields ⊎ ((meta.allow_sensitive ≡ false) × LooksSensitive k)

starts_with_sound : (p s : Text) → starts_with p s ≡ true → (b : Text) × (s ≡ p ++ b)
unfolding starts_with
starts_with_sound [] s h = (s, refl)
starts_with_sound (c ∷ p) [] h = absurd (ground arith)
starts_with_sound (c ∷ p) (d ∷ s) h =
    let (b, e) = starts_with_sound p s (ground (arith, Bool-cases (c == d))) in
    let same : d ≡ c = ground (arith, Bool-cases (c == d)) in
    (b, ap (λ x. x ∷ s) same ∙ ap (λ t. c ∷ t) e)

starts_with-append : (p b : Text) → starts_with p (p ++ b) ≡ true
unfolding starts_with
starts_with-append [] b = refl
starts_with-append (c ∷ p) b = ground (arith, starts_with-append p b)

ends_with_sound : (p s : Text) → ends_with p s ≡ true → (a : Text) × (s ≡ a ++ p)
unfolding ends_with
ends_with_sound p s h =
    let (b, e) = starts_with_sound (reverse p) (reverse s) h in
    (
      reverse b,
      sym (reverse-reverse s)
          ∙ ap reverse e
          ∙ reverse-append (reverse p) b
          ∙ ap (λ t. reverse b ++ t) (reverse-reverse p),
    )

ends_with-append : (p a : Text) → ends_with p (a ++ p) ≡ true
unfolding ends_with
ends_with-append p a = rw (reverse-append a p) (starts_with-append (reverse p) (reverse a))

or-↔ : {P Q : Type 0} (a b : Bool) → (a ≡ true) ↔ P → (b ≡ true) ↔ Q → (a || b ≡ true) ↔ (P ⊎ Q)
or-↔ true b p q = ((λ h. inl (p.0 refl)), λ h. refl)
or-↔ false b p q =
    ((λ h. inr (q.0 h)), λ h. elim h [ inl x ↦ absurd (ground (arith, p.1 x)) | inr y ↦ q.1 y ])

ends_with-Ends : (p s : Text) → (ends_with p s ≡ true) ↔ ((a : Text) × (s ≡ a ++ p))
ends_with-Ends p s = (ends_with_sound p s, λ (a, e). rw e (ends_with-append p a))

search_at_end-EndsIn : (p s : Text) → (search_at_end p s ≡ true) ↔ EndsIn p s
unfolding search_at_end
search_at_end-EndsIn p s =
    or-↔ (ends_with p s) (ends_with (p ++ b'\n' ∷ []) s) (ends_with-Ends p s)
      (ends_with-Ends (p ++ b'\n' ∷ []) s)

search_sound : (p s : Text) → search p s ≡ true → Holds p s
unfolding search
search_sound p [] h = let (b, e) = starts_with_sound p [] h in ([], b, e)
search_sound p (c ∷ s) h = elim (Bool-cases (starts_with p (c ∷ s))) [
  | inl here ↦ let (b, e) = starts_with_sound p (c ∷ s) here in ([], b, e)
  | inr later ↦ let (a, b, e) = search_sound p s (ground arith) in (c ∷ a, b, ap (λ t. c ∷ t) e)
]

search-append : (p a b : Text) → search p (a ++ p ++ b) ≡ true
unfolding search
search-append [] [] [] = unfold starts_with in refl
search-append [] [] (c ∷ b) = unfold starts_with in refl
search-append (c ∷ p) [] b = ground (arith, starts_with-append (c ∷ p) b)
search-append p (c ∷ a) b =
    ground (arith, search-append p a b, Bool-cases (starts_with p (c ∷ a ++ p ++ b)))

search-Holds : (p s : Text) → (search p s ≡ true) ↔ Holds p s
search-Holds p s = (search_sound p s, λ (a, b, e). rw e (search-append p a b))

any-In : (k : Text) (ks : List Text) → (any (text_eq k) ks ≡ true) ↔ In k ks
any-In k [] = ((λ h. absurd (ground arith)), λ h. absurd h)
any-In k (j ∷ ks) = (
  λ h. elim (Bool-cases (text_eq k j)) [
    | inl same ↦ inl (sym (text_eq→eq k j same))
    | inr other ↦ inr ((any-In k ks).0 (ground arith))
  ],
  λ h. elim h [
    | inl same ↦ rw same (ground (arith, text_eq_refl k))
    | inr there ↦ ground (arith, (any-In k ks).1 there, Bool-cases (text_eq k j))
  ],
)

should_auto_redact-LooksSensitive :
    (name : Text) → (should_auto_redact name ≡ true) ↔ LooksSensitive name
unfolding should_auto_redact
should_auto_redact-LooksSensitive name =
    or-↔ _ _
      (or-↔ _ _
        (or-↔ _ _ (search_at_end-EndsIn (codes "_enc") name)
          (search_at_end-EndsIn (codes "_token") name))
        (search-Holds (codes "password") (lower name)))
      (search_at_end-EndsIn (codes "secret") (lower name))

-- The fields that are replaced are the hidden ones.
pub is_redacted-IsHidden : (meta : Meta) (k : Text) → (is_redacted meta k ≡ true) ↔ IsHidden meta k
unfolding is_redacted
is_redacted-IsHidden meta k =
    let listed = any-In k meta.redacted_fields in
    let rule = should_auto_redact-LooksSensitive k in
    (
      λ h. elim (Bool-cases (any (text_eq k) meta.redacted_fields)) [
        | inl named ↦ inl (listed.0 named)
        | inr unnamed ↦ inr (
          ground (arith, Bool-cases meta.allow_sensitive),
          rule.0 (ground (arith, Bool-cases meta.allow_sensitive)),
        )
      ],
      λ h. elim h [
        | inl named ↦ ground (arith, listed.1 named)
        | inr (on, sensitive) ↦
            ground (arith, rule.1 sensitive, Bool-cases (any (text_eq k) meta.redacted_fields))
      ],
    )
