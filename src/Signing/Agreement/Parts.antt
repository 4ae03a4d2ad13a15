-- ===== src/Signing/Agreement/Parts.antt =====
-- The parts of a signature header that a verifier takes.
use webhooks_engine.Prelude.{
  ℕ, ◌==◌, ◌++◌, is_empty, ap, subst, ◌≡◌, refl, ◌∙◌, inl, inr, true, false, List, [], ◌∷◌, Text,
  text_eq→eq, codes, In, arith, if◌then◌else◌, Bool-cases,
}
use webhooks_engine.Prelude.Strings.{split, partition}
use webhooks_engine.Signing.Defs.{is_v1, macs_in, macs_of}

partition-whole :
    (c : ℕ) (s : Text)
    → is_empty (partition c s).1 ≡ false
    → s ≡ (partition c s).0 ++ c ∷ (partition c s).1
unfolding partition
partition-whole c [] h = absurd (ground arith)
partition-whole c (d ∷ s) h = elim (Bool-cases (d == c)) [
  | inl here ↦ rw here (ap (λ x. x ∷ s) (ground arith))
  | inr there ↦ rw there (ap (λ t. d ∷ t) (partition-whole c s (ground arith)))
]

macs_in-cons :
    (part : Text) (parts : List Text)
    → macs_in (part ∷ parts) ≡ (
        if is_v1 (partition b'=' part)
        then (partition b'=' part).1 ∷ macs_in parts
        else macs_in parts)
unfolding macs_in
macs_in-cons part parts = ground (arith, Bool-cases (is_v1 (partition b'=' part)))

v1-whole :
    (part : Text)
    → is_v1 (partition b'=' part) ≡ true
    → part ≡ codes "v1=" ++ (partition b'=' part).1
v1-whole part h =
    let (version, provided) = partition b'=' part in
    partition-whole b'=' part (ground arith)
    ∙ ap (λ t. t ++ b'=' ∷ provided) (text_eq→eq version (codes "v1") (ground arith))

-- A mac that is taken stands in the header behind `v1=`.
macs_in_sound :
    (mac : Text) (parts : List Text) → In mac (macs_in parts) → In (codes "v1=" ++ mac) parts
macs_in_sound mac [] i = absurd (unfold macs_in in i)
macs_in_sound mac (part ∷ parts) i = elim (Bool-cases (is_v1 (partition b'=' part))) [
  | inl taken ↦
      let e : macs_in (part ∷ parts) ≡ (partition b'=' part).1 ∷ macs_in parts =
        macs_in-cons part parts ∙ rw taken refl in
      let i' : In mac ((partition b'=' part).1 ∷ macs_in parts) = subst (In mac) e i in
      elim i' [
        | inl same ↦ inl (v1-whole part taken ∙ ap (λ m. codes "v1=" ++ m) same)
        | inr there ↦ inr (macs_in_sound mac parts there)
      ]
  | inr other ↦
      let e : macs_in (part ∷ parts) ≡ macs_in parts = macs_in-cons part parts ∙ rw other refl in
      let i' : In mac (macs_in parts) = subst (In mac) e i in inr (macs_in_sound mac parts i')
]

pub macs_of_sound : (mac sig : Text) → In mac (macs_of sig) → In (codes "v1=" ++ mac) (split sig)
unfolding macs_of
macs_of_sound mac sig i = macs_in_sound mac (split sig) i
