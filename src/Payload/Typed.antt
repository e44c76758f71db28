-- ===== src/Payload/Typed.antt =====
-- libyaaf/payload.h: `holder<T>`, `cast` and `is`. A C++ type is a tag, and its values are `Val tag`.
use mathlib.Core.Path.{subst_refl}
use mathlib.Core.HLevel.{hedberg}
use yaaf.Common.{
  ◌≡◌, ◌≢◌, ◌∙◌, refl, subst, ap, Bool, true, false, if◌then◌else◌, Option, none, some, arith, Str,
}
use yaaf.Common.Outcomes.{Outcome, ok, thrown, null_deref}
use yaaf.Payload.{Payload, payload_of, no_payload, copy}

-- The types that messages have, and the equality of `typeid`s.
pub record Types : Type 1 where
  pub Tag : Type 0
  pub Val : Tag → Type 0
  pub tag_dec : (s t : Tag) → Dec (s ≡ t)

pub record Holder (T : Types) : Type 0 where
  pub tag : T.Tag
  pub value : T.Val tag

-- The exceptions' texts.
pub record Messages : Type 0 where
  pub bad_cast : Str
  pub null_holder : Str

module _ (T : Types) (m : Messages) where
  -- `payload_t(const U &)`.
  abbrev pub pack_value : (t : T.Tag) → T.Val t → Payload (Holder T)
  pack_value t v = payload_of (record { tag = t; value = v })

  cast_holder : (t : T.Tag) → Option (Holder T) → Outcome (T.Val t)
  cast_holder t none = null_deref
  cast_holder t (some h) = elim (T.tag_dec h.tag t) [
    | yes same ↦ ok (subst T.Val same h.value)
    | no other ↦ thrown m.bad_cast
  ]

  -- `cast<U>()`.
  unfoldable pub cast : (t : T.Tag) → Payload (Holder T) → Outcome (T.Val t)
  unfolding cast_holder
  cast t p = cast_holder t p.holder

  -- With `DOUBLE_CHECKS` the `ENSURE` in front throws; without it the null pointer is read.
  is_holder : Bool → T.Tag → Option (Holder T) → Outcome Bool
  is_holder double_checks t none = if double_checks then thrown m.null_holder else null_deref
  is_holder double_checks t (some h) = elim (T.tag_dec t h.tag) [
    | yes same ↦ ok true
    | no other ↦ ok false
  ]

  -- `is<U>()`.
  unfoldable pub is : Bool → T.Tag → Payload (Holder T) → Outcome Bool
  unfolding is_holder
  is double_checks t p = is_holder double_checks t p.holder

  -- `cast` of a payload made from a value of the same type gives back that value, of one made from
  -- another type it throws, and of an empty one it reads a null pointer.
  pub cast-pack_value :
      (s t : T.Tag) (v : T.Val s) (w : T.Val t)
      → s ≢ t
      → (cast t (pack_value t w) ≡ ok w)
        × (cast t (pack_value s v) ≡ thrown m.bad_cast)
        × (cast t no_payload ≡ null_deref)
  unfolding cast
  cast-pack_value s t v w n = (same_type (T.tag_dec t t), other_type (T.tag_dec s t) n, refl)
    where
      same_type :
          (d : Dec (t ≡ t))
          → (elim d as (λ x. Outcome (T.Val t)) [
            | yes same ↦ ok (subst T.Val same w)
            | no other ↦ thrown m.bad_cast
          ])
            ≡ ok w
      same_type (yes p) =
          ap ok (ap (λ q. subst T.Val q w) (hedberg T.tag_dec t t p refl) ∙ subst_refl T.Val w)
      same_type (no k) = absurd (k refl)

      other_type :
          (d : Dec (s ≡ t))
          → s ≢ t
          → (elim d as (λ x. Outcome (T.Val t)) [
            | yes same ↦ ok (subst T.Val same v)
            | no other ↦ thrown m.bad_cast
          ])
            ≡ thrown m.bad_cast
      other_type (yes p) k = absurd (k p)
      other_type (no p) k = refl

  -- A copy of a payload that carries a value casts like the payload.
  pub cast-copy : (t : T.Tag) (p q : Payload (Holder T)) → copy p ≡ ok q → cast t q ≡ cast t p
  unfolding cast copy
  cast-copy t p q e = ground arith
