-- ===== src/Common/Outcomes.antt =====
-- What a call may end in: a value, an exception, or a null pointer that is read through.
use mathlib.Core.Path.{◌≡◌, refl}
use mathlib.Core.Bool.{Bool, true, false}
use native.Mathlib.Omega.{arith}
use yaaf.Common.Equality.{Str}

pub data Outcome {ℓ} (A : Type ℓ) : Type ℓ where
  ok : A → Outcome A
  thrown : Str → Outcome A
  -- A null `shared_ptr` or `unique_ptr` is dereferenced.
  null_deref : Outcome A
  -- The fuel of a model's loop is used up.
  out_of_fuel : Outcome A

infixl 5 ◌>>=◌
abbrev pub ◌>>=◌ {ℓ κ} : {A : Type ℓ} {B : Type κ} → Outcome A → (A → Outcome B) → Outcome B
ok a >>= f = f a
thrown m >>= f = thrown m
null_deref >>= f = null_deref
out_of_fuel >>= f = out_of_fuel

-- When a call and what follows it succeed, each of the two has succeeded.
pub >>=-eq-ok {ℓ κ} :
    {A : Type ℓ} {B : Type κ} (call : Outcome A) (next : A → Outcome B) {result : B}
    → (call >>= next) ≡ ok result
    → (value : A) × (call ≡ ok value) × (next value ≡ ok result)
>>=-eq-ok null_deref next e = absurd (ground arith)
>>=-eq-ok out_of_fuel next e = absurd (ground arith)
>>=-eq-ok (thrown text) next e = absurd (ground arith)
>>=-eq-ok (ok value) next e = (value, refl, e)

pub ok-injective {ℓ} : {A : Type ℓ} {a b : A} → ok a ≡ ok b → a ≡ b
ok-injective p = cc

-- Two continuations that agree on the value of `m` agree behind it.
pub >>=-cong {ℓ κ} :
    {A : Type ℓ} {B : Type κ} (m : Outcome A) (f g : A → Outcome B)
    → ((a : A) → m ≡ ok a → f a ≡ g a)
    → (m >>= f) ≡ (m >>= g)
>>=-cong (ok a) f g h = h a refl
>>=-cong (thrown m) f g h = refl
>>=-cong null_deref f g h = refl
>>=-cong out_of_fuel f g h = refl

abbrev pub is_ok {ℓ} : {A : Type ℓ} → Outcome A → Bool
is_ok (ok value) = true
is_ok (thrown text) = false
is_ok null_deref = false
is_ok out_of_fuel = false

pub ok_value {ℓ} :
    {A : Type ℓ} (call : Outcome A) → is_ok call ≡ true → (value : A) × (call ≡ ok value)
ok_value (ok value) e = (value, refl)
ok_value (thrown text) e = absurd (ground arith)
ok_value null_deref e = absurd (ground arith)
ok_value out_of_fuel e = absurd (ground arith)
