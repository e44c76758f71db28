-- ===== src/Serialization/Bytes.antt =====
-- The memory operations that helpers.h calls, and the bytes of an integer.
use yaaf.Common.{
  ℕ, zero, suc, ◌+◌, ◌*◌, ◌/◌, ◌%◌, ◌^◌, ◌<◌, ◌≤◌, ◌≡◌, refl, ap, Option, none, some, List, [], ◌∷◌,
  ◌++◌, length, arith,
}
use native.Mathlib.Nat.{pow-suc}

abbrev pub bind {ℓ κ} : {A : Type ℓ} {B : Type κ} → Option A → (A → Option B) → Option B
bind none f = none
bind (some a) f = f a

-- The lowest `k` bytes of a number, and the number of some bytes.
unfoldable pub le_bytes : ℕ → ℕ → List ℕ
le_bytes zero n = []
le_bytes (suc k) n = (n % 256) ∷ le_bytes k (n / 256)

unfoldable pub le_value : List ℕ → ℕ
le_value [] = 0
le_value (b ∷ bs) = b + 256 * le_value bs

-- `memcpy(dst, src, src.size())`.
unfoldable pub memcpy : List ℕ → List ℕ → Option (List ℕ)
memcpy dst [] = some dst
memcpy [] (b ∷ bs) = none
memcpy (d ∷ dst) (b ∷ bs) = bind (memcpy dst bs) λ m. some (b ∷ m)

-- What a write through `ptr + k` makes of the memory from `ptr` on.
unfoldable pub at_offset : ℕ → (List ℕ → Option (List ℕ)) → List ℕ → Option (List ℕ)
at_offset zero f m = f m
at_offset (suc k) f [] = none
at_offset (suc k) f (b ∷ m) = bind (at_offset k f m) λ m'. some (b ∷ m')

-- The memory from `ptr + k` on.
unfoldable pub skip : ℕ → List ℕ → Option (List ℕ)
skip zero m = some m
skip (suc k) [] = none
skip (suc k) (b ∷ m) = skip k m

-- `n` bytes from the pointer on.
unfoldable pub take_bytes : ℕ → List ℕ → Option (List ℕ)
take_bytes zero m = some []
take_bytes (suc n) [] = none
take_bytes (suc n) (b ∷ m) = bind (take_bytes n m) λ bs. some (b ∷ bs)

-- `memcpy(&x, ptr + k, n)`.
unfoldable pub load : ℕ → ℕ → List ℕ → Option (List ℕ)
unfolding skip take_bytes
load k n m = bind (skip k m) λ p. take_bytes n p

pub length-le_bytes : (k n : ℕ) → length (le_bytes k n) ≡ k
unfolding le_bytes
length-le_bytes zero n = refl
length-le_bytes (suc k) n = ap suc (length-le_bytes k (n / 256))

-- A number that fits `k` bytes is read back from its bytes.
pub le_value-le_bytes : (k n : ℕ) → n < 256 ^ k → le_value (le_bytes k n) ≡ n
unfolding le_bytes le_value
le_value-le_bytes zero n h = omega arith
le_value-le_bytes (suc k) n h =
    omega (arith, le_value-le_bytes k (n / 256) (omega (arith, pow-suc 256 k)))

pub memcpy-append :
    (pre rest src : List ℕ)
    → length pre ≡ length src
    → memcpy (pre ++ rest) src ≡ some (src ++ rest)
unfolding memcpy
memcpy-append [] rest [] h = refl
memcpy-append [] rest (b ∷ bs) h = absurd (omega arith)
memcpy-append (p ∷ pre) rest [] h = absurd (omega arith)
memcpy-append (p ∷ pre) rest (b ∷ bs) h = rw (memcpy-append pre rest bs (omega arith))

pub at_offset-append :
    (pre rest new : List ℕ) (f : List ℕ → Option (List ℕ))
    → f rest ≡ some new
    → at_offset (length pre) f (pre ++ rest) ≡ some (pre ++ new)
unfolding at_offset
at_offset-append [] rest new f h = h
at_offset-append (b ∷ pre) rest new f h = rw (at_offset-append pre rest new f h)

pub skip-append : (pre rest : List ℕ) → skip (length pre) (pre ++ rest) ≡ some rest
unfolding skip
skip-append [] rest = refl
skip-append (b ∷ pre) rest = skip-append pre rest

pub take_bytes-append : (bs rest : List ℕ) → take_bytes (length bs) (bs ++ rest) ≡ some bs
unfolding take_bytes
take_bytes-append [] rest = refl
take_bytes-append (b ∷ bs) rest = rw (take_bytes-append bs rest)

pub load-append :
    (pre bs rest : List ℕ) → load (length pre) (length bs) (pre ++ (bs ++ rest)) ≡ some bs
unfolding load
load-append pre bs rest = rw (skip-append pre (bs ++ rest), take_bytes-append bs rest)

-- Memory of at least `n` bytes is `n` bytes and the rest.
pub split_at :
    (n : ℕ) (m : List ℕ)
    → n ≤ length m
    → (pre : List ℕ) × (rest : List ℕ) × (m ≡ pre ++ rest) × (length pre ≡ n)
split_at zero m h = ([], m, refl, refl)
split_at (suc n) [] h = absurd (omega arith)
split_at (suc n) (b ∷ m) h =
    let (pre, rest, e, l) = split_at n m (omega arith) in (b ∷ pre, rest, ap (◌∷◌ b) e, ap suc l)

pub memcpy_short : (dst src : List ℕ) → length dst < length src → memcpy dst src ≡ none
unfolding memcpy
memcpy_short dst [] h = absurd (omega arith)
memcpy_short [] (b ∷ bs) h = refl
memcpy_short (d ∷ dst) (b ∷ bs) h = rw (memcpy_short dst bs (omega arith))

-- The same lemmas at a computed offset.
pub at_offset_of :
    (k : ℕ) (pre rest new : List ℕ) (f : List ℕ → Option (List ℕ))
    → length pre ≡ k
    → f rest ≡ some new
    → at_offset k f (pre ++ rest) ≡ some (pre ++ new)
at_offset_of k pre rest new f l h = rw (← l) (at_offset-append pre rest new f h)

pub skip_of : (k : ℕ) (pre rest : List ℕ) → length pre ≡ k → skip k (pre ++ rest) ≡ some rest
skip_of k pre rest l = rw (← l) (skip-append pre rest)

pub load_of :
    (k n : ℕ) (pre bs rest : List ℕ)
    → length pre ≡ k
    → length bs ≡ n
    → load k n (pre ++ (bs ++ rest)) ≡ some bs
load_of k n pre bs rest l m = rw (← l, ← m) (load-append pre bs rest)
