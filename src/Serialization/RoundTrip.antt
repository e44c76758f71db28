-- ===== src/Serialization/RoundTrip.antt =====
-- libyaaf/serialization: what is written is what `capacity` says, and is read back.
use yaaf.Common.{
  ℕ, ◌+◌, ◌%◌, ◌^◌, ◌<◌, ◌≤◌, ◌≡◌, refl, sym, ap, ◌∙◌, some, List, [], ◌∷◌, ◌++◌, map, length,
  length-append, append_assoc, arith, All,
}
use yaaf.Serialization.{
  Field, pod, text, blob, shape, u32_mod, size, write, read, calculate_args_size, write_args,
  read_args, capacity, binary_write, binary_read,
}
use yaaf.Serialization.Bytes.{
  at_offset_of, skip_of, load_of, le_bytes, le_value, memcpy, load, at_offset, skip, bind,
  length-le_bytes, le_value-le_bytes, memcpy-append, split_at,
}
use native.Mathlib.Nat.{zero-add}

-- What a value looks like in memory.
unfoldable pub encode : Field → List ℕ
encode (pod k n) = le_bytes k n
encode (text s) = le_bytes 4 (length s % u32_mod) ++ s
encode (blob b) = le_bytes 4 (length b % u32_mod) ++ b

unfoldable pub encode_all : List Field → List ℕ
encode_all [] = []
encode_all (f ∷ fs) = encode f ++ encode_all fs

-- The number fits its type, and the length a uint32_t.
abbrev pub Fits : Field → Type 0
Fits (pod k n) = n < 256 ^ k
Fits (text s) = length s < u32_mod
Fits (blob b) = length b < u32_mod

length-encode : (f : Field) → length (encode f) ≡ size f
unfolding encode size
length-encode (pod k n) = length-le_bytes k n
length-encode (text s) = omega (
  arith,
  length-append (le_bytes 4 (length s % u32_mod)) s,
  length-le_bytes 4 (length s % u32_mod),
)
length-encode (blob b) = omega (
  arith,
  length-append (le_bytes 4 (length b % u32_mod)) b,
  length-le_bytes 4 (length b % u32_mod),
)

counted :
    (s pre rest : List ℕ)
    → length pre ≡ 4 + length s
    → (bind
        (memcpy (pre ++ rest) (le_bytes 4 (length s % u32_mod)))
        λ m. at_offset 4 (λ p. memcpy p s) m)
      ≡ some ((le_bytes 4 (length s % u32_mod) ++ s) ++ rest)
counted s pre rest h =
    let c = le_bytes 4 (length s % u32_mod) in
    let (p4, ps, e, l) = split_at 4 pre (omega arith) in
    rw
      (
        e,
        append_assoc p4 ps rest,
        memcpy-append p4 (ps ++ rest) c (l ∙ sym (length-le_bytes 4 (length s % u32_mod))),
      )
      (at_offset_of 4 c (ps ++ rest) (s ++ rest) (λ p. memcpy p s)
          (length-le_bytes 4 (length s % u32_mod))
          (memcpy-append ps rest s (omega (arith, ap length e, length-append p4 ps, l)))
        ∙ ap some (sym (append_assoc c s rest)))

write-encode :
    (f : Field) (pre rest : List ℕ)
    → length pre ≡ size f
    → write (pre ++ rest) f ≡ some (encode f ++ rest, size f)
unfolding write encode size
write-encode (pod k n) pre rest h =
    rw (memcpy-append pre rest (le_bytes k n) (h ∙ sym (length-le_bytes k n)))
write-encode (text s) pre rest h = rw (counted s pre rest h)
write-encode (blob b) pre rest h = rw (counted b pre rest h)

load_counted :
    (s rest : List ℕ)
    → length s < u32_mod
    → let m = (le_bytes 4 (length s % u32_mod) ++ s) ++ rest in
      (load 0 4 m ≡ some (le_bytes 4 (length s % u32_mod)))
      × (le_value (le_bytes 4 (length s % u32_mod)) ≡ length s)
      × (load 4 (length s) m ≡ some s)
load_counted s rest h =
    let c = le_bytes 4 (length s % u32_mod) in
    let four : length c ≡ 4 = length-le_bytes 4 (length s % u32_mod) in
    (
      rw (append_assoc c s rest) (load_of 0 4 [] c (s ++ rest) refl four),
      le_value-le_bytes 4 (length s % u32_mod) (omega arith) ∙ omega arith,
      rw (append_assoc c s rest) (load_of 4 (length s) c s rest four refl),
    )

read-encode :
    (f : Field) (rest : List ℕ) → Fits f → read (encode f ++ rest) (shape f) ≡ some (f, size f)
unfolding read encode size
read-encode (pod k n) rest h =
    rw (load_of 0 k [] (le_bytes k n) rest refl (length-le_bytes k n), le_value-le_bytes k n h)
read-encode (text s) rest h = let (a, b, c) = load_counted s rest h in rw (a, b, c)
read-encode (blob s) rest h = let (a, b, c) = load_counted s rest h in rw (a, b, c)

-- The sum that `calculate_args_size` runs up.
total : List Field → ℕ
total [] = 0
total (f ∷ fs) = size f + total fs

calculate_args_size-total : (n : ℕ) (fs : List Field) → calculate_args_size n fs ≡ n + total fs
unfolding calculate_args_size total
calculate_args_size-total n [] = omega arith
calculate_args_size-total n (f ∷ fs) = omega (arith, calculate_args_size-total (n + size f) fs)

length-encode_all : (fs : List Field) → length (encode_all fs) ≡ total fs
unfolding encode_all total
length-encode_all [] = refl
length-encode_all (f ∷ fs) =
    omega (arith, length-append (encode f) (encode_all fs), length-encode f, length-encode_all fs)

write_args-encode_all :
    (fs : List Field) (pre rest : List ℕ)
    → length pre ≡ total fs
    → write_args (pre ++ rest) fs ≡ some (encode_all fs ++ rest)
unfolding write_args encode_all total
write_args-encode_all [] [] rest h = refl
write_args-encode_all [] (b ∷ pre) rest h = absurd (omega arith)
write_args-encode_all (f ∷ fs) pre rest h =
    let (p, q, e, l) = split_at (size f) pre (omega arith) in
    rw (e, append_assoc p q rest, write-encode f p (q ++ rest) l)
      (at_offset_of (size f) (encode f) (q ++ rest) (encode_all fs ++ rest) (λ m. write_args m fs)
          (length-encode f)
          (write_args-encode_all fs q rest (omega (arith, ap length e, length-append p q)))
        ∙ ap some (sym (append_assoc (encode f) (encode_all fs) rest)))

read_args-encode_all :
    (fs : List Field) (rest : List ℕ)
    → All Fits fs
    → read_args (encode_all fs ++ rest) (map shape fs) ≡ some fs
unfolding read_args encode_all
read_args-encode_all [] rest h = refl
read_args-encode_all (f ∷ fs) rest h = rw (
  append_assoc (encode f) (encode_all fs) rest,
  read-encode f (encode_all fs ++ rest) h.0,
  skip_of (size f) (encode f) (encode_all fs ++ rest) (length-encode f),
  read_args-encode_all fs rest h.1,
)

-- If every number fits its type and every length a uint32_t, `write` into memory of at least
-- `capacity` bytes succeeds, changes no byte behind the first `capacity` ones and not the size, and
-- `read` gives the values back.
pub binary_read-binary_write :
    (fs : List Field) (m : List ℕ)
    → All Fits fs
    → capacity fs ≤ length m
    → (m' : List ℕ) × (binary_write m fs ≡ some m')
      × (binary_read m' (map shape fs) ≡ some fs)
      × (length m' ≡ length m)
      × (skip (capacity fs) m' ≡ skip (capacity fs) m)
unfolding capacity binary_write binary_read
binary_read-binary_write fs m h le =
    let size_is = calculate_args_size-total 0 fs in
    let (p, q, e, l) = split_at (total fs) m (omega (arith, size_is)) in
    (
      encode_all fs ++ q,
      rw e (write_args-encode_all fs p q l),
      read_args-encode_all fs q h,
      omega (
        arith,
        ap length e,
        length-append p q,
        length-append (encode_all fs) q,
        length-encode_all fs,
      ),
      rw (size_is, zero-add)
          (skip_of (total fs) (encode_all fs) q (length-encode_all fs)
            ∙ sym (rw e (skip_of (total fs) p q l))),
    )
