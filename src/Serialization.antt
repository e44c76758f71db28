-- ===== src/Serialization.antt =====
-- libyaaf/serialization: helpers.h (`size`, `write`, `read` and their recursive forms) and
-- serialization.h (`binary_io`, `object_packer`). Memory is the list of the bytes from a pointer on, and
-- an access behind its end gives `none`. Integers lie in memory lowest byte first.
pub mod Bytes
pub mod RoundTrip
use yaaf.Common.{ℕ, zero, suc, ◌+◌, ◌%◌, ◌^◌, ◌<◌, Option, none, some, List, [], ◌∷◌, length, Str}
use Bytes.{le_bytes, le_value, memcpy, load, at_offset, bind}

-- The values that are written: a POD of some number of bytes, a `std::string`, a `vector<uint8_t>`.
pub data Field : Type 0 where
  pod : ℕ → ℕ → Field
  text : Str → Field
  blob : List ℕ → Field

-- Their C++ types, by which `read` is chosen.
pub data Shape : Type 0 where
  pod_shape : ℕ → Shape
  text_shape blob_shape : Shape

abbrev pub shape : Field → Shape
shape (pod k n) = pod_shape k
shape (text s) = text_shape
shape (blob b) = blob_shape

abbrev pub u32_mod : ℕ
u32_mod = 2 ^ 32

-- `size`.
unfoldable pub size : Field → ℕ
size (pod k n) = k
size (text s) = 4 + length s
size (blob b) = 4 + length b

-- The length in front, cast to uint32_t, then the bytes.
write_counted : List ℕ → List ℕ → Option (List ℕ)
write_counted it s =
    bind (memcpy it (le_bytes 4 (length s % u32_mod))) λ m. at_offset 4 (λ p. memcpy p s) m

returning : ℕ → Option (List ℕ) → Option (List ℕ × ℕ)
returning n none = none
returning n (some m) = some (m, n)

-- `write`: the memory afterwards, and the number that is returned.
unfoldable pub write : List ℕ → Field → Option (List ℕ × ℕ)
unfolding write_counted returning
write it (pod k n) = returning k (memcpy it (le_bytes k n))
write it (text s) = returning (4 + length s) (write_counted it s)
write it (blob b) = returning (4 + length b) (write_counted it b)

read_counted : (List ℕ → Field) → List ℕ → Option (Field × ℕ)
read_counted make it =
    bind (load 0 4 it) λ l. let len = le_value l in bind (load 4 len it) λ s. some (make s, 4 + len)

-- `read`: the value, and the number that is returned.
unfoldable pub read : List ℕ → Shape → Option (Field × ℕ)
unfolding read_counted
read it (pod_shape k) = bind (load 0 k it) λ b. some (pod k (le_value b), k)
read it text_shape = read_counted text it
read it blob_shape = read_counted blob it

-- `calculate_args_size`, which adds to a running sum.
unfoldable pub calculate_args_size : ℕ → List Field → ℕ
calculate_args_size result [] = result
calculate_args_size result (f ∷ fs) = calculate_args_size (result + size f) fs

-- `write_args`: `it += szofcur` after each value.
unfoldable pub write_args : List ℕ → List Field → Option (List ℕ)
unfolding write
write_args it [] = some it
write_args it (f ∷ fs) =
    bind (write it f) λ (m, szofcur). at_offset szofcur (λ p. write_args p fs) m

-- `read_args`. The memory behind the first value is what is left when its bytes are taken off.
unfoldable pub read_args : List ℕ → List Shape → Option (List Field)
unfolding read
read_args it [] = some []
read_args it (s ∷ ss) =
    bind (read it s)
      λ (f, szofcur). bind (Bytes.skip szofcur it) λ p. bind (read_args p ss) λ fs. some (f ∷ fs)

-- `binary_io::capacity`, `binary_io::write` and `binary_io::read`.
unfoldable pub capacity : List Field → ℕ
capacity fs = calculate_args_size 0 fs

unfoldable pub binary_write : List ℕ → List Field → Option (List ℕ)
binary_write it fs = write_args it fs

unfoldable pub binary_read : List ℕ → List Shape → Option (List Field)
binary_read it ss = read_args it ss
