-- ===== src/Tests/Bytes.antt =====
-- Values in memory, queries in messages, and texts.
use yaaf.Common.{ℕ, ◌≤◌, ◌<◌, ◌≡◌, refl, some, List, [], ◌∷◌, map, length, All, arith, Str}
use yaaf.Serialization.{
  Field, pod, text, shape, capacity, binary_write, binary_read, size, calculate_args_size,
}
use yaaf.Serialization.Bytes.{skip}
use yaaf.Serialization.RoundTrip.{Fits, binary_read-binary_write}
use yaaf.Network.{Message, Dialler, Query, packed, kind_of, fields, get_message, from_message}
use yaaf.Network.Laws.{from_message-get_message}
use yaaf.Strings.{split}
use yaaf.Strings.Tokens.{IsToken, joined, without, split_lem}
use yaaf.Tests.Data.{child_name}

abbrev values : List Field
values = pod 2 300 ∷ text child_name ∷ []

abbrev pub zeros : ℕ → List ℕ
zeros ℕ.zero = []
zeros (ℕ.suc n) = 0 ∷ zeros n

pub length-zeros : (n : ℕ) → length (zeros n) ≡ n
length-zeros ℕ.zero = refl
length-zeros (ℕ.suc n) = omega (arith, length-zeros n)

values-Fits : All Fits values
values-Fits = (omega arith, (omega arith, tt))

values_room : capacity values ≤ length (zeros 9)
unfolding capacity calculate_args_size size
values_room = omega (arith, length-zeros 9)

binary_read-binary_write_example :
    (m' : List ℕ) × (binary_write (zeros 9) values ≡ some m')
    × (binary_read m' (map shape values) ≡ some values)
    × (length m' ≡ length (zeros 9))
    × (skip (capacity values) m' ≡ skip (capacity values) (zeros 9))
binary_read-binary_write_example = binary_read-binary_write values (zeros 9) values-Fits values_room

-- A network library with messages of less than a hundred bytes.
abbrev pub dialler : Dialler
dialler = record {
  size_limit = 100;
  to_size = λ n. n;
  to_size_fits = λ n lt. refl;
  fresh = zeros;
  length-fresh = length-zeros;
}

abbrev query : Query
query = packed child_name (1 ∷ 2 ∷ [])

query-Fits : All Fits (fields query)
unfolding fields
query-Fits = (omega arith, (omega arith, tt))

query_room : capacity (fields query) < 100
unfolding fields capacity calculate_args_size size
query_room = omega arith

from_message-get_message_example :
    (m : Message) × (get_message dialler query ≡ some m)
    × (m.kind ≡ kind_of query)
    × (length m.value ≡ capacity (fields query))
    × (from_message m ≡ some query)
from_message-get_message_example = from_message-get_message dialler query query-Fits query_room

-- "a  a" cut at the spaces.
abbrev spaced : Str
spaced = b'a' ∷ b' ' ∷ b' ' ∷ b'a' ∷ []

split_lem_example :
    All (IsToken 32) (split spaced 32) × (joined (split spaced 32) ≡ without 32 spaced)
split_lem_example = split_lem spaced 32
