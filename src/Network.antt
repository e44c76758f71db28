-- ===== src/Network.antt =====
-- libyaaf/network: kinds.h and queries.h, and the packer of `network_actor_message` in
-- libyaaf/context_network.h.
pub mod Values
pub mod Links
pub mod Actors
pub mod Laws
pub mod Arrival
use yaaf.Common.{ℕ, ◌≡◌, ◌<◌, Option, none, some, List, [], ◌∷◌, length, Str}
use yaaf.Serialization.{
  Field, pod, text, blob, Shape, pod_shape, text_shape, blob_shape, capacity, binary_write,
  binary_read,
}

pub data MessageKinds : Type 0 where
  kind_ok login login_confirm login_failed msg : MessageKinds

-- libdialler's `message`: a kind, and the bytes from `value()` on.
pub record Message : Type 0 where
  pub kind : MessageKinds
  pub value : List ℕ

-- What is used of libdialler: the cast to `message::size_t`, which keeps the numbers of its range, and
-- the bytes of a message that was made for some size.
pub record Dialler : Type 0 where
  pub size_limit : ℕ
  pub to_size : ℕ → ℕ
  pub to_size_fits : (n : ℕ) → n < size_limit → to_size n ≡ n
  pub fresh : ℕ → List ℕ
  pub length-fresh : (n : ℕ) → length (fresh n) ≡ n

-- The bodies of queries.h, with the fields that each reads and writes. `packed` is
-- `packed_message<network_actor_message>`.
pub data Query : Type 0 where
  ok_query : ℕ → Query
  login_query : Str → Query
  login_confirm_query : ℕ → Query
  login_failed_query : ℕ → Query
  packed : Str → List ℕ → Query

unfoldable pub kind_of : Query → MessageKinds
kind_of (ok_query id) = kind_ok
kind_of (login_query login_str) = login
kind_of (login_confirm_query id) = login_confirm
kind_of (login_failed_query id) = login_failed
kind_of (packed name bytes) = msg

-- The arguments of each `BinaryRW`; an id is a uint64_t.
unfoldable pub fields : Query → List Field
fields (ok_query id) = pod 8 id ∷ []
fields (login_query login_str) = text login_str ∷ []
fields (login_confirm_query id) = pod 8 id ∷ []
fields (login_failed_query id) = pod 8 id ∷ []
fields (packed name bytes) = text name ∷ blob bytes ∷ []

made : MessageKinds → Option (List ℕ) → Option Message
made k none = none
made k (some v) = some (record { kind = k; value = v })

-- `get_message`: a message for as many bytes as `capacity` says, written from `value()` on.
unfoldable pub get_message : Dialler → Query → Option Message
unfolding made
get_message d q =
    let needed_size = d.to_size (capacity (fields q)) in
    made (kind_of q) (binary_write (d.fresh needed_size) (fields q))

one_id : (ℕ → Query) → Option (List Field) → Option Query
one_id make (some (pod k id ∷ [])) = some (make id)
one_id make other = none

one_text : Option (List Field) → Option Query
one_text (some (text s ∷ [])) = some (login_query s)
one_text other = none

name_and_data : Option (List Field) → Option Query
name_and_data (some (text name ∷ blob bytes ∷ [])) = some (packed name bytes)
name_and_data other = none

-- The constructors from a message, chosen by its kind.
read_query : MessageKinds → List ℕ → Option Query
unfolding one_id one_text name_and_data
read_query kind_ok v = one_id ok_query (binary_read v (pod_shape 8 ∷ []))
read_query login v = one_text (binary_read v (text_shape ∷ []))
read_query login_confirm v = one_id login_confirm_query (binary_read v (pod_shape 8 ∷ []))
read_query login_failed v = one_id login_failed_query (binary_read v (pod_shape 8 ∷ []))
read_query msg v = name_and_data (binary_read v (text_shape ∷ blob_shape ∷ []))

unfoldable pub from_message : Message → Option Query
unfolding read_query
from_message m = read_query m.kind m.value
