-- ===== src/Network/Laws.antt =====
-- libyaaf/network/queries.h: a query survives the network.
use yaaf.Common.{ℕ, ◌≡◌, refl, ◌<◌, some, List, map, length, All, arith}
use yaaf.Serialization.{shape, capacity, binary_read}
use yaaf.Serialization.RoundTrip.{Fits, binary_read-binary_write}
use yaaf.Network.{
  Message, Dialler, Query, ok_query, login_query, login_confirm_query, login_failed_query, packed,
  kind_of, fields, get_message, from_message,
}

reads :
    (q : Query) (v : List ℕ)
    → binary_read v (map shape (fields q)) ≡ some (fields q)
    → from_message (record { kind = kind_of q; value = v }) ≡ some q
unfolding from_message fields kind_of
reads (ok_query id) v got = rw got
reads (login_query s) v got = rw got
reads (login_confirm_query id) v got = rw got
reads (login_failed_query id) v got = rw got
reads (packed name bytes) v got = rw got

-- If the fields of a query fit and its size is below the limit of the network library, `get_message`
-- gives a message of the query's kind and of exactly its size, and the constructor from a message
-- reads it as the query.
pub from_message-get_message :
    (d : Dialler) (q : Query)
    → All Fits (fields q)
    → capacity (fields q) < d.size_limit
    → (m : Message) × (get_message d q ≡ some m)
      × (m.kind ≡ kind_of q)
      × (length m.value ≡ capacity (fields q))
      × (from_message m ≡ some q)
unfolding get_message
from_message-get_message d q h lt =
    let needed = d.to_size (capacity (fields q)) in
    let (v, wrote, got, len, _) =
      binary_read-binary_write (fields q) (d.fresh needed) h
        (omega (arith, d.length-fresh needed, d.to_size_fits (capacity (fields q)) lt)) in
    (
      record { kind = kind_of q; value = v },
      rw wrote,
      refl,
      omega (arith, len, d.length-fresh needed, d.to_size_fits (capacity (fields q)) lt),
      reads q v got,
    )
