-- ===== src/Address.antt =====
-- libyaaf/types.h (`id_t`) and libyaaf/actor_address.h (`actor_address`).
use yaaf.Common.{ℕ, ◌+◌, ◌%◌, ◌^◌, Bool, ◌&&◌, ◌==◌, nat_eq, str_eq, Str, [], ◌∷◌}

-- The number that an `id_t` holds, a uint64_t.
abbrev pub IdT : Type 0
IdT = ℕ

abbrev pub u64_mod : ℕ
u64_mod = 2 ^ 64

-- The default constructor: the largest uint64_t.
abbrev pub no_id : IdT
no_id = 0xffff_ffff_ffff_ffff

unfoldable pub id_empty : IdT → Bool
id_empty i = i == no_id

-- `operator++`; `operator++(int)` also returns the old value.
unfoldable pub id_inc : IdT → IdT
id_inc i = (i + 1) % u64_mod

unfoldable pub id_post_inc : IdT → IdT × IdT
unfolding id_inc
id_post_inc i = (i, id_inc i)

pub record Address : Type 0 where
  pub id : IdT
  pub pathname : Str

-- `actor_address()`.
abbrev pub no_address : Address
no_address = record { id = 0; pathname = [] }

-- The text "null".
abbrev pub null_name : Str
null_name = b'n' ∷ b'u' ∷ b'l' ∷ b'l' ∷ []

-- `actor_address(id_t)`, also the implicit conversion from an id.
abbrev pub address_of_id : IdT → Address
address_of_id i = record { id = i; pathname = null_name }

unfoldable pub address_empty : Address → Bool
address_empty a = a.id == 0

unfoldable pub address_eq : Address → Address → Bool
address_eq a b = a.id == b.id && a.pathname == b.pathname
