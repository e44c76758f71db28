-- ===== src/Context/Sound.antt =====
-- libyaaf/context.h: what holds of a context whatever its users, its worker and its actors do, while the
-- ids last.
pub mod Adding
pub mod Stopping
pub mod Sending
pub mod Exchanging
pub mod Handling
pub mod Tasks
pub mod Relaying
pub mod Scanning
pub mod Working
pub mod Lifetime
use yaaf.Common.{
  IsDistinct, str_eq, ℕ, ◌+◌, ◌≤◌, ◌<◌, ◌≡◌, All, length, arith, refl, ◌≢◌, Str, none, some, lookup,
  nat_eq,
}
use yaaf.Address.{u64_mod, IdT}
use yaaf.Payload.{Envelope, IsFilled}
use yaaf.Context.State.{Context, BoxPtr}
use yaaf.Context.Registry.{IsRegistry}
use yaaf.Context.Registry.Same.{SameMaps, SameMaps-IsRegistry}

module _ {H : Type 0} where
  -- Every waiting envelope carries a value.
  abbrev pub IsFilledUp : Context H → Type 0
  IsFilledUp s = (b : BoxPtr) → All IsFilled (s.boxes b).dqueue

  -- Fewer calls of virtual methods have been made than there are ids. Each `add_actor` makes one.
  abbrev pub HasRoom : Context H → Type 0
  HasRoom s = length s.events + 2 < u64_mod

  pub record IsSound (s : Context H) : Type 0 where
    pub registry : IsRegistry s
    pub counted : s.next_actor_id ≤ length s.events + 1
    pub filled : IsFilledUp s
    -- No name has two exchanges.
    pub distinct : IsDistinct s.exchanges

  -- No id is taken back; one that was given out and is of no actor stays so, and if no name leads to it,
  -- none will.
  pub record Lasts (s t : Context H) : Type 0 where
    pub next : s.next_actor_id ≤ t.next_actor_id
    pub gone : (i : IdT) → i < s.next_actor_id → lookup i s.actors ≡ none → lookup i t.actors ≡ none
    pub unnamed :
        (i : IdT)
        → i < s.next_actor_id
        → ((n : Str) → lookup n s.id_by_name ≢ some i)
        → (n : Str) → lookup n t.id_by_name ≢ some i

  pub Lasts-same :
      {s t : Context H}
      → t.next_actor_id ≡ s.next_actor_id
      → t.actors ≡ s.actors
      → t.id_by_name ≡ s.id_by_name
      → Lasts s t
  Lasts-same ids actors names = record {
    next = omega (arith, ids);
    gone = λ i bound free. rw actors free;
    unnamed = λ i bound free. rw names free;
  }

  pub Lasts-trans : {s t u : Context H} → Lasts s t → Lasts t u → Lasts s u
  Lasts-trans h k = record {
    next = omega (arith, h.next, k.next);
    gone = λ i bound free. k.gone i (omega (arith, bound, h.next)) (h.gone i bound free);
    unnamed = λ i bound free. k.unnamed i (omega (arith, bound, h.next)) (h.unnamed i bound free);
  }

  -- What every operation does while ids are left: no call is taken back, what is sound stays so, and ids
  -- are not used again.
  pub record Evolves (s t : Context H) : Type 0 where
    pub grows : length s.events ≤ length t.events
    pub sound : HasRoom t → IsSound s → IsSound t
    pub lasts : HasRoom t → IsSound s → Lasts s t

  pub Evolves-refl : (s : Context H) → Evolves s s
  Evolves-refl s = record {
    grows = omega arith;
    sound = λ room v. v;
    lasts = λ room v. Lasts-same refl refl refl;
  }

  pub Evolves-trans : {s t u : Context H} → Evolves s t → Evolves t u → Evolves s u
  Evolves-trans {s} {t} {u} h k = record {
    grows = omega (arith, h.grows, k.grows);
    sound = λ room v. k.sound room (h.sound (omega (arith, k.grows, room)) v);
    lasts = λ room v.
        let early : HasRoom t = omega (arith, k.grows, room) in
        Lasts-trans (h.lasts early v) (k.lasts room (h.sound early v));
  }

  -- An operation that touches none of the maps.
  pub Evolves-same :
      {s t : Context H}
      → SameMaps s t
      → length s.events ≤ length t.events
      → (IsFilledUp s → IsFilledUp t)
      → Evolves s t
  Evolves-same m g f = record {
    grows = g;
    sound = λ room v. record {
      registry = SameMaps-IsRegistry m v.registry;
      counted = omega (arith, m.next_actor_id, v.counted, g);
      filled = f v.filled;
      distinct = rw m.exchanges v.distinct;
    };
    lasts = λ room v. Lasts-same m.next_actor_id m.actors m.id_by_name;
  }
