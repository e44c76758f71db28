-- ===== src/Context/Sound/Adding.antt =====
-- libyaaf/context.cpp: `add_actor` in any context.
use yaaf.Common.{none, some, lookup, ◌≢◌, ◌+◌, ◌<◌, ◌≡◌, length, nat_eq, str_eq, arith, Str}
use yaaf.Common.Outcomes.{ok}
use yaaf.Address.{IdT, Address, u64_mod, id_inc}
use yaaf.Mailbox.{no_mail}
use yaaf.Context.State.{Context, ActorPtr, BoxPtr, Program, update}
use yaaf.Context.Add.{Pending, add_actor, add_begin, add_commit, register, user_post}
use yaaf.Context.Registry.NewActor.{Begun, Begun-IsPending, add_actor-IsRegistry, add_actor-Added}
use yaaf.Context.Registry.Adding.{register-free, register-names}
use yaaf.Context.Sound.{Lasts, IsSound, Evolves}

module _ {H : Type 0} where
  pub Begun-Lasts :
      (a : ActorPtr) (p : Pending) (s t : Context H)
      → s.next_actor_id + 1 < u64_mod
      → Begun a p s t
      → Lasts s t
  unfolding id_inc
  Begun-Lasts a p s t room b = record {
    next = ground (arith, b.next_actor_id);
    gone = λ i bound free. rw b.actors free;
    unnamed = λ i bound free. rw b.id_by_name free;
  }

  -- What registering leaves alone: every other id.
  pub register-others :
      (p : Pending) (s : Context H) (i : IdT)
      → lookup p.new_id s.actors ≡ none
      → p.new_id ≢ i
      → (lookup i s.actors ≡ none → lookup i (register p s).actors ≡ none)
        × (((n : Str) → lookup n s.id_by_name ≢ some i)
            → (n : Str) → lookup n (register p s).id_by_name ≢ some i)
  register-others p s i free other = (
    λ gone. (register-free p s i free).1 (other, gone),
    λ unnamed n h. ground (arith, unnamed n, register-names p s n),
  )

module _ {H : Type 0} (program : Program H) where
  pub add_actor-next_actor_id :
      (n : Str) (parent : Address) (a : ActorPtr) (s t : Context H) (addr : Address)
      → s.next_actor_id + 1 < u64_mod
      → add_actor program n parent a s ≡ ok (addr, t)
      → t.next_actor_id ≡ s.next_actor_id + 1
  unfolding register id_inc
  add_actor-next_actor_id n parent a s t addr room e =
      let (p, mid, b, _, same) = add_actor-Added program n parent a s t addr e in
      ground (arith, b.next_actor_id, same.next_actor_id)

  -- The heap and the calls after `add_actor`.
  pub add_actor-heap :
      (n : Str) (parent : Address) (a : ActorPtr) (s t : Context H) (addr : Address)
      → add_actor program n parent a s ≡ ok (addr, t)
      → (length t.events ≡ length s.events + 1)
        × ((b : BoxPtr) → t.boxes b ≡ update s.boxes s.next_box no_mail b)
        × (t.exchanges ≡ s.exchanges)
  unfolding add_actor add_begin add_commit register user_post
  add_actor-heap n parent a s t addr e = (ground arith, λ b. ground arith, ground arith)

  add_actor-Lasts :
      (n : Str) (parent : Address) (a : ActorPtr) (s t : Context H) (addr : Address)
      → IsSound s
      → s.next_actor_id + 1 < u64_mod
      → add_actor program n parent a s ≡ ok (addr, t)
      → Lasts s t
  add_actor-Lasts n parent a s t addr v room e =
      let (p, mid, b, _, same) = add_actor-Added program n parent a s t addr e in
      let first = Begun-Lasts a p s mid room b in
      let none_yet = (Begun-IsPending a p s mid v.registry room b).no_actor in
      let others : (i : IdT) → i < s.next_actor_id → p.new_id ≢ i =
        λ i bound same. omega (arith, b.new_id, bound, same) in
      record {
        next = omega (arith, add_actor-next_actor_id n parent a s t addr room e);
        gone = λ i bound free.
            rw same.actors
              ((register-others p mid i none_yet (others i bound)).0 (first.gone i bound free));
        unnamed = λ i bound free.
            rw same.id_by_name
              ((register-others p mid i none_yet (others i bound)).1 (first.unnamed i bound free));
      }

  pub add_actor-Evolves :
      (n : Str) (parent : Address) (a : ActorPtr) (s t : Context H) (addr : Address)
      → add_actor program n parent a s ≡ ok (addr, t)
      → Evolves s t
  add_actor-Evolves n parent a s t addr e =
      let (calls, heap, kept) = add_actor-heap n parent a s t addr e in
      record {
        grows = omega (arith, calls);
        sound = λ room v.
            let ids : s.next_actor_id + 1 < u64_mod = omega (arith, v.counted, calls, room) in
            record {
              registry = add_actor-IsRegistry program n parent a s t addr v.registry ids e;
              counted =
                  omega
                    (arith, add_actor-next_actor_id n parent a s t addr ids e, calls, v.counted);
              filled = λ b. rw (heap b) (ground (arith, v.filled b));
              distinct = rw kept v.distinct;
            };
        lasts = λ room v.
            add_actor-Lasts n parent a s t addr v (omega (arith, v.counted, calls, room)) e;
      }
