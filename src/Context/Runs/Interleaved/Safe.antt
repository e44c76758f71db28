-- ===== src/Context/Runs/Interleaved/Safe.antt =====
-- libyaaf/context.cpp: `add_actor` in several threads at once, in every run.
use yaaf.Common.{
  ◌+◌, ◌<◌, ◌≡◌, ◌≢◌, List, ◌∷◌, ◌++◌, Str, All, All-map, length, nat_eq, str_eq, arith, subst,
}
use yaaf.Common.Outcomes.{ok, >>=-eq-ok}
use yaaf.Address.{Address, u64_mod, id_inc}
use yaaf.Mailbox.{no_mail}
use yaaf.Context.State.{Context, Program, ActorPtr, start_actor, update, BoxPtr}
use yaaf.Context.Add.{Pending, register, add_begin, add_commit, user_post}
use yaaf.Context.Registry.Same.{SameMaps, SameMaps-IsRegistry, user_post-SameMaps}
use yaaf.Context.Registry.NewActor.{add_begin-Begun, Begun-IsPending, Begun-IsRegistry}
use yaaf.Context.Registry.Registering.{register-IsRegistry}
use yaaf.Context.Sound.{HasRoom, IsSound, Evolves, Lasts-same}
use yaaf.Context.Sound.Adding.{Begun-Lasts}
use yaaf.Context.Sound.Lifetime.{start-IsSound}
use yaaf.Context.Runs.Reached.{Step-Evolves}
use yaaf.Context.Runs.Interleaved.Parked.{
  AreApart, IsParked, All-take, AreApart-take, All-both, IsPending-IsParked, IsParked-IsPending,
  IsParked-Lasts, register-IsParked,
}
use yaaf.Context.Runs.Interleaved.{HasParent, ReachWithin, begun, whole, begins, commits}

module _ {H : Type 0} where
  -- What holds while threads are within `add_actor`.
  pub record IsSafe (ps : List Pending) (s : Context H) : Type 0 where
    pub sound : IsSound s
    pub parked : All (λ p. IsParked p s) ps
    pub apart : AreApart ps

  whole-IsSafe :
      (ps : List Pending) (s t : Context H) → Evolves s t → HasRoom t → IsSafe ps s → IsSafe ps t
  whole-IsSafe ps s t h room v = record {
    sound = h.sound room v.sound;
    parked = All-map ps (λ p w. IsParked-Lasts p s t (h.lasts room v.sound) w) v.parked;
    apart = v.apart;
  }

  begun_heap :
      (program : Program H) (n : Str) (parent : Address) (a : ActorPtr) (s t : Context H)
      (p : Pending)
      → add_begin program n parent a s ≡ ok (p, t)
      → (length t.events ≡ length s.events + 1) × (t.boxes ≡ s.boxes)
  unfolding add_begin
  begun_heap program n parent a s t p e = (ground arith, ground arith)

  begins-IsSafe :
      (program : Program H) (n : Str) (parent : Address) (a : ActorPtr) (ps : List Pending)
      (s t : Context H) (p : Pending)
      → add_begin program n parent a s ≡ ok (p, t)
      → HasRoom t
      → IsSafe ps s
      → IsSafe (p ∷ ps) t
  unfolding id_inc
  begins-IsSafe program n parent a ps s t p e room v =
      let (calls, boxes) = begun_heap program n parent a s t p e in
      let b = add_begin-Begun program n parent a s p t e in
      let ids : s.next_actor_id + 1 < u64_mod = omega (arith, v.sound.counted, calls, room) in
      record {
        sound = record {
          registry = Begun-IsRegistry a p s t v.sound.registry ids b;
          counted = ground (arith, b.next_actor_id, calls, v.sound.counted);
          filled = rw boxes v.sound.filled;
          distinct = rw b.exchanges v.sound.distinct;
        };
        parked = (
          IsPending-IsParked p t (Begun-IsPending a p s t v.sound.registry ids b),
          All-map ps (λ q w. IsParked-Lasts q s t (Begun-Lasts a p s t ids b) w) v.parked,
        );
        apart = (
          All-map ps (λ q w same. omega (arith, b.new_id, (w.issued).1, same)) v.parked,
          v.apart,
        );
      }

  committed_heap :
      (p : Pending) (addr : Address) (s t : Context H)
      → add_commit p s ≡ ok (addr, t)
      → (t.events ≡ s.events) × ((b : BoxPtr) → t.boxes b ≡ update s.boxes s.next_box no_mail b)
  unfolding add_commit register user_post
  committed_heap p addr s t e = (ground arith, λ b. ground arith)

  add_commit-SameMaps :
      (p : Pending) (addr : Address) (s t : Context H)
      → add_commit p s ≡ ok (addr, t)
      → SameMaps (register p s) t
  unfolding add_commit
  add_commit-SameMaps p addr s t e =
      let (u, posted, last) =
        >>=-eq-ok (user_post (start_actor p.description.actor) (register p s))
          (λ s'. ok (p.description.address, s')) e in
      subst (SameMaps (register p s)) (ground arith)
        (user_post-SameMaps (start_actor p.description.actor) (register p s) u posted)

  commits-IsSafe :
      (before after : List Pending) (p : Pending) (addr : Address) (s t : Context H)
      → HasParent p s
      → add_commit p s ≡ ok (addr, t)
      → IsSafe (before ++ p ∷ after) s
      → IsSafe (before ++ after) t
  unfolding register
  commits-IsSafe before after p addr s t there e v =
      let (mine, rest) = All-take (λ q. IsParked q s) before after p v.parked in
      let (others, apart) = AreApart-take before after p v.apart in
      let same = add_commit-SameMaps p addr s t e in
      let (calls, heap) = committed_heap p addr s t e in
      record {
        sound = record {
          registry =
              SameMaps-IsRegistry same
                (register-IsRegistry p s v.sound.registry (IsParked-IsPending p s mine there));
          counted = rw (same.next_actor_id, calls) v.sound.counted;
          filled = λ b. rw (heap b) (ground (arith, v.sound.filled b));
          distinct = rw same.exchanges v.sound.distinct;
        };
        parked =
            All-both (λ (q : Pending). p.new_id ≢ q.new_id) (λ q. IsParked q s) (λ q. IsParked q t)
              (before ++ after)
              (λ q other w.
                IsParked-Lasts q (register p s) t
                  (Lasts-same same.next_actor_id same.actors same.id_by_name)
                  (register-IsParked p q s mine.no_actor other w))
              others rest;
        apart = apart;
      }

module _ {H : Type 0} (program : Program H) where
  commits-grows :
      (p : Pending) (addr : Address) (s t : Context H)
      → add_commit p s ≡ ok (addr, t)
      → HasRoom t
      → HasRoom s
  commits-grows p addr s t e room = rw (← (committed_heap p addr s t e).0) room

  -- In every run in which any number of threads are within `add_actor` at once, between its critical
  -- sections, while others do whole operations, and in which none commits whose parent is not
  -- registered any more: while ids last, the context is well formed, and every actor that waits to be
  -- registered has an id of its own, which no actor and no name has.
  pub ReachWithin-IsSafe :
      (ps : List Pending) (s : Context H) → ReachWithin program ps s → HasRoom s → IsSafe ps s
  ReachWithin-IsSafe ps s (begun self_id name root usr sys h) room = record {
    sound = start-IsSound program self_id name root usr sys s h room;
    parked = tt;
    apart = tt;
  }
  ReachWithin-IsSafe ps t (whole {s} r step) room =
      let h = Step-Evolves program s t step in
      whole-IsSafe ps s t h room (ReachWithin-IsSafe ps s r (omega (arith, room, h.grows)))
  ReachWithin-IsSafe ps t (begins n parent a {ps = qs} {p} {s} r e) room =
      begins-IsSafe program n parent a qs s t p e room
        (ReachWithin-IsSafe qs s r (omega (arith, room, (begun_heap program n parent a s t p e).0)))
  ReachWithin-IsSafe ps t (commits before after p addr {s} r there e) room =
      commits-IsSafe before after p addr s t there e
        (ReachWithin-IsSafe (before ++ p ∷ after) s r (commits-grows p addr s t e room))
