-- ===== src/Context/Registry/NewActor.antt =====
-- libyaaf/context.cpp: `add_actor` on a well-formed context.
use yaaf.Common.{
  ◌+◌, ◌<◌, ◌≡◌, subst, ◌⊎◌, inl, inr, true, if◌then◌else◌, none, some, [], nat_eq, str_eq, lookup,
  contains, arith, Option-cases, Bool-cases, Str,
}
use yaaf.Common.Outcomes.{ok, >>=-eq-ok}
use yaaf.Address.{IdT, Address, no_id, u64_mod, address_empty, id_inc}
use yaaf.Context.State.{Context, Description, ActorPtr, Program, start_actor}
use yaaf.Context.Add.{Pending, register, add_begin, add_commit, add_actor, user_post}
use yaaf.Context.Registry.Same.{SameMaps, SameMaps-IsRegistry, user_post-SameMaps}
use yaaf.Context.Registry.{IsRegistry}
use yaaf.Context.Registry.Adding.{IsPending}
use yaaf.Context.Registry.Registering.{register-IsRegistry}

module _ {H : Type 0} where
  -- What `add_begin` has found and made.
  pub record Begun (a : ActorPtr) (p : Pending) (s t : Context H) : Type 0 where
    pub new_id : p.new_id ≡ s.next_actor_id
    pub actor : p.description.actor ≡ a
    pub address :
        (p.description.address.id ≡ p.new_id)
        × (p.description.address.pathname ≡ p.description.name)
    pub childless : p.description.children ≡ []
    pub parented :
        ((p.parent_description ≡ none) × (p.description.parent ≡ no_id))
        ⊎ ((pd : Description) × (p.parent_description ≡ some p.description.parent)
            × (lookup p.description.parent s.actors ≡ some pd))
    pub next_actor_id : t.next_actor_id ≡ id_inc s.next_actor_id
    pub actors : t.actors ≡ s.actors
    pub mboxes : t.mboxes ≡ s.mboxes
    pub id_by_name : t.id_by_name ≡ s.id_by_name
    pub exchanges : t.exchanges ≡ s.exchanges
    pub next_box : t.next_box ≡ s.next_box
    pub posted : t.posted ≡ s.posted
    pub thread_manager : t.thread_manager ≡ s.thread_manager

  pub add_begin-Begun :
      (program : Program H) (n : Str) (parent : Address) (a : ActorPtr) (s : Context H)
      (p : Pending) (t : Context H)
      → add_begin program n parent a s ≡ ok (p, t)
      → Begun a p s t
  unfolding add_begin
  add_begin-Begun program n parent a s p t e = record {
    new_id = ground arith;
    actor = ground arith;
    address = ground arith;
    childless = ground arith;
    parented = elim (Bool-cases (address_empty cur)) [
      | inl root ↦ inl (ground arith)
      | inr below ↦ elim (Option-cases (lookup cur.id s.actors)) [
        | inl missing ↦ absurd (ground arith)
        | inr (pd, found) ↦ inr (pd, ground arith, ground arith)
      ]
    ];
    next_actor_id = ground arith;
    actors = ground arith;
    mboxes = ground arith;
    id_by_name = ground arith;
    exchanges = ground arith;
    next_box = ground arith;
    posted = ground arith;
    thread_manager = ground arith;
  }
    where
      cur : Address
      cur = if address_empty parent then s.usr_root else parent

  fresh : (s : Context H) → IsRegistry s → lookup s.next_actor_id s.actors ≡ none
  fresh s v = elim (Option-cases (lookup s.next_actor_id s.actors)) [
    | inl free ↦ free
    | inr (d, used) ↦ absurd (omega (arith, (v.ranked s.next_actor_id d used).0))
  ]

  pub Begun-IsPending :
      (a : ActorPtr) (p : Pending) (s t : Context H)
      → IsRegistry s
      → s.next_actor_id + 1 < u64_mod
      → Begun a p s t
      → IsPending p t
  unfolding id_inc
  Begun-IsPending a p s t v room b = record {
    issued = ground (arith, v.started, b.new_id, b.next_actor_id);
    no_actor = rw (b.new_id, b.actors) (fresh s v);
    no_name =
        λ n e. absurd (omega (arith, b.new_id, (v.named n p.new_id (rw b.id_by_name at e)).0));
    address = b.address;
    childless = b.childless;
    parented = elim b.parented [
      | inl root ↦ inl root
      | inr (pd, parent, found) ↦
          inr
            (pd, parent, rw b.actors found, rw b.new_id (v.ranked p.description.parent pd found).0)
    ];
  }

  pub Begun-IsRegistry :
      (a : ActorPtr) (p : Pending) (s t : Context H)
      → IsRegistry s
      → s.next_actor_id + 1 < u64_mod
      → Begun a p s t
      → IsRegistry t
  unfolding id_inc
  Begun-IsRegistry a p s t v room b = record {
    ranked = λ i d e. wider i d (rw b.actors at e);
    started = ground (arith, b.next_actor_id);
    positive = λ i d e. v.positive i d (rw b.actors at e);
    mailed = rw (b.actors, b.mboxes) v.mailed;
    housed = rw (b.actors, b.mboxes) v.housed;
    addressed = rw b.actors v.addressed;
    family = rw b.actors v.family;
    named = λ n i e.
        let (bound, right) = v.named n i (rw b.id_by_name at e) in
        (ground (arith, b.next_actor_id), λ d live. right d (rw b.actors at live));
    box_bound = rw (b.mboxes, b.next_box) v.box_bound;
    pub_bound = rw (b.exchanges, b.next_box) v.pub_bound;
    box_own = rw b.mboxes v.box_own;
    pub_own = rw b.exchanges v.pub_own;
    apart = rw (b.mboxes, b.exchanges) v.apart;
  }
    where
      wider :
          (i : IdT) (d : Description)
          → lookup i s.actors ≡ some d
          → (i < t.next_actor_id)
            × ((c : IdT) → contains c d.children ≡ true → (i < c) × (c < t.next_actor_id))
      wider i d e =
          let (bound, order) = v.ranked i d e in
          (
            ground (arith, b.next_actor_id),
            λ c child. let (above, below) = order c child in ground (arith, b.next_actor_id),
          )

  -- Between its critical sections `add_actor` leaves the context well formed, with an actor that is
  -- ready to be registered.
  pub add_begin-IsPending :
      (program : Program H) (n : Str) (parent : Address) (a : ActorPtr) (s t : Context H)
      (p : Pending)
      → IsRegistry s
      → s.next_actor_id + 1 < u64_mod
      → add_begin program n parent a s ≡ ok (p, t)
      → IsRegistry t × IsPending p t
  add_begin-IsPending program n parent a s t p v room e =
      let b = add_begin-Begun program n parent a s p t e in
      (Begun-IsRegistry a p s t v room b, Begun-IsPending a p s t v room b)

  -- An actor that is added: how the call went, step by step.
  abbrev pub Added : ActorPtr → Context H → Address → Context H → Type 0
  Added a s addr t =
      (p : Pending) × (mid : Context H) × Begun a p s mid
      × (addr ≡ p.description.address)
      × SameMaps (register p mid) t

  pub add_actor-Added :
      (program : Program H) (n : Str) (parent : Address) (a : ActorPtr) (s t : Context H)
      (addr : Address)
      → add_actor program n parent a s ≡ ok (addr, t)
      → Added a s addr t
  unfolding add_actor
  add_actor-Added program n parent a s t addr e =
      let ((p, mid), first, rest) =
        >>=-eq-ok (add_begin program n parent a s) (λ (p, s'). add_commit p s') e in
      let (u, posted, last) =
        >>=-eq-ok (user_post (start_actor p.description.actor) (register p mid))
          (λ s'. ok (p.description.address, s')) rest in
      (
        p,
        mid,
        add_begin-Begun program n parent a s p mid first,
        ground arith,
        subst (SameMaps (register p mid)) (ground arith)
            (user_post-SameMaps (start_actor p.description.actor) (register p mid) u posted),
      )

  -- `add_actor` that returns keeps a context well formed, while ids are left: ids grow from parent
  -- to child, exactly the registered actors have a mailbox, no two owners share one, names lead to
  -- their ids and every actor is among the children of its registered parent.
  pub add_actor-IsRegistry :
      (program : Program H) (n : Str) (parent : Address) (a : ActorPtr) (s t : Context H)
      (addr : Address)
      → IsRegistry s
      → s.next_actor_id + 1 < u64_mod
      → add_actor program n parent a s ≡ ok (addr, t)
      → IsRegistry t
  add_actor-IsRegistry program n parent a s t addr v room e =
      let (p, mid, b, _, same) = add_actor-Added program n parent a s t addr e in
      SameMaps-IsRegistry same (
        register-IsRegistry p mid (Begun-IsRegistry a p s mid v room b)
          (Begun-IsPending a p s mid v room b))
