-- ===== src/Context/Stop/Effect.antt =====
-- libyaaf/context.cpp: which actors `stop_actor_impl` removes.
use yaaf.Common.{
  ℕ, zero, suc, ◌≡◌, refl, subst, inl, inr, true, false, ◌||◌, if◌then◌else◌, none, some, ◌==◌,
  nat_eq, nat_beq_iff, lookup, contains, arith, List, [], ◌∷◌, Bool-cases, Option-cases, beq→eq,
  beq_refl,
}
use yaaf.Common.Outcomes.{Outcome, ok, >>=-eq-ok, ok-injective}
use yaaf.Address.{IdT, Address, address_of_id}
use yaaf.Actor.{ActorStoppingReason}
use yaaf.Context.State.{Context, Description, Program}
use yaaf.Context.Stop.{for_each, finish_stop, stop_actor_impl}
use yaaf.Context.Stop.Frame.{
  Shrinks, Shrinks-refl, Shrinks-trans, Shrinks-some, Shrinks-none, IsClosed, IsClosed-trans,
  lookup-finish_stop, finish_stop-Shrinks,
}

module _ {H : Type 0} where
  -- `j` is `i`, or a descendant of `i` through descriptions that are registered.
  pub data Under (s : Context H) : IdT → IdT → Type 0 where
    here : {i j : IdT} → i ≡ j → Under s i j
    below :
        {i j : IdT} (c : IdT) (d : Description)
        → lookup i s.actors ≡ some d
        → contains c d.children ≡ true
        → Under s c j
        → Under s i j

  Under-Shrinks : {s t : Context H} {i j : IdT} → Shrinks s t → Under t i j → Under s i j
  Under-Shrinks h (here p) = here p
  Under-Shrinks h (below {i} c d live child u) =
      below c d (Shrinks-some h i d live) child (Under-Shrinks h u)

  -- The effect of stopping `i`, and of stopping all of `cs`.
  pub record StopEffect (s : Context H) (i : IdT) (t : Context H) : Type 0 where
    pub shrinks : Shrinks s t
    pub closed : IsClosed s t
    pub gone : lookup i t.actors ≡ none
    pub under :
        (j : IdT) (d : Description)
        → lookup j s.actors ≡ some d
        → lookup j t.actors ≡ none
        → Under s i j

  record EachEffect (s : Context H) (cs : List IdT) (t : Context H) : Type 0 where
    shrinks : Shrinks s t
    closed : IsClosed s t
    gone : (c : IdT) → contains c cs ≡ true → lookup c t.actors ≡ none
    under :
        (j : IdT) (d : Description)
        → lookup j s.actors ≡ some d
        → lookup j t.actors ≡ none
        → (c : IdT) × (contains c cs ≡ true) × Under s c j

  IsClosed-refl : (s : Context H) → IsClosed s s
  IsClosed-refl s j c d live gone child = absurd (ground arith)

  absent-StopEffect : (i : IdT) (s : Context H) → lookup i s.actors ≡ none → StopEffect s i s
  absent-StopEffect i s missing = record {
    shrinks = Shrinks-refl s;
    closed = IsClosed-refl s;
    gone = missing;
    under = λ j d live gone. absurd (ground arith);
  }

  EachEffect-nil : (s : Context H) → EachEffect s [] s
  unfolding contains
  EachEffect-nil s = record {
    shrinks = Shrinks-refl s;
    closed = IsClosed-refl s;
    gone = λ c m. absurd (ground arith);
    under = λ j d live gone. absurd (ground arith);
  }

  EachEffect-cons :
      (s t u : Context H) (c : IdT) (cs : List IdT)
      → StopEffect s c t
      → EachEffect t cs u
      → EachEffect s (c ∷ cs) u
  unfolding contains
  EachEffect-cons s t u c cs h k = record {
    shrinks = Shrinks-trans h.shrinks k.shrinks;
    closed = IsClosed-trans h.shrinks k.shrinks h.closed k.closed;
    gone = λ b m. elim (Bool-cases (c == b)) [
      | inl e ↦
          Shrinks-none k.shrinks b (subst (λ x. lookup x t.actors ≡ none) (beq→eq c b e) h.gone)
      | inr n ↦ k.gone b (rw n at m)
    ];
    under = λ j d live gone. elim (Option-cases (lookup j t.actors)) [
      | inl early ↦ (c, rw (beq_refl c), h.under j d live early)
      | inr (d', late) ↦
          let (b, m, u) = k.under j d' late gone in
          (
            b,
            elim (c == b) as (λ x. x || contains b cs ≡ true) [ true ↦ refl | false ↦ m ],
            Under-Shrinks h.shrinks u,
          )
    ];
  }

  for_each-EachEffect :
      (f : IdT → Context H → Outcome (Context H))
      → ((c : IdT) (s t : Context H) → f c s ≡ ok t → StopEffect s c t)
      → (cs : List IdT) (s t : Context H) → for_each f cs s ≡ ok t
      → EachEffect s cs t
  unfolding for_each
  for_each-EachEffect f each [] s t e = subst (EachEffect s []) (ok-injective e) (EachEffect-nil s)
  for_each-EachEffect f each (c ∷ cs) s t e =
      let (u, first, rest) = >>=-eq-ok (f c s) (λ x. for_each f cs x) e in
      EachEffect-cons s u t c cs (each c s u first) (for_each-EachEffect f each cs u t rest)

module _ {H : Type 0} (program : Program H) (reason : ActorStoppingReason) where
  finish-StopEffect :
      (addr : Address) (d : Description) (s t : Context H)
      → lookup addr.id s.actors ≡ some d
      → EachEffect s d.children t
      → StopEffect s addr.id (finish_stop program addr reason d t)
  finish-StopEffect addr d s t live h = record {
    shrinks = Shrinks-trans h.shrinks last;
    closed = λ j c dj was gone child. Shrinks-none last c (children_gone j c dj was gone child);
    gone = rw (at addr.id).0 (rw (beq_refl addr.id));
    under = λ j dj was gone. elim (Bool-cases (addr.id == j)) [
      | inl e ↦ here (beq→eq addr.id j e)
      | inr n ↦ let (c, m, u) = h.under j dj was (rw ((at j).0, n) at gone) in below c d live m u
    ];
  }
    where
      last : Shrinks t (finish_stop program addr reason d t)
      last = finish_stop-Shrinks program addr reason d t

      at :
          (j : IdT)
          → let u = finish_stop program addr reason d t in
            (lookup j u.actors ≡ (if addr.id == j then none else lookup j t.actors))
            × (lookup j u.mboxes ≡ (if addr.id == j then none else lookup j t.mboxes))
      at = lookup-finish_stop program addr reason d t

      children_gone :
          (j c : IdT) (dj : Description)
          → lookup j s.actors ≡ some dj
          → lookup j (finish_stop program addr reason d t).actors ≡ none
          → contains c dj.children ≡ true
          → lookup c t.actors ≡ none
      children_gone j c dj was gone child = elim (Bool-cases (addr.id == j)) [
        | inl e ↦ h.gone c (ground (arith, nat_beq_iff addr.id j))
        | inr n ↦ h.closed j c dj was (rw ((at j).0, n) at gone) child
      ]

  -- Whenever `stop_actor_impl` ends, on any context, it has removed the actor, only actors at or
  -- under it, and with each actor its children.
  pub stop_actor_impl-StopEffect :
      (fuel : ℕ) (addr : Address) (s t : Context H)
      → stop_actor_impl program fuel addr reason s ≡ ok t
      → StopEffect s addr.id t
  unfolding stop_actor_impl
  stop_actor_impl-StopEffect zero addr s t e = absurd (ground arith)
  stop_actor_impl-StopEffect (suc fuel) addr s t e = elim (Option-cases (lookup addr.id s.actors)) [
    | inl missing ↦
        subst (StopEffect s addr.id) (ok-injective (rw (missing, stop_actor_impl) at e))
          (absent-StopEffect addr.id s missing)
    | inr (d, live) ↦
        let each = λ (c : IdT). stop_actor_impl program fuel (address_of_id c) reason in
        let finish = λ (u : Context H). ok (finish_stop program addr reason d u) in
        let (u, first, last) =
          >>=-eq-ok (for_each each d.children s) finish (rw (live, stop_actor_impl) at e) in
        subst (StopEffect s addr.id) (ok-injective last) (
          finish-StopEffect addr d s u live (
            for_each-EachEffect each (λ c. stop_actor_impl-StopEffect fuel (address_of_id c))
              d.children s u first))
  ]
