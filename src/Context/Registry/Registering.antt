-- ===== src/Context/Registry/Registering.antt =====
-- libyaaf/context.cpp: the second critical section of `add_actor` keeps a context well formed.
use yaaf.Common.{
  ◌<◌, ◌≡◌, ◌∙◌, ap, ◌⊎◌, inl, inr, true, none, some, List, [], ◌==◌, nat_eq, str_eq, nat_beq_iff,
  lookup, contains, arith, Bool-cases, Str, beq→eq,
}
use yaaf.Address.{IdT, no_id}
use yaaf.Context.State.{Context, Description}
use yaaf.Context.Add.{Pending, insert_child, register}
use yaaf.Context.Registry.{IsRegistry, HasFamily}
use yaaf.Context.Registry.Adding.{
  IsPending, Registered, register-Registered, register-keeps, register-free, register-names,
  register-boxes, insert_child-same, contains-insert_child,
}

contains_nil : (c : IdT) (l : List IdT) → l ≡ [] → contains c l ≡ true → ⊥
unfolding contains
contains_nil c l e h = ground arith

module _ {H : Type 0} (p : Pending) (s : Context H) (v : IsRegistry s) (w : IsPending p s) where
  grown_child :
      (i c : IdT) (o : Description)
      → lookup i s.actors ≡ some o
      → p.parent_description ≡ some i
      → contains c (insert_child p.new_id o).children ≡ true
      → (i < c) × (c < s.next_actor_id)
  grown_child i c o there parent child = elim (Bool-cases (p.new_id == c)) [
    | inl same ↦ ground (arith, w.parented, w.issued, nat_beq_iff p.new_id c)
    | inr other ↦ (v.ranked i o there).1 c (rw (contains-insert_child p.new_id c o, other) at child)
  ]

  new_ranked :
      (i : IdT) (d : Description)
      → Registered p s i d
      → (i < s.next_actor_id)
        × ((c : IdT) → contains c d.children ≡ true → (i < c) × (c < s.next_actor_id))
  new_ranked i d (inl (same, is)) = (
    rw (← same) w.issued.1,
    λ c child. absurd (contains_nil c p.description.children w.childless (rw is at child)),
  )
  new_ranked i d (inr (other, (o, there, inl is))) = rw is (v.ranked i o there)
  new_ranked i d (inr (other, (o, there, inr (parent, is)))) =
      ((v.ranked i o there).0, λ c child. grown_child i c o there parent (rw is at child))

  new_positive : (i : IdT) (d : Description) → Registered p s i d → 0 < i
  new_positive i d (inl (same, is)) = rw (← same) w.issued.0
  new_positive i d (inr (other, (o, there, _))) = v.positive i o there

  new_addressed :
      (i : IdT) (d : Description)
      → Registered p s i d
      → (d.address.id ≡ i) × (d.address.pathname ≡ d.name)
  new_addressed i d (inl (same, is)) = rw (is, ← same) w.address
  new_addressed i d (inr (other, (o, there, inl is))) = rw is (v.addressed i o there)
  new_addressed i d (inr (other, (o, there, inr (_, is)))) =
      ground (arith, insert_child-same p.new_id o, v.addressed i o there)

  old_family :
      (i : IdT) (d o : Description)
      → d.parent ≡ o.parent
      → HasFamily s i o
      → HasFamily (register p s) i d
  old_family i d o same (inl root) = inl (same ∙ root)
  old_family i d o same (inr (q, was, child)) =
      let (r, found, old, _) = register-keeps p s o.parent q w.no_actor was in
      inr (r, rw same found, old i child)

  new_family : (i : IdT) (d : Description) → Registered p s i d → HasFamily (register p s) i d
  new_family i d (inl (same, is)) = rw (is, ← same) (own w.parented)
    where
      own :
          ((p.parent_description ≡ none) × (p.description.parent ≡ no_id))
            ⊎ ((pd : Description) × (p.parent_description ≡ some p.description.parent)
                × (lookup p.description.parent s.actors ≡ some pd)
                × (p.description.parent < p.new_id))
          → HasFamily (register p s) p.new_id p.description
      own (inl (_, root)) = inl root
      own (inr (pd, parent, was, _)) =
          let (r, found, _, new) = register-keeps p s p.description.parent pd w.no_actor was in
          inr (r, found, new parent)
  new_family i d (inr (other, (o, there, inl is))) =
      old_family i d o (ap (λ (x : Description). x.parent) is) (v.family i o there)
  new_family i d (inr (other, (o, there, inr (_, is)))) =
      old_family i d o (ground (arith, insert_child-same p.new_id o)) (v.family i o there)

  new_named :
      (n : Str) (i : IdT)
      → lookup n (register p s).id_by_name ≡ some i
      → (i < s.next_actor_id) × ((d : Description) → Registered p s i d → d.name ≡ n)
  new_named n i e = elim (Bool-cases (p.description.name == n)) [
    | inl same ↦ mine same (rw (register-names p s n, same) at e)
    | inr other ↦ theirs (rw (register-names p s n, other) at e)
  ]
    where
      mine :
          (p.description.name == n) ≡ true
          → some p.new_id ≡ some i
          → (i < s.next_actor_id) × ((d : Description) → Registered p s i d → d.name ≡ n)
      mine same q = (ground (arith, w.issued), name)
        where
          name : (d : Description) → Registered p s i d → d.name ≡ n
          name d (inl (_, is)) = rw is (beq→eq p.description.name n same)
          name d (inr (other, _)) = absurd (other (ground arith))

      theirs :
          lookup n s.id_by_name ≡ some i
          → (i < s.next_actor_id) × ((d : Description) → Registered p s i d → d.name ≡ n)
      theirs q = ((v.named n i q).0, name)
        where
          name : (d : Description) → Registered p s i d → d.name ≡ n
          name d (inl (same, _)) = absurd (w.no_name n (rw same q))
          name d (inr (_, (o, there, inl is))) = rw is ((v.named n i q).1 o there)
          name d (inr (_, (o, there, inr (_, is)))) =
              ground (arith, insert_child-same p.new_id o, (v.named n i q).1 o there)

  -- Registering an actor keeps a context well formed.
  pub register-IsRegistry : IsRegistry (register p s)
  unfolding register
  register-IsRegistry = record {
    ranked = λ i d e. new_ranked i d (register-Registered p s i d e);
    started = v.started;
    positive = λ i d e. new_positive i d (register-Registered p s i d e);
    mailed = λ i e. ground (
      arith,
      register-free p s i w.no_actor,
      register-boxes p s i,
      v.mailed i,
      nat_beq_iff p.new_id i,
    );
    housed = λ i e. ground (
      arith,
      register-free p s i w.no_actor,
      register-boxes p s i,
      v.housed i,
      nat_beq_iff p.new_id i,
    );
    addressed = λ i d e. new_addressed i d (register-Registered p s i d e);
    family = λ i d e. new_family i d (register-Registered p s i d e);
    named = λ n i e.
        let (bound, right) = new_named n i e in
        (bound, λ d live. right d (register-Registered p s i d live));
    box_bound = λ i b e. ground (arith, register-boxes p s i, v.box_bound i b);
    pub_bound = λ n x e. omega (arith, v.pub_bound n x e);
    box_own = λ i j b e f. ground (
      arith,
      register-boxes p s i,
      register-boxes p s j,
      v.box_bound i b,
      v.box_bound j b,
      v.box_own i j b,
      nat_beq_iff p.new_id i,
      nat_beq_iff p.new_id j,
    );
    pub_own = v.pub_own;
    apart = λ i b n x e f. ground (arith, register-boxes p s i, v.pub_bound n x f, v.apart i b n x);
  }
