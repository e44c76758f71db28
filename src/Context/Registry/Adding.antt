-- ===== src/Context/Registry/Adding.antt =====
-- libyaaf/context.cpp: the second critical section of `add_actor` on a well-formed context.
use yaaf.Common.{
  ◌<◌, ◌≡◌, ◌≢◌, refl, ◌⊎◌, ◌↔◌, inl, inr, true, ◌||◌, if◌then◌else◌, Option, none, some, List, [],
  ◌==◌, nat_eq, str_eq, nat_beq_iff, lookup, contains, lookup-insert, lookup-adjust, arith,
  Option-cases, Bool-cases, Str, beq_refl, or_true,
}
use yaaf.Address.{IdT, no_id}
use yaaf.Context.State.{Context, Description}
use yaaf.Context.Add.{Pending, insert_child, adopt, register}

pub contains-insert_child :
    (n c : IdT) (d : Description)
    → contains c (insert_child n d).children ≡ (n == c || contains c d.children)
unfolding contains insert_child
contains-insert_child n c d = ground (arith, nat_beq_iff n c)

-- An entry after the parent's children have grown.
abbrev pub Grown : Option IdT → IdT → IdT → List (IdT × Description) → Description → Type 0
Grown q c j m d =
    (o : Description) × (lookup j m ≡ some o) × ((d ≡ o) ⊎ ((q ≡ some j) × (d ≡ insert_child c o)))

adopt-Grown :
    (q : Option IdT) (c j : IdT) (m : List (IdT × Description)) (d : Description)
    → lookup j (adopt q c m) ≡ some d
    → Grown q c j m d
unfolding adopt
adopt-Grown none c j m d e = (d, e, inl refl)
adopt-Grown (some q) c j m d e = elim (Option-cases (lookup j m)) [
  | inl missing ↦ absurd (ground (arith, lookup-adjust q j (insert_child c) m))
  | inr (o, there) ↦
      (o, there, ground (arith, nat_beq_iff q j, lookup-adjust q j (insert_child c) m))
]

-- An entry of before is there, and has its children still.
adopt-keeps :
    (q : Option IdT) (c j : IdT) (m : List (IdT × Description)) (o : Description)
    → lookup j m ≡ some o
    → (d : Description) × (lookup j (adopt q c m) ≡ some d)
      × ((b : IdT) → contains b o.children ≡ true → contains b d.children ≡ true)
      × (q ≡ some j → contains c d.children ≡ true)
unfolding adopt
adopt-keeps none c j m o there = (o, there, λ b h. h, λ e. absurd (ground arith))
adopt-keeps (some q) c j m o there = elim (Bool-cases (q == j)) [
  | inl same ↦ (
    insert_child c o,
    rw (lookup-adjust q j (insert_child c) m, same, there),
    λ b h. rw (contains-insert_child c b o, h) (or_true (c == b)),
    λ e. rw (contains-insert_child c c o, beq_refl c),
  )
  | inr other ↦ (
    o,
    rw (lookup-adjust q j (insert_child c) m, other) there,
    λ b h. h,
    λ e. absurd (ground (arith, nat_beq_iff q j)),
  )
]

pub insert_child-same :
    (c : IdT) (o : Description)
    → ((insert_child c o).parent ≡ o.parent)
      × ((insert_child c o).address ≡ o.address)
      × ((insert_child c o).name ≡ o.name)
      × ((insert_child c o).actor ≡ o.actor)
unfolding insert_child
insert_child-same c o = ground arith

adopt-none :
    (q : Option IdT) (c j : IdT) (m : List (IdT × Description))
    → lookup j m ≡ none
    → lookup j (adopt q c m) ≡ none
unfolding adopt
adopt-none none c j m e = e
adopt-none (some q) c j m e = ground (arith, lookup-adjust q j (insert_child c) m)

module _ {H : Type 0} where
  -- What holds of a `Pending` until it is registered: its id was given out and is in no map, and its
  -- parent is there.
  pub record IsPending (p : Pending) (s : Context H) : Type 0 where
    pub issued : (0 < p.new_id) × (p.new_id < s.next_actor_id)
    pub no_actor : lookup p.new_id s.actors ≡ none
    pub no_name : (n : Str) → lookup n s.id_by_name ≢ some p.new_id
    pub address :
        (p.description.address.id ≡ p.new_id)
        × (p.description.address.pathname ≡ p.description.name)
    pub childless : p.description.children ≡ []
    pub parented :
        ((p.parent_description ≡ none) × (p.description.parent ≡ no_id))
        ⊎ ((pd : Description) × (p.parent_description ≡ some p.description.parent)
            × (lookup p.description.parent s.actors ≡ some pd)
            × (p.description.parent < p.new_id))

  -- Who is registered afterwards: the new actor, or an actor of before, whose children have grown by
  -- the new one if it is the parent.
  abbrev pub Registered : Pending → Context H → IdT → Description → Type 0
  Registered p s j d =
      ((p.new_id ≡ j) × (d ≡ p.description))
      ⊎ ((p.new_id ≢ j) × Grown p.parent_description p.new_id j s.actors d)

  pub register-Registered :
      (p : Pending) (s : Context H) (j : IdT) (d : Description)
      → lookup j (register p s).actors ≡ some d
      → Registered p s j d
  unfolding register
  register-Registered p s j d e =
      let m = adopt p.parent_description p.new_id s.actors in
      elim (Bool-cases (p.new_id == j)) [
        | inl same ↦
            inl (ground (arith, nat_beq_iff p.new_id j, lookup-insert p.new_id j p.description m))
        | inr other ↦ inr (
          (λ q. ground (arith, nat_beq_iff p.new_id j)),
          adopt-Grown p.parent_description p.new_id j s.actors d
              (rw (lookup-insert p.new_id j p.description m, other) at e),
        )
      ]

  -- Who was registered stays so, with his children.
  pub register-keeps :
      (p : Pending) (s : Context H) (j : IdT) (o : Description)
      → lookup p.new_id s.actors ≡ none
      → lookup j s.actors ≡ some o
      → (d : Description) × (lookup j (register p s).actors ≡ some d)
        × ((b : IdT) → contains b o.children ≡ true → contains b d.children ≡ true)
        × (p.parent_description ≡ some j → contains p.new_id d.children ≡ true)
  unfolding register
  register-keeps p s j o fresh there =
      let m = adopt p.parent_description p.new_id s.actors in
      let (d, found, old, new) = adopt-keeps p.parent_description p.new_id j s.actors o there in
      (
        d,
        ground (arith, nat_beq_iff p.new_id j, lookup-insert p.new_id j p.description m),
        old,
        new,
      )

  -- An id is free afterwards exactly if it was, and is not the new one.
  pub register-free :
      (p : Pending) (s : Context H) (j : IdT)
      → lookup p.new_id s.actors ≡ none
      → (lookup j (register p s).actors ≡ none) ↔ ((p.new_id ≢ j) × (lookup j s.actors ≡ none))
  unfolding register
  register-free p s j fresh = (
    λ e. (new_used e, was_free e),
    λ (ne, e). ground (
      arith,
      nat_beq_iff p.new_id j,
      lookup-insert p.new_id j p.description m,
      adopt-none p.parent_description p.new_id j s.actors,
    ),
  )
    where
      m : List (IdT × Description)
      m = adopt p.parent_description p.new_id s.actors

      new_used : lookup j (register p s).actors ≡ none → p.new_id ≢ j
      new_used e q =
          ground (arith, nat_beq_iff p.new_id j, lookup-insert p.new_id j p.description m)

      was_free : lookup j (register p s).actors ≡ none → lookup j s.actors ≡ none
      was_free e = elim (Option-cases (lookup j s.actors)) [
        | inl free ↦ free
        | inr (o, there) ↦
            let (d, found, _, _) = adopt-keeps p.parent_description p.new_id j s.actors o there in
            absurd
              (ground (arith, nat_beq_iff p.new_id j, lookup-insert p.new_id j p.description m))
      ]

  pub register-names :
      (p : Pending) (s : Context H) (n : Str)
      → lookup n (register p s).id_by_name
        ≡ (if p.description.name == n then some p.new_id else lookup n s.id_by_name)
  unfolding register
  register-names p s n = lookup-insert p.description.name n p.new_id s.id_by_name

  pub register-boxes :
      (p : Pending) (s : Context H) (j : IdT)
      → lookup j (register p s).mboxes
        ≡ (if p.new_id == j then some s.next_box else lookup j s.mboxes)
  unfolding register
  register-boxes p s j = lookup-insert p.new_id j s.next_box s.mboxes

  pub register-new :
      (p : Pending) (s : Context H) → lookup p.new_id (register p s).actors ≡ some p.description
  unfolding register
  register-new p s =
      let m = adopt p.parent_description p.new_id s.actors in
      rw (lookup-insert p.new_id p.new_id p.description m, beq_refl p.new_id)
