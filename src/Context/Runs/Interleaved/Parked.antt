-- ===== src/Context/Runs/Interleaved/Parked.antt =====
-- libyaaf/context.cpp: what threads between the two critical sections of `add_actor` rely on.
use yaaf.Common.{
  ◌<◌, ◌≡◌, ◌≢◌, ◌⊎◌, List, [], ◌∷◌, ◌++◌, Str, none, some, All, lookup, nat_eq, str_eq, arith, inl,
  inr, sym,
}
use yaaf.Address.{no_id}
use yaaf.Context.State.{Context}
use yaaf.Context.Add.{Pending, register}
use yaaf.Context.Registry.Adding.{IsPending}
use yaaf.Context.Sound.{Lasts}
use yaaf.Context.Sound.Adding.{register-others}
use yaaf.Context.Runs.Interleaved.{HasParent}

-- Every two of them have different ids.
abbrev pub AreApart : List Pending → Type 0
AreApart [] = Unit
AreApart (p ∷ ps) = All (λ (q : Pending). p.new_id ≢ q.new_id) ps × AreApart ps

pub All-take :
    (P : Pending → Type 0) (before after : List Pending) (p : Pending)
    → All P (before ++ p ∷ after)
    → P p × All P (before ++ after)
All-take P [] after p h = h
All-take P (q ∷ before) after p (one, h) =
    let (mine, rest) = All-take P before after p h in (mine, (one, rest))

pub AreApart-take :
    (before after : List Pending) (p : Pending)
    → AreApart (before ++ p ∷ after)
    → All (λ (q : Pending). p.new_id ≢ q.new_id) (before ++ after) × AreApart (before ++ after)
AreApart-take [] after p h = h
AreApart-take (q ∷ before) after p (one, h) =
    let (other, rest) = All-take (λ r. q.new_id ≢ r.new_id) before after p one in
    let (others, apart) = AreApart-take before after p h in
    (((λ e. other (sym e)), others), (rest, apart))

pub All-both :
    (P Q R : Pending → Type 0) (ps : List Pending)
    → ((p : Pending) → P p → Q p → R p)
    → All P ps
    → All Q ps
    → All R ps
All-both P Q R [] f a b = tt
All-both P Q R (p ∷ ps) f (x, a) (y, b) = (f p x y, All-both P Q R ps f a b)

module _ {H : Type 0} where
  -- An actor that waits to be registered: its id was given out, and is of no actor and under no name.
  pub record IsParked (p : Pending) (s : Context H) : Type 0 where
    pub issued : (0 < p.new_id) × (p.new_id < s.next_actor_id)
    pub no_actor : lookup p.new_id s.actors ≡ none
    pub no_name : (n : Str) → lookup n s.id_by_name ≢ some p.new_id
    pub address :
        (p.description.address.id ≡ p.new_id)
        × (p.description.address.pathname ≡ p.description.name)
    pub childless : p.description.children ≡ []
    pub below :
        ((p.parent_description ≡ none) × (p.description.parent ≡ no_id))
        ⊎ ((p.parent_description ≡ some p.description.parent) × (p.description.parent < p.new_id))

  pub IsPending-IsParked : (p : Pending) (s : Context H) → IsPending p s → IsParked p s
  IsPending-IsParked p s w = record {
    issued = w.issued;
    no_actor = w.no_actor;
    no_name = w.no_name;
    address = w.address;
    childless = w.childless;
    below = elim w.parented [
      | inl root ↦ inl root
      | inr (pd, parent, found, order) ↦ inr (parent, order)
    ];
  }

  pub IsParked-IsPending :
      (p : Pending) (s : Context H) → IsParked p s → HasParent p s → IsPending p s
  IsParked-IsPending p s w there = record {
    issued = w.issued;
    no_actor = w.no_actor;
    no_name = w.no_name;
    address = w.address;
    childless = w.childless;
    parented = ground (arith, w.below, there);
  }

  pub IsParked-Lasts : (p : Pending) (s t : Context H) → Lasts s t → IsParked p s → IsParked p t
  IsParked-Lasts p s t h w = record {
    issued = omega (arith, w.issued, h.next);
    no_actor = h.gone p.new_id w.issued.1 w.no_actor;
    no_name = h.unnamed p.new_id w.issued.1 w.no_name;
    address = w.address;
    childless = w.childless;
    below = w.below;
  }

  pub register-IsParked :
      (p q : Pending) (s : Context H)
      → lookup p.new_id s.actors ≡ none
      → p.new_id ≢ q.new_id
      → IsParked q s
      → IsParked q (register p s)
  unfolding register
  register-IsParked p q s free other w =
      let (gone, unnamed) = register-others p s q.new_id free other in
      record {
        issued = w.issued;
        no_actor = gone w.no_actor;
        no_name = unnamed w.no_name;
        address = w.address;
        childless = w.childless;
        below = w.below;
      }
