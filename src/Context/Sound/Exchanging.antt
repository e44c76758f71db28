-- ===== src/Context/Sound/Exchanging.antt =====
-- libyaaf/context.cpp: exchanges that come, grow and go in any context.
use yaaf.Common.{
  IsDistinct, insert-IsDistinct, adjust-IsDistinct, ◌+◌, ◌≤◌, ◌<◌, ◌≡◌, ◌≢◌, ◌⊎◌, refl, sym, ap,
  ◌∙◌, some, [], length, nat_eq, str_eq, arith, Option-cases, Bool-cases, inl, inr, lookup, insert,
  adjust, lookup-insert, lookup-adjust, beq→eq, Str, is_some, ◌==◌, if◌then◌else◌,
}
use yaaf.Address.{IdT, Address}
use yaaf.Mailbox.{no_mail}
use yaaf.Context.State.{Context, ExchangeT, BoxPtr, update}
use yaaf.Context.Exchanges.{
  add_subscriber, create_exchange_unsafe, create_exchange, subscribe_to_exchange,
}
use yaaf.Context.Registry.{IsRegistry}
use yaaf.Context.Sound.{Lasts-same, Evolves, Evolves-refl, Evolves-trans}

module _ {H : Type 0} where
  -- An exchange of `t` was there with the same mailbox, or is new, under the one name, with a new one.
  abbrev pub Origin : Str → Context H → Context H → Str → ExchangeT → Type 0
  Origin name s t n x =
      ((y : ExchangeT) × (lookup n s.exchanges ≡ some y) × (x.pub_box ≡ y.pub_box))
      ⊎ ((name ≡ n) × (x.pub_box ≡ s.next_box) × (s.next_box < t.next_box))

  pub record Exchanged (name : Str) (s t : Context H) : Type 0 where
    pub next_actor_id : t.next_actor_id ≡ s.next_actor_id
    pub actors : t.actors ≡ s.actors
    pub id_by_name : t.id_by_name ≡ s.id_by_name
    pub mboxes : t.mboxes ≡ s.mboxes
    pub events : t.events ≡ s.events
    pub next_box : s.next_box ≤ t.next_box
    pub boxes : (b : BoxPtr) → (t.boxes b ≡ s.boxes b) ⊎ (t.boxes b ≡ no_mail)
    pub distinct : IsDistinct s.exchanges → IsDistinct t.exchanges
    pub origin : (n : Str) (x : ExchangeT) → lookup n t.exchanges ≡ some x → Origin name s t n x

  module _ {name : Str} {s t : Context H} (h : Exchanged name s t) (v : IsRegistry s) where
    new_pub_own :
        (m n : Str) (x y : ExchangeT)
        → x.pub_box ≡ y.pub_box
        → Origin name s t m x
        → Origin name s t n y
        → m ≡ n
    new_pub_own m n x y e (inl (x', p, i)) (inl (y', q, j)) =
        v.pub_own m n x' y' p q (sym i ∙ e ∙ j)
    new_pub_own m n x y e (inl (x', p, i)) (inr (_, j, _)) =
        absurd (omega (arith, v.pub_bound m x' p, i, j, e))
    new_pub_own m n x y e (inr (_, i, _)) (inl (y', q, j)) =
        absurd (omega (arith, v.pub_bound n y' q, i, j, e))
    new_pub_own m n x y e (inr (i, _, _)) (inr (j, _, _)) = sym i ∙ j

    new_pub_bound : (n : Str) (x : ExchangeT) → Origin name s t n x → x.pub_box < t.next_box
    new_pub_bound n x (inl (y, p, i)) = omega (arith, v.pub_bound n y p, i, h.next_box)
    new_pub_bound n x (inr (_, i, lt)) = omega (arith, i, lt)

    new_apart :
        (i : IdT) (b : BoxPtr) (n : Str) (x : ExchangeT)
        → lookup i s.mboxes ≡ some b
        → Origin name s t n x
        → b ≢ x.pub_box
    new_apart i b n x e (inl (y, p, same)) q = v.apart i b n y e p (q ∙ same)
    new_apart i b n x e (inr (_, same, _)) q = omega (arith, v.box_bound i b e, q, same)

    pub Exchanged-IsRegistry : IsRegistry t
    Exchanged-IsRegistry = record {
      ranked = rw (h.actors, h.next_actor_id) v.ranked;
      started = rw h.next_actor_id v.started;
      positive = rw h.actors v.positive;
      mailed = rw (h.actors, h.mboxes) v.mailed;
      housed = rw (h.actors, h.mboxes) v.housed;
      addressed = rw h.actors v.addressed;
      family = rw h.actors v.family;
      named = rw (h.id_by_name, h.next_actor_id, h.actors) v.named;
      box_bound = λ i b e. omega (arith, v.box_bound i b (rw h.mboxes at e), h.next_box);
      pub_bound = λ n x e. new_pub_bound n x (h.origin n x e);
      box_own = rw h.mboxes v.box_own;
      pub_own = λ m n x y p q e. new_pub_own m n x y e (h.origin m x p) (h.origin n y q);
      apart = λ i b n x e p. new_apart i b n x (rw h.mboxes at e) (h.origin n x p);
    }

  pub Exchanged-Evolves : {name : Str} {s t : Context H} → Exchanged name s t → Evolves s t
  Exchanged-Evolves h = record {
    grows = omega (arith, ap length h.events);
    sound = λ room v. record {
      registry = Exchanged-IsRegistry h v.registry;
      counted = omega (arith, h.next_actor_id, v.counted, ap length h.events);
      filled = λ b. ground (arith, h.boxes b, v.filled b);
      distinct = h.distinct v.distinct;
    };
    lasts = λ room v. Lasts-same h.next_actor_id h.actors h.id_by_name;
  }

  pub Exchanged-refl : (name : Str) (s : Context H) → Exchanged name s s
  Exchanged-refl name s = record {
    next_actor_id = refl;
    actors = refl;
    id_by_name = refl;
    mboxes = refl;
    events = refl;
    next_box = omega arith;
    boxes = λ b. inl refl;
    distinct = λ d. d;
    origin = λ n x e. inl (x, e, refl);
  }

  -- A new exchange of no subscribers.
  abbrev fresh : Address → Context H → ExchangeT
  fresh owner s = record { subscribes = []; owner = owner; pub_box = s.next_box }

  abbrev opened : Address → Str → Context H → Context H
  opened owner name s = record s {
    exchanges = insert name (fresh owner s) s.exchanges;
    boxes = update s.boxes s.next_box no_mail;
    next_box = s.next_box + 1;
  }

  opened-Origin :
      (owner : Address) (name : Str) (s : Context H) (n : Str) (x : ExchangeT)
      → lookup n (opened owner name s).exchanges ≡ some x
      → Origin name s (opened owner name s) n x
  opened-Origin owner name s n x e = elim (Bool-cases (name == n)) [
    | inl same ↦
        let is : fresh owner s ≡ x =
          ground (arith, lookup-insert name n (fresh owner s) s.exchanges) in
        inr (beq→eq name n same, ap (λ (y : ExchangeT). y.pub_box) (sym is), omega arith)
    | inr other ↦ inl (x, ground (arith, lookup-insert name n (fresh owner s) s.exchanges), refl)
  ]

  opened-Exchanged :
      (owner : Address) (name : Str) (s : Context H) → Exchanged name s (opened owner name s)
  opened-Exchanged owner name s = record {
    next_actor_id = refl;
    actors = refl;
    id_by_name = refl;
    mboxes = refl;
    events = refl;
    next_box = omega arith;
    boxes = λ b. ground arith;
    distinct = insert-IsDistinct name (fresh owner s) s.exchanges;
    origin = opened-Origin owner name s;
  }

  create_exchange_unsafe-Exchanged :
      (owner : Address) (name : Str) (s : Context H)
      → Exchanged name s (create_exchange_unsafe owner name s)
  unfolding create_exchange_unsafe
  create_exchange_unsafe-Exchanged owner name s =
      elim (Bool-cases (is_some (lookup name s.exchanges))) [
        | inl there ↦ rw there (Exchanged-refl name s)
        | inr missing ↦ rw missing (opened-Exchanged owner name s)
      ]

  pub create_exchange-Evolves :
      (owner : Address) (name : Str) (s : Context H) → Evolves s (create_exchange owner name s)
  unfolding create_exchange
  create_exchange-Evolves owner name s =
      Exchanged-Evolves (create_exchange_unsafe-Exchanged owner name s)

  abbrev joined : Str → IdT → Context H → Context H
  joined name i s = record s { exchanges = adjust name (add_subscriber i) s.exchanges }

  joined-Origin :
      (name : Str) (i : IdT) (s : Context H) (n : Str) (x : ExchangeT)
      → lookup n (joined name i s).exchanges ≡ some x
      → Origin name s (joined name i s) n x
  joined-Origin name i s n x e = elim (Option-cases (lookup n s.exchanges)) [
    | inl missing ↦ absurd (ground (arith, lookup-adjust name n (add_subscriber i) s.exchanges))
    | inr (y, there) ↦
        inl (y, there, ground (arith, lookup-adjust name n (add_subscriber i) s.exchanges))
  ]

  joined-Exchanged : (name : Str) (i : IdT) (s : Context H) → Exchanged name s (joined name i s)
  joined-Exchanged name i s = record {
    next_actor_id = refl;
    actors = refl;
    id_by_name = refl;
    mboxes = refl;
    events = refl;
    next_box = omega arith;
    boxes = λ b. inl refl;
    distinct = adjust-IsDistinct name (add_subscriber i) s.exchanges;
    origin = joined-Origin name i s;
  }

  abbrev subscribed : Address → Str → Context H → Context H
  subscribed target name s =
      if is_some (lookup target.id s.actors) then joined name target.id s else s

  subscribed-Evolves :
      (target : Address) (name : Str) (s : Context H) → Evolves s (subscribed target name s)
  subscribed-Evolves target name s = elim (Bool-cases (is_some (lookup target.id s.actors))) [
    | inl live ↦ rw live (Exchanged-Evolves (joined-Exchanged name target.id s))
    | inr gone ↦ rw gone (Evolves-refl s)
  ]

  pub subscribe_to_exchange-Evolves :
      (target : Address) (name : Str) (s : Context H)
      → Evolves s (subscribe_to_exchange target name s)
  unfolding subscribe_to_exchange
  subscribe_to_exchange-Evolves target name s =
      elim (Bool-cases (is_some (lookup name s.exchanges))) [
        | inl there ↦ rw there (subscribed-Evolves target name s)
        | inr missing ↦ rw missing (
            Evolves-trans (Exchanged-Evolves (opened-Exchanged target name s))
              (subscribed-Evolves target name (opened target name s)))
      ]
