-- ===== src/Context/Sound/Working.antt =====
-- libyaaf/context.cpp: `mailbox_worker` in any context.
use yaaf.Common.{
  IsDistinct, erase-IsDistinct, ◌≡◌, refl, subst, Bool, true, false, ◌&&◌, none, some, List, [],
  ◌∷◌, Str, arith, inl, All, lookup, erase, lookup-erase, nat_eq, str_eq, nat_beq_iff,
  if◌then◌else◌, ◌⊎◌,
}
use yaaf.Common.Outcomes.{ok, >>=-eq-ok, ok-injective}
use yaaf.Address.{IdT}
use yaaf.Context.State.{Context, BoxPtr, ExchangeT}
use yaaf.Context.Worker.{
  LockAnswers, Others, erase_names, erase_ids, relay, scan, deserted, sweep, clean, scan_and_sweep,
  mailbox_worker,
}
use yaaf.Context.Stop.Frame.{Shrinks}
use yaaf.Context.Registry.Stopping.{Shrinks-IsRegistry}
use yaaf.Context.Sound.{Lasts-same, Evolves, Evolves-refl, Evolves-trans}
use yaaf.Context.Sound.Exchanging.{Exchanged-Evolves}
use yaaf.Context.Sound.Relaying.{relay-Evolves}
use yaaf.Context.Sound.Scanning.{IsTaking, Unregistered, scan-Looked}

erase_names-some :
    (ns : List Str) (m : List (Str × ExchangeT)) (n : Str) (x : ExchangeT)
    → lookup n (erase_names ns m) ≡ some x
    → lookup n m ≡ some x
unfolding erase_names
erase_names-some [] m n x h = h
erase_names-some (k ∷ ns) m n x h =
    ground (arith, erase_names-some ns (erase k m) n x h, lookup-erase k n m)

erase_names-IsDistinct :
    (ns : List Str) (m : List (Str × ExchangeT)) → IsDistinct m → IsDistinct (erase_names ns m)
unfolding erase_names
erase_names-IsDistinct [] m h = h
erase_names-IsDistinct (k ∷ ns) m h = erase_names-IsDistinct ns (erase k m) (erase-IsDistinct k m h)

module _ {H : Type 0} where
  sweep-Evolves : (s : Context H) → Evolves s (sweep s)
  unfolding sweep
  sweep-Evolves s = Exchanged-Evolves {name = []} (record {
    next_actor_id = refl;
    actors = refl;
    id_by_name = refl;
    mboxes = refl;
    events = refl;
    next_box = omega arith;
    boxes = λ b. inl refl;
    distinct = erase_names-IsDistinct (deserted s s.exchanges) s.exchanges;
    origin = λ n x e. inl (x, erase_names-some (deserted s s.exchanges) s.exchanges n x e, refl);
  })

  erase_ids-keeps :
      (s : Context H) (ids : List IdT) (m : List (IdT × BoxPtr)) (j : IdT)
      → All (λ i. lookup i s.actors ≡ none) ids
      → (lookup j (erase_ids ids m) ≡ lookup j m)
        ⊎ ((lookup j s.actors ≡ none) × (lookup j (erase_ids ids m) ≡ none))
  unfolding erase_ids
  erase_ids-keeps s [] m j gone = inl refl
  erase_ids-keeps s (i ∷ ids) m j (one, gone) =
      ground
        (arith, erase_ids-keeps s ids (erase i m) j gone, lookup-erase i j m, nat_beq_iff i j, one)

  clean-Shrinks :
      (s : Context H) (ids : List IdT)
      → All (λ i. lookup i s.actors ≡ none) ids
      → Shrinks s (clean ids s)
  unfolding clean
  clean-Shrinks s ids gone = record {
    keeps = λ j. ground (arith, erase_ids-keeps s ids s.mboxes j gone);
    next_actor_id = refl;
    id_by_name = refl;
    exchanges = refl;
    boxes = refl;
    next_box = refl;
    posted = refl;
    thread_manager = refl;
  }

  clean-Evolves :
      (s : Context H) (ids : List IdT)
      → All (λ i. lookup i s.actors ≡ none) ids
      → Evolves s (clean ids s)
  unfolding clean
  clean-Evolves s ids gone =
      let h = clean-Shrinks s ids gone in
      record {
        grows = omega arith;
        sound = λ room v. record {
          registry =
              Shrinks-IsRegistry h (λ j c d live dead child. absurd (ground arith)) v.registry;
          counted = v.counted;
          filled = v.filled;
          distinct = v.distinct;
        };
        lasts = λ room v. Lasts-same refl refl refl;
      }

  swept-Evolves : (b : Bool) (s : Context H) → Evolves s (if b then sweep s else s)
  swept-Evolves false s = Evolves-refl s
  swept-Evolves true s = sweep-Evolves s

  swept-Unregistered :
      (b : Bool) (s : Context H) (ids : List IdT)
      → Unregistered s ids
      → Unregistered (if b then sweep s else s) ids
  unfolding sweep
  swept-Unregistered false s ids gone = gone
  swept-Unregistered true s ids gone = gone

  cleaned-Evolves :
      (b : Bool) (s : Context H) (ids : List IdT)
      → Unregistered s ids
      → Evolves s (if b then clean ids s else s)
  cleaned-Evolves false s ids gone = Evolves-refl s
  cleaned-Evolves true s ids gone = clean-Evolves s ids gone

  scan_and_sweep-Evolves :
      (l : LockAnswers) (others : Others H) (s t : Context H)
      → IsTaking others
      → scan_and_sweep l others s ≡ ok t
      → Evolves s t
  unfolding scan_and_sweep
  scan_and_sweep-Evolves l others s t taking h =
      let ((u, ids), scanned, last) = >>=-eq-ok (scan others s.mboxes (s, [])) _ h in
      let (looked, gone) = scan-Looked others taking s.mboxes s [] (u, ids) scanned tt in
      let v = if l.exchange then sweep u else u in
      subst (Evolves s) (ok-injective last) (
        Evolves-trans looked.evolves (
          Evolves-trans (swept-Evolves l.exchange u)
            (cleaned-Evolves l.registry_again v ids (swept-Unregistered l.exchange u ids gone))))

  relayed_if-Evolves :
      (b : Bool) (s t : Context H) → (if b then relay s.exchanges s else ok s) ≡ ok t → Evolves s t
  relayed_if-Evolves false s t h = subst (Evolves s) (ok-injective h) (Evolves-refl s)
  relayed_if-Evolves true s t h = relay-Evolves s.exchanges s t h

  scanned_if-Evolves :
      (b : Bool) (l : LockAnswers) (others : Others H) (s t : Context H)
      → IsTaking others
      → (if b then scan_and_sweep l others s else ok s) ≡ ok t
      → Evolves s t
  scanned_if-Evolves false l others s t taking h =
      subst (Evolves s) (ok-injective h) (Evolves-refl s)
  scanned_if-Evolves true l others s t taking h = scan_and_sweep-Evolves l others s t taking h

  -- A round of `mailbox_worker`, with whatever locks it gets.
  pub mailbox_worker-Evolves :
      (l : LockAnswers) (others : Others H) (s t : Context H)
      → IsTaking others
      → mailbox_worker l others s ≡ ok t
      → Evolves s t
  unfolding mailbox_worker
  mailbox_worker-Evolves l others s t taking h =
      let (u, relayed, rest) =
        >>=-eq-ok (if l.exchange_shared && l.registry then relay s.exchanges s else ok s) _ h in
      Evolves-trans (relayed_if-Evolves (l.exchange_shared && l.registry) s u relayed)
        (scanned_if-Evolves l.registry_shared l others u t taking rest)
