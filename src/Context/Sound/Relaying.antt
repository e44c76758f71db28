-- ===== src/Context/Sound/Relaying.antt =====
-- libyaaf/context.cpp: the first part of `mailbox_worker` in any context.
use yaaf.Common.{◌≡◌, ℕ, List, Str}
use yaaf.Common.Outcomes.{ok}
use yaaf.Address.{IdT}
use yaaf.Payload.{Envelope}
use yaaf.Context.State.{Context, BoxPtr, ExchangeT}
use yaaf.Context.Worker.{drain, relay}
use yaaf.Context.Frame.Relaying.{BoxFrame, drain_kept, relay_kept}
use yaaf.Context.Sound.{Evolves, Evolves-refl, Evolves-trans}
use yaaf.Context.Sound.Sending.{box-Evolves, push_to-Evolves}
use yaaf.Context.Sound.Handling.{try_pop-IsFilled}

module _ {H : Type 0} where
  Evolves-BoxFrame : BoxFrame {H = H} Evolves
  Evolves-BoxFrame = record {
    same = Evolves-refl;
    trans = Evolves-trans;
    pushes = push_to-Evolves;
    pops = λ b out e mb popped s got.
        box-Evolves b mb s (try_pop-IsFilled out e (s.boxes b) mb popped got);
  }

  pub drain-Evolves :
      (fuel : ℕ) (p : BoxPtr) (is : List IdT) (out : Envelope H) (s t : Context H)
      → drain fuel p is out s ≡ ok t
      → Evolves s t
  drain-Evolves = drain_kept Evolves-BoxFrame

  pub relay-Evolves :
      (xs : List (Str × ExchangeT)) (s t : Context H) → relay xs s ≡ ok t → Evolves s t
  relay-Evolves = relay_kept Evolves-BoxFrame
