-- ===== src/Tests/Actors.antt =====
-- One actor with its mailbox, and payloads of two types.
use yaaf.Common.{
  ℕ, ◌≡◌, ◌≢◌, refl, Bool, true, false, Option, none, some, List, [], ◌∷◌, Str, if◌then◌else◌,
  nat_beq, arith,
}
use yaaf.Common.Outcomes.{ok, thrown, null_deref, ◌>>=◌}
use yaaf.Payload.{Envelope, no_payload, no_envelope}
use yaaf.Payload.Typed.{Types, Messages, pack_value, cast, cast-pack_value}
use yaaf.Mailbox.{Mailbox, no_mail, mailbox_empty, try_pop}
use yaaf.Mailbox.Fifo.{push_all, pop_all, pop_all-push_all}
use yaaf.Actor.{BaseActor, base_actor}
use yaaf.Actor.Apply.{Host, apply}
use yaaf.Actor.Delivery.{HostLaws, IsSettled, apply-IsSettled}
use yaaf.Tests.Data.{mail, child_name, value_or}

pop_all-push_all_example :
    (push_all (mail 1 ∷ mail 2 ∷ []) no_mail >>= λ mb.
    push_all (mail 3 ∷ []) mb >>= λ mb'. pop_all 2 no_envelope mb')
    ≡ ok (mail 1 ∷ mail 2 ∷ [], record { dqueue = mail 3 ∷ [] })
pop_all-push_all_example =
    pop_all-push_all (mail 1 ∷ mail 2 ∷ []) (mail 3 ∷ []) no_envelope (refl, (refl, tt)) (refl, tt)

-- An actor that throws on the number 3, and its mailbox.
abbrev outcome_of : Option ℕ → Option Str
outcome_of none = none
outcome_of (some n) = if nat_beq n 3 then some child_name else none

abbrev host : Host ℕ (BaseActor × Mailbox ℕ)
host = record {
  actor = λ s. s.0;
  set_actor = λ a s. (a, s.1);
  mailbox = λ s. s.1;
  set_mailbox = λ mb s. (s.0, mb);
  action_handle = λ e s. ok (s, outcome_of e.payload.holder);
}

host-HostLaws : HostLaws host
host-HostLaws = record {
  actor-set_actor = λ a s. refl;
  mailbox-set_mailbox = λ mb s. refl;
  mailbox-set_actor = λ a s. refl;
}

abbrev three : List (Envelope ℕ)
three = mail 2 ∷ mail 3 ∷ mail 4 ∷ []

abbrev held : BaseActor × Mailbox ℕ
held = (record base_actor { busy = true }, record { dqueue = three })

unfoldable applied : (BaseActor × Mailbox ℕ) × Option Str
unfolding apply
applied = value_or (held, none) (apply host true child_name 4 held)

applied_run : apply host true child_name 4 held ≡ ok applied
unfolding applied apply mailbox_empty try_pop
applied_run = refl

apply-IsSettled_example : IsSettled host host-HostLaws applied
apply-IsSettled_example =
    apply-IsSettled host host-HostLaws true child_name 4 held applied applied_run

-- Two types of values: numbers and texts.
abbrev Value : Bool → Type 0
Value true = ℕ
Value false = Str

same_tag : (s t : Bool) → Dec (s ≡ t)
same_tag true true = yes refl
same_tag true false = no (λ e. absurd (ground arith))
same_tag false true = no (λ e. absurd (ground arith))
same_tag false false = yes refl

abbrev types : Types
types = record { Tag = Bool; Val = Value; tag_dec = same_tag }

abbrev messages : Messages
messages = record { bad_cast = child_name; null_holder = [] }

false-true : false ≢ true
false-true e = absurd (ground arith)

cast-pack_value_example :
    (cast types messages true (pack_value types messages true 5) ≡ ok 5)
    × (cast types messages true (pack_value types messages false child_name) ≡ thrown child_name)
    × (cast types messages true no_payload ≡ null_deref)
cast-pack_value_example = cast-pack_value types messages false true child_name 5 false-true
