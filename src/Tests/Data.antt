-- ===== src/Tests/Data.antt =====
-- Concrete values: a program whose actors do nothing, and a context that was started.
use yaaf.Common.{ℕ, ◌≡◌, refl, false, [], ◌∷◌, Str, lookup, insert, adjust}
use yaaf.Common.Outcomes.{Outcome, ok, thrown, null_deref, out_of_fuel}
use yaaf.Address.{Address, no_address}
use yaaf.Payload.{Envelope, payload_of}
use yaaf.Actor.{resume}
use yaaf.Context.State.{Context, Program, new_context, returns}
use yaaf.Context.Registry.{IsRegistry}
use yaaf.Context.Add.{add_actor}
use yaaf.Context.Lifecycle.{construct, start}
use yaaf.Context.Lifecycle.Laws.{start-IsRegistry}

abbrev pub idle : Program ℕ
idle = record {
  double_checks = false;
  ensure_text = [];
  stops = λ a b. b;
  decides = λ a events addr. resume;
  starts = λ a events. returns;
  handles = λ a events e. returns;
}

abbrev pub value_or {ℓ} : {A : Type ℓ} → A → Outcome A → A
value_or d (ok a) = a
value_or d (thrown m) = d
value_or d null_deref = d
value_or d out_of_fuel = d

unfoldable pub started : Context ℕ
unfolding start construct
started = value_or (new_context []) (start idle 10 11 12 (construct 7 []))

pub started_run : start idle 10 11 12 (construct 7 []) ≡ ok started
unfolding start construct started lookup insert adjust
started_run = refl

pub started-IsRegistry : IsRegistry started
started-IsRegistry = (start-IsRegistry idle 7 [] 10 11 12 started started_run).0

abbrev pub usr_address : Address
usr_address = record { id = 2; pathname = [] }

abbrev pub mail : ℕ → Envelope ℕ
mail n = record { payload = payload_of n; sender = usr_address }

abbrev pub child_name : Str
child_name = b'a' ∷ []

-- An actor "a" below "usr".
unfoldable pub added : Address × Context ℕ
unfolding add_actor
added = value_or (no_address, started) (add_actor idle child_name usr_address 13 started)

pub added_run : add_actor idle child_name usr_address 13 started ≡ ok added
unfolding added add_actor started start construct lookup insert adjust
added_run = refl
