-- ===== src/Context/Supervision/Caught.antt =====
-- libyaaf/context.cpp: what a handler throws is kept as a value, so the loop of `apply` ends in no
-- exception of its own.
use yaaf.Common.{◌≡◌, refl, Bool, true, Option, none, some, List, [], ◌∷◌, Str}
use yaaf.Common.Outcomes.{Outcome, ok, thrown, null_deref, out_of_fuel, ◌>>=◌}
use yaaf.Payload.{Envelope}
use yaaf.Actor.{UserContext}
use yaaf.Actor.Apply.{unless_thrown}
use yaaf.Actor.Delivery.{deliver, settled}
use yaaf.Context.State.{
  Context, Program, ActorPtr, BoxPtr, Answer, no_context, Method, returns, throws, crashes, calls,
  action_handle, update,
}
use yaaf.Context.User.{run_call, caught, run_method, run_alone}
use yaaf.Context.Supervision.{act, handle, context_host, tried}

abbrev pub IsCaught : {A : Type 0} → Outcome A → Type 0
IsCaught (ok a) = Unit
IsCaught (thrown m) = ⊥
IsCaught null_deref = Unit
IsCaught out_of_fuel = Unit

bind-IsCaught :
    {A B : Type 0} (m : Outcome A) (f : A → Outcome B)
    → IsCaught m
    → ((a : A) → IsCaught (f a))
    → IsCaught (m >>= f)
bind-IsCaught (ok a) f c h = h a
bind-IsCaught (thrown m) f c h = c
bind-IsCaught null_deref f c h = tt
bind-IsCaught out_of_fuel f c h = tt

module _ {H : Type 0} (program : Program H) where
  caught-IsCaught :
      (alive : Bool) (uc : UserContext) (m : Outcome (Answer × Context H)) (s : Context H)
      (go : Answer → Context H → Outcome (Context H × Option Str))
      → ((ans : Answer) (t : Context H) → IsCaught (go ans t))
      → IsCaught (caught program alive uc m s go)
  unfolding caught
  caught-IsCaught alive uc (ok (ans, t)) s go h = h ans t
  caught-IsCaught alive uc (thrown m) s go h = tt
  caught-IsCaught alive uc null_deref s go h = tt
  caught-IsCaught alive uc out_of_fuel s go h = tt

  run_method-IsCaught :
      (uc : UserContext) (method : Method H) (s : Context H)
      → IsCaught (run_method program true uc method s)
  unfolding run_method
  run_method-IsCaught uc returns s = tt
  run_method-IsCaught uc (throws what) s = tt
  run_method-IsCaught uc crashes s = tt
  run_method-IsCaught uc (calls c next) s =
      caught-IsCaught true uc (run_call program true uc c s) s
        (λ ans t. run_method program true uc (next ans) t)
        (λ ans t. run_method-IsCaught uc (next ans) t)

  run_alone-IsCaught : (method : Method H) (s : Context H) → IsCaught (run_alone method s)
  unfolding run_alone
  run_alone-IsCaught returns s = tt
  run_alone-IsCaught (throws what) s = tt
  run_alone-IsCaught crashes s = tt
  run_alone-IsCaught (calls c next) s = run_alone-IsCaught (next no_context) s

  act-IsCaught :
      (a : ActorPtr) (method : Method H) (s : Context H) → IsCaught (act program a method s)
  unfolding act
  act-IsCaught a method s =
      elim (s.objects a).ctx
        as (λ (c : Option UserContext).
          IsCaught (elim c as (λ x. Outcome (Context H × Option Str)) [
            | none ↦ run_alone method s
            | some uc ↦ run_method program true uc method s
          ])) [ none ↦ run_alone-IsCaught method s | some uc ↦ run_method-IsCaught uc method s ]

  handle-IsCaught :
      (a : ActorPtr) (e : Envelope H) (s : Context H) → IsCaught (handle program a e s)
  unfolding handle
  handle-IsCaught a e s =
      act-IsCaught a (program.handles a s.events e)
        (record s { events = action_handle a e ∷ s.events })

  unless-IsCaught :
      (go : Context H → Outcome (Context H × Option Str)) (r : Context H × Option Str)
      → ((t : Context H) → IsCaught (go t))
      → IsCaught (unless_thrown go r)
  unless-IsCaught go (t, none) h = h t
  unless-IsCaught go (t, some what) h = tt

  deliver-IsCaught :
      (a : ActorPtr) (b : BoxPtr) (es : List (Envelope H)) (s : Context H)
      → IsCaught (deliver (context_host program a b) es s)
  unfolding deliver context_host
  deliver-IsCaught a b [] s = tt
  deliver-IsCaught a b (e ∷ es) s =
      let s1 : Context H = record s { boxes = update s.boxes b (record { dqueue = es }) } in
      bind-IsCaught (handle program a e s1) _ (handle-IsCaught a e s1) (λ r.
        unless-IsCaught (λ t. deliver (context_host program a b) es t) r
          (λ t. deliver-IsCaught a b es t))

  tried_lem :
      (s : Context H) (m : Outcome (Context H × Option Str)) → IsCaught m → tried program s m ≡ m
  unfolding tried
  tried_lem s (ok r) c = refl
  tried_lem s (thrown m) c = absurd c
  tried_lem s null_deref c = refl
  tried_lem s out_of_fuel c = refl

  -- Nothing is left to catch when `apply` has done its contract.
  pub tried-deliver :
      (a : ActorPtr) (b : BoxPtr) (es : List (Envelope H)) (s : Context H)
      → tried program s (
          deliver (context_host program a b) es s >>= λ r.
          ok (settled (context_host program a b) r))
        ≡ (deliver (context_host program a b) es s >>= λ r.
            ok (settled (context_host program a b) r))
  tried-deliver a b es s = tried_lem s _ (bind-IsCaught _ _ (deliver-IsCaught a b es s) (λ r. tt))
