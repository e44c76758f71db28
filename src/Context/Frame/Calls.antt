-- ===== src/Context/Frame/Calls.antt =====
-- libyaaf/context.cpp: what an actor does through its `user_context`, as far as a relation is kept.
use yaaf.Common.{◌≡◌, refl, subst, Bool, Option, Str, arith, Bool-cases, inl, inr}
use yaaf.Common.Outcomes.{Outcome, ok, thrown, null_deref, out_of_fuel, >>=-eq-ok, ok-injective}
use yaaf.Address.{Address, address_of_id}
use yaaf.Payload.{Envelope}
use yaaf.Actor.{UserContext, manual}
use yaaf.Context.State.{
  Context, Program, ActorPtr, Call, calls_send, calls_add, calls_stop, calls_create_exchange,
  calls_subscribe, calls_publish, calls_get_address, calls_get_actor, calls_get_actor_by_name,
  calls_exchange_exists, Answer, no_context, done, an_address, Method, returns, throws, crashes,
  calls,
}
use yaaf.Context.Send.{send_envelope}
use yaaf.Context.Exchanges.{publish_to_exchange}
use yaaf.Context.User.{
  user_add_actor, user_send_envelope, user_stop_actor, user_create_exchange,
  user_subscribe_to_exchange, user_publish_to_exchange, run_call, run_method, run_alone, finished,
  open_for, signed, wrapped, caught,
}
use yaaf.Context.Stop.{stop_actor}
use yaaf.Context.Frame.{Frame}

module _ {H : Type 0} (program : Program H) {R : Context H → Context H → Type 0}
    (k : Frame program R) (alive : Bool) (uc : UserContext) where
  -- A call that is left out when the context is closed.
  ok_kept : (s t : Context H) → ok s ≡ ok t → R s t
  ok_kept s t e = subst (R s) (ok-injective e) (k.same s)

  user_send_envelope_kept :
      (target : Address) (e : Envelope H) (s t : Context H)
      → user_send_envelope program alive uc target e s ≡ ok t
      → R s t
  unfolding user_send_envelope
  user_send_envelope_kept target e s t h = elim (Bool-cases (open_for program alive uc s)) [
    | inl is_open ↦
        let (cp, _, sent) =
          >>=-eq-ok (signed program alive uc e.payload) (λ cp. send_envelope program target cp s)
            (rw is_open at h) in
        k.sends target cp s t sent
    | inr shut ↦ ok_kept s t (rw shut at h)
  ]

  user_add_actor_kept :
      (n : Str) (a : ActorPtr) (s t : Context H) (addr : Address)
      → user_add_actor program alive uc n a s ≡ ok (addr, t)
      → R s t
  unfolding user_add_actor
  user_add_actor_kept n a s t addr h = elim (Bool-cases (open_for program alive uc s)) [
    | inl is_open ↦ k.adds n uc.addr a s t addr (rw is_open at h)
    | inr shut ↦ ok_kept s t (ground arith)
  ]

  user_stop_actor_kept :
      (addr : Address) (s t : Context H) → user_stop_actor program alive uc addr s ≡ ok t → R s t
  unfolding user_stop_actor stop_actor
  user_stop_actor_kept addr s t h = elim (Bool-cases (open_for program alive uc s)) [
    | inl is_open ↦ k.stops manual (address_of_id addr.id) s t (rw is_open at h)
    | inr shut ↦ ok_kept s t (rw shut at h)
  ]

  user_publish_to_exchange_kept :
      (n : Str) (e : Envelope H) (s t : Context H)
      → user_publish_to_exchange program alive uc n e s ≡ ok t
      → R s t
  unfolding user_publish_to_exchange
  user_publish_to_exchange_kept n e s t h = elim (Bool-cases alive) [
    | inl there ↦
        let (cp, _, sent) =
          >>=-eq-ok (signed program alive uc e.payload) (λ cp. publish_to_exchange n cp s)
            (rw there at h) in
        k.publishes n cp s t sent
    | inr gone ↦ ok_kept s t (rw gone at h)
  ]

  user_create_exchange_kept :
      (n : Str) (s : Context H) → R s (user_create_exchange program alive uc n s)
  unfolding user_create_exchange
  user_create_exchange_kept n s = elim (Bool-cases alive) [
    | inl there ↦ rw there (k.creates uc.addr n s)
    | inr gone ↦ rw gone (k.same s)
  ]

  user_subscribe_to_exchange_kept :
      (n : Str) (s : Context H) → R s (user_subscribe_to_exchange program alive uc n s)
  unfolding user_subscribe_to_exchange
  user_subscribe_to_exchange_kept n s = elim (Bool-cases alive) [
    | inl there ↦ rw there (k.subscribes uc.addr n s)
    | inr gone ↦ rw gone (k.same s)
  ]

  -- An exception leaves the context as it was before the call.
  caught_kept :
      (m : Outcome (Answer × Context H)) (s t : Context H) (out : Option Str)
      (go : Answer → Context H → Outcome (Context H × Option Str))
      → ((ans : Answer) (u : Context H) → m ≡ ok (ans, u) → R s u)
      → ((ans : Answer) (u : Context H) → go ans u ≡ ok (t, out) → R u t)
      → caught program alive uc m s go ≡ ok (t, out)
      → R s t
  unfolding caught
  caught_kept (ok (ans, u)) s t out go one rest h = k.trans (one ans u refl) (rest ans u h)
  caught_kept (thrown m) s t out go one rest h = ok_kept s t (ground arith)
  caught_kept null_deref s t out go one rest h = absurd (ground arith)
  caught_kept out_of_fuel s t out go one rest h = absurd (ground arith)

  finished_kept :
      (m : Outcome (Context H)) (s t : Context H) (ans : Answer)
      → ((u : Context H) → m ≡ ok u → R s u)
      → finished m ≡ ok (ans, t)
      → R s t
  unfolding finished
  finished_kept m s t ans one h =
      let (u, ran, last) = >>=-eq-ok m (λ s'. ok (done, s')) h in
      subst (λ (r : Answer × Context H). R s r.1) (ok-injective last) (one u ran)

  -- A call that only looks.
  looked_kept :
      (a ans : Answer) (s t : Context H)
      → ◌≡◌ {A = Outcome (Answer × Context H)} (ok (a, s)) (ok (ans, t))
      → R s t
  looked_kept a ans s t h = subst (λ (r : Answer × Context H). R s r.1) (ok-injective h) (k.same s)

  run_call_kept :
      (c : Call H) (s t : Context H) (ans : Answer)
      → run_call program alive uc c s ≡ ok (ans, t)
      → R s t
  unfolding run_call stop_actor
  run_call_kept (calls_send target p) s t ans h =
      finished_kept (user_send_envelope program alive uc target (wrapped program alive uc p) s) s t
        ans (user_send_envelope_kept target (wrapped program alive uc p) s) h
  run_call_kept (calls_add n a) s t ans h =
      let ((addr, u), added, last) =
        >>=-eq-ok (user_add_actor program alive uc n a s) (λ (addr, s'). ok (an_address addr, s'))
          h in
      subst (λ (r : Answer × Context H). R s r.1) (ok-injective last)
        (user_add_actor_kept n a s u addr added)
  run_call_kept (calls_stop addr) s t ans h =
      finished_kept (user_stop_actor program alive uc addr s) s t ans (user_stop_actor_kept addr s)
        h
  run_call_kept (calls_create_exchange n) s t ans h =
      subst (λ (r : Answer × Context H). R s r.1) (ok-injective h) (user_create_exchange_kept n s)
  run_call_kept (calls_subscribe n) s t ans h =
      subst (λ (r : Answer × Context H). R s r.1) (ok-injective h)
        (user_subscribe_to_exchange_kept n s)
  run_call_kept (calls_publish n p) s t ans h =
      finished_kept (user_publish_to_exchange program alive uc n (wrapped program alive uc p) s) s t
        ans (user_publish_to_exchange_kept n (wrapped program alive uc p) s) h
  run_call_kept (calls_get_address n) s t ans h = looked_kept _ ans s t h
  run_call_kept (calls_get_actor addr) s t ans h = looked_kept _ ans s t h
  run_call_kept (calls_get_actor_by_name n) s t ans h = looked_kept _ ans s t h
  run_call_kept (calls_exchange_exists n) s t ans h = looked_kept _ ans s t h

  pub run_method_kept :
      (m : Method H) (s t : Context H) (out : Option Str)
      → run_method program alive uc m s ≡ ok (t, out)
      → R s t
  unfolding run_method
  run_method_kept returns s t out h = ok_kept s t (ground arith)
  run_method_kept (throws what) s t out h = ok_kept s t (ground arith)
  run_method_kept crashes s t out h = absurd (ground arith)
  run_method_kept (calls c next) s t out h =
      caught_kept (run_call program alive uc c s) s t out
        (λ ans u. run_method program alive uc (next ans) u) (λ ans u. run_call_kept c s u ans)
        (λ ans u. run_method_kept (next ans) u t out) h

module _ {H : Type 0} (program : Program H) {R : Context H → Context H → Type 0}
    (k : Frame program R) where
  pub run_alone_kept :
      (m : Method H) (s t : Context H) (out : Option Str) → run_alone m s ≡ ok (t, out) → R s t
  unfolding run_alone
  run_alone_kept returns s t out h = subst (R s) (ground arith) (k.same s)
  run_alone_kept (throws what) s t out h = subst (R s) (ground arith) (k.same s)
  run_alone_kept crashes s t out h = absurd (ground arith)
  run_alone_kept (calls c next) s t out h = run_alone_kept (next no_context) s t out h
