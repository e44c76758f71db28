-- ===== src/Context/Lifecycle/Laws.antt =====
-- libyaaf/context.cpp: a context is well formed from its constructor through `start` to `stop`.
use yaaf.Common.{
  ℕ, ◌+◌, ◌<◌, ◌≡◌, refl, subst, none, some, [], ◌∷◌, nat_eq, str_eq, lookup, arith, Eq, Str, List,
  Option-cases, inl, inr,
}
use yaaf.Common.Outcomes.{ok, ok-injective, >>=-eq-ok, ◌>>=◌}
use yaaf.Address.{IdT, Address, no_address, u64_mod}
use yaaf.Context.State.{Context, Description, ActorPtr, Program, new_context}
use yaaf.Context.Add.{add_actor}
use yaaf.Context.Registry.{IsRegistry}
use yaaf.Context.Registry.Same.{SameMaps, SameMaps-IsRegistry}
use yaaf.Context.Sound.Adding.{add_actor-next_actor_id}
use yaaf.Context.Registry.NewActor.{add_actor-IsRegistry}
use yaaf.Context.Lifecycle.{
  construct, destroy, start, stop, root_name, usr_name, sys_name, stop_each, cleared,
}

lookup_nil {ℓ κ} :
    {K : Type ℓ} {V : Type κ} ⦃e : Eq K⦄ (k : K) {m : List (K × V)} → m ≡ [] → lookup k m ≡ none
unfolding lookup
lookup_nil k {m} h = rw h refl

no_key {ℓ κ} :
    {K : Type ℓ} {V : Type κ} ⦃e : Eq K⦄ (k : K) (v : V) {m : List (K × V)}
    → m ≡ []
    → lookup k m ≡ some v
    → ⊥
no_key k v h e = ground (arith, lookup_nil k h)

module _ {H : Type 0} where
  -- Without actors, mailboxes and names only the exchanges matter.
  empty-IsRegistry :
      (s t : Context H)
      → IsRegistry s
      → t.actors ≡ []
      → t.mboxes ≡ []
      → t.id_by_name ≡ []
      → t.exchanges ≡ s.exchanges
      → t.next_actor_id ≡ s.next_actor_id
      → t.next_box ≡ s.next_box
      → IsRegistry t
  empty-IsRegistry s t v a m n x i b = record {
    ranked = λ i d e. absurd (no_key _ _ a e);
    started = rw i v.started;
    positive = λ i d e. absurd (no_key _ _ a e);
    mailed = λ i e. lookup_nil i m;
    housed = λ i e. lookup_nil i a;
    addressed = λ i d e. absurd (no_key _ _ a e);
    family = λ i d e. absurd (no_key _ _ a e);
    named = λ k i e. absurd (no_key _ _ n e);
    box_bound = λ i b e. absurd (no_key _ _ m e);
    pub_bound = rw (x, b) v.pub_bound;
    box_own = λ i j b e f. absurd (no_key _ _ m e);
    pub_own = rw x v.pub_own;
    apart = λ i b n x e f. absurd (no_key _ _ m e);
  }

  pub new_context-IsRegistry : (name : Str) (s : Context H) → s ≡ new_context name → IsRegistry s
  new_context-IsRegistry name s e = rw e record {
    ranked = λ i d e. absurd (no_key _ _ refl e);
    started = omega arith;
    positive = λ i d e. absurd (no_key _ _ refl e);
    mailed = λ i e. lookup_nil i refl;
    housed = λ i e. lookup_nil i refl;
    addressed = λ i d e. absurd (no_key _ _ refl e);
    family = λ i d e. absurd (no_key _ _ refl e);
    named = λ k i e. absurd (no_key _ _ refl e);
    box_bound = λ i b e. absurd (no_key _ _ refl e);
    pub_bound = λ n x e. absurd (no_key _ _ refl e);
    box_own = λ i j b e f. absurd (no_key _ _ refl e);
    pub_own = λ m n x y e f g. absurd (no_key _ _ refl e);
    apart = λ i b n x e f. absurd (no_key _ _ refl e);
  }

  pub rooted : (s : Context H) (addr : Address) → SameMaps s (record s { root = addr })
  rooted s addr = record {
    next_actor_id = refl;
    actors = refl;
    id_by_name = refl;
    mboxes = refl;
    exchanges = refl;
    next_box = refl;
  }

  pub usr_rooted : (s : Context H) (addr : Address) → SameMaps s (record s { usr_root = addr })
  usr_rooted s addr = record {
    next_actor_id = refl;
    actors = refl;
    id_by_name = refl;
    mboxes = refl;
    exchanges = refl;
    next_box = refl;
  }

  pub sys_rooted : (s : Context H) (addr : Address) → SameMaps s (record s { sys_root = addr })
  sys_rooted s addr = record {
    next_actor_id = refl;
    actors = refl;
    id_by_name = refl;
    mboxes = refl;
    exchanges = refl;
    next_box = refl;
  }

module _ {H : Type 0} (program : Program H) where
  -- A well-formed context with this id as the next one.
  abbrev pub IsGrown : IdT → Context H → Type 0
  IsGrown k s = IsRegistry s × (s.next_actor_id ≡ k)

  add_actor-IsGrown :
      (k : IdT) (n : Str) (parent : Address) (a : ActorPtr) (s t : Context H) (addr : Address)
      → k + 1 < u64_mod
      → IsGrown k s
      → add_actor program n parent a s ≡ ok (addr, t)
      → IsGrown (k + 1) t
  add_actor-IsGrown k n parent a s t addr room (v, is) e =
      let room' : s.next_actor_id + 1 < u64_mod = omega (arith, is, room) in
      (
        add_actor-IsRegistry program n parent a s t addr v room' e,
        omega (arith, is, add_actor-next_actor_id program n parent a s t addr room' e),
      )

  add_sys :
      (r : Address) (sys : ActorPtr) (s t : Context H)
      → IsGrown 3 s
      → (add_actor program sys_name r sys s >>= λ (y, s3). ok (record s3 { sys_root = y })) ≡ ok t
      → IsGrown 4 t
  add_sys r sys s t v e =
      let ((y, u), e', rest) =
        >>=-eq-ok (add_actor program sys_name r sys s) (λ (y, s3). ok (record s3 { sys_root = y }))
          e in
      let (w, n) = add_actor-IsGrown 3 sys_name r sys s u y (omega arith) v e' in
      subst (IsGrown 4) (ok-injective rest) (SameMaps-IsRegistry (sys_rooted u y) w, n)

  add_usr_sys :
      (r : Address) (usr sys : ActorPtr) (s t : Context H)
      → IsGrown 2 s
      → (add_actor program usr_name r usr s >>= λ (u, s2).
          add_actor program sys_name r sys (record s2 { usr_root = u }) >>= λ (y, s3).
          ok (record s3 { sys_root = y }))
        ≡ ok t
      → IsGrown 4 t
  add_usr_sys r usr sys s t v e =
      let ((a, u), e', rest) =
        >>=-eq-ok (add_actor program usr_name r usr s)
          (λ (u, s2). add_actor program sys_name r sys (record s2 { usr_root = u }) >>= λ (y, s3).
            ok (record s3 { sys_root = y }))
          e in
      let (w, n) = add_actor-IsGrown 2 usr_name r usr s u a (omega arith) v e' in
      add_sys r sys (record u { usr_root = a }) t (SameMaps-IsRegistry (usr_rooted u a) w, n) rest

  -- A context that was started is well formed, with the ids 1 to 3 given out.
  pub start-IsRegistry :
      (self_id : ℕ) (name : Str) (root usr sys : ActorPtr) (t : Context H)
      → start program root usr sys (construct self_id name) ≡ ok t
      → IsRegistry t × (t.next_actor_id ≡ 4)
  unfolding start construct
  start-IsRegistry self_id name root usr sys t e =
      let s : Context H = construct self_id name in
      let ((r, u), e', rest) =
        >>=-eq-ok (add_actor program root_name no_address root s)
          (λ (r, s1). add_actor program usr_name r usr (record s1 { root = r }) >>= λ (u, s2).
            add_actor program sys_name r sys (record s2 { usr_root = u }) >>= λ (y, s3).
            ok (record s3 { sys_root = y }))
          e in
      let (w, n) =
        add_actor-IsGrown 1 root_name no_address root s u r (omega arith)
          (new_context-IsRegistry _ s refl, refl) e' in
      add_usr_sys r usr sys (record u { root = r }) t (SameMaps-IsRegistry (rooted u r) w, n) rest

  stop_each-next_actor_id :
      (ds : List (IdT × Description)) (s : Context H)
      → ((stop_each program ds s).next_actor_id ≡ s.next_actor_id)
        × ((stop_each program ds s).next_box ≡ s.next_box)
        × ((stop_each program ds s).exchanges ≡ s.exchanges)
  unfolding stop_each
  stop_each-next_actor_id [] s = (refl, refl, refl)
  stop_each-next_actor_id ((i, d) ∷ ds) s = stop_each-next_actor_id ds _

  -- `stop` leaves a context well formed.
  pub stop-IsRegistry : (s t : Context H) → IsRegistry s → stop program s ≡ ok t → IsRegistry t
  unfolding stop cleared
  stop-IsRegistry s t v e =
      let (n, b, x) = stop_each-next_actor_id s.actors s in
      empty-IsRegistry s t v (ground arith) (ground arith) (ground arith) (ground arith)
        (ground arith) (ground arith)

  -- `~context` succeeds on every context, leaves it without actors where there was a thread manager, and
  -- does nothing after `stop`.
  pub destroy_lem :
      (s : Context H)
      → (t : Context H) × (destroy program s ≡ ok t)
        × (t.thread_manager ≡ none)
        × (destroy program t ≡ ok t)
  unfolding destroy stop cleared
  destroy_lem s = elim (Option-cases s.thread_manager) [
    | inl gone ↦ (s, ground (arith, gone), gone, ground (arith, gone))
    | inr (m, there) ↦ (cleared program (stop_each program s.actors s), rw there refl, refl, refl)
  ]
