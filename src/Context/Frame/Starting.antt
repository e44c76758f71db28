-- ===== src/Context/Frame/Starting.antt =====
-- libyaaf/context.cpp: `start`, as far as a relation is kept.
use yaaf.Common.{◌≡◌, subst, Str}
use yaaf.Common.Outcomes.{Outcome, ok, ◌>>=◌, >>=-eq-ok, ok-injective}
use yaaf.Address.{Address, no_address}
use yaaf.Context.State.{Context, Program, ActorPtr}
use yaaf.Context.Add.{add_actor}
use yaaf.Context.Lifecycle.{start, root_name, usr_name, sys_name}
use yaaf.Context.Frame.{Frame}

module _ {H : Type 0} (program : Program H) {R : Context H → Context H → Type 0}
    (k : Frame program R)
    (roots : (s : Context H) (r u y : Address)
      → R s (record s { root = r; usr_root = u; sys_root = y })) where
  -- An `add_actor` with what is done afterwards.
  added_kept :
      (n : Str) (parent : Address) (a : ActorPtr) (s t : Context H)
      (go : Address × Context H → Outcome (Context H))
      → ((r : Address) (u : Context H) → go (r, u) ≡ ok t → R u t)
      → (add_actor program n parent a s >>= go) ≡ ok t
      → R s t
  added_kept n parent a s t go later e =
      let ((r, u), first, rest) = >>=-eq-ok (add_actor program n parent a s) go e in
      k.trans (k.adds n parent a s u r first) (later r u rest)

  pub begin_kept :
      (root usr sys : ActorPtr) (s t : Context H) → start program root usr sys s ≡ ok t → R s t
  unfolding start
  begin_kept root usr sys s t e =
      added_kept root_name no_address root s t _
        (λ r u h. k.trans (roots u r u.usr_root u.sys_root) (
          added_kept usr_name r usr (record u { root = r }) t _
            (λ y v h. k.trans (roots v v.root y v.sys_root) (
              added_kept sys_name r sys (record v { usr_root = y }) t _
                (λ z w h. subst (R w) (ok-injective h) (roots w w.root w.usr_root z)) h))
            h))
        e
