-- ===== src/Context/Worker/Bare.antt =====
-- libyaaf/context.cpp: a round of `mailbox_worker` in a context that has no exchanges.
use yaaf.Common.{
  ◌≡◌, ◌⊎◌, refl, sym, ap, ◌∙◌, Bool, true, false, if◌then◌else◌, ◌&&◌, List, [], Str, arith,
  Bool-cases, inl, inr,
}
use yaaf.Common.Outcomes.{Outcome, ok, ◌>>=◌, ok-injective}
use yaaf.Context.State.{Context, ExchangeT}
use yaaf.Context.Worker.{
  LockAnswers, mailbox_worker, relay, scan, scan_and_sweep, sweep, clean, deserted, erase_names,
  erase_ids,
}
use yaaf.Context.Worker.Exclusive.{quiet}

module _ {H : Type 0} (l : LockAnswers) (s t : Context H) (bare : s.exchanges ≡ [])
    (after : t.exchanges ≡ []) (scanned : scan quiet s.mboxes (s, []) ≡ ok (t, [])) where
  sweep_same : sweep t ≡ t
  unfolding sweep deserted erase_names
  sweep_same =
      ap (λ (x : List (Str × ExchangeT)). record t { exchanges = erase_names (deserted t x) x })
        after
      ∙ ap (λ (x : List (Str × ExchangeT)). record t { exchanges = x }) (sym after)

  clean_same : (u : Context H) → clean [] u ≡ u
  unfolding clean erase_ids
  clean_same u = refl

  scan_and_sweep_same : scan_and_sweep l quiet s ≡ ok t
  unfolding scan_and_sweep
  scan_and_sweep_same = rw scanned (ground (arith, sweep_same, clean_same t, clean_same (sweep t)))

  relay_same : (b : Bool) → (if b then relay s.exchanges s else ok s) ≡ ok s
  unfolding relay
  relay_same true = rw bare refl
  relay_same false = refl

  -- It does what the look at every mailbox does, if it gets the registry's lock, and else nothing.
  pub mailbox_worker_lem : mailbox_worker l quiet s ≡ (if l.registry_shared then ok t else ok s)
  unfolding mailbox_worker
  mailbox_worker_lem =
      ap
        (λ (m : Outcome (Context H)).
          m >>= λ s1. if l.registry_shared then scan_and_sweep l quiet s1 else ok s1)
        (relay_same (l.exchange_shared && l.registry))
      ∙ ap (λ (m : Outcome (Context H)). if l.registry_shared then m else ok s) scan_and_sweep_same

  pub mailbox_worker_cases : {u : Context H} → mailbox_worker l quiet s ≡ ok u → (s ≡ u) ⊎ (t ≡ u)
  mailbox_worker_cases {u} e = elim (Bool-cases l.registry_shared) [
    | inl got ↦ inr (ok-injective (rw (mailbox_worker_lem, got) at e))
    | inr failed ↦ inl (ok-injective (rw (mailbox_worker_lem, failed) at e))
  ]
