-- ===== src/Context/Send.antt =====
-- libyaaf/context.cpp: `send_envelope`, and `abstract_context::send`.
use yaaf.Common.{if◌then◌else◌, ◌&&◌, ◌||◌, Option, none, some, ◌==◌, nat_eq, str_eq, lookup}
use yaaf.Common.Outcomes.{Outcome, ok, thrown, ◌>>=◌}
use yaaf.Address.{Address, null_name}
use yaaf.Payload.{Envelope}
use yaaf.Mailbox.{push}
use yaaf.Context.State.{Context, Program, BoxPtr, update}

module _ {H : Type 0} where
  -- A push to the mailbox behind a pointer.
  unfoldable pub push_to : BoxPtr → Envelope H → Context H → Outcome (Context H)
  unfolding push
  push_to b e s = push e (s.boxes b) >>= λ mb. ok (record s { boxes = update s.boxes b mb })

  unfoldable pub deliver_to : Option BoxPtr → Envelope H → Context H → Outcome (Context H)
  unfolding push_to
  deliver_to none e s = ok s
  deliver_to (some b) e s = push_to b e s

  unfoldable pub send_envelope : Program H → Address → Envelope H → Context H → Outcome (Context H)
  unfolding deliver_to
  send_envelope program target e s =
      if program.double_checks && (target.pathname == null_name || e.sender.pathname == null_name)
      then thrown program.ensure_text
      else deliver_to (lookup target.id s.mboxes) e s
