-- ===== src/Context/Add.antt =====
-- libyaaf/context.cpp: `context::add_actor`, `make_actor`'s part of it, and `user_post`.
use yaaf.Common.{Bool, ◌||◌, ◌&&◌}
use yaaf.Address.{null_name}
use yaaf.Context.State.{Program}
use yaaf.Common.{
  ℕ, zero, suc, ◌+◌, ◌/◌, ◌%◌, if◌then◌else◌, Option, none, some, List, [], ◌∷◌, ◌++◌, Str, ◌==◌,
  nat_eq, str_eq, lookup, insert, adjust, contains,
}
use yaaf.Common.Outcomes.{Outcome, ok, thrown, null_deref, ◌>>=◌}
use yaaf.Address.{null_name, IdT, Address, no_id, address_empty, id_inc}
use yaaf.Mailbox.{no_mail}
use yaaf.Actor.{UserContext, set_context, set_self_addr}
use yaaf.Context.State.{
  Context, Description, ActorPtr, UserTask, start_actor, Manager, accepting, stopping, on_init,
  update,
}

-- `std::to_string` of an unsigned number; a uint64_t has at most 20 digits.
to_digits : ℕ → ℕ → Str → Str
to_digits zero n acc = acc
to_digits (suc fuel) n acc =
    let more = to_digits fuel (n / 10) ((b'0' + n % 10) ∷ acc) in
    if n / 10 == 0 then (b'0' + n % 10) ∷ acc else more

unfoldable pub to_string : ℕ → Str
unfolding to_digits
to_string n = to_digits 20 n []

slash : Str
slash = b'/' ∷ []

-- "/#usercontext#"
abbrev pub usercontext_infix : Str
usercontext_infix =
    b'/' ∷ b'#' ∷ b'u' ∷ b's' ∷ b'e' ∷ b'r' ∷ b'c' ∷ b'o' ∷ b'n' ∷ b't' ∷ b'e' ∷ b'x' ∷ b't' ∷ b'#'
    ∷ []

-- What `add_actor` holds between its two critical sections.
pub record Pending : Type 0 where
  pub new_id : IdT
  pub description : Description
  pub parent_description : Option IdT

-- `children.insert`.
unfoldable pub insert_child : IdT → Description → Description
insert_child c d = if contains c d.children then d else record d { children = c ∷ d.children }

-- The parent's description is shared: the write shows in `_actors` while the parent is there.
unfoldable pub adopt : Option IdT → IdT → List (IdT × Description) → List (IdT × Description)
adopt none c m = m
adopt (some p) c m = adjust p (insert_child c) m

-- What `add_actor` makes once it has the parent's name and id.
describe_as : ActorPtr → Address → IdT → Option IdT → UserContext → Pending
describe_as a result parent parent_description uc = record {
  new_id = result.id;
  description = record {
    actor = a;
    address = result;
    usrcont = some uc;
    name = result.pathname;
    parent = parent;
    children = [];
  };
  parent_description = parent_description;
}

-- The constructor of `user_context`, with its `ENSURE`s.
pub user_context : Bool → Str → Address → Str → Outcome UserContext
user_context double_checks text addr name =
    if double_checks
      && (addr.pathname == null_name
          || addr.pathname == []
          || name == null_name
          || name == addr.pathname)
    then thrown text
    else ok (record { addr = addr; name = name })

module _ {H : Type 0} where
  post_to : Option Manager → UserTask → Context H → Outcome (Context H)
  post_to none t s = null_deref
  post_to (some stopping) t s = ok s
  post_to (some accepting) t s = ok (record s { posted = s.posted ++ t ∷ [] })

  -- `user_post`: a manager that stops drops the task.
  unfoldable pub user_post : UserTask → Context H → Outcome (Context H)
  unfolding post_to
  user_post t s = post_to s.thread_manager t s

  -- `set_context`, `on_init` and `set_self_addr` on the actor's object, and the next id. `on_init` is
  -- recorded; it is assumed to return and to make no call of the context.
  introduce : ActorPtr → Address → UserContext → Context H → Context H
  unfolding set_context set_self_addr id_inc
  introduce a result uc s = record s {
    next_actor_id = id_inc s.next_actor_id;
    objects = update s.objects a (set_self_addr result (set_context (some uc) (s.objects a)));
    events = on_init a ∷ s.events;
  }

  describe :
      Program H
      → Str
      → ActorPtr
      → Str
      → IdT
      → Option IdT
      → Context H
      → Outcome (Pending × Context H)
  unfolding describe_as introduce user_context to_string slash
  describe program actor_name a parent_name parent parent_description s =
      let result : Address = record {
        id = s.next_actor_id;
        pathname = parent_name ++ (slash ++ actor_name);
      } in
      user_context program.double_checks program.ensure_text result
        (s.name ++ (usercontext_infix ++ to_string s.next_actor_id))
      >>= λ uc. ok (describe_as a result parent parent_description uc, introduce a result uc s)

  -- `_actors[id]` of a missing id makes a null entry, which is read through in the next line.
  below_parent :
      Program H
      → Str
      → ActorPtr
      → IdT
      → Option Description
      → Context H
      → Outcome (Pending × Context H)
  unfolding describe
  below_parent program actor_name a p none s = null_deref
  below_parent program actor_name a p (some pd) s =
      describe program actor_name a pd.name p (some p) s

  -- The first part of `add_actor`, up to the second critical section.
  unfoldable pub add_begin :
      Program H → Str → Address → ActorPtr → Context H → Outcome (Pending × Context H)
  unfolding below_parent address_empty
  add_begin program actor_name parent a s =
      let cur_parent = if address_empty parent then s.usr_root else parent in
      if address_empty cur_parent
      then describe program actor_name a [] no_id none s
      else below_parent program actor_name a cur_parent.id (lookup cur_parent.id s.actors) s

  -- The second critical section.
  unfoldable pub register : Pending → Context H → Context H
  unfolding adopt insert_child
  register p s = record s {
    actors = insert p.new_id p.description (adopt p.parent_description p.new_id s.actors);
    id_by_name = insert p.description.name p.new_id s.id_by_name;
    mboxes = insert p.new_id s.next_box s.mboxes;
    boxes = update s.boxes s.next_box no_mail;
    next_box = s.next_box + 1;
  }

  -- The rest of `add_actor`.
  unfoldable pub add_commit : Pending → Context H → Outcome (Address × Context H)
  unfolding register user_post
  add_commit p s = user_post (start_actor p.description.actor) (register p s) >>= λ s'.
      ok (p.description.address, s')

  -- `add_actor(name, parent, a)` with nothing in between.
  unfoldable pub add_actor :
      Program H → Str → Address → ActorPtr → Context H → Outcome (Address × Context H)
  unfolding add_begin add_commit
  add_actor program actor_name parent a s =
      add_begin program actor_name parent a s >>= λ (p, s'). add_commit p s'
