-- ===== src/Examples/PingPong/Court.antt =====
-- examples/ping_pong_example.cpp: what its context looks like, before and after both players are there.
use yaaf.Common.{
  ◌≡◌, Bool, false, if◌then◌else◌, some, List, [], ◌∷◌, ◌++◌, Str, arith, fun_ext, ◌==◌, nat_eq,
}
use yaaf.Address.{IdT, Address}
use yaaf.Payload.{Envelope}
use yaaf.Mailbox.{Mailbox, no_mail}
use yaaf.Actor.{BaseActor, UserContext, normal, base_actor}
use yaaf.Context.State.{update, Context, Description, ActorPtr, BoxPtr, UserTask, Event, accepting}
use yaaf.Context.Add.{usercontext_infix}
use yaaf.Examples.PingPong.{
  Ball, root_actor, usr_actor, sys_actor, ping_actor, pong_actor, ping_name, pong_name,
}
use yaaf.Context.Lifecycle.{root_name, usr_name, sys_name}

abbrev below : Str → Str → Str
below parent name = parent ++ (b'/' ∷ name)

abbrev pub root_path : Str
root_path = below [] root_name

abbrev pub sys_path : Str
sys_path = below root_path sys_name

abbrev pub usr_path : Str
usr_path = below root_path usr_name

abbrev pub ping_path : Str
ping_path = below usr_path ping_name

abbrev pub pong_path : Str
pong_path = below ping_path pong_name

abbrev pub at : IdT → Str → Address
at i path = record { id = i; pathname = path }

abbrev pub ping_address : Address
ping_address = at 4 ping_path

abbrev pub pong_address : Address
pong_address = at 5 pong_path

-- The mailboxes, with the mail `p` of the ping actor and `q` of the pong actor.
abbrev pub court_boxes : List (Envelope Ball) → List (Envelope Ball) → BoxPtr → Mailbox Ball
court_boxes p q b =
    if b == 3 then record { dqueue = p } else if b == 4 then record { dqueue = q } else no_mail

pub court_boxes-ping :
    (p q r : List (Envelope Ball))
    → update (court_boxes p q) 3 (record { dqueue = r }) ≡ court_boxes r q
court_boxes-ping p q r = fun_ext (λ j. ground arith)

pub court_boxes-pong :
    (p q r : List (Envelope Ball))
    → update (court_boxes p q) 4 (record { dqueue = r }) ≡ court_boxes p r
court_boxes-pong p q r = fun_ext (λ j. ground arith)

-- The context's name begins with an "s"; `rest` follows it.
module _ (rest : Str) where
  abbrev pub context_name : Str
  context_name = b's' ∷ rest

  abbrev user_context_of : Address → Str → UserContext
  user_context_of a number = record {
    addr = a;
    name = context_name ++ (usercontext_infix ++ number);
  }

  abbrev described : ActorPtr → Address → Str → IdT → List IdT → Description
  described a address number parent children = record {
    actor = a;
    address = address;
    usrcont = some (user_context_of address number);
    name = address.pathname;
    parent = parent;
    children = children;
  }

  abbrev pub ping_description : List IdT → Description
  ping_description children = described ping_actor ping_address (b'4' ∷ []) 2 children

  abbrev pub pong_description : Description
  pong_description = described pong_actor pong_address (b'5' ∷ []) 4 []

  abbrev pub usr_description : Description
  usr_description = described usr_actor (at 2 usr_path) (b'2' ∷ []) 1 (4 ∷ [])

  -- A player's object.
  abbrev pub player : Address → Str → Bool → BaseActor
  player address number busy = record {
    busy = busy;
    status = record { kind = normal; msg = [] };
    sa = address;
    ctx = some (user_context_of address number);
  }

  abbrev pub ping_object : Bool → BaseActor
  ping_object busy = player ping_address (b'4' ∷ []) busy

  abbrev pub pong_object : Bool → BaseActor
  pong_object busy = player pong_address (b'5' ∷ []) busy

  abbrev system_actors : List (IdT × Description)
  system_actors =
      (1, described root_actor (at 1 root_path) (b'1' ∷ []) 0xffff_ffff_ffff_ffff (3 ∷ 2 ∷ []))
      ∷ (2, usr_description)
      ∷ (3, described sys_actor (at 3 (sys_path)) (b'3' ∷ []) 1 [])
      ∷ []

  -- The context with what the lists hold behind the first entries.
  abbrev scene :
      List (IdT × Description)
      → List (Str × IdT)
      → List (IdT × BoxPtr)
      → IdT
      → BoxPtr
      → (ActorPtr → BaseActor)
      → (BoxPtr → Mailbox Ball)
      → List UserTask
      → List (Event Ball)
      → Context Ball
  scene actors names mboxes next_id next_box objects boxes posted events = record {
    name = context_name;
    thread_manager = some accepting;
    next_actor_id = next_id;
    actors = system_actors ++ actors;
    id_by_name = (root_path, 1) ∷ (usr_path, 2) ∷ (sys_path, 3) ∷ (ping_path, 4) ∷ names;
    mboxes = (1, 0) ∷ (2, 1) ∷ (3, 2) ∷ (4, 3) ∷ mboxes;
    exchanges = [];
    stopping_begin = false;
    root = at 1 root_path;
    usr_root = at 2 usr_path;
    sys_root = at 3 (sys_path);
    objects = objects;
    boxes = boxes;
    next_box = next_box;
    posted = posted;
    events = events;
  }

  -- Before `ping_actor::on_start`, and after it. `others` are the objects that do not play, `p` is the
  -- mail of the ping actor and `q` that of the pong actor.
  abbrev pub opening_objects : (ActorPtr → BaseActor) → ActorPtr → BaseActor
  opening_objects others a =
      if a == ping_actor
      then ping_object false
      else if a == pong_actor
      then base_actor
      else others a

  abbrev pub opening : (ActorPtr → BaseActor) → List UserTask → List (Event Ball) → Context Ball
  opening others =
      scene ((4, ping_description []) ∷ []) [] [] 5 4 (opening_objects others) (λ b. no_mail)

  abbrev pub court_objects : (ActorPtr → BaseActor) → Bool → Bool → ActorPtr → BaseActor
  court_objects others ping_busy pong_busy a =
      if a == ping_actor
      then ping_object ping_busy
      else if a == pong_actor
      then pong_object pong_busy
      else others a

  abbrev pub court :
      (ActorPtr → BaseActor)
      → Bool
      → Bool
      → List (Envelope Ball)
      → List (Envelope Ball)
      → List UserTask
      → List (Event Ball)
      → Context Ball
  court others ping_busy pong_busy p q =
      scene ((4, ping_description (5 ∷ [])) ∷ (5, pong_description) ∷ []) ((pong_path, 5) ∷ [])
        ((5, 4) ∷ []) 6 5 (court_objects others ping_busy pong_busy) (court_boxes p q)

  -- Writes to the two players and to their mailboxes.
  module _ (others : ActorPtr → BaseActor) where
    pub opening_objects-pong :
        update (opening_objects others) pong_actor (pong_object false)
        ≡ court_objects others false false
    opening_objects-pong = fun_ext (λ a. ground arith)

    pub court_objects-ping :
        (a b c : Bool)
        → update (court_objects others a b) ping_actor (ping_object c) ≡ court_objects others c b
    court_objects-ping a b c = fun_ext (λ j. ground arith)

    pub court_objects-pong :
        (a b c : Bool)
        → update (court_objects others a b) pong_actor (pong_object c) ≡ court_objects others a c
    court_objects-pong a b c = fun_ext (λ j. ground arith)
