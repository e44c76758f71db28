-- ===== src/Lib.antt =====
-- yaaf, an actor framework: a model of libyaaf and theorems about it.
--
-- A context keeps a registry of actors in a tree, a mailbox for each and named exchanges. Senders push
-- envelopes into mailboxes and exchanges; a worker on the system's threads copies what was published
-- into the subscribers' mailboxes and posts a task for each actor with mail that it can lock; a user
-- thread runs the task, which hands the actor its mail and asks its parent what to do when a handler has
-- thrown.
--
-- The files, with the code that each models:
-- - Common and its children: shared names, Boolean tests, equality as an instance, association lists
--   for `std::unordered_map`, and `Outcome`, what a call ends in: a value, an exception with its text,
--   a null pointer that is read through, or, in the model only, fuel that is used up.
-- - Address: libyaaf/types.h and libyaaf/actor_address.h.
-- - Payload, Payload/Typed: libyaaf/payload.h and libyaaf/envelope.h.
-- - Mailbox: libyaaf/mailbox.h. Mailbox/Fifo has its laws.
-- - Actor, Actor/Apply: libyaaf/actor.h and libyaaf/actor.cpp. Actor/Lock and Actor/Delivery are about
--   `try_lock` and `apply`.
-- - Context and its children: libyaaf/context.h and libyaaf/context.cpp. State is the class's fields
--   with the heap behind its pointers and the tasks not yet run; Add, Stop, Lookup, Send, Exchanges,
--   Worker, Supervision, User and Lifecycle are the operations. Registry states well-formedness, and
--   its children show what keeps it and what breaks it. Runs is the step relation of whole
--   operations, from `start` on, Runs/Interleaved the one with threads between the critical sections
--   of `add_actor`, and Sound and Calm state what each of them keeps, by way of Frame,
--   which carries a relation from the operations over to the tasks. Delivery follows an envelope
--   from its sender to the handler.
-- - Serialization: libyaaf/serialization/helpers.h and libyaaf/serialization/serialization.h. Network:
--   libyaaf/network/kinds.h and libyaaf/network/queries.h. Network/Values, Network/Links and
--   Network/Actors: libyaaf/context_network.h, libyaaf/context_network.cpp and the network's part of
--   libyaaf/context.cpp. Network/Arrival is about messages between contexts.
-- - Async/Pool, Async/Manager and Async/Locker: libyaaf/utils/async. Logger: libyaaf/utils/logger.h,
--   libyaaf/utils/logger.cpp and libyaaf/utils/exception.h. Strings: libyaaf/utils/strings.h and
--   libyaaf/utils/strings.cpp.
-- - Examples/PingPong: examples/ping_pong_example.cpp, a program that runs on the modelled context. Court
--   is its states, Opening, Strokes and Rally what the steps do to them.
-- - Examples/Echo, Examples/Echo/Main: examples/network_example.cpp, on two modelled contexts with their
--   network. Trip is what each handler does, Return the way of the bytes through both contexts.
-- - Tests: runs at concrete inputs.
--
-- An operation under a lock is one function on the state. Where locks are released in between, the
-- parts are functions of their own: `add_begin` and `add_commit` for `add_actor`, and the parameter of
-- `mailbox_worker` that acts in its gaps. The pool's threads are a step relation, in which each
-- critical section, the unlocking of a result and the lowering of the atomic counter are steps of
-- their own. What an actor's author writes is the record `Program`. A method is a `Method`: a call
-- through the context, what follows on its answer, and the exception that ends it; it may depend on
-- everything that was handed to methods before. `action_handle` and `on_start` are methods. Of the
-- other virtual methods it is assumed that they return, throw nothing and make no call of the context:
-- `on_init`, `on_child_status` and `on_child_stopped` are recorded, `on_stop` may change the actor's
-- own object, and `on_child_error` decides. What an exception out of `on_stop` or a call in `on_init`
-- does is thus outside of the theorems.
--
-- Integers are natural numbers with wrap-around written out: ids modulo 2 ^ 64, stored lengths modulo
-- 2 ^ 32. `stop_actor` runs on as much fuel as ids were given out, and `drain` on one round more than
-- the exchange has envelopes. The `int` of the ping-pong example goes up to `int_max`, and an overflow
-- is a crash. `apply` is given fuel above the number of its envelopes.
--
-- The `>>` of the stream that `tokens` reads is an argument, and so are the locale's case maps.
-- libdialler is an argument, too, and the calls that are made of it are recorded in the state; what a
-- context receives from it is an argument of `lst_on_new_message` and `con_on_new_message`.
--
-- Not modelled: the threads that poll libdialler, the `on_stop` of the network's actors within
-- `stop_actor` and `stop` (they are functions of their own), the calls that the other parts make of the
-- logger, the texts of their exceptions, the settings of actors, which are empty, condition variables,
-- and the deadlocks that the locks allow. An actor's weak pointer to its `user_context` stays valid in
-- the model until `stop`; in the code it is null as soon as nothing holds the actor's description.
pub mod Common
pub mod Address
pub mod Payload
pub mod Mailbox
pub mod Actor
pub mod Context
pub mod Serialization
pub mod Network
pub mod Async
pub mod Logger
pub mod Strings
pub mod Examples
pub mod Tests
