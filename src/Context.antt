-- ===== src/Context.antt =====
-- libyaaf/context.h and libyaaf/context.cpp: `context`, the registry of actors, their mailboxes and
-- the exchanges. The state and the operations are in the children named for them.
pub mod State
pub mod Add
pub mod Stop
pub mod Lookup
pub mod Send
pub mod Exchanges
pub mod Worker
pub mod User
pub mod Supervision
pub mod Registry
pub mod Frame
pub mod Sound
pub mod Calm
pub mod Runs
pub mod Delivery
pub mod Lifecycle
