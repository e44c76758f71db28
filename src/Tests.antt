-- ===== src/Tests.antt =====
-- Runs of the code of libyaaf at concrete inputs.
mod PingPong
mod Data
mod Registry
mod Exchanges
mod Actors
mod Bytes
mod Pool
mod Runs
mod Within
mod Echo
mod Network
mod Locker
mod Logger
mod Delivery
