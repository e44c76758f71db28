-- ===== src/Examples.antt =====
-- examples: programs that run on the framework.
pub mod PingPong
pub mod Echo
