-- ===== src/Async.antt =====
-- libyaaf/utils/async: tasks, pools of threads and the manager of pools.
pub mod Pool
pub mod Manager
pub mod Locker
