-- ===== src/Utils.antt =====
-- source/utils: the reference count of tracked objects, the pool of objects and the pauses.
pub mod IntrusiveTracked
pub mod ObjectPool
pub mod SleepTimer
pub mod StopTimer
