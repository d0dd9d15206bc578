-- ===== src/Scheduler.antt =====
-- scheduler/scheduler.c and scheduler/scheduler.h: the cooperative task table.
-- `Table` has the data and the functions that change the table, `Run` those that run tasks.
pub mod Table
pub mod Run
pub mod Invariant
pub mod Slots
pub mod Running
pub mod Reach
pub mod Add
pub mod Fairness
mod Tests
