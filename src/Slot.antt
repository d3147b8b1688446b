-- ===== src/Slot.antt =====
-- node/src/slot: one run of the handlers of a slot. `State` has the slot's context and the node's
-- shared parts, `Wait` the condition variables, `Steps` the handlers that do not wait, `Waiters`
-- those that do, and `Handler` the loop of slot::SlotHandler::handle; `TimerWheel` starts the slots.
pub mod State
pub mod Wait
pub mod Steps
pub mod Waiters
pub mod Handler
pub mod TimerWheel
