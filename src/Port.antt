-- ===== src/Port.antt =====
-- src/core/port_runtime.c: the state machine of one serial port.
pub mod State
pub mod Machine
pub mod Submit
pub mod Control
pub mod Step
pub mod Invariant
pub mod Flush
pub mod Transitions
pub mod Valid
pub mod Requests
pub mod Admission
pub mod History
pub mod Conservation
pub mod Life
pub mod Turns
pub mod Listener
pub mod Outcomes
