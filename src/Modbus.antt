-- ===== src/Modbus.antt =====
-- src/modbus: the frames of Modbus, over TCP and on the serial line.
pub mod Crc
pub mod Mbap
pub mod Adapter
pub mod Dispatcher
