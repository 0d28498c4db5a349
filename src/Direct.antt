-- ===== src/Direct.antt =====
-- api/protocols/elfin_tcp.py, api/protocols/serial_uart.py and api/adapters/voltronic.py: PI30 over a
-- TCP bridge or a serial line.
pub mod Collector
mod Tests
