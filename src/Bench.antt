-- ===== src/Bench.antt =====
-- rig/alteriom_hil: what talks to one board on its serial port.
pub mod Client
pub mod Agent
mod Tests
