-- ===== src/Sim.antt =====
-- tools/vmc_sim/main.c: the network simulator, which sends access units and audio to the client and
-- answers its keepalives.
pub mod Delivery
pub mod Fragments
pub mod Send
pub mod Units
pub mod Scan
pub mod Answer
mod Tests
