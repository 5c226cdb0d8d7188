-- ===== src/Client.antt =====
-- apps/thinclient/main.c: the state that the threads of the thin client share, and the functions
-- that work on it. A mutex makes each of them one step; what waits on a condition returns `none`,
-- for the caller to be run again. Sockets, threads, the decoder and the log are left out.
pub mod Receive
pub mod Play
pub mod Uplink
pub mod Latency
pub mod Slots
pub mod Present
pub mod Timeline
pub mod Http
pub mod Manifest
