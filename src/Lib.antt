-- ===== src/Lib.antt =====
-- The thin client of the remote audio and video system: its protocol, session and queue layers, in
-- C. The library models the portable core of the client, one module per source file, with the two
-- simulators that serve it, and proves how each part behaves.
--
-- The parts and how they interact. A datagram of the server is a header of 17 bytes and a payload
-- with a CRC-8 (the protocol). Received packets go through the jitter buffer, which orders them by
-- their sequence number and hands one out when it has been held for the target delay. A video
-- payload is a fragment, and the assembler joins the fragments of a frame to an access unit. Input
-- events go the other way: they are collected in a batch, serialized, and framed. The session
-- machine tells when to connect, stream and reconnect. The mixer adds up to eight stereo sources of
-- samples. A session context drives the machine over a transport: it sends keepalives, which it
-- encodes as datagrams of the protocol, and reports the link lost when none has come for too long.
-- The byte ring is the queue between a producer and a consumer of bytes. The thin client joins
-- these parts in its main loop, and passes complete access units through a pool of slots to the
-- decode worker and then through a queue to the display, on a timeline that follows the audio. The
-- network simulator plays the server: it cuts a video file into access units, sends them as
-- fragments, and answers keepalives. The DASH simulator serves the manifest and the segments of a
-- live stream over HTTP, whole or in chunks while they grow, and the client fetches them. Telemetry
-- lines go through a ring of slots to a writer, which sends them as datagrams of the protocol.
--
-- Which file models what:
-- - Status: the codes of include/vmc/core/error.h.
-- - Wire: `rd16`, `rd32`, `wr16` and `wr32`, the little-endian numbers of src/transport/protocol.c;
--   the batch has copies of its own that are the same code.
-- - Protocol: src/transport/protocol.c; `encode`, `decode_header` and `decode` are
--   `vmc_proto_encode`, `vmc_proto_decode_header` and `vmc_proto_decode`, and `crc8_update` is the
--   loop of the CRC.
-- - Session: src/session/state.c; `dispatch` is `vmc_session_dispatch`, and it returns the
--   callbacks that it makes as a list. Session/Graph has the diagram of the states, Session/Traces
--   runs of events, Session/Paths the events that a stream needs.
-- - Fragment: src/video/fragment.c; `feed` is `vmc_frag_feed`. Fragment/Spec has the specification,
--   which holds the chunks of one frame as a list of bytes.
-- - Ring: src/core/ringbuf.c, with an operation of the same name for each function; its abstract
--   view is the list of the bytes held.
-- - Batch: src/input/batch.c; `push`, `serialize` and `deserialize`.
-- - Jitter: src/transport/jitter_buffer.c; `push`, `peek`, `consume` and `flush_before` are the
--   functions `vmc_jb_` of these names.
-- - Context: src/session/session.c; `step`, `on_rx`, `start` and `stop` are the functions
--   `vmc_session_` of these names, on top of the session machine and the protocol.
-- - Mixer: src/audio/mixer.c; `mix` returns the samples that `vmc_mixer_mix` writes, as integers.
-- - Client: apps/thinclient/main.c. Client/Latency has the `latency_` functions, Client/Slots the
--   frame slots (`slot_take_write`, `slot_publish`, `slot_release`, `dash_publish_au`) and the
--   choice of `decode_worker`, Client/Slots/Pool the steps of the threads on the slots between two
--   locks, Client/Present the queue of `present_push` and `present_pop`, Client/Timeline
--   `dash_pres_clock`, `dash_au_deadline`, `dash_resync` and `dash_update_live_buffer`.
--   Client/Receive, Client/Play and Client/Uplink are the three parts of the main loop: datagrams
--   to the jitter buffer, fragments to the frame slots, and input events to datagrams. Client/Http
--   is `http_get` from the reception of the response on: Client/Http/Receive has the loop that
--   receives, Client/Http/Response the header, Client/Http/Chunked the decoder of chunks.
--   Client/Manifest is `dash_load_manifest`; the memory behind a body, which has no terminator, is
--   an argument of it.
-- - Sim: tools/vmc_sim/main.c. Sim/Send has `send_au` and `send_audio`, Sim/Units the assembly of
--   access units from NAL units (`au_feed`, `find_start`, `process_nalus`), Sim/Answer
--   `drain_media`. Sim/Fragments and Sim/Delivery follow an access unit from `send_au` over the
--   protocol, a slot of the jitter buffer and the playout to the assembler.
-- - DashSim: tools/vmc-dash-sim/main.c; `serve_full`, `serve_progressive` and `http_headers` return
--   what they write to the socket. DashSim/Requests has `conn_handler` and `newest_seg`,
--   DashSim/Patch `patch_mpd_static`, with what the calls on the file do as a record.
--   DashSim/Static follows the manifest from the server to the client's load. DashSim/Delivery and
--   DashSim/Whole follow a segment from the server to the client's fetch.
-- - Telemetry: src/core/telemetry.c; `put_line` is the part of `vmc_tlm_emit` from the reservation
--   on, `drain` the inner loop of `tlm_writer`, `sink_datagram` the datagram of `tlm_write_sinks`.
-- - Evdev: `evdev_poll` of src/input/evdev_input.c. Udp: src/transport/udp_transport.c and the
--   counters of transport.c. Mapper: src/session/mapper.c. Pipeline: src/audio/pipeline.c.
-- - Scanout: src/video/drm_scanout.c; `next_idx`, `present` and `flip_handler`.
-- - Base: what they share: tests into Bool, lists of bytes, machine words, bits, blocks of memory,
--   signed integers, and texts with the functions of the C library that print numbers to them and
--   read them.
--
-- How the code is modelled. Memory that a function is given is a list of bytes, and a store returns
-- the list as it is left. A pointer that the code tests for NULL is an option; where a module does
-- not test one its header says so. A machine integer is a natural number with its wrap-around
-- written out (u16, u32, u64, sub32, sub64), and `sz_t` has 64 bits. A status with outputs is a
-- tuple or a type with a case for each. Callbacks are code of the application: the machine records
-- which of them are set. The clocks are arguments, and packets that are handed to the transport are
-- returned.
--
-- Bounds. Every loop is structural recursion: over the 8 bits of a byte and the bytes of a list in
-- the CRC, over the slots of the jitter buffer (256), over the events of a batch (32 at most), over
-- the sources (8) and the samples of a mix, so no fuel is used; nor is it in the pools of frame
-- slots (512), the present queue (128) or the buckets of the latencies (128). Fuel stands for the
-- loop over the fragments of an access unit (its length: each turn takes a byte), for the search of
-- a start code (the indices that are left), for the loop over the NAL units (the length of the
-- buffer), for the decoder of chunks (one more than the bytes of the response: each turn takes one;
-- without fuel it returns a value of its own), for the doubling of a capacity (64 turns, after
-- which a word that is doubled is 0), for the digits of a number (16 and 20, those of a 64-bit
-- number), for the attempts of the mapper (one more than the retries), for the drain of the
-- telemetry ring (the cursors between tail and head, of 16384 slots) and for the search of a
-- display buffer (their number).
--
-- What is not modelled: the decoder, the frame-buffer display, the audio sink, and the logger; of
-- the application the audio queue and worker, the readers of segments, the connection of a fetch,
-- the present worker and the decoding itself; of both simulators their child processes and pacing;
-- of telemetry the texts, the file and the parsing of the destination. The name tables of the
-- session and the texts of the status codes only serve logs. The times of a manifest, which the
-- code reads with `double` numbers, and what sockets, files, devices, clocks, `sscanf` and
-- `snprintf` of a text return are parameters of the definitions that use them. Threads are steps in
-- an order: what is done between a lock and its unlock is one step, and so is a call of
-- `vmc_tlm_emit`, whose interleaving with another producer between its reservation and its copy is
-- left out.
pub mod Base
pub mod Status
pub mod Wire
pub mod Protocol
pub mod Session
pub mod Ring
pub mod Batch
pub mod Jitter
pub mod Fragment
pub mod Context
pub mod Mixer
pub mod Client
pub mod Sim
pub mod Telemetry
pub mod Evdev
pub mod Udp
pub mod Mapper
pub mod Scanout
pub mod Pipeline
pub mod DashSim
