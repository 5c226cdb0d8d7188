-- ===== src/Sim/Send.antt =====
-- tools/vmc_sim/main.c: sending an access unit or an audio block to the client. The packet buffer of
-- the stack is an argument. What `should_drop` answers is an argument too, by the number of the
-- datagram within the access unit. The result holds what goes to `udp_send`.
use remote_avapps.Base.{
  ℕ, zero, suc, ◌+◌, ltb, leb, if◌then◌else◌, min, bit_and, bit_or, u16, u32, u64, Bool, false, not,
  ◌&&◌, List, [], ◌∷◌, ◌++◌, length, take, drop, replicate, some,
}
use remote_avapps.Base.Blocks.{store}
use remote_avapps.Protocol.{
  Header, header_size, magic_value, version_value, Encoded, written, failed, encode,
}
use remote_avapps.Fragment.{hdr_pack, last_flag}

-- `SIM_CHUNK`
abbrev pub chunk_size : ℕ
chunk_size = 1400

-- `sizeof(pkt)` in `send_au`
abbrev pub packet_cap : ℕ
packet_cap = 1421

-- `SIM_AUDIO_FRAME_BYTES`
abbrev pub audio_frame_bytes : ℕ
audio_frame_bytes = 960

-- The members of `sim_ctx` that the senders use.
pub record SimCtx : Type 0 where
  pub have_client : Bool
  pub video_seq : ℕ
  pub audio_seq : ℕ
  pub audio_frames : ℕ

-- The flags VMC_PROTO_FLAG_KEYFRAME and VMC_PROTO_FLAG_FRAGMENTED.
abbrev pub key_flag : Bool → ℕ
key_flag key = if key then 2 else 0

-- The header that `send_au` fills in.
abbrev pub video_header : ℕ → ℕ → ℕ → ℕ → Header
video_header flags len seq ts = record {
  magic = magic_value;
  version = version_value;
  flags = flags;
  stream = 1;
  reserved = 0;
  payload_len = len;
  seq = seq;
  ts_us = ts;
  crc = 0;
}

-- What is sent of the packet buffer, and the packet buffer.
unfoldable pub emit : Encoded → Bool → List ℕ → List (List ℕ) × List ℕ
emit (failed st) drops pkt = ([], pkt)
emit (written n out) drops pkt = if ltb 0 n && not drops then (take n out ∷ [], out) else ([], out)

-- `fh_idx` in `send_au`
unfoldable pub fh_idx : ℕ → Bool → ℕ
fh_idx idx last = u16 (if last then bit_or idx last_flag else idx)

-- The packet buffer with a fragment's header and chunk at the place of the payload.
unfoldable pub put_fragment : List ℕ → ℕ → ℕ → Bool → List ℕ → List ℕ
unfolding fh_idx
put_fragment pkt frame_id idx last chunk =
    let headed = store pkt header_size (hdr_pack (replicate 4 0) frame_id (fh_idx idx last)) in
    store headed (header_size + 4) chunk

-- One turn of the loop over the fragments, for a chunk. The payload is where it already lies in the
-- packet buffer.
unfoldable pub send_fragment :
    List ℕ → Bool → ℕ → ℕ → ℕ → ℕ → Bool → List ℕ → Bool → List (List ℕ) × List ℕ
unfolding emit put_fragment
send_fragment pkt key ts seq frame_id idx last chunk drops =
    let pkt' = put_fragment pkt frame_id idx last chunk in
    emit
      (encode (some pkt') packet_cap
        (some (video_header (4 + key_flag key) (u16 (4 + length chunk)) seq ts))
        (some (drop header_size pkt')))
      drops pkt'

-- The loop over the fragments. `au` is the rest of the access unit, `n` counts the datagrams; the
-- result holds the datagrams and the next number. The fuel is its length, and each turn takes a byte
-- or more.
unfoldable pub send_fragments :
    ℕ → List ℕ → Bool → ℕ → ℕ → ℕ → ℕ → List ℕ → (ℕ → Bool) → ℕ → List (List ℕ) × ℕ
unfolding send_fragment
send_fragments zero pkt key ts seq frame_id idx au drops n = ([], seq)
send_fragments (suc fuel) pkt key ts seq frame_id idx [] drops n = ([], seq)
send_fragments (suc fuel) pkt key ts seq frame_id idx (x ∷ xs) drops n =
    let au = x ∷ xs in
    let cl = min (length au) chunk_size in
    let (sent, pkt') =
      send_fragment pkt key ts seq frame_id idx (leb (length au) cl) (take cl au) (drops n) in
    let (more, seq') =
      send_fragments fuel pkt' key ts (u32 (seq + 1)) frame_id (u16 (idx + 1)) (drop cl au) drops
        (n + 1) in
    (sent ++ more, seq')

-- An access unit that fits a datagram.
unfoldable pub send_whole : List ℕ → Bool → ℕ → ℕ → List ℕ → Bool → List (List ℕ)
unfolding emit
send_whole pkt key ts seq au drops =
    (emit
      (encode (some pkt) packet_cap (some (video_header (key_flag key) (u16 (length au)) seq ts))
        (some au))
      drops pkt).0

-- `send_au`
unfoldable pub send_au : SimCtx → List ℕ → List ℕ → Bool → ℕ → (ℕ → Bool) → List (List ℕ) × SimCtx
unfolding send_whole send_fragments
send_au c pkt au key ts drops =
    let (sent, seq) =
      send_fragments (length au) pkt key ts c.video_seq (u16 (bit_and c.video_seq 0xffff)) 0 au
        drops 0 in
    if not c.have_client
    then ([], c)
    else if leb (length au) chunk_size
    then (
      send_whole pkt key ts c.video_seq au (drops 0),
      record c { video_seq = u32 (c.video_seq + 1) },
    )
    else (sent, record c { video_seq = seq })

-- The header that `send_audio` fills in.
abbrev pub audio_header : ℕ → ℕ → Header
audio_header seq ts = record {
  magic = magic_value;
  version = version_value;
  flags = 0;
  stream = 2;
  reserved = 0;
  payload_len = audio_frame_bytes;
  seq = seq;
  ts_us = ts;
  crc = 0;
}

-- `send_audio`, with the packet buffer of its stack.
unfoldable pub send_audio : SimCtx → List ℕ → List ℕ → ℕ → List (List ℕ) × SimCtx
unfolding emit
send_audio c pkt pcm ts =
    let c' = record c { audio_seq = u32 (c.audio_seq + 1) } in
    let (sent, pkt') =
      emit
        (encode (some pkt) (header_size + audio_frame_bytes) (some (audio_header c.audio_seq ts))
          (some pcm))
        false pkt in
    if not c.have_client
    then ([], c)
    else (sent, record c' { audio_frames = u64 (c.audio_frames + length sent) })
