-- ===== src/Sim/Units.antt =====
-- tools/vmc_sim/main.c: the access units of a raw H.264 file: NAL units are found by their start
-- codes, and a new access unit starts with each coded slice.
use remote_avapps.Base.{
  ℕ, zero, suc, ◌+◌, ◌-◌, ◌==◌, ltb, leb, if◌then◌else◌, bit_and, u64, Bool, true, false, ◌&&◌,
  List, [], ◌∷◌, take, drop, Option, none, some,
}
use remote_avapps.Base.Blocks.{store}
use remote_avapps.Wire.{byte_at}

-- `au_asm`
pub record AuAsm : Type 0 where
  pub au : List ℕ
  pub au_len : ℕ
  pub au_cap : ℕ
  pub pend : List ℕ
  pub pend_len : ℕ
  pub pend_cap : ℕ
  pub key : Bool
  pub have : Bool

-- `au_asm_reset`
unfoldable pub au_asm_reset : AuAsm → AuAsm
au_asm_reset st = record st { au_len = 0; pend_len = 0; have = false; key = false }

-- `au_append`: the answer, the buffer and its length.
unfoldable pub au_append : List ℕ → ℕ → ℕ → List ℕ → ℕ → Bool × List ℕ × ℕ
au_append dst len cap bytes n =
    if ltb cap (u64 (len + n))
    then (false, dst, len)
    else (true, store dst len (take n bytes), u64 (len + n))

-- Two calls of `au_append` for the access unit.
unfoldable pub append_au : AuAsm → List ℕ → ℕ → AuAsm
unfolding au_append
append_au st bytes n =
    let (fits, au, len) = au_append st.au st.au_len st.au_cap bytes n in
    record st { au = au; au_len = len }

unfoldable pub append_pend : AuAsm → List ℕ → ℕ → AuAsm
unfolding au_append
append_pend st bytes n =
    let (fits, pend, len) = au_append st.pend st.pend_len st.pend_cap bytes n in
    record st { pend = pend; pend_len = len }

-- `start3` or `start4`
abbrev pub start_code : ℕ → List ℕ
start_code slen = if slen == 3 then 0 ∷ 0 ∷ 1 ∷ [] else 0 ∷ 0 ∷ 0 ∷ 1 ∷ []

-- The units that wait go in front of the access unit.
unfoldable pub take_pend : AuAsm → AuAsm
unfolding append_au
take_pend st =
    if ltb 0 st.pend_len then record (append_au st st.pend st.pend_len) { pend_len = 0 } else st

-- A NAL unit with its start code is appended.
unfoldable pub append_nal : AuAsm → ℕ → List ℕ → ℕ → AuAsm
unfolding append_au append_pend take_pend
append_nal st slen body body_len =
    let t = bit_and (byte_at body 0) 0x1f in
    if leb 1 t && leb t 5
    then append_au
        (append_au (take_pend (record st { have = true; key = t == 5 })) (start_code slen) slen)
        body body_len
    else if st.have
    then append_au (append_au st (start_code slen) slen) body body_len
    else append_pend (append_pend st (start_code slen) slen) body body_len

-- `au_feed`: the state, and the access unit that is complete with its key flag. The NAL unit that
-- completes it is not consumed.
unfoldable pub au_feed : AuAsm → ℕ → List ℕ → ℕ → AuAsm × Option (List ℕ × Bool)
unfolding append_nal au_asm_reset
au_feed st slen body body_len =
    let t = bit_and (byte_at body 0) 0x1f in
    if body_len == 0
    then (st, none)
    else if leb 1 t && leb t 5 && st.have
    then (au_asm_reset st, some (take st.au_len st.au, st.key))
    else (append_nal st slen body body_len, none)

-- The loop of `find_start` from index `i` on, with `left` indices to try: where a start code is, and
-- its length.
unfoldable pub scan_start : ℕ → List ℕ → ℕ → ℕ → Option (ℕ × ℕ)
scan_start zero buf len i = none
scan_start (suc left) buf len i =
    let rest = scan_start left buf len (i + 1) in
    if ltb len (i + 3)
    then none
    else if byte_at buf i == 0 && byte_at buf (i + 1) == 0 && byte_at buf (i + 2) == 1
    then some (i, 3)
    else if leb (i + 4) len
        && byte_at buf i == 0
        && byte_at buf (i + 1) == 0
        && byte_at buf (i + 2) == 0
        && byte_at buf (i + 3) == 1
    then some (i, 4)
    else rest

-- `find_start`; it tries fewer than `len` indices.
unfoldable pub find_start : List ℕ → ℕ → ℕ → Option (ℕ × ℕ)
unfolding scan_start
find_start buf len from = scan_start (len - from) buf len from

abbrev pub Processed : Type 0
Processed = ℕ × AuAsm × Option (List ℕ × Bool)

-- One turn of the loop of `process_nalus` for a NAL unit from `sc` to `nxt`; `rest` is the rest of
-- the loop.
abbrev pub after_feed : ℕ → AuAsm × Option (List ℕ × Bool) → Processed → Processed
after_feed sc (st, some out) rest = (sc, st, some out)
after_feed sc (st, none) rest = rest

-- The loop of `process_nalus` from `pos` on: where it stops, the state, and the access unit that is
-- complete. A turn goes on behind the NAL unit, so that the length of the buffer is fuel enough.
unfoldable pub process_from : ℕ → AuAsm → List ℕ → ℕ → ℕ → Processed
unfolding au_feed find_start
process_from zero st buf len pos = (pos, st, none)
process_from (suc fuel) st buf len pos =
    if ltb len (pos + 4) then (pos, st, none) else elim (find_start buf len pos) [
      | none ↦ (pos, st, none)
      | some (sc, slen) ↦ elim (find_start buf len (sc + slen)) [
        | none ↦ (pos, st, none)
        | some (nxt, slen2) ↦
            let fed = au_feed st slen (drop (sc + slen) buf) (nxt - (sc + slen)) in
            after_feed sc fed (process_from fuel fed.0 buf len nxt)
      ]
    ]

-- `process_nalus`
unfoldable pub process_nalus : AuAsm → List ℕ → ℕ → Processed
unfolding process_from
process_nalus st buf len = process_from len st buf len 0
