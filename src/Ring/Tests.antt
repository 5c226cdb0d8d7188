-- ===== src/Ring/Tests.antt =====
-- Runs of src/core/ringbuf.c, and its theorems at concrete inputs.
use remote_avapps.Base.{◌-◌, ◌^◌, ◌≡◌, refl, arith, [], ◌∷◌, take, drop, some, true}
use remote_avapps.Base.Blocks.{store}
use remote_avapps.Status.{invalid_arg}
use remote_avapps.Ring.{
  RingBuf, rb_mask, capacity, free, room_from, first_part, is_pow2_or_zero, init, write, read,
}
use remote_avapps.Ring.Valid.{IsValid}
use remote_avapps.Ring.Contents.{contents}
use remote_avapps.Ring.Write.{write_lem}
use remote_avapps.Ring.Read.{read_lem, out_bytes}

-- Eight bytes of storage; 5 and 6 lie at the end, and the offsets are about to wrap.
abbrev near_end : RingBuf
near_end = record {
  bytes = 0 ∷ 0 ∷ 0 ∷ 0 ∷ 0 ∷ 5 ∷ 6 ∷ 0 ∷ [];
  mask = 7;
  head = 2 ^ 64 - 1;
  tail = 2 ^ 64 - 3;
  count = 2;
}

near_end-IsValid : IsValid near_end
near_end-IsValid = record {
  bits = 3;
  bits_small = omega arith;
  power = refl;
  storage = omega arith;
  count_in = omega arith;
  head_ahead = refl;
}

-- The write goes round the end of the storage.
write_wraps :
    write near_end (7 ∷ 8 ∷ 9 ∷ []) 3
    ≡ (3, record near_end { bytes = 8 ∷ 9 ∷ 0 ∷ 0 ∷ 0 ∷ 5 ∷ 6 ∷ 7 ∷ []; head = 2; count = 5 })
unfolding write free capacity first_part room_from rb_mask store
write_wraps = refl

init_refuses_six : (init near_end (some near_end.bytes) 6).0 ≡ invalid_arg
unfolding init is_pow2_or_zero
init_refuses_six = refl

write_lem_example :
    let (n, rb') = write near_end (7 ∷ 8 ∷ 9 ∷ []) 3 in
    (n ≡ 3) × (contents rb' ≡ 5 ∷ 6 ∷ take n (7 ∷ 8 ∷ 9 ∷ [])) × IsValid rb'
write_lem_example = write_lem near_end (7 ∷ 8 ∷ 9 ∷ []) 3 near_end-IsValid (omega arith)

read_lem_example :
    let (k, got, rb') = read near_end true 5 in
    (k ≡ 2)
    × (out_bytes got ≡ take k (5 ∷ 6 ∷ []))
    × (contents rb' ≡ drop k (5 ∷ 6 ∷ []))
    × IsValid rb'
read_lem_example = read_lem near_end near_end-IsValid 5
