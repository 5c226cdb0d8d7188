-- ===== src/Status.antt =====
-- include/vmc/core/error.h and src/core/error.c: the status codes.
use remote_avapps.Base.{ℕ, Bool, true, false}

-- `vmc_status`, with a constructor for each code that the header defines. A function that
-- returns a positive count beside these has a result type of its own.
pub data Status : Type 0 where
  ok general invalid_arg no_mem no_sys timeout busy io proto corrupt again overrun not_found
        invalid_state not_connected out_of_sync no_media :
      Status

-- The absolute value of the code: the code is 0 or negative.
unfoldable pub code : Status → ℕ
code ok = 0
code general = 1
code invalid_arg = 2
code no_mem = 3
code no_sys = 4
code timeout = 5
code busy = 6
code io = 7
code proto = 8
code corrupt = 9
code again = 10
code overrun = 11
code not_found = 12
code invalid_state = 13
code not_connected = 14
code out_of_sync = 15
code no_media = 16

-- The test `st == VMC_OK`.
abbrev pub is_ok : Status → Bool
is_ok ok = true
is_ok _ = false
