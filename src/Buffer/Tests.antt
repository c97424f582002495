-- ===== src/Buffer/Tests.antt =====
-- Runs of the buffer's operations, and its theorems at concrete buffers.
use bounce.Prelude.{some, ◌≡◌, refl, List, [], ◌∷◌, arith}
use bounce.Prelude.Int.{pos, negsuc}
use bounce.Prelude.Words.{from_bytes, to_bytes}
use bounce.Buffer.{
  Buffer, received, failed, init, append, write_int, retrieve, read_int8, read_int16, read_int32,
  read_as_string, read_all_as_string, read_fd,
}
use bounce.Buffer.Inv.{IsValid, contents}
use bounce.Buffer.Sizes.{int16, int32, read_sized}
use bounce.Buffer.Queue.{
  Call, counts, nothing, string, number, result, appends, reads, reads_all, retrieves, receives,
  writes, peeks, reads_int, step, run, spec_run, run_refines,
}

-- Bytes 8 and 9 are left; the first two have been read.
abbrev half_read : Buffer
half_read = record {
  init_size = 2;
  buffer = 6 ∷ 7 ∷ 8 ∷ 9 ∷ 0 ∷ [];
  read_index = 2;
  write_index = 4;
}

abbrev fresh : Buffer
fresh = record { init_size = 4; buffer = 0 ∷ 0 ∷ 0 ∷ 0 ∷ []; read_index = 0; write_index = 0 }

init_four : init 4 ≡ fresh
unfolding init
init_four = refl

half_read-IsValid : IsValid half_read
half_read-IsValid = omega arith

fresh-IsValid : IsValid fresh
fresh-IsValid = omega arith

-- The data moves to the front, and then three bytes fit.
append_moves :
    append (1 ∷ 2 ∷ 3 ∷ []) half_read
    ≡ record { init_size = 2; buffer = 8 ∷ 9 ∷ 1 ∷ 2 ∷ 3 ∷ []; read_index = 0; write_index = 5 }
unfolding append
append_moves = refl

-- Here the storage has to grow as well, by as much as is appended.
append_grows : append (1 ∷ 2 ∷ 3 ∷ 4 ∷ []) half_read ≡ record {
  init_size = 2;
  buffer = 8 ∷ 9 ∷ 1 ∷ 2 ∷ 3 ∷ 4 ∷ 0 ∷ 0 ∷ 0 ∷ [];
  read_index = 0;
  write_index = 6;
}
unfolding append
append_grows = refl

read_fd_spills : (read_fd half_read (received (1 ∷ 2 ∷ []))).1 ≡ pos 2
unfolding read_fd
read_fd_spills = refl

contents-read_fd : contents (read_fd half_read (received (1 ∷ 2 ∷ []))).0 ≡ 8 ∷ 9 ∷ 1 ∷ 2 ∷ []
unfolding read_fd
contents-read_fd = refl

-- Two bytes are written, and reading the first one gives the second.
read_int8_skips : (read_int8 half_read).0 ≡ 9
unfolding read_int8 from_bytes
read_int8_skips = refl

-- Reading an `int32_t` takes two bytes off.
read_int32_step : (read_int32 (append (1 ∷ 2 ∷ 3 ∷ []) half_read)).1.read_index ≡ 2
unfolding read_int32 append
read_int32_step = refl

read_int16_empty : (read_int16 fresh).0 ≡ 0
unfolding read_int16
read_int16_empty = refl

abbrev calls : List Call
calls =
    appends (1 ∷ 2 ∷ 3 ∷ 4 ∷ [])
    ∷ reads 3
    ∷ receives (failed 11)
    ∷ counts
    ∷ retrieves 1
    ∷ reads_all
    ∷ []

run-calls :
    run half_read calls
    ≡ nothing
      ∷ string (8 ∷ 9 ∷ 1 ∷ [])
      ∷ result (negsuc 0) (some 11)
      ∷ number 3
      ∷ nothing
      ∷ string (3 ∷ 4 ∷ [])
      ∷ []
unfolding run step append read_as_string read_all_as_string read_fd retrieve
run-calls = refl

run_refines_example : run half_read calls ≡ spec_run (8 ∷ 9 ∷ []) calls
run_refines_example = run_refines calls half_read-IsValid (omega arith)

-- A 32-bit integer is read two bytes too far to the back.
abbrev int_calls : List Call
int_calls = writes int32 7 ∷ peeks int32 ∷ writes int16 1 ∷ reads_int int32 ∷ reads_all ∷ []

run-int_calls :
    run fresh int_calls
    ≡ nothing ∷ number 7 ∷ nothing ∷ number 65536 ∷ string (0 ∷ 0 ∷ 1 ∷ 0 ∷ []) ∷ []
unfolding run step read_sized write_int append read_int32 read_as_string read_all_as_string to_bytes
    from_bytes
run-int_calls = refl
