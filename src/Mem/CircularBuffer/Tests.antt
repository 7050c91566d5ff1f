-- ===== src/Mem/CircularBuffer/Tests.antt =====
-- Runs of the buffer, and its theorems at concrete buffers.
use aexkernel.Base.{◌+◌, ◌≤◌, ◌≡◌, refl, false, [], ◌∷◌, arith}
use aexkernel.Base.Int.{pos, minus_one}
use aexkernel.Mem.CircularBuffer.{
  CircularBuffer, finished, put_in, write_available, read, write, read_available_cut, find_distance,
  take_out, slice,
}
use aexkernel.Mem.CircularBuffer.Distance.{IsValid, room}
use aexkernel.Mem.CircularBuffer.Window.{contents, put_in-IsValid, put_in-contents}
use aexkernel.Mem.CircularBuffer.Write.{Wrote, write_fits}
use aexkernel.Mem.CircularBuffer.Read.{whole, read_stream}
use aexkernel.Mem.CircularBuffer.Stream.{Served, Adds, Addition, turns_of}

-- 8, then 5, round the end of the storage
abbrev wrapped : CircularBuffer
wrapped = record { buffer = 5 ∷ 6 ∷ 7 ∷ 8 ∷ []; size = 4; read_pos = 3; write_pos = 1 }

wrapped-IsValid : IsValid wrapped
wrapped-IsValid = omega arith

contents-wrapped : contents wrapped ≡ 8 ∷ 5 ∷ []
contents-wrapped = refl

-- A turn in which another thread writes a 9, as a round of `write` does.
abbrev nine : Addition
nine = record {
  turn = record { interrupted = false; others = λ cb. put_in cb (9 ∷ []) };
  bytes = 9 ∷ [];
}

nine-Adds : Adds 4 nine
unfolding put_in
nine-Adds cb v size empty =
    let fits : 1 ≤ room cb = omega (arith, v) in
    let front : cb.write_pos + 1 ≤ cb.size = omega (arith, v) in
    ((put_in-IsValid (9 ∷ []) v fits front).0, size, put_in-contents (9 ∷ []) v fits front)

read_across_the_end :
    read 9 [] minus_one wrapped (pos 2) ≡ finished (record wrapped { read_pos = 1 }) (8 ∷ 5 ∷ [])
unfolding read read_available_cut find_distance take_out slice
read_across_the_end = refl

write_fits_example : Wrote wrapped (9 ∷ []) 0 (write 5 [] wrapped (9 ∷ []))
unfolding write_available find_distance
write_fits_example = write_fits 5 [] (9 ∷ []) wrapped-IsValid (omega arith) (omega arith)

-- 8, 5 and the 9 that comes while the read waits.
read_stream_example :
    Served minus_one
      (nine ∷ [])
      wrapped
      3
      []
      (whole (turns_of (nine ∷ [])) minus_one)
      (read 9 (turns_of (nine ∷ [])) minus_one wrapped (pos 3))
read_stream_example =
    read_stream 9 (nine ∷ []) minus_one 3 wrapped-IsValid (nine-Adds, tt) (omega arith)

abbrev near_end : CircularBuffer
near_end = record { buffer = 0 ∷ 0 ∷ 0 ∷ 0 ∷ []; size = 4; read_pos = 2; write_pos = 2 }

near_end-IsValid : IsValid near_end
near_end-IsValid = omega arith
