-- ===== src/RingBuffer/Tests.antt =====
-- Runs of a ring buffer of four bytes whose data goes round the end.
use miniob_basic.Base.{ℕ, ◌≡◌, refl, some, List, [], ◌∷◌, arith}
use miniob_basic.Base.Int.{pos}
use miniob_basic.Rc.{success}
use miniob_basic.RingBuffer.{
  RingBuffer, read, write, read_from, write_from, write_room, next_block, forward, read_round,
}
use miniob_basic.RingBuffer.Valid.{IsValid}
use miniob_basic.RingBuffer.Append.{IsAppended}
use miniob_basic.RingBuffer.Write.{write-IsAppended}
use miniob_basic.RingBuffer.Take.{IsTaken}
use miniob_basic.RingBuffer.Read.{read-IsTaken}

-- Two bytes, 11 at place 3 and 12 at place 0.
abbrev round_end : RingBuffer
round_end = record { buffer = 12 ∷ 0 ∷ 0 ∷ 11 ∷ []; data_size = 2; write_pos = 1 }

round_end-IsValid : IsValid round_end
round_end-IsValid = record { write_in = omega arith; size_in = omega arith }

write-IsAppended_example :
    (r' : RingBuffer) × (write round_end (13 ∷ 14 ∷ 15 ∷ []) (pos 3) ≡ (success, some 2, r'))
    × IsAppended round_end (13 ∷ 14 ∷ 15 ∷ []) 2 r'
write-IsAppended_example = write-IsAppended round_end (13 ∷ 14 ∷ 15 ∷ []) 3 round_end-IsValid

write_round :
    write round_end (13 ∷ 14 ∷ 15 ∷ []) (pos 3)
    ≡ (success, some 2, record { buffer = 12 ∷ 13 ∷ 14 ∷ 11 ∷ []; data_size = 4; write_pos = 3 })
unfolding write write_from write_room miniob_basic.Memory.memcpy
write_round = refl

read-IsTaken_example :
    (out : List ℕ) × (r' : RingBuffer) × (read round_end (pos 3) ≡ (success, some out, r'))
    × IsTaken round_end 2 out r'
read-IsTaken_example = read-IsTaken round_end 3 round_end-IsValid

read_both :
    read round_end (pos 3) ≡ (success, some (11 ∷ 12 ∷ []), record round_end { data_size = 0 })
unfolding read read_from read_round next_block forward miniob_basic.Memory.slice
read_both = refl
