-- ===== src/Fifo/Tests.antt =====
-- A ring of four bytes whose two bytes go round its end.
use misc_c.Base.{◌-◌, ◌^◌, ◌≡◌, refl, true, some, [], ◌∷◌, ◌++◌, min, arith, take, drop}
use misc_c.Base.Memory.{copy_at}
use misc_c.Fifo.{Fifo, fifo_write, fifo_read, fifo_get_used}
use misc_c.Fifo.Inv.{IsValid, used}
use misc_c.Fifo.Contents.{contents}
use misc_c.Fifo.Write.{fifo_write_lem}
use misc_c.Fifo.Read.{after_read, fifo_read_lem}

abbrev wrapped : Fifo
wrapped = record { head = 2 ^ 64 - 1; tail = 1; size = 4; buffer = 9 ∷ 7 ∷ 6 ∷ 8 ∷ [] }

wrapped-IsValid : IsValid wrapped
wrapped-IsValid = record {
  shift = 2;
  narrow = omega arith;
  pow = omega arith;
  storage = refl;
  head_in = omega arith;
  tail_in = omega arith;
  fits = omega arith;
}

contents-wrapped : contents wrapped ≡ 8 ∷ 9 ∷ []
contents-wrapped = refl

used-wrapped : fifo_get_used (some wrapped) ≡ 2
unfolding fifo_get_used
used-wrapped = refl

write_stops_when_full :
    fifo_write (some wrapped) (some (1 ∷ 2 ∷ 3 ∷ [])) 3
    ≡ (2, some (record { head = 2 ^ 64 - 1; tail = 3; size = 4; buffer = 9 ∷ 1 ∷ 2 ∷ 8 ∷ [] }))
unfolding fifo_write copy_at
write_stops_when_full = refl

fifo_write_lem_example :
    (g : Fifo) × (fifo_write (some wrapped) (some (1 ∷ 2 ∷ 3 ∷ [])) 3
      ≡ (min 3 (4 - used wrapped), some g))
    × (contents g ≡ contents wrapped ++ take (min 3 (4 - used wrapped)) (1 ∷ 2 ∷ 3 ∷ []))
    × IsValid g
    × (g.size ≡ 4)
fifo_write_lem_example = fifo_write_lem wrapped (1 ∷ 2 ∷ 3 ∷ []) 3 wrapped-IsValid (omega arith)

fifo_read_lem_example :
    (g : Fifo) × (fifo_read (some wrapped) (some (0 ∷ 0 ∷ 0 ∷ [])) 3 true
      ≡ (2, some (take 2 (contents wrapped) ++ drop 2 (0 ∷ 0 ∷ 0 ∷ [])), some g))
    × (contents g ≡ after_read true 2 (contents wrapped))
    × IsValid g
fifo_read_lem_example = fifo_read_lem wrapped (0 ∷ 0 ∷ 0 ∷ []) 3 true wrapped-IsValid (omega arith)
