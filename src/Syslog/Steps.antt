-- ===== src/Syslog/Steps.antt =====
-- What reaches the log of lib/syslog/syslog.c, and what the steps leave as it is.

use misc_c.Base.{
  ℕ, ◌+◌, ◌-◌, ◌≡◌, true, Bool, ◌&&◌, ◌||◌, ◌==◌, List, [], ◌∷◌, ◌++◌, length, set, drop, leb,
  if◌then◌else◌, arith,
}
use misc_c.Syslog.{
  Line, ring_size, u32, Entry, Syslog, ring_mask, ring_full, format, flush_file, append_line,
  to_flash, goes_to_flash, analyze, flush_copy, flush_write, flush_thd_copy, flush_thd_write,
}

-- A line is logged, the direction is set, or the thread that flushes takes what waits, or writes it.
pub data Input : Type 0 where
  logged : Entry → Input
  directed : ℕ → Input
  copied written : Input

abbrev pub input : Syslog → Input → Syslog
input s (logged e) = analyze e s
input s (directed d) = record s { direction = d }
input s copied = flush_thd_copy s
input s written = flush_thd_write s

-- While the thread that flushes has yet to write, no line makes the other one write.
abbrev pub is_serial : Syslog → Input → Bool
is_serial s (logged e) = s.flushing == 0 || leb (length (analyze e s).file) (length s.file)
is_serial s _ = true

abbrev pub are_serial : Syslog → List Input → Bool
are_serial s [] = true
are_serial s (i ∷ is) = is_serial s i && are_serial (input s i) is

abbrev pub inputs : Syslog → List Input → Syslog
inputs s [] = s
inputs s (i ∷ is) = inputs (input s i) is

-- All lines, and those that are to reach the file.
abbrev pub lines : List Input → List Line
lines [] = []
lines (logged e ∷ is) = format e ∷ lines is
lines (directed d ∷ is) = lines is
lines (copied ∷ is) = lines is
lines (written ∷ is) = lines is

abbrev pub flashed : ℕ → List Input → Line
flashed d [] = []
flashed d (logged e ∷ is) =
    (if goes_to_flash d e.facility then format e ++ b'\n' ∷ [] else []) ++ flashed d is
flashed d (directed d' ∷ is) = flashed d' is
flashed d (copied ∷ is) = flashed d is
flashed d (written ∷ is) = flashed d is

-- The last lines, as many as there are places.
abbrev pub last_lines : List Line → List Line
last_lines ls = drop (length ls - ring_size) ls

pub flush_thd_copy-ring :
    (s : Syslog)
    → ((flush_thd_copy s).entries ≡ s.entries)
      × ((flush_thd_copy s).head ≡ s.head)
      × ((flush_thd_copy s).tail ≡ s.tail)
      × ((flush_thd_copy s).is_open ≡ s.is_open)
      × ((flush_thd_copy s).direction ≡ s.direction)
unfolding flush_thd_copy flush_copy
flush_thd_copy-ring s = ground arith

pub flush_thd_write-ring :
    (s : Syslog)
    → ((flush_thd_write s).entries ≡ s.entries)
      × ((flush_thd_write s).head ≡ s.head)
      × ((flush_thd_write s).tail ≡ s.tail)
      × ((flush_thd_write s).is_open ≡ s.is_open)
      × ((flush_thd_write s).direction ≡ s.direction)
unfolding flush_thd_write flush_write
flush_thd_write-ring s = ground arith

module _ (e : Entry) (s : Syslog) where
  pub analyze-ring :
      ((analyze e s).entries ≡ set s.entries (ring_mask s.head) (format e))
      × ((analyze e s).head ≡ u32 (s.head + 1))
      × ((analyze e s).tail ≡ (if ring_full s then u32 (s.tail + 1) else s.tail))
      × ((analyze e s).is_open ≡ s.is_open)
      × ((analyze e s).direction ≡ s.direction)
  unfolding analyze to_flash append_line flush_file flush_copy flush_write
  analyze-ring = ground arith
