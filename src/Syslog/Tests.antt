-- ===== src/Syslog/Tests.antt =====
-- A run of the log on concrete lines.
use misc_c.Base.{ℕ, ◌≡◌, refl, true, length, List, [], ◌∷◌}
use misc_c.Syslog.{Entry, Syslog, syslog_init}
use misc_c.Syslog.Steps.{Input, logged, directed, copied, written, inputs, lines, flashed}

abbrev entry : ℕ → ℕ → Entry
entry facility c = record { prefix = b'[' ∷ b']' ∷ []; facility = facility; ctx = c ∷ [] }

-- Two lines for the file, one that is not important enough, and one after the file was turned off. The
-- thread that flushes takes the first, and writes it after the next has come.
abbrev run : List Input
run =
    logged (entry 4 b'a')
    ∷ copied
    ∷ logged (entry 5 b'b')
    ∷ logged (entry 0 b'c')
    ∷ written
    ∷ directed 1
    ∷ logged (entry 0 b'd')
    ∷ []

abbrev after : Syslog
after = inputs (syslog_init true 3) run

lines_of_run : length (lines run) ≡ 4
lines_of_run = refl

flashed_of_run : length (flashed 3 run) ≡ 92
flashed_of_run = refl
