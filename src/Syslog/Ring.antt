-- ===== src/Syslog/Ring.antt =====
-- The ring of the last lines in lib/syslog/syslog.c.
use mathlib.Core.Path.{subst}
use misc_c.Base.{
  ℕ, zero, suc, ◌+◌, ◌-◌, ◌%◌, ◌≤◌, ◌<◌, ◌≡◌, refl, ◌∙◌, ap, ap₂, sym, inl, inr, true, Bool-cases,
  List, [], ◌∷◌, ◌++◌, append-nil, append_assoc, length, length-append, length-set,
  length-replicate, length-drop, take-all, get_or, take, drop, min, ltb, if◌then◌else◌, arith,
}
use misc_c.Base.Bits.{mask-mod, mod-pow_mod}
use misc_c.Base.Memory.{get_or-set, get_or-append, drop-cons}
use misc_c.Syslog.{
  Line, ring_size, u32, Entry, Syslog, ring_mask, syslog_ring_size, format, analyze, show_from,
  show_buffer, syslog_init, flush_thd_copy, flush_thd_write,
}
use misc_c.Syslog.Steps.{
  Input, logged, directed, inputs, lines, last_lines, flush_thd_copy-ring, flush_thd_write-ring,
  analyze-ring, copied, written,
}

-- The ring after the lines `ls`.
pub record Holds (ls : List Line) (s : Syslog) : Type 0 where
  pub places : length s.entries ≡ ring_size
  head_is : s.head ≡ u32 (length ls)
  tail_is : s.tail ≡ u32 (length ls - ring_size)
  entry_is :
      (k : ℕ)
      → k < length ls
      → length ls ≤ k + ring_size
      → get_or s.entries (k % ring_size) [] ≡ get_or ls k []

mask_place : (k : ℕ) → ring_mask (u32 k) ≡ k % ring_size
mask_place k = mask-mod 6 (u32 k) ∙ mod-pow_mod k 6 32 (omega arith)

ring_size-min :
    (ls : List Line) (s : Syslog) → Holds ls s → syslog_ring_size s ≡ min (length ls) ring_size
ring_size-min ls s h = omega (arith, h.head_is, h.tail_is)

show_from-take :
    (n k : ℕ) (ls : List Line) (s : Syslog)
    → Holds ls s
    → k + n ≤ length ls
    → length ls ≤ k + ring_size
    → show_from n (u32 k) s.entries ≡ take n (drop k ls)
unfolding show_from
show_from-take zero k ls s h b c = refl
show_from-take (suc n) k ls s h b c =
    let next : u32 (u32 k + 1) ≡ u32 (suc k) = omega arith in
    let here : get_or s.entries (ring_mask (u32 k)) [] ≡ get_or ls k [] =
      ap (λ i. get_or s.entries i []) (mask_place k) ∙ h.entry_is k (omega arith) c in
    ap₂ (λ x xs. x ∷ xs) here
      (ap (λ i. show_from n i s.entries) next
        ∙ show_from-take n (suc k) ls s h (omega arith) (omega arith))
    ∙ sym (ap (take (suc n)) (drop-cons ls k [] (omega arith)))

-- The ring after one more line.
analyze-Holds :
    (e : Entry) (ls : List Line) (s : Syslog)
    → Holds ls s
    → Holds (ls ++ format e ∷ []) (analyze e s)
analyze-Holds e ls s h =
    let (entries, head, tail, _, _) = analyze-ring e s in
    let longer : length (ls ++ format e ∷ []) ≡ length ls + 1 = length-append ls (format e ∷ []) in
    let size = ring_size-min ls s h in
    let place : ring_mask s.head ≡ length ls % ring_size =
      ap ring_mask h.head_is ∙ mask_place (length ls) in
    let old = h.entry_is in
    record {
      places = ap length entries ∙ length-set s.entries (ring_mask s.head) (format e) ∙ h.places;
      head_is = omega (arith, head, h.head_is, longer);
      tail_is = ground (arith, tail, size, h.tail_is, longer);
      entry_is = λ k lt le.
          ap (λ es. get_or es (k % ring_size) []) entries
          ∙ get_or-set s.entries (ring_mask s.head) (k % ring_size) (format e) []
              (omega (arith, place, h.places))
          ∙ ground (arith, place, lt, le, longer, get_or-append ls (format e ∷ []) k [], old k);
    }

flush_thd_copy-Holds : (ls : List Line) (s : Syslog) → Holds ls s → Holds ls (flush_thd_copy s)
flush_thd_copy-Holds ls s h =
    let (entries, head, tail, _, _) = flush_thd_copy-ring s in
    record {
      places = ap length entries ∙ h.places;
      head_is = head ∙ h.head_is;
      tail_is = tail ∙ h.tail_is;
      entry_is = λ k lt le. ap (λ es. get_or es (k % ring_size) []) entries ∙ h.entry_is k lt le;
    }

flush_thd_write-Holds : (ls : List Line) (s : Syslog) → Holds ls s → Holds ls (flush_thd_write s)
flush_thd_write-Holds ls s h =
    let (entries, head, tail, _, _) = flush_thd_write-ring s in
    record {
      places = ap length entries ∙ h.places;
      head_is = head ∙ h.head_is;
      tail_is = tail ∙ h.tail_is;
      entry_is = λ k lt le. ap (λ es. get_or es (k % ring_size) []) entries ∙ h.entry_is k lt le;
    }

pub inputs-Holds :
    (is : List Input) (ls : List Line) (s : Syslog)
    → Holds ls s
    → Holds (ls ++ lines is) (inputs s is)
inputs-Holds [] ls s h = subst (λ xs. Holds xs s) (sym (append-nil ls)) h
inputs-Holds (logged e ∷ is) ls s h =
    subst (λ xs. Holds xs (inputs (analyze e s) is)) (append_assoc ls (format e ∷ []) (lines is))
      (inputs-Holds is (ls ++ format e ∷ []) (analyze e s) (analyze-Holds e ls s h))
inputs-Holds (directed d ∷ is) ls s h =
    inputs-Holds is ls (record s { direction = d })
      (record {
        places = h.places;
        head_is = h.head_is;
        tail_is = h.tail_is;
        entry_is = h.entry_is;
      })
inputs-Holds (copied ∷ is) ls s h =
    inputs-Holds is ls (flush_thd_copy s) (flush_thd_copy-Holds ls s h)
inputs-Holds (written ∷ is) ls s h =
    inputs-Holds is ls (flush_thd_write s) (flush_thd_write-Holds ls s h)

pub syslog_init-Holds : (d : ℕ) → Holds [] (syslog_init true d)
syslog_init-Holds d = record {
  places = length-replicate {A = Line} ring_size [];
  head_is = refl;
  tail_is = refl;
  entry_is = λ k lt le. absurd (omega arith);
}

take-size :
    {A : Type 0}
    → (n : ℕ) (xs : List A) (m : ℕ) → length xs ≡ m
    → take (if ltb n m then n else m) xs ≡ take n xs
take-size n xs m e = elim (Bool-cases (ltb n m)) [
  | inl l ↦ ap (λ b. take (if b then n else m) xs) l
  | inr l ↦
      ap (λ b. take (if b then n else m) xs) l
      ∙ take-all xs m (omega (arith, e))
      ∙ sym (take-all xs n (ground (arith, e, l)))
]

pub show_buffer_lem :
    (num : ℕ) (ls : List Line) (s : Syslog)
    → Holds ls s
    → show_buffer num s ≡ take num (last_lines ls)
unfolding show_buffer
show_buffer_lem num ls s h =
    let size = ring_size-min ls s h in
    let from : ℕ = length ls - ring_size in
    let n : ℕ = if ltb num (syslog_ring_size s) then num else syslog_ring_size s in
    let fits : n ≤ syslog_ring_size s = ground arith in
    ap (λ i. show_from n i s.entries) h.tail_is
    ∙ show_from-take n from ls s h (omega (arith, fits, size)) (omega arith)
    ∙ take-size num (last_lines ls) (syslog_ring_size s) (omega (arith, size, length-drop from ls))
