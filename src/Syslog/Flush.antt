-- ===== src/Syslog/Flush.antt =====
-- The bytes that lib/syslog/syslog.c writes to its file.

use misc_c.Base.{
  ℕ, zero, suc, ◌+◌, ◌-◌, ◌≤◌, ◌<◌, ◌≡◌, refl, ◌∙◌, ap, ap₂, sym, inl, inr, true, Bool, ◌&&◌, ◌⊎◌,
  ◌==◌, Bool-cases, List, [], ◌∷◌, ◌++◌, append-nil, append_assoc, length, length-append,
  length-take, set, take, drop, replicate, ltb, leb, if◌then◌else◌, arith,
}
use misc_c.Syslog.{
  Line, str_size, flush_size, flush_offset_threshold, u32, Entry, Syslog, ring_mask, ring_full,
  format, flush_file, append_line, to_flash, goes_to_flash, analyze, flush_copy, flush_write,
  flush_thd_copy, flush_thd_write,
}
use misc_c.Syslog.Steps.{
  Input, logged, directed, is_serial, are_serial, inputs, flashed, flush_thd_copy-ring,
  flush_thd_write-ring, analyze-ring, copied, written,
}

length-format : (e : Entry) → length (format e) < str_size
length-format e =
    omega (
      arith,
      length-take (str_size - 1) (e.prefix ++ replicate (44 - length e.prefix) b' ' ++ e.ctx),
    )

-- What has been written to the file, then what is being written, and then what waits.
abbrev out : Syslog → Line
out s = s.file ++ (take s.flushing s.s_flush_ctx ++ s.flush_ctx)

take-front : (xs ys : Line) → take (length xs) (xs ++ ys) ≡ xs
take-front [] ys = refl
take-front (x ∷ xs) ys = ap (λ zs. x ∷ zs) (take-front xs ys)

-- A flush takes what waits.
flush_copy-parts :
    (s : Syslog)
    → let (t, offset) = flush_copy s in
      (take offset t.s_flush_ctx ++ t.flush_ctx ≡ s.flush_ctx)
      × (t.file ≡ s.file)
      × (length t.flush_ctx ≤ length s.flush_ctx)
unfolding flush_copy
flush_copy-parts s = elim (Bool-cases (s.is_open && ltb 0 (length s.flush_ctx))) [
  | inl e ↦
      rw (flush_copy, e)
        (
          append-nil
                (take (length s.flush_ctx) (s.flush_ctx ++ drop (length s.flush_ctx) s.s_flush_ctx))
              ∙ take-front s.flush_ctx (drop (length s.flush_ctx) s.s_flush_ctx),
          refl,
          omega arith,
        )
  | inr e ↦ rw (flush_copy, e) (refl, refl, omega arith)
]

flush_write-file :
    (offset : ℕ) (s : Syslog)
    → ((flush_write offset s).file ≡ s.file ++ take offset s.s_flush_ctx)
      × ((flush_write offset s).flush_ctx ≡ s.flush_ctx)
unfolding flush_write
flush_write-file zero s = (sym (append-nil s.file), refl)
flush_write-file (suc n) s =
    let some : ltb 0 (suc n) ≡ true = ground arith in rw (flush_write, some) (refl, refl)

flush_thd_write-out :
    (s : Syslog) → (out (flush_thd_write s) ≡ out s) × ((flush_thd_write s).flush_ctx ≡ s.flush_ctx)
unfolding flush_thd_write
flush_thd_write-out s =
    let (file, ctx) = flush_write-file s.flushing s in
    (
      ap₂ (λ a b. a ++ b) file ctx
          ∙ append_assoc s.file (take s.flushing s.s_flush_ctx) s.flush_ctx,
      ctx,
    )

flush_thd_copy-out :
    (s : Syslog)
    → (out (flush_thd_copy s) ≡ out s) × (length (flush_thd_copy s).flush_ctx ≤ length s.flush_ctx)
unfolding flush_thd_copy
flush_thd_copy-out s = elim (Bool-cases (s.flushing == 0)) [
  | inr e ↦ rw (flush_thd_copy, e) (refl, omega arith)
  | inl e ↦
      let none : s.flushing ≡ 0 = ground (arith, e) in
      let (parts, file, fewer) = flush_copy-parts s in
      rw (flush_thd_copy, e)
        (
          ap₂ (λ a b. a ++ b) file parts
              ∙ ap (λ n. s.file ++ (take n s.s_flush_ctx ++ s.flush_ctx)) (sym none),
          fewer,
        )
]

flush_file-flushing : (s : Syslog) → (flush_file s).flushing ≡ s.flushing
unfolding flush_file flush_copy flush_write
flush_file-flushing s = ground arith

flush_file-ctx :
    (s : Syslog)
    → ((flush_file s).file ++ (flush_file s).flush_ctx ≡ s.file ++ s.flush_ctx)
      × (length (flush_file s).flush_ctx ≤ length s.flush_ctx)
unfolding flush_file
flush_file-ctx s =
    let (t, offset) = flush_copy s in
    let (parts, file, fewer) = flush_copy-parts s in
    let (file', ctx) = flush_write-file offset t in
    (
      ap₂ (λ a b. a ++ b) file' ctx
          ∙ append_assoc t.file (take offset t.s_flush_ctx) t.flush_ctx
          ∙ ap₂ (λ a b. a ++ b) file parts,
      omega (arith, ap length ctx, fewer),
    )

flush_file-out :
    (s : Syslog)
    → s.flushing ≡ 0
    → (out (flush_file s) ≡ out s) × (length (flush_file s).flush_ctx ≤ length s.flush_ctx)
flush_file-out s none =
    let t : Syslog = flush_file s in
    let (same, fewer) = flush_file-ctx s in
    (
      ap (λ n. t.file ++ (take n t.s_flush_ctx ++ t.flush_ctx)) (flush_file-flushing s ∙ none)
          ∙ same
          ∙ ap (λ n. s.file ++ (take n s.s_flush_ctx ++ s.flush_ctx)) (sym none),
      fewer,
    )

flush_file-empty : (s : Syslog) → s.is_open ≡ true → length (flush_file s).flush_ctx ≡ 0
unfolding flush_file flush_copy flush_write
flush_file-empty s o = ground (arith, o)

flush_file-grows :
    (s : Syslog)
    → s.is_open ≡ true
    → length (flush_file s).file ≡ length s.file + length s.flush_ctx
flush_file-grows s o =
    let (same, _) = flush_file-ctx s in
    omega (
      arith,
      ap length same,
      length-append (flush_file s).file (flush_file s).flush_ctx,
      length-append s.file s.flush_ctx,
      flush_file-empty s o,
    )

-- The bytes of a line go behind the others, and fewer wait than the threshold.
abbrev Adds : Line → (s t : Syslog) → Type 0
Adds str s t = (out t ≡ out s ++ str) × (length t.flush_ctx < flush_offset_threshold)

to_flash-out :
    (str : Line) (s : Syslog)
    → s.is_open ≡ true
    → length s.flush_ctx < flush_offset_threshold
    → length str < str_size
    → (s.flushing ≡ 0) ⊎ (length (to_flash str s).file ≤ length s.file)
    → Adds (str ++ b'\n' ∷ []) s (to_flash str s)
unfolding to_flash append_line
to_flash-out str s o b l serial =
    let room : ltb (length str + 1) (flush_size - length s.flush_ctx) ≡ true = ground arith in
    let line : Line = str ++ b'\n' ∷ [] in
    let t : Syslog = record s { flush_ctx = s.flush_ctx ++ line } in
    let pend : Line = take s.flushing s.s_flush_ctx in
    let longer : out t ≡ out s ++ line =
      ap (λ xs. s.file ++ xs) (sym (append_assoc pend s.flush_ctx line))
      ∙ sym (append_assoc s.file (pend ++ s.flush_ctx) line) in
    elim (Bool-cases (leb flush_offset_threshold (length t.flush_ctx))) [
      | inr e ↦ rw (to_flash, append_line, room, e) (longer, ground (arith, e))
      | inl e ↦ elim serial [
        | inl none ↦
            rw (to_flash, append_line, room, e)
              ((flush_file-out t none).0 ∙ longer, omega (arith, flush_file-empty t o))
        | inr same ↦
            let grows : length (to_flash str s).file ≡ length s.file + length t.flush_ctx =
              rw (to_flash, append_line, room, e) (flush_file-grows t o) in
            absurd (ground (arith, grows, same, e))
      ]
    ]

analyze-out :
    (e : Entry) (s : Syslog)
    → s.is_open ≡ true
    → length s.flush_ctx < flush_offset_threshold
    → is_serial s (logged e) ≡ true
    → Adds
        (if goes_to_flash s.direction e.facility then format e ++ b'\n' ∷ [] else [])
        s
        (analyze e s)
unfolding analyze
analyze-out e s o b serial =
    let str : Line = format e in
    let t : Syslog = record s {
      tail = if ring_full s then u32 (s.tail + 1) else s.tail;
      entries = set s.entries (ring_mask s.head) str;
    } in
    elim (Bool-cases (goes_to_flash s.direction e.facility)) [
      | inl g ↦
          let same : (analyze e s).file ≡ (to_flash str t).file = rw (analyze, g) refl in
          let calm : (s.flushing ≡ 0) ⊎ (length (to_flash str t).file ≤ length s.file) =
            elim (Bool-cases (s.flushing == 0)) [
              | inl z ↦ inl (ground (arith, z))
              | inr z ↦ inr (ground (arith, serial, z, ap length same))
            ] in
          rw (analyze, g) (to_flash-out str t o b (length-format e) calm)
      | inr g ↦ rw (analyze, g) (sym (append-nil (out s)), b)
    ]

both : (a b : Bool) → a && b ≡ true → (a ≡ true) × (b ≡ true)
both a b e = (ground (arith, e), ground (arith, e))

pub inputs-out :
    (is : List Input) (s : Syslog)
    → s.is_open ≡ true
    → length s.flush_ctx < flush_offset_threshold
    → are_serial s is ≡ true
    → Adds (flashed s.direction is) s (inputs s is)
inputs-out [] s o b serial = (sym (append-nil (out s)), b)
inputs-out (logged e ∷ is) s o b serial =
    let (now, later) = both (is_serial s (logged e)) (are_serial (analyze e s) is) serial in
    let (_, _, _, opened, direction) = analyze-ring e s in
    let (grown, b') = analyze-out e s o b now in
    let (rest, b'') = inputs-out is (analyze e s) (opened ∙ o) b' later in
    let line : Line = if goes_to_flash s.direction e.facility then format e ++ b'\n' ∷ [] else [] in
    (
      rest
          ∙ ap₂ (λ xs d. xs ++ flashed d is) grown direction
          ∙ append_assoc (out s) line (flashed s.direction is),
      b'',
    )
inputs-out (directed d ∷ is) s o b serial = inputs-out is (record s { direction = d }) o b serial
inputs-out (copied ∷ is) s o b serial =
    let (_, _, _, opened, direction) = flush_thd_copy-ring s in
    let (same, less) = flush_thd_copy-out s in
    let (rest, b') =
      inputs-out is (flush_thd_copy s) (opened ∙ o) (omega (arith, less, b)) serial in
    (rest ∙ ap₂ (λ xs d. xs ++ flashed d is) same direction, b')
inputs-out (written ∷ is) s o b serial =
    let (_, _, _, opened, direction) = flush_thd_write-ring s in
    let (same, ctx) = flush_thd_write-out s in
    let (rest, b') =
      inputs-out is (flush_thd_write s) (opened ∙ o) (omega (arith, ap length ctx, b)) serial in
    (rest ∙ ap₂ (λ xs d. xs ++ flashed d is) same direction, b')
