-- ===== src/Fifo/Read.antt =====
-- fifo_read against the queue of the bytes held.
use misc_c.Base.{
  ℕ, ◌+◌, ◌-◌, ◌%◌, ◌^◌, ◌≤◌, ◌<◌, ◌≡◌, ◌≢◌, true, false, refl, ap, sym, ◌∙◌, inl, inr, Bool-cases,
  Bool, List, ◌++◌, some, min, arith, ltb, leb, if◌then◌else◌, ◌==◌, length, get_or, take, drop,
  length-take, length-drop, length-append,
}
use native.Mathlib.Nat.{mod-add-mod, mod-lt}
use native.Mathlib.Decide.{ℕ_discrete}
use misc_c.Base.Memory.{
  length-copy_at, get_or-copy_at, get_or-take, get_or-drop, get_or-append, ring_step, eq_of_get_or,
  copy_at,
}
use misc_c.Fifo.{Fifo, sub_size, add_size, get_bytes, read_bytes, fifo_read}
use misc_c.Fifo.Inv.{IsValid, facts, used}
use misc_c.Fifo.Contents.{contents, length-bytes, get_or-bytes}

module _ (buffer : List ℕ) (size h n : ℕ) (dest : List ℕ) (storage : length buffer ≡ size)
    (small : size ≤ 2 ^ 63) (hh : h < size) (hn : n ≤ size) (room : n ≤ length dest) where
  -- What stands at `j` of the destination.
  abbrev Got : List ℕ → ℕ → Type 0
  Got d j = get_or d j 0 ≡ (if ltb j n then get_or buffer ((h + j) % size) 0 else get_or dest j 0)

  one_chunk : n ≤ size - h → (j : ℕ) → Got (copy_at dest 0 (take n (drop h buffer))) j
  one_chunk p j = ground (
    arith,
    get_or-copy_at dest 0 (take n (drop h buffer)) j 0,
    length-take n (drop h buffer),
    length-drop h buffer,
    get_or-take n (drop h buffer) j 0,
    get_or-drop h buffer j 0,
    ring_step h j size hh,
  )

  two_chunks :
      size - h < n
      → (j : ℕ)
      → Got
          (copy_at
            (copy_at dest 0 (take (size - h) (drop h buffer)))
            (size - h)
            (take (n - (size - h)) buffer))
          j
  two_chunks p j =
      let w = size - h in
      let front = take w (drop h buffer) in
      ground (
        arith,
        get_or-copy_at (copy_at dest 0 front) w (take (n - w) buffer) j 0,
        get_or-copy_at dest 0 front j 0,
        length-copy_at dest 0 front,
        length-take w (drop h buffer),
        length-drop h buffer,
        length-take (n - w) buffer,
        get_or-take w (drop h buffer) j 0,
        get_or-drop h buffer j 0,
        get_or-take (n - w) buffer (j - w) 0,
        ring_step h j size hh,
      )

  chunk : sub_size size h ≡ size - h
  chunk = omega arith

  length-get_bytes : length (get_bytes buffer size h n dest) ≡ length dest
  unfolding get_bytes
  length-get_bytes = rw chunk (
      ground (
        arith,
        length-copy_at dest 0 (take n (drop h buffer)),
        length-copy_at dest 0 (take (size - h) (drop h buffer)),
        length-copy_at (copy_at dest 0 (take (size - h) (drop h buffer))) (size - h)
            (take (n - (size - h)) buffer),
      ))

  get_or-get_bytes : (j : ℕ) → Got (get_bytes buffer size h n dest) j
  unfolding get_bytes
  get_or-get_bytes j = rw chunk (elim (Bool-cases (leb n (size - h))) [
    | inl e ↦ rw e (one_chunk (ground arith) j)
    | inr e ↦ rw e (two_chunks (ground arith) j)
  ])

module _ {f : Fifo} (v : IsValid f) (n : ℕ) (fit : n ≤ used f) where
  copied :
      (dest : List ℕ)
      → n ≤ length dest
      → get_bytes f.buffer f.size (f.head % f.size) n dest ≡ take n (contents f) ++ drop n dest
  copied dest room =
      let z = facts v in
      let h = f.head % f.size in
      let hh : h < f.size = mod-lt f.head z.pos in
      let hn : n ≤ f.size = omega arith in
      eq_of_get_or _ _ 0
        (omega (
          arith,
          length-get_bytes f.buffer f.size h n dest v.storage z.small hh hn room,
          length-append (take n (contents f)) (drop n dest),
          length-take n (contents f),
          length-bytes f.buffer f.size f.head (used f),
          length-drop n dest,
        ))
        (λ j p. ground (
          arith,
          get_or-get_bytes f.buffer f.size h n dest v.storage z.small hh hn room j,
          get_or-append (take n (contents f)) (drop n dest) j 0,
          length-take n (contents f),
          length-bytes f.buffer f.size f.head (used f),
          get_or-take n (contents f) j 0,
          get_or-bytes f.buffer f.size f.head (used f) j,
          mod-add-mod f.head f.size j,
          get_or-drop n dest (j - n) 0,
        ))

  -- The ring once the first `n` bytes have left it.
  abbrev left : Fifo
  left = record f { head = add_size f.head n }

  used-left : used left ≡ used f - n
  used-left = let z = facts v in omega (arith, z.small)

  left_index : (i : ℕ) → (add_size f.head n + i) % f.size ≡ (f.head + (n + i)) % f.size
  left_index i =
      let z = facts v in
      sym (mod-add-mod (add_size f.head n) f.size i)
      ∙ ap (λ x. (x + i) % f.size) (z.wraps (f.head + n))
      ∙ mod-add-mod (f.head + n) f.size i
      ∙ ap (λ x. x % f.size) (omega arith)

  contents-left : contents left ≡ drop n (contents f)
  contents-left = rw used-left (
      eq_of_get_or _ _ 0
        (omega (
          arith,
          length-bytes f.buffer f.size (add_size f.head n) (used f - n),
          length-drop n (contents f),
          length-bytes f.buffer f.size f.head (used f),
        ))
        (λ i p.
          let below : i < used f - n =
            rw (length-bytes f.buffer f.size (add_size f.head n) (used f - n)) at p in
          ground (
            arith,
            get_or-bytes f.buffer f.size (add_size f.head n) (used f - n) i,
            left_index i,
            get_or-drop n (contents f) i 0,
            get_or-bytes f.buffer f.size f.head (used f) (n + i),
          )))

  left-IsValid : IsValid left
  left-IsValid = record {
    shift = v.shift;
    narrow = v.narrow;
    pow = v.pow;
    storage = v.storage;
    head_in = omega arith;
    tail_in = v.tail_in;
    fits = rw used-left (omega arith);
  }

-- What is left of the bytes of the ring: all of them, unless the caller takes them out.
abbrev pub after_read : Bool → ℕ → List ℕ → List ℕ
after_read out n xs = if out then drop n xs else xs

module _ {f : Fifo} (v : IsValid f) (dest : List ℕ) (len : ℕ) (out : Bool)
    (room : len ≤ length dest) where
  abbrev taken : ℕ
  taken = min len (used f)

  abbrev rest : Fifo
  rest = if out then left v taken (omega arith) else f

  nothing : taken ≡ 0 → read_bytes f dest len out ≡ (0, dest, f)
  unfolding read_bytes
  nothing e = let n : (if ltb (used f) len then used f else len) ≡ 0 = ground arith in rw n

  something :
      taken ≢ 0
      → read_bytes f dest len out ≡ (taken, take taken (contents f) ++ drop taken dest, rest)
  unfolding read_bytes
  something e =
      let n : (if ltb (used f) len then used f else len) ≡ taken = ground arith in
      let some_taken : (taken == 0) ≡ false = ground arith in
      rw (n, some_taken, (facts v).masked f.head, copied v taken (omega arith) dest (omega arith))

-- fifo_read of a valid ring copies the oldest bytes, as many as there are up to `len`, to the
-- start of the destination and leaves the rest of it alone; with `out` they leave the ring, without
-- it the ring keeps them. The ring stays valid.
pub fifo_read_lem :
    (f : Fifo) (dest : List ℕ) (len : ℕ) (out : Bool)
    → IsValid f
    → len ≤ length dest
    → let n = min len (used f) in
      (g : Fifo) × (fifo_read (some f) (some dest) len out
        ≡ (n, some (take n (contents f) ++ drop n dest), some g))
      × (contents g ≡ after_read out n (contents f))
      × IsValid g
unfolding fifo_read
fifo_read_lem f dest len out v h = elim (ℕ_discrete (taken v dest len out h) 0) [
  | yes e ↦ (f, ground (arith, nothing v dest len out h e), rw e (stays out), v)
  | no ne ↦
      (rest v dest len out h, ground (arith, something v dest len out h ne), went out, kept out)
]
  where
    stays : (b : Bool) → contents f ≡ after_read b 0 (contents f)
    stays true = refl
    stays false = refl

    went :
        (b : Bool) → contents (rest v dest len b h) ≡ after_read b (min len (used f)) (contents f)
    went true = contents-left v (min len (used f)) (omega arith)
    went false = refl

    kept : (b : Bool) → IsValid (rest v dest len b h)
    kept true = left-IsValid v (min len (used f)) (omega arith)
    kept false = v
