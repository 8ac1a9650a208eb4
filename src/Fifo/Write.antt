-- ===== src/Fifo/Write.antt =====
-- fifo_write against the queue of the bytes held.

use misc_c.Base.{
  ℕ, ◌+◌, ◌-◌, ◌%◌, ◌^◌, ◌≤◌, ◌<◌, ◌≡◌, refl, ap, sym, ◌∙◌, inl, inr, Bool-cases, List, ◌++◌, some,
  min, arith, ltb, if◌then◌else◌, ◌==◌, length, get_or, take, length-take, length-append,
  append-nil,
}
use native.Mathlib.Nat.{mod-add-mod, mod-lt}
use misc_c.Base.Memory.{get_or-take, get_or-append, ring_step, eq_of_get_or}
use misc_c.Fifo.{Fifo, sub_size, add_size, put_bytes, fifo_remain, write_bytes, fifo_write}
use misc_c.Fifo.Inv.{IsValid, facts, used}
use misc_c.Fifo.Contents.{
  bytes, contents, length-bytes, get_or-bytes, behind, length-put_bytes, get_or-put_bytes,
}

-- Where entry `i` stands, seen from `u` places behind the head.
module _ (h size u i : ℕ) (pos : 0 < size) (hu : u ≤ size) (hi : i < size) where
  step_i : (h + i) % size ≡ (h % size + i) % size
  step_i = sym (mod-add-mod h size i)

  step_u : (h + u) % size ≡ (h % size + u) % size
  step_u = sym (mod-add-mod h size u)

  behind_before : i < u → behind size ((h + u) % size) ((h + i) % size) + u ≡ size + i
  behind_before p =
      rw (step_i, step_u)
        (ground (
          arith,
          mod-lt h pos,
          ring_step (h % size) i size (mod-lt h pos) (omega arith),
          ring_step (h % size) u size (mod-lt h pos) hu,
        ))

  behind_after : u ≤ i → behind size ((h + u) % size) ((h + i) % size) ≡ i - u
  behind_after p =
      rw (step_i, step_u)
        (ground (
          arith,
          mod-lt h pos,
          ring_step (h % size) i size (mod-lt h pos) (omega arith),
          ring_step (h % size) u size (mod-lt h pos) hu,
        ))

module _ {f : Fifo} (v : IsValid f) (src : List ℕ) where
  tail_at : f.tail % f.size ≡ (f.head + used f) % f.size
  tail_at =
      let e : f.tail ≡ (f.head + used f) % 2 ^ 64 = omega arith in
      ap (λ x. x % f.size) e ∙ (facts v).wraps (f.head + used f)

  module _ (n : ℕ) (fit : used f + n ≤ f.size) (enough : n ≤ length src) where
    -- The ring after `n` bytes of `src` have been put behind the tail.
    abbrev filled : List ℕ
    filled = put_bytes f.buffer f.size (f.tail % f.size) n src

    put_at :
        (q : ℕ)
        → q < f.size
        → let d = behind f.size ((f.head + used f) % f.size) q in
          get_or filled q 0 ≡ (if ltb d n then get_or src d 0 else get_or f.buffer q 0)
    put_at q hq =
        let z = facts v in
        rw (← tail_at) (
          get_or-put_bytes f.buffer f.size (f.tail % f.size) n src v.storage z.small
            (mod-lt f.tail z.pos) (omega arith) enough q hq)

    entry :
        (i : ℕ)
        → i < used f + n
        → get_or filled ((f.head + i) % f.size) 0 ≡ get_or (contents f ++ take n src) i 0
    entry i p =
        let z = facts v in
        ground (
          arith,
          put_at ((f.head + i) % f.size) (mod-lt (f.head + i) z.pos),
          behind_before f.head f.size (used f) i z.pos v.fits (omega arith),
          behind_after f.head f.size (used f) i z.pos v.fits (omega arith),
          get_or-append (contents f) (take n src) i 0,
          length-bytes f.buffer f.size f.head (used f),
          get_or-bytes f.buffer f.size f.head (used f) i,
          get_or-take n src (i - used f) 0,
        )

    bytes-filled : bytes filled f.size f.head (used f + n) ≡ contents f ++ take n src
    bytes-filled =
        let whole = length-bytes filled f.size f.head (used f + n) in
        eq_of_get_or _ _ 0
          (omega (
            arith,
            length-bytes f.buffer f.size f.head (used f),
            length-append (contents f) (take n src),
            length-take n src,
          ))
          (λ i p.
            let below : i < used f + n = rw whole at p in
            get_or-bytes filled f.size f.head (used f + n) i below ∙ entry i below)

  -- What a transfer into the ring promises.
  record Wrote (len n : ℕ) (g : Fifo) : Type 0 where
    count : n ≡ min len (f.size - used f)
    appended : contents g ≡ contents f ++ take n src
    valid : IsValid g
    same_size : g.size ≡ f.size

  room : fifo_remain (some f) ≡ f.size - used f
  unfolding fifo_remain
  room = let z = facts v in ground (arith, z.pos, z.small)

  moved-Wrote :
      (len n : ℕ)
      → len ≤ length src
      → n ≡ min len (f.size - used f)
      → Wrote len n (record f {
        tail = add_size f.tail n;
        buffer = put_bytes f.buffer f.size (f.tail % f.size) n src;
      })
  moved-Wrote len n h e =
      let z = facts v in
      let fit : used f + n ≤ f.size = omega arith in
      let grown : sub_size (add_size f.tail n) f.head ≡ used f + n = omega (arith, z.small) in
      record {
        count = e;
        appended = rw grown (bytes-filled n fit (omega arith));
        valid = record {
          shift = v.shift;
          narrow = v.narrow;
          pow = v.pow;
          storage =
              length-put_bytes f.buffer f.size (f.tail % f.size) n src v.storage z.small
                (mod-lt f.tail z.pos) (omega arith) (omega arith);
          head_in = v.head_in;
          tail_in = omega arith;
          fits = rw grown fit;
        };
        same_size = refl;
      }

  write_bytes-Wrote :
      (len : ℕ) → len ≤ length src → Wrote len (write_bytes f src len).0 (write_bytes f src len).1
  unfolding write_bytes
  write_bytes-Wrote len h =
      rw (room, (facts v).masked f.tail)
        (elim (Bool-cases (f.size - used f == 0)) [
          | inl e ↦ rw e (record {
            count = ground arith;
            appended = sym (append-nil (contents f));
            valid = v;
            same_size = refl;
          })
          | inr e ↦ rw e (moved-Wrote len _ h (ground arith))
        ])

-- fifo_write into a valid ring takes as many of the `len` bytes as there is room for, returns
-- their number, appends exactly those bytes in order and keeps the ring valid.
pub fifo_write_lem :
    (f : Fifo) (src : List ℕ) (len : ℕ)
    → IsValid f
    → len ≤ length src
    → (g : Fifo) × (fifo_write (some f) (some src) len ≡ (min len (f.size - used f), some g))
      × (contents g ≡ contents f ++ take (min len (f.size - used f)) src)
      × IsValid g
      × (g.size ≡ f.size)
unfolding fifo_write
fifo_write_lem f src len v h =
    let w = write_bytes-Wrote v src len h in
    elim (Bool-cases (len == 0)) [
      | inl e ↦
          let none_taken : min len (f.size - used f) ≡ 0 = ground arith in
          (f, rw (e, none_taken), rw none_taken (sym (append-nil (contents f))), v, refl)
      | inr e ↦ (
        (write_bytes f src len).1,
        rw e (ap (λ n. (n, some (write_bytes f src len).1)) w.count),
        rw (← w.count) w.appended,
        w.valid,
        w.same_size,
      )
    ]
