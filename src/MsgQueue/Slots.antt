-- ===== src/MsgQueue/Slots.antt =====
-- The invariant of a message queue, and its messages as slots of the byte ring.
use misc_c.Base.{
  refl, ap, ℕ, zero, suc, ◌+◌, ◌-◌, ◌*◌, ◌≤◌, ◌<◌, ◌≡◌, ◌≢◌, List, [], ◌∷◌, ◌++◌, arith, ◌⊎◌,
  length, take, drop, length-take, length-drop, length-append,
}
use misc_c.Base.Memory.{
  copy_at, length-copy_at, get_or-copy_at, get_or-take, get_or-drop, get_or-append, eq_of_get_or,
}
use misc_c.MsgQueue.{MsgQueue, advance}

pub record IsValid (q : MsgQueue) : Type 0 where
  pub storage : length q.ring_buffer ≡ q.capacity * q.elem_size
  pub head_in : q.head < q.capacity
  pub tail_in : q.tail < q.capacity
  pub fits : q.size ≤ q.capacity
  -- The tail is `size` places behind the head, round the end.
  pub apart : (q.head + q.size ≡ q.tail) ⊎ (q.head + q.size ≡ q.tail + q.capacity)

-- The bytes of place `k`.
abbrev pub slot : (buffer : List ℕ) → (elem k : ℕ) → List ℕ
slot buffer elem k = take elem (drop (k * elem) buffer)

-- `n` slots from place `h` on, oldest first.
abbrev pub slots : (buffer : List ℕ) → (elem capacity h n : ℕ) → List (List ℕ)
slots buffer elem capacity h zero = []
slots buffer elem capacity h (suc n) =
    slot buffer elem h ∷ slots buffer elem capacity (advance capacity h) n

abbrev pub messages : MsgQueue → List (List ℕ)
messages q = slots q.ring_buffer q.elem_size q.capacity q.head q.size

pub length-slots :
    (buffer : List ℕ) (elem capacity h n : ℕ) → length (slots buffer elem capacity h n) ≡ n
length-slots buffer elem capacity h zero = refl
length-slots buffer elem capacity h (suc n) =
    ap suc (length-slots buffer elem capacity (advance capacity h) n)

slot_bound : (capacity elem k : ℕ) → k < capacity → k * elem + elem ≤ capacity * elem
slot_bound capacity elem k h = grind arith

-- Different places share no byte.
slots_apart : (elem j k : ℕ) → j < k → j * elem + elem ≤ k * elem
slots_apart elem j k h = grind arith

module _ (buffer : List ℕ) (elem capacity t : ℕ) (src : List ℕ)
    (storage : length buffer ≡ capacity * elem) (ht : t < capacity)
    (small : length src ≤ elem) where
  -- A message of at most `elem` bytes fills the front of its slot.
  pub slot-copy_at_self :
      slot (copy_at buffer (t * elem) src) elem t ≡ src ++ drop (length src) (slot buffer elem t)
  slot-copy_at_self =
      let b = copy_at buffer (t * elem) src in
      let old = slot buffer elem t in
      eq_of_get_or _ _ 0
        (omega (
          arith,
          slot_bound capacity elem t ht,
          length-copy_at buffer (t * elem) src,
          length-take elem (drop (t * elem) b),
          length-drop (t * elem) b,
          length-take elem (drop (t * elem) buffer),
          length-drop (t * elem) buffer,
          length-append src (drop (length src) old),
          length-drop (length src) old,
        ))
        (λ i p. ground (
          arith,
          slot_bound capacity elem t ht,
          length-take elem (drop (t * elem) b),
          get_or-take elem (drop (t * elem) b) i 0,
          get_or-drop (t * elem) b i 0,
          get_or-copy_at buffer (t * elem) src (t * elem + i) 0,
          get_or-append src (drop (length src) old) i 0,
          get_or-drop (length src) old (i - length src) 0,
          get_or-take elem (drop (t * elem) buffer) i 0,
          get_or-drop (t * elem) buffer i 0,
        ))

  pub slot-copy_at_ne :
      (k : ℕ)
      → k < capacity
      → k ≢ t
      → slot (copy_at buffer (t * elem) src) elem k ≡ slot buffer elem k
  slot-copy_at_ne k hk ne =
      let b = copy_at buffer (t * elem) src in
      eq_of_get_or _ _ 0
        (omega (
          arith,
          length-copy_at buffer (t * elem) src,
          length-take elem (drop (k * elem) b),
          length-drop (k * elem) b,
          length-take elem (drop (k * elem) buffer),
          length-drop (k * elem) buffer,
        ))
        (λ i p. ground (
          arith,
          slot_bound capacity elem t ht,
          slots_apart elem k t,
          slots_apart elem t k,
          length-take elem (drop (k * elem) b),
          get_or-take elem (drop (k * elem) b) i 0,
          get_or-drop (k * elem) b i 0,
          get_or-copy_at buffer (t * elem) src (k * elem + i) 0,
          get_or-take elem (drop (k * elem) buffer) i 0,
          get_or-drop (k * elem) buffer i 0,
        ))
