-- ===== src/Fifo.antt =====
-- lib/fifo/fifo.c: a byte ring with free-running counters. A `fifo_t*` that may be NULL is an
-- `Option Fifo`, and so is a buffer pointer of a caller. `size_t` is 64 bits wide.
pub mod Inv
pub mod Contents
pub mod Write
pub mod Read
mod Tests
use Prim.Native.Nat.{bit_and}
use misc_c.Base.{
  ℕ, ◌+◌, ◌-◌, ◌%◌, ◌^◌, Bool, true, false, ◌&&◌, Option, none, some, List, ltb, leb, ◌==◌,
  if◌then◌else◌, take, drop, replicate,
}
use misc_c.Base.Memory.{copy_at}

-- `struct fifo_s`
pub record Fifo : Type 0 where
  pub head : ℕ
  pub tail : ℕ
  pub size : ℕ
  pub buffer : List ℕ

-- `size_t` addition and subtraction.
abbrev pub add_size : ℕ → ℕ → ℕ
add_size a b = (a + b) % 2 ^ 64

abbrev pub sub_size : ℕ → ℕ → ℕ
sub_size a b = (a + 2 ^ 64 - b) % 2 ^ 64

abbrev pub mask : Fifo → ℕ
mask f = sub_size f.size 1

-- `size > 0 && !(size & (size - 1))`
abbrev pub is_pow : ℕ → Bool
is_pow size = ltb 0 size && (bit_and size (sub_size size 1) == 0)

-- `allocated` says whether `mp_calloc` has returned memory.
pub fifo_create : Bool → ℕ → Option Fifo
fifo_create allocated size =
    if is_pow size
    then (if allocated
        then some (record { head = 0; tail = 0; size = size; buffer = replicate size 0 })
        else none)
    else none

-- What stands in `*fifo` afterwards.
pub fifo_destroy : Option Fifo → Option Fifo
fifo_destroy f = none

pub fifo_remain : Option Fifo → ℕ
fifo_remain none = 0
fifo_remain (some f) = if f.size == 0 then 0 else sub_size f.size (sub_size f.tail f.head)

pub fifo_get_used : Option Fifo → ℕ
fifo_get_used none = 0
fifo_get_used (some f) = sub_size f.tail f.head

-- The one or two `memcpy` calls of fifo_write: `n` bytes of `src` from index `i` of the ring on.
pub put_bytes : List ℕ → (size i n : ℕ) → List ℕ → List ℕ
put_bytes buffer size i n src =
    let first = sub_size size i in
    if leb n first
    then copy_at buffer i (take n src)
    else copy_at (copy_at buffer i (take first src)) 0 (take (n - first) (drop first src))

-- The same of fifo_read, into the start of `dest`.
pub get_bytes : List ℕ → (size i n : ℕ) → List ℕ → List ℕ
get_bytes buffer size i n dest =
    let first = sub_size size i in
    if leb n first
    then copy_at dest 0 (take n (drop i buffer))
    else copy_at (copy_at dest 0 (take first (drop i buffer))) first (take (n - first) buffer)

write_bytes : Fifo → List ℕ → ℕ → ℕ × Fifo
unfolding put_bytes
write_bytes f src len =
    let remain = fifo_remain (some f) in
    let n = if ltb remain len then remain else len in
    if remain == 0 then (0, f) else (
      n,
      record f {
        tail = add_size f.tail n;
        buffer = put_bytes f.buffer f.size (bit_and f.tail (mask f)) n src;
      },
    )

pub fifo_write : Option Fifo → Option (List ℕ) → ℕ → ℕ × Option Fifo
unfolding write_bytes fifo_remain
fifo_write none src len = (0, none)
fifo_write (some f) none len = (0, some f)
fifo_write (some f) (some src) len =
    if len == 0 then (0, some f) else (let (n, f') = write_bytes f src len in (n, some f'))

-- The number of bytes, the destination and the ring afterwards.
read_bytes : Fifo → List ℕ → ℕ → Bool → ℕ × List ℕ × Fifo
unfolding get_bytes
read_bytes f dest len out =
    let valid = sub_size f.tail f.head in
    let n = if ltb valid len then valid else len in
    if n == 0 then (0, dest, f) else (
      n,
      get_bytes f.buffer f.size (bit_and f.head (mask f)) n dest,
      if out then record f { head = add_size f.head n } else f,
    )

pub fifo_read : Option Fifo → Option (List ℕ) → ℕ → Bool → ℕ × Option (List ℕ) × Option Fifo
unfolding read_bytes
fifo_read none dest len out = (0, dest, none)
fifo_read (some f) none len out = (0, none, some f)
fifo_read (some f) (some dest) len out =
    if len == 0
    then (0, some dest, some f)
    else (let (n, dest', f') = read_bytes f dest len out in (n, some dest', some f'))
