-- ===== src/JHash.antt =====
-- The hash functions of lib/type/type_hash.c: Bob Jenkins' hash on bytes and on words. unsigned int
-- has 32 bits.
pub mod Words
mod Tests
use Prim.Native.Nat.{bit_xor}
use misc_c.Base.{ℕ, zero, suc, ◌+◌, ◌-◌, ◌*◌, ◌/◌, ◌%◌, ◌^◌, List, leb, if◌then◌else◌, get_or, drop}

abbrev pub add_u32 : ℕ → ℕ → ℕ
add_u32 x y = (x + y) % 2 ^ 32

abbrev pub sub_u32 : ℕ → ℕ → ℕ
sub_u32 x y = (x + 2 ^ 32 - y) % 2 ^ 32

abbrev pub shl_u32 : ℕ → ℕ → ℕ
shl_u32 x k = x * 2 ^ k % 2 ^ 32

-- The variables a, b and c.
pub record Abc : Type 0 where
  pub a : ℕ
  pub b : ℕ
  pub c : ℕ

-- `x -= y; x -= z; x ^= s;`
abbrev pub mix_one : (x y z s : ℕ) → ℕ
mix_one x y z s = bit_xor (sub_u32 (sub_u32 x y) z) s

-- __jhash_mix
unfoldable pub jhash_mix : Abc → Abc
jhash_mix s =
    let a = mix_one s.a s.b s.c (s.c / 2 ^ 13) in
    let b = mix_one s.b s.c a (shl_u32 a 8) in
    let c = mix_one s.c a b (b / 2 ^ 13) in
    let a' = mix_one a b c (c / 2 ^ 12) in
    let b' = mix_one b c a' (shl_u32 a' 16) in
    let c' = mix_one c a' b' (b' / 2 ^ 5) in
    let a'' = mix_one a' b' c' (c' / 2 ^ 3) in
    let b'' = mix_one b' c' a'' (shl_u32 a'' 10) in
    let c'' = mix_one c' a'' b'' (b'' / 2 ^ 15) in record { a = a''; b = b''; c = c'' }

abbrev pub golden_ratio : ℕ
golden_ratio = 2654435769

-- k[i] + (k[i+1] << 8) + (k[i+2] << 16) + (k[i+3] << 24)
abbrev pub word_at : List ℕ → ℕ → ℕ
word_at k i =
    add_u32
      (add_u32 (add_u32 (get_or k i 0) (shl_u32 (get_or k (i + 1) 0) 8))
        (shl_u32 (get_or k (i + 2) 0) 16))
      (shl_u32 (get_or k (i + 3) 0) 24)

-- One case label of the switch and what falls through from above it.
abbrev pub case_of : (len n x y : ℕ) → ℕ
case_of len n x y = if leb n len then add_u32 x y else x

-- The switch on the bytes left.
abbrev pub tail_bytes : List ℕ → (len : ℕ) → Abc → Abc
tail_bytes k len s =
    let c = case_of len 11 s.c (shl_u32 (get_or k 10 0) 24) in
    let c' = case_of len 10 c (shl_u32 (get_or k 9 0) 16) in
    let c'' = case_of len 9 c' (shl_u32 (get_or k 8 0) 8) in
    let b = case_of len 8 s.b (shl_u32 (get_or k 7 0) 24) in
    let b' = case_of len 7 b (shl_u32 (get_or k 6 0) 16) in
    let b'' = case_of len 6 b' (shl_u32 (get_or k 5 0) 8) in
    let b''' = case_of len 5 b'' (get_or k 4 0) in
    let a = case_of len 4 s.a (shl_u32 (get_or k 3 0) 24) in
    let a' = case_of len 3 a (shl_u32 (get_or k 2 0) 16) in
    let a'' = case_of len 2 a' (shl_u32 (get_or k 1 0) 8) in
    let a''' = case_of len 1 a'' (get_or k 0 0) in record { a = a'''; b = b'''; c = c'' }

-- The loop, with the count of its rounds `len / 12`, and what follows it.
unfoldable pub jhash_loop : (rounds : ℕ) → List ℕ → (len length : ℕ) → Abc → Abc
jhash_loop zero k len length s = jhash_mix (tail_bytes k len (record s { c = add_u32 s.c length }))
jhash_loop (suc rounds) k len length s = jhash_loop rounds (drop 12 k) (len - 12) length (
    jhash_mix (record {
      a = add_u32 s.a (word_at k 0);
      b = add_u32 s.b (word_at k 4);
      c = add_u32 s.c (word_at k 8);
    }))

unfoldable pub jhash : (key : List ℕ) → (length initval : ℕ) → ℕ
jhash key length initval =
    (jhash_loop (length / 12) key length length
      (record { a = golden_ratio; b = golden_ratio; c = initval })).c

abbrev pub tail_words : List ℕ → (len : ℕ) → Abc → Abc
tail_words k len s = record s {
  b = case_of len 2 s.b (get_or k 1 0);
  a = case_of len 1 s.a (get_or k 0 0);
}

unfoldable pub jhash2_loop : (rounds : ℕ) → List ℕ → (len length : ℕ) → Abc → Abc
jhash2_loop zero k len length s =
    jhash_mix (tail_words k len (record s { c = add_u32 s.c (length * 4 % 2 ^ 32) }))
jhash2_loop (suc rounds) k len length s = jhash2_loop rounds (drop 3 k) (len - 3) length (
    jhash_mix (record {
      a = add_u32 s.a (get_or k 0 0);
      b = add_u32 s.b (get_or k 1 0);
      c = add_u32 s.c (get_or k 2 0);
    }))

unfoldable pub jhash2 : (key : List ℕ) → (length initval : ℕ) → ℕ
jhash2 key length initval =
    (jhash2_loop (length / 3) key length length
      (record { a = golden_ratio; b = golden_ratio; c = initval })).c

unfoldable pub jhash_3words : (a b c initval : ℕ) → ℕ
jhash_3words a b c initval =
    (jhash_mix
      (record { a = add_u32 a golden_ratio; b = add_u32 b golden_ratio; c = add_u32 c initval })).c

unfoldable pub jhash_1word : (a initval : ℕ) → ℕ
jhash_1word a initval = jhash_3words a 0 0 initval

unfoldable pub jhash_2words : (a b initval : ℕ) → ℕ
jhash_2words a b initval = jhash_3words a b 0 initval
