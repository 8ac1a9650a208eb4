-- ===== src/HashTable/Cut.antt =====
-- One sorted chain cut by the low bits of the new keys.

use misc_c.Base.{
  ℕ, zero, suc, ◌+◌, ◌-◌, ◌*◌, ◌%◌, ◌^◌, ◌≤◌, ◌<◌, ◌≡◌, refl, ◌∙◌, ap, Bool, true, ◌&&◌, List, [],
  ◌∷◌, ◌++◌, arith, ltb, leb, length, Bool-cases, inl, inr, append-nil,
}
use misc_c.Base.Bits.{mask-mod, mod_unique}
use misc_c.HashTable.{Item, hash_key}
use misc_c.HashTable.Chains.{from, sorted}
use misc_c.HashTable.Buckets.{concat, all_key, placed, key_lt}
use misc_c.HashTable.Resize.{mid_bits, cut_chain, spread}

-- Whether all keys of the list lie between `lo` and `hi`, the latter excluded.
abbrev pub within : (shift lo hi : ℕ) → List Item → Bool
within shift lo hi [] = true
within shift lo hi (x ∷ xs) =
    leb lo (hash_key shift x.hash_val)
    && (ltb (hash_key shift x.hash_val) hi && within shift lo hi xs)

module _ (shift delta b : ℕ) where
  abbrev first : ℕ
  first = b * 2 ^ delta

  -- Inside the new buckets of an old one the low bits count from the first on.
  mid_eq :
      (x : Item)
      → first ≤ hash_key shift x.hash_val
      → hash_key shift x.hash_val < first + 2 ^ delta
      → mid_bits shift delta x + first ≡ hash_key shift x.hash_val
  mid_eq x lo hi =
      let key = hash_key shift x.hash_val in
      let low : key % 2 ^ delta ≡ key - first =
        mod_unique key (2 ^ delta) b (key - first) (omega arith) (omega arith) in
      omega (arith, mask-mod delta key)

  -- Behind an item cut off, all keys are as large.
  within-from :
      (i hi : ℕ) (x : Item) (xs : List Item) (lo : ℕ)
      → from x xs ≡ true
      → within shift lo hi xs ≡ true
      → i ≤ hash_key shift x.hash_val
      → within shift i hi xs ≡ true
  within-from i hi x [] lo f w l = refl
  within-from i hi x (y ∷ xs) lo f w l =
      ground (arith, within-from i hi x xs lo, key_lt shift y.hash_val x.hash_val)

  -- What a cut at new bucket `i` gives.
  record Cut (i : ℕ) (c : List Item) (front rest : List Item) : Type 0 where
    pub joined : front ++ rest ≡ c
    pub here : all_key shift (first + i) front ≡ true
    pub later : within shift (first + i + 1) (first + 2 ^ delta) rest ≡ true
    pub front_sorted : sorted front ≡ true
    pub rest_sorted : sorted rest ≡ true

  from-front : (x : Item) (xs ys : List Item) → from x (xs ++ ys) ≡ true → from x xs ≡ true
  from-front x [] ys f = refl
  from-front x (y ∷ xs) ys f = ground (arith, from-front x xs ys)

  cut_chain-Cut :
      (i : ℕ) (c : List Item)
      → sorted c ≡ true
      → within shift (first + i) (first + 2 ^ delta) c ≡ true
      → Cut i c (cut_chain shift delta i c).0 (cut_chain shift delta i c).1
  cut_chain-Cut i [] s w = record {
    joined = refl;
    here = refl;
    later = refl;
    front_sorted = refl;
    rest_sorted = refl;
  }
  cut_chain-Cut i (x ∷ xs) s w =
      let mid = mid_eq x (ground arith) (ground arith) in
      elim (Bool-cases (ltb i (mid_bits shift delta x))) [
        | inl e ↦ rw e (record {
          joined = refl;
          here = refl;
          later =
              let past : first + i + 1 ≤ hash_key shift x.hash_val = ground arith in
              ground (arith, within-from (first + i + 1) (first + 2 ^ delta) x xs (first + i));
          front_sorted = refl;
          rest_sorted = s;
        })
        | inr e ↦
            let rest = cut_chain-Cut i xs (ground arith) (ground arith) in
            let j = rest.joined in
            rw e (record {
              joined = ap (λ ys. x ∷ ys) j;
              here = let h = rest.here in ground arith;
              later = rest.later;
              front_sorted =
                  let h = rest.front_sorted in
                  let f : from x ((cut_chain shift delta i xs).0 ++ (cut_chain shift delta i xs).1)
                      ≡ true =
                    rw j (ground arith) in
                  ground (
                    arith,
                    from-front x (cut_chain shift delta i xs).0 (cut_chain shift delta i xs).1,
                  );
              rest_sorted = rest.rest_sorted;
            })
      ]

  within_one :
      (lo hi : ℕ) (c : List Item)
      → hi ≡ lo + 1
      → within shift lo hi c ≡ true
      → all_key shift lo c ≡ true
  within_one lo hi [] e w = refl
  within_one lo hi (x ∷ c) e w = ground (arith, within_one lo hi c)

  -- What the chains of the new buckets from number `i` on are.
  pub record Spread (n i : ℕ) (c : List Item) (cs : List (List Item)) : Type 0 where
    pub joined : concat cs ≡ c
    pub ok : placed shift (first + i) cs ≡ true
    pub count : length cs ≡ n

  pub spread-Spread :
      (n i : ℕ) (c : List Item)
      → 0 < n
      → i + n ≡ 2 ^ delta
      → sorted c ≡ true
      → within shift (first + i) (first + 2 ^ delta) c ≡ true
      → Spread n i c (spread shift delta n i c)
  spread-Spread zero i c pos e s w = absurd (omega arith)
  spread-Spread (suc zero) i c pos e s w =
      let all = within_one (first + i) (first + 2 ^ delta) c (omega arith) w in
      record { joined = append-nil c; ok = ground arith; count = refl }
  spread-Spread (suc (suc n)) i c pos e s w =
      let (front, rest) = cut_chain shift delta i c in
      let k = cut_chain-Cut i c s w in
      let step : first + i + 1 ≡ first + (i + 1) = omega arith in
      let later : within shift (first + (i + 1)) (first + 2 ^ delta) rest ≡ true =
        rw (← step) k.later in
      let r = spread-Spread (suc n) (i + 1) rest (omega arith) (omega arith) k.rest_sorted later in
      record {
        joined = ap (λ ys. front ++ ys) r.joined ∙ k.joined;
        ok =
            let h = k.here in
            let f = k.front_sorted in
            let o : placed shift (first + i + 1) (spread shift delta (suc n) (i + 1) rest) ≡ true =
              rw step r.ok in
            ground arith;
        count = ap suc r.count;
      }
