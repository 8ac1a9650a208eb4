-- ===== src/HashTable/Resized.antt =====
-- The additions and removals of declare_hash, with the resizing behind them.
use misc_c.Base.{
  ℕ, suc, ◌^◌, ◌≤◌, ◌<◌, ◌≡◌, refl, ◌∙◌, ap, ◌⊎◌, inl, inr, Bool, true, false, none, some, ◌==◌,
  arith, length, Bool-cases, Option-cases, get_or, [],
}
use misc_c.HashTable.{Item, Hash, hash_key, add_less, del_less, type_hash_add, type_hash_del}
use misc_c.HashTable.Chains.{insert, remove, holds, search}
use misc_c.HashTable.Resize.{type_hash_grow, type_hash_shrink}
use misc_c.HashTable.Policy.{
  type_hash_resize_tresh_up, type_hash_resize_tresh_down, type_hash_shift_cal, grown_after_add,
  shrunk_after_del, hash_add, finish_del, hash_del,
}
use misc_c.HashTable.Ops.{items, IsValid, item_at, type_hash_add_lem, type_hash_del_lem}
use misc_c.HashTable.Grow.{type_hash_grow_lem}
use misc_c.HashTable.Shrink.{type_hash_shrink_lem}
use misc_c.HashTable.Load.{IsSized, shift_cal-grow, shift_cal-shrink}

different : (a b : ℕ) → b < a → (a == b) ≡ false
different a b h = ground arith

le_of_lt : {a b c : ℕ} → a ≤ b → b < c → a ≤ c
le_of_lt h l = omega arith

le_lt : {a b c : ℕ} → a < b → b ≤ c → a ≤ c
le_lt h l = omega arith

not_due :
    (h : Hash)
    → type_hash_resize_tresh_up h ≡ false
    → (h.count < 2 ^ h.tab_shift) ⊎ (h.tab_shift ≡ h.max_shift)
not_due h e = ground arith

different' : (a b : ℕ) → a < b → (a == b) ≡ false
different' a b h = ground arith

-- A table as resizing leaves it: the same items, and sound shifts.
pub record Resized (hash : ℕ → ℕ) (h t : Hash) : Type 0 where
  pub valid : IsValid hash t
  pub sized : IsSized t
  pub same_items : items t ≡ items h

module _ (hash : ℕ → ℕ) (h : Hash) (v : IsValid hash h) (z : IsSized h) where
  small : h.count < 2 ^ 32
  small = let c = v.counted in let n = v.narrow in omega arith

  grown-Resized :
      Resized hash h (grown_after_add h)
      × (((grown_after_add h).count < 2 ^ (grown_after_add h).tab_shift)
          ⊎ ((grown_after_add h).tab_shift ≡ h.max_shift))
  unfolding type_hash_grow
  grown-Resized = elim (Bool-cases (type_hash_resize_tresh_up h)) [
    | inr e ↦ rw e (record { valid = v; sized = z; same_items = refl }, not_due h e)
    | inl e ↦
        let (larger, capped, load) = shift_cal-grow h z small e in
        let top = z.max_bound in
        let low = z.above_min in
        let other : (type_hash_shift_cal h == h.tab_shift) ≡ false = different _ _ larger in
        let (valid, same_items, _) =
          type_hash_grow_lem hash h (type_hash_shift_cal h) v larger (omega arith) in
        rw (e, other)
          (
            record {
              valid = valid;
              sized = record {
                min_pos = z.min_pos;
                above_min = le_of_lt low larger;
                below_max = capped;
                max_bound = top;
              };
              same_items = same_items;
            },
            load,
          )
  ]

  shrunk-Resized : Resized hash h (shrunk_after_del h)
  unfolding type_hash_shrink
  shrunk-Resized = elim (Bool-cases (type_hash_resize_tresh_down h)) [
    | inr e ↦ rw e (record { valid = v; sized = z; same_items = refl })
    | inl e ↦
        let (smaller, floor) = shift_cal-shrink h z small e in
        let top = z.below_max in
        let other : (type_hash_shift_cal h == h.tab_shift) ≡ false = different' _ _ smaller in
        let (valid, same_items, _) =
          type_hash_shrink_lem hash h (type_hash_shift_cal h) v smaller in
        rw (e, other)
          (record {
            valid = valid;
            sized = record {
              min_pos = z.min_pos;
              above_min = floor;
              below_max = le_lt smaller top;
              max_bound = z.max_bound;
            };
            same_items = same_items;
          })
  ]

-- Additions and removals leave the shifts alone.
abbrev Shifts : Hash → Hash → Type 0
Shifts h t = (t.tab_shift ≡ h.tab_shift) × (t.min_shift ≡ h.min_shift) × (t.max_shift ≡ h.max_shift)

add-Shifts :
    (same : ℕ → ℕ → Bool) (hash : ℕ → ℕ) (h : Hash) (addr : ℕ)
    → Shifts h (type_hash_add same hash h addr).1
unfolding type_hash_add
add-Shifts same hash h addr =
    let it = item_at hash addr in
    let c = get_or h.entries (hash_key h.tab_shift it.hash_val) [] in
    elim (Option-cases (add_less same it c).found) [
      | inl e ↦ rw (type_hash_add, e) (refl, refl, refl)
      | inr (x, e) ↦ rw (type_hash_add, e) (refl, refl, refl)
    ]

del-Shifts : (h : Hash) (it : Item) → Shifts h (type_hash_del h it).1
unfolding type_hash_del
del-Shifts h it =
    let c = get_or h.entries (hash_key h.tab_shift it.hash_val) [] in
    elim (Option-cases (del_less it c).found) [
      | inl e ↦ rw (type_hash_del, e) (refl, refl, refl)
      | inr (x, e) ↦ rw (type_hash_del, e) (refl, refl, refl)
    ]

Shifts-IsSized : (h t : Hash) → Shifts h t → IsSized h → IsSized t
Shifts-IsSized h t (e, f, g) z = record {
  min_pos = rw f z.min_pos;
  above_min = rw (e, f) z.above_min;
  below_max = rw (e, g) z.below_max;
  max_bound = rw g z.max_bound;
}

-- hash_add on a valid table with sound shifts and fewer than 2^32 - 1 items: an item of that hash
-- value which the comparison takes for the same is returned and no item changes; else NULL is returned
-- and the item is added behind those whose hash value is not greater. The table is valid with sound
-- shifts again, and it has fewer items than buckets or the largest shift.
pub hash_add_lem :
    (same : ℕ → ℕ → Bool) (hash : ℕ → ℕ) (h : Hash) (addr : ℕ)
    → ((a : ℕ) → hash a < 2 ^ 32)
    → IsValid hash h
    → IsSized h
    → suc (length (items h)) < 2 ^ 32
    → (t : Hash) × (((x : Item) × (search same (item_at hash addr) (items h) ≡ some x)
          × (hash_add same hash h addr ≡ (some x, t))
          × (items t ≡ items h))
        ⊎ ((search same (item_at hash addr) (items h) ≡ none)
            × (hash_add same hash h addr ≡ (none, t))
            × (items t ≡ insert (item_at hash addr) (items h))))
      × IsValid hash t
      × IsSized t
      × ((t.count < 2 ^ t.tab_shift) ⊎ (t.tab_shift ≡ h.max_shift))
unfolding hash_add
hash_add_lem same hash h addr wide v z room =
    elim (type_hash_add_lem same hash h addr wide v room) [
      | inl (x, there, step) ↦
          let (r, load) = grown-Resized hash h v z in
          (grown_after_add h, inl (x, there, rw step refl, r.same_items), r.valid, r.sized, load)
      | inr (t, absent, step, v', added) ↦
          let k : Shifts h t = rw (ap (λ p. p.1) step) at (add-Shifts same hash h addr) in
          let z' = Shifts-IsSized h t k z in
          let (r, load) = grown-Resized hash t v' z' in
          (
            grown_after_add t,
            inr (absent, rw step refl, r.same_items ∙ added),
            r.valid,
            r.sized,
            rw (← k.2) load,
          )
    ]

-- hash_del on a valid table with sound shifts, for an item that carries its hash value: if it is
-- in the table, it is returned and taken out, the others stay in their order, and the table is valid
-- with sound shifts again; else NULL is returned and nothing changes.
pub hash_del_lem :
    (hash : ℕ → ℕ) (h : Hash) (it : Item)
    → ((a : ℕ) → hash a < 2 ^ 32)
    → it.hash_val ≡ hash it.addr
    → IsValid hash h
    → IsSized h
    → ((t : Hash) × (holds it (items h) ≡ true)
        × (hash_del h it ≡ (some it, t))
        × (items t ≡ remove it (items h))
        × IsValid hash t
        × IsSized t)
      ⊎ ((holds it (items h) ≡ false) × (hash_del h it ≡ (none, h)))
unfolding hash_del
hash_del_lem hash h it wide g v z = elim (type_hash_del_lem hash h it wide g v) [
  | inl (t, there, step, v', removed) ↦
      let k : Shifts h t = rw (ap (λ p. p.1) step) at (del-Shifts h it) in
      let r = shrunk-Resized hash t v' (Shifts-IsSized h t k z) in
      inl (shrunk_after_del t, there, ap finish_del step, r.same_items ∙ removed, r.valid, r.sized)
  | inr (absent, step) ↦ inr (absent, ap finish_del step)
]
