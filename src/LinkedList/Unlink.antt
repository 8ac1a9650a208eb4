-- ===== src/LinkedList/Unlink.antt =====
-- The loop of type_list_del, and the links around an item that is taken out.
use misc_c.Base.{
  ℕ, zero, suc, ◌+◌, ◌-◌, ◌<◌, ◌%◌, ◌^◌, ◌≡◌, refl, sym, ◌∙◌, ap, true, false, some, List, [], ◌∷◌,
  ◌++◌, arith, ◌==◌, if◌then◌else◌, length, Bool-cases, inl, inr, length-append, append-nil,
}
use misc_c.LinkedList.{
  Ptr, null, end, item, Slot, first_slot, next_slot, is_end, Store, write, find, unlink,
}
use misc_c.LinkedList.Chain.{
  occurs, distinct, slot_of, Chain, last_slot, IsList, slot_eq_refl, write_self, write_ne,
  Chain-write, Chain-start, last_slot-append,
}
use misc_c.LinkedList.Add.{occurs-append, slot_of_front, last_slot-ne, slot_eq_sym}

slot_of_back : (at : Slot) (xs ys : List ℕ) → slot_of at (xs ++ ys) ≡ false → slot_of at ys ≡ false
slot_of_back first_slot xs ys h = refl
slot_of_back (next_slot n) xs ys h = ground (arith, occurs-append n xs ys)

-- The list without the first occurrence of `n`.
abbrev pub erase : ℕ → List ℕ → List ℕ
erase n [] = []
erase n (x ∷ xs) = if x == n then xs else x ∷ erase n xs

-- An item of a list, with what stands before it and behind it.
pub record Split (n : ℕ) (xs : List ℕ) : Type 0 where
  pub before : List ℕ
  pub behind : List ℕ
  pub whole : xs ≡ before ++ n ∷ behind
  pub rest : erase n xs ≡ before ++ behind
  pub first : occurs n before ≡ false

pub occurs-Split : (n : ℕ) (xs : List ℕ) → occurs n xs ≡ true → Split n xs
occurs-Split n [] h = absurd cc
occurs-Split n (x ∷ xs) h = elim (Bool-cases (x == n)) [
  | inl e ↦
      let same : x ≡ n = ground arith in
      record {
        before = [];
        behind = xs;
        whole = ap (λ y. y ∷ xs) same;
        rest = rw e refl;
        first = refl;
      }
  | inr e ↦
      let s = occurs-Split n xs (ground arith) in
      record {
        before = x ∷ s.before;
        behind = s.behind;
        whole = ap (λ ys. x ∷ ys) s.whole;
        rest = rw e (ap (λ ys. x ∷ ys) s.rest);
        first = let f = s.first in ground arith;
      }
]

-- The loop stops at the slot that leads to the item.
pub find-there :
    (mem : Slot → Ptr) (n fuel : ℕ) (at : Slot) (xs ys : List ℕ)
    → Chain mem at (xs ++ n ∷ ys)
    → occurs n xs ≡ false
    → length xs < fuel
    → find fuel mem at n ≡ some (last_slot at xs)
unfolding Chain find
find-there mem n zero at xs ys c h f = absurd (omega arith)
find-there mem n (suc fuel) at [] ys (c, cs) h f =
    let same : (n == n) ≡ true = ground arith in rw (find, c, same) refl
find-there mem n (suc fuel) at (x ∷ xs) ys (c, cs) h f =
    let other : (x == n) ≡ false = ground arith in
    rw (find, c, other) (find-there mem n fuel (next_slot x) xs ys cs (ground arith) (omega arith))

pub find-absent :
    (mem : Slot → Ptr) (n fuel : ℕ) (at : Slot) (xs : List ℕ)
    → Chain mem at xs
    → occurs n xs ≡ false
    → length xs < fuel
    → (find fuel mem at n ≡ some (last_slot at xs)) × (mem (last_slot at xs) ≡ end)
unfolding Chain find
find-absent mem n zero at xs c h f = absurd (omega arith)
find-absent mem n (suc fuel) at [] c h f = (rw (find, c) refl, c)
find-absent mem n (suc fuel) at (x ∷ xs) (c, cs) h f =
    let other : (x == n) ≡ false = ground arith in
    let (found, stop) = find-absent mem n fuel (next_slot x) xs cs (ground arith) (omega arith) in
    (rw (find, c, other) found, stop)

-- A slot that takes over what the item's `next` holds takes the item out.
Chain-unlink :
    (mem : Slot → Ptr) (n : ℕ) (at : Slot) (xs ys : List ℕ)
    → Chain mem at (xs ++ n ∷ ys)
    → slot_of at (xs ++ n ∷ ys) ≡ false
    → distinct (xs ++ n ∷ ys) ≡ true
    → Chain (write mem (last_slot at xs) (mem (next_slot n))) at (xs ++ ys)
unfolding Chain
Chain-unlink mem n at [] ys (c, cs) ha d =
    let p = mem (next_slot n) in
    let other =
      slot_eq_sym at (next_slot n) ∙ last_slot-ne at n [] (slot_of_front at (n ∷ []) ys ha) in
    Chain-start (write mem at p) (next_slot n) at ys
      (write_self mem at p ∙ sym (write_ne mem at (next_slot n) p other))
      (Chain-write mem at p (next_slot n) ys other (slot_of_back at (n ∷ []) ys ha) cs)
Chain-unlink mem n at (x ∷ xs) ys (c, cs) ha d = (
  write_ne mem (last_slot (next_slot x) xs) at (mem (next_slot n))
        (last_slot-ne at x xs (slot_of_front at (x ∷ xs) (n ∷ ys) ha))
      ∙ c,
  Chain-unlink mem n (next_slot x) xs ys cs (ground arith) (ground arith),
)

distinct-remove :
    (n : ℕ) (xs ys : List ℕ)
    → distinct (xs ++ n ∷ ys) ≡ true
    → (distinct (xs ++ ys) ≡ true) × (occurs n (xs ++ ys) ≡ false)
distinct-remove n [] ys d = (ground arith, ground arith)
distinct-remove n (x ∷ xs) ys d =
    let (d', h) = distinct-remove n xs ys (ground arith) in
    (
      ground (arith, occurs-append x xs ys, occurs-append x xs (n ∷ ys)),
      ground (arith, occurs-append x xs (n ∷ ys)),
    )

-- Behind the removal the slot holds the end exactly if the item was the last.
last_slot-remove :
    (mem : Slot → Ptr) (at : Slot) (n : ℕ) (xs ys : List ℕ)
    → Chain mem (next_slot n) ys
    → last_slot at (xs ++ ys)
      ≡ (if is_end (mem (next_slot n)) then last_slot at xs else last_slot at (xs ++ n ∷ ys))
unfolding Chain
last_slot-remove mem at n xs [] c = rw (c, append-nil xs) refl
last_slot-remove mem at n xs (y ∷ ys) (c, cs) =
    rw (c, last_slot-append at xs (y ∷ ys), last_slot-append at xs (n ∷ y ∷ ys)) refl

Chain-item :
    (mem : Slot → Ptr) (at : Slot) (n : ℕ) (xs ys : List ℕ)
    → Chain mem at (xs ++ n ∷ ys)
    → (mem (last_slot at xs) ≡ item n) × Chain mem (next_slot n) ys
unfolding Chain
Chain-item mem at n [] ys c = c
Chain-item mem at n (x ∷ xs) ys (c, cs) = Chain-item mem (next_slot x) n xs ys cs

module _ (s : Store) (n : ℕ) (xs ys : List ℕ) (v : IsList s (xs ++ n ∷ ys)) where
  -- What both removals leave.
  abbrev pub removed : Store
  removed =
      let at = last_slot first_slot xs in
      let rest = s.mem (next_slot n) in
      record {
        mem = write (write s.mem at rest) (next_slot n) null;
        last_next = if is_end rest then at else s.last_next;
        count = (s.count + 2 ^ 32 - 1) % 2 ^ 32;
      }

  pub removed-IsList : IsList removed (xs ++ ys)
  removed-IsList =
      let at = last_slot first_slot xs in
      let rest = s.mem (next_slot n) in
      let (d, gone) = distinct-remove n xs ys v.apart in
      let shorter : length (xs ++ n ∷ ys) ≡ suc (length (xs ++ ys)) =
        omega (arith, length-append xs ys, length-append xs (n ∷ ys)) in
      record {
        linked =
            Chain-write (write s.mem at rest) (next_slot n) null first_slot (xs ++ ys) refl gone
              (Chain-unlink s.mem n first_slot xs ys v.linked refl v.apart);
        apart = d;
        last =
            let (_, cs) = Chain-item s.mem first_slot n xs ys v.linked in
            rw v.last (sym (last_slot-remove s.mem first_slot n xs ys cs));
        counted = let c = v.counted in let w = v.narrow in omega arith;
        narrow = let w = v.narrow in omega arith;
      }

  pub unlink-removed : unlink s (last_slot first_slot xs) n ≡ (item n, removed)
  unfolding unlink
  unlink-removed =
      let at = last_slot first_slot xs in
      let (there, _) = Chain-item s.mem first_slot n xs ys v.linked in
      rw (there, slot_eq_refl at) refl
