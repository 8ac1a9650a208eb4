-- ===== src/LinkedList/Del.antt =====
-- The removals from a list and the walk along it, against lists of items.
use misc_c.Base.{
  ℕ, zero, suc, ◌<◌, ◌≤◌, ◌≡◌, refl, ap, ◌⊎◌, true, false, none, some, List, [], ◌∷◌, ◌++◌, arith,
  length, Bool-cases, inl, inr, length-append,
}
use misc_c.LinkedList.{
  end_is_null, list_init, Ptr, null, end, item, Slot, first_slot, next_slot, Store, unlink,
  type_list_del, type_list_pop, type_list_first, type_list_next, type_list_count,
}
use misc_c.LinkedList.Chain.{occurs, Chain, IsList}
use misc_c.LinkedList.Unlink.{
  erase, occurs-Split, find-there, find-absent, removed, removed-IsList, unlink-removed,
}

-- type_list_del on a list of items, with more fuel than it has items: an item of the list
-- is returned and taken out, the others stay in order, and so do the invariant of the links, of
-- lastNext and of the count; for another item it returns NULL and changes nothing.
pub type_list_del_lem :
    (s : Store) (xs : List ℕ) (n fuel : ℕ)
    → IsList s xs
    → length xs < fuel
    → ((occurs n xs ≡ true)
        × (t : Store) × (type_list_del fuel s n ≡ some (item n, t))
        × IsList t (erase n xs))
      ⊎ ((occurs n xs ≡ false) × (type_list_del fuel s n ≡ some (null, s)))
unfolding type_list_del
type_list_del_lem s xs n fuel v f = elim (Bool-cases (occurs n xs)) [
  | inr h ↦
      let (found, stop) = find-absent s.mem n fuel first_slot xs v.linked h f in
      inr (h, rw (type_list_del, found, unlink, stop) refl)
  | inl h ↦
      let k = occurs-Split n xs h in
      let v' : IsList s (k.before ++ n ∷ k.behind) = rw (← k.whole) v in
      let f' : length k.before < fuel =
        omega (arith, ap length k.whole, length-append k.before (n ∷ k.behind)) in
      let found = find-there s.mem n fuel first_slot k.before k.behind v'.linked k.first f' in
      inl (
        h,
        removed s n k.before k.behind v',
        rw (type_list_del, found, unlink-removed s n k.before k.behind v') refl,
        rw k.rest (removed-IsList s n k.before k.behind v'),
      )
]

-- type_list_pop on an empty list returns NULL and changes nothing; on another list it returns
-- the first item and leaves the list of the others.
pub type_list_pop_lem :
    (s : Store) (xs : List ℕ)
    → IsList s xs
    → ((xs ≡ []) × (type_list_pop s ≡ some (null, s)))
      ⊎ ((x : ℕ) × (rest : List ℕ) × (t : Store) × (xs ≡ x ∷ rest)
          × (type_list_pop s ≡ some (item x, t))
          × IsList t rest)
unfolding type_list_pop Chain
type_list_pop_lem s [] v = inl (refl, rw (type_list_pop, v.linked) refl)
type_list_pop_lem s (x ∷ xs) v = inr (
  x,
  xs,
  removed s x [] xs v,
  refl,
  rw (type_list_pop, v.linked.0) refl,
  removed-IsList s x [] xs v,
)

-- The items that type_list_first and then type_list_next give, until NULL.
pub walk : (fuel : ℕ) → Store → Ptr → List ℕ
walk zero s p = []
walk (suc fuel) s (item n) = n ∷ walk fuel s (type_list_next s n)
walk (suc fuel) s null = []
walk (suc fuel) s end = []

walk-Chain :
    (s : Store) (at : Slot) (xs : List ℕ) (fuel : ℕ)
    → Chain s.mem at xs
    → length xs ≤ fuel
    → walk fuel s (end_is_null (s.mem at)) ≡ xs
unfolding Chain walk type_list_next
walk-Chain s at [] zero c h = refl
walk-Chain s at [] (suc fuel) c h = rw c refl
walk-Chain s at (x ∷ xs) zero (c, cs) h = absurd (omega arith)
walk-Chain s at (x ∷ xs) (suc fuel) (c, cs) h =
    rw c (ap (λ ys. x ∷ ys) (walk-Chain s (next_slot x) xs fuel cs (omega arith)))

-- Stepping from type_list_first by type_list_next until NULL visits exactly the items of a
-- list, in order, and type_list_count is their number, 0 for a NULL head.
pub type_list_next_lem :
    (s : Store) (xs : List ℕ) (fuel : ℕ)
    → IsList s xs
    → length xs ≤ fuel
    → (walk fuel s (type_list_first s) ≡ xs)
      × (type_list_count (some s) ≡ length xs)
      × (type_list_count none ≡ 0)
unfolding type_list_first type_list_count
type_list_next_lem s xs fuel v h = (walk-Chain s first_slot xs fuel v.linked h, v.counted, refl)

-- An initialised head is the list of no items, whatever stood there before.
pub list_init-IsList : (s : Store) → IsList (list_init s) []
unfolding list_init Chain
list_init-IsList s = record {
  linked = refl;
  apart = refl;
  last = refl;
  counted = refl;
  narrow = omega arith;
}
