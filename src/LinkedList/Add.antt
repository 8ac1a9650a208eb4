-- ===== src/LinkedList/Add.antt =====
-- The additions to a list, against lists of items.
use misc_c.Base.{
  ℕ, suc, ◌<◌, ◌^◌, ◌≡◌, refl, sym, ◌∙◌, true, false, ◌||◌, List, [], ◌∷◌, ◌++◌, arith,
  if◌then◌else◌, length, length-append, append-nil, append_assoc,
}
use misc_c.LinkedList.{
  Ptr, item, Slot, first_slot, next_slot, slot_eq, Store, write, type_list_add, type_list_add_head,
  type_list_add_tail, type_list_add_after,
}
use misc_c.LinkedList.Chain.{
  occurs, distinct, slot_of, Chain, last_slot, IsList, slot_eq_refl, write_self, write_ne,
  Chain-write, Chain-start, last_slot-append,
}

pub occurs-append : (n : ℕ) (xs ys : List ℕ) → occurs n (xs ++ ys) ≡ (occurs n xs || occurs n ys)
occurs-append n [] ys = refl
occurs-append n (x ∷ xs) ys = ground (arith, occurs-append n xs ys)

pub slot_of_front :
    (at : Slot) (xs ys : List ℕ) → slot_of at (xs ++ ys) ≡ false → slot_of at xs ≡ false
slot_of_front first_slot xs ys h = refl
slot_of_front (next_slot n) xs ys h = ground (arith, occurs-append n xs ys)

-- A slot from which a chain starts is not the last of a chain of other items behind it.
pub last_slot-ne :
    (at : Slot) (x : ℕ) (xs : List ℕ)
    → slot_of at (x ∷ xs) ≡ false
    → slot_eq (last_slot (next_slot x) xs) at ≡ false
last_slot-ne first_slot x [] h = refl
last_slot-ne (next_slot n) x [] h = ground arith
last_slot-ne first_slot x (y ∷ xs) h = last_slot-ne first_slot y xs refl
last_slot-ne (next_slot n) x (y ∷ xs) h = last_slot-ne (next_slot n) y xs (ground arith)

pub distinct-insert :
    (n : ℕ) (xs ys : List ℕ)
    → occurs n (xs ++ ys) ≡ false
    → distinct (xs ++ ys) ≡ true
    → distinct (xs ++ n ∷ ys) ≡ true
distinct-insert n [] ys h d = ground arith
distinct-insert n (x ∷ xs) ys h d =
    ground (arith, distinct-insert n xs ys, occurs-append x xs ys, occurs-append x xs (n ∷ ys))

-- An item whose `next` leads on as the slot behind `xs` does is linked in behind `xs`.
Chain-link :
    (mem : Slot → Ptr) (n : ℕ) (at : Slot) (xs ys : List ℕ)
    → Chain mem at (xs ++ ys)
    → slot_of at (xs ++ ys) ≡ false
    → distinct (xs ++ ys) ≡ true
    → occurs n (xs ++ ys) ≡ false
    → slot_eq at (next_slot n) ≡ false
    → mem (next_slot n) ≡ mem (last_slot at xs)
    → Chain (write mem (last_slot at xs) (item n)) at (xs ++ n ∷ ys)
unfolding Chain
Chain-link mem n at [] ys c ha d hn hs e = (
  write_self mem at (item n),
  Chain-write mem at (item n) (next_slot n) ys hs ha (Chain-start mem at (next_slot n) ys e c),
)
Chain-link mem n at (x ∷ xs) ys (c, cs) ha d hn hs e = (
  write_ne mem (last_slot (next_slot x) xs) at (item n)
        (last_slot-ne at x xs (slot_of_front at (x ∷ xs) ys ha))
      ∙ c,
  Chain-link mem n (next_slot x) xs ys cs (ground arith) (ground arith) (ground arith)
      (ground arith) e,
)

pub slot_eq_sym : (a b : Slot) → slot_eq a b ≡ slot_eq b a
slot_eq_sym first_slot first_slot = refl
slot_eq_sym first_slot (next_slot n) = refl
slot_eq_sym (next_slot n) first_slot = refl
slot_eq_sym (next_slot m) (next_slot n) = ground arith

pub last_slot-fresh :
    (n : ℕ) (at : Slot) (xs : List ℕ)
    → slot_eq (next_slot n) at ≡ false
    → occurs n xs ≡ false
    → slot_eq (next_slot n) (last_slot at xs) ≡ false
last_slot-fresh n at [] e h = e
last_slot-fresh n at (x ∷ xs) e h = last_slot-fresh n (next_slot x) xs (ground arith) (ground arith)

-- The new item is the last one exactly if it is linked in behind the last one.
last_slot-insert :
    (at : Slot) (n : ℕ) (xs ys : List ℕ)
    → slot_of at (xs ++ ys) ≡ false
    → distinct (xs ++ ys) ≡ true
    → last_slot at (xs ++ n ∷ ys) ≡ (
        if slot_eq (last_slot at xs) (last_slot at (xs ++ ys))
        then next_slot n
        else last_slot at (xs ++ ys))
last_slot-insert at n [] [] h d = rw (slot_eq_refl at) refl
last_slot-insert at n [] (y ∷ ys) h d =
    rw (slot_eq_sym at (last_slot (next_slot y) ys), last_slot-ne at y ys h) refl
last_slot-insert at n (x ∷ xs) ys h d =
    last_slot-insert (next_slot x) n xs ys (ground arith) (ground arith)

module _ (s : Store) (n : ℕ) where
  -- An addition at the slot behind `xs`.
  type_list_add-IsList :
      (xs ys : List ℕ)
      → IsList s (xs ++ ys)
      → occurs n (xs ++ ys) ≡ false
      → suc (length (xs ++ ys)) < 2 ^ 32
      → IsList (type_list_add s (last_slot first_slot xs) n) (xs ++ n ∷ ys)
  unfolding type_list_add
  type_list_add-IsList xs ys v fresh room =
      let pos = last_slot first_slot xs in
      let mem = write s.mem (next_slot n) (s.mem pos) in
      let apart : slot_eq (next_slot n) pos ≡ false =
        last_slot-fresh n first_slot xs refl (ground (arith, occurs-append n xs ys)) in
      let longer : length (xs ++ n ∷ ys) ≡ suc (length (xs ++ ys)) =
        omega (arith, length-append xs ys, length-append xs (n ∷ ys)) in
      record {
        linked =
            Chain-link mem n first_slot xs ys
              (Chain-write s.mem (next_slot n) (s.mem pos) first_slot (xs ++ ys) refl fresh
                v.linked)
              refl v.apart fresh refl
              (write_self s.mem (next_slot n) (s.mem pos)
                ∙ sym (write_ne s.mem (next_slot n) pos (s.mem pos) apart));
        apart = distinct-insert n xs ys fresh v.apart;
        last = rw v.last (sym (last_slot-insert first_slot n xs ys refl v.apart));
        counted = let c = v.counted in omega arith;
        narrow = omega arith;
      }

  add_at-IsList :
      (pos : Slot) (xs ys zs : List ℕ)
      → zs ≡ xs ++ ys
      → pos ≡ last_slot first_slot xs
      → IsList s zs
      → occurs n zs ≡ false
      → suc (length zs) < 2 ^ 32
      → IsList (type_list_add s pos n) (xs ++ n ∷ ys)
  add_at-IsList pos xs ys zs e p v fresh room =
      rw p (type_list_add-IsList xs ys (rw (← e) v) (rw (← e) fresh) (rw (← e) room))

-- An item that is not in a list of fewer than 2^32 - 1 items is added by type_list_add_head
-- before the others, by type_list_add_tail behind them, and by type_list_add_after behind the item
-- named; the order of the others stays, and so do the invariant of the links, of lastNext and
-- of the count.
pub type_list_add_lem :
    (s : Store) (xs : List ℕ) (n : ℕ)
    → IsList s xs
    → occurs n xs ≡ false
    → suc (length xs) < 2 ^ 32
    → IsList (type_list_add_head s n) (n ∷ xs)
      × IsList (type_list_add_tail s n) (xs ++ (n ∷ []))
      × ((before behind : List ℕ) (after : ℕ)
          → xs ≡ before ++ after ∷ behind
          → IsList (type_list_add_after s after n) (before ++ after ∷ n ∷ behind))
unfolding type_list_add_head type_list_add_tail type_list_add_after
type_list_add_lem s xs n v fresh room = (
  type_list_add-IsList s n [] xs v fresh room,
  add_at-IsList s n s.last_next xs [] xs (sym (append-nil xs)) v.last v fresh room,
  λ before behind after e.
      let front = before ++ (after ∷ []) in
      let split : xs ≡ front ++ behind = e ∙ sym (append_assoc before (after ∷ []) behind) in
      rw (← append_assoc before (after ∷ []) (n ∷ behind)) (
        add_at-IsList s n (next_slot after) front behind xs split
          (sym (last_slot-append first_slot before (after ∷ []))) v fresh room),
)
