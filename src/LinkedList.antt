-- ===== src/LinkedList.antt =====
-- lib/type/type_list: intrusive singly linked lists. The memory is a function from the addresses of
-- pointers, the head's `first` and the items' `next`, to what they hold.
pub mod Chain
pub mod Add
pub mod Unlink
pub mod Del
pub mod Declared
mod Tests
use misc_c.Base.{
  ℕ, zero, suc, ◌+◌, ◌-◌, ◌%◌, ◌^◌, Bool, true, false, Option, none, some, ◌==◌, if◌then◌else◌,
}

-- NULL, `__list_end`, or the address of an item.
pub data Ptr : Type 0 where
  null end : Ptr
  item : ℕ → Ptr

-- A `list_item_t **`: the address of the head's `first` or of an item's `next`.
pub data Slot : Type 0 where
  first_slot : Slot
  next_slot : ℕ → Slot

abbrev pub slot_eq : Slot → Slot → Bool
slot_eq first_slot first_slot = true
slot_eq first_slot (next_slot n) = false
slot_eq (next_slot m) first_slot = false
slot_eq (next_slot m) (next_slot n) = m == n

abbrev pub is_end : Ptr → Bool
is_end end = true
is_end null = false
is_end (item n) = false

-- `list_head_t` with the memory it points into.
pub record Store : Type 0 where
  pub mem : Slot → Ptr
  pub last_next : Slot
  pub count : ℕ

abbrev pub write : (Slot → Ptr) → Slot → Ptr → Slot → Ptr
write mem a p b = if slot_eq a b then p else mem b

unfoldable pub type_list_init : Store → Store
type_list_init s = record s { mem = write s.mem first_slot end; last_next = first_slot }

-- fprefix ## _list_init: memset to zero, then type_list_init.
unfoldable pub list_init : Store → Store
unfolding type_list_init
list_init s =
    type_list_init
      (record { mem = write s.mem first_slot null; last_next = s.last_next; count = 0 })

unfoldable pub type_list_add : Store → (pos : Slot) → (it : ℕ) → Store
type_list_add s pos it = record {
  mem = write (write s.mem (next_slot it) (s.mem pos)) pos (item it);
  last_next = if slot_eq pos s.last_next then next_slot it else s.last_next;
  count = (s.count + 1) % 2 ^ 32;
}

unfoldable pub type_list_add_head : Store → (it : ℕ) → Store
type_list_add_head s it = type_list_add s first_slot it

unfoldable pub type_list_add_tail : Store → (it : ℕ) → Store
type_list_add_tail s it = type_list_add s s.last_next it

unfoldable pub type_list_add_after : Store → (after it : ℕ) → Store
type_list_add_after s after it = type_list_add s (next_slot after) it

-- The loop of type_list_del; `none` when the fuel is used up or a NULL is read through.
unfoldable pub find : (fuel : ℕ) → (Slot → Ptr) → Slot → (it : ℕ) → Option Slot
find zero mem at it = none
find (suc fuel) mem at it = elim (mem at) [
  | end ↦ some at
  | null ↦ none
  | item n ↦ let rest = find fuel mem (next_slot n) it in if n == it then some at else rest
]

-- What type_list_del does once its loop has stopped at `at`.
unfoldable pub unlink : Store → Slot → (it : ℕ) → Ptr × Store
unlink s at it =
    if is_end (s.mem at)
    then (null, s)
    else (let mem = write s.mem at (s.mem (next_slot it)) in
        (
          item it,
          record {
            mem = write mem (next_slot it) null;
            last_next = if is_end (mem at) then at else s.last_next;
            count = (s.count + 2 ^ 32 - 1) % 2 ^ 32;
          },
        ))

unfoldable pub type_list_del : (fuel : ℕ) → Store → (it : ℕ) → Option (Ptr × Store)
unfolding find unlink
type_list_del fuel s it = elim (find fuel s.mem first_slot it) [
  | none ↦ none
  | some at ↦ some (unlink s at it)
]

-- `none` when a NULL is read through.
unfoldable pub type_list_pop : Store → Option (Ptr × Store)
type_list_pop s = elim (s.mem first_slot) [
  | end ↦ some (null, s)
  | null ↦ none
  | item it ↦
      let rest = s.mem (next_slot it) in
      some (
        item it,
        record {
          mem = write (write s.mem first_slot rest) (next_slot it) null;
          last_next = if is_end rest then first_slot else s.last_next;
          count = (s.count + 2 ^ 32 - 1) % 2 ^ 32;
        },
      )
]

abbrev pub end_is_null : Ptr → Ptr
end_is_null p = if is_end p then null else p

unfoldable pub type_list_first : Store → Ptr
type_list_first s = end_is_null (s.mem first_slot)

unfoldable pub type_list_next : Store → (it : ℕ) → Ptr
type_list_next s it = end_is_null (s.mem (next_slot it))

unfoldable pub type_list_count : Option Store → ℕ
type_list_count none = 0
type_list_count (some s) = s.count
