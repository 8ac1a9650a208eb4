-- ===== src/LinkedList/Tests.antt =====
-- Tests of the linked list, and its theorems at a list of two items.
use misc_c.Base.{ℕ, ◌≡◌, ◌⊎◌, refl, true, false, some, List, [], ◌∷◌, ◌++◌, arith}
use misc_c.LinkedList.{
  null, item, first_slot, Store, list_init, type_list_add_tail, type_list_del, type_list_first,
  type_list_next, type_list_count, type_list_add, type_list_init,
}
use misc_c.LinkedList.Declared.{IsListOf, list_add_tail, list_pop, list_queue_lem}
use misc_c.LinkedList.Chain.{occurs, IsList}
use misc_c.LinkedList.Add.{type_list_add_lem}
use misc_c.LinkedList.Unlink.{erase}
use misc_c.LinkedList.Del.{type_list_del_lem, list_init-IsList}

abbrev items : List ℕ
items = 5 ∷ 7 ∷ []

abbrev no_items : Store
no_items = list_init (record { mem = λ a. null; last_next = first_slot; count = 9 })

abbrev two_items : Store
two_items = type_list_add_tail (type_list_add_tail no_items 5) 7

one_item-IsList : IsList (type_list_add_tail no_items 5) (5 ∷ [])
one_item-IsList = (type_list_add_lem no_items [] 5 (list_init-IsList _) refl (omega arith)).1

two_items-IsList : IsList two_items (5 ∷ 7 ∷ [])
two_items-IsList =
    (type_list_add_lem (type_list_add_tail no_items 5) (5 ∷ []) 7 one_item-IsList refl
      (omega arith)).1

walk_of_two :
    (type_list_first two_items ≡ item 5)
    × (type_list_next two_items 5 ≡ item 7)
    × (type_list_next two_items 7 ≡ null)
    × (type_list_count (some two_items) ≡ 2)
unfolding type_list_first type_list_next type_list_count type_list_add_tail type_list_add list_init
    type_list_init
walk_of_two = (refl, refl, refl, refl)

type_list_del_lem_example :
    ((occurs 7 items ≡ true)
      × (t : Store) × (type_list_del 3 two_items 7 ≡ some (item 7, t))
      × IsList t (erase 7 items))
    ⊎ ((occurs 7 items ≡ false) × (type_list_del 3 two_items 7 ≡ some (null, two_items)))
type_list_del_lem_example = type_list_del_lem two_items items 7 3 two_items-IsList (omega arith)

-- The structures at 4 and 6 hold the two items at offset 1.
two_structures : IsListOf 1 two_items (4 ∷ 6 ∷ [])
two_structures = two_items-IsList

abbrev structures : List ℕ
structures = 4 ∷ 6 ∷ []

list_queue_lem_example :
    IsListOf 1 (list_add_tail 1 two_items 8) (structures ++ (8 ∷ []))
    × (((structures ≡ []) × (list_pop 1 two_items ≡ some (null, two_items)))
        ⊎ ((y : ℕ) × (rest : List ℕ) × (t : Store) × (structures ≡ y ∷ rest)
            × (list_pop 1 two_items ≡ some (item y, t))
            × IsListOf 1 t rest))
list_queue_lem_example = list_queue_lem 1 two_items structures 8 two_structures refl (omega arith)
