-- ===== src/LinkedList/Declared.antt =====
-- The functions that declare_list defines: a structure holds its `list_item_t` at an offset.
use misc_c.Base.{
  ℕ, suc, ◌+◌, ◌-◌, ◌<◌, ◌^◌, ◌≡◌, refl, ◌∙◌, ap, ◌⊎◌, inl, inr, false, Option, none, some, List,
  [], ◌∷◌, ◌++◌, map, arith, length, length-map,
}
use misc_c.LinkedList.{
  Ptr, null, end, item, Store, type_list_add_head, type_list_add_tail, type_list_add_after,
  type_list_del, type_list_pop, type_list_first, type_list_next,
}
use misc_c.LinkedList.Chain.{occurs, IsList}
use misc_c.LinkedList.Add.{type_list_add_lem}
use misc_c.LinkedList.Del.{type_list_pop_lem}

module _ (offset : ℕ) where
  -- it ? container_of(it, type, field.list_item) : NULL
  abbrev pub container_or_null : Ptr → Ptr
  container_or_null null = null
  container_or_null end = end
  container_or_null (item n) = item (n - offset)

  pub list_add_head : Store → (it : ℕ) → Store
  list_add_head s it = type_list_add_head s (it + offset)

  pub list_add_tail : Store → (it : ℕ) → Store
  list_add_tail s it = type_list_add_tail s (it + offset)

  pub list_add_after : Store → (after it : ℕ) → Store
  list_add_after s after it = type_list_add_after s (after + offset) (it + offset)

  -- it ? item : NULL
  abbrev pub if_removed : (it : ℕ) → Ptr → Ptr
  if_removed it null = null
  if_removed it end = item it
  if_removed it (item n) = item it

  pub list_del : (fuel : ℕ) → Store → (it : ℕ) → Option (Ptr × Store)
  list_del fuel s it = elim (type_list_del fuel s (it + offset)) [
    | none ↦ none
    | some r ↦ some (if_removed it r.0, r.1)
  ]

  abbrev pub list_popped : Option (Ptr × Store) → Option (Ptr × Store)
  list_popped none = none
  list_popped (some (p, s)) = some (container_or_null p, s)

  pub list_pop : Store → Option (Ptr × Store)
  list_pop s = list_popped (type_list_pop s)

  pub list_first : Store → Ptr
  list_first s = container_or_null (type_list_first s)

  pub list_next : Store → (it : ℕ) → Ptr
  list_next s it = container_or_null (type_list_next s (it + offset))

  -- `s` is the list of the structures `ys`.
  abbrev pub IsListOf : Store → List ℕ → Type 0
  IsListOf s ys = IsList s (map (λ y. y + offset) ys)

  map-snoc :
      (ys : List ℕ) (it : ℕ)
      → map (λ y. y + offset) (ys ++ (it ∷ [])) ≡ map (λ y. y + offset) ys ++ ((it + offset) ∷ [])
  map-snoc [] it = refl
  map-snoc (y ∷ ys) it = ap (λ zs. (y + offset) ∷ zs) (map-snoc ys it)

  list_pop-IsListOf :
      (s : Store) (ys : List ℕ)
      → IsListOf s ys
      → ((ys ≡ []) × (list_pop s ≡ some (null, s)))
        ⊎ ((y : ℕ) × (rest : List ℕ) × (t : Store) × (ys ≡ y ∷ rest)
            × (list_pop s ≡ some (item y, t))
            × IsListOf t rest)
  unfolding list_pop
  list_pop-IsListOf s [] v = elim (type_list_pop_lem s [] v) [
    | inl (_, step) ↦ inl (refl, ap list_popped step)
    | inr (x, rest, t, e, _, _) ↦ absurd cc
  ]
  list_pop-IsListOf s (y ∷ ys) v = elim (type_list_pop_lem s (map (λ y. y + offset) (y ∷ ys)) v) [
    | inl (e, _) ↦ absurd cc
    | inr (x, rest, t, e, step, w) ↦
        let first : y + offset ≡ x = cc in
        let others : map (λ y. y + offset) ys ≡ rest = cc in
        let back : x - offset ≡ y = omega arith in
        inr (y, ys, t, refl, ap list_popped step ∙ ap (λ n. some (item n, t)) back, rw others w)
  ]

  -- list_add_tail and list_pop are the two ends of a queue of structures: a structure whose item is not
  -- in a list of fewer than 2^32 - 1 is added behind the others, and a pop gives the address of the
  -- first structure and leaves the others, or gives NULL for an empty list and changes nothing.
  pub list_queue_lem :
      (s : Store) (ys : List ℕ) (it : ℕ)
      → IsListOf s ys
      → occurs (it + offset) (map (λ y. y + offset) ys) ≡ false
      → suc (length ys) < 2 ^ 32
      → IsListOf (list_add_tail s it) (ys ++ (it ∷ []))
        × (((ys ≡ []) × (list_pop s ≡ some (null, s)))
            ⊎ ((y : ℕ) × (rest : List ℕ) × (t : Store) × (ys ≡ y ∷ rest)
                × (list_pop s ≡ some (item y, t))
                × IsListOf t rest))
  unfolding list_add_tail list_pop
  list_queue_lem s ys it v fresh room = (
    (let room' : suc (length (map (λ y. y + offset) ys)) < 2 ^ 32 =
          omega (arith, length-map ys (λ y. y + offset)) in
        rw (map-snoc ys it)
          ((type_list_add_lem s (map (λ y. y + offset) ys) (it + offset) v fresh room').1)),
    list_pop-IsListOf s ys v,
  )
