-- ===== src/LinkedList/Chain.antt =====
-- The items of a list as a chain in memory, and the invariant of list_head_t.
use misc_c.Base.{
  ℕ, ◌<◌, ◌^◌, ◌≡◌, refl, ◌∙◌, ap, Bool, true, false, not, ◌&&◌, ◌||◌, List, [], ◌∷◌, ◌++◌, arith,
  ◌==◌, length,
}
use misc_c.LinkedList.{Ptr, end, item, Slot, first_slot, next_slot, slot_eq, Store, write}

abbrev pub occurs : ℕ → List ℕ → Bool
occurs n [] = false
occurs n (x ∷ xs) = (n == x) || occurs n xs

abbrev pub distinct : List ℕ → Bool
distinct [] = true
distinct (x ∷ xs) = not (occurs x xs) && distinct xs

-- Whether `a` is the `next` of one of the items.
abbrev pub slot_of : Slot → List ℕ → Bool
slot_of first_slot xs = false
slot_of (next_slot n) xs = occurs n xs

-- From `at` on, the memory leads through the items `xs` to the end.
unfoldable pub Chain : (Slot → Ptr) → Slot → List ℕ → Type 0
Chain mem at [] = mem at ≡ end
Chain mem at (x ∷ xs) = (mem at ≡ item x) × Chain mem (next_slot x) xs

-- The slot behind the items `xs`, from `at` on.
abbrev pub last_slot : Slot → List ℕ → Slot
last_slot at [] = at
last_slot at (x ∷ xs) = last_slot (next_slot x) xs

-- `s` is the list of the items `xs`.
pub record IsList (s : Store) (xs : List ℕ) : Type 0 where
  pub linked : Chain s.mem first_slot xs
  pub apart : distinct xs ≡ true
  pub last : s.last_next ≡ last_slot first_slot xs
  pub counted : s.count ≡ length xs
  pub narrow : length xs < 2 ^ 32

pub slot_eq_refl : (a : Slot) → slot_eq a a ≡ true
slot_eq_refl first_slot = refl
slot_eq_refl (next_slot n) = ground arith

pub slot_eq→≡ : (a b : Slot) → slot_eq a b ≡ true → a ≡ b
slot_eq→≡ first_slot first_slot e = refl
slot_eq→≡ first_slot (next_slot n) e = absurd cc
slot_eq→≡ (next_slot n) first_slot e = absurd cc
slot_eq→≡ (next_slot m) (next_slot n) e = ap next_slot (ground arith)

pub write_self : (mem : Slot → Ptr) (a : Slot) (p : Ptr) → write mem a p a ≡ p
write_self mem a p = rw (slot_eq_refl a) refl

pub write_ne :
    (mem : Slot → Ptr) (a b : Slot) (p : Ptr) → slot_eq a b ≡ false → write mem a p b ≡ mem b
write_ne mem a b p e = rw e refl

-- A write beside the chain leaves it.
pub Chain-write :
    (mem : Slot → Ptr) (a : Slot) (p : Ptr) (at : Slot) (xs : List ℕ)
    → slot_eq a at ≡ false
    → slot_of a xs ≡ false
    → Chain mem at xs
    → Chain (write mem a p) at xs
unfolding Chain
Chain-write mem a p at [] e h c = write_ne mem a at p e ∙ c
Chain-write mem first_slot p at (x ∷ xs) e h (c, cs) =
    (write_ne mem first_slot at p e ∙ c, Chain-write mem first_slot p (next_slot x) xs refl refl cs)
Chain-write mem (next_slot n) p at (x ∷ xs) e h (c, cs) = (
  write_ne mem (next_slot n) at p e ∙ c,
  Chain-write mem (next_slot n) p (next_slot x) xs (ground arith) (ground arith) cs,
)

-- Only what the first slot holds matters to a chain.
pub Chain-start :
    (mem : Slot → Ptr) (a b : Slot) (xs : List ℕ) → mem b ≡ mem a → Chain mem a xs → Chain mem b xs
unfolding Chain
Chain-start mem a b [] e c = e ∙ c
Chain-start mem a b (x ∷ xs) e (c, cs) = (e ∙ c, cs)

pub last_slot-append :
    (at : Slot) (xs ys : List ℕ) → last_slot at (xs ++ ys) ≡ last_slot (last_slot at xs) ys
last_slot-append at [] ys = refl
last_slot-append at (x ∷ xs) ys = last_slot-append (next_slot x) xs ys
