-- ===== src/Mpmc/Inv.antt =====
-- What holds of the queue of lib/type/type_atom_queue.c between any two accesses.
use misc_c.Base.{ℕ, ◌+◌, ◌≤◌, ◌<◌, ◌≡◌, ◌≢◌, true, List, length, get_or, take}
use misc_c.Mpmc.{
  Tag, Local, idle, pop_start, push_start, push_tail, push_next, push_checked, push_linked,
  pop_head, pop_tail, pop_checked, pop_next, Mpmc,
}

-- The `i`th node that was ever in the queue, from the first dummy on
abbrev pub nth : List ℕ → ℕ → ℕ
nth nodes i = get_or nodes i 0

-- A tag that was current: its version is the place of its node.
abbrev pub TagOk : List ℕ → (most : ℕ) → Tag → Type 0
TagOk nodes most tag = (tag.version ≤ most) × (tag.ptr ≡ nth nodes tag.version)

-- What was loaded from `next` of the node at `i`: 0, or the node behind it.
abbrev pub NextOk : List ℕ → (i : ℕ) → ℕ → Type 0
NextOk nodes i n = n ≢ 0 → (i + 1 < length nodes) × (n ≡ nth nodes (i + 1))

-- What a thread knows; `h` and `l` are the places of the head and the tail.
abbrev pub LocalOk : List ℕ → (h l : ℕ) → Local → Type 0
LocalOk nodes h l idle = Unit
LocalOk nodes h l pop_start = Unit
LocalOk nodes h l (push_start item) = item ≢ 0
LocalOk nodes h l (push_tail item tail) = (item ≢ 0) × TagOk nodes l tail
LocalOk nodes h l (push_next item tail n) =
    (item ≢ 0) × TagOk nodes l tail × NextOk nodes tail.version n
LocalOk nodes h l (push_checked item tail n) =
    (item ≢ 0) × TagOk nodes l tail × NextOk nodes tail.version n
LocalOk nodes h l (push_linked item tail) =
    TagOk nodes l tail × (tail.version + 1 < length nodes) × (item ≡ nth nodes (tail.version + 1))
LocalOk nodes h l (pop_head head) = TagOk nodes h head
LocalOk nodes h l (pop_tail head tail) =
    TagOk nodes h head × TagOk nodes l tail × (head.version ≤ tail.version)
LocalOk nodes h l (pop_checked head tail) =
    TagOk nodes h head × TagOk nodes l tail × (head.version ≤ tail.version)
LocalOk nodes h l (pop_next head tail n) =
    TagOk nodes h head
    × TagOk nodes l tail
    × (head.version ≤ tail.version)
    × NextOk nodes head.version n
    × (head.version < tail.version → n ≢ 0)

-- The node that a push has not yet linked, or 0
abbrev pub private_of : Local → ℕ
private_of (push_start item) = item
private_of (push_tail item tail) = item
private_of (push_next item tail n) = item
private_of (push_checked item tail n) = item
private_of _ = 0

-- A node that no other thread can reach
abbrev pub Own : Mpmc → List ℕ → ℕ → Type 0
Own s nodes x = (s.given x ≡ true) × (s.next x ≡ 0) × ((i : ℕ) → i < length nodes → nth nodes i ≢ x)

abbrev pub Private : Mpmc → List ℕ → Local → Type 0
Private s nodes x = private_of x ≢ 0 → Own s nodes (private_of x)

pub record Inv (s : Mpmc) (nodes : List ℕ) (h l : ℕ) : Type 0 where
  pub order : h ≤ l
  pub bound : l < length nodes
  pub lag : length nodes ≤ l + 2
  pub head_ptr : s.head.ptr ≡ nth nodes h
  pub head_version : s.head.version ≡ h
  pub tail_ptr : s.tail.ptr ≡ nth nodes l
  pub tail_version : s.tail.version ≡ l
  pub links : (i : ℕ) → i < length nodes → s.next (nth nodes i) ≡ nth nodes (i + 1)
  pub distinct : (i j : ℕ) → i < length nodes → j < length nodes → nth nodes i ≡ nth nodes j → i ≡ j
  pub real : (i : ℕ) → i < length nodes → nth nodes i ≢ 0
  pub live : (x : ℕ) → s.allocated x ≡ true → s.given x ≡ true
  pub owned : (i : ℕ) → i < length nodes → s.given (nth nodes i) ≡ true
  pub knows : (t : ℕ) → LocalOk nodes h l (s.locals t)
  pub private : (t : ℕ) → Private s nodes (s.locals t)
  pub apart :
      (t u : ℕ)
      → private_of (s.locals t) ≢ 0
      → private_of (s.locals t) ≡ private_of (s.locals u)
      → t ≡ u
  pub values : length s.pushed + 1 ≡ length nodes
  pub value : (i : ℕ) → i < length s.pushed → get_or s.pushed i 0 ≡ s.data_of (nth nodes (i + 1))
  pub taken : s.popped ≡ take h s.pushed

-- Some nodes, with the head and the tail among them, are what the queue holds.
abbrev pub Sound : Mpmc → Type 0
Sound s = (nodes : List ℕ) × (h : ℕ) × (l : ℕ) × Inv s nodes h l
