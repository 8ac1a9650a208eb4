-- ===== src/NonFixed.antt =====
-- lib/mp/mp_nonfixed.c: one pool of blocks of any size in one chunk of memory. A block is the address
-- of its node, whose fields are functions of it. A skip list is the list of its items in their order,
-- without the levels that lead there faster, and the queue of blocks that come back from other
-- threads is a list.
pub mod Ordered
pub mod Chain
pub mod Inv
pub mod Get
pub mod Merge
pub mod Full
pub mod Slow
pub mod Steps
mod Tests
use misc_c.Base.{
  ℕ, zero, suc, ◌+◌, ◌-◌, ◌%◌, ◌^◌, Bool, true, false, not, ◌&&◌, ◌||◌, Option, none, some, List,
  [], ◌∷◌, ◌++◌, length, ltb, leb, ◌==◌, if◌then◌else◌,
}

-- `sizeof(mp_nonfixed_node_t)` on 64 bits
abbrev pub node_header : ℕ
node_header = 144

abbrev pub node_size_min : ℕ
node_size_min = 64

abbrev pub u32 : ℕ → ℕ
u32 n = n % 2 ^ 32

-- The difference of two addresses on 64 bits, cut to an int, is negative.
unfoldable pub addr_before : ℕ → ℕ → Bool
addr_before x y = leb (2 ^ 31) ((x + 2 ^ 64 - y) % 2 ^ 32)

-- The order of a skip list: by key, and by address where the keys are equal.
abbrev pub sl_before : (ℕ → ℕ) → ℕ → ℕ → Bool
sl_before key x y = ltb (key x) (key y) || key x == key y && addr_before x y

unfoldable pub sl_add : (ℕ → ℕ) → ℕ → List ℕ → List ℕ
sl_add key x [] = x ∷ []
sl_add key x (y ∷ ys) = if sl_before key y x then y ∷ sl_add key x ys else x ∷ y ∷ ys

unfoldable pub sl_del : (ℕ → ℕ) → ℕ → List ℕ → List ℕ
sl_del key x [] = []
sl_del key x (y ∷ ys) =
    if sl_before key y x then y ∷ sl_del key x ys else if y == x then ys else y ∷ ys

-- The first item whose key is no less than `size`
unfoldable pub sl_ceil : (ℕ → ℕ) → (size : ℕ) → List ℕ → Option ℕ
sl_ceil key size [] = none
sl_ceil key size (y ∷ ys) = if ltb (key y) size then sl_ceil key size ys else some y

-- The order by address
abbrev pub by_addr : ℕ → ℕ
by_addr x = x

-- `nonfixed_mp_t`, and the fields `size` and `used` of its nodes.
pub record NonFixed : Type 0 where
  pub size : ℕ → ℕ
  pub used : ℕ → Bool
  pub free_sl : List ℕ
  pub addr_sl : List ℕ
  pub local : List ℕ
  pub mem_chunk_end : ℕ

abbrev pub set_size : (ℕ → ℕ) → (node size : ℕ) → ℕ → ℕ
set_size sizes node size = λ x. if x == node then size else sizes x

abbrev pub set_used : (ℕ → Bool) → ℕ → Bool → ℕ → Bool
set_used flags node flag = λ x. if x == node then flag else flags x

-- The address behind a block: `node->data + node->size`
abbrev pub block_end : (ℕ → ℕ) → ℕ → ℕ
block_end sizes node = node + node_header + sizes node

-- The two `skiplist_add` of a block
abbrev pub add_free : ℕ → NonFixed → NonFixed
add_free node p = record p {
  free_sl = sl_add p.size node p.free_sl;
  addr_sl = sl_add by_addr node p.addr_sl;
}

-- The two `skiplist_del`
abbrev pub del_free : ℕ → NonFixed → NonFixed
del_free node p = record p {
  free_sl = sl_del p.size node p.free_sl;
  addr_sl = sl_del by_addr node p.addr_sl;
}

-- `_mp_nonfixed_node_split`; `size` of the node is set after the new node is added.
unfoldable pub node_split : (node size : ℕ) → NonFixed → NonFixed
node_split node size p =
    if leb (size + node_header + node_size_min) (p.size node)
    then (let new_node = node + node_header + size in
        let q : NonFixed = record p {
          size = set_size p.size new_node (u32 (p.size node - size - node_header));
          used = set_used p.used new_node false;
        } in
        let r = add_free new_node q in record r { size = set_size r.size node size })
    else p

-- What `_mp_nonfixed_node_get_fast` does once the pool is the cached one, and the slow path tries too
unfoldable pub get_ceil : (size : ℕ) → NonFixed → Option (ℕ × NonFixed)
unfolding node_split
get_ceil size p = elim (sl_ceil p.size size p.free_sl) [
  | none ↦ none
  | some node ↦
      let q = node_split node size (del_free node p) in
      some (node, record q { used = set_used q.used node true })
]

-- `node->size += sizeof(mp_nonfixed_node_t) + next_node->size`
abbrev pub swallow : (node next_node : ℕ) → (ℕ → ℕ) → ℕ → ℕ
swallow node next_node sizes =
    set_size sizes node (u32 (sizes node + node_header + sizes next_node))

-- `_mp_nonfixed_node_merge`
unfoldable pub node_merge : ℕ → NonFixed → NonFixed
node_merge node p =
    let next_node = block_end p.size node in
    if leb p.mem_chunk_end next_node
    then p
    else if p.used next_node
    then p
    else (let q = del_free next_node p in record q { size = swallow node next_node q.size })

-- One block of the local queue, as the slow path takes it back.
unfoldable pub take_back : ℕ → NonFixed → NonFixed
unfolding node_merge
take_back node p =
    let q = node_merge node p in add_free node (record q { used = set_used q.used node false })

unfoldable pub take_back_all : List ℕ → NonFixed → NonFixed
unfolding take_back
take_back_all [] p = p
take_back_all (node ∷ nodes) p = take_back_all nodes (take_back node p)

-- The inner loop of `_mp_nonfixed_free_sl_full_merged`: `node` swallows the free blocks behind it.
unfoldable pub swallow_all : (node : ℕ) → List ℕ → (ℕ → ℕ) → List ℕ × (ℕ → ℕ)
swallow_all node [] sizes = ([], sizes)
swallow_all node (next_node ∷ addrs) sizes =
    let rest = swallow_all node addrs (swallow node next_node sizes) in
    if next_node == block_end sizes node then rest else (next_node ∷ addrs, sizes)

-- The outer loop, on fuel; `free_new` and `addr_new` are the lists that are built up.
unfoldable pub merge_loop : ℕ → (free_new addr_new : List ℕ) → NonFixed → NonFixed
unfolding swallow_all
merge_loop zero free_new addr_new p = p
merge_loop (suc fuel) free_new addr_new p = elim p.addr_sl [
  | [] ↦ record p { free_sl = free_new; addr_sl = addr_new }
  | node ∷ addrs ↦
      let (rest, sizes) = swallow_all node addrs p.size in
      merge_loop fuel (sl_add sizes node free_new) (sl_add by_addr node addr_new)
        (record p { addr_sl = rest; size = sizes; used = set_used p.used node false })
]

-- `_mp_nonfixed_free_sl_full_merged`: each round takes a block out of the list.
unfoldable pub full_merged : NonFixed → NonFixed
unfolding merge_loop
full_merged p = merge_loop (suc (length p.addr_sl)) [] [] p

-- `_mp_nofixed_node_get_slow`, for a pool that is there.
unfoldable pub get_slow : (size : ℕ) → NonFixed → Option ℕ × NonFixed
unfolding take_back_all get_ceil full_merged
get_slow size p =
    let q = take_back_all p.local (record p { local = [] }) in
    elim (get_ceil size q) [
      | some (node, r) ↦ (some node, r)
      | none ↦
          let m = full_merged q in
          elim (get_ceil size m) [ some (node, r) ↦ (some node, r) | none ↦ (none, m) ]
    ]

-- `_mp_nonfixed_node_get`; `cached` is whether the pool is the one in the cache of the thread.
unfoldable pub node_get : (cached : Bool) → (size : ℕ) → NonFixed → Option ℕ × NonFixed
unfolding get_slow
node_get cached size p =
    if cached
    then elim (get_ceil size p) [ some (node, r) ↦ (some node, r) | none ↦ get_slow size p ]
    else get_slow size p

-- `_mp_nonfixed_node_put` of a block of the own thread
unfoldable pub node_put : ℕ → NonFixed → NonFixed
node_put node p = add_free node (record p { used = set_used p.used node false })

-- A block that another thread put comes to the local queue by `_mp_nonfixed_recycle_thd_wf`.
unfoldable pub recycle : ℕ → NonFixed → NonFixed
recycle node p = record p { local = p.local ++ node ∷ [] }

-- A pool that `_mp_nonfixed_supply` gives a chunk at `base`
abbrev pub supply : (base size : ℕ) → NonFixed
supply base size = record {
  size = λ x. size;
  used = λ x. false;
  free_sl = base ∷ [];
  addr_sl = base ∷ [];
  local = [];
  mem_chunk_end = base + node_header + size;
}
