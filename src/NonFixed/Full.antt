-- ===== src/NonFixed/Full.antt =====
-- The full merge of the free blocks in lib/mp/mp_nonfixed.c.
use misc_c.Base.{
  ℕ, zero, suc, ◌+◌, ◌-◌, ◌^◌, ◌≤◌, ◌<◌, ◌≡◌, refl, ◌∙◌, ap, Bool-cases, true, false, ◌⊎◌, inl, inr,
  List, [], ◌∷◌, length, ◌==◌, if◌then◌else◌, arith,
}
use misc_c.NonFixed.{
  node_header, sl_add, by_addr, NonFixed, set_used, block_end, swallow, swallow_all, merge_loop,
  full_merged,
}
use misc_c.NonFixed.Ordered.{count, is_ordered, count-sl_add, ordered-sl_add}
use misc_c.NonFixed.Chain.{Chain, Chain-once, block-within, swallow-Chain, block-IsNear}
use misc_c.NonFixed.Inv.{Inv}
use misc_c.NonFixed.Merge.{ordered-swallow}

-- Within the full merge: `free_new` and `addr_new` hold what is done, `addrs` what is left, and `node`
-- is in none of them.
record Pending (p : NonFixed) (base : ℕ) (out : ℕ → ℕ) (free_new addr_new : List ℕ)
    (pending : ℕ → ℕ) (addrs : List ℕ) (sizes : ℕ → ℕ) : Type 0 where
  blocks : List ℕ
  chain : Chain sizes base blocks p.mem_chunk_end
  small : p.mem_chunk_end ≤ base + node_header + (2 ^ 31 - 1)
  free :
      (x : ℕ)
      → count x free_new + (pending x + count x addrs) ≡ (if p.used x then 0 else count x blocks)
  addr :
      (x : ℕ)
      → count x addr_new + (pending x + count x addrs) ≡ (if p.used x then 0 else count x blocks)
  taken : (x : ℕ) → out x ≡ (if p.used x then count x blocks else 0)
  free_ordered : is_ordered sizes free_new ≡ true
  addr_ordered : is_ordered by_addr addr_new ≡ true
  rest_ordered : is_ordered by_addr addrs ≡ true

abbrev one_of : ℕ → ℕ → ℕ
one_of node x = if node == x then 1 else 0

module _ (p : NonFixed) (base node : ℕ) (out : ℕ → ℕ) (free_new addr_new : List ℕ) where
  swallow-Pending :
      (next_node : ℕ) (addrs : List ℕ) (sizes : ℕ → ℕ)
      → next_node ≡ block_end sizes node
      → Pending p base out free_new addr_new (one_of node) (next_node ∷ addrs) sizes
      → Pending p base out free_new addr_new (one_of node) addrs (swallow node next_node sizes)
  swallow-Pending next_node addrs sizes n v =
      let once = Chain-once sizes base p.mem_chunk_end node v.blocks v.chain in
      let there : 0 < count node v.blocks = ground (arith, v.free node) in
      let next : 0 < count next_node v.blocks = ground (arith, v.free next_node) in
      let (_, ends) = block-within sizes base p.mem_chunk_end next_node v.blocks v.chain next in
      let (blocks, chain, counts) =
        swallow-Chain sizes base p.mem_chunk_end node v.blocks v.chain there next_node n
          (omega (arith, ends)) (omega (arith, v.small)) in
      let unused : p.used next_node ≡ false = ground (arith, v.free next_node) in
      let absent : count node free_new ≡ 0 = ground (arith, v.free node, once) in
      record {
        blocks = blocks;
        chain = chain;
        small = v.small;
        free = λ x. ground (arith, v.free x, counts x, at x unused);
        addr = λ x. ground (arith, v.addr x, counts x, at x unused);
        taken = λ x. ground (arith, v.taken x, counts x, at x unused);
        free_ordered = ordered-swallow sizes node next_node free_new absent v.free_ordered;
        addr_ordered = v.addr_ordered;
        rest_ordered = ground (arith, v.rest_ordered);
      }
    where
      at : (x : ℕ) → p.used next_node ≡ false → (next_node == x) ≡ true → p.used x ≡ false
      at x f e = let same : x ≡ next_node = ground (arith, e) in ap p.used same ∙ f

  swallow_all-Pending :
      (addrs : List ℕ) (sizes : ℕ → ℕ)
      → Pending p base out free_new addr_new (one_of node) addrs sizes
      → Pending p base out free_new addr_new
          (one_of node)
          (swallow_all node addrs sizes).0
          (swallow_all node addrs sizes).1
        × (length (swallow_all node addrs sizes).0 ≤ length addrs)
  unfolding swallow_all
  swallow_all-Pending [] sizes v = (v, omega arith)
  swallow_all-Pending (next_node ∷ addrs) sizes v =
      elim (Bool-cases (next_node == block_end sizes node)) [
        | inl e ↦
            let (w, l) =
              swallow_all-Pending addrs (swallow node next_node sizes)
                (swallow-Pending next_node addrs sizes (ground (arith, e)) v) in
            rw (swallow_all, e) (w, omega (arith, l))
        | inr e ↦ rw (swallow_all, e) (v, omega arith)
      ]

  -- The block is put into both of the new lists.
  finish-Pending :
      (addrs : List ℕ) (sizes : ℕ → ℕ)
      → Pending p base out free_new addr_new (one_of node) addrs sizes
      → Pending
          (record p { addr_sl = addrs; size = sizes; used = set_used p.used node false })
          base
          out
          (sl_add sizes node free_new)
          (sl_add by_addr node addr_new)
          (λ x. 0)
          addrs
          sizes
  finish-Pending addrs sizes v =
      let once = Chain-once sizes base p.mem_chunk_end node v.blocks v.chain in
      let unused : p.used node ≡ false = ground (arith, v.free node) in
      let near = λ (z : ℕ). block-IsNear sizes base p.mem_chunk_end z v.blocks v.chain v.small in
      record {
        blocks = v.blocks;
        chain = v.chain;
        small = v.small;
        free = λ x. ground (arith, v.free x, count-sl_add sizes node x free_new, at x unused);
        addr = λ x. ground (arith, v.addr x, count-sl_add by_addr node x addr_new, at x unused);
        taken = λ x. ground (arith, v.taken x, at x unused);
        free_ordered =
            ordered-sl_add sizes base node free_new (λ z c. near z (ground (arith, c, v.free z)))
              v.free_ordered (ground (arith, v.free node, once));
        addr_ordered =
            ordered-sl_add by_addr base node addr_new (λ z c. near z (ground (arith, c, v.addr z)))
              v.addr_ordered (ground (arith, v.addr node, once));
        rest_ordered = v.rest_ordered;
      }
    where
      at : (x : ℕ) → p.used node ≡ false → (x == node) ≡ true → p.used x ≡ false
      at x f e = let same : x ≡ node = ground (arith, e) in ap p.used same ∙ f

List-cases : (xs : List ℕ) → (xs ≡ []) ⊎ ((y : ℕ) × (ys : List ℕ) × (xs ≡ y ∷ ys))
List-cases [] = inl refl
List-cases (y ∷ ys) = inr (y, ys, refl)

module _ (p : NonFixed) (base : ℕ) (out : ℕ → ℕ) (free_new addr_new : List ℕ)
    (v : Pending p base out free_new addr_new (λ x. 0) p.addr_sl p.size) where
  first-Pending :
      (node : ℕ) (addrs : List ℕ)
      → p.addr_sl ≡ node ∷ addrs
      → Pending p base out free_new addr_new (one_of node) addrs p.size
  first-Pending node addrs e = record {
    blocks = v.blocks;
    chain = v.chain;
    small = v.small;
    free = λ x. omega (arith, v.free x, ap (count x) e);
    addr = λ x. omega (arith, v.addr x, ap (count x) e);
    taken = v.taken;
    free_ordered = v.free_ordered;
    addr_ordered = v.addr_ordered;
    rest_ordered = ground (arith, v.rest_ordered, ap (is_ordered by_addr) e);
  }

  last-Pending : p.addr_sl ≡ [] → Inv (record p { free_sl = free_new; addr_sl = addr_new }) base out
  last-Pending e = record {
    blocks = v.blocks;
    chain = v.chain;
    small = v.small;
    free = λ x. omega (arith, v.free x, ap (count x) e);
    addr = λ x. omega (arith, v.addr x, ap (count x) e);
    taken = v.taken;
    free_ordered = v.free_ordered;
    addr_ordered = v.addr_ordered;
  }

merge_loop-Inv :
    (fuel : ℕ) (free_new addr_new : List ℕ) (p : NonFixed) (base : ℕ) (out : ℕ → ℕ)
    → Pending p base out free_new addr_new (λ x. 0) p.addr_sl p.size
    → length p.addr_sl < fuel
    → Inv (merge_loop fuel free_new addr_new p) base out
      × ((merge_loop fuel free_new addr_new p).local ≡ p.local)
      × ((merge_loop fuel free_new addr_new p).mem_chunk_end ≡ p.mem_chunk_end)
unfolding merge_loop
merge_loop-Inv zero free_new addr_new p base out v f = absurd (omega (arith, f))
merge_loop-Inv (suc fuel) free_new addr_new p base out v f = elim (List-cases p.addr_sl) [
  | inl e ↦ rw (merge_loop, e) (last-Pending p base out free_new addr_new v e, refl, refl)
  | inr (node, addrs, e) ↦
      let (w, shorter) =
        swallow_all-Pending p base node out free_new addr_new addrs p.size
          (first-Pending p base out free_new addr_new v node addrs e) in
      let rest : List ℕ = (swallow_all node addrs p.size).0 in
      let sizes : ℕ → ℕ = (swallow_all node addrs p.size).1 in
      rw (merge_loop, e)
        (merge_loop-Inv fuel (sl_add sizes node free_new) (sl_add by_addr node addr_new)
          (record p { addr_sl = rest; size = sizes; used = set_used p.used node false }) base out
          (finish-Pending p base node out free_new addr_new rest sizes w)
          (omega (arith, shorter, f, ap length e)))
]

pub full_merged-Inv :
    (p : NonFixed) (base : ℕ) (out : ℕ → ℕ)
    → Inv p base out
    → Inv (full_merged p) base out
      × ((full_merged p).local ≡ p.local)
      × ((full_merged p).mem_chunk_end ≡ p.mem_chunk_end)
unfolding full_merged
full_merged-Inv p base out v =
    merge_loop-Inv (suc (length p.addr_sl)) [] [] p base out
      (record {
        blocks = v.blocks;
        chain = v.chain;
        small = v.small;
        free = λ x. omega (arith, v.addr x);
        addr = λ x. omega (arith, v.addr x);
        taken = v.taken;
        free_ordered = refl;
        addr_ordered = refl;
        rest_ordered = v.addr_ordered;
      })
      (omega arith)
