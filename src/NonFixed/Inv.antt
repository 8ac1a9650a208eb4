-- ===== src/NonFixed/Inv.antt =====
-- What a pool of lib/mp/mp_nonfixed.c keeps: blocks that fill its chunk, and the free ones in its lists.
use misc_c.Base.{ℕ, ◌+◌, ◌-◌, ◌^◌, ◌≤◌, ◌<◌, ◌≡◌, ap, true, false, List, ◌==◌, if◌then◌else◌, arith}
use misc_c.NonFixed.{node_header, by_addr, NonFixed, set_used, add_free, del_free, node_put}
use misc_c.NonFixed.Ordered.{
  count, is_ordered, count-sl_add, count-sl_del, ordered-sl_add, ordered-sl_del,
}
use misc_c.NonFixed.Chain.{Chain, Chain-once, block-within, block-IsNear}

-- The blocks fill the chunk from `base` on. Both lists hold the blocks that are not used, in their
-- order, and `out x` is how often the used block `x` is outside of them.
pub record Inv (p : NonFixed) (base : ℕ) (out : ℕ → ℕ) : Type 0 where
  pub blocks : List ℕ
  pub chain : Chain p.size base blocks p.mem_chunk_end
  pub small : p.mem_chunk_end ≤ base + node_header + (2 ^ 31 - 1)
  pub free : (x : ℕ) → count x p.free_sl ≡ (if p.used x then 0 else count x blocks)
  pub addr : (x : ℕ) → count x p.addr_sl ≡ (if p.used x then 0 else count x blocks)
  pub taken : (x : ℕ) → out x ≡ (if p.used x then count x blocks else 0)
  pub free_ordered : is_ordered p.size p.free_sl ≡ true
  pub addr_ordered : is_ordered by_addr p.addr_sl ≡ true

-- One more `x`
abbrev pub plus : ℕ → (ℕ → ℕ) → ℕ → ℕ
plus node out x = (if node == x then 1 else 0) + out x

module _ (p : NonFixed) (base node : ℕ) (out : ℕ → ℕ) (v : Inv p base out)
    (there : 0 < count node p.free_sl) where
  -- A block of the free list
  pub free-block :
      (p.used node ≡ false)
      × (count node v.blocks ≡ 1)
      × (count node p.addr_sl ≡ 1)
      × (p.size node < 2 ^ 32)
  free-block =
      let once = Chain-once p.size base p.mem_chunk_end node v.blocks v.chain in
      let unused : p.used node ≡ false = ground (arith, v.free node, there) in
      let one : count node v.blocks ≡ 1 = ground (arith, v.free node, there, once) in
      let (l, m) =
        block-within p.size base p.mem_chunk_end node v.blocks v.chain (omega (arith, one)) in
      (unused, one, ground (arith, v.addr node, unused, one), omega (arith, l, m, v.small))

  pub taken-Inv :
      Inv (record (del_free node p) { used = set_used p.used node true }) base (plus node out)
  taken-Inv =
      let (unused, one, addr_one, _) = free-block in
      record {
        blocks = v.blocks;
        chain = v.chain;
        small = v.small;
        free = λ x. ground (
          arith,
          v.free x,
          one,
          unused,
          count-sl_del p.size node x p.free_sl v.free_ordered there,
          at x,
        );
        addr = λ x. ground (
          arith,
          v.addr x,
          one,
          unused,
          count-sl_del by_addr node x p.addr_sl v.addr_ordered (omega (arith, addr_one)),
          at x,
        );
        taken = λ x. ground (arith, v.taken x, at x, one, unused);
        free_ordered = ordered-sl_del p.size node p.free_sl v.free_ordered;
        addr_ordered = ordered-sl_del by_addr node p.addr_sl v.addr_ordered;
      }
    where
      at :
          (x : ℕ)
          → (node == x) ≡ true
          → (count x v.blocks ≡ count node v.blocks) × (p.used x ≡ p.used node)
      at x e =
          let same : x ≡ node = ground (arith, e) in
          (ap (λ z. count z v.blocks) same, ap p.used same)

-- A used block that is outside of the lists goes into them.
pub add_free-Inv :
    (p : NonFixed) (base node : ℕ) (out : ℕ → ℕ)
    → Inv p base (plus node out)
    → Inv (add_free node (record p { used = set_used p.used node false })) base out
add_free-Inv p base node out v =
    let once = Chain-once p.size base p.mem_chunk_end node v.blocks v.chain in
    let used : p.used node ≡ true = ground (arith, v.taken node) in
    let one : count node v.blocks ≡ 1 = ground (arith, v.taken node, used, once) in
    let near = λ (z : ℕ). block-IsNear p.size base p.mem_chunk_end z v.blocks v.chain v.small in
    record {
      blocks = v.blocks;
      chain = v.chain;
      small = v.small;
      free = λ x. ground (arith, v.free x, one, used, count-sl_add p.size node x p.free_sl, at x);
      addr = λ x. ground (arith, v.addr x, one, used, count-sl_add by_addr node x p.addr_sl, at x);
      taken = λ x. ground (arith, v.taken x, at x, one, used);
      free_ordered =
          ordered-sl_add p.size base node p.free_sl
            (λ z c. near z (ground (arith, c, v.free z, one, at z))) v.free_ordered
            (ground (arith, v.free node, used));
      addr_ordered =
          ordered-sl_add by_addr base node p.addr_sl
            (λ z c. near z (ground (arith, c, v.addr z, one, at z))) v.addr_ordered
            (ground (arith, v.addr node, used));
    }
  where
    at :
        (x : ℕ)
        → (node == x) ≡ true
        → (count x v.blocks ≡ count node v.blocks) × (p.used x ≡ p.used node)
    at x e =
        let same : x ≡ node = ground (arith, e) in (ap (λ z. count z v.blocks) same, ap p.used same)

pub node_put-Inv :
    (p : NonFixed) (base node : ℕ) (out : ℕ → ℕ)
    → Inv p base (plus node out)
    → Inv (node_put node p) base out
unfolding node_put
node_put-Inv = add_free-Inv
