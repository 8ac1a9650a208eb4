-- ===== src/NonFixed/Merge.antt =====
-- A block that comes back takes in the free one behind it, in lib/mp/mp_nonfixed.c.
use misc_c.Base.{
  ℕ, ◌<◌, ◌≡◌, refl, ◌∙◌, ap, Bool-cases, true, false, inl, inr, List, leb, ◌==◌, arith,
}
use misc_c.NonFixed.{by_addr, NonFixed, block_end, del_free, swallow, node_merge, take_back}
use misc_c.NonFixed.Ordered.{count, is_ordered, count-sl_del, ordered-sl_del, ordered-keys}
use misc_c.NonFixed.Chain.{Chain-once, next-there, swallow-Chain}
use misc_c.NonFixed.Inv.{Inv, plus, add_free-Inv}

pub count-same : (x y : ℕ) (xs : List ℕ) → (y == x) ≡ true → count x xs ≡ count y xs
count-same x y xs e = let same : x ≡ y = ground (arith, e) in ap (λ z. count z xs) same

-- The sizes of the items stay when a block that is not one of them grows.
pub ordered-swallow :
    (sizes : ℕ → ℕ) (node next_node : ℕ) (xs : List ℕ)
    → count node xs ≡ 0
    → is_ordered sizes xs ≡ true
    → is_ordered (swallow node next_node sizes) xs ≡ true
ordered-swallow sizes node next_node xs absent o =
    ordered-keys sizes (swallow node next_node sizes) xs
      (λ y c. ground (arith, c, absent, count-same y node xs))
    ∙ o

node_merge-Inv :
    (p : NonFixed) (base node : ℕ) (out : ℕ → ℕ)
    → Inv p base (plus node out)
    → Inv (node_merge node p) base (plus node out)
unfolding node_merge
node_merge-Inv p base node out v =
    let next_node : ℕ = block_end p.size node in
    elim (Bool-cases (leb p.mem_chunk_end next_node)) [
      | inl e ↦ rw (node_merge, e) v
      | inr e ↦ elim (Bool-cases (p.used next_node)) [
        | inl f ↦ rw (node_merge, e, f) v
        | inr f ↦
            let more : next_node < p.mem_chunk_end = ground (arith, e) in
            let there : 0 < count node v.blocks = ground (arith, v.taken node) in
            let next = next-there p.size base p.mem_chunk_end node v.blocks v.chain there more in
            let in_free : 0 < count next_node p.free_sl =
              ground (arith, v.free next_node, f, next) in
            let in_addr : 0 < count next_node p.addr_sl =
              ground (arith, v.addr next_node, f, next) in
            let (blocks, chain, counts) =
              swallow-Chain p.size base p.mem_chunk_end node v.blocks v.chain there next_node refl
                more (omega (arith, v.small)) in
            let busy : p.used node ≡ true = ground (arith, v.taken node) in
            let apart : (next_node == node) ≡ false = ground arith in
            let q = del_free next_node p in
            let fewer =
              λ (x : ℕ). count-sl_del p.size next_node x p.free_sl v.free_ordered in_free in
            let absent : count node q.free_sl ≡ 0 =
              ground (arith, v.free node, busy, apart, fewer node) in
            let once = Chain-once p.size base p.mem_chunk_end next_node v.blocks v.chain in
            rw (node_merge, e, f)
              (record {
                blocks = blocks;
                chain = chain;
                small = v.small;
                free = λ x. ground (arith, v.free x, counts x, fewer x, at x f);
                addr = λ x. ground (
                  arith,
                  v.addr x,
                  counts x,
                  count-sl_del by_addr next_node x p.addr_sl v.addr_ordered in_addr,
                  at x f,
                );
                taken = λ x. ground (arith, v.taken x, counts x, at x f);
                free_ordered =
                    ordered-swallow p.size node next_node q.free_sl absent
                      (ordered-sl_del p.size next_node p.free_sl v.free_ordered);
                addr_ordered = ordered-sl_del by_addr next_node p.addr_sl v.addr_ordered;
              })
      ]
    ]
  where
    at :
        (x : ℕ)
        → p.used (block_end p.size node) ≡ false
        → (block_end p.size node == x) ≡ true
        → p.used x ≡ false
    at x f e = let same : x ≡ block_end p.size node = ground (arith, e) in ap p.used same ∙ f

pub take_back-Inv :
    (p : NonFixed) (base node : ℕ) (out : ℕ → ℕ)
    → Inv p base (plus node out)
    → Inv (take_back node p) base out
unfolding take_back
take_back-Inv p base node out v =
    add_free-Inv (node_merge node p) base node out (node_merge-Inv p base node out v)
