-- ===== src/NonFixed/Get.antt =====
-- The blocks that `_mp_nonfixed_node_get` of lib/mp/mp_nonfixed.c takes from the free list.
use misc_c.Base.{
  ℕ, ◌+◌, ◌-◌, ◌^◌, ◌≤◌, ◌<◌, ◌≡◌, refl, ◌∙◌, ap, Bool-cases, true, false, inl, inr, Option,
  Option-cases, none, some, List, leb, ◌==◌, arith,
}
use misc_c.NonFixed.{
  node_header, node_size_min, u32, sl_add, sl_ceil, by_addr, NonFixed, set_size, set_used, del_free,
  node_split, get_ceil,
}
use misc_c.NonFixed.Ordered.{
  count, is_ordered, count-sl_add, ordered-sl_add, ordered-keys, sl_ceil-some, sl_ceil-none,
}
use misc_c.NonFixed.Chain.{block-within, block-IsNear, split-Chain}
use misc_c.NonFixed.Inv.{Inv, plus, free-block, taken-Inv}

-- The node is handed out, whole or split.
abbrev handed : ℕ → NonFixed → NonFixed
handed node p = record p { used = set_used p.used node true }

module _ (p : NonFixed) (base node size : ℕ) (out : ℕ → ℕ)
    (v : Inv (handed node p) base (plus node out)) (fits : size ≤ p.size node) where
  split-Inv :
      (Inv (handed node (node_split node size p)) base (plus node out))
      × (size ≤ (node_split node size p).size node)
      × ((node_split node size p).local ≡ p.local)
      × ((node_split node size p).mem_chunk_end ≡ p.mem_chunk_end)
  unfolding node_split
  split-Inv = elim (Bool-cases (leb (size + node_header + node_size_min) (p.size node))) [
    | inr e ↦ rw (node_split, e) (v, fits, refl, refl)
    | inl e ↦
        let there : 0 < count node v.blocks = ground (arith, v.taken node) in
        let (l, m) = block-within p.size base p.mem_chunk_end node v.blocks v.chain there in
        let bounded : p.size node < 2 ^ 32 = omega (arith, l, m, v.small) in
        let (fresh, blocks, chain, counts) =
          split-Chain p.size base p.mem_chunk_end node v.blocks v.chain there size
            (ground (arith, e)) bounded in
        let new_node : ℕ = node + node_header + size in
        let sizes : ℕ → ℕ = set_size p.size new_node (u32 (p.size node - size - node_header)) in
        let sizes' : ℕ → ℕ = set_size sizes node size in
        let near = λ (z : ℕ). block-IsNear sizes' base p.mem_chunk_end z blocks chain v.small in
        let apart : (node == new_node) ≡ false = ground arith in
        let no_new : count new_node p.free_sl ≡ 0 = ground (arith, v.free new_node, fresh) in
        let no_node : count node p.free_sl ≡ 0 = ground (arith, v.free node) in
        let no_new_addr : count new_node p.addr_sl ≡ 0 = ground (arith, v.addr new_node, fresh) in
        let ordered : is_ordered sizes p.free_sl ≡ true =
          ordered-keys p.size sizes p.free_sl
            (λ y c. ground (arith, no_new, c, absent y new_node p.free_sl))
          ∙ v.free_ordered in
        let added : is_ordered sizes (sl_add sizes new_node p.free_sl) ≡ true =
          ordered-sl_add sizes base new_node p.free_sl
            (λ z c.
              near z
                (ground (arith, c, v.free z, counts z, absent z new_node v.blocks, fresh, apart)))
            ordered no_new in
        let ordered' : is_ordered sizes' (sl_add sizes new_node p.free_sl) ≡ true =
          ordered-keys sizes sizes' (sl_add sizes new_node p.free_sl) (λ y c. ground (
            arith,
            c,
            no_node,
            apart,
            count-sl_add sizes new_node y p.free_sl,
            absent y node p.free_sl,
          ))
          ∙ added in
        rw (node_split, e)
          (
            record {
              blocks = blocks;
              chain = chain;
              small = v.small;
              free = λ x. ground (
                arith,
                v.free x,
                counts x,
                apart,
                count-sl_add sizes new_node x p.free_sl,
                absent x new_node v.blocks,
                fresh,
              );
              addr = λ x. ground (
                arith,
                v.addr x,
                counts x,
                apart,
                count-sl_add by_addr new_node x p.addr_sl,
                absent x new_node v.blocks,
                fresh,
              );
              taken = λ x.
                  ground (arith, v.taken x, counts x, apart, absent x new_node v.blocks, fresh);
              free_ordered = ordered';
              addr_ordered =
                  ordered-sl_add by_addr base new_node p.addr_sl
                    (λ z c. near z (
                      ground
                        (arith, c, v.addr z, counts z, absent z new_node v.blocks, fresh, apart)))
                    v.addr_ordered no_new_addr;
            },
            ground arith,
            refl,
            refl,
          )
  ]
    where
      absent : (x y : ℕ) (xs : List ℕ) → (y == x) ≡ true → count x xs ≡ count y xs
      absent x y xs e = let same : x ≡ y = ground (arith, e) in ap (λ z. count z xs) same

-- What a search in the free list gives: a block that was not used, of the size at least, which is
-- used now; or nothing, and then each free block is too small.
pub record Got (p : NonFixed) (base size node : ℕ) (out : ℕ → ℕ) (q : NonFixed) : Type 0 where
  pub valid : Inv q base (plus node out)
  pub was_free : p.used node ≡ false
  pub fits : size ≤ q.size node
  pub local : q.local ≡ p.local
  pub chunk : q.mem_chunk_end ≡ p.mem_chunk_end

abbrev pub Searched : NonFixed → (base size : ℕ) → (ℕ → ℕ) → Option (ℕ × NonFixed) → Type 0
Searched p base size out none = (x : ℕ) → 0 < count x p.free_sl → p.size x < size
Searched p base size out (some (node, q)) = Got p base size node out q

pub get_ceil-Searched :
    (p : NonFixed) (base size : ℕ) (out : ℕ → ℕ)
    → Inv p base out
    → Searched p base size out (get_ceil size p)
unfolding get_ceil
get_ceil-Searched p base size out v = elim (Option-cases (sl_ceil p.size size p.free_sl)) [
  | inl e ↦ rw (get_ceil, e) (λ x c. sl_ceil-none p.size size x p.free_sl e c)
  | inr (node, e) ↦
      let (there, fits) = sl_ceil-some p.size size node p.free_sl e in
      let (unused, _, _, _) = free-block p base node out v there in
      let (w, fits', local, chunk) =
        split-Inv (del_free node p) base node size out (taken-Inv p base node out v there) fits in
      rw (get_ceil, e)
        (record { valid = w; was_free = unused; fits = fits'; local = local; chunk = chunk })
]
