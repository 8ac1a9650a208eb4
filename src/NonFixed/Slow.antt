-- ===== src/NonFixed/Slow.antt =====
-- The slow path of `_mp_nonfixed_node_get` in lib/mp/mp_nonfixed.c, and the whole.
use misc_c.Base.{
  ℕ, ◌+◌, ◌≤◌, ◌<◌, ◌≡◌, refl, ◌∙◌, ap, Bool, true, false, inl, inr, Option, Option-cases, none,
  some, List, [], ◌∷◌, arith,
}
use mathlib.Core.Path.{subst}
use misc_c.NonFixed.{
  NonFixed, node_merge, take_back, take_back_all, full_merged, get_ceil, get_slow, node_get,
}
use misc_c.NonFixed.Ordered.{count}
use misc_c.NonFixed.Inv.{Inv, plus}
use misc_c.NonFixed.Get.{Got, Searched, get_ceil-Searched}
use misc_c.NonFixed.Merge.{take_back-Inv}
use misc_c.NonFixed.Full.{full_merged-Inv}

pub Inv-out :
    {p : NonFixed} {base : ℕ} {out out' : ℕ → ℕ}
    → ((x : ℕ) → out' x ≡ out x)
    → Inv p base out
    → Inv p base out'
Inv-out h v = record {
  blocks = v.blocks;
  chain = v.chain;
  small = v.small;
  free = v.free;
  addr = v.addr;
  taken = λ x. h x ∙ v.taken x;
  free_ordered = v.free_ordered;
  addr_ordered = v.addr_ordered;
}

pub Inv-local :
    {p : NonFixed} {base : ℕ} {out : ℕ → ℕ} (nodes : List ℕ)
    → Inv p base out
    → Inv (record p { local = nodes }) base out
Inv-local nodes v = record {
  blocks = v.blocks;
  chain = v.chain;
  small = v.small;
  free = v.free;
  addr = v.addr;
  taken = v.taken;
  free_ordered = v.free_ordered;
  addr_ordered = v.addr_ordered;
}

-- What taking back leaves as it is
take_back-rest :
    (node : ℕ) (p : NonFixed)
    → ((take_back node p).local ≡ p.local) × ((take_back node p).mem_chunk_end ≡ p.mem_chunk_end)
unfolding take_back node_merge
take_back-rest node p = ground arith

take_back_all-Inv :
    (nodes : List ℕ) (p : NonFixed) (base : ℕ) (out : ℕ → ℕ)
    → Inv p base (λ x. out x + count x nodes)
    → Inv (take_back_all nodes p) base out
      × ((take_back_all nodes p).local ≡ p.local)
      × ((take_back_all nodes p).mem_chunk_end ≡ p.mem_chunk_end)
unfolding take_back_all
take_back_all-Inv [] p base out v = (Inv-out (λ x. omega arith) v, refl, refl)
take_back_all-Inv (node ∷ nodes) p base out v =
    let w = take_back-Inv p base node (λ x. out x + count x nodes) (Inv-out (λ x. omega arith) v) in
    let (u, local, chunk) = take_back_all-Inv nodes (take_back node p) base out w in
    let (local', chunk') = take_back-rest node p in (u, local ∙ local', chunk ∙ chunk')

-- What a get gives when it gives a block.
pub record Given (p : NonFixed) (base size node : ℕ) (held : ℕ → ℕ) (q : NonFixed) : Type 0 where
  pub valid : Inv q base (λ x. plus node held x + count x q.local)
  pub new : held node ≡ 0
  pub fits : size ≤ q.size node
  pub chunk : q.mem_chunk_end ≡ p.mem_chunk_end

abbrev pub Gives : NonFixed → (base size : ℕ) → (ℕ → ℕ) → Option ℕ × NonFixed → Type 0
Gives p base size held (none, q) =
    Inv q base (λ x. held x + count x q.local)
    × (q.mem_chunk_end ≡ p.mem_chunk_end)
    × ((x : ℕ) → 0 < count x q.free_sl → q.size x < size)
Gives p base size held (some node, q) = Given p base size node held q

-- A block that the search finds, in a pool `m` that has come of `p`
Got-Given :
    (p m q : NonFixed) (base size node : ℕ) (held : ℕ → ℕ)
    → Inv m base (λ x. held x + count x m.local)
    → m.mem_chunk_end ≡ p.mem_chunk_end
    → Got m base size node (λ x. held x + count x m.local) q
    → Given p base size node held q
Got-Given p m q base size node held v c g = record {
  valid = Inv-out (λ x. omega (arith, ap (count x) g.local)) g.valid;
  new = ground (arith, v.taken node, g.was_free);
  fits = g.fits;
  chunk = g.chunk ∙ c;
}

get_slow-Gives :
    (size : ℕ) (p : NonFixed) (base : ℕ) (held : ℕ → ℕ)
    → Inv p base (λ x. held x + count x p.local)
    → Gives p base size held (get_slow size p)
unfolding get_slow
get_slow-Gives size p base held v =
    let q : NonFixed = take_back_all p.local (record p { local = [] }) in
    let (w, local, chunk) =
      take_back_all-Inv p.local (record p { local = [] }) base held (Inv-local [] v) in
    let w' : Inv q base (λ x. held x + count x q.local) =
      Inv-out (λ x. omega (arith, ap (count x) local)) w in
    let searched = get_ceil-Searched q base size (λ x. held x + count x q.local) w' in
    elim (Option-cases (get_ceil size q)) [
      | inr ((node, r), e) ↦
          rw (get_slow, e)
            (Got-Given p q r base size node held w' chunk
              (subst (Searched q base size (λ x. held x + count x q.local)) e searched))
      | inl e ↦
          let m : NonFixed = full_merged q in
          let (u, local', chunk') = full_merged-Inv q base held w in
          let u' : Inv m base (λ x. held x + count x m.local) =
            Inv-out (λ x. omega (arith, ap (count x) (local' ∙ local))) u in
          let again = get_ceil-Searched m base size (λ x. held x + count x m.local) u' in
          elim (Option-cases (get_ceil size m)) [
            | inl f ↦
                rw (get_slow, e, f)
                  (
                    u',
                    chunk' ∙ chunk,
                    subst (Searched m base size (λ x. held x + count x m.local)) f again,
                  )
            | inr ((node, r), f) ↦
                rw (get_slow, e, f)
                  (Got-Given p m r base size node held u' (chunk' ∙ chunk)
                    (subst (Searched m base size (λ x. held x + count x m.local)) f again))
          ]
    ]

-- A get on any path, of a pool whose blocks fill its chunk, of fewer than 2^31 bytes, where `held x`
-- says how often the block `x` is with a user: it gives a block that no user has, of the size that is asked for at least, or
-- NULL, and then each free block that is left is too small. The blocks fill the chunk again, and the
-- lists hold the free ones in order.
pub node_get-Gives :
    (cached : Bool) (size : ℕ) (p : NonFixed) (base : ℕ) (held : ℕ → ℕ)
    → Inv p base (λ x. held x + count x p.local)
    → Gives p base size held (node_get cached size p)
unfolding node_get
node_get-Gives false size p base held v = get_slow-Gives size p base held v
node_get-Gives true size p base held v = elim (Option-cases (get_ceil size p)) [
  | inl e ↦ rw (node_get, e) (get_slow-Gives size p base held v)
  | inr ((node, r), e) ↦
      rw (node_get, e)
        (Got-Given p p r base size node held v refl (
          subst (Searched p base size (λ x. held x + count x p.local)) e
            (get_ceil-Searched p base size (λ x. held x + count x p.local) v)))
]
