-- ===== src/NonFixed/Chain.antt =====
-- Blocks that lie behind one another: each begins where the one before it ends.
use misc_c.Base.{
  ℕ, ◌+◌, ◌-◌, ◌^◌, ◌≤◌, ◌<◌, ◌≡◌, refl, ◌∙◌, ap, sym, Bool-cases, false, ◌⊎◌, inl, inr, List, [],
  ◌∷◌, ◌++◌, ◌==◌, if◌then◌else◌, arith,
}
use mathlib.Core.Path.{subst}
use misc_c.NonFixed.{node_header, u32, set_size, block_end, swallow}
use misc_c.NonFixed.Ordered.{count, IsNear}

-- The blocks `bs` fill the addresses from `a` to `e`.
abbrev pub Chain : (ℕ → ℕ) → (a : ℕ) → List ℕ → (e : ℕ) → Type 0
Chain sizes a [] e = a ≡ e
Chain sizes a (b ∷ bs) e = (a ≡ b) × Chain sizes (block_end sizes b) bs e

pub Chain-le : (sizes : ℕ → ℕ) (a e : ℕ) (bs : List ℕ) → Chain sizes a bs e → a ≤ e
Chain-le sizes a e [] c = omega (arith, c)
Chain-le sizes a e (b ∷ bs) (p, c) = omega (arith, p, Chain-le sizes (block_end sizes b) e bs c)

-- No block begins outside.
pub Chain-outside :
    (sizes : ℕ → ℕ) (a e x : ℕ) (bs : List ℕ)
    → Chain sizes a bs e
    → (x < a) ⊎ (e ≤ x)
    → count x bs ≡ 0
Chain-outside sizes a e x [] c o = refl
Chain-outside sizes a e x (b ∷ bs) (p, c) o =
    let le = Chain-le sizes (block_end sizes b) e bs c in
    let o' : (x < block_end sizes b) ⊎ (e ≤ x) = elim o [
      | inl l ↦ inl (omega (arith, l, p))
      | inr l ↦ inr l
    ] in
    let other : (b == x) ≡ false = elim o [
      | inl l ↦ ground (arith, l, p)
      | inr l ↦ ground (arith, l, le)
    ] in
    ground (arith, other, Chain-outside sizes (block_end sizes b) e x bs c o')

-- Sizes that agree from `a` to `e`
pub Chain-sizes :
    (sizes sizes' : ℕ → ℕ) (a e : ℕ) (bs : List ℕ)
    → Chain sizes a bs e
    → ((x : ℕ) → a ≤ x → x < e → sizes' x ≡ sizes x)
    → Chain sizes' a bs e
Chain-sizes sizes sizes' a e [] c h = c
Chain-sizes sizes sizes' a e (b ∷ bs) (p, c) h =
    let le = Chain-le sizes (block_end sizes b) e bs c in
    let same : sizes' b ≡ sizes b = h b (omega (arith, p)) (omega (arith, le)) in
    let ends : block_end sizes' b ≡ block_end sizes b = omega (arith, same) in
    (
      p,
      subst (λ a. Chain sizes' a bs e) (sym ends)
          (Chain-sizes sizes sizes' (block_end sizes b) e bs c
            (λ x l m. h x (omega (arith, l, p)) m)),
    )

-- A chain is cut at a block.
pub Chain-cut :
    (sizes : ℕ → ℕ) (a e x : ℕ) (bs : List ℕ)
    → Chain sizes a bs e
    → 0 < count x bs
    → (pre : List ℕ) × (post : List ℕ) × (bs ≡ pre ++ x ∷ post)
      × Chain sizes a pre x
      × Chain sizes (block_end sizes x) post e
Chain-cut sizes a e x [] c m = absurd (omega (arith, m))
Chain-cut sizes a e x (b ∷ bs) (p, c) m = elim (Bool-cases (b == x)) [
  | inl f ↦
      let same : b ≡ x = ground (arith, f) in
      (
        [],
        bs,
        ap (λ z. z ∷ bs) same,
        p ∙ same,
        subst (λ z. Chain sizes (block_end sizes z) bs e) same c,
      )
  | inr f ↦
      let (pre, post, split, front, back) =
        Chain-cut sizes (block_end sizes b) e x bs c (ground (arith, m, f)) in
      (b ∷ pre, post, ap (λ zs. b ∷ zs) split, (p, front), back)
]

pub Chain-join :
    (sizes : ℕ → ℕ) (a m e : ℕ) (xs ys : List ℕ)
    → Chain sizes a xs m
    → Chain sizes m ys e
    → Chain sizes a (xs ++ ys) e
Chain-join sizes a m e [] ys c d = subst (λ z. Chain sizes z ys e) (sym c) d
Chain-join sizes a m e (b ∷ xs) ys (p, c) d =
    (p, Chain-join sizes (block_end sizes b) m e xs ys c d)

pub count-append : (x : ℕ) (xs ys : List ℕ) → count x (xs ++ ys) ≡ count x xs + count x ys
count-append x [] ys = omega arith
count-append x (y ∷ xs) ys = omega (arith, count-append x xs ys)

pub Chain-once : (sizes : ℕ → ℕ) (a e x : ℕ) (bs : List ℕ) → Chain sizes a bs e → count x bs ≤ 1
Chain-once sizes a e x [] c = omega arith
Chain-once sizes a e x (b ∷ bs) (p, c) = elim (Bool-cases (b == x)) [
  | inl f ↦
      ground (arith, f, Chain-outside sizes (block_end sizes b) e x bs c (inl (ground (arith, f))))
  | inr f ↦ ground (arith, f, Chain-once sizes (block_end sizes b) e x bs c)
]

module _ (sizes : ℕ → ℕ) (a e node : ℕ) (bs : List ℕ) (c : Chain sizes a bs e)
    (there : 0 < count node bs) where
  -- The chain before and behind the block
  cut-counts :
      (pre : List ℕ) × (post : List ℕ) × Chain sizes a pre node
      × Chain sizes (block_end sizes node) post e
      × ((x : ℕ) → count x bs ≡ count x pre + ((if node == x then 1 else 0) + count x post))
      × (a ≤ node)
      × (block_end sizes node ≤ e)
  cut-counts =
      let (pre, post, split, front, back) = Chain-cut sizes a e node bs c there in
      (
        pre,
        post,
        front,
        back,
        λ x. ap (count x) split ∙ count-append x pre (node ∷ post),
        Chain-le sizes a node pre front,
        Chain-le sizes (block_end sizes node) e post back,
      )

  pub block-within : (a ≤ node) × (block_end sizes node ≤ e)
  block-within = let (_, _, _, _, _, l, m) = cut-counts in (l, m)

  -- What is behind a block, unless it is the last, is a block.
  pub next-there : block_end sizes node < e → 0 < count (block_end sizes node) bs
  next-there more =
      let (pre, post, _, back, counts, _, _) = cut-counts in
      omega (arith, counts (block_end sizes node), first post back more)
    where
      first :
          (post : List ℕ)
          → Chain sizes (block_end sizes node) post e
          → block_end sizes node < e
          → 0 < count (block_end sizes node) post
      first [] c more = absurd (omega (arith, c, more))
      first (b ∷ post) (p, c) more = ground (arith, p)

  -- One block becomes two.
  pub split-Chain :
      (size : ℕ)
      → size + node_header ≤ sizes node
      → sizes node < 2 ^ 32
      → let new_node : ℕ = node + node_header + size in
        let sizes' : ℕ → ℕ =
          set_size (set_size sizes new_node (u32 (sizes node - size - node_header))) node size in
        (count new_node bs ≡ 0)
        × (bs' : List ℕ) × Chain sizes' a bs' e
        × ((x : ℕ) → count x bs' ≡ count x bs + (if new_node == x then 1 else 0))
  split-Chain size fits small =
      let (pre, post, front, back, counts, _, _) = cut-counts in
      let new_node : ℕ = node + node_header + size in
      let sizes' : ℕ → ℕ =
        set_size (set_size sizes new_node (u32 (sizes node - size - node_header))) node size in
      let other : (node == new_node) ≡ false = ground arith in
      let at_node : sizes' node ≡ size = ground arith in
      let at_new : sizes' new_node ≡ sizes node - size - node_header = ground (arith, small) in
      let front' = Chain-sizes sizes sizes' a node pre front (λ x l m. ground (arith, m)) in
      let back' =
        Chain-sizes sizes sizes' (block_end sizes node) e post back
          (λ x l m. ground (arith, l, fits)) in
      let ends : block_end sizes node ≡ block_end sizes' new_node = omega (arith, at_new, fits) in
      let rest : Chain sizes' (block_end sizes' node) (new_node ∷ post) e =
        (omega (arith, at_node), subst (λ z. Chain sizes' z post e) ends back') in
      (
        ground (
          arith,
          counts new_node,
          Chain-outside sizes a node new_node pre front (inr (omega arith)),
          Chain-outside sizes (block_end sizes node) e new_node post back
              (inl (omega (arith, fits))),
          other,
        ),
        pre ++ node ∷ new_node ∷ post,
        Chain-join sizes' a node e pre (node ∷ new_node ∷ post) front' (refl, rest),
        λ x. ground (arith, counts x, count-append x pre (node ∷ new_node ∷ post)),
      )

  -- A block takes in the next one.
  pub swallow-Chain :
      (next_node : ℕ)
      → next_node ≡ block_end sizes node
      → next_node < e
      → e ≤ a + node_header + (2 ^ 32 - 1)
      → (bs' : List ℕ) × Chain (swallow node next_node sizes) a bs' e
        × ((x : ℕ) → count x bs' + (if next_node == x then 1 else 0) ≡ count x bs)
  swallow-Chain next_node n more small =
      let (pre, post, front, back, counts, l, _) = cut-counts in
      let sizes' : ℕ → ℕ = swallow node next_node sizes in by_post pre post front back counts l
    where
      by_post :
          (pre post : List ℕ)
          → Chain sizes a pre node
          → Chain sizes (block_end sizes node) post e
          → ((x : ℕ) → count x bs ≡ count x pre + ((if node == x then 1 else 0) + count x post))
          → a ≤ node
          → (bs' : List ℕ) × Chain (swallow node next_node sizes) a bs' e
            × ((x : ℕ) → count x bs' + (if next_node == x then 1 else 0) ≡ count x bs)
      by_post pre [] front back counts l = absurd (omega (arith, back, n, more))
      by_post pre (b ∷ post) front (p, back) counts l =
          let sizes' : ℕ → ℕ = swallow node next_node sizes in
          let same : b ≡ next_node = sym (n ∙ p) in
          let at_b : sizes b ≡ sizes next_node = ap sizes same in
          let le = Chain-le sizes (block_end sizes b) e post back in
          let at_node : sizes' node ≡ sizes node + node_header + sizes next_node =
            ground (arith, same, at_b, le, small, l, n) in
          let ends : block_end sizes b ≡ block_end sizes' node =
            omega (arith, at_node, at_b, same, n) in
          let front' = Chain-sizes sizes sizes' a node pre front (λ x l m. ground (arith, m)) in
          let back' =
            Chain-sizes sizes sizes' (block_end sizes b) e post back
              (λ x l m. ground (arith, l, n, same)) in
          (
            pre ++ node ∷ post,
            Chain-join sizes' a node e pre (node ∷ post) front'
                (refl, subst (λ z. Chain sizes' z post e) ends back'),
            λ x. ground (arith, counts x, same, count-append x pre (node ∷ post)),
          )

pub block-IsNear :
    (sizes : ℕ → ℕ) (a e x : ℕ) (bs : List ℕ)
    → Chain sizes a bs e
    → e ≤ a + node_header + (2 ^ 31 - 1)
    → 0 < count x bs
    → IsNear a x
block-IsNear sizes a e x bs c small there =
    let (l, m) = block-within sizes a e x bs c there in (l, omega (arith, m, small))
