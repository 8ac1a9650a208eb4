-- ===== src/NonFixed/Steps.antt =====
-- Runs of a pool of lib/mp/mp_nonfixed.c: its thread gets and puts blocks, and others put them too.
use misc_c.Base.{
  ℕ, ◌+◌, ◌^◌, ◌≤◌, ◌<◌, ◌≡◌, refl, ◌∙◌, ap, Bool, Bool-cases, ◌⊎◌, inl, inr, none, some, List, [],
  ◌∷◌, ◌++◌, ltb, ◌==◌, if◌then◌else◌, arith,
}
use mathlib.Core.Path.{subst}
use misc_c.NonFixed.{node_header, NonFixed, block_end, node_get, node_put, recycle, supply}
use misc_c.NonFixed.Ordered.{count}
use misc_c.NonFixed.Chain.{Chain, Chain-once, count-append, block-within, Chain-cut, Chain-outside}
use misc_c.NonFixed.Inv.{Inv, plus, node_put-Inv}
use misc_c.NonFixed.Slow.{Inv-out, Inv-local, Given, Gives, node_get-Gives}

-- The list without the first `x`
abbrev pub without : ℕ → List ℕ → List ℕ
without x [] = []
without x (y ∷ ys) = if y == x then ys else y ∷ without x ys

pub count-without :
    (x z : ℕ) (ys : List ℕ) → 0 < count x ys → plus x (λ y. count y (without x ys)) z ≡ count z ys
count-without x z [] c = absurd (omega (arith, c))
count-without x z (y ∷ ys) c = elim (Bool-cases (y == x)) [
  | inl e ↦ ground (arith, e)
  | inr e ↦ ground (arith, e, count-without x z ys (ground (arith, c, e)))
]

-- The pool, and the blocks that its users hold, with those that wait in queues of other threads.
pub record State : Type 0 where
  pub pool : NonFixed
  pub held : List ℕ

-- A get that gives a block or NULL, a put by the thread of the pool, and a put by another thread,
-- when the block comes back.
pub data Steps (s : State) : State → Type 0 where
  here : Steps s s
  got :
      {t : State} {node : ℕ} {q : NonFixed} (cached : Bool) (size : ℕ)
      → Steps s t
      → node_get cached size t.pool ≡ (some node, q)
      → Steps s (record { pool = q; held = node ∷ t.held })
  failed :
      {t : State} {q : NonFixed} (cached : Bool) (size : ℕ)
      → Steps s t
      → node_get cached size t.pool ≡ (none, q)
      → Steps s (record { pool = q; held = t.held })
  put :
      {t : State} (node : ℕ)
      → Steps s t
      → 0 < count node t.held
      → Steps s (record { pool = node_put node t.pool; held = without node t.held })
  returned :
      {t : State} (node : ℕ)
      → Steps s t
      → 0 < count node t.held
      → Steps s (record { pool = recycle node t.pool; held = without node t.held })

abbrev pub IsKept : (base end : ℕ) → State → Type 0
IsKept base end s =
    Inv s.pool base (λ x. count x s.held + count x s.pool.local) × (s.pool.mem_chunk_end ≡ end)

node_put-local :
    (node : ℕ) (p : NonFixed)
    → ((node_put node p).local ≡ p.local) × ((node_put node p).mem_chunk_end ≡ p.mem_chunk_end)
unfolding node_put
node_put-local node p = (refl, refl)

steps-IsKept : (base end : ℕ) {s t : State} → Steps s t → IsKept base end s → IsKept base end t
unfolding recycle
steps-IsKept base end here v = v
steps-IsKept base end (got {t} {node} {q} cached size r e) v =
    let (w, c) = steps-IsKept base end r v in
    let g : Given t.pool base size node (λ x. count x t.held) q =
      subst (Gives t.pool base size (λ x. count x t.held)) e
        (node_get-Gives cached size t.pool base (λ x. count x t.held) w) in
    (Inv-out (λ x. refl) g.valid, g.chunk ∙ c)
steps-IsKept base end (failed {t} {q} cached size r e) v =
    let (w, c) = steps-IsKept base end r v in
    let g : Gives t.pool base size (λ x. count x t.held) (none, q) =
      subst (Gives t.pool base size (λ x. count x t.held)) e
        (node_get-Gives cached size t.pool base (λ x. count x t.held) w) in
    let (u, c', _) = g in (u, c' ∙ c)
steps-IsKept base end (put {t} node r h) v =
    let (w, c) = steps-IsKept base end r v in
    let (local, chunk) = node_put-local node t.pool in
    let fewer =
      node_put-Inv t.pool base node (λ x. count x (without node t.held) + count x t.pool.local)
        (Inv-out (λ x. omega (arith, count-without node x t.held h)) w) in
    (Inv-out (λ x. omega (arith, ap (count x) local)) fewer, chunk ∙ c)
steps-IsKept base end (returned {t} node r h) v =
    let (w, c) = steps-IsKept base end r v in
    (
      Inv-out
          (λ x.
            omega (arith, count-without node x t.held h, count-append x t.pool.local (node ∷ [])))
          (Inv-local (t.pool.local ++ node ∷ []) w),
      c,
    )

pub supply-IsKept :
    (base size : ℕ)
    → size < 2 ^ 31
    → IsKept base (base + node_header + size) (record { pool = supply base size; held = [] })
unfolding supply
supply-IsKept base size small = (
  record {
    blocks = base ∷ [];
    chain = (refl, refl);
    small = omega (arith, small);
    free = λ x. refl;
    addr = λ x. refl;
    taken = λ x. refl;
    free_ordered = refl;
    addr_ordered = refl;
  },
  refl,
)

-- Of two blocks of a chain, one ends before the other begins.
Chain-apart :
    (sizes : ℕ → ℕ) (a e x y : ℕ) (bs : List ℕ)
    → Chain sizes a bs e
    → 0 < count x bs
    → 0 < count y bs
    → x < y
    → block_end sizes x ≤ y
Chain-apart sizes a e x y bs c p q l =
    let (pre, post, split, front, back) = Chain-cut sizes a e x bs c p in
    elim (Bool-cases (ltb y (block_end sizes x))) [
      | inr far ↦ ground (arith, far)
      | inl near ↦
          let early = Chain-outside sizes a x y pre front (inr (omega (arith, l))) in
          let late =
            Chain-outside sizes (block_end sizes x) e y post back (inl (ground (arith, near))) in
          absurd
            (ground (arith, q, early, late, l, ap (count y) split, count-append y pre (x ∷ post)))
    ]

-- Whatever a pool with a chunk of `size` bytes, fewer than 2^31, behind its first node has been
-- through: each block that a user holds is held once, lies in the chunk and is in neither list of free
-- blocks, and of two different ones one ends before the other begins.
pub steps-apart :
    (base size : ℕ) {t : State}
    → size < 2 ^ 31
    → Steps (record { pool = supply base size; held = [] }) t
    → (x y : ℕ) → 0 < count x t.held
    → 0 < count y t.held
    → (count x t.held ≡ 1)
      × (count x t.pool.free_sl ≡ 0)
      × (count x t.pool.addr_sl ≡ 0)
      × (base ≤ x)
      × (block_end t.pool.size x ≤ base + node_header + size)
      × ((x ≡ y) ⊎ ((block_end t.pool.size x ≤ y) ⊎ (block_end t.pool.size y ≤ x)))
steps-apart base size {t} small r x y p q =
    let (v, c) = steps-IsKept base (base + node_header + size) r (supply-IsKept base size small) in
    let end : ℕ = t.pool.mem_chunk_end in
    let once = Chain-once t.pool.size base end x v.blocks v.chain in
    let in_x : 0 < count x v.blocks = ground (arith, v.taken x, p) in
    let in_y : 0 < count y v.blocks = ground (arith, v.taken y, q) in
    let (low, high) = block-within t.pool.size base end x v.blocks v.chain in_x in
    let before = Chain-apart t.pool.size base end x y v.blocks v.chain in_x in_y in
    let behind = Chain-apart t.pool.size base end y x v.blocks v.chain in_y in_x in
    (
      ground (arith, v.taken x, p, once),
      ground (arith, v.taken x, v.free x, p),
      ground (arith, v.taken x, v.addr x, p),
      low,
      omega (arith, high, c),
      elim (Bool-cases (ltb x y)) [
        | inl l ↦ inr (inl (before (ground (arith, l))))
        | inr l ↦ elim (Bool-cases (ltb y x)) [
          | inl m ↦ inr (inr (behind (ground (arith, m))))
          | inr m ↦ inl (ground (arith, l, m))
        ]
      ],
    )
