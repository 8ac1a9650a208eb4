-- ===== src/Mpmc/Link.antt =====
-- lib/type/type_atom_queue.c: the access that brings a node into the queue.
use misc_c.Base.{
  ℕ, ◌+◌, ◌<◌, ◌≡◌, ◌≢◌, refl, ◌∙◌, ap, sym, Bool, true, false, ◌&&◌, List, [], ◌∷◌, ◌++◌, length,
  get_or, length-append, ◌==◌, arith, ltb, Bool-cases, ◌⊎◌, inl, inr,
}
use misc_c.Base.Memory.{get_or-append}
use mathlib.Core.Path.{subst}
use misc_c.Mpmc.{Tag, push_start, push_checked, push_linked, Mpmc, put, goes, link}
use misc_c.Mpmc.Inv.{nth, LocalOk, private_of, Own, Private, Inv, Sound}
use misc_c.Mpmc.Stable.{
  if-Ok, nth-past, nth-append, nth-last, take-more, LocalOk-grows, knows-at, goes-Inv,
}

-- A thread has found the last node, and links its own behind it.
module _ (s : Mpmc) (nodes : List ℕ) (h l : ℕ) (v : Inv s nodes h l) (t item tail_next : ℕ)
    (tail : Tag) (here : s.locals t ≡ push_checked item tail tail_next)
    (free : s.next tail.ptr ≡ 0) where
  knows : LocalOk nodes h l (push_checked item tail tail_next)
  knows = knows-at s nodes h l v t (push_checked item tail tail_next) here

  own : Own s nodes item
  own =
      subst (Own s nodes) (ap private_of here)
        (v.private t (λ e. knows.0 (sym (ap private_of here) ∙ e)))

  -- What was loaded from the tail is the last node.
  last : tail.version + 1 ≡ length nodes
  last = elim (Bool-cases (ltb (tail.version + 1) (length nodes))) [
    | inl more ↦ absurd (
        v.real (tail.version + 1) (ground (arith, more))
          (sym (v.links tail.version (ground (arith, more))) ∙ ap s.next (sym knows.1.1) ∙ free))
    | inr less ↦ ground (arith, less, knows.1.0, v.bound)
  ]

  abbrev after : List ℕ
  after = nodes ++ item ∷ []

  longer : length after ≡ length nodes + 1
  longer = length-append nodes (item ∷ [])

  old : (i : ℕ) → i < length nodes → nth after i ≡ nth nodes i
  old = nth-append nodes (item ∷ [])

  new : (i : ℕ) → i ≡ length nodes → nth after i ≡ item
  new i e = ap (nth after) e ∙ nth-last nodes item

  at_tail : nth nodes tail.version ≡ tail.ptr
  at_tail = sym knows.1.1

  cases : (i : ℕ) → i < length after → (i < length nodes) ⊎ (i ≡ length nodes)
  cases i lt = ground (arith, lt, longer)

  there : (i : ℕ) → i ≡ length nodes → s.next (nth after i) ≡ 0
  there i e = ap s.next (new i e) ∙ own.1

  linked-links :
      (i : ℕ) → i < length after → put s.next tail.ptr item (nth after i) ≡ nth after (i + 1)
  linked-links i lt = elim (cases i lt) [
    | inl le ↦ ground (
      arith,
      at_tail,
      last,
      le,
      old i le,
      old (i + 1),
      new (i + 1),
      v.links i le,
      v.distinct i tail.version,
      v.bound,
    )
    | inr e ↦ ground (
      arith,
      at_tail,
      last,
      e,
      new i e,
      own,
      own.2 tail.version,
      nth-past after (i + 1),
      longer,
      there i,
    )
  ]

  linked-distinct :
      (i j : ℕ) → i < length after → j < length after → nth after i ≡ nth after j → i ≡ j
  linked-distinct i j li lj e = ground (
    arith,
    cases i li,
    cases j lj,
    e,
    old i,
    old j,
    new i,
    new j,
    v.distinct i j,
    own.2 i,
    own.2 j,
  )

  linked-real : (i : ℕ) → i < length after → (nth after i ≢ 0) × (s.given (nth after i) ≡ true)
  linked-real i lt = elim (cases i lt) [
    | inl le ↦ (λ e. v.real i le (sym (old i le) ∙ e), ap s.given (old i le) ∙ v.owned i le)
    | inr e ↦ (λ no. knows.0 (sym (new i e) ∙ no), ap s.given (new i e) ∙ own.0)
  ]

  abbrev linked : Mpmc
  linked = record s { next = put s.next tail.ptr item; pushed = s.pushed ++ s.data_of item ∷ [] }

  linked-value :
      (i : ℕ) → i < length linked.pushed → get_or linked.pushed i 0 ≡ s.data_of (nth after (i + 1))
  linked-value i lt =
      let kept : i + 1 < length nodes
          → s.data_of (nth after (i + 1)) ≡ s.data_of (nth nodes (i + 1)) =
        λ le. ap s.data_of (old (i + 1) le) in
      let added : i + 1 ≡ length nodes → s.data_of (nth after (i + 1)) ≡ s.data_of item =
        λ e. ap s.data_of (new (i + 1) e) in
      ground (
        arith,
        lt,
        length-append s.pushed (s.data_of item ∷ []),
        v.values,
        v.value i,
        get_or-append s.pushed (s.data_of item ∷ []) i 0,
        kept,
        added,
      )

  linked-Private : (u : ℕ) → (u == t) ≡ false → Private linked after (s.locals u)
  linked-Private u other some =
      let (a, n, far) = v.private u some in
      (
        a,
        ground (arith, n, far tail.version, at_tail, v.bound, knows.1.0),
        λ i lt e. elim (cases i lt) [
          | inl le ↦ far i le (sym (old i le) ∙ e)
          | inr le ↦
              ground (arith, other, v.apart u t some (sym e ∙ new i le ∙ sym (ap private_of here)))
        ],
      )

  pub linked-Inv : Inv (goes t (push_linked item tail) linked) after h l
  linked-Inv = record {
    order = v.order;
    bound = omega (arith, v.bound, longer);
    lag = omega (arith, longer, last, knows.1.0);
    head_ptr = v.head_ptr ∙ sym (old h (omega (arith, v.order, v.bound)));
    head_version = v.head_version;
    tail_ptr = v.tail_ptr ∙ sym (old l v.bound);
    tail_version = v.tail_version;
    links = linked-links;
    distinct = linked-distinct;
    real = λ i lt. (linked-real i lt).0;
    live = v.live;
    owned = λ i lt. (linked-real i lt).1;
    knows = λ u.
        if-Ok (LocalOk after h l) (u == t)
          (
            (knows.1.0, knows.1.1 ∙ sym (old tail.version (omega (arith, knows.1.0, v.bound)))),
            omega (arith, last, longer),
            sym (new (tail.version + 1) last),
          )
          (LocalOk-grows nodes (item ∷ []) h l h l (omega arith) (omega arith) v.order v.bound
            (s.locals u) (v.knows u));
    private = λ u. elim (Bool-cases (u == t)) [
      | inl e ↦ rw (e) λ some. absurd (some refl)
      | inr e ↦ rw (e) (linked-Private u e)
    ];
    apart = λ u w some e. ground (arith, some, e, v.apart u w);
    values = omega (arith, v.values, longer, length-append s.pushed (s.data_of item ∷ []));
    value = linked-value;
    taken =
        v.taken
        ∙ sym (
            take-more h s.pushed (s.data_of item ∷ []) (omega (arith, v.order, v.bound, v.values)));
  }

pub link-Sound :
    (s : Mpmc) (nodes : List ℕ) (h l : ℕ) (v : Inv s nodes h l) (t item tail_next : ℕ) (tail : Tag)
    → s.locals t ≡ push_checked item tail tail_next
    → (ok : Bool) → Sound (link ok t item tail s)
unfolding link
link-Sound s nodes h l v t item tail_next tail here ok =
    elim (Bool-cases (ok && s.next tail.ptr == 0)) [
      | inl e ↦
          rw (link, e)
            (
              nodes ++ item ∷ [],
              h,
              l,
              linked-Inv s nodes h l v t item tail_next tail here (ground (arith, e)),
            )
      | inr e ↦
          rw (link, e)
            (
              nodes,
              h,
              l,
              goes-Inv s nodes h l v t (push_start item)
                  ((knows-at s nodes h l v t (push_checked item tail tail_next) here).0)
                  (λ _. sym (ap private_of here)),
            )
    ]
