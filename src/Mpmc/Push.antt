-- ===== src/Mpmc/Push.antt =====
-- lib/type/type_atom_queue.c: a push takes its node, and the tail goes on.
use misc_c.Base.{
  ℕ, ◌+◌, ◌<◌, ◌≡◌, ◌≢◌, ◌∙◌, ap, Bool, true, false, ◌&&◌, List, [], length, append-nil, ◌==◌,
  arith, Bool-cases, inl, inr,
}
use mathlib.Core.Path.{subst}
use misc_c.Mpmc.{Tag, tag_eq, Local, push_start, Mpmc, put, goes, swing_tail}
use misc_c.Mpmc.Inv.{nth, LocalOk, private_of, Private, Inv, Sound}
use misc_c.Mpmc.Stable.{if-Ok, LocalOk-grows, goes-Inv}

module _ (s : Mpmc) (nodes : List ℕ) (h l : ℕ) (v : Inv s nodes h l) where
  -- The tail goes on to the node behind it.
  swung :
      (n version : ℕ)
      → l + 1 < length nodes
      → n ≡ nth nodes (l + 1)
      → version ≡ l + 1
      → Inv (record s { tail = record { ptr = n; version = version } }) nodes h (l + 1)
  swung n version lt e there = record {
    order = omega (arith, v.order);
    bound = lt;
    lag = omega (arith, v.lag);
    head_ptr = v.head_ptr;
    head_version = v.head_version;
    tail_ptr = e;
    tail_version = there;
    links = v.links;
    distinct = v.distinct;
    real = v.real;
    live = v.live;
    owned = v.owned;
    knows = λ u.
        subst (λ ns. LocalOk ns h (l + 1) (s.locals u)) (append-nil nodes)
          (LocalOk-grows nodes [] h l h (l + 1) (omega arith) (omega arith) v.order v.bound
            (s.locals u) (v.knows u));
    private = v.private;
    apart = v.apart;
    values = v.values;
    value = v.value;
    taken = v.taken;
  }

  pub swing_tail-Sound :
      (ok : Bool) (tag : Tag) (n : ℕ)
      → tag.version + 1 < length nodes
      → n ≡ nth nodes (tag.version + 1)
      → (t : ℕ) (x : Local) → ((l : ℕ) → LocalOk nodes h l x)
      → (private_of x ≢ 0 → private_of x ≡ private_of (s.locals t))
      → Sound (goes t x (swing_tail ok tag n s))
  swing_tail-Sound ok tag n lt e t x knows same = elim (Bool-cases (ok && tag_eq s.tail tag)) [
    | inl swings ↦
        let place : tag.version ≡ l = ground (arith, swings, v.tail_version) in
        let moved : Mpmc = record s { tail = record { ptr = n; version = tag.version + 1 } } in
        let sound : Inv moved nodes h (l + 1) =
          swung n (tag.version + 1) (omega (arith, lt, place))
            (e ∙ ap (λ i. nth nodes (i + 1)) place) (omega (arith, place)) in
        rw (swings) (nodes, h, l + 1, goes-Inv moved nodes h (l + 1) sound t x (knows (l + 1)) same)
    | inr stays ↦ rw (stays) (nodes, h, l, goes-Inv s nodes h l v t x (knows l) same)
  ]

  abbrev pub called : (item value : ℕ) → Mpmc
  called item value = record s {
    next = put s.next item 0;
    data_of = put s.data_of item value;
    allocated = put s.allocated item true;
    given = put s.given item true;
  }

  pub called-Inv :
      (t item value : ℕ)
      → item ≢ 0
      → s.given item ≡ false
      → Inv (goes t (push_start item) (called item value)) nodes h l
  called-Inv t item value some fresh = record {
    order = v.order;
    bound = v.bound;
    lag = v.lag;
    head_ptr = v.head_ptr;
    head_version = v.head_version;
    tail_ptr = v.tail_ptr;
    tail_version = v.tail_version;
    links = λ i lt. ground (arith, v.links i lt, v.owned i lt, fresh, at (nth nodes i));
    distinct = v.distinct;
    real = v.real;
    live = λ x a. ground (arith, a, v.live x);
    owned = λ i lt. ground (arith, v.owned i lt);
    knows = λ u. if-Ok (LocalOk nodes h l) (u == t) some (v.knows u);
    private = λ u.
        if-Ok (Private (called item value) nodes) (u == t)
          (λ _. (
            ground arith,
            ground arith,
            λ i lt e. ground (arith, v.owned i lt, fresh, ap s.given e),
          ))
          (λ some'.
            let (a, n, far) = v.private u some' in
            (ground (arith, a), ground (arith, a, n, fresh, at (private_of (s.locals u))), far));
    apart = λ u w some' e. ground (
      arith,
      some',
      e,
      fresh,
      v.apart u w,
      v.private u,
      v.private w,
      at (private_of (s.locals u)),
      at (private_of (s.locals w)),
    );
    values = v.values;
    value = λ i lt.
        ground (arith, v.value i lt, lt, v.values, v.owned (i + 1), fresh, at (nth nodes (i + 1)));
    taken = v.taken;
  }
    where
      at : (x : ℕ) → (x == item) ≡ true → s.given x ≡ s.given item
      at x e = ap s.given (ground (arith, e))
