-- ===== src/NonFixed/Ordered.antt =====
-- Lists in the order of a key and of the addresses, as the skip lists of lib/mp/mp_nonfixed.c.
use misc_c.Base.{
  ℕ, ◌+◌, ◌^◌, ◌≤◌, ◌<◌, ◌≡◌, refl, ◌∙◌, ap, sym, Bool, Bool-cases, true, false, ◌&&◌, inl, inr,
  none, some, List, [], ◌∷◌, ltb, ◌==◌, if◌then◌else◌, arith,
}
use misc_c.NonFixed.{addr_before, sl_before, sl_add, sl_del, sl_ceil}

-- How often `x` is in the list
abbrev pub count : ℕ → List ℕ → ℕ
count x [] = 0
count x (y ∷ ys) = (if y == x then 1 else 0) + count x ys

-- `x` comes before each item.
abbrev pub is_least : (ℕ → ℕ) → ℕ → List ℕ → Bool
is_least key x [] = true
is_least key x (y ∷ ys) = sl_before key x y && is_least key x ys

abbrev pub is_ordered : (ℕ → ℕ) → List ℕ → Bool
is_ordered key [] = true
is_ordered key (x ∷ xs) = is_least key x xs && is_ordered key xs

-- Addresses that lie so near to each other that an int holds their differences
abbrev pub IsNear : (base : ℕ) → ℕ → Type 0
IsNear base x = (base ≤ x) × (x < base + 2 ^ 31)

addr_before_near : (base x y : ℕ) → IsNear base x → IsNear base y → addr_before x y ≡ ltb x y
unfolding addr_before
addr_before_near base x y (a, b) (c, d) = ground (arith, a, b, c, d)

addr_before_self : (x : ℕ) → addr_before x x ≡ false
unfolding addr_before
addr_before_self x = ground arith

module _ (key : ℕ → ℕ) where
  pub count-sl_add :
      (x z : ℕ) (ys : List ℕ) → count z (sl_add key x ys) ≡ (if x == z then 1 else 0) + count z ys
  unfolding sl_add
  count-sl_add x z [] = refl
  count-sl_add x z (y ∷ ys) = elim (Bool-cases (sl_before key y x)) [
    | inl e ↦ rw (sl_add, e) (omega (arith, count-sl_add x z ys))
    | inr e ↦ rw (sl_add, e) refl
  ]

  -- An item that is not before the first one is not in the list, unless it is that.
  least-absent :
      (x z : ℕ) (ys : List ℕ)
      → is_least key z ys ≡ true
      → sl_before key z x ≡ false
      → count x ys ≡ 0
  least-absent x z [] l b = refl
  least-absent x z (y ∷ ys) l b = elim (Bool-cases (y == x)) [
    | inl e ↦
        let same : y ≡ x = ground (arith, e) in
        absurd (ground (arith, l, b, ap (sl_before key z) same))
    | inr e ↦ ground (arith, e, least-absent x z ys (ground (arith, l)) b)
  ]

  not-before_self : (x y : ℕ) → sl_before key x y ≡ true → (x == y) ≡ false
  not-before_self x y b = elim (Bool-cases (x == y)) [
    | inr e ↦ e
    | inl e ↦
        let same : x ≡ y = ground (arith, e) in
        absurd (ground (arith, b, e, ap key same, ap (addr_before x) same, addr_before_self x))
  ]

  pub count-sl_del :
      (x z : ℕ) (ys : List ℕ)
      → is_ordered key ys ≡ true
      → 0 < count x ys
      → count z (sl_del key x ys) + (if x == z then 1 else 0) ≡ count z ys
  unfolding sl_del
  count-sl_del x z [] o c = absurd (omega (arith, c))
  count-sl_del x z (y ∷ ys) o c = elim (Bool-cases (sl_before key y x)) [
    | inl e ↦
        let other = not-before_self y x e in
        rw (sl_del, e)
          (omega (arith, count-sl_del x z ys (ground (arith, o)) (ground (arith, c, other))))
    | inr e ↦ elim (Bool-cases (y == x)) [
      | inl f ↦ rw (sl_del, e, f) (ground (arith, f))
      | inr f ↦ absurd (ground (arith, c, f, least-absent x y ys (ground (arith, o)) e))
    ]
  ]

  least-sl_add :
      (z x : ℕ) (ys : List ℕ)
      → sl_before key z x ≡ true
      → is_least key z ys ≡ true
      → is_least key z (sl_add key x ys) ≡ true
  unfolding sl_add
  least-sl_add z x [] b l = ground (arith, b)
  least-sl_add z x (y ∷ ys) b l = elim (Bool-cases (sl_before key y x)) [
    | inl e ↦ rw (sl_add, e) (ground (arith, l, least-sl_add z x ys b (ground (arith, l))))
    | inr e ↦ rw (sl_add, e) (ground (arith, b, l))
  ]

  module _ (base : ℕ) where
    before_trans :
        (x y z : ℕ)
        → IsNear base x
        → IsNear base y
        → IsNear base z
        → sl_before key x y ≡ true
        → sl_before key y z ≡ true
        → sl_before key x z ≡ true
    before_trans x y z a b c p q = ground (
      arith,
      p,
      q,
      addr_before_near base x y a b,
      addr_before_near base y z b c,
      addr_before_near base x z a c,
    )

    least_trans :
        (x y : ℕ) (ys : List ℕ)
        → ((z : ℕ) → 0 < count z (x ∷ y ∷ ys) → IsNear base z)
        → sl_before key x y ≡ true
        → is_least key y ys ≡ true
        → is_least key x ys ≡ true
    least_trans x y [] near b l = refl
    least_trans x y (z ∷ ys) near b l =
        let step : sl_before key x z ≡ true =
          before_trans x y z (near x (ground arith)) (near y (ground arith)) (near z (ground arith))
            b (ground (arith, l)) in
        ground
          (arith, step, least_trans x y ys (λ w c. near w (omega (arith, c))) b (ground (arith, l)))

    pub ordered-sl_add :
        (x : ℕ) (ys : List ℕ)
        → ((z : ℕ) → 0 < count z (x ∷ ys) → IsNear base z)
        → is_ordered key ys ≡ true
        → count x ys ≡ 0
        → is_ordered key (sl_add key x ys) ≡ true
    unfolding sl_add
    ordered-sl_add x [] near o c = refl
    ordered-sl_add x (y ∷ ys) near o c = elim (Bool-cases (sl_before key y x)) [
      | inl e ↦
          rw (sl_add, e)
            (ground (
              arith,
              least-sl_add y x ys e (ground (arith, o)),
              ordered-sl_add x ys (λ z d. near z (omega (arith, d))) (ground (arith, o))
                  (ground (arith, c)),
            ))
      | inr e ↦
          let next : sl_before key x y ≡ true = ground (
            arith,
            e,
            c,
            addr_before_near base x y (near x (ground arith)) (near y (ground arith)),
            addr_before_near base y x (near y (ground arith)) (near x (ground arith)),
          ) in
          rw (sl_add, e) (ground (arith, o, next, least_trans x y ys near next (ground (arith, o))))
    ]

  least-sl_del :
      (z x : ℕ) (ys : List ℕ) → is_least key z ys ≡ true → is_least key z (sl_del key x ys) ≡ true
  unfolding sl_del
  least-sl_del z x [] l = refl
  least-sl_del z x (y ∷ ys) l = elim (Bool-cases (sl_before key y x)) [
    | inl e ↦ rw (sl_del, e) (ground (arith, l, least-sl_del z x ys (ground (arith, l))))
    | inr e ↦ elim (Bool-cases (y == x)) [
      | inl f ↦ rw (sl_del, e, f) (ground (arith, l))
      | inr f ↦ rw (sl_del, e, f) l
    ]
  ]

  pub ordered-sl_del :
      (x : ℕ) (ys : List ℕ) → is_ordered key ys ≡ true → is_ordered key (sl_del key x ys) ≡ true
  unfolding sl_del
  ordered-sl_del x [] o = refl
  ordered-sl_del x (y ∷ ys) o = elim (Bool-cases (sl_before key y x)) [
    | inl e ↦
        rw (sl_del, e)
          (ground (
            arith,
            least-sl_del y x ys (ground (arith, o)),
            ordered-sl_del x ys (ground (arith, o)),
          ))
    | inr e ↦ elim (Bool-cases (y == x)) [
      | inl f ↦ rw (sl_del, e, f) (ground (arith, o))
      | inr f ↦ rw (sl_del, e, f) o
    ]
  ]

  pub sl_ceil-some :
      (size y : ℕ) (xs : List ℕ) → sl_ceil key size xs ≡ some y → (0 < count y xs) × (size ≤ key y)
  unfolding sl_ceil
  sl_ceil-some size y [] e = absurd (ground (arith, e))
  sl_ceil-some size y (x ∷ xs) e = elim (Bool-cases (ltb (key x) size)) [
    | inl l ↦
        let found : sl_ceil key size xs ≡ some y = sym (rw (sl_ceil, l) refl) ∙ e in
        let (c, s) = sl_ceil-some size y xs found in (omega (arith, c), s)
    | inr l ↦
        let here : some x ≡ some y = sym (rw (sl_ceil, l) refl) ∙ e in
        let same : x ≡ y = ground (arith, here) in
        (ground (arith, same), ground (arith, l, ap key same))
  ]

  pub sl_ceil-none :
      (size z : ℕ) (xs : List ℕ) → sl_ceil key size xs ≡ none → 0 < count z xs → key z < size
  unfolding sl_ceil
  sl_ceil-none size z [] e c = absurd (omega (arith, c))
  sl_ceil-none size z (x ∷ xs) e c = elim (Bool-cases (ltb (key x) size)) [
    | inr l ↦
        let here : some x ≡ none = sym (rw (sl_ceil, l) refl) ∙ e in absurd (ground (arith, here))
    | inl l ↦
        let rest : sl_ceil key size xs ≡ none = sym (rw (sl_ceil, l) refl) ∙ e in
        elim (Bool-cases (x == z)) [
          | inl f ↦ let same : x ≡ z = ground (arith, f) in ground (arith, l, ap key same)
          | inr f ↦ sl_ceil-none size z xs rest (ground (arith, c, f))
        ]
  ]

-- Keys that agree on the items order them alike.
module _ (key key' : ℕ → ℕ) where
  least-keys :
      (x : ℕ) (xs : List ℕ)
      → key' x ≡ key x
      → ((y : ℕ) → 0 < count y xs → key' y ≡ key y)
      → is_least key' x xs ≡ is_least key x xs
  least-keys x [] h hs = refl
  least-keys x (y ∷ xs) h hs =
      ground (arith, h, hs y (ground arith), least-keys x xs h (λ z c. hs z (omega (arith, c))))

  pub ordered-keys :
      (xs : List ℕ)
      → ((y : ℕ) → 0 < count y xs → key' y ≡ key y)
      → is_ordered key' xs ≡ is_ordered key xs
  ordered-keys [] hs = refl
  ordered-keys (x ∷ xs) hs = ground (
    arith,
    least-keys x xs (hs x (ground arith)) (λ z c. hs z (omega (arith, c))),
    ordered-keys xs (λ z c. hs z (omega (arith, c))),
  )
