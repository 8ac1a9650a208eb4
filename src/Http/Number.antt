-- ===== src/Http/Number.antt =====
-- The lengths that mgnt/web/http.c reads from a header.
use misc_c.Base.{
  ℕ, zero, suc, ◌+◌, ◌-◌, ◌*◌, ◌/◌, ◌%◌, ◌^◌, ◌≤◌, ◌<◌, ◌≡◌, refl, ◌∙◌, sym, ap, Bool-cases, inl,
  inr, some, [], ◌∷◌, ◌++◌, append_assoc, append-nil, ltb, arith,
}
use misc_c.Http.{Text, uint_from, http_parse_uint}
use misc_c.Cli.Number.{digits, decimal}

digit-step :
    (n c r : ℕ) (rest : Text)
    → b'0' ≤ c
    → c ≤ b'9'
    → r * 10 + (c - b'0') ≡ n
    → n < 2 ^ 64
    → uint_from (c ∷ rest) r ≡ uint_from rest n
unfolding uint_from
digit-step n c r rest lo hi e b = ground (arith, lo, hi, e, b)

uint_from-digits :
    (k n : ℕ) (rest : Text)
    → n ≤ k
    → n < 2 ^ 64
    → uint_from (digits k n ++ rest) 0 ≡ uint_from rest n
unfolding uint_from
uint_from-digits zero n rest h b = let e : n ≡ 0 = omega arith in rw e refl
uint_from-digits (suc k) n rest h b = elim (Bool-cases (ltb n 10)) [
  | inl e ↦
      let small : n < 10 = ground (arith, e) in
      rw (digits, e)
        (digit-step n (b'0' + n) 0 rest (omega arith) (omega (arith, small)) (omega arith) b)
  | inr e ↦
      let big : 10 ≤ n = ground (arith, e) in
      rw (digits, e)
        (ap (λ t. uint_from t 0) (append_assoc (digits k (n / 10)) ((b'0' + n % 10) ∷ []) rest)
          ∙ uint_from-digits k (n / 10) ((b'0' + n % 10) ∷ rest) (omega arith) (omega arith)
          ∙ digit-step n (b'0' + n % 10) (n / 10) rest (omega arith) (omega arith) (omega arith) b)
]

-- A length that size_t holds is read back from its decimal digits.
pub parse_uint-decimal : (n : ℕ) → n < 2 ^ 64 → http_parse_uint (decimal n) ≡ some n
unfolding uint_from
parse_uint-decimal n h =
    ap (λ t. uint_from t 0) (sym (append-nil (digits n n)))
    ∙ uint_from-digits n n [] (omega arith) h
