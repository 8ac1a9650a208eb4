-- ===== src/Cli/Number.antt =====
-- mgnt/cli/cli_trie.c: `cli_param_parse_str_2_u32`, which reads a number into an int.
use misc_c.Base.{
  ℕ, zero, suc, ◌+◌, ◌-◌, ◌*◌, ◌/◌, ◌%◌, ◌≤◌, ◌<◌, ◌≡◌, refl, ◌∙◌, sym, ap, Bool, Bool-cases, inl,
  inr, ◌&&◌, not, [], ◌∷◌, ◌++◌, append_assoc, append-nil, ltb, leb, if◌then◌else◌, arith,
}
use misc_c.Cli.{Text}

-- The number, -1 for a byte that is no digit, or an overflow of the int, which C leaves undefined.
pub data Parsed : Type 0 where
  number : ℕ → Parsed
  refused : Parsed
  overflow : Parsed

abbrev pub int_max : ℕ
int_max = 2147483647

abbrev pub is_digit : ℕ → Bool
is_digit c = leb b'0' c && leb c b'9'

unfoldable pub parse_digits : Text → ℕ → Parsed
parse_digits [] result = number result
parse_digits (c ∷ cs) result =
    if not (is_digit c)
    then refused
    else if ltb int_max (result * 10 + (c - b'0'))
    then overflow
    else parse_digits cs (result * 10 + (c - b'0'))

unfoldable pub cli_param_parse_str_2_u32 : Text → Parsed
unfolding parse_digits
cli_param_parse_str_2_u32 str = parse_digits str 0

-- A number in decimal digits; `k` is at least the number.
abbrev pub digits : ℕ → ℕ → Text
digits zero n = b'0' ∷ []
digits (suc k) n = if ltb n 10 then (b'0' + n) ∷ [] else digits k (n / 10) ++ (b'0' + n % 10) ∷ []

abbrev pub decimal : ℕ → Text
decimal n = digits n n

digit-step :
    (n c r : ℕ) (rest : Text)
    → b'0' ≤ c
    → c ≤ b'9'
    → r * 10 + (c - b'0') ≡ n
    → n ≤ int_max
    → parse_digits (c ∷ rest) r ≡ parse_digits rest n
unfolding parse_digits
digit-step n c r rest low high v b = rw (parse_digits, v) (ground arith)

parse_digits-digits :
    (k n : ℕ) (rest : Text)
    → n ≤ k
    → n ≤ int_max
    → parse_digits (digits k n ++ rest) 0 ≡ parse_digits rest n
unfolding parse_digits
parse_digits-digits zero n rest h b = let e : n ≡ 0 = omega arith in rw e refl
parse_digits-digits (suc k) n rest h b = elim (Bool-cases (ltb n 10)) [
  | inl e ↦
      let small : n < 10 = ground (arith, e) in
      let value : 0 * 10 + (b'0' + n - b'0') ≡ n = omega arith in
      rw (digits, e) (digit-step n (b'0' + n) 0 rest (omega arith) (omega arith) value b)
  | inr e ↦
      let big : 10 ≤ n = ground (arith, e) in
      let value : n / 10 * 10 + (b'0' + n % 10 - b'0') ≡ n = omega arith in
      rw (digits, e)
        (ap (λ t. parse_digits t 0) (append_assoc (digits k (n / 10)) ((b'0' + n % 10) ∷ []) rest)
          ∙ parse_digits-digits k (n / 10) ((b'0' + n % 10) ∷ rest) (omega arith) (omega arith)
          ∙ digit-step n (b'0' + n % 10) (n / 10) rest (omega arith) (omega arith) value b)
]

-- Every number that an int holds is read back from its decimal digits.
pub parse-decimal : (n : ℕ) → n ≤ int_max → cli_param_parse_str_2_u32 (decimal n) ≡ number n
unfolding cli_param_parse_str_2_u32 parse_digits
parse-decimal n h =
    ap (λ t. parse_digits t 0) (sym (append-nil (digits n n)))
    ∙ parse_digits-digits n n [] (omega arith) h
