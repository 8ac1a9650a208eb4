-- ===== src/Http/Longer.antt =====
-- A request that mgnt/web/http.c has parsed is the same with more bytes behind it.
use misc_c.Base.{
  ℕ, zero, suc, ◌+◌, ◌-◌, ◌≤◌, ◌≡◌, ◌≢◌, refl, ◌∙◌, ap, ap₂, sym, Bool, Bool-cases, inl, inr, true,
  false, Option-cases, none, some, List, [], ◌∷◌, ◌++◌, length, length-append, take, drop, ltb,
  arith,
}
use misc_c.Http.{
  Text, find_crlf, Request, Result, error, incomplete, complete, parse_body, add_header,
  parse_headers, parse_line, http_parse_request,
}
use misc_c.Http.Pieces.{longer, find_crlf-append, find_crlf-cases}

-- A result that no more bytes change.
abbrev pub settled : Result → Bool
settled error = true
settled incomplete = false
settled (complete req n) = true

take-append : {A : Type 0} (n : ℕ) (xs ys : List A) → n ≤ length xs → take n (xs ++ ys) ≡ take n xs
take-append zero xs ys h = refl
take-append (suc n) [] ys h = absurd (omega arith)
take-append (suc n) (x ∷ xs) ys h = ap (λ zs. x ∷ zs) (take-append n xs ys (omega arith))

drop-append :
    {A : Type 0} (n : ℕ) (xs ys : List A) → n ≤ length xs → drop n (xs ++ ys) ≡ drop n xs ++ ys
drop-append zero xs ys h = refl
drop-append (suc n) [] ys h = absurd (omega arith)
drop-append (suc n) (x ∷ xs) ys h = drop-append n xs ys (omega arith)

not-incomplete : {r : Result} → r ≡ incomplete → settled r ≡ true → ⊥
not-incomplete e h = absurd (ground (arith, ap settled e, h))

settled_of_ne : (r : Result) → r ≢ incomplete → settled r ≡ true
settled_of_ne error h = refl
settled_of_ne incomplete h = absurd (h refl)
settled_of_ne (complete req n) h = refl

module _ (n : ℕ) (more : Text) where
  parse_body-append :
      (pos : Text) (req : Request)
      → settled (parse_body n pos req) ≡ true
      → parse_body (n + length more) (pos ++ more) req ≡ parse_body n pos req
  unfolding parse_body
  parse_body-append pos req h = elim (Option-cases req.content_len) [
    | inl e ↦
        let same : n + length more - length (pos ++ more) ≡ n - length pos =
          omega (arith, length-append pos more) in
        rw (parse_body, e) (ap (complete (record req { body = [] })) same)
    | inr (len, e) ↦ elim (Bool-cases (ltb (length pos) len)) [
      | inl short ↦
          let stuck : parse_body n pos req ≡ incomplete = rw (parse_body, e, short) refl in
          absurd (not-incomplete stuck h)
      | inr whole ↦
          let fits : len ≤ length pos = ground (arith, whole) in
          let whole' : ltb (length (pos ++ more)) len ≡ false =
            ground (arith, fits, length-append pos more) in
          let rest = drop-append len pos more fits in
          let same : n + length more - length (drop len pos ++ more) ≡ n - length (drop len pos) =
            omega (arith, length-append (drop len pos) more) in
          rw (parse_body, e, whole, whole', rest)
            (ap₂ (λ body k. complete (record req { body = body }) k) (take-append len pos more fits)
              same)
    ]
  ]

  parse_headers-append :
      (fuel fuel' : ℕ) (pos : Text) (req : Request)
      → settled (parse_headers fuel n pos req) ≡ true
      → fuel ≤ fuel'
      → parse_headers fuel' (n + length more) (pos ++ more) req ≡ parse_headers fuel n pos req
  unfolding parse_headers
  parse_headers-append zero fuel' pos req h l = absurd (not-incomplete refl h)
  parse_headers-append (suc fuel) zero pos req h l = absurd (omega (arith, l))
  parse_headers-append (suc fuel) (suc fuel') pos req h l = elim (find_crlf-cases pos) [
    | inl e ↦
        let stuck : parse_headers (suc fuel) n pos req ≡ incomplete = rw (parse_headers, e) refl in
        absurd (not-incomplete stuck h)
    | inr (inl (rest, e)) ↦
        let e' : find_crlf (pos ++ more) ≡ some ([], rest ++ more) = found pos [] rest e in
        let step : parse_headers (suc fuel) n pos req ≡ parse_body n rest req =
          rw (parse_headers, e) refl in
        rw (parse_headers, e, e') (parse_body-append rest req (ap settled (sym step) ∙ h))
    | inr (inr (c, line, rest, e)) ↦
        let e' : find_crlf (pos ++ more) ≡ some (c ∷ line, rest ++ more) =
          found pos (c ∷ line) rest e in
        elim (Option-cases (add_header (c ∷ line) req)) [
          | inl bad ↦ rw (parse_headers, e, e', bad) refl
          | inr (req', good) ↦
              let step : parse_headers (suc fuel) n pos req ≡ parse_headers fuel n rest req' =
                rw (parse_headers, e, good) refl in
              rw (parse_headers, e, e', good)
                (parse_headers-append fuel fuel' rest req' (ap settled (sym step) ∙ h)
                  (omega (arith, l)))
        ]
  ]
    where
      found :
          (s line rest : Text)
          → find_crlf s ≡ some (line, rest)
          → find_crlf (s ++ more) ≡ some (line, rest ++ more)
      found s line rest e =
          find_crlf-append s more (λ z. absurd (ground (arith, sym z ∙ e))) ∙ ap (longer more) e

-- A buffer in which a line ends, and for which the parser does not ask for more bytes: the same
-- request, or error, comes of it when more bytes stand behind it, and as many bytes are consumed.
pub http_parse_request-append :
    (buffer more : Text)
    → find_crlf buffer ≢ none
    → http_parse_request buffer ≢ incomplete
    → http_parse_request (buffer ++ more) ≡ http_parse_request buffer
unfolding http_parse_request
http_parse_request-append buffer more ends asked = elim (Option-cases (find_crlf buffer)) [
  | inl e ↦ absurd (ends e)
  | inr ((line, rest), e) ↦
      let e' : find_crlf (buffer ++ more) ≡ some (line, rest ++ more) =
        find_crlf-append buffer more ends ∙ ap (longer more) e in
      elim (Option-cases (parse_line line)) [
        | inl bad ↦ rw (http_parse_request, e, e', bad) refl
        | inr (req, good) ↦
            let n : ℕ = length buffer in
            let step : http_parse_request buffer ≡ parse_headers n n rest req =
              rw (http_parse_request, e, good) refl in
            let done = settled_of_ne (http_parse_request buffer) asked in
            rw (http_parse_request, e, e', good, length-append buffer more)
              (parse_headers-append n more n (n + length more) rest req
                (ap settled (sym step) ∙ done) (omega arith))
      ]
]
