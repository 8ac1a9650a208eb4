-- ===== src/Web/Consumed.antt =====
-- How many bytes of its buffer a request of mgnt/web/http.c takes.
use misc_c.Base.{ℕ, zero, suc, ◌≤◌, Bool-cases, inl, inr, Option-cases, ◌∷◌, length, ltb, arith}
use misc_c.Http.{
  Text, find_crlf, Request, Result, error, incomplete, complete, parse_body, add_header,
  parse_headers, parse_line, http_parse_request,
}
use misc_c.Http.Pieces.{find_crlf-cases}

-- What a result consumes.
abbrev pub consumed_of : Result → ℕ
consumed_of error = 0
consumed_of incomplete = 0
consumed_of (complete req n) = n

parse_body-consumed : (n : ℕ) (pos : Text) (req : Request) → consumed_of (parse_body n pos req) ≤ n
unfolding parse_body
parse_body-consumed n pos req = elim (Option-cases req.content_len) [
  | inl e ↦ rw (parse_body, e) (omega arith)
  | inr (len, e) ↦ elim (Bool-cases (ltb (length pos) len)) [
    | inl short ↦ rw (parse_body, e, short) (omega arith)
    | inr whole ↦ rw (parse_body, e, whole) (omega arith)
  ]
]

parse_headers-consumed :
    (fuel n : ℕ) (pos : Text) (req : Request) → consumed_of (parse_headers fuel n pos req) ≤ n
unfolding parse_headers
parse_headers-consumed zero n pos req = omega arith
parse_headers-consumed (suc fuel) n pos req = elim (find_crlf-cases pos) [
  | inl e ↦ rw (parse_headers, e) (omega arith)
  | inr (inl (rest, e)) ↦ rw (parse_headers, e) (parse_body-consumed n rest req)
  | inr (inr (c, line, rest, e)) ↦ elim (Option-cases (add_header (c ∷ line) req)) [
    | inl bad ↦ rw (parse_headers, e, bad) (omega arith)
    | inr (req', good) ↦ rw (parse_headers, e, good) (parse_headers-consumed fuel n rest req')
  ]
]

-- No more bytes are consumed than there are.
pub http_parse_request-consumed :
    (buffer : Text) → consumed_of (http_parse_request buffer) ≤ length buffer
unfolding http_parse_request
http_parse_request-consumed buffer = elim (Option-cases (find_crlf buffer)) [
  | inl e ↦ rw (http_parse_request, e) (omega arith)
  | inr ((line, rest), e) ↦ elim (Option-cases (parse_line line)) [
    | inl bad ↦ rw (http_parse_request, e, bad) (omega arith)
    | inr (req, good) ↦
        rw (http_parse_request, e, good)
          (parse_headers-consumed (length buffer) (length buffer) rest req)
  ]
]
