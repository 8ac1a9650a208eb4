-- ===== src/Http.antt =====
-- mgnt/web/http.c and mgnt/include/web/http.h: the parser of requests. A piece of the buffer, a
-- pointer with a length in the code, is the list of its bytes here, and a pointer into the buffer is
-- the list of the bytes from there to its end.
pub mod Pieces
pub mod Number
pub mod Print
pub mod Read
pub mod Longer
pub mod File
mod Tests
use misc_c.Base.{
  ℕ, zero, suc, ◌+◌, ◌-◌, ◌*◌, ◌%◌, ◌^◌, Bool, true, false, not, ◌&&◌, ◌||◌, Option, none, some,
  List, [], ◌∷◌, ◌++◌, length, take, drop, ltb, leb, ◌==◌, if◌then◌else◌,
}

abbrev pub Text : Type 0
Text = List ℕ

abbrev pub cr : ℕ
cr = 13

abbrev pub lf : ℕ
lf = 10

abbrev pub header_max_cnt : ℕ
header_max_cnt = 64

abbrev pub put_before : ℕ → Option (Text × Text) → Option (Text × Text)
put_before c none = none
put_before c (some (before, after)) = some (c ∷ before, after)

-- `_http_find_crlf`: what is before the first CR LF, and what is after it.
unfoldable pub find_crlf : Text → Option (Text × Text)
find_crlf [] = none
find_crlf (c ∷ []) = none
find_crlf (c ∷ d ∷ s) =
    let rest = find_crlf (d ∷ s) in if c == cr && d == lf then some ([], s) else put_before c rest

-- memchr: what is before the first `b`, and what is after it.
unfoldable pub cut_byte : ℕ → Text → Option (Text × Text)
cut_byte b [] = none
cut_byte b (c ∷ s) = let rest = cut_byte b s in if c == b then some ([], s) else put_before c rest

-- `_http_parse_uint`; there is no result where the code sets `err`.
unfoldable pub uint_from : Text → (val : ℕ) → Option ℕ
uint_from [] val = some val
uint_from (c ∷ s) val =
    let new_val = (val * 10 + (c - b'0')) % 2 ^ 64 in
    let rest = uint_from s new_val in
    if ltb c b'0' || ltb b'9' c then none else if ltb new_val val then none else rest

abbrev pub http_parse_uint : Text → Option ℕ
http_parse_uint str = uint_from str 0

abbrev pub is_blank : ℕ → Bool
is_blank c = c == b' ' || c == b'\t'

-- `while(value_start < crlf && ...) value_start++`
unfoldable pub skip_blanks : Text → Text
skip_blanks [] = []
skip_blanks (c ∷ s) = if is_blank c then skip_blanks s else c ∷ s

-- `while(value_end > value_start && ...) value_end--`
unfoldable pub drop_blanks : Text → Text
drop_blanks [] = []
drop_blanks (c ∷ s) =
    let rest = drop_blanks s in if is_blank c && length rest == 0 then [] else c ∷ rest

-- `tolower` on bytes
abbrev pub lower : ℕ → ℕ
lower c = if leb b'A' c && leb c b'Z' then c + 32 else c

-- `0 == strncasecmp`, on texts of one length
unfoldable pub same_word : Text → Text → Bool
same_word [] [] = true
same_word (a ∷ xs) (b ∷ ys) = lower a == lower b && same_word xs ys
same_word _ _ = false

abbrev pub content_length : Text
content_length =
    b'C' ∷ b'o' ∷ b'n' ∷ b't' ∷ b'e' ∷ b'n' ∷ b't' ∷ b'-' ∷ b'L' ∷ b'e' ∷ b'n' ∷ b'g' ∷ b't' ∷ b'h'
    ∷ []

-- `http_request_t`; `content_len` is there when `has_content_len` is 1, and `body` with it.
pub record Request : Type 0 where
  pub method : Text
  pub uri : Text
  pub version : Text
  pub headers : List (Text × Text)
  pub content_len : Option ℕ
  pub body : Text

-- `http_parse_result_e`, with the request and `*consumed`
pub data Result : Type 0 where
  error incomplete : Result
  complete : Request → (consumed : ℕ) → Result

-- The end of a request; `n` is the length of the buffer, `pos` what is left of it.
unfoldable pub parse_body : ℕ → Text → Request → Result
parse_body n pos req = elim req.content_len [
  | none ↦ complete (record req { body = [] }) (n - length pos)
  | some len ↦
      if ltb (length pos) len
      then incomplete
      else complete (record req { body = take len pos }) (n - length (drop len pos))
]

-- The length that a header gives, if it is the one that does.
unfoldable pub read_length : Text → Text → Option ℕ → Option (Option ℕ)
read_length name value content_len =
    if length name == 14 && same_word name content_length
    then elim (http_parse_uint value) [ none ↦ none | some len ↦ some (some len) ]
    else some content_len

unfoldable pub add_header : Text → Request → Option Request
unfolding cut_byte
add_header line req =
    if leb header_max_cnt (length req.headers) then none else elim (cut_byte b':' line) [
      | none ↦ none
      | some (name, after) ↦
          let value = drop_blanks (skip_blanks after) in
          elim (read_length name value req.content_len) [
            | none ↦ none
            | some content_len ↦ some (record req {
              headers = req.headers ++ (name, value) ∷ [];
              content_len = content_len;
            })
          ]
    ]

-- The loop over the headers; a round takes a CR LF from the buffer, so its length is enough fuel.
unfoldable pub parse_headers : (fuel : ℕ) → ℕ → Text → Request → Result
parse_headers zero n pos req = incomplete
parse_headers (suc fuel) n pos req = elim (find_crlf pos) [
  | none ↦ incomplete
  | some ([], rest) ↦ parse_body n rest req
  | some (c ∷ line, rest) ↦ elim (add_header (c ∷ line) req) [
    | none ↦ error
    | some req' ↦ parse_headers fuel n rest req'
  ]
]

abbrev pub is_empty : Text → Bool
is_empty s = length s == 0

unfoldable pub parse_line : Text → Option Request
parse_line line = elim (cut_byte b' ' line) [
  | none ↦ none
  | some (method, after) ↦ elim (cut_byte b' ' after) [
    | none ↦ none
    | some (uri, version) ↦
        if is_empty method || (is_empty uri || is_empty version)
        then none
        else some (record {
          method = method;
          uri = uri;
          version = version;
          headers = [];
          content_len = none;
          body = [];
        })
  ]
]

abbrev pub empty_request : Request
empty_request = record {
  method = [];
  uri = [];
  version = [];
  headers = [];
  content_len = none;
  body = [];
}

-- `http_parse_request`, of a request that is cleared before.
unfoldable pub http_parse_request : Text → Result
http_parse_request buffer = elim (find_crlf buffer) [
  | none ↦ complete empty_request 0
  | some (line, rest) ↦ elim (parse_line line) [
    | none ↦ error
    | some req ↦ parse_headers (length buffer) (length buffer) rest req
  ]
]
