-- ===== src/Http/Print.antt =====
-- Requests as a client writes them, for mgnt/web/http.c, and their words and lines.
use misc_c.Base.{
  ℕ, zero, suc, ◌+◌, ◌/◌, ◌%◌, ◌^◌, ◌<◌, ◌≡◌, ◌≢◌, refl, ◌∙◌, ap, Bool, Bool-cases, inl, inr, true,
  false, ◌&&◌, Option, some, List, [], ◌∷◌, ◌++◌, length, ltb, leb, ◌==◌, arith,
}
use misc_c.Http.{
  Text, cr, lf, header_max_cnt, is_blank, skip_blanks, drop_blanks, same_word, content_length,
  Request, read_length, add_header,
}
use misc_c.Http.Pieces.{lacks, lacks-append, cut_byte-lacks}
use misc_c.Cli.Number.{digits, decimal}

pub record Message : Type 0 where
  pub method : Text
  pub uri : Text
  pub version : Text
  pub headers : List (Text × Text)
  pub body : Text

abbrev pub header_line : Text × Text → Text
header_line (name, value) = name ++ b':' ∷ b' ' ∷ value

abbrev pub print_headers : List (Text × Text) → Text → Text
print_headers [] tail = tail
print_headers (h ∷ hs) tail = header_line h ++ cr ∷ lf ∷ print_headers hs tail

abbrev pub length_header : Message → Text × Text
length_header m = (content_length, decimal (length m.body))

abbrev pub request_line : Message → Text
request_line m = m.method ++ b' ' ∷ (m.uri ++ b' ' ∷ m.version)

abbrev pub print : Message → Text
print m =
    request_line m
    ++ cr ∷ lf ∷ print_headers m.headers (print_headers (length_header m ∷ []) (cr ∷ lf ∷ m.body))

abbrev pub names_length : Text → Bool
names_length name = length name == 14 && same_word name content_length

pub record IsHeader (h : Text × Text) : Type 0 where
  pub name_ends : lacks b':' h.0 ≡ true
  pub name_line : lacks cr h.0 ≡ true
  pub value_line : lacks cr h.1 ≡ true
  pub starts : skip_blanks h.1 ≡ h.1
  pub ends : drop_blanks h.1 ≡ h.1
  pub no_length : names_length h.0 ≡ false

abbrev pub AreHeaders : List (Text × Text) → Type 0
AreHeaders [] = Unit
AreHeaders (h ∷ hs) = IsHeader h × AreHeaders hs

pub record IsMessage (m : Message) : Type 0 where
  pub method_there : m.method ≢ []
  pub method_ends : lacks b' ' m.method ≡ true
  pub method_line : lacks cr m.method ≡ true
  pub uri_there : m.uri ≢ []
  pub uri_ends : lacks b' ' m.uri ≡ true
  pub uri_line : lacks cr m.uri ≡ true
  pub version_there : m.version ≢ []
  pub version_line : lacks cr m.version ≡ true
  pub few : length m.headers < header_max_cnt
  pub headers_fit : AreHeaders m.headers
  pub body_fits : length m.body < 2 ^ 64

-- What the parser is to give.
abbrev pub parsed : Message → Request
parsed m = record {
  method = m.method;
  uri = m.uri;
  version = m.version;
  headers = m.headers ++ length_header m ∷ [];
  content_len = some (length m.body);
  body = m.body;
}

pub lacks-digits : (b k n : ℕ) → b < b'0' → lacks b (digits k n) ≡ true
lacks-digits b zero n h = ground arith
lacks-digits b (suc k) n h = elim (Bool-cases (ltb n 10)) [
  | inl e ↦ rw (digits, e) (ground arith)
  | inr e ↦
      rw (digits, e)
        (lacks-append b (digits k (n / 10)) ((b'0' + n % 10) ∷ []) (lacks-digits b k (n / 10) h)
          (ground arith))
]

pub skip_blanks-lacks : (s : Text) → lacks b' ' s ≡ true → lacks b'\t' s ≡ true → skip_blanks s ≡ s
unfolding skip_blanks
skip_blanks-lacks [] p q = refl
skip_blanks-lacks (c ∷ s) p q =
    let other : is_blank c ≡ false = ground (arith, p, q) in rw (skip_blanks, other) refl

pub drop_blanks-lacks : (s : Text) → lacks b' ' s ≡ true → lacks b'\t' s ≡ true → drop_blanks s ≡ s
unfolding drop_blanks
drop_blanks-lacks [] p q = refl
drop_blanks-lacks (c ∷ s) p q =
    let other : is_blank c ≡ false = ground (arith, p, q) in
    rw (drop_blanks, other)
      (ap (λ t. c ∷ t) (drop_blanks-lacks s (ground (arith, p)) (ground (arith, q))))

-- A line of a header as the loop meets it.
pub add_header-line :
    (name value : Text) (req : Request) (content_len : Option ℕ)
    → lacks b':' name ≡ true
    → skip_blanks value ≡ value
    → drop_blanks value ≡ value
    → length req.headers < header_max_cnt
    → read_length name value req.content_len ≡ some content_len
    → add_header (header_line (name, value)) req
      ≡ some (record req { headers = req.headers ++ (name, value) ∷ []; content_len = content_len })
unfolding add_header skip_blanks
add_header-line name value req content_len n s d few r =
    let room : leb header_max_cnt (length req.headers) ≡ false = ground (arith, few) in
    let trimmed : drop_blanks (skip_blanks value) ≡ value = ap drop_blanks s ∙ d in
    let r' : read_length name (drop_blanks (skip_blanks value)) req.content_len ≡ some content_len =
      ap (λ v. read_length name v req.content_len) trimmed ∙ r in
    rw (add_header, room, cut_byte-lacks b':' name (b' ' ∷ value) n, r')
      (ap
        (λ v.
          some (record req { headers = req.headers ++ (name, v) ∷ []; content_len = content_len }))
        trimmed)

pub header_line-line :
    (h : Text × Text) → lacks cr h.0 ≡ true → lacks cr h.1 ≡ true → lacks cr (header_line h) ≡ true
header_line-line (name, value) p q =
    lacks-append cr name (b':' ∷ b' ' ∷ value) p (ground (arith, q))
