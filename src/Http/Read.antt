-- ===== src/Http/Read.antt =====
-- What mgnt/web/http.c makes of a request as a client writes it.
use misc_c.Base.{
  ℕ, suc, ◌+◌, ◌-◌, ◌≤◌, ◌≡◌, ◌≢◌, refl, ◌∙◌, ap, sym, true, false, none, some, List, [], ◌∷◌, ◌++◌,
  append_assoc, append-nil, length, length-append, take-all, drop-all, ltb, ◌==◌, arith,
}
use misc_c.Http.{
  Text, cr, lf, header_max_cnt, find_crlf, skip_blanks, drop_blanks, same_word, content_length,
  Request, complete, parse_body, read_length, add_header, parse_headers, parse_line,
  http_parse_request,
}
use misc_c.Http.Pieces.{lacks, lacks-append, find_crlf-lacks, cut_byte-lacks}
use misc_c.Http.Number.{parse_uint-decimal}
use misc_c.Http.Longer.{http_parse_request-append}
use misc_c.Cli.Number.{decimal}
use misc_c.Http.Print.{
  Message, header_line, print_headers, length_header, request_line, print, AreHeaders, IsMessage,
  parsed, lacks-digits, skip_blanks-lacks, drop_blanks-lacks, add_header-line, header_line-line,
}

-- One header line, then the rest of the loop.
parse_headers-line :
    (fuel n : ℕ) (h : Text × Text) (tail : Text) (req req' : Request)
    → lacks cr h.0 ≡ true
    → lacks cr h.1 ≡ true
    → add_header (header_line h) req ≡ some req'
    → parse_headers (suc fuel) n (header_line h ++ cr ∷ lf ∷ tail) req
      ≡ parse_headers fuel n tail req'
unfolding parse_headers
parse_headers-line fuel n h tail req req' p q a =
    let found = find_crlf-lacks (header_line h) tail (header_line-line h p q) in
    first (header_line h) (header_line h ++ cr ∷ lf ∷ tail) (named h) found a
  where
    named : (h : Text × Text) → header_line h ≢ []
    named ([], value) e = absurd (ground (arith, ap length e))
    named (c ∷ name, value) e = absurd (ground (arith, ap length e))

    first :
        (line buffer : Text)
        → line ≢ []
        → find_crlf buffer ≡ some (line, tail)
        → add_header line req ≡ some req'
        → parse_headers (suc fuel) n buffer req ≡ parse_headers fuel n tail req'
    first [] buffer ne f a = absurd (ne refl)
    first (c ∷ line) buffer ne f a = rw (parse_headers, f, a) refl

abbrev rounds : List (Text × Text) → ℕ → ℕ
rounds [] fuel = fuel
rounds (h ∷ hs) fuel = suc (rounds hs fuel)

rounds-length : (hs : List (Text × Text)) (fuel : ℕ) → rounds hs fuel ≡ length hs + fuel
rounds-length [] fuel = omega arith
rounds-length (h ∷ hs) fuel = omega (arith, rounds-length hs fuel)

parse_headers-print :
    (hs : List (Text × Text)) (fuel n : ℕ) (tail : Text) (req : Request)
    → AreHeaders hs
    → length req.headers + length hs ≤ header_max_cnt
    → parse_headers (rounds hs fuel) n (print_headers hs tail) req
      ≡ parse_headers fuel n tail (record req { headers = req.headers ++ hs })
unfolding read_length
parse_headers-print [] fuel n tail req hh few =
    ap (λ hs. parse_headers fuel n tail (record req { headers = hs }))
      (sym (append-nil req.headers))
parse_headers-print (h ∷ hs) fuel n tail req (p, ps) few =
    let other : read_length h.0 h.1 req.content_len ≡ some req.content_len =
      rw (read_length, p.no_length) refl in
    let req' : Request = record req { headers = req.headers ++ h ∷ [] } in
    let line =
      add_header-line h.0 h.1 req req.content_len p.name_ends p.starts p.ends (omega (arith, few))
        other in
    parse_headers-line (rounds hs fuel) n h (print_headers hs tail) req req' p.name_line
      p.value_line line
    ∙ parse_headers-print hs fuel n tail req' ps
        (omega (arith, few, length-append req.headers (h ∷ [])))
    ∙ ap (λ hs. parse_headers fuel n tail (record req { headers = hs }))
        (append_assoc req.headers (h ∷ []) hs)

empty-ne : (s : Text) → s ≢ [] → (length s == 0) ≡ false
empty-ne [] h = absurd (h refl)
empty-ne (c ∷ s) h = ground arith

parse_line-request_line :
    (m : Message)
    → IsMessage m
    → parse_line (request_line m)
      ≡ some (record {
        method = m.method;
        uri = m.uri;
        version = m.version;
        headers = [];
        content_len = none;
        body = [];
      })
unfolding parse_line
parse_line-request_line m v =
    rw
      (
        parse_line,
        cut_byte-lacks b' ' m.method (m.uri ++ b' ' ∷ m.version) v.method_ends,
        cut_byte-lacks b' ' m.uri m.version v.uri_ends,
        empty-ne m.method v.method_there,
        empty-ne m.uri v.uri_there,
        empty-ne m.version v.version_there,
      )
      refl

length-print_headers :
    (hs : List (Text × Text)) (tail : Text)
    → length hs + length tail ≤ length (print_headers hs tail)
length-print_headers [] tail = omega arith
length-print_headers ((name, value) ∷ hs) tail = omega (
  arith,
  length-print_headers hs tail,
  length-append (name ++ b':' ∷ b' ' ∷ value) (cr ∷ lf ∷ print_headers hs tail),
)

length_header_there :
    (m : Message)
    → IsMessage m
    → (lacks cr (decimal (length m.body)) ≡ true)
      × (skip_blanks (decimal (length m.body)) ≡ decimal (length m.body))
      × (drop_blanks (decimal (length m.body)) ≡ decimal (length m.body))
      × (read_length content_length (decimal (length m.body)) none ≡ some (some (length m.body)))
unfolding read_length same_word
length_header_there m v =
    let n : ℕ = length m.body in
    let no_space = lacks-digits b' ' n n (omega arith) in
    let no_tab = lacks-digits b'\t' n n (omega arith) in
    (
      lacks-digits cr n n (omega arith),
      skip_blanks-lacks (decimal n) no_space no_tab,
      drop_blanks-lacks (decimal n) no_space no_tab,
      rw (parse_uint-decimal n v.body_fits) refl,
    )

-- What the loop makes of the headers, the length and the body.
print_headers-body :
    (n k : ℕ) (m : Message) (req : Request)
    → IsMessage m
    → n ≡ length m.headers + (k + 2)
    → req.headers ≡ []
    → req.content_len ≡ none
    → parse_headers n n
        (print_headers m.headers (print_headers (length_header m ∷ []) (cr ∷ lf ∷ m.body)))
        req
      ≡ complete
          (record req {
            headers = m.headers ++ length_header m ∷ [];
            content_len = some (length m.body);
            body = m.body;
          })
          n
unfolding parse_headers parse_body find_crlf
print_headers-body n k m req v enough none_yet unread =
    let tail : Text = cr ∷ lf ∷ m.body in
    let whole : ltb (length m.body) (length m.body) ≡ false = ground arith in
    let (line, starts, ends, len) = length_header_there m v in
    let read : Request = record req { headers = m.headers } in
    let done : Request = record req {
      headers = m.headers ++ length_header m ∷ [];
      content_len = some (length m.body);
    } in
    let fuel : n ≡ rounds m.headers (suc (suc k)) =
      omega (arith, enough, rounds-length m.headers (suc (suc k))) in
    let added : add_header (header_line (length_header m)) read ≡ some done =
      add_header-line content_length (decimal (length m.body)) read (some (length m.body)) refl
        starts ends v.few
        (ap (read_length content_length (decimal (length m.body))) unread ∙ len) in
    ap
      (λ f.
        parse_headers f n (print_headers m.headers (print_headers (length_header m ∷ []) tail)) req)
      fuel
    ∙ parse_headers-print m.headers (suc (suc k)) n (print_headers (length_header m ∷ []) tail) req
        v.headers_fit (ground (arith, v.few, ap length none_yet))
    ∙ ap
        (λ hs.
          parse_headers (suc (suc k)) n (print_headers (length_header m ∷ []) tail)
            (record req { headers = hs ++ m.headers }))
        none_yet
    ∙ parse_headers-line (suc k) n (length_header m) tail read done refl line added
    ∙ rw
        (
          whole,
          take-all m.body (length m.body) (omega arith),
          drop-all m.body (length m.body) (omega arith),
        )
        (ap (complete (record done { body = m.body })) (omega arith))

-- A request that is printed with its length, and with any bytes behind it, is read back, and its own
-- bytes are consumed.
pub parse-print :
    (m : Message) (more : Text)
    → IsMessage m
    → http_parse_request (print m ++ more) ≡ complete (parsed m) (length (print m))
unfolding http_parse_request
parse-print m more v =
    let after : Text =
      print_headers m.headers (print_headers (length_header m ∷ []) (cr ∷ lf ∷ m.body)) in
    let line = lacks-append cr m.method (b' ' ∷ (m.uri ++ b' ' ∷ m.version)) v.method_line (
      ground (
        arith,
        lacks-append cr m.uri (b' ' ∷ m.version) v.uri_line (ground (arith, v.version_line)),
      )) in
    let found : find_crlf (print m) ≡ some (request_line m, after) =
      find_crlf-lacks (request_line m) after line in
    let n : ℕ = length (print m) in
    let room =
      length-print_headers m.headers (print_headers (length_header m ∷ []) (cr ∷ lf ∷ m.body)) in
    let sizes = length-append (request_line m) (cr ∷ lf ∷ after) in
    let req : Request = record {
      method = m.method;
      uri = m.uri;
      version = m.version;
      headers = [];
      content_len = none;
      body = [];
    } in
    let alone : http_parse_request (print m) ≡ complete (parsed m) (length (print m)) =
      rw (http_parse_request, found, parse_line-request_line m v)
        (print_headers-body n (n - length m.headers - 2) m req v (omega (arith, room, sizes)) refl
          refl) in
    http_parse_request-append (print m) more (λ e. absurd (ground (arith, sym found ∙ e)))
      (λ e. absurd (ground (arith, sym alone ∙ e)))
    ∙ alone
