-- ===== src/Web/Round.antt =====
-- What becomes of the bytes of a connection in `_web_events_handle` of mgnt/web/web.c.
use misc_c.Base.{
  ℕ, zero, suc, ◌+◌, ◌-◌, ◌≤◌, ◌<◌, ◌≡◌, ◌≢◌, refl, ◌∙◌, ap, sym, true, false, Bool-cases, ◌⊎◌, inl,
  inr, none, some, List, [], ◌∷◌, ◌++◌, append-nil, length, length-append, take, take-all, drop-all,
  ltb, leb, ◌==◌, if◌then◌else◌, arith,
}
use misc_c.Http.{
  Text, find_crlf, Request, Result, error, incomplete, complete, http_parse_request, empty_request,
}
use misc_c.Http.Longer.{settled, http_parse_request-append}
use misc_c.Http.Print.{Message, IsMessage, print, parsed}
use misc_c.Http.Read.{parse-print}
use misc_c.Web.{
  begins_word, overruns, Looped, smashes, smashed, after_loop, web_buffer_size, got, recv_all,
  waits, parse_loop, kept, overrun, keep_rest, events_handle,
}
use misc_c.Web.Consumed.{consumed_of, http_parse_request-consumed}

Result-cases :
    (r : Result)
    → (r ≡ error) ⊎ ((r ≡ incomplete) ⊎ ((req : Request) × (n : ℕ) × (r ≡ complete req n)))
Result-cases error = inl refl
Result-cases incomplete = inr (inl refl)
Result-cases (complete req n) = inr (inr (req, n, refl))

length-positive : (s : Text) → s ≢ [] → 0 < length s
length-positive [] h = absurd (h refl)
length-positive (c ∷ s) h = omega arith

-- A part of a printed request in which a line ends is incomplete.
part-incomplete :
    (m : Message) (a b : Text)
    → IsMessage m
    → a ++ b ≡ print m
    → find_crlf a ≢ none
    → b ≢ []
    → http_parse_request a ≡ incomplete
part-incomplete m a b v split ends more = elim (Result-cases (http_parse_request a)) [
  | inr (inl e) ↦ e
  | inl e ↦ absurd (too_many (λ i. absurd (ground (arith, ap settled (sym e ∙ i)))))
  | inr (inr (req, n, e)) ↦ absurd (too_many (λ i. absurd (ground (arith, ap settled (sym e ∙ i)))))
]
  where
    whole :
        http_parse_request a ≢ incomplete
        → complete (parsed m) (length (print m)) ≡ http_parse_request a
    whole ne =
        sym (parse-print m [] v)
        ∙ ap http_parse_request (append-nil (print m) ∙ sym split)
        ∙ http_parse_request-append a b ends ne

    too_many : http_parse_request a ≢ incomplete → ⊥
    too_many ne =
        let all : length (print m) ≡ consumed_of (http_parse_request a) =
          ap consumed_of (whole ne) in
        omega (
          arith,
          all,
          http_parse_request-consumed a,
          ap length split,
          length-append a b,
          length-positive b more,
        )

-- The bytes of one `recv` that leave room in the buffer
recv_all-once :
    (buffer bytes : Text)
    → bytes ≢ []
    → length (buffer ++ bytes) < web_buffer_size
    → recv_all buffer (got bytes ∷ []) ≡ some (buffer ++ bytes)
unfolding recv_all
recv_all-once buffer bytes some_bytes room =
    let sizes = length-append buffer bytes in
    let all : take (web_buffer_size - length buffer) bytes ≡ bytes =
      take-all bytes _ (omega (arith, room, sizes)) in
    let positive = length-positive bytes some_bytes in
    let more : (length bytes == 0) ≡ false = ground (arith, positive) in
    let open_yet : (length (buffer ++ bytes) == web_buffer_size) ≡ false = ground (arith, room) in
    rw (all, more, open_yet) refl

parse_loop-step :
    (fuel : ℕ) (buffer : Text) (rpos k : ℕ) (handled : List Request) (req : Request)
    → rpos < length buffer
    → http_parse_request buffer ≡ complete req k
    → overruns req ≡ false
    → parse_loop (suc fuel) buffer rpos handled
      ≡ parse_loop fuel buffer (rpos + k) (handled ++ req ∷ [])
unfolding parse_loop
parse_loop-step fuel buffer rpos k handled req l e fits =
    let before : ltb rpos (length buffer) ≡ true = ground (arith, l) in
    rw (parse_loop, before, e, fits) refl

parse_loop-end :
    (fuel : ℕ) (buffer : Text) (rpos : ℕ) (handled : List Request)
    → length buffer ≤ rpos
    → parse_loop (suc fuel) buffer rpos handled ≡ some (waits handled rpos)
unfolding parse_loop
parse_loop-end fuel buffer rpos handled l =
    let after : ltb rpos (length buffer) ≡ false = ground (arith, l) in rw (parse_loop, after) refl

-- The loop on a buffer that is one request
parse_loop-one :
    (fuel : ℕ) (buffer : Text) (req : Request)
    → 0 < length buffer
    → http_parse_request buffer ≡ complete req (length buffer)
    → overruns req ≡ false
    → parse_loop (suc (suc fuel)) buffer 0 [] ≡ some (waits (req ∷ []) (length buffer))
parse_loop-one fuel buffer req some_bytes e fits =
    parse_loop-step (suc fuel) buffer 0 (length buffer) [] req some_bytes e fits
    ∙ parse_loop-end fuel buffer (0 + length buffer) (req ∷ []) (omega arith)
    ∙ ap (λ n. some (waits (req ∷ []) n)) (omega arith)

parse_loop-smash :
    (fuel : ℕ) (buffer : Text) (rpos k : ℕ) (handled : List Request) (req : Request)
    → rpos < length buffer
    → http_parse_request buffer ≡ complete req k
    → overruns req ≡ true
    → parse_loop (suc fuel) buffer rpos handled ≡ some (smashes handled)
unfolding parse_loop
parse_loop-smash fuel buffer rpos k handled req l e past =
    let before : ltb rpos (length buffer) ≡ true = ground (arith, l) in
    rw (parse_loop, before, e, past) refl

events_handle-loop :
    (fuel : ℕ) (buffer bytes : Text) (filled : Text) (looped : Looped)
    → recv_all buffer (got bytes ∷ []) ≡ some filled
    → parse_loop fuel filled 0 [] ≡ some looped
    → events_handle fuel buffer (got bytes ∷ []) ≡ some (after_loop filled looped)
unfolding events_handle
events_handle-loop fuel buffer bytes filled looped r l = rw (events_handle, r, l) refl

keep_rest-none : (buffer : Text) → keep_rest buffer 0 ≡ kept buffer
unfolding keep_rest
keep_rest-none buffer =
    let fits : leb 0 (length buffer) ≡ true = ground arith in rw (keep_rest, fits) refl

keep_rest-all : (buffer : Text) → keep_rest buffer (length buffer) ≡ kept []
unfolding keep_rest
keep_rest-all buffer =
    let fits : leb (length buffer) (length buffer) ≡ true = ground arith in
    rw (keep_rest, fits) (ap kept (drop-all buffer (length buffer) (omega arith)))

-- A printed request that comes in two parts, of which the first has the end of a line, and that is
-- shorter than the buffer: after the first nothing is handled and its bytes are kept. After the second
-- the request is handled, once, and no bytes are kept, unless it is a GET or a POST whose uri has 64
-- bytes or more: that is copied past its array.
pub events_handle-parts :
    (fuel : ℕ) (m : Message) (a b : Text)
    → IsMessage m
    → a ++ b ≡ print m
    → find_crlf a ≢ none
    → b ≢ []
    → length (print m) < web_buffer_size
    → (events_handle (suc (suc fuel)) [] (got a ∷ []) ≡ some ([], kept a))
      × (events_handle (suc (suc fuel)) a (got b ∷ [])
          ≡ some (if overruns (parsed m) then ([], smashed) else (parsed m ∷ [], kept [])))
unfolding parse_loop find_crlf
events_handle-parts fuel m a b v split ends more small =
    let sizes = length-append a b in
    let positive : 0 < length a = length-positive a (λ e. ends (ap find_crlf e)) in
    let waiting : ltb 0 (length a) ≡ true = ground (arith, positive) in
    let looped : parse_loop (suc (suc fuel)) a 0 [] ≡ some (waits [] 0) =
      rw (parse_loop, waiting, part-incomplete m a b v split ends more) refl in
    let whole : http_parse_request (a ++ b) ≡ complete (parsed m) (length (a ++ b)) =
      ap http_parse_request (split ∙ sym (append-nil (print m)))
      ∙ parse-print m [] v
      ∙ ap (λ t. complete (parsed m) (length t)) (sym split) in
    let fits : length (a ++ b) < web_buffer_size = omega (arith, ap length split, small) in
    let filled = recv_all-once a b more fits in
    let bytes : 0 < length (a ++ b) = omega (arith, sizes, positive) in
    (
      events_handle-loop (suc (suc fuel)) [] a a (waits [] 0)
            (recv_all-once [] a (λ e. ends (ap find_crlf e)) (omega (arith, fits, sizes))) looped
          ∙ ap (λ k. some ([], k)) (keep_rest-none a),
      elim (Bool-cases (overruns (parsed m))) [
        | inl past ↦
            events_handle-loop (suc (suc fuel)) a b (a ++ b) (smashes []) filled (
              parse_loop-smash (suc fuel) (a ++ b) 0 (length (a ++ b)) [] (parsed m) bytes whole
                past)
            ∙ rw (past) refl
        | inr small_uri ↦
            events_handle-loop (suc (suc fuel)) a b (a ++ b)
              (waits (parsed m ∷ []) (length (a ++ b))) filled
              (parse_loop-one fuel (a ++ b) (parsed m) bytes whole small_uri)
            ∙ ap (λ k. some (parsed m ∷ [], k)) (keep_rest-all (a ++ b))
            ∙ rw (small_uri) refl
      ],
    )

-- A printed request with fewer bytes behind it than its own, in one piece, and that is no GET or POST
-- whose uri has 64 bytes or more: each round of the loop
-- parses from the start of the buffer, so that the request is handled twice, and the length of what
-- is kept wraps below 0.
pub events_handle-behind :
    (fuel : ℕ) (m : Message) (more : Text)
    → IsMessage m
    → more ≢ []
    → length more < length (print m)
    → length (print m ++ more) < web_buffer_size
    → overruns (parsed m) ≡ false
    → events_handle (suc (suc (suc fuel))) [] (got (print m ++ more) ∷ [])
      ≡ some (parsed m ∷ parsed m ∷ [], overrun)
unfolding keep_rest
events_handle-behind fuel m more v some_more fewer small small_uri =
    let buffer : Text = print m ++ more in
    let n : ℕ = length (print m) in
    let sizes = length-append (print m) more in
    let positive = length-positive more some_more in
    let read = parse-print m more v in
    let past : leb (0 + n + n) (length buffer) ≡ false = ground (arith, sizes, fewer) in
    let looped : parse_loop (suc (suc (suc fuel))) buffer 0 []
        ≡ some (waits (parsed m ∷ parsed m ∷ []) (0 + n + n)) =
      parse_loop-step (suc (suc fuel)) buffer 0 n [] (parsed m) (omega (arith, sizes, positive))
        read small_uri
      ∙ parse_loop-step (suc fuel) buffer (0 + n) n (parsed m ∷ []) (parsed m)
          (omega (arith, sizes, positive)) read small_uri
      ∙ parse_loop-end fuel buffer (0 + n + n) (parsed m ∷ parsed m ∷ [])
          (omega (arith, sizes, fewer)) in
    events_handle-loop (suc (suc (suc fuel))) [] buffer buffer
      (waits (parsed m ∷ parsed m ∷ []) (0 + n + n))
      (recv_all-once [] buffer (λ e. absurd (ground (arith, ap length e, sizes, positive))) small)
      looped
    ∙ rw (keep_rest, past) refl

-- Bytes in which no line ends yet: they parse as a complete request of no bytes, so that the loop
-- goes on for ever, with any fuel.
pub parse_loop-no_line :
    (fuel : ℕ) (buffer : Text) (handled : List Request)
    → 0 < length buffer
    → find_crlf buffer ≡ none
    → parse_loop fuel buffer 0 handled ≡ none
unfolding parse_loop http_parse_request begins_word
parse_loop-no_line zero buffer handled positive e = refl
parse_loop-no_line (suc fuel) buffer handled positive e =
    let waiting : ltb 0 (length buffer) ≡ true = ground (arith, positive) in
    rw (parse_loop, waiting, http_parse_request, e)
      (parse_loop-no_line fuel buffer (handled ++ empty_request ∷ []) positive e)
