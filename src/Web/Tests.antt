-- ===== src/Web/Tests.antt =====
-- A request that comes in two parts, with more behind it, and one without a line end.
use misc_c.Base.{◌≡◌, ◌≢◌, refl, ap, arith, none, some, [], ◌∷◌, ◌++◌, length, take, drop}
use misc_c.Http.{Text, find_crlf}
use misc_c.Http.Print.{Message, IsMessage, print, parsed}
use misc_c.Web.{begins_word, overruns, got, parse_loop, kept, overrun, events_handle}
use misc_c.Web.Round.{events_handle-parts, events_handle-behind, parse_loop-no_line}

-- "G /a H" with the body "ok"
abbrev get_a : Message
get_a = record {
  method = b'G' ∷ [];
  uri = b'/' ∷ b'a' ∷ [];
  version = b'H' ∷ [];
  headers = [];
  body = b'o' ∷ b'k' ∷ [];
}

get_a-IsMessage : IsMessage get_a
get_a-IsMessage = record {
  method_there = λ e. absurd (ground (arith, ap length e));
  method_ends = refl;
  method_line = refl;
  uri_there = λ e. absurd (ground (arith, ap length e));
  uri_ends = refl;
  uri_line = refl;
  version_there = λ e. absurd (ground (arith, ap length e));
  version_line = refl;
  few = omega arith;
  headers_fit = tt;
  body_fits = omega arith;
}

abbrev front : Text
front = take 12 (print get_a)

abbrev back : Text
back = drop 12 (print get_a)

front-ends : find_crlf front ≢ none
unfolding find_crlf
front-ends e = absurd (ground (arith, e))

events_handle-parts_example :
    (events_handle 2 [] (got front ∷ []) ≡ some ([], kept front))
    × (events_handle 2 front (got back ∷ []) ≡ some (parsed get_a ∷ [], kept []))
unfolding begins_word overruns
events_handle-parts_example =
    events_handle-parts 0 get_a front back get_a-IsMessage refl front-ends
      (λ e. absurd (ground (arith, ap length e))) (omega arith)

events_handle-behind_example :
    events_handle 3 [] (got (print get_a ++ b'G' ∷ []) ∷ [])
    ≡ some (parsed get_a ∷ parsed get_a ∷ [], overrun)
unfolding begins_word overruns
events_handle-behind_example =
    events_handle-behind 0 get_a (b'G' ∷ []) get_a-IsMessage
      (λ e. absurd (ground (arith, ap length e))) (omega arith) (omega arith) refl

no_line : find_crlf (b'G' ∷ []) ≡ none
unfolding find_crlf
no_line = refl

parse_loop-no_line_example : parse_loop 100 (b'G' ∷ []) 0 [] ≡ none
parse_loop-no_line_example = parse_loop-no_line 100 (b'G' ∷ []) [] (omega arith) no_line
