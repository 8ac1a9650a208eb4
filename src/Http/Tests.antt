-- ===== src/Http/Tests.antt =====
-- A short request, and the directory of files.
use misc_c.Base.{
  ◌<◌, ◌≡◌, ◌≢◌, refl, ap, arith, true, none, ◌⊎◌, [], ◌∷◌, ◌++◌, length, ◌==◌, if◌then◌else◌,
}
use misc_c.Cli.{is_prefix}
use misc_c.Http.{
  Text, find_crlf, skip_blanks, drop_blanks, complete, incomplete, http_parse_request, parse_line,
  cut_byte,
}
use misc_c.Http.Longer.{settled, http_parse_request-append}
use misc_c.Http.Print.{Message, IsMessage, print, parsed}
use misc_c.Http.Read.{parse-print}
use misc_c.Http.File.{
  path_max_len, System, found, file, http_send_file_response, send_resolved, by_kind, is_within,
  http_send_file_response-within,
}

-- "G /a H", one header "x: y", and the body "ok"
abbrev get_a : Message
get_a = record {
  method = b'G' ∷ [];
  uri = b'/' ∷ b'a' ∷ [];
  version = b'H' ∷ [];
  headers = (b'x' ∷ [], b'y' ∷ []) ∷ [];
  body = b'o' ∷ b'k' ∷ [];
}

get_a-IsMessage : IsMessage get_a
unfolding skip_blanks drop_blanks
get_a-IsMessage = record {
  method_there = λ e. absurd (ground (arith, ap length e));
  method_ends = refl;
  method_line = refl;
  uri_there = λ e. absurd (ground (arith, ap length e));
  uri_ends = refl;
  uri_line = refl;
  version_there = λ e. absurd (ground (arith, ap length e));
  version_line = refl;
  few = omega arith;
  headers_fit = (
    record {
      name_ends = refl;
      name_line = refl;
      value_line = refl;
      starts = refl;
      ends = refl;
      no_length = refl;
    },
    tt,
  );
  body_fits = omega arith;
}

parse-print_example : http_parse_request (print get_a ++ b'G' ∷ []) ≡ complete (parsed get_a) 37
parse-print_example = parse-print get_a (b'G' ∷ []) get_a-IsMessage

-- "a\r\n" is an error, with or without more.
abbrev one_word : Text
one_word = b'a' ∷ 13 ∷ 10 ∷ []

one_word-ends : find_crlf one_word ≢ none
unfolding find_crlf
one_word-ends e = absurd (ground (arith, e))

one_word-error : http_parse_request one_word ≢ incomplete
unfolding http_parse_request find_crlf parse_line cut_byte
one_word-error e = absurd (ground (arith, ap settled e))

http_parse_request-append_example :
    http_parse_request (one_word ++ b'b' ∷ []) ≡ http_parse_request one_word
http_parse_request-append_example =
    http_parse_request-append one_word (b'b' ∷ []) one_word-ends one_word-error

-- The directory is "/r", and each path is that of "/r/a".
abbrev system : System
system = record {
  realpath = λ path.
      if length path == 20
      then found (b'/' ∷ b'r' ∷ [])
      else found (b'/' ∷ b'r' ∷ b'/' ∷ b'a' ∷ []);
  is_regular = λ path. found true;
  opens = λ path. true;
}

sent : http_send_file_response system (b'/' ∷ b'a' ∷ []) ≡ file (b'/' ∷ b'r' ∷ b'/' ∷ b'a' ∷ [])
unfolding http_send_file_response send_resolved by_kind is_within is_prefix
sent = refl

http_send_file_response-within_example :
    (4 < path_max_len)
    × (rest : Text) × (b'/' ∷ b'r' ∷ b'/' ∷ b'a' ∷ [] ≡ (b'/' ∷ b'r' ∷ []) ++ rest)
    × ((rest ≡ []) ⊎ ((tail : Text) × (rest ≡ b'/' ∷ tail)))
http_send_file_response-within_example =
    http_send_file_response-within system (b'/' ∷ b'a' ∷ []) (b'/' ∷ b'r' ∷ [])
      (b'/' ∷ b'r' ∷ b'/' ∷ b'a' ∷ []) refl sent refl
