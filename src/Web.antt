-- ===== src/Web.antt =====
-- mgnt/web/web.c: the bytes of a connection, and the requests that are taken out of them. What the
-- system calls give is given.
pub mod Consumed
pub mod Round
mod Tests
use misc_c.Base.{
  ℕ, zero, suc, ◌+◌, ◌-◌, Bool, true, false, ◌&&◌, Option, none, some, List, [], ◌∷◌, ◌++◌, length,
  take, drop, ltb, leb, ◌==◌, if◌then◌else◌,
}
use misc_c.Http.{Text, lower, Request, Result, error, incomplete, complete, http_parse_request}

abbrev pub web_buffer_size : ℕ
web_buffer_size = 4096

abbrev pub uri_size : ℕ
uri_size = 64

-- What one `recv` gives: bytes, or the end of the connection. When there are none left, it gives
-- EAGAIN.
pub data Recv : Type 0 where
  got : Text → Recv
  ended : Recv

-- The loop of `recv`: the filled buffer, or none if the connection is closed. Without room the call
-- asks for no bytes and gives 0, as at the end.
unfoldable pub recv_all : Text → List Recv → Option Text
recv_all buffer [] = if length buffer == web_buffer_size then none else some buffer
recv_all buffer (ended ∷ rs) = none
recv_all buffer (got bytes ∷ rs) =
    let taken = take (web_buffer_size - length buffer) bytes in
    let rest = recv_all (buffer ++ taken) rs in
    if length taken == 0
    then none
    else if length (buffer ++ taken) == web_buffer_size
    then some (buffer ++ taken)
    else rest

-- strncasecmp(method, word, length of the method) == 0
unfoldable pub begins_word : Text → Text → Bool
begins_word [] word = true
begins_word (c ∷ method) [] = false
begins_word (c ∷ method) (d ∷ word) = lower c == lower d && begins_word method word

-- What `_web_process_http_req` does; a uri of 64 bytes or more leaves no place for its NUL in the
-- array, or is copied past it.
pub data Process : Type 0 where
  send_file send_cgi : Text → Process
  ignored uri_overrun : Process

unfoldable pub process_http_req : Request → Process
process_http_req req =
    let fits = ltb (length req.uri) uri_size in
    if begins_word req.method (b'G' ∷ b'E' ∷ b'T' ∷ [])
    then (if fits then send_file req.uri else uri_overrun)
    else if begins_word req.method (b'P' ∷ b'O' ∷ b'S' ∷ b'T' ∷ [])
    then (if fits then send_cgi req.uri else uri_overrun)
    else ignored

abbrev pub overruns : Request → Bool
unfolding process_http_req
overruns req = elim (process_http_req req) [ uri_overrun ↦ true | _ ↦ false ]

-- The requests that are handled, and where the loop stands at its end, or that it closes, or that a
-- request is copied past the array for its uri.
pub data Looped : Type 0 where
  waits : List Request → (rpos : ℕ) → Looped
  closes smashes : List Request → Looped

-- `while(rpos < conn->len)`: each round parses the whole buffer. There is no result when the fuel
-- does not last.
unfoldable pub parse_loop : ℕ → Text → (rpos : ℕ) → List Request → Option Looped
unfolding process_http_req
parse_loop zero buffer rpos handled = none
parse_loop (suc fuel) buffer rpos handled =
    if ltb rpos (length buffer)
    then elim (http_parse_request buffer) [
      | complete req consumed ↦
          let more = parse_loop fuel buffer (rpos + consumed) (handled ++ req ∷ []) in
          if overruns req then some (smashes handled) else more
      | incomplete ↦ some (waits handled rpos)
      | error ↦ some (closes handled)
    ]
    else some (waits handled rpos)

-- What is left of a connection: its buffer; nothing when it is closed; a `len` that has wrapped below
-- 0 and a memmove past the buffer; or a write past the array for the uri, behind which nothing is known.
pub data Left : Type 0 where
  kept : Text → Left
  closed overrun smashed : Left

unfoldable pub keep_rest : Text → (rpos : ℕ) → Left
keep_rest buffer rpos = if leb rpos (length buffer) then kept (drop rpos buffer) else overrun

abbrev pub after_loop : Text → Looped → List Request × Left
after_loop buffer (waits handled rpos) = (handled, keep_rest buffer rpos)
after_loop buffer (closes handled) = (handled, closed)
after_loop buffer (smashes handled) = (handled, smashed)

-- The part of `_web_events_handle` for a connection.
unfoldable pub events_handle : ℕ → Text → List Recv → Option (List Request × Left)
unfolding recv_all parse_loop
events_handle fuel buffer recvs = elim (recv_all buffer recvs) [
  | none ↦ some ([], closed)
  | some filled ↦ elim (parse_loop fuel filled 0 []) [
    | none ↦ none
    | some looped ↦ some (after_loop filled looped)
  ]
]
