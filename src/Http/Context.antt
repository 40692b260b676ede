-- ===== src/Http/Context.antt =====
-- muduo/net/http/HttpContext.h and HttpContext.cc: the incremental parser of a request.
pub mod Text
pub mod Termination
pub mod Chunks
pub mod Refused
use rfcs.Common.{
  ℕ, zero, suc, ◌+◌, ◌-◌, ◌≡◌, refl, Bool, true, false, ◌&&◌, List, [], ◌∷◌, Option, some, none,
  leb, ◌==◌, if◌then◌else◌, length, take, drop, ◌>>=◌, get_elem?,
}
use rfcs.Buffer.{Buffer, peek, bytes_at, readable_bytes, retrieve_until}
use rfcs.Buffer.Search.{find_byte, find_crlf}
use rfcs.Http.StringMap.{Bytes, same}
use rfcs.Http.Request.{HttpRequest, Version, http10, http11, codes, set_method, add_header}
use rfcs.Http.Request

pub data ParseState : Type 0 where
  expect_request_line expect_headers expect_body got_all : ParseState

pub record HttpContext : Type 0 where
  pub state : ParseState
  pub request : HttpRequest

abbrev pub init : HttpContext
init = record { state = expect_request_line; request = Request.init }

unfoldable pub is_got_all : HttpContext → Bool
is_got_all c = elim c.state [ got_all ↦ true | _ ↦ false ]

unfoldable pub reset : HttpContext → HttpContext
reset c = record c { state = expect_request_line; request = Request.init }

-- the version behind the second space: eight bytes, "HTTP/1.1" or "HTTP/1.0"
unfoldable pub version_of : Bytes → Option Version
version_of s =
    if (length s == 8) && same (take 7 s) (codes "HTTP/1.")
    then (let last = drop 7 s in
        if same last (codes "1")
        then some http11
        else if same last (codes "0")
        then some http10
        else none)
    else none

-- The target stands between the spaces; a query keeps its question mark.
unfoldable pub set_target : HttpRequest → Bytes → HttpRequest
set_target r target = elim (find_byte b'?' target) [
  | some q ↦ record r { path = take q target; query = drop q target }
  | none ↦ record r { path = target }
]

set_version : HttpRequest → Bytes → Bool × HttpRequest
unfolding version_of
set_version r s = elim (version_of s) [
  | some v ↦ (true, record r { version = v })
  | none ↦ (false, r)
]

-- the target and the version, behind the first space
process_target : HttpRequest → Bytes → Bool × HttpRequest
unfolding set_target set_version
process_target r rest = elim (find_byte b' ' rest) [
  | none ↦ (false, r)
  | some j ↦ set_version (set_target r (take j rest)) (drop (j + 1) rest)
]

-- behind the method, if that was known
after_method : Bytes → Bool × HttpRequest → Bool × HttpRequest
unfolding process_target
after_method rest (true, r) = process_target r rest
after_method rest (false, r) = (false, r)

-- `none` is the failed assertion of `setMethod`.
unfoldable pub process_request_line : HttpRequest → Bytes → Option (Bool × HttpRequest)
unfolding after_method
process_request_line r line = elim (find_byte b' ' line) [
  | none ↦ some (false, r)
  | some i ↦ set_method r (take i line) >>= λ m. some (after_method (drop (i + 1) line) m)
]

-- One round of the loop of `parseRequest` goes on, stops with `ok`, or fails an assertion.
pub data Round (B : Type 0) : Type 0 where
  goes_on : B → HttpContext → Round B
  stops : Bool → B → HttpContext → Round B
  fails : Round B

-- the round in `kExpectRequestLine`, by the answers of `processRequestLine` and of `findCRLF`
request_line_done : ℕ → Buffer → HttpContext → ℕ → Option (Bool × HttpRequest) → Round Buffer
request_line_done now buf c crlf none = fails
request_line_done now buf c crlf (some (false, r)) = stops false buf (record c { request = r })
request_line_done now buf c crlf (some (true, r)) = elim (retrieve_until buf (crlf + 2)) [
  | none ↦ fails
  | some buf' ↦
      goes_on buf' (record { state = expect_headers; request = record r { receive_time = now } })
]

request_line_round : ℕ → Buffer → HttpContext → Option ℕ → Round Buffer
unfolding request_line_done
request_line_round now buf c none = stops true buf c
request_line_round now buf c (some crlf) =
    request_line_done now buf c crlf
      (process_request_line c.request (bytes_at buf (peek buf) (crlf - peek buf)))

-- the round in `kExpectHeaders`; a line without a colon ends the headers
unfoldable pub header_line : HttpContext → Bytes → Option ℕ → Bool × HttpContext
header_line c line (some i) =
    (true, record c { request = add_header c.request (take i line) (drop (i + 1) line) })
header_line c line none = (false, record c { state = got_all })

headers_done : Option Buffer → Bool × HttpContext → Round Buffer
headers_done none r = fails
headers_done (some buf) (true, c) = goes_on buf c
headers_done (some buf) (false, c) = stops true buf c

headers_round : Buffer → HttpContext → Option ℕ → Round Buffer
unfolding header_line headers_done
headers_round buf c none = stops true buf c
headers_round buf c (some crlf) =
    let line = bytes_at buf (peek buf) (crlf - peek buf) in
    headers_done (retrieve_until buf (crlf + 2)) (header_line c line (find_byte b':' line))

-- In the two other states a round does nothing and goes on.
unfoldable pub round : ℕ → Buffer → HttpContext → Round Buffer
unfolding request_line_round headers_round
round now buf c = elim c.state [
  | expect_request_line ↦ request_line_round now buf c (find_crlf buf)
  | expect_headers ↦ headers_round buf c (find_crlf buf)
  | expect_body ↦ goes_on buf c
  | got_all ↦ goes_on buf c
]

-- What `parseRequest` comes to, by `fuel` rounds.
pub data Parse (B : Type 0) : Type 0 where
  done : Bool → B → HttpContext → Parse B
  asserts : Parse B
  out_of_fuel : Parse B

unfoldable pub parse_rounds : ℕ → ℕ → Buffer → HttpContext → Parse Buffer
unfolding round
parse_rounds zero now buf c = out_of_fuel
parse_rounds (suc fuel) now buf c = elim (round now buf c) [
  | goes_on buf' c' ↦ parse_rounds fuel now buf' c'
  | stops ok buf' c' ↦ done ok buf' c'
  | fails ↦ asserts
]

-- `Http.Context.Termination` shows that one round more than there are readable bytes is enough.
unfoldable pub parse_request : ℕ → Buffer → HttpContext → Parse Buffer
parse_request now buf c = parse_rounds (readable_bytes buf + 1) now buf c
