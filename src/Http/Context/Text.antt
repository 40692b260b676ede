-- ===== src/Http/Context/Text.antt =====
-- The parser over the bytes that have come, with no buffer: the text is cut at its line ends.
-- `parseRequest` on a valid buffer does the same to the contents.
use rfcs.Common.{
  ℕ, zero, suc, ◌+◌, ◌-◌, ◌≡◌, refl, sym, ap, ◌∙◌, Bool, true, false, Option, some, none, arith,
  take, drop, take-take_le,
}
use mathlib.Core.Option
use rfcs.Buffer.{Buffer, peek, bytes_at, readable_bytes, retrieve_until}
use rfcs.Buffer.Valid.{IsValid, Holds, contents}
use rfcs.Buffer.Search.{find_byte, find_crlf, search_crlf, FirstLine, SearchResult}
use rfcs.Buffer.Search.Lines.{search_crlf-SearchResult}
use rfcs.Buffer.Calls.{retrieve_until-Holds, line_inside}
use rfcs.Http.StringMap.{Bytes}
use rfcs.Http.Request.{HttpRequest}
use rfcs.Http.Context.{
  HttpContext, ParseState, expect_request_line, expect_headers, expect_body, got_all,
  process_request_line, Round, goes_on, stops, fails, request_line_done, request_line_round,
  header_line, headers_done, headers_round, round, Parse, done, asserts, out_of_fuel, parse_rounds,
}

-- what becomes of the first line and of the text behind it
unfoldable pub text_request_line_done :
    ℕ → Bytes → Bytes → HttpContext → Option (Bool × HttpRequest) → Round Bytes
text_request_line_done now text rest c none = fails
text_request_line_done now text rest c (some (false, r)) =
    stops false text (record c { request = r })
text_request_line_done now text rest c (some (true, r)) =
    goes_on rest (record { state = expect_headers; request = record r { receive_time = now } })

unfoldable pub text_request_line : ℕ → Bytes → HttpContext → Option ℕ → Round Bytes
unfolding text_request_line_done
text_request_line now text c none = stops true text c
text_request_line now text c (some i) =
    text_request_line_done now text (drop (i + 2) text) c
      (process_request_line c.request (take i text))

unfoldable pub text_headers_done : Bytes → Bool × HttpContext → Round Bytes
text_headers_done rest (true, c) = goes_on rest c
text_headers_done rest (false, c) = stops true rest c

unfoldable pub text_headers : Bytes → HttpContext → Option ℕ → Round Bytes
unfolding text_headers_done
text_headers text c none = stops true text c
text_headers text c (some i) =
    text_headers_done (drop (i + 2) text)
      (header_line c (take i text) (find_byte b':' (take i text)))

unfoldable pub text_round : ℕ → Bytes → HttpContext → Round Bytes
unfolding text_request_line text_headers
text_round now text c = elim c.state [
  | expect_request_line ↦ text_request_line now text c (search_crlf text)
  | expect_headers ↦ text_headers text c (search_crlf text)
  | expect_body ↦ goes_on text c
  | got_all ↦ goes_on text c
]

unfoldable pub parse_text : ℕ → ℕ → Bytes → HttpContext → Parse Bytes
unfolding text_round
parse_text zero now text c = out_of_fuel
parse_text (suc fuel) now text c = elim (text_round now text c) [
  | goes_on text' c' ↦ parse_text fuel now text' c'
  | stops ok text' c' ↦ done ok text' c'
  | fails ↦ asserts
]

-- A round over a buffer and one over a text do the same.
data SameRound : Round Buffer → Round Bytes → Type 0 where
  both_go :
      (b : Buffer) (text : Bytes) (c : HttpContext)
      → IsValid b
      → contents b ≡ text
      → SameRound (goes_on b c) (goes_on text c)
  both_stop :
      (ok : Bool) (b : Buffer) (text : Bytes) (c : HttpContext)
      → IsValid b
      → contents b ≡ text
      → SameRound (stops ok b c) (stops ok text c)
  both_fail : SameRound fails fails

pub data SameParse : Parse Buffer → Parse Bytes → Type 0 where
  both_done :
      (ok : Bool) (b : Buffer) (text : Bytes) (c : HttpContext)
      → IsValid b
      → contents b ≡ text
      → SameParse (done ok b c) (done ok text c)
  both_assert : SameParse asserts asserts
  both_out : SameParse out_of_fuel out_of_fuel

module _ (b : Buffer) (v : IsValid b) where
  -- the line that ends at the offset `i`, and the retrieval behind its "\r\n"
  module _ (i : ℕ) (f : FirstLine (contents b) i) where
    line_eq : bytes_at b (peek b) (peek b + i - peek b) ≡ take i (contents b)
    line_eq =
        let offset : peek b + i - peek b ≡ i = omega arith in
        ap (bytes_at b (peek b)) offset
        ∙ sym (
            take-take_le i (readable_bytes b) (drop b.reader_index b.bytes)
              (omega (arith, line_inside b i v f)))

    rest : Holds (retrieve_until b (peek b + i + 2)) (drop (i + 2) (contents b))
    rest =
        let offset : peek b + i + 2 - peek b ≡ i + 2 = omega arith in
        rw (← ap (λ k. drop k (contents b)) offset) (
          retrieve_until-Holds b v (peek b + i + 2) (omega arith)
            (omega (arith, line_inside b i v f)))

  request_line_done-Same :
      (now : ℕ) (c : HttpContext) (i : ℕ) (f : FirstLine (contents b) i)
      (m : Option (Bool × HttpRequest))
      → SameRound
          (request_line_done now b c (peek b + i) m)
          (text_request_line_done now (contents b) (drop (i + 2) (contents b)) c m)
  unfolding request_line_done text_request_line_done
  request_line_done-Same now c i f none = both_fail
  request_line_done-Same now c i f (some (false, r)) = both_stop false b (contents b) _ v refl
  request_line_done-Same now c i f (some (true, r)) =
      let h = rest i f in rw (h.returns, request_line_done) (both_go h.buffer _ _ h.valid h.holds)

  request_line-Same :
      (now : ℕ) (c : HttpContext) (o : Option ℕ)
      → SearchResult (contents b) o
      → SameRound
          (request_line_round now b c (Option.map (λ i. peek b + i) o))
          (text_request_line now (contents b) c o)
  unfolding request_line_round text_request_line
  request_line-Same now c none s = both_stop true b (contents b) c v refl
  request_line-Same now c (some i) f =
      rw (line_eq i f)
        (request_line_done-Same now c i f (process_request_line c.request (take i (contents b))))

  headers_done-Same :
      (i : ℕ) (f : FirstLine (contents b) i) (r : Bool × HttpContext)
      → SameRound
          (headers_done (retrieve_until b (peek b + i + 2)) r)
          (text_headers_done (drop (i + 2) (contents b)) r)
  unfolding headers_done text_headers_done
  headers_done-Same i f (true, c) =
      let h = rest i f in rw (h.returns, headers_done) (both_go h.buffer _ _ h.valid h.holds)
  headers_done-Same i f (false, c) =
      let h = rest i f in rw h.returns (both_stop true h.buffer _ _ h.valid h.holds)

  headers-Same :
      (c : HttpContext) (o : Option ℕ)
      → SearchResult (contents b) o
      → SameRound
          (headers_round b c (Option.map (λ i. peek b + i) o))
          (text_headers (contents b) c o)
  unfolding headers_round text_headers
  headers-Same c none s = both_stop true b (contents b) c v refl
  headers-Same c (some i) f = rw (line_eq i f) (
      headers_done-Same i f
        (header_line c (take i (contents b)) (find_byte b':' (take i (contents b)))))

  round_in :
      (s : ParseState) (now : ℕ) (r : HttpRequest)
      → let c : HttpContext = record { state = s; request = r } in
        SameRound (round now b c) (text_round now (contents b) c)
  unfolding round text_round find_crlf
  round_in expect_request_line now r =
      request_line-Same now _ (search_crlf (contents b)) (search_crlf-SearchResult (contents b))
  round_in expect_headers now r =
      headers-Same _ (search_crlf (contents b)) (search_crlf-SearchResult (contents b))
  round_in expect_body now r = both_go b (contents b) _ v refl
  round_in got_all now r = both_go b (contents b) _ v refl

-- The loop over a valid buffer and the loop over its contents take the same way: they stop, run out
-- of rounds or fail the assertion together, with one context, and leave the same bytes.
pub parse_rounds-SameParse :
    (fuel now : ℕ) (b : Buffer) (c : HttpContext)
    → IsValid b
    → SameParse (parse_rounds fuel now b c) (parse_text fuel now (contents b) c)
unfolding parse_rounds parse_text
parse_rounds-SameParse zero now b c v = both_out
parse_rounds-SameParse (suc fuel) now b c v =
    go (round_in b v c.state now c.request) (parse_rounds-SameParse fuel now)
  where
    go :
        {r : Round Buffer} {t : Round Bytes}
        → SameRound r t
        → ((b : Buffer) (c : HttpContext)
            → IsValid b
            → SameParse (parse_rounds fuel now b c) (parse_text fuel now (contents b) c))
        → SameParse
            (elim r [
              | goes_on b' c' ↦ parse_rounds fuel now b' c'
              | stops ok b' c' ↦ done ok b' c'
              | fails ↦ asserts
            ])
            (elim t [
              | goes_on b' c' ↦ parse_text fuel now b' c'
              | stops ok b' c' ↦ done ok b' c'
              | fails ↦ asserts
            ])
    go (both_go b' text c' v' e) ih = rw (← e) (ih b' c' v')
    go (both_stop ok b' text c' v' e) ih = both_done ok b' text c' v' e
    go both_fail ih = both_assert
