-- ===== src/Http/Context/Termination.antt =====
-- `parseRequest` comes to an end, with no failed assertion, and with every whole line consumed.
use rfcs.Common.{
  ℕ, zero, suc, ◌+◌, ◌<◌, ◌≡◌, refl, ap, Bool, true, false, ◌∷◌, Option, some, none, arith, length,
  take, drop, length-append, length-drop, not, ◌>>=◌,
}
use rfcs.Buffer.{Buffer, readable_bytes}
use rfcs.Buffer.Valid.{IsValid, contents, length-contents}
use rfcs.Buffer.Search.{find_byte, search_crlf, cr, lf, FirstLine, SearchResult, HasCrlf}
use rfcs.Buffer.Search.Lines.{search_crlf-SearchResult}
use rfcs.Http.StringMap.{Bytes}
use rfcs.Http.Request.{HttpRequest, invalid, is_invalid, set_method, method_of}
use rfcs.Http.Context.{
  HttpContext, ParseState, expect_request_line, expect_headers, expect_body, got_all,
  process_request_line, Round, goes_on, stops, fails, header_line, after_method, Parse, done,
  asserts, out_of_fuel, parse_request,
}
use rfcs.Http.Context.Text.{
  text_request_line_done, text_request_line, text_headers_done, text_headers, text_round,
  parse_text, SameParse, both_done, both_assert, both_out, parse_rounds-SameParse,
}

-- A context that waits for a line: what the constructor and `reset` give, or a parser part way.
pub data IsReady : HttpContext → Type 0 where
  at_start :
      (c : HttpContext) → c.state ≡ expect_request_line → c.request.method ≡ invalid → IsReady c
  in_headers : (c : HttpContext) → c.state ≡ expect_headers → IsReady c

-- How a call of the parser ends.
pub data Ends : Bool → Bytes → HttpContext → Type 0 where
  complete : (text : Bytes) (c : HttpContext) → c.state ≡ got_all → Ends true text c
  waiting : (text : Bytes) (c : HttpContext) → IsReady c → ¬ HasCrlf text → Ends true text c
  bad_line : (text : Bytes) (c : HttpContext) → c.state ≡ expect_request_line → Ends false text c

-- One round on a text and a context that is ready.
pub data RoundEnds (text : Bytes) (c : HttpContext) : Round Bytes → Type 0 where
  shorter :
      (rest : Bytes) (c' : HttpContext)
      → length rest < length text
      → IsReady c'
      → RoundEnds text c (goes_on rest c')
  finished :
      (rest : Bytes) (c' : HttpContext) → c'.state ≡ got_all → RoundEnds text c (stops true rest c')
  refused :
      (c' : HttpContext) → c'.state ≡ expect_request_line → RoundEnds text c (stops false text c')
  waits : IsReady c → ¬ HasCrlf text → RoundEnds text c (stops true text c)

rest_shorter : (text : Bytes) (i : ℕ) → FirstLine text i → length (drop (i + 2) text) < length text
rest_shorter text i f =
    omega (
      arith,
      length-drop (i + 2) text,
      ap length f.splits,
      length-append f.line (cr ∷ lf ∷ f.after),
    )

set_method_total :
    (r : HttpRequest) (m : Bytes)
    → r.method ≡ invalid
    → set_method r m ≡ some (not (is_invalid (method_of m)), record r { method = method_of m })
unfolding set_method
set_method_total r m h = simp h

process_request_line_total :
    (r : HttpRequest) (line : Bytes)
    → r.method ≡ invalid
    → (m : Bool × HttpRequest) × (process_request_line r line ≡ some m)
unfolding process_request_line
process_request_line_total r line h = go (find_byte b' ' line)
  where
    go :
        (o : Option ℕ)
        → (m : Bool × HttpRequest) × ((elim o [
          | none ↦ some (false, r)
          | some i ↦ set_method r (take i line) >>= λ m. some (after_method (drop (i + 1) line) m)
        ])
            ≡ some m)
    go none = ((false, r), refl)
    go (some i) = (
      after_method (drop (i + 1) line) (
        not (is_invalid (method_of (take i line))),
        record r { method = method_of (take i line) },
      ),
      rw (set_method_total r (take i line) h) refl,
    )

request_line_done-RoundEnds :
    (now : ℕ) (text rest : Bytes) (c : HttpContext) (m : Bool × HttpRequest)
    → c.state ≡ expect_request_line
    → length rest < length text
    → RoundEnds text c (text_request_line_done now text rest c (some m))
unfolding text_request_line_done
request_line_done-RoundEnds now text rest c (false, r) s h = refused _ s
request_line_done-RoundEnds now text rest c (true, r) s h = shorter rest _ h (in_headers _ refl)

headers_done-RoundEnds :
    (text rest line : Bytes) (c : HttpContext) (o : Option ℕ)
    → c.state ≡ expect_headers
    → length rest < length text
    → RoundEnds text c (text_headers_done rest (header_line c line o))
unfolding text_headers_done header_line
headers_done-RoundEnds text rest line c none s h = finished rest _ refl
headers_done-RoundEnds text rest line c (some i) s h = shorter rest _ h (in_headers _ s)

request_line-RoundEnds :
    (now : ℕ) (text : Bytes) (c : HttpContext) (o : Option ℕ)
    → c.state ≡ expect_request_line
    → c.request.method ≡ invalid
    → SearchResult text o
    → RoundEnds text c (text_request_line now text c o)
unfolding text_request_line
request_line-RoundEnds now text c none s m h = waits (at_start c s m) h
request_line-RoundEnds now text c (some i) s m f =
    let (r, e) = process_request_line_total c.request (take i text) m in
    rw e (request_line_done-RoundEnds now text (drop (i + 2) text) c r s (rest_shorter text i f))

headers-RoundEnds :
    (text : Bytes) (c : HttpContext) (o : Option ℕ)
    → c.state ≡ expect_headers
    → SearchResult text o
    → RoundEnds text c (text_headers text c o)
unfolding text_headers
headers-RoundEnds text c none s h = waits (in_headers c s) h
headers-RoundEnds text c (some i) s f =
    headers_done-RoundEnds text (drop (i + 2) text) (take i text) c _ s (rest_shorter text i f)

module _ (now : ℕ) (text : Bytes) (c : HttpContext) where
  by_state : ParseState → Round Bytes
  by_state s = elim s [
    | expect_request_line ↦ text_request_line now text c (search_crlf text)
    | expect_headers ↦ text_headers text c (search_crlf text)
    | expect_body ↦ goes_on text c
    | got_all ↦ goes_on text c
  ]

  pub text_round_start :
      c.state ≡ expect_request_line
      → text_round now text c ≡ text_request_line now text c (search_crlf text)
  unfolding text_round by_state
  text_round_start s = ap by_state s

  pub text_round_headers :
      c.state ≡ expect_headers → text_round now text c ≡ text_headers text c (search_crlf text)
  unfolding text_round by_state
  text_round_headers s = ap by_state s

pub text_round-RoundEnds :
    (now : ℕ) (text : Bytes) (c : HttpContext)
    → IsReady c
    → RoundEnds text c (text_round now text c)
text_round-RoundEnds now text c (at_start _ s m) =
    rw (text_round_start now text c s)
      (request_line-RoundEnds now text c (search_crlf text) s m (search_crlf-SearchResult text))
text_round-RoundEnds now text c (in_headers _ s) =
    rw (text_round_headers now text c s)
      (headers-RoundEnds text c (search_crlf text) s (search_crlf-SearchResult text))

-- A parse that has ended, in one of the three ways.
abbrev pub Finishes : Parse Bytes → Type 0
Finishes (done ok text c) = Ends ok text c
Finishes asserts = ⊥
Finishes out_of_fuel = ⊥

pub parse_text-Finishes :
    (fuel now : ℕ) (text : Bytes) (c : HttpContext)
    → IsReady c
    → length text < fuel
    → Finishes (parse_text fuel now text c)
unfolding parse_text
parse_text-Finishes zero now text c r h = absurd (omega arith)
parse_text-Finishes (suc fuel) now text c r h =
    go (text_round-RoundEnds now text c r) (parse_text-Finishes fuel now)
  where
    go :
        {q : Round Bytes}
        → RoundEnds text c q
        → ((t : Bytes) (c' : HttpContext)
            → IsReady c'
            → length t < fuel
            → Finishes (parse_text fuel now t c'))
        → Finishes (elim q [
          | goes_on t c' ↦ parse_text fuel now t c'
          | stops ok t c' ↦ done ok t c'
          | fails ↦ asserts
        ])
    go (shorter rest c' less r') ih = ih rest c' r' (omega arith)
    go (finished rest c' e) ih = complete rest c' e
    go (refused c' e) ih = bad_line text c' e
    go (waits r' e) ih = waiting text c r' e

-- The same of a parse over a buffer, which is valid in the end.
abbrev pub Returns : Parse Buffer → Type 0
Returns (done ok b c) = IsValid b × Ends ok (contents b) c
Returns asserts = ⊥
Returns out_of_fuel = ⊥

Finishes-Returns : {p : Parse Buffer} {q : Parse Bytes} → SameParse p q → Finishes q → Returns p
Finishes-Returns (both_done ok b text c v e) f = (v, rw e f)
Finishes-Returns both_assert f = absurd f
Finishes-Returns both_out f = absurd f

-- `parseRequest` on a valid buffer and a context that waits for a line (as the constructor, `reset`
-- and every call that waits for more leave it) returns, and no assertion fails. Either the request is
-- complete; or the context waits for a line again, and no whole line is left in the buffer; or it is
-- false that is returned, for a bad request line. The buffer is still valid.
pub parse_request-Returns :
    (now : ℕ) (b : Buffer) (c : HttpContext)
    → IsValid b
    → IsReady c
    → Returns (parse_request now b c)
unfolding parse_request
parse_request-Returns now b c v r =
    Finishes-Returns (parse_rounds-SameParse (readable_bytes b + 1) now b c v) (
      parse_text-Finishes (readable_bytes b + 1) now (contents b) c r
        (omega (arith, length-contents b v)))
