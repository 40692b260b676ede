-- ===== src/Http/Context/Chunks.antt =====
-- The parser sees a request the same way however the bytes are cut into arrivals.
use rfcs.Common.{
  ℕ, zero, suc, ◌+◌, ◌≤◌, ◌<◌, ◌≡◌, refl, sym, ap, ◌∙◌, Bool, true, false, not, ◌&&◌, [], ◌∷◌, ◌++◌,
  Option, some, none, arith, length, take, drop, if◌then◌else◌, take-append_le, drop-append_le,
  length-append,
}
use mathlib.Core.Option
use rfcs.Buffer.{Buffer, readable_bytes}
use rfcs.Buffer.Valid.{IsValid, contents, length-contents}
use rfcs.Buffer.Search.{
  find_byte, search_crlf, starts_crlf, cr, lf, FirstLine, SearchResult, HasCrlf,
}
use rfcs.Buffer.Search.Lines.{search_crlf-SearchResult}
use rfcs.Http.StringMap.{Bytes}
use rfcs.Http.Request.{HttpRequest}
use rfcs.Http.Context.{
  HttpContext, got_all, is_got_all, process_request_line, Round, goes_on, stops, fails, header_line,
  Parse, done, asserts, out_of_fuel, parse_request,
}
use rfcs.Http.Context.Text.{
  text_request_line_done, text_request_line, text_headers_done, text_headers, text_round,
  parse_text, SameParse, both_done, both_assert, both_out, parse_rounds-SameParse,
}
use rfcs.Http.Context.Termination.{
  IsReady, at_start, in_headers, RoundEnds, shorter, finished, refused, waits, text_round_start,
  text_round_headers, text_round-RoundEnds,
}

later :
    (b : Bool) (o p : Option ℕ) (i : ℕ)
    → ((j : ℕ) → o ≡ some j → p ≡ some j)
    → (if b then some 0 else Option.map suc o) ≡ some i
    → (if b then some 0 else Option.map suc p) ≡ some i
later true o p i keep h = h
later false none p i keep h = cc
later false (some j) p i keep h = rw (keep j refl) h

pub search_crlf-append :
    (text more : Bytes) (i : ℕ) → search_crlf text ≡ some i → search_crlf (text ++ more) ≡ some i
unfolding search_crlf starts_crlf
search_crlf-append [] more i h = cc
search_crlf-append (x ∷ []) more i h = ground arith
search_crlf-append (x ∷ y ∷ text) more i h =
    later (starts_crlf (x ∷ y ∷ text)) (search_crlf (y ∷ text)) (search_crlf ((y ∷ text) ++ more)) i
      (search_crlf-append (y ∷ text) more) h

-- Any fuel above the length of the text gives the same.
parse_text-fuel :
    (f g now : ℕ) (text : Bytes) (c : HttpContext)
    → IsReady c
    → length text < f
    → length text < g
    → parse_text f now text c ≡ parse_text g now text c
unfolding parse_text
parse_text-fuel zero g now text c r h k = absurd (omega arith)
parse_text-fuel (suc f) zero now text c r h k = absurd (omega arith)
parse_text-fuel (suc f) (suc g) now text c r h k =
    go (text_round-RoundEnds now text c r) (parse_text-fuel f g now)
  where
    go :
        {q : Round Bytes}
        → RoundEnds text c q
        → ((t : Bytes) (c' : HttpContext)
            → IsReady c'
            → length t < f
            → length t < g
            → parse_text f now t c' ≡ parse_text g now t c')
        → (elim q [
          | goes_on t c' ↦ parse_text f now t c'
          | stops ok t c' ↦ done ok t c'
          | fails ↦ asserts
        ])
          ≡ (elim q [
            | goes_on t c' ↦ parse_text g now t c'
            | stops ok t c' ↦ done ok t c'
            | fails ↦ asserts
          ])
    go (shorter rest c' less r') ih = ih rest c' r' (omega arith) (omega arith)
    go (finished rest c' e) ih = refl
    go (refused c' e) ih = refl
    go (waits r' e) ih = refl

-- `parseRequest` on a text.
unfoldable pub parse : ℕ → Bytes → HttpContext → Parse Bytes
parse now text c = parse_text (length text + 1) now text c

-- More bytes arrive: a parser that waits for a line goes on, one that has ended leaves them.
unfoldable pub resume : ℕ → Bytes → Parse Bytes → Parse Bytes
unfolding parse
resume now more (done ok text c) =
    if ok && not (is_got_all c) then parse now (text ++ more) c else done ok (text ++ more) c
resume now more asserts = asserts
resume now more out_of_fuel = out_of_fuel

-- A round that ends a line is not changed by what arrives later.
extend : Bytes → Round Bytes → Round Bytes
extend more (goes_on text c) = goes_on (text ++ more) c
extend more (stops ok text c) = stops ok (text ++ more) c
extend more fails = fails

module _ (now : ℕ) (text more : Bytes) (c : HttpContext) (i : ℕ)
    (inside : i + 2 ≤ length text) where
  request_line-append :
      text_request_line now (text ++ more) c (some i)
      ≡ extend more (text_request_line now text c (some i))
  unfolding text_request_line text_request_line_done extend
  request_line-append =
      rw (take-append_le i text more (omega arith), drop-append_le (i + 2) text more inside)
        (go (process_request_line c.request (take i text)))
    where
      go :
          (m : Option (Bool × HttpRequest))
          → text_request_line_done now (text ++ more) (drop (i + 2) text ++ more) c m
            ≡ extend more (text_request_line_done now text (drop (i + 2) text) c m)
      go none = refl
      go (some (true, r)) = refl
      go (some (false, r)) = refl

  headers-append :
      text_headers (text ++ more) c (some i) ≡ extend more (text_headers text c (some i))
  unfolding text_headers text_headers_done extend header_line
  headers-append =
      rw (take-append_le i text more (omega arith), drop-append_le (i + 2) text more inside)
        (go (header_line c (take i text) (find_byte b':' (take i text))))
    where
      go :
          (m : Bool × HttpContext)
          → text_headers_done (drop (i + 2) text ++ more) m
            ≡ extend more (text_headers_done (drop (i + 2) text) m)
      go (true, r) = refl
      go (false, r) = refl

FirstLine-HasCrlf : {text : Bytes} {i : ℕ} → FirstLine text i → HasCrlf text
FirstLine-HasCrlf f = record { before = f.line; after = f.after; splits = f.splits }

pub line_inside : (text : Bytes) (i : ℕ) → FirstLine text i → i + 2 ≤ length text
line_inside text i f =
    omega (arith, f.at, ap length f.splits, length-append f.line (cr ∷ lf ∷ f.after))

module _ (now : ℕ) (text more : Bytes) (c : HttpContext) where
  -- Where a line has ended, a round does with more bytes what it did without.
  round-append :
      (i : ℕ)
      → IsReady c
      → search_crlf text ≡ some i
      → FirstLine text i
      → text_round now (text ++ more) c ≡ extend more (text_round now text c)
  round-append i (at_start _ s m) e f =
      rw
        (
          text_round_start now (text ++ more) c s,
          text_round_start now text c s,
          search_crlf-append text more i e,
          e,
        )
        (request_line-append now text more c i (line_inside text i f))
  round-append i (in_headers _ s) e f =
      rw
        (
          text_round_headers now (text ++ more) c s,
          text_round_headers now text c s,
          search_crlf-append text more i e,
          e,
        )
        (headers-append now text more c i (line_inside text i f))

  -- Where none has, it waits.
  round_waits : IsReady c → search_crlf text ≡ none → text_round now text c ≡ stops true text c
  unfolding text_request_line text_headers
  round_waits (at_start _ s m) e = rw (text_round_start now text c s, e) refl
  round_waits (in_headers _ s) e = rw (text_round_headers now text c s, e) refl

not_got_all : {c : HttpContext} → IsReady c → is_got_all c ≡ false
unfolding is_got_all
not_got_all (at_start c s m) = ground arith
not_got_all (in_headers c s) = ground arith

is_got_all-true : (c : HttpContext) → c.state ≡ got_all → is_got_all c ≡ true
unfolding is_got_all
is_got_all-true c s = ground arith

-- What the loop makes of a round.
unfoldable pub after_round : ℕ → ℕ → Round Bytes → Parse Bytes
after_round f now q = elim q [
  | goes_on t c ↦ parse_text f now t c
  | stops ok t c ↦ done ok t c
  | fails ↦ asserts
]

pub parse_text-suc :
    (f now : ℕ) (text : Bytes) (c : HttpContext)
    → parse_text (suc f) now text c ≡ after_round f now (text_round now text c)
unfolding parse_text after_round
parse_text-suc f now text c = refl

parse-suc :
    (now : ℕ) (text : Bytes) (c : HttpContext)
    → IsReady c
    → parse now text c ≡ after_round (length text) now (text_round now text c)
unfolding parse
parse-suc now text c r =
    parse_text-fuel (length text + 1) (suc (length text)) now text c r (omega arith) (omega arith)
    ∙ parse_text-suc (length text) now text c

module _ (f now : ℕ) (text more : Bytes) (c : HttpContext) (line : HasCrlf text)
    (later_rounds : (t : Bytes) (c' : HttpContext)
      → IsReady c'
      → length t < f
      → parse now (t ++ more) c' ≡ resume now more (parse_text f now t c')) where
  after_round-append :
      (q : Round Bytes)
      → length text < suc f
      → RoundEnds text c q
      → after_round (length (text ++ more)) now (extend more q)
        ≡ resume now more (after_round f now q)
  unfolding after_round extend resume
  after_round-append _ h (shorter rest c' less r) =
      parse_text-fuel (length (text ++ more)) (length (rest ++ more) + 1) now (rest ++ more) c' r
        (omega (arith, length-append text more, length-append rest more)) (omega arith)
      ∙ unfold parse in later_rounds rest c' r (omega arith)
  after_round-append _ h (finished rest c' s) = rw (is_got_all-true c' s) refl
  after_round-append _ h (refused c' s) = refl
  after_round-append _ h (waits r none_left) = absurd (none_left line)

parse_text-append :
    (f now : ℕ) (text more : Bytes) (c : HttpContext)
    → IsReady c
    → length text < f
    → parse now (text ++ more) c ≡ resume now more (parse_text f now text c)
parse_text-append zero now text more c r h = absurd (omega arith)
parse_text-append (suc f) now text more c r h =
    parse_text-step (search_crlf text) refl (search_crlf-SearchResult text)
      (λ t c' r' k. parse_text-append f now t more c' r' k)
  where
    parse_text-step :
        (o : Option ℕ)
        → search_crlf text ≡ o
        → SearchResult text o
        → ((t : Bytes) (c' : HttpContext)
            → IsReady c'
            → length t < f
            → parse now (t ++ more) c' ≡ resume now more (parse_text f now t c'))
        → parse now (text ++ more) c ≡ resume now more (parse_text (suc f) now text c)
    parse_text-step none e s ih =
        rw (parse_text-suc f now text c, round_waits now text more c r e)
          (unfold resume after_round in rw (not_got_all r) refl)
    parse_text-step (some i) e s ih =
        parse-suc now (text ++ more) c r
        ∙ ap (after_round (length (text ++ more)) now) (round-append now text more c i r e s)
        ∙ after_round-append f now text more c (FirstLine-HasCrlf s) ih (text_round now text c) h
            (text_round-RoundEnds now text c r)
        ∙ ap (resume now more) (sym (parse_text-suc f now text c))

-- `parseRequest` with the buffer taken for its contents.
abbrev pub erase : Parse Buffer → Parse Bytes
erase (done ok b c) = done ok (contents b) c
erase asserts = asserts
erase out_of_fuel = out_of_fuel

SameParse-erase : {p : Parse Buffer} {q : Parse Bytes} → SameParse p q → erase p ≡ q
SameParse-erase (both_done ok b text c v e) = ap (λ t. done ok t c) e
SameParse-erase both_assert = refl
SameParse-erase both_out = refl

pub erase-parse_request :
    (now : ℕ) (b : Buffer) (c : HttpContext)
    → IsValid b
    → erase (parse_request now b c) ≡ parse_text (readable_bytes b + 1) now (contents b) c
unfolding parse_request
erase-parse_request now b c v =
    SameParse-erase (parse_rounds-SameParse (readable_bytes b + 1) now b c v)

-- Two valid buffers, the second holding what the first holds and `more` behind it, and a context that
-- waits for a line. Parsing the second buffer gives what parsing the first one gives, resumed with
-- `more` if it waits; a request that was complete, and a request line that was refused, stay so, and
-- leave `more` in the buffer behind what they left. (Both calls are given one receive time.)
pub parse_request-chunks :
    (now : ℕ) (b b' : Buffer) (c : HttpContext) (more : Bytes)
    → IsValid b
    → IsValid b'
    → contents b' ≡ contents b ++ more
    → IsReady c
    → erase (parse_request now b' c) ≡ resume now more (erase (parse_request now b c))
unfolding parse
parse_request-chunks now b b' c more v v' e r =
    erase-parse_request now b' c v'
    ∙ parse_text-fuel (readable_bytes b' + 1) (length (contents b') + 1) now (contents b') c r
        (omega (arith, length-contents b' v')) (omega arith)
    ∙ ap (λ t. parse_text (length t + 1) now t c) e
    ∙ parse_text-append (readable_bytes b + 1) now (contents b) more c r
        (omega (arith, length-contents b v))
    ∙ ap (resume now more) (sym (erase-parse_request now b c v))
