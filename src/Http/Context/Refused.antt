-- ===== src/Http/Context/Refused.antt =====
-- What is left behind by a request line that `parseRequest` refuses after it has set the method.
use rfcs.Common.{
  ℕ, suc, ◌+◌, ◌≡◌, ◌≢◌, refl, ap, ◌∙◌, Bool, false, ◌++◌, Option, some, none, arith, take, drop,
  take-append_le, subst,
}
use rfcs.Buffer.{Buffer, readable_bytes}
use rfcs.Buffer.Valid.{IsValid, contents}
use rfcs.Buffer.Search.{find_byte, search_crlf, SearchResult}
use rfcs.Buffer.Search.Lines.{search_crlf-SearchResult}
use rfcs.Http.StringMap.{Bytes}
use rfcs.Http.Request.{
  HttpRequest, Method, invalid, is_invalid, set_method, get, post, head, put, delete,
}
use rfcs.Http.Context.{
  HttpContext, expect_request_line, process_request_line, done, asserts, parse_request,
}
use rfcs.Http.Context.Text.{text_request_line, text_request_line_done, parse_text}
use rfcs.Http.Context.Termination.{text_round_start}
use rfcs.Http.Context.Chunks.{
  erase, erase-parse_request, search_crlf-append, line_inside, parse_text-suc, after_round,
}

is_invalid-false : (m : Method) → m ≢ invalid → is_invalid m ≡ false
is_invalid-false invalid h = absurd (h refl)
is_invalid-false get h = refl
is_invalid-false post h = refl
is_invalid-false head h = refl
is_invalid-false put h = refl
is_invalid-false delete h = refl

no_space :
    (r r' : HttpRequest)
    → r.method ≡ invalid
    → r'.method ≢ invalid
    → ¬ (◌≡◌ {A = Option (Bool × HttpRequest)} (some (false, r)) (some (false, r')))
no_space r r' fresh known e = known (ground arith)

module _ (r r' : HttpRequest) (line : Bytes) (fresh : r.method ≡ invalid)
    (known : r'.method ≢ invalid) (refused : process_request_line r line ≡ some (false, r')) where
  -- The method was set, so a space ends it; the line is refused by an assertion the next time.
  again_asserts : process_request_line r' line ≡ none
  unfolding process_request_line set_method
  again_asserts = go (find_byte b' ' line) refl
    where
      go : (o : Option ℕ) → find_byte b' ' line ≡ o → process_request_line r' line ≡ none
      go none e = absurd (no_space r r' fresh known (rw (e, process_request_line) at refused))
      go (some i) e = rw (e, process_request_line, is_invalid-false r'.method known) refl

-- A round on a text that begins with a whole line.
one_round :
    (n now : ℕ) (text : Bytes) (c : HttpContext) (i : ℕ)
    → c.state ≡ expect_request_line
    → search_crlf text ≡ some i
    → parse_text (n + 1) now text c
      ≡ after_round n now (
          text_request_line_done now text
            (drop (i + 2) text)
            c
            (process_request_line c.request (take i text)))
unfolding text_request_line
one_round n now text c i s e =
    let one : n + 1 ≡ suc n = omega arith in
    rw one (
      parse_text-suc n now text c
      ∙ ap (after_round n now) (text_round_start now text c s ∙ rw e refl))

-- More bytes do not change it.
same_line :
    (text more : Bytes) (i : ℕ) → search_crlf text ≡ some i → take i (text ++ more) ≡ take i text
same_line text more i e =
    let f : SearchResult text (some i) =
      subst (SearchResult text) e (search_crlf-SearchResult text) in
    take-append_le i text more (omega (arith, line_inside text i f))

-- A valid buffer holds a request line that sets the method and is refused for something behind it.
-- `parseRequest` returns false and leaves the line in the buffer and the method in the context. When
-- `parseRequest` is called again on these, with any bytes that came in the meantime behind the line,
-- the assertion of `setMethod` that no method has been set fails.
pub parse_request_again :
    (now later i : ℕ) (b b' : Buffer) (c : HttpContext) (r : HttpRequest) (more : Bytes)
    → IsValid b
    → IsValid b'
    → c.state ≡ expect_request_line
    → c.request.method ≡ invalid
    → search_crlf (contents b) ≡ some i
    → process_request_line c.request (take i (contents b)) ≡ some (false, r)
    → r.method ≢ invalid
    → contents b' ≡ contents b ++ more
    → (erase (parse_request now b c) ≡ done false (contents b) (record c { request = r }))
      × (erase (parse_request later b' (record c { request = r })) ≡ asserts)
unfolding after_round text_request_line_done
parse_request_again now later i b b' c r more v v' s fresh e refused known grown = (
  erase-parse_request now b c v
      ∙ one_round (readable_bytes b) now (contents b) c i s e
      ∙ rw refused refl,
  erase-parse_request later b' (record c { request = r }) v'
      ∙ one_round (readable_bytes b') later (contents b') (record c { request = r }) i s
          (ap search_crlf grown ∙ search_crlf-append (contents b) more i e)
      ∙ rw
          (
            grown,
            same_line (contents b) more i e,
            again_asserts c.request r (take i (contents b)) fresh known refused,
          )
          refl,
)
