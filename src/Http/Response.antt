-- ===== src/Http/Response.antt =====
-- muduo/net/http/HttpResponse.h and HttpResponse.cc: the printer of responses. `snprintf` of `%d` and
-- `%zd` gives the decimal numeral, cut at the end of its buffer of 32 bytes.
use rfcs.Common.{
  ℕ, ◌+◌, ◌≤◌, refl, sym, ap, ◌∙◌, Bool, List, [], ◌∷◌, ◌++◌, append_assoc, append-nil, Option,
  some, arith, if◌then◌else◌, length, length-append, take, ◌>>=◌,
}
use rfcs.Buffer.{Buffer, append, max_size}
use rfcs.Buffer.Valid.{IsValid, Holds, contents}
use rfcs.Buffer.Append.{append-Appended}
use rfcs.Http.StringMap.{Bytes, StringMap, insert}
use rfcs.Http.Request.{codes}
use rfcs.LogStream.Numbers.{decimal_text}

pub record HttpResponse : Type 0 where
  pub headers : StringMap
  pub status_code : ℕ
  pub status_message : Bytes
  pub close_connection : Bool
  pub body : Bytes

-- `HttpResponse(bool close)`
unfoldable pub init : Bool → HttpResponse
init close = record {
  headers = [];
  status_code = 0;
  status_message = [];
  close_connection = close;
  body = [];
}

unfoldable pub set_status_code : ℕ → HttpResponse → HttpResponse
set_status_code code r = record r { status_code = code }

unfoldable pub set_status_message : Bytes → HttpResponse → HttpResponse
set_status_message message r = record r { status_message = message }

unfoldable pub set_close_connection : Bool → HttpResponse → HttpResponse
set_close_connection on r = record r { close_connection = on }

unfoldable pub add_header : Bytes → Bytes → HttpResponse → HttpResponse
add_header key value r = record r { headers = insert key value r.headers }

unfoldable pub set_content_type : Bytes → HttpResponse → HttpResponse
unfolding add_header
set_content_type content_type r = add_header (codes "Content-Type") content_type r

unfoldable pub set_body : Bytes → HttpResponse → HttpResponse
set_body body r = record r { body = body }

abbrev crlf : Bytes
crlf = 13 ∷ 10 ∷ []

-- `snprintf(buf, sizeof buf, ...)` and the string in `buf`
abbrev printed : Bytes → Bytes
printed text = take 31 text

-- The calls of `append`, each after the one before.
unfoldable pub append_all : List Bytes → Buffer → Option Buffer
append_all [] output = some output
append_all (piece ∷ pieces) output = append output piece >>= append_all pieces

-- What the loop over the headers appends.
abbrev pub header_pieces : StringMap → List Bytes
header_pieces [] = []
header_pieces ((key, value) ∷ headers) = key ∷ codes ": " ∷ value ∷ crlf ∷ header_pieces headers

abbrev pub connection_pieces : HttpResponse → List Bytes
connection_pieces r =
    if r.close_connection
    then (codes "Connection: close" ++ crlf) ∷ []
    else printed (codes "Content-Length: " ++ decimal_text (length r.body) ++ crlf)
      ∷ (codes "Connection: Keep-Alive" ++ crlf)
      ∷ []

unfoldable pub pieces : HttpResponse → List Bytes
pieces r =
    printed (codes "HTTP/1.1 " ++ decimal_text r.status_code ++ codes " ")
    ∷ r.status_message
    ∷ crlf
    ∷ (connection_pieces r ++ header_pieces r.headers ++ (crlf ∷ r.body ∷ []))

unfoldable pub append_to_buffer : HttpResponse → Buffer → Option Buffer
append_to_buffer r output = append_all (pieces r) output

abbrev pub text_of : List Bytes → Bytes
text_of [] = []
text_of (piece ∷ pieces) = piece ++ text_of pieces

append_all-Holds :
    (ps : List Bytes) (b : Buffer)
    → IsValid b
    → b.writer_index + length (text_of ps) ≤ max_size
    → Holds (append_all ps b) (contents b ++ text_of ps)
unfolding append_all
append_all-Holds [] b v h = record {
  buffer = b;
  returns = refl;
  valid = v;
  holds = sym (append-nil (contents b));
}
append_all-Holds (p ∷ ps) b v h =
    let size = length-append p (text_of ps) in
    let a = append-Appended b p v (omega (arith, size)) in
    let r = append_all-Holds ps a.holds.buffer a.holds.valid (omega (arith, size, a.writer_le)) in
    record {
      buffer = r.buffer;
      returns = rw (a.holds.returns) r.returns;
      valid = r.valid;
      holds =
          r.holds
          ∙ ap (λ xs. xs ++ text_of ps) a.holds.holds
          ∙ append_assoc (contents b) p (text_of ps);
    }

-- `appendToBuffer` puts the text of the response behind the contents: the status line, the header
-- lines in the order of their keys, an empty line and the body.
pub append_to_buffer-Holds :
    (r : HttpResponse) (b : Buffer)
    → IsValid b
    → b.writer_index + length (text_of (pieces r)) ≤ max_size
    → Holds (append_to_buffer r b) (contents b ++ text_of (pieces r))
unfolding append_to_buffer
append_to_buffer-Holds r b v h = append_all-Holds (pieces r) b v h
