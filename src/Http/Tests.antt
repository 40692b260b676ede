-- ===== src/Http/Tests.antt =====
-- Tests of the HTTP parser, and its theorems at concrete inputs.
use rfcs.Common.{◌+◌, ◌≡◌, refl, true, [], ◌∷◌, ◌++◌, arith, length, take, some, false}
use rfcs.Buffer.{Buffer}
use rfcs.Buffer.Valid.{IsValid}
use rfcs.Buffer.Search.{search_crlf, find_byte}
use rfcs.Http.StringMap.{Bytes, same, insert}
use rfcs.Http.Request
use rfcs.Http.Request.{
  HttpRequest, Method, invalid, codes, get, http11, set_method, method_of, add_header,
}
use rfcs.LogStream.{reverse}
use rfcs.Http.Response
use rfcs.Http.Response.{
  pieces, text_of, set_status_code, set_status_message, set_close_connection, set_body,
}
use rfcs.Http.Server.{default_http_callback}
use rfcs.Http.Context.{
  init, done, asserts, got_all, parse_request, header_line, process_request_line, set_target,
  version_of,
}
use rfcs.Http.Context.Text.{
  parse_text, text_round, text_request_line, text_headers, text_request_line_done,
  text_headers_done,
}
use rfcs.Http.Context.Termination.{at_start, Returns, parse_request-Returns}
use rfcs.Http.Context.Chunks.{parse, resume, erase, parse_request-chunks}
use rfcs.Http.Context.Refused.{parse_request_again}

abbrev line : Bytes
line = codes "GET /a?b HTTP/1.1" ++ (13 ∷ 10 ∷ [])

abbrev headers : Bytes
headers = codes "Host: x y " ++ (13 ∷ 10 ∷ 13 ∷ 10 ∷ [])

abbrev holding : Bytes → Buffer
holding text = record {
  bytes = 0 ∷ 0 ∷ 0 ∷ 0 ∷ 0 ∷ 0 ∷ 0 ∷ 0 ∷ text;
  reader_index = 8;
  writer_index = 8 + length text;
}

parsed :
    parse 5 (line ++ headers) init
    ≡ done true [] (record {
      state = got_all;
      request = record {
        method = get;
        version = http11;
        path = codes "/a";
        query = codes "?b";
        receive_time = 5;
        headers = (codes "Host", codes "x y") ∷ [];
      };
    })
unfolding parse parse_text text_round text_request_line text_headers search_crlf find_byte
    process_request_line set_method method_of set_target version_of same add_header insert
    header_line text_request_line_done text_headers_done
parsed = refl

line-IsValid : IsValid (holding line)
line-IsValid = omega arith

whole-IsValid : IsValid (holding (line ++ headers))
whole-IsValid = omega arith

parse_request-Returns_example : Returns (parse_request 5 (holding line) init)
parse_request-Returns_example =
    parse_request-Returns 5 (holding line) init line-IsValid (at_start init refl refl)

parse_request-chunks_example :
    erase (parse_request 5 (holding (line ++ headers)) init)
    ≡ resume 5 headers (erase (parse_request 5 (holding line) init))
parse_request-chunks_example =
    parse_request-chunks 5 (holding line) (holding (line ++ headers)) init headers line-IsValid
      whole-IsValid refl (at_start init refl refl)

-- A request line without its version.
abbrev refused_line : Bytes
refused_line = codes "GET / X" ++ (13 ∷ 10 ∷ [])

refused_line-IsValid : IsValid (holding refused_line)
refused_line-IsValid = omega arith

refused_whole-IsValid : IsValid (holding (refused_line ++ line))
refused_whole-IsValid = omega arith

abbrev refused : HttpRequest
refused = record Request.init { method = get; path = codes "/" }

refused_line-refused :
    (search_crlf refused_line ≡ some 7)
    × (process_request_line Request.init (take 7 refused_line) ≡ some (false, refused))
unfolding search_crlf find_byte process_request_line set_method method_of set_target version_of same
refused_line-refused = (refl, refl)

parse_request_again_example :
    (erase (parse_request 5 (holding refused_line) init)
      ≡ done false refused_line (record init { request = refused }))
    × (erase (parse_request 6 (holding (refused_line ++ line)) (record init { request = refused }))
        ≡ asserts)
parse_request_again_example =
    parse_request_again 5 6 7 (holding refused_line) (holding (refused_line ++ line)) init refused
      line refused_line-IsValid refused_whole-IsValid refl refl refused_line-refused.0
      refused_line-refused.1 (ground arith) refl

-- The answer of a server without a callback, and the printing of a body of 12 bytes.
not_found :
    text_of (pieces (default_http_callback Request.init (Response.init false)))
    ≡ codes "HTTP/1.1 404 Not Found"
      ++ (13 ∷ 10 ∷ (codes "Connection: close" ++ (13 ∷ 10 ∷ 13 ∷ 10 ∷ [])))
unfolding pieces default_http_callback set_status_code set_status_message set_close_connection
    reverse Response.init
not_found = refl

content_length :
    text_of (pieces (set_body (codes "Hello world!") (set_status_code 200 (Response.init false))))
    ≡ codes "HTTP/1.1 200 "
      ++ (13
          ∷ 10
          ∷ (codes "Content-Length: 12"
              ++ (13
                  ∷ 10
                  ∷ (codes "Connection: Keep-Alive"
                      ++ (13 ∷ 10 ∷ 13 ∷ 10 ∷ codes "Hello world!")))))
unfolding pieces set_body set_status_code reverse Response.init
content_length = refl
