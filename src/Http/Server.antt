-- ===== src/Http/Server.antt =====
-- muduo/net/http/HttpServer.cc: `onMessage` and `onRequest`. What the connection is told is recorded;
-- the callback of the user is an argument.
use rfcs.Common.{
  ℕ, ◌+◌, ◌≤◌, ◌≡◌, refl, Bool, true, false, not, ◌&&◌, ◌||◌, List, [], ◌∷◌, ◌++◌, Option, some,
  none, arith, if◌then◌else◌, length, ap, ◌∙◌, ◌>>=◌,
}
use rfcs.Buffer.{Buffer, initial_size, cheap_prepend, max_size, readable_bytes, bytes_at, peek}
use rfcs.Buffer
use rfcs.Buffer.Valid.{contents}
use rfcs.Buffer.Contents.{init-Holds}
use rfcs.Http.StringMap.{Bytes, same}
use rfcs.Http.Request.{HttpRequest, Version, http10, codes, get_header}
use rfcs.Http.Context.{HttpContext, done, asserts, out_of_fuel, parse_request, is_got_all, reset}
use rfcs.Http.Response.{
  HttpResponse, append_to_buffer, append_to_buffer-Holds, pieces, text_of, set_status_code,
  set_status_message, set_close_connection,
}
use rfcs.Http.Response

pub data Action : Type 0 where
  sends : Bytes → Action
  shuts_down : Action

abbrev pub HttpCallback : Type 0
HttpCallback = HttpRequest → HttpResponse → HttpResponse

-- `defaultHttpCallback`
unfoldable pub default_http_callback : HttpCallback
unfolding set_status_code set_status_message set_close_connection
default_http_callback req resp =
    set_close_connection true (set_status_message (codes "Not Found") (set_status_code 404 resp))

abbrev is_http10 : Version → Bool
is_http10 http10 = true
is_http10 _ = false

-- Whether the response is to close the connection.
unfoldable pub wants_close : HttpRequest → Bool
wants_close req =
    let connection = get_header req (codes "Connection") in
    same connection (codes "close")
    || (is_http10 req.version && not (same connection (codes "Keep-Alive")))

unfoldable pub on_request : HttpCallback → HttpRequest → Option (List Action)
on_request callback req = do
  let response = callback req (Response.init (wants_close req))
  buf ← Buffer.init initial_size
  buf ← append_to_buffer response buf
  some (
      sends (bytes_at buf (peek buf) (readable_bytes buf))
      ∷ (if response.close_connection then shuts_down ∷ [] else []))

-- "HTTP/1.1 400 Bad Request\r\n\r\n" and `shutdown`
abbrev pub bad_request : List Action
bad_request = sends (codes "HTTP/1.1 400 Bad Request" ++ 13 ∷ 10 ∷ 13 ∷ 10 ∷ []) ∷ shuts_down ∷ []

-- What follows the parse.
unfoldable pub after_parse :
    HttpCallback → Bool → Buffer → HttpContext → Option (List Action × Buffer × HttpContext)
after_parse callback ok buf context =
    let refused = if ok then [] else bad_request in
    if is_got_all context
    then (do
      actions ← on_request callback context.request
      some (refused ++ actions, buf, reset context))
    else some (refused, buf, context)

unfoldable pub on_message :
    HttpCallback → ℕ → Buffer → HttpContext → Option (List Action × Buffer × HttpContext)
on_message callback now buf context = elim (parse_request now buf context) [
  | done ok buf' context' ↦ after_parse callback ok buf' context'
  | asserts ↦ none
  | out_of_fuel ↦ none
]

-- Where the text of the response fits into a buffer, `onRequest` returns, and the connection is sent
-- the text and, where the response asks for it, shut down.
pub on_request-sends :
    (callback : HttpCallback) (req : HttpRequest) (response : HttpResponse)
    → callback req (Response.init (wants_close req)) ≡ response
    → cheap_prepend + initial_size + length (text_of (pieces response)) ≤ max_size
    → on_request callback req
      ≡ some (
          sends (text_of (pieces response))
          ∷ (if response.close_connection then shuts_down ∷ [] else []))
unfolding on_request
on_request-sends callback req response e h =
    let (fresh, unread, _, front) = init-Holds initial_size (omega arith) in
    let p =
      append_to_buffer-Holds response fresh.buffer fresh.valid
        (omega (arith, h, unread, front, fresh.valid.ordered)) in
    let text : contents p.buffer ≡ text_of (pieces response) =
      p.holds ∙ ap (λ xs. xs ++ text_of (pieces response)) fresh.holds in
    rw (e, fresh.returns, p.returns, text) refl
