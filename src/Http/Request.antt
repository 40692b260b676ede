-- ===== src/Http/Request.antt =====
-- muduo/net/http/HttpRequest.h. A range of characters is the list of its bytes.
use rfcs.Common.{
  ℕ, Bool, true, false, not, ◌&&◌, ◌||◌, [], ◌∷◌, Option, some, none, leb, ◌==◌, if◌then◌else◌,
  ◌>>◌, assert,
}
use Prim.Native.String.{String}
use Prim.Native.Char.{code}
use rfcs.Http.StringMap.{Bytes, StringMap, same}
use rfcs.Http.StringMap

-- The bytes of an ASCII literal.
abbrev pub codes : String → Bytes
codes String.[] = []
codes (String.◌∷◌ c s) = code c ∷ codes s

pub data Method : Type 0 where
  invalid get post head put delete : Method

pub data Version : Type 0 where
  unknown http10 http11 : Version

-- `receiveTime_` is the count of microseconds in the `Timestamp`.
pub record HttpRequest : Type 0 where
  pub method : Method
  pub version : Version
  pub path : Bytes
  pub query : Bytes
  pub receive_time : ℕ
  pub headers : StringMap

abbrev pub init : HttpRequest
init = record {
  method = invalid;
  version = unknown;
  path = [];
  query = [];
  receive_time = 0;
  headers = [];
}

abbrev pub is_invalid : Method → Bool
is_invalid invalid = true
is_invalid _ = false

unfoldable pub method_of : Bytes → Method
method_of m =
    if same m (codes "GET")
    then get
    else if same m (codes "POST")
    then post
    else if same m (codes "HEAD")
    then head
    else if same m (codes "PUT")
    then put
    else if same m (codes "DELETE")
    then delete
    else invalid

-- `assert(method_ == kInvalid)` comes first.
unfoldable pub set_method : HttpRequest → Bytes → Option (Bool × HttpRequest)
set_method r m = do
  assert (is_invalid r.method)
  some (not (is_invalid (method_of m)), record r { method = method_of m })

unfoldable pub method_string : HttpRequest → Bytes
method_string r = elim r.method [
  | get ↦ codes "GET"
  | post ↦ codes "POST"
  | head ↦ codes "HEAD"
  | put ↦ codes "PUT"
  | delete ↦ codes "DELETE"
  | invalid ↦ codes "UNKNOWN"
]

-- `isspace` of the C locale
abbrev pub is_space : ℕ → Bool
is_space c = (c == b' ') || (leb 9 c && leb c 13)

unfoldable pub skip_spaces : Bytes → Bytes
skip_spaces [] = []
skip_spaces (c ∷ s) = let rest = skip_spaces s in if is_space c then rest else c ∷ s

all_spaces : Bytes → Bool
all_spaces [] = true
all_spaces (c ∷ s) = is_space c && all_spaces s

-- the second loop of `addHeader`, which drops white space from the end
unfoldable pub trim_end : Bytes → Bytes
unfolding all_spaces
trim_end [] = []
trim_end (c ∷ s) = let rest = c ∷ trim_end s in if all_spaces (c ∷ s) then [] else rest

-- `field` stands before the colon and `after` behind it.
unfoldable pub add_header : HttpRequest → Bytes → Bytes → HttpRequest
unfolding skip_spaces trim_end
add_header r field after = record r {
  headers = StringMap.insert field (trim_end (skip_spaces after)) r.headers;
}

-- The empty string where the field is missing.
unfoldable pub get_header : HttpRequest → Bytes → Bytes
get_header r field = elim (StringMap.find field r.headers) [ none ↦ [] | some v ↦ v ]
