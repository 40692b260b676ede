-- ===== src/Buffer/Ints.antt =====
-- The integers of Buffer.h and Endian.h. A signed integer of w bits is its bit pattern, a number
-- below 2 ^ w; on the wire it is written with the most significant byte first.
pub mod RoundTrip
use rfcs.Common.{
  ℕ, zero, suc, ◌+◌, ◌*◌, ◌/◌, ◌%◌, ◌^◌, ◌≤◌, ◌<◌, ◌≡◌, refl, sym, ap, List, [], ◌∷◌, ◌++◌, Option,
  some, none, arith, leb, length, ◌>>=◌, ◌>>◌, assert,
}
use rfcs.Buffer.{Buffer, readable_bytes, bytes_at, peek, retrieve, append, prepend}

-- `hostToNetwork16/32/64` and the `memcpy` of the result: the bytes of `x`
unfoldable pub to_network : ℕ → ℕ → List ℕ
to_network zero x = []
to_network (suc size) x = to_network size (x / 256) ++ (x % 256) ∷ []

-- `memcpy` into an integer and `networkToHost16/32/64`
unfoldable pub from_network : ℕ → List ℕ → ℕ
from_network acc [] = acc
from_network acc (x ∷ xs) = from_network (acc * 256 + x) xs

pub append_int64 : Buffer → ℕ → Option Buffer
append_int64 b x = append b (to_network 8 x)

unfoldable pub append_int32 : Buffer → ℕ → Option Buffer
append_int32 b x = append b (to_network 4 x)

pub append_int16 : Buffer → ℕ → Option Buffer
append_int16 b x = append b (to_network 2 x)

pub append_int8 : Buffer → ℕ → Option Buffer
append_int8 b x = append b (to_network 1 x)

pub prepend_int64 : Buffer → ℕ → Option Buffer
prepend_int64 b x = prepend b (to_network 8 x)

pub prepend_int32 : Buffer → ℕ → Option Buffer
prepend_int32 b x = prepend b (to_network 4 x)

pub prepend_int16 : Buffer → ℕ → Option Buffer
prepend_int16 b x = prepend b (to_network 2 x)

pub prepend_int8 : Buffer → ℕ → Option Buffer
prepend_int8 b x = prepend b (to_network 1 x)

-- What the four `peekInt` have in common.
peek_int : ℕ → Buffer → Option ℕ
peek_int size b = do
  assert (leb size (readable_bytes b))
  some (from_network 0 (bytes_at b (peek b) size))

pub peek_int64 : Buffer → Option ℕ
unfolding peek_int
peek_int64 b = peek_int 8 b

pub peek_int32 : Buffer → Option ℕ
unfolding peek_int
peek_int32 b = peek_int 4 b

pub peek_int16 : Buffer → Option ℕ
unfolding peek_int
peek_int16 b = peek_int 2 b

pub peek_int8 : Buffer → Option ℕ
unfolding peek_int
peek_int8 b = peek_int 1 b

pub retrieve_int64 : Buffer → Option Buffer
retrieve_int64 b = retrieve b 8

pub retrieve_int32 : Buffer → Option Buffer
retrieve_int32 b = retrieve b 4

pub retrieve_int16 : Buffer → Option Buffer
retrieve_int16 b = retrieve b 2

pub retrieve_int8 : Buffer → Option Buffer
retrieve_int8 b = retrieve b 1

pub read_int64 : Buffer → Option (ℕ × Buffer)
unfolding peek_int64 retrieve_int64
read_int64 b = do result ← peek_int64 b; b' ← retrieve_int64 b; some (result, b')

pub read_int32 : Buffer → Option (ℕ × Buffer)
unfolding peek_int32 retrieve_int32
read_int32 b = do result ← peek_int32 b; b' ← retrieve_int32 b; some (result, b')

pub read_int16 : Buffer → Option (ℕ × Buffer)
unfolding peek_int16 retrieve_int16
read_int16 b = do result ← peek_int16 b; b' ← retrieve_int16 b; some (result, b')

pub read_int8 : Buffer → Option (ℕ × Buffer)
unfolding peek_int8 retrieve_int8
read_int8 b = do result ← peek_int8 b; b' ← retrieve_int8 b; some (result, b')

-- The four widths, to state what holds of each of them once.
pub data Width : Type 0 where
  int64 int32 int16 int8 : Width

abbrev pub size_of : Width → ℕ
size_of int64 = 8
size_of int32 = 4
size_of int16 = 2
size_of int8 = 1

pub append_int : Width → Buffer → ℕ → Option Buffer
unfolding append_int64 append_int32 append_int16 append_int8
append_int int64 = append_int64
append_int int32 = append_int32
append_int int16 = append_int16
append_int int8 = append_int8

pub prepend_int : Width → Buffer → ℕ → Option Buffer
unfolding prepend_int64 prepend_int32 prepend_int16 prepend_int8
prepend_int int64 = prepend_int64
prepend_int int32 = prepend_int32
prepend_int int16 = prepend_int16
prepend_int int8 = prepend_int8

pub read_int : Width → Buffer → Option (ℕ × Buffer)
unfolding read_int64 read_int32 read_int16 read_int8
read_int int64 = read_int64
read_int int32 = read_int32
read_int int16 = read_int16
read_int int8 = read_int8
