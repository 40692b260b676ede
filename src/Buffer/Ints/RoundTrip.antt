-- ===== src/Buffer/Ints/RoundTrip.antt =====
-- Integers that were written to a buffer are read back.
use rfcs.Common.{
  ℕ, zero, suc, ◌+◌, ◌*◌, ◌/◌, ◌%◌, ◌^◌, ◌≤◌, ◌<◌, ◌≡◌, refl, sym, ap, ◌∙◌, List, [], ◌∷◌, ◌++◌,
  Option, some, arith, le→leb, length, length-append, drop, take, take-append_at, drop-append_at,
  take-take_le, append-nil, ◌>>=◌,
}
use rfcs.Buffer.{
  Buffer, readable_bytes, bytes_at, peek, retrieve, append, prepend, max_size, prependable_bytes,
}
use rfcs.Buffer.Valid.{IsValid, Gives, contents, length-contents}
use rfcs.Buffer.Contents.{retrieve-Holds, append-Holds, prepend-Holds}
use rfcs.Buffer.Ints.{
  to_network, from_network, peek_int, Width, int64, int32, int16, int8, size_of, append_int,
  prepend_int, read_int, peek_int32,
}

pub length-to_network : (size x : ℕ) → length (to_network size x) ≡ size
unfolding to_network
length-to_network zero x = refl
length-to_network (suc size) x = omega (
  arith,
  length-append (to_network size (x / 256)) ((x % 256) ∷ []),
  length-to_network size (x / 256),
)

from_network-append :
    (acc : ℕ) (xs : List ℕ) (y : ℕ)
    → from_network acc (xs ++ y ∷ []) ≡ from_network acc xs * 256 + y
unfolding from_network
from_network-append acc [] y = refl
from_network-append acc (x ∷ xs) y = from_network-append (acc * 256 + x) xs y

-- The largest number that `size` bytes hold, plus one.
abbrev pub limit : ℕ → ℕ
limit zero = 1
limit (suc size) = 256 * limit size

pub from_network-to_network : (size x : ℕ) → x < limit size → from_network 0 (to_network size x) ≡ x
unfolding to_network from_network
from_network-to_network zero x h = omega arith
from_network-to_network (suc size) x h = omega (
  arith,
  from_network-append 0 (to_network size (x / 256)) (x % 256),
  from_network-to_network size (x / 256) (omega arith),
)

module _ (size x : ℕ) (b : Buffer) (v : IsValid b) (rest : List ℕ) (fits : x < limit size)
    (starts : contents b ≡ to_network size x ++ rest) where
  enough : size ≤ readable_bytes b
  enough = omega (
    arith,
    length-contents b v,
    ap length starts,
    length-append (to_network size x) rest,
    length-to_network size x,
  )

  first_bytes : bytes_at b (peek b) size ≡ to_network size x
  first_bytes =
      sym (take-take_le size (readable_bytes b) (drop b.reader_index b.bytes) enough)
      ∙ ap (take size) starts
      ∙ take-append_at size (to_network size x) rest (sym (length-to_network size x))

  peek_int-eq : peek_int size b ≡ some x
  unfolding peek_int
  peek_int-eq = rw (le→leb _ _ enough, first_bytes, from_network-to_network size x fits) refl

  -- Reading an integer of `size` bytes: its value comes back, and its bytes are consumed.
  read_int-Gives : Gives (peek_int size b >>= λ y. retrieve b size >>= λ b'. some (y, b')) x rest
  read_int-Gives =
      let h = retrieve-Holds b v size enough in
      record {
        buffer = h.buffer;
        returns = rw (peek_int-eq, h.returns) refl;
        valid = h.valid;
        holds =
            h.holds
            ∙ ap (drop size) starts
            ∙ drop-append_at size (to_network size x) rest (sym (length-to_network size x));
      }

-- The length in front of a message.
pub peek_int32-eq :
    (x : ℕ) (b : Buffer) (rest : List ℕ)
    → IsValid b
    → x < 2 ^ 32
    → contents b ≡ to_network 4 x ++ rest
    → peek_int32 b ≡ some x
unfolding peek_int32
peek_int32-eq x b rest v h starts = peek_int-eq 4 x b v rest (omega arith) starts

module _ (size x : ℕ) (b : Buffer) (v : IsValid b) (fits : x < limit size) where
  read : Buffer → Option (ℕ × Buffer)
  read b' = peek_int size b' >>= λ y. retrieve b' size >>= λ b''. some (y, b'')

  prepend_int-Gives :
      size ≤ prependable_bytes b → Gives (prepend b (to_network size x) >>= read) x (contents b)
  unfolding read
  prepend_int-Gives room =
      let p = prepend-Holds b v (to_network size x) (omega (arith, length-to_network size x)) in
      rw p.returns (read_int-Gives size x p.buffer p.valid (contents b) fits p.holds)

  append_int-Gives :
      b.writer_index + size ≤ max_size
      → Gives (append b (to_network size x) >>= λ b'. retrieve b' (readable_bytes b) >>= read) x []
  unfolding read
  append_int-Gives room =
      let (a, _) = append-Holds b (to_network size x) v (omega (arith, length-to_network size x)) in
      let r = retrieve-Holds a.buffer a.valid (readable_bytes b) (
        omega (
          arith,
          length-contents a.buffer a.valid,
          length-contents b v,
          ap length a.holds,
          length-append (contents b) (to_network size x),
        )) in
      let left : contents r.buffer ≡ to_network size x ++ [] =
        r.holds
        ∙ ap (drop (readable_bytes b)) a.holds
        ∙ drop-append_at (readable_bytes b) (contents b) (to_network size x)
            (sym (length-contents b v))
        ∙ sym (append-nil _) in
      rw (a.returns, r.returns) (read_int-Gives size x r.buffer r.valid [] fits left)

-- An integer of the width `w` that is put in front of the contents of a valid buffer, where there is
-- room for it, is what the next read returns, and the contents are left as they were.
pub read-prepend_int :
    (w : Width) (b : Buffer) (x : ℕ)
    → IsValid b
    → x < 2 ^ (8 * size_of w)
    → size_of w ≤ prependable_bytes b
    → Gives (prepend_int w b x >>= read_int w) x (contents b)
unfolding prepend_int read_int read peek_int
read-prepend_int int64 b x v fits = prepend_int-Gives 8 x b v fits
read-prepend_int int32 b x v fits = prepend_int-Gives 4 x b v fits
read-prepend_int int16 b x v fits = prepend_int-Gives 2 x b v fits
read-prepend_int int8 b x v fits = prepend_int-Gives 1 x b v fits

-- An integer of the width `w` that is appended to a valid buffer, where the vector may hold it, is
-- what a read returns once the bytes before it are retrieved, and the buffer is then empty.
pub read-append_int :
    (w : Width) (b : Buffer) (x : ℕ)
    → IsValid b
    → x < 2 ^ (8 * size_of w)
    → b.writer_index + size_of w ≤ max_size
    → Gives (append_int w b x >>= λ b'. retrieve b' (readable_bytes b) >>= read_int w) x []
unfolding append_int read_int read peek_int
read-append_int int64 b x v fits = append_int-Gives 8 x b v fits
read-append_int int32 b x v fits = append_int-Gives 4 x b v fits
read-append_int int16 b x v fits = append_int-Gives 2 x b v fits
read-append_int int8 b x v fits = append_int-Gives 1 x b v fits
