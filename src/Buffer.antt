-- ===== src/Buffer.antt =====
-- muduo/net/Buffer.h: the byte buffer between the sockets and the callbacks.
-- A pointer into the buffer is its offset from `begin()`. `none` is a failed assertion or the
-- `length_error` of a vector that would grow past `max_size()`.
pub mod Valid
pub mod Slices
pub mod Append
pub mod Space
pub mod Contents
pub mod Ints
pub mod ReadFd
pub mod Search
pub mod Calls
pub mod Refine
mod Tests
use rfcs.Common.{
  ℕ, ◌+◌, ◌-◌, ◌%◌, ◌^◌, List, [], ◌++◌, Option, none, some, ltb, leb, ◌==◌, if◌then◌else◌, length,
  take, drop, replicate, ◌>>=◌, ◌>>◌, assert,
}

-- `size_t` arithmetic
abbrev pub add_size : ℕ → ℕ → ℕ
add_size a b = (a + b) % 2 ^ 64

abbrev pub sub_size : ℕ → ℕ → ℕ
sub_size a b = (a + 2 ^ 64 - b) % 2 ^ 64

-- The bytes are `buffer_`, a `std::vector<char>`.
pub record Buffer : Type 0 where
  pub bytes : List ℕ
  pub reader_index : ℕ
  pub writer_index : ℕ

abbrev pub cheap_prepend : ℕ
cheap_prepend = 8

abbrev pub initial_size : ℕ
initial_size = 1024

-- `std::vector<char>::max_size()`
abbrev pub max_size : ℕ
max_size = 2 ^ 63 - 1

-- `std::vector<char>::resize(n)` for an `n` that is not below the size
pub resize : List ℕ → ℕ → Option (List ℕ)
resize bs n = if ltb max_size n then none else some (bs ++ replicate (n - length bs) 0)

-- `std::copy` of `src` to the offset `at`
pub copy_to : ℕ → List ℕ → List ℕ → List ℕ
copy_to at src bs = take at bs ++ (src ++ drop (at + length src) bs)

abbrev pub readable_bytes : Buffer → ℕ
readable_bytes b = sub_size b.writer_index b.reader_index

abbrev pub writable_bytes : Buffer → ℕ
writable_bytes b = sub_size (length b.bytes) b.writer_index

abbrev pub prependable_bytes : Buffer → ℕ
prependable_bytes b = b.reader_index

abbrev pub peek : Buffer → ℕ
peek b = b.reader_index

abbrev pub begin_write : Buffer → ℕ
begin_write b = b.writer_index

-- The `len` bytes from the offset `from` on.
abbrev pub bytes_at : Buffer → ℕ → ℕ → List ℕ
bytes_at b from len = take len (drop from b.bytes)

-- The constructor. Its three assertions are stated in `Buffer.Valid`.
unfoldable pub init : ℕ → Option Buffer
unfolding resize
init n = do
  bs ← resize [] (add_size cheap_prepend n)
  some (record { bytes = bs; reader_index = cheap_prepend; writer_index = cheap_prepend })

unfoldable pub swap : Buffer → Buffer → Buffer × Buffer
swap b rhs = (rhs, b)

unfoldable pub retrieve_all : Buffer → Buffer
retrieve_all b = record b { reader_index = cheap_prepend; writer_index = cheap_prepend }

unfoldable pub retrieve : Buffer → ℕ → Option Buffer
unfolding retrieve_all
retrieve b len = do
  assert (leb len (readable_bytes b))
  some (
      if ltb len (readable_bytes b)
      then record b { reader_index = add_size b.reader_index len }
      else retrieve_all b)

unfoldable pub retrieve_until : Buffer → ℕ → Option Buffer
retrieve_until b end = do
  assert (leb (peek b) end)
  assert (leb end (begin_write b))
  retrieve b (end - peek b)

unfoldable pub retrieve_as_string : Buffer → ℕ → Option (List ℕ × Buffer)
retrieve_as_string b len = do
  assert (leb len (readable_bytes b))
  b' ← retrieve b len
  some (bytes_at b (peek b) len, b')

unfoldable pub retrieve_all_as_string : Buffer → Option (List ℕ × Buffer)
retrieve_all_as_string b = retrieve_as_string b (readable_bytes b)

-- A `StringPiece` has an `int` for its length: `none` where the cast makes it negative.
unfoldable pub to_string_piece : Buffer → Option (List ℕ)
to_string_piece b =
    let len = readable_bytes b % 2 ^ 32 in
    if ltb len (2 ^ 31) then some (bytes_at b (peek b) len) else none

unfoldable pub has_written : Buffer → ℕ → Option Buffer
has_written b len = do
  assert (leb len (writable_bytes b))
  some (record b { writer_index = add_size b.writer_index len })

unfoldable pub unwrite : Buffer → ℕ → Option Buffer
unwrite b len = do
  assert (leb len (readable_bytes b))
  some (record b { writer_index = sub_size b.writer_index len })

-- Either the vector grows, or the readable bytes move to the front.
make_space : Buffer → ℕ → Option Buffer
unfolding resize copy_to
make_space b len =
    if ltb (add_size (writable_bytes b) (prependable_bytes b)) (add_size len cheap_prepend)
    then (resize b.bytes (add_size b.writer_index len) >>= λ bs. some (record b { bytes = bs }))
    else (do
      assert (ltb cheap_prepend b.reader_index)
      let readable = readable_bytes b
      let moved = record b {
        bytes = copy_to cheap_prepend (bytes_at b b.reader_index readable) b.bytes;
        reader_index = cheap_prepend;
        writer_index = add_size cheap_prepend readable;
      }
      assert (readable == readable_bytes moved)
      some moved)

pub ensure_writable_bytes : Buffer → ℕ → Option Buffer
unfolding make_space
ensure_writable_bytes b len = do
  b' ← if ltb (writable_bytes b) len then make_space b len else some b
  assert (leb len (writable_bytes b'))
  some b'

pub append : Buffer → List ℕ → Option Buffer
unfolding copy_to has_written
append b src = do
  b' ← ensure_writable_bytes b (length src)
  has_written (record b' { bytes = copy_to (begin_write b') src b'.bytes }) (length src)

unfoldable pub prepend : Buffer → List ℕ → Option Buffer
unfolding copy_to
prepend b src = do
  assert (leb (length src) (prependable_bytes b))
  let reader = sub_size b.reader_index (length src)
  some (record b { bytes = copy_to reader src b.bytes; reader_index = reader })

pub shrink : Buffer → ℕ → Option Buffer
shrink b reserve = do
  other ← init initial_size
  other ← ensure_writable_bytes other (add_size (readable_bytes b) reserve)
  piece ← to_string_piece b
  other ← append other piece
  some (swap b other).0
