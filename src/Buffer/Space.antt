-- ===== src/Buffer/Space.antt =====
-- `makeSpace` and `ensureWritableBytes`: room is found or made, and no readable byte is lost.
use rfcs.Common.{
  ℕ, ◌+◌, ◌-◌, ◌≤◌, ◌<◌, ◌≡◌, refl, List, ◌++◌, Option, some, arith, lt→ltb, le→leb, dec_lt, length,
  drop, replicate, length-append, length-replicate, length-drop, take-append_le, drop-append_le,
}
use rfcs.Buffer.{
  Buffer, cheap_prepend, max_size, readable_bytes, writable_bytes, resize, copy_to, make_space,
  ensure_writable_bytes,
}
use rfcs.Buffer.Valid.{IsValid, contents, length-contents}
use rfcs.Buffer.Slices.{length-copy_to, slice-copy_to}

-- What a call that makes room for `len` more bytes does to `b`.
pub record MadeRoom (b : Buffer) (len : ℕ) (r : Option Buffer) : Type 0 where
  pub buffer : Buffer
  pub returns : r ≡ some buffer
  pub valid : IsValid buffer
  pub holds : contents buffer ≡ contents b
  pub room : len ≤ writable_bytes buffer
  pub writer_le : buffer.writer_index ≤ b.writer_index
  pub reader_ge : (k : ℕ) → k ≤ cheap_prepend → k ≤ b.reader_index → k ≤ buffer.reader_index
  pub size_kept :
      cheap_prepend + readable_bytes b + len ≤ length b.bytes → length buffer.bytes ≡ length b.bytes

module _ (b : Buffer) (len : ℕ) (v : IsValid b) (fits : b.writer_index + len ≤ max_size) where
  zeros : List ℕ
  zeros = replicate (b.writer_index + len - length b.bytes) 0

  grown : Buffer
  unfolding zeros
  grown = record b { bytes = b.bytes ++ zeros }

  moved : Buffer
  moved = record b {
    bytes = copy_to cheap_prepend (contents b) b.bytes;
    reader_index = cheap_prepend;
    writer_index = cheap_prepend + readable_bytes b;
  }

  length-grown : writable_bytes b < len → length grown.bytes ≡ b.writer_index + len
  unfolding grown zeros
  length-grown short =
      let n = b.writer_index + len - length b.bytes in
      omega (arith, length-append b.bytes zeros, length-replicate {A = ℕ} n 0)

  reader_inside : b.reader_index ≤ length b.bytes
  reader_inside = omega arith

  readable_inside : readable_bytes b ≤ length (drop b.reader_index b.bytes)
  readable_inside = omega (arith, length-drop b.reader_index b.bytes)

  contents-grown : contents grown ≡ contents b
  unfolding grown zeros
  contents-grown =
      rw (drop-append_le b.reader_index b.bytes zeros reader_inside)
        (take-append_le _ (drop b.reader_index b.bytes) zeros readable_inside)

  grow :
      writable_bytes b < len
      → b.reader_index + writable_bytes b < len + cheap_prepend
      → make_space b len ≡ some grown
  unfolding make_space resize grown
  grow short tight = ground arith

  grow-MadeRoom :
      writable_bytes b < len
      → b.reader_index + writable_bytes b < len + cheap_prepend
      → MadeRoom b len (make_space b len)
  unfolding grown
  grow-MadeRoom short tight =
      let size = length-grown short in
      record {
        buffer = grown;
        returns = grow short tight;
        valid = record {
          roomy = omega arith;
          limited = omega arith;
          ordered = v.ordered;
          inside = omega arith;
        };
        holds = contents-grown;
        room = omega arith;
        writer_le = omega arith;
        reader_ge = λ k few at. at;
        size_kept = λ loose. absurd (omega arith);
      }

  module _ (short : writable_bytes b < len)
      (loose : len + cheap_prepend ≤ b.reader_index + writable_bytes b) where
    contents_fit : cheap_prepend + length (contents b) ≤ length b.bytes
    contents_fit = omega (arith, length-contents b v)

    contents-moved : contents moved ≡ contents b
    unfolding moved
    contents-moved =
        let e : readable_bytes moved ≡ length (contents b) = omega (arith, length-contents b v) in
        rw e (slice-copy_to cheap_prepend (contents b) b.bytes contents_fit)

    move : make_space b len ≡ some moved
    unfolding make_space moved
    move = ground arith

    move-MadeRoom : MadeRoom b len (make_space b len)
    unfolding moved
    move-MadeRoom =
        let size = length-copy_to cheap_prepend (contents b) b.bytes contents_fit in
        record {
          buffer = moved;
          returns = move;
          valid = record {
            roomy = omega arith;
            limited = omega arith;
            ordered = omega arith;
            inside = omega arith;
          };
          holds = contents-moved;
          room = omega arith;
          writer_le = omega arith;
          reader_ge = λ k few at. few;
          size_kept = λ _. size;
        }

  make_space-MadeRoom : writable_bytes b < len → MadeRoom b len (make_space b len)
  make_space-MadeRoom short =
      elim (dec_lt (b.reader_index + writable_bytes b) (len + cheap_prepend)) [
        | yes tight ↦ grow-MadeRoom short tight
        | no loose ↦ move-MadeRoom short (omega arith)
      ]

  -- `ensureWritableBytes` returns, with room for `len` bytes, the same contents, and a vector that
  -- grows only if the readable bytes, `len` more and the prepend area do not fit into it.
  pub ensure_writable_bytes-MadeRoom : MadeRoom b len (ensure_writable_bytes b len)
  unfolding ensure_writable_bytes
  ensure_writable_bytes-MadeRoom = elim (dec_lt (writable_bytes b) len) [
    | yes short ↦
        let m = make_space-MadeRoom short in
        record {
          buffer = m.buffer;
          returns = rw (lt→ltb _ _ short, m.returns, le→leb _ _ m.room) refl;
          valid = m.valid;
          holds = m.holds;
          room = m.room;
          writer_le = m.writer_le;
          reader_ge = m.reader_ge;
          size_kept = m.size_kept;
        }
    | no enough ↦ record {
      buffer = b;
      returns = ground arith;
      valid = v;
      holds = refl;
      room = omega arith;
      writer_le = omega arith;
      reader_ge = λ k few at. at;
      size_kept = λ _. refl;
    }
  ]
