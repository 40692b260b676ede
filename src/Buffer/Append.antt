-- ===== src/Buffer/Append.antt =====
-- Bytes written behind the contents, with the room in front that the buffer keeps.
use rfcs.Common.{ℕ, ◌+◌, ◌≤◌, ap, ◌∙◌, List, ◌++◌, Option, arith, length, ◌>>=◌}
use rfcs.Buffer.{
  Buffer, cheap_prepend, max_size, begin_write, copy_to, append, has_written, writable_bytes,
  ensure_writable_bytes,
}
use rfcs.Buffer.Valid.{IsValid, Holds, contents}
use rfcs.Buffer.Space.{ensure_writable_bytes-MadeRoom}
use rfcs.Buffer.Contents.{filled, filled-IsValid, contents-filled, has_written-filled}

-- The bytes stand behind the contents, the writer moved by no more than their number, and what the
-- reserved area had in front it still has.
pub record Appended (b : Buffer) (src : List ℕ) (r : Option Buffer) : Type 0 where
  pub holds : Holds r (contents b ++ src)
  pub writer_le : holds.buffer.writer_index ≤ b.writer_index + length src
  pub reader_ge : (k : ℕ) → k ≤ cheap_prepend → k ≤ b.reader_index → k ≤ holds.buffer.reader_index

pub write_behind-Appended :
    (b : Buffer) (src : List ℕ) (len : ℕ)
    → IsValid b
    → length src ≤ len
    → b.writer_index + len ≤ max_size
    → Appended b src (
        ensure_writable_bytes b len >>= λ b'.
        has_written (record b' { bytes = copy_to (begin_write b') src b'.bytes }) (length src))
unfolding filled
write_behind-Appended b src len v few h =
    let m = ensure_writable_bytes-MadeRoom b len v h in
    let room : length src ≤ writable_bytes m.buffer = omega (arith, m.room) in
    rw m.returns (record {
      holds = record {
        buffer = filled m.buffer m.valid src room;
        returns = has_written-filled m.buffer m.valid src room;
        valid = filled-IsValid m.buffer m.valid src room;
        holds = contents-filled m.buffer m.valid src room ∙ ap (λ c. c ++ src) m.holds;
      };
      writer_le = omega (arith, m.writer_le);
      reader_ge = m.reader_ge;
    })

pub append-Appended :
    (b : Buffer) (src : List ℕ)
    → IsValid b
    → b.writer_index + length src ≤ max_size
    → Appended b src (append b src)
unfolding append
append-Appended b src v h = write_behind-Appended b src (length src) v (omega arith) h
