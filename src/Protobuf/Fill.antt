-- ===== src/Protobuf/Fill.antt =====
-- What `fillEmptyBuffer` leaves in the buffer.
use rfcs.Common.{
  subst, ◌%◌, ◌^◌, ◌<◌, lt→ltb, ◌+◌, ◌≤◌, ◌≡◌, sym, ap, ◌∙◌, true, [], ◌++◌, arith, length, ◌==◌,
  length-append,
}
use rfcs.Buffer.{Buffer, readable_bytes, bytes_at, peek, append, prepend, max_size}
use rfcs.Buffer.Valid.{IsValid, Holds, contents, length-contents}
use rfcs.Buffer.Contents.{prepend-Holds}
use rfcs.Buffer.Append.{Appended, append-Appended, write_behind-Appended}
use rfcs.Buffer.Ints.{to_network, append_int32}
use rfcs.Buffer.Ints.RoundTrip.{length-to_network}
use rfcs.Protobuf.{Codec, checksum_len, serialize_to_buffer, fill_empty_buffer}
use rfcs.Protobuf.Bodies.{tagged, body, frame}

module _ {Message : Type 0} (c : Codec Message) (m : Message) where
  serialize_to_buffer-Appended :
      (b : Buffer)
      → IsValid b
      → b.writer_index + (length (c.serialize m) + 4) ≤ max_size
      → length (c.serialize m) + 4 < 2 ^ 31
      → Appended b (c.serialize m) (serialize_to_buffer c m b)
  unfolding serialize_to_buffer
  serialize_to_buffer-Appended b v h int =
      rw (lt→ltb _ _ int)
        (write_behind-Appended b (c.serialize m) (length (c.serialize m) + 4) v (omega arith) h)

  -- The checksum of the contents, which an `int` measures.
  append_checksum-Appended :
      (b : Buffer)
      → IsValid b
      → contents b ≡ tagged c m
      → length (tagged c m) < 2 ^ 32
      → b.writer_index + 4 ≤ max_size
      → Appended b
          (to_network 4 (c.adler32 (tagged c m)))
          (append_int32 b (c.adler32 (bytes_at b (peek b) (readable_bytes b % 2 ^ 32))))
  unfolding append_int32
  append_checksum-Appended b v h word fits =
      let size : readable_bytes b % 2 ^ 32 ≡ readable_bytes b =
        omega (arith, length-contents b v, ap length h) in
      let all : bytes_at b (peek b) (readable_bytes b % 2 ^ 32) ≡ tagged c m =
        ap (bytes_at b (peek b)) size ∙ h in
      let src = to_network 4 (c.adler32 (tagged c m)) in
      subst (λ xs. Appended b src (append b (to_network 4 (c.adler32 xs)))) (sym all)
        (append-Appended b src v (omega (arith, length-to_network 4 (c.adler32 (tagged c m)))))

  prepend_length-Holds :
      (b : Buffer)
      → IsValid b
      → contents b ≡ body c m
      → length (body c m) < 2 ^ 32
      → 4 ≤ b.reader_index
      → Holds (prepend b (to_network 4 (readable_bytes b % 2 ^ 32))) (frame c m)
  prepend_length-Holds b v h word room =
      let size : readable_bytes b ≡ length (body c m) = sym (length-contents b v) ∙ ap length h in
      let n : readable_bytes b % 2 ^ 32 ≡ length (body c m) = omega (arith, size) in
      let p =
        prepend-Holds b v (to_network 4 (readable_bytes b % 2 ^ 32))
          (omega (arith, length-to_network 4 (readable_bytes b % 2 ^ 32))) in
      record {
        buffer = p.buffer;
        returns = p.returns;
        valid = p.valid;
        holds = p.holds ∙ (λ i. to_network 4 (n i) ++ h i);
      }

-- On a valid empty buffer with four bytes in front of its reader, when an `int` holds the length of
-- the tag, the message and the checksum, and the vector may hold them, `fillEmptyBuffer` returns, its assertions hold, and the contents are the frame of the message:
-- its length, the tag, the bytes of the message, and the checksum of these two.
pub fill_empty_buffer-Holds :
    {Message : Type 0} (c : Codec Message) (m : Message) (b : Buffer)
    → IsValid b
    → contents b ≡ []
    → 4 ≤ b.reader_index
    → length c.tag + length (c.serialize m) + 4 < 2 ^ 31
    → b.writer_index + length c.tag + length (c.serialize m) + 4 ≤ max_size
    → Holds (fill_empty_buffer c b m) (frame c m)
unfolding fill_empty_buffer
fill_empty_buffer-Holds c m b v empty front int fits =
    let none_readable : (readable_bytes b == 0) ≡ true =
      ground (arith, length-contents b v, ap length empty) in
    let a = append-Appended b c.tag v (omega arith) in
    let s =
      serialize_to_buffer-Appended c m a.holds.buffer a.holds.valid (omega (arith, a.writer_le))
        (omega arith) in
    let written : contents s.holds.buffer ≡ tagged c m =
      s.holds.holds
      ∙ ap (λ xs. xs ++ c.serialize m) (a.holds.holds ∙ ap (λ xs. xs ++ c.tag) empty) in
    let i =
      append_checksum-Appended c m s.holds.buffer s.holds.valid written
        (omega (arith, length-append c.tag (c.serialize m)))
        (omega (arith, s.writer_le, a.writer_le)) in
    let whole : contents i.holds.buffer ≡ body c m =
      i.holds.holds ∙ ap (λ xs. xs ++ to_network 4 (c.adler32 (tagged c m))) written in
    let front' =
      i.reader_ge 4 (omega arith)
        (s.reader_ge 4 (omega arith) (a.reader_ge 4 (omega arith) front)) in
    let word : length (body c m) < 2 ^ 32 = omega (
      arith,
      length-append (tagged c m) (to_network 4 (c.adler32 (tagged c m))),
      length-append c.tag (c.serialize m),
      length-to_network 4 (c.adler32 (tagged c m)),
    ) in
    let p = prepend_length-Holds c m i.holds.buffer i.holds.valid whole word front' in
    let count : (readable_bytes i.holds.buffer
          == length c.tag + length (c.serialize m) + checksum_len)
        ≡ true =
      ground (
        arith,
        length-contents i.holds.buffer i.holds.valid,
        ap length whole,
        length-append (tagged c m) (to_network 4 (c.adler32 (tagged c m))),
        length-append c.tag (c.serialize m),
        length-to_network 4 (c.adler32 (tagged c m)),
      ) in
    record {
      buffer = p.buffer;
      returns =
          rw (none_readable, a.holds.returns, s.holds.returns, i.holds.returns, count) p.returns;
      valid = p.valid;
      holds = p.holds;
    }
