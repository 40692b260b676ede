-- ===== src/Buffer/Contents.antt =====
-- What each operation of `Buffer` does to the bytes that a reader sees.
use rfcs.Common.{
  ℕ, ◌+◌, ◌-◌, ◌≤◌, ◌≡◌, refl, sym, ap, ap₂, ◌∙◌, List, [], ◌++◌, some, arith, dec_lt, length, take,
  drop, replicate, length-replicate, drop-drop, drop-take, take-take_le,
}
use rfcs.Buffer.{
  Buffer, cheap_prepend, max_size, readable_bytes, writable_bytes, add_size, sub_size,
  prependable_bytes, bytes_at, copy_to, init, retrieve_all, retrieve, has_written, unwrite, append,
  prepend,
}
use rfcs.Buffer.Valid.{IsValid, Holds, contents}
use rfcs.Buffer.Slices.{length-copy_to, drop-copy_to, slice-copy_to_le, take-append_add}
use rfcs.Buffer.Space.{ensure_writable_bytes-MadeRoom}

-- The constructor gives an empty buffer with `n` writable bytes, and its assertions hold.
pub init-Holds :
    (n : ℕ)
    → cheap_prepend + n ≤ max_size
    → (h : Holds (init n) []) × (readable_bytes h.buffer ≡ 0)
      × (writable_bytes h.buffer ≡ n)
      × (prependable_bytes h.buffer ≡ cheap_prepend)
unfolding init
init-Holds n h = (
  record { buffer = fresh; returns = ground arith; valid = omega (arith, size); holds = refl },
  refl,
  omega (arith, size),
  refl,
)
  where
    bytes : List ℕ
    bytes = replicate (add_size cheap_prepend n) 0

    fresh : Buffer
    fresh = record { bytes = bytes; reader_index = cheap_prepend; writer_index = cheap_prepend }

    size : length bytes ≡ cheap_prepend + n
    size = omega (arith, length-replicate {A = ℕ} (add_size cheap_prepend n) 0)

module _ (b : Buffer) (v : IsValid b) where
  pub retrieve_all-Holds : Holds (some (retrieve_all b)) []
  unfolding retrieve_all
  retrieve_all-Holds = record {
    buffer = retrieve_all b;
    returns = refl;
    valid = omega arith;
    holds = refl;
  }

  pub drop-contents :
      (len : ℕ) → drop len (contents b) ≡ bytes_at b (b.reader_index + len) (readable_bytes b - len)
  drop-contents len =
      drop-take len _ _ ∙ ap (take (readable_bytes b - len)) (drop-drop len b.reader_index b.bytes)

  pub drop_all_contents : drop (readable_bytes b) (contents b) ≡ []
  drop_all_contents =
      drop-contents (readable_bytes b)
      ∙ (let e : readable_bytes b - readable_bytes b ≡ 0 = omega arith in rw e refl)

  pub retrieve-Holds :
      (len : ℕ) → len ≤ readable_bytes b → Holds (retrieve b len) (drop len (contents b))
  unfolding retrieve retrieve_all
  retrieve-Holds len h = elim (dec_lt len (readable_bytes b)) [
    | yes less ↦ record {
      buffer = rest;
      returns = ground arith;
      valid = omega arith;
      holds = ap₂ (bytes_at b) (omega arith) (omega arith) ∙ sym (drop-contents len);
    }
    | no all ↦
        let e : len ≡ readable_bytes b = omega arith in
        let none_left : drop len (contents b) ≡ [] =
          ap (λ k. drop k (contents b)) e ∙ drop_all_contents in
        rw none_left (record {
          buffer = retrieve_all b;
          returns = ground arith;
          valid = omega arith;
          holds = refl;
        })
  ]
    where
      rest : Buffer
      rest = record b { reader_index = add_size b.reader_index len }

  -- `unwrite` takes back the last bytes.
  pub unwrite-Holds :
      (len : ℕ)
      → len ≤ readable_bytes b
      → Holds (unwrite b len) (take (readable_bytes b - len) (contents b))
  unfolding unwrite
  unwrite-Holds len h = record {
    buffer = shorter;
    returns = ground arith;
    valid = omega arith;
    holds =
        ap (bytes_at b b.reader_index) (omega arith)
        ∙ sym (
            take-take_le (readable_bytes b - len) (readable_bytes b) (drop b.reader_index b.bytes)
              (omega arith));
  }
    where
      shorter : Buffer
      shorter = record b { writer_index = sub_size b.writer_index len }

  pub prepend-Holds :
      (src : List ℕ) → length src ≤ prependable_bytes b → Holds (prepend b src) (src ++ contents b)
  unfolding prepend
  prepend-Holds src h = record {
    buffer = longer;
    returns = ground arith;
    valid = omega (arith, size);
    holds =
        rw (drop-copy_to at src b.bytes fits, meets)
          (take-append_add (readable_bytes b) _ src (drop b.reader_index b.bytes) (omega arith));
  }
    where
      at : ℕ
      at = sub_size b.reader_index (length src)

      fits : at + length src ≤ length b.bytes
      fits = omega arith

      meets : at + length src ≡ b.reader_index
      meets = omega arith

      size : length (copy_to at src b.bytes) ≡ length b.bytes
      size = length-copy_to at src b.bytes fits

      longer : Buffer
      longer = record b { bytes = copy_to at src b.bytes; reader_index = at }

  -- Bytes copied behind the contents, as by `append` once there is room.
  module _ (src : List ℕ) (room : length src ≤ writable_bytes b) where
    unfoldable pub filled : Buffer
    filled = record b {
      bytes = copy_to b.writer_index src b.bytes;
      writer_index = b.writer_index + length src;
    }

    fits : b.writer_index + length src ≤ length b.bytes
    fits = omega arith

    pub length-filled : length (copy_to b.writer_index src b.bytes) ≡ length b.bytes
    length-filled = length-copy_to b.writer_index src b.bytes fits

    pub filled-IsValid : IsValid filled
    unfolding filled
    filled-IsValid = omega (arith, length-filled)

    pub contents-filled : contents filled ≡ contents b ++ src
    unfolding filled
    contents-filled =
        ap (λ k. take k (drop b.reader_index (copy_to b.writer_index src b.bytes))) (omega arith)
        ∙ slice-copy_to_le b.writer_index src b.bytes fits b.reader_index v.ordered
        ∙ ap (λ k. bytes_at b b.reader_index k ++ src) (omega arith)

    pub has_written-filled :
        has_written (record b { bytes = copy_to b.writer_index src b.bytes }) (length src)
        ≡ some filled
    unfolding has_written filled
    has_written-filled = ground (arith, length-filled)

-- `append` puts the bytes behind the contents, as long as the vector may hold them, and moves the
-- writer by no more than their number.
pub append-Holds :
    (b : Buffer) (src : List ℕ)
    → IsValid b
    → b.writer_index + length src ≤ max_size
    → (h : Holds (append b src) (contents b ++ src)) × (h.buffer.writer_index
        ≤ b.writer_index + length src)
unfolding append filled
append-Holds b src v h =
    let m = ensure_writable_bytes-MadeRoom b (length src) v h in
    rw m.returns (
      record {
        buffer = filled m.buffer m.valid src m.room;
        returns = has_written-filled m.buffer m.valid src m.room;
        valid = filled-IsValid m.buffer m.valid src m.room;
        holds = contents-filled m.buffer m.valid src m.room ∙ ap (λ c. c ++ src) m.holds;
      },
      omega (arith, m.writer_le),
    )
