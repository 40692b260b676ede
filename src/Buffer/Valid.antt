-- ===== src/Buffer/Valid.antt =====
-- The representation invariant of `Buffer`, and what holds of the sizes under it.
use rfcs.Common.{
  ℕ, ◌+◌, ◌-◌, ◌≤◌, ◌≡◌, List, Option, some, arith, length, length-take, length-drop, drop,
}
use rfcs.Buffer.{
  Buffer, cheap_prepend, max_size, readable_bytes, writable_bytes, prependable_bytes, bytes_at,
}

-- 0 <= readerIndex <= writerIndex <= size, and the size of a vector is limited.
pub record IsValid (b : Buffer) : Type 0 where
  pub roomy : cheap_prepend ≤ length b.bytes
  pub limited : length b.bytes ≤ max_size
  pub ordered : b.reader_index ≤ b.writer_index
  pub inside : b.writer_index ≤ length b.bytes

-- The bytes that a reader sees, oldest first.
abbrev pub contents : Buffer → List ℕ
contents b = bytes_at b b.reader_index (readable_bytes b)

pub length-contents : (b : Buffer) → IsValid b → length (contents b) ≡ readable_bytes b
length-contents b v = omega (
  arith,
  length-take (readable_bytes b) (drop b.reader_index b.bytes),
  length-drop b.reader_index b.bytes,
)

-- A call that does not stop returns a valid buffer with these contents.
pub record Holds (r : Option Buffer) (c : List ℕ) : Type 0 where
  pub buffer : Buffer
  pub returns : r ≡ some buffer
  pub valid : IsValid buffer
  pub holds : contents buffer ≡ c

-- A read that returns `x` and leaves a valid buffer with these contents.
pub record Gives {ℓ} {A : Type ℓ} (r : Option (A × Buffer)) (x : A) (c : List ℕ) : Type ℓ where
  pub buffer : Buffer
  pub returns : r ≡ some (x, buffer)
  pub valid : IsValid buffer
  pub holds : contents buffer ≡ c

-- The three sizes never wrap, and together they make up the vector.
pub sizes :
    (b : Buffer)
    → IsValid b
    → (prependable_bytes b + readable_bytes b + writable_bytes b ≡ length b.bytes)
      × (readable_bytes b ≡ b.writer_index - b.reader_index)
      × (writable_bytes b ≡ length b.bytes - b.writer_index)
sizes b v = omega arith
