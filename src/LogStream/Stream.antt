-- ===== src/LogStream/Stream.antt =====
-- A log line: what the operators `<<` leave in the buffer of a stream.
use rfcs.Common.{
  ℕ, ◌^◌, ◌≤◌, ◌<◌, ◌≡◌, refl, Bool, true, false, ◌&&◌, List, [], ◌∷◌, ◌++◌, Option, none, some,
  ltb, leb, length, max, arith, Bool-cases, inl, inr, length-append,
}
use rfcs.Common.Int.{ℤ}
use rfcs.LogStream.{
  FixedBuffer, Item, boolean, integer, pointer, character, c_string, piece, null_text,
  max_numeric_size, avail, append, add, format_integer, format_pointer, write, write_all,
}
use rfcs.LogStream.Digits.{magnitude}
use rfcs.LogStream.Numbers.{IsDecimal, IsHex, convert-IsDecimal, convert_hex-IsHex}

-- An integer or an address that 64 bits hold.
abbrev pub is_machine : Item → Bool
is_machine (integer v) = ltb (magnitude v) (2 ^ 64)
is_machine (pointer v) = ltb v (2 ^ 64)
is_machine (boolean v) = true
is_machine (character c) = true
is_machine (c_string s) = true
is_machine (piece text) = true

abbrev pub all_machine : List Item → Bool
all_machine [] = true
all_machine (x ∷ xs) = is_machine x && all_machine xs

-- The text of an item.
pub data Shows : Item → List ℕ → Type 0 where
  yes_text : Shows (boolean true) (49 ∷ [])
  no_text : Shows (boolean false) (48 ∷ [])
  integer_text : {v : ℤ} {text : List ℕ} → IsDecimal v text → Shows (integer v) text
  pointer_text : {v : ℕ} {text : List ℕ} → IsHex v text → Shows (pointer v) (48 ∷ 120 ∷ text)
  character_text : {c : ℕ} → Shows (character c) (c ∷ [])
  null_string_text : Shows (c_string none) null_text
  string_text : {text : List ℕ} → Shows (c_string (some text)) text
  piece_text : {text : List ℕ} → Shows (piece text) text

abbrev pub with_text : FixedBuffer → List ℕ → FixedBuffer
with_text b text = record b { written = b.written ++ text }

-- One byte is always free.
abbrev pub IsOpen : FixedBuffer → Type 0
IsOpen b = length b.written < b.size

-- The text of an item is appended whole, or, where it finds no room, dropped whole.
pub data Writes : FixedBuffer → List Item → FixedBuffer → Type 0 where
  done : {b : FixedBuffer} → Writes b [] b
  kept :
      {b b' : FixedBuffer} {x : Item} {xs : List Item} {text : List ℕ}
      → Shows x text
      → Writes (with_text b text) xs b'
      → Writes b (x ∷ xs) b'
  dropped :
      {b b' : FixedBuffer} {x : Item} {xs : List Item} {text : List ℕ}
      → Shows x text
      → avail b ≤ max 47 (length text)
      → Writes b xs b'
      → Writes b (x ∷ xs) b'

-- What a single operator does.
pub data Written (b : FixedBuffer) (x : Item) : FixedBuffer → Type 0 where
  appended :
      {text : List ℕ} → Shows x text → IsOpen (with_text b text) → Written b x (with_text b text)
  no_room : {text : List ℕ} → Shows x text → avail b ≤ max 47 (length text) → Written b x b

append-Written :
    (b : FixedBuffer) (x : Item) (text : List ℕ)
    → IsOpen b
    → Shows x text
    → Written b x (append b text)
unfolding append avail
append-Written b x text o s = elim (Bool-cases (ltb (length text) (avail b))) [
  | inl e ↦ rw e (appended s (ground (arith, length-append b.written text)))
  | inr e ↦ rw e (no_room s (ground arith))
]

add-with_text :
    (b : FixedBuffer) (text : List ℕ)
    → length text ≤ 21
    → leb max_numeric_size (avail b) ≡ true
    → add b text ≡ some (with_text b text)
unfolding add
add-with_text b text h k =
    let room : ltb (length text) (avail b) ≡ true = ground arith in rw room refl

IsOpen-with_text :
    (b : FixedBuffer) (text : List ℕ)
    → length text ≤ 21
    → leb max_numeric_size (avail b) ≡ true
    → IsOpen (with_text b text)
unfolding avail
IsOpen-with_text b text h k = ground (arith, length-append b.written text)

abbrev Result : FixedBuffer → Item → Option FixedBuffer → Type 0
Result b x r = (b' : FixedBuffer) × (r ≡ some b') × Written b x b'

format_integer-Result :
    (b : FixedBuffer) (v : ℤ) → magnitude v < 2 ^ 64 → Result b (integer v) (format_integer b v)
unfolding format_integer
format_integer-Result b v h =
    let (text, e, d) = convert-IsDecimal v h in
    elim (Bool-cases (leb max_numeric_size (avail b))) [
      | inl r ↦ (
        with_text b text,
        rw (r, e) (add-with_text b text d.short r),
        appended (integer_text d) (IsOpen-with_text b text d.short r),
      )
      | inr r ↦ (b, rw r refl, no_room (integer_text d) (ground arith))
    ]

format_pointer-Result :
    (b : FixedBuffer) (v : ℕ) → v < 2 ^ 64 → Result b (pointer v) (format_pointer b v)
unfolding format_pointer
format_pointer-Result b v h =
    let (text, e, d) = convert_hex-IsHex v h in
    let short : length (48 ∷ 120 ∷ text) ≤ 21 = omega (arith, d.short) in
    elim (Bool-cases (leb max_numeric_size (avail b))) [
      | inl r ↦ (
        with_text b (48 ∷ 120 ∷ text),
        rw (r, e) (add-with_text b (48 ∷ 120 ∷ text) short r),
        appended (pointer_text d) (IsOpen-with_text b (48 ∷ 120 ∷ text) short r),
      )
      | inr r ↦ (b, rw r refl, no_room (pointer_text d) (ground arith))
    ]

write-Result :
    (b : FixedBuffer) (x : Item) → IsOpen b → is_machine x ≡ true → Result b x (write b x)
unfolding write
write-Result b (boolean true) o m = (_, refl, append-Written b _ (49 ∷ []) o yes_text)
write-Result b (boolean false) o m = (_, refl, append-Written b _ (48 ∷ []) o no_text)
write-Result b (integer v) o m = format_integer-Result b v (ground arith)
write-Result b (pointer v) o m = format_pointer-Result b v (ground arith)
write-Result b (character c) o m = (_, refl, append-Written b _ (c ∷ []) o character_text)
write-Result b (c_string none) o m = (_, refl, append-Written b _ null_text o null_string_text)
write-Result b (c_string (some text)) o m = (_, refl, append-Written b _ text o string_text)
write-Result b (piece text) o m = (_, refl, append-Written b _ text o piece_text)

Written-IsOpen : {b b' : FixedBuffer} {x : Item} → Written b x b' → IsOpen b → IsOpen b'
Written-IsOpen (appended s o') o = o'
Written-IsOpen (no_room s f) o = o

Writes-Written :
    {b b' c : FixedBuffer} {x : Item} {xs : List Item}
    → Written b x b'
    → Writes b' xs c
    → Writes b (x ∷ xs) c
Writes-Written (appended s o) w = kept s w
Writes-Written (no_room s f) w = dropped s f w

-- Any sequence of the operators `<<` on a buffer with a free byte ends and leaves a free byte: each
-- item is appended whole, an integer as its decimal numeral and an address as its hexadecimal one
-- after 0x, or it is dropped whole, for want of 48 bytes or of its length and one more.
pub write_all-Writes :
    (b : FixedBuffer) (xs : List Item)
    → IsOpen b
    → all_machine xs ≡ true
    → (b' : FixedBuffer) × (write_all b xs ≡ some b') × Writes b xs b' × IsOpen b'
unfolding write_all
write_all-Writes b [] o m = (b, refl, done, o)
write_all-Writes b (x ∷ xs) o m =
    let (b', e, w) = write-Result b x o (ground arith) in
    let (c, e', ws, o') = write_all-Writes b' xs (Written-IsOpen w o) (ground arith) in
    (c, rw (e, e') refl, Writes-Written w ws, o')
