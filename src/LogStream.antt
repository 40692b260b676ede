-- ===== src/LogStream.antt =====
-- muduo/base/LogStream.cc and LogStream.h: numbers as text, and the stream that a log line is
-- written to. A character is its code; `none` is an access outside the buffer or the tables.
pub mod Digits
pub mod Numbers
pub mod Stream
mod Tests
use rfcs.Common.{
  ℕ, zero, suc, ◌+◌, ◌-◌, ◌*◌, ◌/◌, ◌%◌, ◌≡◌, Bool, true, false, List, [], ◌∷◌, ◌++◌, Option, none,
  some, ltb, leb, ◌==◌, if◌then◌else◌, length, get_elem?, ◌>>=◌, ◌>>◌, assert,
}
use rfcs.Common.Int.{ℤ, pos, negsuc, pos_part, neg_part, ◌+ℤ◌, quot, rem, ltb_ℤ}

-- "9876543210123456789" and "0123456789ABCDEF"
abbrev pub digits : List ℕ
digits =
    57 ∷ 56 ∷ 55 ∷ 54 ∷ 53 ∷ 52 ∷ 51 ∷ 50 ∷ 49 ∷ 48 ∷ 49 ∷ 50 ∷ 51 ∷ 52 ∷ 53 ∷ 54 ∷ 55 ∷ 56 ∷ 57
    ∷ []

abbrev pub digits_hex : List ℕ
digits_hex = 48 ∷ 49 ∷ 50 ∷ 51 ∷ 52 ∷ 53 ∷ 54 ∷ 55 ∷ 56 ∷ 57 ∷ 65 ∷ 66 ∷ 67 ∷ 68 ∷ 69 ∷ 70 ∷ []

-- `zero[lsd]`: the pointer `zero` is to the middle of the table.
unfoldable pub digit_at : ℤ → Option ℕ
digit_at lsd = elim (pos 9 +ℤ lsd) [ pos i ↦ get_elem? digits i | negsuc i ↦ none ]

-- `std::reverse`
unfoldable pub reverse : List ℕ → List ℕ
reverse [] = []
reverse (x ∷ xs) = reverse xs ++ x ∷ []

abbrev pub is_zero : ℤ → Bool
is_zero i = pos_part i + neg_part i == 0

-- The loop of `convert`, which writes the last digit first. The fuel is the number of rounds.
unfoldable pub convert_loop : ℕ → ℤ → Option (List ℕ)
convert_loop zero i = none
convert_loop (suc fuel) i =
    let rest = convert_loop fuel (quot i 10) in
    do c ← digit_at (rem i 10); cs ← if is_zero (quot i 10) then some [] else rest; some (c ∷ cs)

-- A value of 64 bits has at most 20 digits.
unfoldable pub convert : ℤ → Option (List ℕ)
convert value = do
  cs ← convert_loop 20 value
  some (reverse (if ltb_ℤ value (pos 0) then cs ++ 45 ∷ [] else cs))

unfoldable pub convert_hex_loop : ℕ → ℕ → Option (List ℕ)
convert_hex_loop zero i = none
convert_hex_loop (suc fuel) i =
    let rest = convert_hex_loop fuel (i / 16) in
    do c ← get_elem? digits_hex (i % 16); cs ← if i / 16 == 0 then some [] else rest; some (c ∷ cs)

unfoldable pub convert_hex : ℕ → Option (List ℕ)
convert_hex value = do cs ← convert_hex_loop 16 value; some (reverse cs)

-- `FixedBuffer<SIZE>`: the size and what is written, from `data_` to `cur_`.
pub record FixedBuffer : Type 0 where
  pub size : ℕ
  pub written : List ℕ

abbrev pub small_buffer : ℕ
small_buffer = 4000

abbrev pub max_numeric_size : ℕ
max_numeric_size = 48

unfoldable pub avail : FixedBuffer → ℕ
avail b = b.size - length b.written

-- The text is written where it leaves a byte free, and dropped else.
unfoldable pub append : FixedBuffer → List ℕ → FixedBuffer
append b text = if ltb (length text) (avail b) then record b { written = b.written ++ text } else b

-- `convert` or `convertHex` writes its characters and a NUL at `current()`, and `add` takes them in.
unfoldable pub add : FixedBuffer → List ℕ → Option FixedBuffer
add b text = do
  assert (ltb (length text) (avail b))
  some (record b { written = b.written ++ text })

unfoldable pub format_integer : FixedBuffer → ℤ → Option FixedBuffer
format_integer b v =
    if leb max_numeric_size (avail b) then (do text ← convert v; add b text) else some b

unfoldable pub format_pointer : FixedBuffer → ℕ → Option FixedBuffer
format_pointer b v =
    if leb max_numeric_size (avail b)
    then (do text ← convert_hex v; add b (48 ∷ 120 ∷ text))
    else some b

-- What the operators `<<` take: an integer of any width, a pointer, and the rest as text.
pub data Item : Type 0 where
  boolean : Bool → Item
  integer : ℤ → Item
  pointer : ℕ → Item
  character : ℕ → Item
  c_string : Option (List ℕ) → Item
  piece : List ℕ → Item

-- "(null)"
abbrev pub null_text : List ℕ
null_text = 40 ∷ 110 ∷ 117 ∷ 108 ∷ 108 ∷ 41 ∷ []

-- `operator<<`
unfoldable pub write : FixedBuffer → Item → Option FixedBuffer
write b (boolean v) = some (append b (if v then 49 ∷ [] else 48 ∷ []))
write b (integer v) = format_integer b v
write b (pointer v) = format_pointer b v
write b (character c) = some (append b (c ∷ []))
write b (c_string none) = some (append b null_text)
write b (c_string (some text)) = some (append b text)
write b (piece text) = some (append b text)

unfoldable pub write_all : FixedBuffer → List Item → Option FixedBuffer
write_all b [] = some b
write_all b (x ∷ xs) = do b ← write b x; write_all b xs

-- `resetBuffer`
unfoldable pub reset_buffer : FixedBuffer → FixedBuffer
reset_buffer b = record b { written = [] }
