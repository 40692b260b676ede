-- ===== src/LogStream/Tests.antt =====
-- Tests of `LogStream`, and its theorems at concrete inputs.
use rfcs.Common.{ℕ, ◌≡◌, refl, arith, List, [], ◌∷◌, some, none}
use rfcs.Common.Int.{negsuc, ◌+ℤ◌, quot, rem}
use rfcs.LogStream.{
  FixedBuffer, Item, integer, pointer, c_string, piece, small_buffer, convert, convert_loop,
  convert_hex, convert_hex_loop, digit_at, reverse, write_all,
}
use rfcs.LogStream.Numbers.{IsDecimal, convert-IsDecimal}
use rfcs.LogStream.Stream.{Writes, IsOpen, write_all-Writes}

-- -1024
negative_number : convert (negsuc 1023) ≡ some (45 ∷ 49 ∷ 48 ∷ 50 ∷ 52 ∷ [])
unfolding convert convert_loop digit_at reverse ◌+ℤ◌ quot rem
negative_number = refl

-- BEEF
hex_number : convert_hex 48879 ≡ some (66 ∷ 69 ∷ 69 ∷ 70 ∷ [])
unfolding convert_hex convert_hex_loop reverse
hex_number = refl

convert-IsDecimal_example :
    (text : List ℕ) × (convert (negsuc 9223372036854775807) ≡ some text)
    × IsDecimal (negsuc 9223372036854775807) text
convert-IsDecimal_example = convert-IsDecimal (negsuc 9223372036854775807) (omega arith)

abbrev empty_buffer : FixedBuffer
empty_buffer = record { size = small_buffer; written = [] }

abbrev line : List Item
line = piece (105 ∷ 61 ∷ []) ∷ integer (negsuc 41) ∷ c_string none ∷ pointer 4096 ∷ []

write_all-Writes_example :
    (b' : FixedBuffer) × (write_all empty_buffer line ≡ some b')
    × Writes empty_buffer line b'
    × IsOpen b'
write_all-Writes_example = write_all-Writes empty_buffer line (omega arith) refl
