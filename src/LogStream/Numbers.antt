-- ===== src/LogStream/Numbers.antt =====
-- The texts of `convert` and `convertHex`, read back by the value of a numeral.
use rfcs.Common.{
  ℕ, suc, ◌+◌, ◌%◌, ◌^◌, ◌≤◌, ◌<◌, ◌≡◌, refl, ap, subst, true, false, List, [], ◌∷◌, some, ltb,
  ◌==◌, length, arith, Bool-cases, inl, inr,
}
use rfcs.Common.Int.{ℤ, pos, negsuc}
use rfcs.LogStream.{reverse, convert, convert_hex}
use rfcs.LogStream.Digits.{
  numeral, decimal_value, hex_value, read_decimal, magnitude, decimal_char, hex_char, backwards,
  convert_loop-backwards, convert_hex_loop-backwards, numeral-backwards, length-backwards,
  length-reverse, reverse-snoc, fits_decimal, fits_hex, decimal_value-char, hex_value-char,
}

-- A text for the integer: a decimal numeral of it, of at most 21 characters.
pub record IsDecimal (v : ℤ) (text : List ℕ) : Type 0 where
  pub read : read_decimal text ≡ some v
  pub short : length text ≤ 21

pub record IsHex (v : ℕ) (text : List ℕ) : Type 0 where
  pub read : numeral 16 hex_value 0 text ≡ some v
  pub short : length text ≤ 16

abbrev pub decimal_text : ℕ → List ℕ
decimal_text n = reverse (backwards 10 decimal_char 20 n)

decimal_text-read : (n : ℕ) → n < 2 ^ 64 → numeral 10 decimal_value 0 (decimal_text n) ≡ some n
decimal_text-read n h =
    numeral-backwards 10 decimal_char decimal_value (λ n. decimal_value-char (n % 10) (omega arith))
      (λ n. omega arith) 19 n (fits_decimal n h)

length-decimal_text : (n : ℕ) → (1 ≤ length (decimal_text n)) × (length (decimal_text n) ≤ 20)
length-decimal_text n =
    let e = length-reverse (backwards 10 decimal_char 20 n) in
    omega (arith, e, length-backwards 10 decimal_char 20 n)

-- A numeral that starts with a digit has no sign.
no_value : (c : ℕ) (cs : List ℕ) (n : ℕ) → c ≡ 45 → numeral 10 decimal_value 0 (c ∷ cs) ≡ some n → ⊥
no_value c cs n s e = cc (subst (λ c. numeral 10 decimal_value 0 (c ∷ cs) ≡ some n) s e)

read_decimal-unsigned :
    (text : List ℕ) (n : ℕ)
    → 1 ≤ length text
    → numeral 10 decimal_value 0 text ≡ some n
    → read_decimal text ≡ some (pos n)
read_decimal-unsigned [] n h e = absurd (omega arith)
read_decimal-unsigned (c ∷ cs) n h e = elim (Bool-cases (c == 45)) [
  | inl m ↦ let sign : c ≡ 45 = ground arith in absurd (no_value c cs n sign e)
  | inr m ↦ rw m (rw e refl)
]

convert_pos : (n : ℕ) → n < 2 ^ 64 → convert (pos n) ≡ some (decimal_text n)
unfolding convert
convert_pos n h =
    let e : n + 0 ≡ n = omega arith in
    let loop = convert_loop-backwards 19 (pos n) (rw e (fits_decimal n h)) in
    let unsigned : ltb (n + 0) 0 ≡ false = ground arith in rw (loop, unsigned, e) refl

convert_negative : (n : ℕ) → suc n < 2 ^ 64 → convert (negsuc n) ≡ some (45 ∷ decimal_text (suc n))
unfolding convert
convert_negative n h =
    let e : 0 + suc n ≡ suc n = omega arith in
    let loop = convert_loop-backwards 19 (negsuc n) (rw e (fits_decimal (suc n) h)) in
    let signed : ltb 0 (0 + suc n) ≡ true = ground arith in
    rw (loop, signed, reverse-snoc (backwards 10 decimal_char 20 (magnitude (negsuc n))) 45, e) refl

negative_IsDecimal : (n : ℕ) → suc n < 2 ^ 64 → IsDecimal (negsuc n) (45 ∷ decimal_text (suc n))
negative_IsDecimal n h =
    let e = decimal_text-read (suc n) h in
    record {
      read = rw e (ap some (ground arith));
      short = omega (arith, length-decimal_text (suc n));
    }

-- For every integer of 64 bits or fewer, signed or not, `convert` ends, and its text is a decimal
-- numeral of the integer, with its sign, of at most 21 characters.
pub convert-IsDecimal :
    (v : ℤ) → magnitude v < 2 ^ 64 → (text : List ℕ) × (convert v ≡ some text) × IsDecimal v text
convert-IsDecimal (pos n) h =
    let small : n < 2 ^ 64 = omega (arith, h) in
    (
      decimal_text n,
      convert_pos n small,
      record {
        read =
            read_decimal-unsigned (decimal_text n) n ((length-decimal_text n).0)
              (decimal_text-read n small);
        short = omega (arith, length-decimal_text n);
      },
    )
convert-IsDecimal (negsuc n) h =
    let small : suc n < 2 ^ 64 = omega (arith, h) in
    (45 ∷ decimal_text (suc n), convert_negative n small, negative_IsDecimal n small)

-- For every 64-bit address, `convertHex` ends, and its text is a hexadecimal numeral of the address,
-- of at most 16 characters.
pub convert_hex-IsHex :
    (v : ℕ) → v < 2 ^ 64 → (text : List ℕ) × (convert_hex v ≡ some text) × IsHex v text
unfolding convert_hex
convert_hex-IsHex v h = (
  reverse (backwards 16 hex_char 16 v),
  rw (convert_hex_loop-backwards 15 v (fits_hex v h)) refl,
  record {
    read =
        numeral-backwards 16 hex_char hex_value (λ n. hex_value-char (n % 16) (omega arith))
          (λ n. omega arith) 15 v (fits_hex v h);
    short =
        omega
          (arith, length-reverse (backwards 16 hex_char 16 v), length-backwards 16 hex_char 16 v);
  },
)
