-- ===== src/LogStream/Digits.antt =====
-- The digits of a number in a base, and the text of `convert` and `convertHex` read back.
use rfcs.Common.{
  ℕ, zero, suc, ◌+◌, ◌-◌, ◌*◌, ◌/◌, ◌%◌, ◌^◌, ◌≤◌, ◌<◌, ◌≡◌, refl, ap, ◌∙◌, Bool, true, false, ◌&&◌,
  List, [], ◌∷◌, ◌++◌, Option, none, some, ltb, leb, ◌==◌, if◌then◌else◌, length, get_elem?, ◌>>=◌,
  arith, Bool-cases, ℕ_discrete, inl, inr, length-append,
}
use rfcs.Common.Int.{ℤ, pos, negsuc, pos_part, neg_part, sub_ℕ, ◌+ℤ◌, quot, rem}
use rfcs.LogStream.{digit_at, digits_hex, reverse, convert_loop, convert_hex_loop}

-- A numeral of a base, read from its first digit on: what stands for a digit is an argument.
module _ (base : ℕ) (value : ℕ → Option ℕ) where
  abbrev pub numeral : ℕ → List ℕ → Option ℕ
  numeral acc [] = some acc
  numeral acc (c ∷ cs) = value c >>= λ d. numeral (acc * base + d) cs

  numeral_step :
      (o : Option ℕ) (xs : List ℕ) (acc c : ℕ) (ys : List ℕ)
      → ((d : ℕ)
          → numeral (acc * base + d) ys
            ≡ (numeral (acc * base + d) xs >>= λ a. value c >>= λ d. some (a * base + d)))
      → (o >>= λ d. numeral (acc * base + d) ys)
        ≡ ((o >>= λ d. numeral (acc * base + d) xs) >>= λ a. value c >>= λ d. some (a * base + d))
  numeral_step none xs acc c ys h = refl
  numeral_step (some d) xs acc c ys h = h d

  numeral-append :
      (acc : ℕ) (xs : List ℕ) (c : ℕ)
      → numeral acc (xs ++ c ∷ []) ≡ (numeral acc xs >>= λ a. value c >>= λ d. some (a * base + d))
  numeral-append acc [] c = refl
  numeral-append acc (x ∷ xs) c =
      numeral_step (value x) xs acc c (xs ++ c ∷ []) (λ d. numeral-append (acc * base + d) xs c)

-- A decimal and a hexadecimal digit.
abbrev pub decimal_value : ℕ → Option ℕ
decimal_value c = if leb 48 c && leb c 57 then some (c - 48) else none

abbrev pub hex_value : ℕ → Option ℕ
hex_value c =
    if leb 48 c && leb c 57
    then some (c - 48)
    else if leb 65 c && leb c 70
    then some (c - 55)
    else none

-- A decimal numeral with its sign.
abbrev pub read_decimal : List ℕ → Option ℤ
read_decimal [] = none
read_decimal (c ∷ cs) =
    if c == 45
    then (numeral 10 decimal_value 0 cs >>= λ n. some (sub_ℕ 0 n))
    else (numeral 10 decimal_value 0 (c ∷ cs) >>= λ n. some (pos n))

abbrev pub magnitude : ℤ → ℕ
magnitude i = pos_part i + neg_part i

-- A test that holds below a bound, tried at each number.
abbrev all_below : ℕ → (ℕ → Bool) → Bool
all_below zero p = true
all_below (suc n) p = p n && all_below n p

all_below-at : (n : ℕ) (p : ℕ → Bool) (d : ℕ) → all_below n p ≡ true → d < n → p d ≡ true
all_below-at zero p d h k = absurd (omega arith)
all_below-at (suc n) p d h k = elim (ℕ_discrete d n) [
  | yes e ↦ rw e (ground arith)
  | no ne ↦ all_below-at n p d (ground arith) (omega (arith, ne))
]

abbrev holds : Option ℕ → ℕ → Bool
holds none c = false
holds (some d) c = d == c

holds-some : (o : Option ℕ) (c : ℕ) → holds o c ≡ true → o ≡ some c
holds-some none c h = cc
holds-some (some d) c h = ap some (ground arith)

module _ (table : ℕ → Option ℕ) (value : ℕ → ℕ) where
  table-at :
      (n d : ℕ)
      → all_below n (λ d. holds (table d) (value d)) ≡ true
      → d < n
      → table d ≡ some (value d)
  table-at n d h k =
      holds-some (table d) (value d) (all_below-at n (λ d. holds (table d) (value d)) d h k)

-- The character of a digit, from either table, and its value.
abbrev pub decimal_char : ℕ → ℕ
decimal_char d = 48 + d

abbrev pub hex_char : ℕ → ℕ
hex_char d = if ltb d 10 then 48 + d else 55 + d

digit_at-pos : (d : ℕ) → d < 10 → digit_at (pos d) ≡ some (decimal_char d)
unfolding digit_at ◌+ℤ◌
digit_at-pos d h = table-at (λ d. digit_at (pos d)) decimal_char 10 d refl h

digit_at-negative : (d : ℕ) → d < 10 → digit_at (sub_ℕ 0 d) ≡ some (decimal_char d)
unfolding digit_at ◌+ℤ◌
digit_at-negative d h = table-at (λ d. digit_at (sub_ℕ 0 d)) decimal_char 10 d refl h

digit_at-rem : (i : ℤ) → digit_at (rem i 10) ≡ some (decimal_char (magnitude i % 10))
unfolding rem
digit_at-rem (pos n) = let e : n + 0 ≡ n = omega arith in rw e (digit_at-pos (n % 10) (omega arith))
digit_at-rem (negsuc n) =
    let e : 0 + suc n ≡ suc n = omega arith in rw e (digit_at-negative (suc n % 10) (omega arith))

hex_at : (d : ℕ) → d < 16 → get_elem? digits_hex d ≡ some (hex_char d)
hex_at d h = table-at (λ d. get_elem? digits_hex d) hex_char 16 d refl h

pub decimal_value-char : (d : ℕ) → d < 10 → decimal_value (decimal_char d) ≡ some d
decimal_value-char d h = table-at (λ d. decimal_value (decimal_char d)) (λ d. d) 10 d refl h

pub hex_value-char : (d : ℕ) → d < 16 → hex_value (hex_char d) ≡ some d
hex_value-char d h = table-at (λ d. hex_value (hex_char d)) (λ d. d) 16 d refl h

-- The characters of a number in a base of at least 2, the last digit first.
module _ (base : ℕ) (char : ℕ → ℕ) where
  abbrev pub backwards : ℕ → ℕ → List ℕ
  backwards zero n = []
  backwards (suc fuel) n =
      char (n % base) ∷ (if n / base == 0 then [] else backwards fuel (n / base))

  pub length-backwards : (fuel n : ℕ) → length (backwards fuel n) ≤ fuel
  length-backwards zero n = omega arith
  length-backwards (suc fuel) n = ground (arith, length-backwards fuel (n / base))

-- The number is 0 after as many divisions.
abbrev pub fits : ℕ → ℕ → ℕ → Bool
fits base zero n = n == 0
fits base (suc fuel) n = fits base fuel (n / base)

magnitude-quot : (i : ℤ) → magnitude (quot i 10) ≡ magnitude i / 10
unfolding quot
magnitude-quot (pos n) = omega arith
magnitude-quot (negsuc n) = ground arith

-- A round of the loop.
convert_loop_step :
    (fuel : ℕ) (i : ℤ) (cs : List ℕ)
    → ((magnitude i / 10 == 0) ≡ false → convert_loop fuel (quot i 10) ≡ some cs)
    → convert_loop (suc fuel) i
      ≡ some (decimal_char (magnitude i % 10) ∷ (if magnitude i / 10 == 0 then [] else cs))
unfolding convert_loop
convert_loop_step fuel i cs h = elim (Bool-cases (magnitude i / 10 == 0)) [
  | inl e ↦ rw (digit_at-rem i, magnitude-quot i, e) refl
  | inr e ↦ rw (digit_at-rem i, magnitude-quot i, e, h e) refl
]

pub convert_loop-backwards :
    (fuel : ℕ) (i : ℤ)
    → fits 10 (suc fuel) (magnitude i) ≡ true
    → convert_loop (suc fuel) i ≡ some (backwards 10 decimal_char (suc fuel) (magnitude i))
convert_loop-backwards zero i h = convert_loop_step zero i [] (λ e. absurd (ground arith))
convert_loop-backwards (suc fuel) i h =
    let m = magnitude-quot i in
    convert_loop_step (suc fuel) i _ (λ e.
      convert_loop-backwards fuel (quot i 10) (rw m h)
      ∙ ap (λ n. some (backwards 10 decimal_char (suc fuel) n)) m)

convert_hex_loop_step :
    (fuel n : ℕ) (cs : List ℕ)
    → ((n / 16 == 0) ≡ false → convert_hex_loop fuel (n / 16) ≡ some cs)
    → convert_hex_loop (suc fuel) n ≡ some (hex_char (n % 16) ∷ (if n / 16 == 0 then [] else cs))
unfolding convert_hex_loop
convert_hex_loop_step fuel n cs h =
    let c = hex_at (n % 16) (omega arith) in
    elim (Bool-cases (n / 16 == 0)) [ inl e ↦ rw (c, e) refl | inr e ↦ rw (c, e, h e) refl ]

pub convert_hex_loop-backwards :
    (fuel n : ℕ)
    → fits 16 (suc fuel) n ≡ true
    → convert_hex_loop (suc fuel) n ≡ some (backwards 16 hex_char (suc fuel) n)
convert_hex_loop-backwards zero n h = convert_hex_loop_step zero n [] (λ e. absurd (ground arith))
convert_hex_loop-backwards (suc fuel) n h =
    convert_hex_loop_step (suc fuel) n _ (λ e. convert_hex_loop-backwards fuel (n / 16) h)

pub length-reverse : (xs : List ℕ) → length (reverse xs) ≡ length xs
unfolding reverse
length-reverse [] = refl
length-reverse (x ∷ xs) = omega (arith, length-append (reverse xs) (x ∷ []), length-reverse xs)

pub reverse-snoc : (xs : List ℕ) (x : ℕ) → reverse (xs ++ x ∷ []) ≡ x ∷ reverse xs
unfolding reverse
reverse-snoc [] x = refl
reverse-snoc (y ∷ xs) x = rw (reverse-snoc xs x) refl

-- Read from the first digit on, the characters give the number.
module _ (base : ℕ) (char : ℕ → ℕ) (value : ℕ → Option ℕ)
    (digit : (n : ℕ) → value (char (n % base)) ≡ some (n % base))
    (parts : (n : ℕ) → n / base * base + n % base ≡ n) where
  numeral_step_backwards :
      (n : ℕ) (cs : List ℕ)
      → numeral base value 0 (reverse cs) ≡ some (n / base)
      → numeral base value 0 (reverse (char (n % base) ∷ cs)) ≡ some n
  unfolding reverse
  numeral_step_backwards n cs h =
      numeral-append base value 0 (reverse cs) (char (n % base))
      ∙ rw (h, digit n) (ap some (parts n))

  pub numeral-backwards :
      (fuel n : ℕ)
      → fits base (suc fuel) n ≡ true
      → numeral base value 0 (reverse (backwards base char (suc fuel) n)) ≡ some n
  unfolding reverse
  numeral-backwards zero n h =
      numeral_step_backwards n (if n / base == 0 then [] else [])
        (let e : (n / base == 0) ≡ true = h in rw e (ap some (ground arith)))
  numeral-backwards (suc fuel) n h =
      numeral_step_backwards n
        (if n / base == 0 then [] else backwards base char (suc fuel) (n / base))
        (elim (Bool-cases (n / base == 0)) [
          | inl e ↦ rw e (ap some (ground arith))
          | inr e ↦ rw e (numeral-backwards fuel (n / base) h)
        ])

-- A number of 64 bits has at most 20 decimal and 16 hexadecimal digits.
pub fits_decimal : (n : ℕ) → n < 2 ^ 64 → fits 10 20 n ≡ true
fits_decimal n h = ground arith

pub fits_hex : (n : ℕ) → n < 2 ^ 64 → fits 16 16 n ≡ true
fits_hex n h = ground arith
