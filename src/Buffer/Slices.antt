-- ===== src/Buffer/Slices.antt =====
-- What `copy_to` leaves in the vector, cut at its seams.
use rfcs.Common.{
  ℕ, zero, suc, ◌+◌, ◌-◌, ◌≤◌, ◌≡◌, refl, ap, ◌∙◌, List, [], ◌∷◌, ◌++◌, arith, length, take, drop,
  length-append, length-take, length-drop, take-append_at, drop-append_at, drop-append_le,
  drop-take,
}
use rfcs.Buffer.{copy_to}

pub take-append_add {ℓ} :
    {A : Type ℓ} (k n : ℕ) (xs ys : List A)
    → n ≡ length xs + k
    → take n (xs ++ ys) ≡ xs ++ take k ys
take-append_add k n [] ys e = ap (λ m. take m ys) (omega arith)
take-append_add k zero (x ∷ xs) ys e = absurd (omega arith)
take-append_add k (suc n) (x ∷ xs) ys e = ap (λ l. x ∷ l) (take-append_add k n xs ys (omega arith))

module _ (at : ℕ) (src bs : List ℕ) (fits : at + length src ≤ length bs) where
  front_len : at ≡ length (take at bs)
  front_len = omega (arith, length-take at bs)

  pub length-copy_to : length (copy_to at src bs) ≡ length bs
  unfolding copy_to
  length-copy_to = omega (
    arith,
    length-append (take at bs) (src ++ drop (at + length src) bs),
    length-append src (drop (at + length src) bs),
    length-take at bs,
    length-drop (at + length src) bs,
  )

  -- From `at` on the vector holds the copied bytes, and then what it held there before.
  pub drop-copy_to : drop at (copy_to at src bs) ≡ src ++ drop (at + length src) bs
  unfolding copy_to
  drop-copy_to = drop-append_at at (take at bs) _ front_len

  pub slice-copy_to : take (length src) (drop at (copy_to at src bs)) ≡ src
  slice-copy_to = rw drop-copy_to (take-append_at (length src) src _ refl)

  -- From an earlier offset on, the bytes up to `at` come first.
  pub drop-copy_to_le :
      (r : ℕ)
      → r ≤ at
      → drop r (copy_to at src bs) ≡ take (at - r) (drop r bs) ++ (src ++ drop (at + length src) bs)
  unfolding copy_to
  drop-copy_to_le r h =
      drop-append_le r (take at bs) _ (omega (arith, front_len))
      ∙ ap (λ l. l ++ (src ++ drop (at + length src) bs)) (drop-take r at bs)

  pub slice-copy_to_le :
      (r : ℕ)
      → r ≤ at
      → take (at - r + length src) (drop r (copy_to at src bs)) ≡ take (at - r) (drop r bs) ++ src
  slice-copy_to_le r h = rw (drop-copy_to_le r h) (
      take-append_add (length src) _ (take (at - r) (drop r bs)) _
        (omega (arith, length-take (at - r) (drop r bs), length-drop r bs))
      ∙ ap (λ l. take (at - r) (drop r bs) ++ l) (take-append_at (length src) src _ refl))
