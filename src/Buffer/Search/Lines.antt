-- ===== src/Buffer/Search/Lines.antt =====
-- `search_crlf` finds the first line end, and misses none.
use mathlib.Core.Option
use rfcs.Common.{
  ℕ, suc, ◌≡◌, refl, ap, sym, ◌∙◌, subst, true, false, List, [], ◌∷◌, ◌++◌, Option, some, none,
  arith, length, length-append, ◌≤◌, Bool-cases, inl, inr, ◌⊎◌,
}
use rfcs.Buffer.Search.{cr, lf, starts_crlf, search_crlf, HasCrlf, FirstLine, SearchResult}

HasCrlf-starts : (x y : ℕ) (xs : List ℕ) → starts_crlf (x ∷ y ∷ xs) ≡ true → (x ≡ cr) × (y ≡ lf)
unfolding starts_crlf
HasCrlf-starts x y xs h = ground arith

-- A "\r\n" stands at the start or later on.
HasCrlf-cons : (x : ℕ) (xs : List ℕ) → HasCrlf (x ∷ xs) → (starts_crlf (x ∷ xs) ≡ true) ⊎ HasCrlf xs
unfolding starts_crlf
HasCrlf-cons x xs h = go h.before h.splits
  where
    go :
        (p : List ℕ)
        → (x ∷ xs) ≡ p ++ (cr ∷ lf ∷ h.after)
        → (starts_crlf (x ∷ xs) ≡ true) ⊎ HasCrlf xs
    go [] e = inl (subst (λ l. starts_crlf l ≡ true) (sym e) refl)
    go (y ∷ p) e = inr (record { before = p; after = h.after; splits = cc })

not-HasCrlf-cons :
    (x : ℕ) (xs : List ℕ) → starts_crlf (x ∷ xs) ≡ false → ¬ HasCrlf xs → ¬ HasCrlf (x ∷ xs)
not-HasCrlf-cons x xs no_start h k = elim (HasCrlf-cons x xs k) [ inl s ↦ cc | inr r ↦ h r ]

HasCrlf-short : (xs : List ℕ) → length xs ≤ 1 → ¬ HasCrlf xs
HasCrlf-short xs short h =
    omega (arith, ap length h.splits, length-append h.before (cr ∷ lf ∷ h.after))

-- Only the first two bytes matter.
starts_crlf-append :
    (x : ℕ) (line rest : List ℕ)
    → starts_crlf (x ∷ (line ++ (cr ∷ []))) ≡ starts_crlf (x ∷ (line ++ (cr ∷ rest)))
unfolding starts_crlf
starts_crlf-append x [] rest = refl
starts_crlf-append x (y ∷ line) rest = refl

module _ (x : ℕ) (xs : List ℕ) where
  hit : (zs : List ℕ) → xs ≡ zs → starts_crlf (x ∷ zs) ≡ true → FirstLine (x ∷ zs) 0
  hit [] e h = unfold starts_crlf in cc
  hit (y ∷ ys) e h =
      let (p, q) = HasCrlf-starts x y ys h in
      record {
        line = [];
        after = ys;
        splits = cc;
        at = refl;
        first = HasCrlf-short (cr ∷ []) (omega arith);
      }

  miss :
      starts_crlf (x ∷ xs) ≡ false
      → (o : Option ℕ) → SearchResult xs o
      → SearchResult (x ∷ xs) (Option.map suc o)
  miss h none r = not-HasCrlf-cons x xs h r
  miss h (some i) r = record {
    line = x ∷ r.line;
    after = r.after;
    splits = ap (λ l. x ∷ l) r.splits;
    at = ap suc r.at;
    first =
        not-HasCrlf-cons x (r.line ++ (cr ∷ []))
          (starts_crlf-append x r.line (lf ∷ r.after)
            ∙ ap (λ l. starts_crlf (x ∷ l)) (sym r.splits)
            ∙ h)
          r.first;
  }

-- `std::search` answers NULL only where no "\r\n" stands in the text, and otherwise finds the end of
-- the first line: no "\r\n" begins before it.
pub search_crlf-SearchResult : (text : List ℕ) → SearchResult text (search_crlf text)
unfolding search_crlf
search_crlf-SearchResult [] = HasCrlf-short [] (omega arith)
search_crlf-SearchResult (x ∷ xs) = elim (Bool-cases (starts_crlf (x ∷ xs))) [
  | inl h ↦ rw h (hit x xs xs refl h)
  | inr h ↦ rw h (miss x xs h (search_crlf xs) (search_crlf-SearchResult xs))
]
