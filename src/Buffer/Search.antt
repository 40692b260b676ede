-- ===== src/Buffer/Search.antt =====
-- Buffer.h: `findCRLF` and `findEOL`, and the `std::search` and `memchr` that they call.
-- A pointer is an offset into the vector, and NULL is `none`.
pub mod Lines
use rfcs.Common.{
  ℕ, suc, ◌+◌, ◌-◌, ◌≡◌, refl, ap, ◌∙◌, Bool, true, false, ◌&&◌, List, [], ◌∷◌, ◌++◌, Option, some,
  none, arith, leb, ◌==◌, if◌then◌else◌, length, ◌>>=◌, ◌>>◌, assert, Bool-cases, inl, inr, ◌⊎◌,
  ==_iff,
}
use mathlib.Core.Option
use rfcs.Buffer.{Buffer, peek, begin_write, bytes_at, readable_bytes}
use rfcs.Buffer.Valid.{contents}

abbrev pub cr : ℕ
cr = 13

abbrev pub lf : ℕ
lf = 10

-- whether "\r\n" stands at the start
unfoldable pub starts_crlf : List ℕ → Bool
starts_crlf [] = false
starts_crlf (x ∷ []) = false
starts_crlf (x ∷ y ∷ xs) = (x == cr) && (y == lf)

-- `std::search` for "\r\n": the offset of the first one
unfoldable pub search_crlf : List ℕ → Option ℕ
unfolding starts_crlf
search_crlf [] = none
search_crlf (x ∷ xs) =
    let rest = Option.map suc (search_crlf xs) in if starts_crlf (x ∷ xs) then some 0 else rest

-- `memchr` and `std::find`: the offset of the first byte `c`
unfoldable pub find_byte : ℕ → List ℕ → Option ℕ
find_byte c [] = none
find_byte c (x ∷ xs) = let rest = Option.map suc (find_byte c xs) in if x == c then some 0 else rest

unfoldable pub find_crlf : Buffer → Option ℕ
find_crlf b = Option.map (λ i. peek b + i) (search_crlf (contents b))

pub find_crlf_from : Buffer → ℕ → Option (Option ℕ)
find_crlf_from b start = do
  assert (leb (peek b) start)
  assert (leb start (begin_write b))
  some (Option.map (λ i. start + i) (search_crlf (bytes_at b start (begin_write b - start))))

unfoldable pub find_eol : Buffer → Option ℕ
find_eol b = Option.map (λ i. peek b + i) (find_byte lf (contents b))

pub find_eol_from : Buffer → ℕ → Option (Option ℕ)
find_eol_from b start = do
  assert (leb (peek b) start)
  assert (leb start (begin_write b))
  some (Option.map (λ i. start + i) (find_byte lf (bytes_at b start (begin_write b - start))))

-- A "\r\n" stands in the text.
pub record HasCrlf (text : List ℕ) : Type 0 where
  pub before : List ℕ
  pub after : List ℕ
  pub splits : text ≡ before ++ (cr ∷ lf ∷ after)

-- The text is a line without a "\r\n", a "\r\n", and what follows.
pub record FirstLine (text : List ℕ) (i : ℕ) : Type 0 where
  pub line : List ℕ
  pub after : List ℕ
  pub splits : text ≡ line ++ (cr ∷ lf ∷ after)
  pub at : i ≡ length line
  pub first : ¬ HasCrlf (line ++ (cr ∷ []))

abbrev pub SearchResult : List ℕ → Option ℕ → Type 0
SearchResult text none = ¬ HasCrlf text
SearchResult text (some i) = FirstLine text i
