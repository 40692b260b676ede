-- ===== src/Buffer/Calls.antt =====
-- The operations of `Buffer` that are built from the others.
use rfcs.Common.{
  ℕ, ◌+◌, ◌-◌, ◌%◌, ◌^◌, ◌≤◌, ◌<◌, ◌≡◌, refl, sym, ap, ◌∙◌, List, [], ◌∷◌, ◌++◌, Option, some, none,
  arith, le→leb, lt→ltb, length, take, drop, drop-append_at, take-append_at, take-take_le,
  length-append, append_assoc,
}
use mathlib.Core.Option
use rfcs.Buffer.{
  Buffer, initial_size, readable_bytes, bytes_at, peek, retrieve_until, retrieve_as_string,
  retrieve_all_as_string, to_string_piece, shrink, swap, add_size,
}
use rfcs.Buffer.Valid.{IsValid, Holds, Gives, contents, length-contents}
use rfcs.Buffer.Contents.{init-Holds, retrieve-Holds, append-Holds, drop_all_contents}
use rfcs.Buffer.Space.{ensure_writable_bytes-MadeRoom}
use rfcs.Buffer.Search.{find_crlf, cr, lf, search_crlf, SearchResult, FirstLine, HasCrlf}
use rfcs.Buffer.Search.Lines.{search_crlf-SearchResult}

module _ (b : Buffer) (v : IsValid b) where
  pub retrieve_until-Holds :
      (end : ℕ)
      → b.reader_index ≤ end
      → end ≤ b.writer_index
      → Holds (retrieve_until b end) (drop (end - b.reader_index) (contents b))
  unfolding retrieve_until
  retrieve_until-Holds end lo hi =
      rw (le→leb _ _ lo, le→leb _ _ hi) (retrieve-Holds b v (end - b.reader_index) (omega arith))

  pub retrieve_as_string-Gives :
      (len : ℕ)
      → len ≤ readable_bytes b
      → Gives (retrieve_as_string b len) (take len (contents b)) (drop len (contents b))
  unfolding retrieve_as_string
  retrieve_as_string-Gives len h =
      let r = retrieve-Holds b v len h in
      let e : bytes_at b (peek b) len ≡ take len (contents b) =
        sym (take-take_le len (readable_bytes b) (drop b.reader_index b.bytes) h) in
      record {
        buffer = r.buffer;
        returns = rw (le→leb _ _ h, r.returns, e) refl;
        valid = r.valid;
        holds = r.holds;
      }

  pub retrieve_all_as_string-Gives : Gives (retrieve_all_as_string b) (contents b) []
  unfolding retrieve_all_as_string
  retrieve_all_as_string-Gives =
      let r = retrieve_as_string-Gives (readable_bytes b) (omega arith) in
      record {
        buffer = r.buffer;
        returns =
            r.returns
            ∙ ap (λ s. some (s, r.buffer))
                (take-take_le (readable_bytes b) (readable_bytes b) (drop b.reader_index b.bytes)
                  (omega arith));
        valid = r.valid;
        holds = r.holds ∙ drop_all_contents b v;
      }

  -- `shrink` keeps the contents, if an `int` holds their length.
  pub shrink-Holds :
      (reserve : ℕ)
      → readable_bytes b < 2 ^ 31
      → reserve < 2 ^ 62
      → Holds (shrink b reserve) (contents b)
  unfolding shrink to_string_piece swap
  shrink-Holds reserve small bound =
      let (o, empty, room, front) = init-Holds initial_size (omega arith) in
      let size = add_size (readable_bytes b) reserve in
      let m = ensure_writable_bytes-MadeRoom o.buffer size o.valid (omega (arith, o.valid)) in
      let (a, _) =
        append-Holds m.buffer (contents b) m.valid
          (omega (arith, o.valid, m.writer_le, length-contents b v)) in
      let whole : readable_bytes b % 2 ^ 32 ≡ readable_bytes b = omega arith in
      rw (o.returns, m.returns, whole, lt→ltb _ _ small, a.returns)
        (record {
          buffer = a.buffer;
          returns = refl;
          valid = a.valid;
          holds = a.holds ∙ ap (λ c. c ++ contents b) (m.holds ∙ o.holds);
        })

-- The line that `findCRLF` ends, and what `retrieveUntil(crlf + 2)` leaves.
pub record LineAt (b : Buffer) (crlf : ℕ) : Type 0 where
  pub found : FirstLine (contents b) (crlf - peek b)
  pub ahead : peek b ≤ crlf
  pub line_read : bytes_at b (peek b) (crlf - peek b) ≡ found.line
  pub rest_left : Holds (retrieve_until b (crlf + 2)) found.after

drop_line :
    {A : Type 0} (n : ℕ) (line : List A) (x y : A) (after : List A)
    → n ≡ length line + 2
    → drop n (line ++ (x ∷ y ∷ after)) ≡ after
drop_line n line x y after e =
    ap (drop n) (sym (append_assoc line (x ∷ y ∷ []) after))
    ∙ drop-append_at n (line ++ (x ∷ y ∷ [])) after (omega (arith, length-append line (x ∷ y ∷ [])))

module _ (b : Buffer) (i : ℕ) (v : IsValid b) (f : FirstLine (contents b) i) where
  pub line_inside : i + 2 ≤ readable_bytes b
  line_inside = omega (
    arith,
    length-contents b v,
    ap length f.splits,
    f.at,
    length-append f.line (cr ∷ lf ∷ f.after),
  )

  line_read : bytes_at b (peek b) i ≡ f.line
  line_read =
      sym (
        take-take_le i (readable_bytes b) (drop b.reader_index b.bytes)
          (omega (arith, line_inside)))
      ∙ ap (take i) f.splits
      ∙ take-append_at i f.line _ f.at

  rest : Holds (retrieve_until b (peek b + i + 2)) f.after
  rest =
      let r =
        retrieve_until-Holds b v (peek b + i + 2) (omega arith) (omega (arith, line_inside)) in
      record {
        buffer = r.buffer;
        returns = r.returns;
        valid = r.valid;
        holds =
            r.holds
            ∙ ap (drop (peek b + i + 2 - peek b)) f.splits
            ∙ drop_line _ f.line cr lf f.after (omega (arith, f.at));
      }

  FirstLine-LineAt : LineAt b (peek b + i)
  FirstLine-LineAt =
      let offset : peek b + i - peek b ≡ i = omega arith in
      record {
        found = record {
          line = f.line;
          after = f.after;
          splits = f.splits;
          at = offset ∙ f.at;
          first = f.first;
        };
        ahead = omega arith;
        line_read = ap (bytes_at b (peek b)) offset ∙ line_read;
        rest_left = rest;
      }

abbrev pub CrlfAt : Buffer → Option ℕ → Type 0
CrlfAt b none = ¬ HasCrlf (contents b)
CrlfAt b (some crlf) = LineAt b crlf

-- On a valid buffer `findCRLF` answers NULL only where the contents hold no "\r\n". Otherwise it
-- points at the end of the first line: the bytes from `peek()` up to it are that line, in which no
-- "\r\n" begins, and `retrieveUntil(crlf + 2)` leaves what follows the "\r\n".
pub find_crlf-CrlfAt : (b : Buffer) → IsValid b → CrlfAt b (find_crlf b)
unfolding find_crlf
find_crlf-CrlfAt b v = go (search_crlf (contents b)) (search_crlf-SearchResult (contents b))
  where
    go : (o : Option ℕ) → SearchResult (contents b) o → CrlfAt b (Option.map (λ i. peek b + i) o)
    go none h = h
    go (some i) f = FirstLine-LineAt b i v f
