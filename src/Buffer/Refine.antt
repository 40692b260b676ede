-- ===== src/Buffer/Refine.antt =====
-- A buffer seen by its client is a queue of bytes: indices, moves and growth do not show.
use rfcs.Common.{
  ℕ, ◌+◌, ◌-◌, max, ◌≤◌, ◌<◌, ◌≡◌, refl, sym, ap, List, [], ◌∷◌, ◌++◌, Option, some, none, arith,
  leb, dec_lt, lt→not_leb, le→leb, length, take, drop, ◌>>=◌, ◌>>◌, assert,
}
use rfcs.Buffer.{
  Buffer, max_size, cheap_prepend, readable_bytes, retrieve_all, retrieve, retrieve_as_string,
  retrieve_all_as_string, append, unwrite,
}
use rfcs.Buffer.Valid.{IsValid, contents, length-contents}
use rfcs.Buffer.Contents.{retrieve-Holds, retrieve_all-Holds, unwrite-Holds, append-Holds}
use rfcs.Buffer.Calls.{retrieve_as_string-Gives, retrieve_all_as_string-Gives}

-- What a client asks of a buffer.
pub data Op : Type 0 where
  appends : List ℕ → Op
  retrieves : ℕ → Op
  takes_string : ℕ → Op
  takes_all unreads_all : Op
  unwrites : ℕ → Op

-- A call returns the bytes that it hands out, if any.
pub call : Op → Buffer → Option (List ℕ × Buffer)
call (appends src) b = append b src >>= λ b'. some ([], b')
call (retrieves n) b = retrieve b n >>= λ b'. some ([], b')
call (takes_string n) b = retrieve_as_string b n
call takes_all b = retrieve_all_as_string b
call unreads_all b = some ([], retrieve_all b)
call (unwrites n) b = unwrite b n >>= λ b'. some ([], b')

pub run : Buffer → List Op → Option (List (List ℕ))
unfolding call
run b [] = some []
run b (op ∷ ops) = call op b >>= λ r. run r.1 ops >>= λ rs. some (r.0 ∷ rs)

-- The same calls on a queue of bytes, oldest first. A call for more bytes than there are stops.
unfoldable pub spec_call : Op → List ℕ → Option (List ℕ × List ℕ)
spec_call (appends src) q = some ([], q ++ src)
spec_call (retrieves n) q = assert (leb n (length q)) >> some ([], drop n q)
spec_call (takes_string n) q = assert (leb n (length q)) >> some (take n q, drop n q)
spec_call takes_all q = some (q, [])
spec_call unreads_all q = some ([], [])
spec_call (unwrites n) q = assert (leb n (length q)) >> some ([], take (length q - n) q)

unfoldable pub spec_run : List ℕ → List Op → Option (List (List ℕ))
unfolding spec_call
spec_run q [] = some []
spec_run q (op ∷ ops) = spec_call op q >>= λ r. spec_run r.1 ops >>= λ rs. some (r.0 ∷ rs)

-- How many bytes the calls append.
abbrev pub appended : List Op → ℕ
appended [] = 0
appended (appends src ∷ ops) = length src + appended ops
appended (_ ∷ ops) = appended ops

abbrev grows_by : Op → ℕ
grows_by (appends src) = length src
grows_by _ = 0

-- The furthest that the writer has been, if `retrieveAll` is called next.
abbrev reach : Buffer → ℕ
reach b = max b.writer_index cheap_prepend

-- One call agrees with the queue, and moves the writer by no more than the bytes appended.
data Agrees (b : Buffer) (op : Op) : Type 0 where
  stops : call op b ≡ none → spec_call op (contents b) ≡ none → Agrees b op
  goes :
      (out : List ℕ) (b' : Buffer)
      → call op b ≡ some (out, b')
      → spec_call op (contents b) ≡ some (out, contents b')
      → IsValid b'
      → reach b' ≤ reach b + grows_by op
      → Agrees b op

reach-retrieve : (b b' : Buffer) (n : ℕ) → retrieve b n ≡ some b' → reach b' ≤ reach b
unfolding retrieve retrieve_all
reach-retrieve b b' n e = ground arith

reach-as_string :
    (b b' : Buffer) (n : ℕ) (s : List ℕ)
    → retrieve_as_string b n ≡ some (s, b')
    → reach b' ≤ reach b
unfolding retrieve_as_string retrieve retrieve_all
reach-as_string b b' n s e = ground arith

reach-unwrite : (b b' : Buffer) (n : ℕ) → IsValid b → unwrite b n ≡ some b' → reach b' ≤ reach b
unfolding unwrite
reach-unwrite b b' n v e = ground arith

module _ (b : Buffer) (v : IsValid b) where
  -- A call for more bytes than there are stops on both sides.
  retrieve_stops : (n : ℕ) → readable_bytes b < n → retrieve b n ≡ none
  unfolding retrieve
  retrieve_stops n h = rw (lt→not_leb _ _ h) refl

  as_string_stops : (n : ℕ) → readable_bytes b < n → retrieve_as_string b n ≡ none
  unfolding retrieve_as_string
  as_string_stops n h = rw (lt→not_leb _ _ h) refl

  unwrite_stops : (n : ℕ) → readable_bytes b < n → unwrite b n ≡ none
  unfolding unwrite
  unwrite_stops n h = rw (lt→not_leb _ _ h) refl

  call-Agrees : (op : Op) → reach b + grows_by op ≤ max_size → Agrees b op
  unfolding call spec_call
  call-Agrees (appends src) room =
      let (h, moved) = append-Holds b src v (omega arith) in
      goes [] h.buffer (rw h.returns refl) (ap (λ q. some ([], q)) (sym h.holds)) h.valid
        (omega arith)
  call-Agrees (retrieves n) room = elim (dec_lt (readable_bytes b) n) [
    | yes many ↦
        stops (rw (retrieve_stops n many) refl) (rw (length-contents b v, lt→not_leb _ _ many) refl)
    | no few ↦
        let h = retrieve-Holds b v n (omega arith) in
        goes [] h.buffer (rw h.returns refl)
          (rw (length-contents b v, le→leb n (readable_bytes b) (omega arith))
            (ap (λ q. some ([], q)) (sym h.holds)))
          h.valid (omega (arith, reach-retrieve b h.buffer n h.returns))
  ]
  call-Agrees (takes_string n) room = elim (dec_lt (readable_bytes b) n) [
    | yes many ↦ stops (as_string_stops n many) (rw (length-contents b v, lt→not_leb _ _ many) refl)
    | no few ↦
        let g = retrieve_as_string-Gives b v n (omega arith) in
        goes _ g.buffer g.returns
          (rw (length-contents b v, le→leb n (readable_bytes b) (omega arith))
            (ap (λ q. some (take n (contents b), q)) (sym g.holds)))
          g.valid (omega (arith, reach-as_string b g.buffer n _ g.returns))
  ]
  call-Agrees takes_all room =
      let g = retrieve_all_as_string-Gives b v in
      goes _ g.buffer g.returns (ap (λ q. some (contents b, q)) (sym g.holds)) g.valid (
        unfold retrieve_all_as_string in
        omega (arith, reach-as_string b g.buffer (readable_bytes b) _ g.returns))
  call-Agrees unreads_all room =
      let h = retrieve_all-Holds b v in
      unfold retrieve_all in goes [] (retrieve_all b) refl refl (omega arith) (omega arith)
  call-Agrees (unwrites n) room = elim (dec_lt (readable_bytes b) n) [
    | yes many ↦
        stops (rw (unwrite_stops n many) refl) (rw (length-contents b v, lt→not_leb _ _ many) refl)
    | no few ↦
        let h = unwrite-Holds b v n (omega arith) in
        goes [] h.buffer (rw h.returns refl)
          (rw (length-contents b v, le→leb n (readable_bytes b) (omega arith))
            (ap (λ q. some ([], q)) (sym h.holds)))
          h.valid (omega (arith, reach-unwrite b h.buffer n v h.returns))
  ]

appended-cons : (op : Op) (ops : List Op) → appended (op ∷ ops) ≡ grows_by op + appended ops
appended-cons (appends src) ops = refl
appended-cons (retrieves n) ops = omega arith
appended-cons _ ops = omega arith

-- No sequence of these calls tells a valid buffer from the queue of its contents, as long as the
-- bytes that they append fit into the largest vector: the same bytes are handed out, and the calls
-- stop at the same point, the first one that asks for more bytes than there are.
pub run_refines :
    (b : Buffer) (ops : List Op)
    → IsValid b
    → max b.writer_index cheap_prepend + appended ops ≤ max_size
    → run b ops ≡ spec_run (contents b) ops
unfolding run spec_run
run_refines b [] v room = refl
run_refines b (op ∷ ops) v room = elim (call-Agrees b v op (omega (arith, appended-cons op ops))) [
  | stops e e' ↦ rw (e, e') refl
  | goes out b' e e' v' moved ↦
      rw (e, e')
        (ap (λ m. m >>= λ rs. some (out ∷ rs))
          (run_refines b' ops v' (omega (arith, appended-cons op ops))))
]
