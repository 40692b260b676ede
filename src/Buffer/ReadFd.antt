-- ===== src/Buffer/ReadFd.antt =====
-- muduo/net/Buffer.cc: `readFd`. The `readv` system call is the argument `readv`, a function of the
-- room that the iovecs give it: the bytes that came, or the `errno` of a failure.
use rfcs.Common.{
  ℕ, ◌+◌, ◌≤◌, ◌<◌, ◌≡◌, refl, ap, ◌∙◌, List, ◌++◌, Option, some, arith, ltb, leb, if◌then◌else◌,
  length, take, drop, ◌>>=◌, append_assoc, take-append-drop, take_all, lt→not_leb, dec_lt, le→leb,
  length-take, length-drop,
}
use rfcs.Buffer.{Buffer, writable_bytes, begin_write, add_size, copy_to, append, max_size}
use rfcs.Buffer.Valid.{IsValid, Holds, Gives, contents}
use rfcs.Buffer.Contents.{append-Holds, filled, filled-IsValid, length-filled, contents-filled}

pub data ReadResult : Type 0 where
  received : List ℕ → ReadResult
  failed : ℕ → ReadResult

-- `sizeof extrabuf`
abbrev pub extra_size : ℕ
extra_size = 65536

-- What the iovecs offer: the writable bytes, and the extra buffer where these are few.
abbrev pub room : Buffer → ℕ
room b =
    if ltb (writable_bytes b) extra_size then writable_bytes b + extra_size else writable_bytes b

-- The bytes are in the two iovecs: the first ones behind the contents, the others in `extrabuf`.
store : Buffer → List ℕ → Option Buffer
unfolding copy_to
store b src =
    let writable = writable_bytes b in
    let scattered = record b { bytes = copy_to (begin_write b) (take writable src) b.bytes } in
    if leb (length src) writable
    then some (record scattered { writer_index = add_size b.writer_index (length src) })
    else append (record scattered { writer_index = length scattered.bytes }) (drop writable src)

pub read_fd : (ℕ → ReadResult) → Buffer → Option (ReadResult × Buffer)
unfolding store
read_fd readv b = elim (readv (room b)) [
  | failed e ↦ some (failed e, b)
  | received src ↦ store b src >>= λ b'. some (received src, b')
]

module _ (b : Buffer) (src : List ℕ) (v : IsValid b) where
  store_short : length src ≤ writable_bytes b → Holds (store b src) (contents b ++ src)
  unfolding store filled
  store_short h = record {
    buffer = filled b v src h;
    returns =
        rw (le→leb _ _ h, take_all (writable_bytes b) src h)
          (ap
            (λ k. some (record b { bytes = copy_to b.writer_index src b.bytes; writer_index = k }))
            (omega arith));
    valid = filled-IsValid b v src h;
    holds = contents-filled b v src h;
  }

  module _ (h : writable_bytes b < length src)
      (limited : b.writer_index + length src ≤ max_size) where
    first : List ℕ
    first = take (writable_bytes b) src

    first_fits : length first ≤ writable_bytes b
    unfolding first
    first_fits = omega (arith, length-take (writable_bytes b) src)

    full : Buffer
    full = filled b v first first_fits

    store-append : store b src ≡ append full (drop (writable_bytes b) src)
    unfolding store full filled first
    store-append = rw (lt→not_leb _ _ h) (
        ap
          (λ k.
            append (record b { bytes = copy_to b.writer_index first b.bytes; writer_index = k })
              (drop (writable_bytes b) src))
          (omega (arith, length-filled b v first first_fits, length-take (writable_bytes b) src)))

    store_long : Holds (store b src) (contents b ++ src)
    unfolding full first filled
    store_long =
        let (a, _) =
          append-Holds full (drop (writable_bytes b) src) (filled-IsValid b v first first_fits) (
            omega
              (arith, length-take (writable_bytes b) src, length-drop (writable_bytes b) src)) in
        let joined : (contents b ++ first) ++ drop (writable_bytes b) src ≡ contents b ++ src =
          append_assoc (contents b) first (drop (writable_bytes b) src)
          ∙ ap (λ l. contents b ++ l) (take-append-drop (writable_bytes b) src) in
        rw store-append record {
          buffer = a.buffer;
          returns = a.returns;
          valid = a.valid;
          holds =
              a.holds
              ∙ ap (λ c. c ++ drop (writable_bytes b) src) (contents-filled b v first first_fits)
              ∙ joined;
        }

store-Holds :
    (b : Buffer) (src : List ℕ)
    → IsValid b
    → b.writer_index + length src ≤ max_size
    → Holds (store b src) (contents b ++ src)
store-Holds b src v limited = elim (dec_lt (writable_bytes b) (length src)) [
  | yes long ↦ store_long b src v long limited
  | no short ↦ store_short b src v (omega arith)
]

-- What `readFd` does with each answer of `readv`.
abbrev pub Outcome : Buffer → ReadResult → Option (ReadResult × Buffer) → Type 0
Outcome b (failed e) r = r ≡ some (failed e, b)
Outcome b (received src) r = Gives r (received src) (contents b ++ src)

-- `readFd` on a valid buffer that may grow by the extra buffer, where `readv` never returns more
-- bytes than the iovecs have room for. Bytes that are received are put behind the contents, all of
-- them and in order, on both sides of the test against the writable bytes, and no assertion fails.
-- When `readv` fails its `errno` is returned and the buffer stays as it was.
pub read_fd-Outcome :
    (readv : ℕ → ReadResult) (b : Buffer)
    → ((n : ℕ) (src : List ℕ) → readv n ≡ received src → length src ≤ n)
    → IsValid b
    → length b.bytes + extra_size ≤ max_size
    → Outcome b (readv (room b)) (read_fd readv b)
unfolding read_fd
read_fd-Outcome readv b honest v limited = go (readv (room b)) refl
  where
    go : (r : ReadResult) → readv (room b) ≡ r → Outcome b r (read_fd readv b)
    go (failed e) q = rw (q, read_fd) refl
    go (received src) q =
        let few = honest (room b) src q in
        let h = store-Holds b src v (ground arith) in
        record {
          buffer = h.buffer;
          returns = rw (q, read_fd, h.returns) refl;
          valid = h.valid;
          holds = h.holds;
        }
