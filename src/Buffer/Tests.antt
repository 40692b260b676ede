-- ===== src/Buffer/Tests.antt =====
-- Tests of `Buffer`, and its theorems at concrete inputs.
use rfcs.Common.{
  ℕ, ◌^◌, ◌≤◌, ◌≡◌, refl, List, [], ◌∷◌, some, arith, length, ◌>>=◌, ltb, if◌then◌else◌,
}
use mathlib.Core.Option
use rfcs.Buffer.{
  Buffer, append, retrieve, shrink, readable_bytes, ensure_writable_bytes, make_space, resize,
  copy_to, has_written,
}
use rfcs.Buffer.Valid.{IsValid, Gives, Holds, contents}
use rfcs.Buffer.Space.{MadeRoom, ensure_writable_bytes-MadeRoom}
use rfcs.Buffer.Calls.{CrlfAt, find_crlf-CrlfAt, shrink-Holds}
use rfcs.Buffer.Search.{find_crlf, search_crlf}
use rfcs.Buffer.ReadFd.{ReadResult, received, read_fd, room, Outcome, read_fd-Outcome}
use rfcs.Buffer.Ints.{int32, int64, append_int, prepend_int, read_int}
use rfcs.Buffer.Ints.RoundTrip.{read-prepend_int, read-append_int}
use rfcs.Buffer.Refine.{appends, retrieves, takes_string, takes_all, run, spec_run, run_refines}

-- "hi\r\n!" after eight bytes of prepend area, with two writable bytes.
abbrev greeting : Buffer
greeting = record {
  bytes = 0 ∷ 0 ∷ 0 ∷ 0 ∷ 0 ∷ 0 ∷ 0 ∷ 0 ∷ 104 ∷ 105 ∷ 13 ∷ 10 ∷ 33 ∷ 0 ∷ 0 ∷ [];
  reader_index = 8;
  writer_index = 13;
}

greeting-IsValid : IsValid greeting
greeting-IsValid = omega arith

-- The vector grows: three bytes do not fit behind the contents, and there is no room in front.
append_grows : Option.map (λ b. length b.bytes) (append greeting (1 ∷ 2 ∷ 3 ∷ [])) ≡ some 16
unfolding append ensure_writable_bytes make_space resize copy_to has_written
append_grows = refl

crlf_found : find_crlf greeting ≡ some 10
unfolding find_crlf search_crlf
crlf_found = refl

-- A `readv` that has 70000 bytes to give and gives what there is room for.
abbrev generous : ℕ → ReadResult
generous n = received (if ltb n 3 then [] else 7 ∷ 8 ∷ 9 ∷ [])

generous_honest : (n : ℕ) (src : List ℕ) → generous n ≡ received src → length src ≤ n
generous_honest n src e = ground arith

run_refines_example :
    run greeting (appends (1 ∷ 2 ∷ 3 ∷ []) ∷ takes_string 2 ∷ retrieves 2 ∷ takes_all ∷ [])
    ≡ some ([] ∷ (104 ∷ 105 ∷ []) ∷ [] ∷ (33 ∷ 1 ∷ 2 ∷ 3 ∷ []) ∷ [])
unfolding spec_run
run_refines_example =
    run_refines greeting (appends (1 ∷ 2 ∷ 3 ∷ []) ∷ takes_string 2 ∷ retrieves 2 ∷ takes_all ∷ [])
      greeting-IsValid (omega arith)

ensure_writable_bytes-MadeRoom_example : MadeRoom greeting 3 (ensure_writable_bytes greeting 3)
ensure_writable_bytes-MadeRoom_example =
    ensure_writable_bytes-MadeRoom greeting 3 greeting-IsValid (omega arith)

read_fd-Outcome_example : Outcome greeting (generous (room greeting)) (read_fd generous greeting)
read_fd-Outcome_example =
    read_fd-Outcome generous greeting generous_honest greeting-IsValid (omega arith)

find_crlf-CrlfAt_example : CrlfAt greeting (find_crlf greeting)
find_crlf-CrlfAt_example = find_crlf-CrlfAt greeting greeting-IsValid

shrink-Holds_example : Holds (shrink greeting 100) (contents greeting)
shrink-Holds_example = shrink-Holds greeting greeting-IsValid 100 (omega arith) (omega arith)

read-prepend_int_example :
    Gives (prepend_int int32 greeting 0x01020304 >>= read_int int32) 0x01020304 (contents greeting)
read-prepend_int_example =
    read-prepend_int int32 greeting 0x01020304 greeting-IsValid (omega arith) (omega arith)

read-append_int_example :
    Gives
      (append_int int64 greeting (2 ^ 63) >>= λ b.
        retrieve b (readable_bytes greeting) >>= read_int int64)
      (2 ^ 63)
      []
read-append_int_example =
    read-append_int int64 greeting (2 ^ 63) greeting-IsValid (omega arith) (omega arith)
