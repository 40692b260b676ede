-- ===== src/Tcp/Output.antt =====
-- What a connection has accepted and still holds, and what an attempt to write leaves of it.
use rfcs.Common.{
  ℕ, zero, suc, ◌+◌, ◌-◌, ◌≤◌, ◌<◌, ◌≡◌, refl, sym, ap, ◌∙◌, Bool, true, false, not, ◌==◌, List, [],
  ◌∷◌, ◌++◌, Option, some, none, arith, ◌⊎◌, inl, inr, dec_lt, length, take, drop, length-drop,
  take-append-drop, append_assoc, append-nil, length-append, le→leb, lt→ltb, le→not_ltb,
}
use rfcs.Buffer.{Buffer, readable_bytes, max_size, add_size}
use rfcs.Buffer.Valid.{IsValid, contents, length-contents}
use rfcs.Buffer.Contents.{append-Holds}
use rfcs.Channel.{is_writing}
use rfcs.Tcp.{
  TcpConnection, WriteResult, wrote, would_block, broken, other_error, after_write, keep_rest,
  keep_output, try_write, complete_if, take_bytes,
}

-- The output buffer is valid, and the channel waits to write just when the buffer is not empty.
pub record Flows (c : TcpConnection) : Type 0 where
  pub valid : IsValid c.output
  pub waits : is_writing c.channel ≡ not (readable_bytes c.output == 0)

-- All bytes that the connection has accepted: those the kernel took, then those that wait.
abbrev pub accepted : TcpConnection → List ℕ
accepted c = c.socket.taken ++ contents c.output

-- A call that returns a connection in order, in the same state, which has accepted these bytes.
pub record Accepts (c : TcpConnection) (r : Option TcpConnection) (bytes : List ℕ) : Type 0 where
  pub after : TcpConnection
  pub returns : r ≡ some after
  pub flows : Flows after
  pub whole : accepted after ≡ bytes
  pub same_state : after.state ≡ c.state

-- The bytes that the kernel takes with an answer; no count if the peer is gone.
abbrev pub count : WriteResult → Option ℕ
count (wrote n) = some n
count would_block = some 0
count other_error = some 0
count broken = none

-- What was accepted, when the kernel took the first `n` bytes and the others wait, and the kernel
-- takes bytes directly only if none wait.
joins :
    (taken old bytes : List ℕ) (n : ℕ)
    → (n ≡ 0) ⊎ (old ≡ [])
    → (taken ++ take n bytes) ++ (old ++ drop n bytes) ≡ (taken ++ old) ++ bytes
joins taken old bytes n (inl z) = rw (z, append-nil taken) (sym (append_assoc taken old bytes))
joins taken old bytes n (inr e) =
    rw (e, append-nil taken)
      (append_assoc taken (take n bytes) (drop n bytes)
        ∙ ap (λ l. taken ++ l) (take-append-drop n bytes))

drop_all : (n : ℕ) (bytes : List ℕ) → length bytes ≤ n → drop n bytes ≡ []
drop_all zero [] h = refl
drop_all zero (x ∷ xs) h = absurd (omega arith)
drop_all (suc n) [] h = refl
drop_all (suc n) (x ∷ xs) h = drop_all n xs (omega arith)

pub empty : (b : Buffer) → IsValid b → readable_bytes b ≡ 0 → contents b ≡ []
empty b v z = rw z refl

record Kept (d : TcpConnection) (b : Buffer) (e : TcpConnection) : Type 0 where
  pub output : e.output ≡ b
  pub waiting : is_writing e.channel ≡ true
  pub state : e.state ≡ d.state
  pub socket : e.socket ≡ d.socket

keep_output-Kept : (m n : ℕ) (c : TcpConnection) (b : Buffer) → Kept c b (keep_output m n c b)
unfolding keep_output
keep_output-Kept m n c b = record {
  output = ground arith;
  waiting = ground arith;
  state = ground arith;
  socket = ground arith;
}

pub nonzero : (n : ℕ) → 0 < n → not (n == 0) ≡ true
nonzero n h = ground arith

pub positive : (n : ℕ) → not (n == 0) ≡ true → 0 < n
positive n h = ground arith

-- Behind a direct write of the first `n` bytes.
module _ (c d : TcpConnection) (bytes : List ℕ) (n : ℕ) (f : Flows c)
    (same_output : d.output ≡ c.output) (same_channel : d.channel ≡ c.channel)
    (same_state : d.state ≡ c.state) (took : d.socket.taken ≡ c.socket.taken ++ take n bytes)
    (limited : c.output.writer_index + length bytes ≤ max_size) (few : n ≤ length bytes)
    (order : (n ≡ 0) ⊎ (contents c.output ≡ [])) where
  keep_rest-Accepts : n < length bytes → Accepts c (keep_rest bytes d n) (accepted c ++ bytes)
  unfolding keep_rest
  keep_rest-Accepts less =
      let (h, _) =
        append-Holds c.output (drop n bytes) f.valid (omega (arith, length-drop n bytes)) in
      let k =
        keep_output-Kept (readable_bytes d.output)
          (add_size (readable_bytes d.output) (length bytes - n)) d h.buffer in
      let more : 0 < readable_bytes h.buffer = omega (
        arith,
        length-contents h.buffer h.valid,
        ap length h.holds,
        length-append (contents c.output) (drop n bytes),
        length-drop n bytes,
      ) in
      record {
        after =
            keep_output (readable_bytes d.output)
              (add_size (readable_bytes d.output) (length bytes - n)) d h.buffer;
        returns = rw (same_output, h.returns) refl;
        flows = record {
          valid = rw k.output h.valid;
          waits = rw k.output (k.waiting ∙ sym (nonzero _ more));
        };
        whole =
            rw (k.output, k.socket, took, h.holds)
              (joins c.socket.taken (contents c.output) bytes n order);
        same_state = k.state ∙ same_state;
      }

  pub after_write-Accepts : Accepts c (after_write bytes (d, n, false)) (accepted c ++ bytes)
  unfolding after_write
  after_write-Accepts = elim (dec_lt n (length bytes)) [
    | yes less ↦ rw (le→leb _ _ few, lt→ltb _ _ less) (keep_rest-Accepts less)
    | no all ↦
        let same : n ≡ length bytes = omega arith in
        let none_left : drop n bytes ≡ [] = drop_all n bytes (omega arith) in
        rw (le→leb _ _ few, le→not_ltb (length bytes) n (omega arith))
          (record {
            after = d;
            returns = refl;
            flows = record {
              valid = rw same_output f.valid;
              waits = rw (same_output, same_channel) f.waits;
            };
            whole =
                rw (same_output, took)
                  (ap (λ l. (c.socket.taken ++ take n bytes) ++ l)
                      (sym (
                        ap (λ r. contents c.output ++ r) none_left
                        ∙ append-nil (contents c.output)))
                    ∙ joins c.socket.taken (contents c.output) bytes n order);
            same_state = same_state;
          })
  ]

pub record Tried (c : TcpConnection) (bytes : List ℕ) (n : ℕ) (t : TcpConnection × ℕ × Bool)
    : Type 0 where
  pub count_is : t.1 ≡ n
  pub no_fault : t.2 ≡ false
  pub output : t.0.output ≡ c.output
  pub channel : t.0.channel ≡ c.channel
  pub state : t.0.state ≡ c.state
  pub took : t.0.socket.taken ≡ c.socket.taken ++ take n bytes

complete_if-Tried :
    (b : Bool) (c d : TcpConnection) (bytes : List ℕ) (n : ℕ)
    → Tried c bytes n (d, n, false)
    → Tried c bytes n (complete_if b d, n, false)
unfolding complete_if
complete_if-Tried b c d bytes n t = record {
  count_is = refl;
  no_fault = refl;
  output = ground (arith, t.output);
  channel = ground (arith, t.channel);
  state = ground (arith, t.state);
  took = ground (arith, t.took);
}

pub try_write-Tried :
    (answer : WriteResult) (c : TcpConnection) (bytes : List ℕ) (n : ℕ)
    → count answer ≡ some n
    → Tried c bytes n (try_write answer bytes c)
unfolding try_write take_bytes
try_write-Tried (wrote m) c bytes n e =
    let m_is : m ≡ n = ground arith in
    rw m_is (
      complete_if-Tried (length bytes == n) c (take_bytes n bytes c) bytes n (record {
        count_is = refl;
        no_fault = refl;
        output = refl;
        channel = refl;
        state = refl;
        took = refl;
      }))
try_write-Tried would_block c bytes n e =
    let z : 0 ≡ n = ground arith in
    rw (sym z) record {
      count_is = refl;
      no_fault = refl;
      output = refl;
      channel = refl;
      state = refl;
      took = sym (append-nil c.socket.taken);
    }
try_write-Tried other_error c bytes n e =
    let z : 0 ≡ n = ground arith in
    rw (sym z) record {
      count_is = refl;
      no_fault = refl;
      output = refl;
      channel = refl;
      state = refl;
      took = sym (append-nil c.socket.taken);
    }
try_write-Tried broken c bytes n e = ground arith
