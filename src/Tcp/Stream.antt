-- ===== src/Tcp/Stream.antt =====
-- The bytes of a connection: what is sent reaches the kernel whole and in order, through the
-- direct write of `sendInLoop` and the writes of `handleWrite`.
use rfcs.Common.{
  ℕ, ◌+◌, ◌≤◌, ◌<◌, ◌≡◌, refl, sym, ap, ap₂, subst, ◌∙◌, Bool, true, false, not, ◌==◌, List, [],
  ◌++◌, some, arith, inl, inr, dec_lt, ℕ_discrete, length, take, drop, length-drop,
  take-append-drop, append_assoc, append-nil, lt→ltb, le→not_ltb, take_all, if◌then◌else◌,
}
use rfcs.Buffer.{Buffer, readable_bytes, max_size, retrieve}
use rfcs.Buffer.Valid.{contents, length-contents}
use rfcs.Buffer.Contents.{retrieve-Holds}
use rfcs.Channel.{is_writing}
use rfcs.Tcp.{
  TcpConnection, disconnecting, WriteResult, wrote, would_block, broken, other_error,
  is_disconnected, send_in_loop, after_write, try_write, complete_if, take_bytes,
  after_handle_write, handle_write, drained, shutdown_in_loop,
}
use rfcs.Tcp.Output.{
  Flows, accepted, Accepts, count, empty, nonzero, positive, after_write-Accepts, Tried,
  try_write-Tried,
}

send_in_loop-idle :
    (c : TcpConnection) (answer : WriteResult) (bytes : List ℕ)
    → is_disconnected c.state ≡ false
    → is_writing c.channel ≡ false
    → readable_bytes c.output ≡ 0
    → send_in_loop answer bytes c ≡ after_write bytes (try_write answer bytes c)
unfolding send_in_loop
send_in_loop-idle c answer bytes up idle none_left = ground arith

send_in_loop-busy :
    (c : TcpConnection) (answer : WriteResult) (bytes : List ℕ)
    → is_disconnected c.state ≡ false
    → is_writing c.channel ≡ true
    → send_in_loop answer bytes c ≡ after_write bytes (c, 0, false)
unfolding send_in_loop
send_in_loop-busy c answer bytes up busy = ground arith

after_try-Accepts :
    (c : TcpConnection) (bytes : List ℕ) (n : ℕ) (t : TcpConnection × ℕ × Bool)
    → Tried c bytes n t
    → Flows c
    → c.output.writer_index + length bytes ≤ max_size
    → n ≤ length bytes
    → contents c.output ≡ []
    → Accepts c (after_write bytes t) (accepted c ++ bytes)
after_try-Accepts c bytes n t tried f limited few none_left =
    subst (λ u. Accepts c (after_write bytes u) (accepted c ++ bytes))
      (ap₂ (λ m b. (t.0, m, b)) (sym tried.count_is) (sym tried.no_fault))
      (after_write-Accepts c t.0 bytes n f tried.output tried.channel tried.state tried.took limited
        few (inr none_left))

-- `sendInLoop` on a connection that is not disconnected, whose output buffer may grow by the bytes,
-- when the peer is not gone and `write` takes at most the bytes it is given: no assertion fails,
-- and the bytes that the kernel took, followed by those that wait in the buffer, are the ones from
-- before followed by the bytes sent, whether they are written at once, in part, or not at all.
-- The channel waits to write after it just when bytes are left.
pub send_in_loop-Accepts :
    (c : TcpConnection) (answer : WriteResult) (bytes : List ℕ) (n : ℕ)
    → Flows c
    → is_disconnected c.state ≡ false
    → count answer ≡ some n
    → n ≤ length bytes
    → c.output.writer_index + length bytes ≤ max_size
    → Accepts c (send_in_loop answer bytes c) (accepted c ++ bytes)
send_in_loop-Accepts c answer bytes n f up e few limited =
    elim (ℕ_discrete (readable_bytes c.output) 0) [
      | yes z ↦
          let idle : is_writing c.channel ≡ false = f.waits ∙ ap (λ k. not (k == 0)) z in
          subst (λ r. Accepts c r (accepted c ++ bytes))
            (sym (send_in_loop-idle c answer bytes up idle z))
            (after_try-Accepts c bytes n (try_write answer bytes c)
              (try_write-Tried answer c bytes n e) f limited few (empty c.output f.valid z))
      | no nz ↦
          let busy : is_writing c.channel ≡ true =
            f.waits ∙ nonzero (readable_bytes c.output) (omega arith) in
          subst (λ r. Accepts c r (accepted c ++ bytes))
            (sym (send_in_loop-busy c answer bytes up busy))
            (after_write-Accepts c c bytes 0 f refl refl refl (sym (append-nil c.socket.taken))
              limited (omega arith) (inl refl))
    ]

record Drained (c d : TcpConnection) : Type 0 where
  pub output : d.output ≡ c.output
  pub taken : d.socket.taken ≡ c.socket.taken
  pub idle : is_writing d.channel ≡ false
  pub state : d.state ≡ c.state
  pub shut : c.state ≡ disconnecting → d.socket.write_shut ≡ true

drained-Drained : (c : TcpConnection) → Drained c (drained c)
unfolding drained complete_if shutdown_in_loop
drained-Drained c = record {
  output = ground arith;
  taken = ground arith;
  idle = ground arith;
  state = ground arith;
  shut = ground arith;
}

-- The connection after `n` bytes left the output buffer `b`.
abbrev moved : TcpConnection → ℕ → Buffer → TcpConnection
moved c n b = record c {
  output = b;
  socket = record (c.socket) { taken = c.socket.taken ++ take n (contents c.output) };
}

moved-accepted :
    (c : TcpConnection) (n : ℕ) (b : Buffer)
    → contents b ≡ drop n (contents c.output)
    → accepted (moved c n b) ≡ accepted c
moved-accepted c n b e = rw e (
    append_assoc c.socket.taken (take n (contents c.output)) (drop n (contents c.output))
    ∙ ap (λ l. c.socket.taken ++ l) (take-append-drop n (contents c.output)))

-- What is left after `write` took `n` of the bytes that wait.
stays : (c : TcpConnection) → Flows c → Accepts c (some c) (accepted c)
stays c f = record { after = c; returns = refl; flows = f; whole = refl; same_state = refl }

module _ (c : TcpConnection) (n : ℕ) (f : Flows c) (busy : is_writing c.channel ≡ true)
    (few : n ≤ readable_bytes c.output) where
  -- `after_handle_write` when `write` took `n` bytes, and `b` is the output buffer without them.
  leaves :
      (b : Buffer)
      → retrieve c.output n ≡ some b
      → 0 < n
      → after_handle_write c (wrote n)
        ≡ some (if readable_bytes b == 0 then drained (moved c n b) else moved c n b)
  unfolding after_handle_write take_bytes
  leaves b e pos = rw (lt→ltb _ _ pos, e) refl

  after_wrote-Accepts : Accepts c (after_handle_write c (wrote n)) (accepted c)
  unfolding after_handle_write
  after_wrote-Accepts = elim (dec_lt 0 n) [
    | no zero_bytes ↦ rw (le→not_ltb n 0 (omega arith)) (stays c f)
    | yes pos ↦
        let h = retrieve-Holds c.output f.valid n few in
        let same = moved-accepted c n h.buffer h.holds in
        let d = drained-Drained (moved c n h.buffer) in
        subst (λ r. Accepts c r (accepted c)) (sym (leaves h.buffer h.returns pos))
          (elim (ℕ_discrete (readable_bytes h.buffer) 0) [
            | yes z ↦ record {
              after = drained (moved c n h.buffer);
              returns = rw z refl;
              flows = record {
                valid = rw d.output h.valid;
                waits = d.idle ∙ sym (rw (d.output, z) refl);
              };
              whole = rw (d.output, d.taken) same;
              same_state = d.state;
            }
            | no nz ↦ record {
              after = moved c n h.buffer;
              returns = ground arith;
              flows = record {
                valid = h.valid;
                waits = busy ∙ sym (nonzero (readable_bytes h.buffer) (omega arith));
              };
              whole = same;
              same_state = refl;
            }
          ])
  ]

handle_write-writing :
    (answer : WriteResult) (c : TcpConnection)
    → is_writing c.channel ≡ true
    → handle_write answer c ≡ after_handle_write c answer
unfolding handle_write
handle_write-writing answer c q = ground arith

-- `handleWrite` when the channel waits to write, and `write` takes at most the bytes that wait: no
-- assertion fails, the bytes accepted stay the same, in order, and the channel goes on waiting
-- just when bytes are left.
pub handle_write-Accepts :
    (c : TcpConnection) (answer : WriteResult) (n : ℕ)
    → Flows c
    → count answer ≡ some n
    → n ≤ readable_bytes c.output
    → Accepts c (handle_write answer c) (accepted c)
unfolding handle_write
handle_write-Accepts c answer n f e few = writes_or_not (is_writing c.channel) refl
  where
    writes_or_not :
        (b : Bool) → is_writing c.channel ≡ b → Accepts c (handle_write answer c) (accepted c)
    writes_or_not false q = record {
      after = c;
      returns = ground arith;
      flows = f;
      whole = refl;
      same_state = refl;
    }
    writes_or_not true q =
        subst (λ r. Accepts c r (accepted c)) (sym (handle_write-writing answer c q))
          (by_answer answer e)
      where
        some_is : {m k : ℕ} → some m ≡ some k → m ≡ k
        some_is e = cc

        by_answer :
            (a : WriteResult) → count a ≡ some n → Accepts c (after_handle_write c a) (accepted c)
        by_answer (wrote m) e = rw (some_is e) (after_wrote-Accepts c n f q few)
        by_answer would_block e = stays c f
        by_answer other_error e = stays c f
        by_answer broken e = ground arith

-- In the state disconnecting, when the channel waits to write and `write` takes all the bytes that
-- wait, `handleWrite` returns a connection whose socket is shut for writing, and all bytes that
-- were accepted are with the kernel, in order.
pub handle_write-shuts :
    (c : TcpConnection)
    → Flows c
    → is_writing c.channel ≡ true
    → c.state ≡ disconnecting
    → (d : TcpConnection) × (handle_write (wrote (readable_bytes c.output)) c ≡ some d)
      × (d.socket.write_shut ≡ true)
      × (d.socket.taken ≡ accepted c)
handle_write-shuts c f busy down =
    let n = readable_bytes c.output in
    let h = retrieve-Holds c.output f.valid n (omega arith) in
    let d = drained-Drained (moved c n h.buffer) in
    let pos : 0 < n = positive n (sym f.waits ∙ busy) in
    let z : readable_bytes h.buffer ≡ 0 = omega (
      arith,
      length-contents h.buffer h.valid,
      ap length h.holds,
      length-drop n (contents c.output),
      length-contents c.output f.valid,
    ) in
    (
      drained (moved c n h.buffer),
      handle_write-writing (wrote n) c busy
          ∙ leaves c n f busy (omega arith) h.buffer h.returns pos
          ∙ ap (λ k. some (if k == 0 then drained (moved c n h.buffer) else moved c n h.buffer)) z,
      d.shut down,
      d.taken
          ∙ ap (λ l. c.socket.taken ++ l)
              (take_all n (contents c.output) (omega (arith, length-contents c.output f.valid))),
    )
