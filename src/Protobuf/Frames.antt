-- ===== src/Protobuf/Frames.antt =====
-- What `onMessage` makes of a buffer of frames.
use rfcs.Common.{
  ℕ, zero, suc, ◌+◌, ◌-◌, ◌≤◌, ◌<◌, ◌≡◌, refl, sym, ap, ◌∙◌, true, false, List, [], ◌∷◌, ◌++◌, map,
  none, some, leb, length, take, drop, arith, length-append, take-append_at, drop-append_at,
  append_assoc, length-take, Bool-cases, inl, inr,
}
use rfcs.Buffer.{Buffer, readable_bytes, bytes_at, peek, retrieve}
use rfcs.Buffer.Valid.{IsValid, Holds, contents, length-contents}
use rfcs.Buffer.Contents.{retrieve-Holds}
use rfcs.Buffer.Slices.{take-append_add}
use rfcs.Buffer.Ints.{to_network, peek_int32}
use rfcs.Buffer.Ints.RoundTrip.{length-to_network, peek_int32-eq}
use rfcs.Protobuf.{
  Codec, Event, delivered, header_len, min_message_len, raw_refuses, take_message, on_message_loop,
  on_message,
}
use rfcs.Protobuf.Bodies.{
  body, frame, frames, IsSendable, AllSendable, length-body, length-tagged, parse-body,
  length-frame, not_refused, bytes_at-contents,
}

module _ {Message : Type 0} (c : Codec Message) where
  module _ (no_raw : c.raw_callback ≡ none) (b : Buffer) (v : IsValid b) (m : Message)
      (s : IsSendable c m) (rest : List ℕ) (starts : contents b ≡ frame c m ++ rest) where
    split_frame : contents b ≡ to_network 4 (length (body c m)) ++ (body c m ++ rest)
    split_frame = starts ∙ append_assoc (to_network 4 (length (body c m))) (body c m) rest

    frame_readable : 4 + length (body c m) ≤ readable_bytes b
    frame_readable = omega (
      arith,
      length-contents b v,
      ap length starts,
      length-append (frame c m) rest,
      length-frame c m s,
    )

    body_read : bytes_at b (peek b + header_len) (length (body c m)) ≡ body c m
    body_read =
        bytes_at-contents c b (length (body c m)) v frame_readable
        ∙ ap (λ xs. take (length (body c m)) (drop 4 xs)) split_frame
        ∙ ap (take (length (body c m))) (
            drop-append_at 4 (to_network 4 (length (body c m))) (body c m ++ rest)
              (sym (length-to_network 4 (length (body c m)))))
        ∙ take-append_at (length (body c m)) (body c m) rest refl

    frame_left : Holds (retrieve b (4 + length (body c m))) rest
    frame_left =
        let r = retrieve-Holds b v (4 + length (body c m)) frame_readable in
        record {
          buffer = r.buffer;
          returns = r.returns;
          valid = r.valid;
          holds =
              r.holds
              ∙ ap (drop (4 + length (body c m))) starts
              ∙ drop-append_at (4 + length (body c m)) (frame c m) rest (sym (length-frame c m s));
        }

    not_raw : (bytes : List ℕ) → raw_refuses c bytes ≡ false
    unfolding raw_refuses
    not_raw bytes = rw no_raw refl

    take_message-frame :
        take_message c (length (body c m)) b ≡ some (delivered m ∷ [], true, frame_left.buffer)
    unfolding take_message
    take_message-frame =
        rw
          (
            not_raw (bytes_at b (peek b) (header_len + length (body c m))),
            body_read,
            parse-body c m s,
            frame_left.returns,
          )
          refl

    length_read : peek_int32 b ≡ some (length (body c m))
    length_read =
        peek_int32-eq (length (body c m)) b (body c m ++ rest) v (omega (arith, s.short))
          split_frame

    -- A round of the loop with a whole frame in front.
    on_message_loop-frame :
        (fuel : ℕ) (events : List (Event Message)) (end : Buffer)
        → on_message_loop c fuel frame_left.buffer ≡ some (events, end)
        → on_message_loop c (suc fuel) b ≡ some (delivered m ∷ events, end)
    unfolding on_message_loop
    on_message_loop-frame fuel events end h =
        let enough : leb (min_message_len c + header_len) (readable_bytes b) ≡ true =
          ground (arith, frame_readable, length-body c m s, length-tagged c m s) in
        let whole : leb (header_len + length (body c m)) (readable_bytes b) ≡ true =
          ground (arith, frame_readable) in
        rw (enough, length_read, not_refused c m s, whole, take_message-frame, h) refl

  -- A part of a frame that is not the whole of it.
  pub record IsPart (rest : List ℕ) : Type 0 where
    pub message : Message
    pub sendable : IsSendable c message
    pub size : ℕ
    pub proper : size < length (frame c message)
    pub cut : rest ≡ take size (frame c message)

  module _ (b : Buffer) (v : IsValid b) (rest : List ℕ) (part : IsPart rest)
      (holds : contents b ≡ rest) where
    part_readable : readable_bytes b ≡ part.size
    part_readable = omega (
      arith,
      length-contents b v,
      ap length holds,
      ap length part.cut,
      length-take part.size (frame c part.message),
      part.proper,
    )

    length_read_part :
        leb (min_message_len c + header_len) (readable_bytes b) ≡ true
        → peek_int32 b ≡ some (length (body c part.message))
    length_read_part h =
        let m = part.message in
        peek_int32-eq (length (body c m)) b (take (part.size - 4) (body c m)) v
          (omega (arith, part.sendable.short))
          (holds
            ∙ part.cut
            ∙ take-append_add (part.size - 4) part.size (to_network 4 (length (body c m)))
                (body c m) (ground (arith, length-to_network 4 (length (body c m)), part_readable)))

    -- The loop waits for the other part.
    on_message_loop-part : (fuel : ℕ) → on_message_loop c (suc fuel) b ≡ some ([], b)
    unfolding on_message_loop
    on_message_loop-part fuel =
        let m = part.message in
        elim (Bool-cases (leb (min_message_len c + header_len) (readable_bytes b))) [
          | inl e ↦
              let short : leb (header_len + length (body c m)) (readable_bytes b) ≡ false =
                ground (arith, part_readable, part.proper, length-frame c m part.sendable) in
              rw (e, length_read_part e, not_refused c m part.sendable, short) refl
          | inr e ↦ rw e refl
        ]

  on_message_loop-frames :
      (no_raw : c.raw_callback ≡ none) (ms : List Message) (rest : List ℕ) (b : Buffer) (fuel : ℕ)
      → IsValid b
      → AllSendable c ms
      → IsPart rest
      → contents b ≡ frames c ms ++ rest
      → readable_bytes b < fuel
      → (end : Buffer) × (on_message_loop c fuel b ≡ some (map delivered ms, end))
        × (contents end ≡ rest)
        × IsValid end
  on_message_loop-frames no_raw ms rest b zero v ss part h k = absurd (omega arith)
  on_message_loop-frames no_raw [] rest b (suc fuel) v ss part h k =
      (b, on_message_loop-part b v rest part h fuel, h, v)
  on_message_loop-frames no_raw (m ∷ ms) rest b (suc fuel) v (s, ss) part h k =
      let starts : contents b ≡ frame c m ++ (frames c ms ++ rest) =
        h ∙ append_assoc (frame c m) (frames c ms) rest in
      let left = frame_left no_raw b v m s (frames c ms ++ rest) starts in
      let (end, e, q, w) =
        on_message_loop-frames no_raw ms rest left.buffer fuel left.valid ss part left.holds (
          omega (
            arith,
            length-contents left.buffer left.valid,
            ap length left.holds,
            length-contents b v,
            ap length starts,
            length-append (frame c m) (frames c ms ++ rest),
            length-frame c m s,
          )) in
      (
        end,
        on_message_loop-frame no_raw b v m s (frames c ms ++ rest) starts fuel (map delivered ms)
            end e,
        q,
        w,
      )

-- Where there is no raw callback, the library parses each message that it wrote, and a checksum has 32
-- bits: on a valid buffer that holds frames of messages of at most 64 MiB and then a part of another
-- frame, `onMessage` ends after it has given the messages to the callback, in order and each once, and
-- leaves that part in the buffer.
pub on_message-frames :
    {Message : Type 0} (c : Codec Message) (ms : List Message) (rest : List ℕ) (b : Buffer)
    → c.raw_callback ≡ none
    → IsValid b
    → AllSendable c ms
    → IsPart c rest
    → contents b ≡ frames c ms ++ rest
    → (end : Buffer) × (on_message c b ≡ some (map delivered ms, end))
      × (contents end ≡ rest)
      × IsValid end
unfolding on_message
on_message-frames c ms rest b no_raw v ss part h =
    on_message_loop-frames c no_raw ms rest b (suc (readable_bytes b)) v ss part h (omega arith)
