-- ===== src/Protobuf/Tests.antt =====
-- Tests of `Protobuf`, and its theorems at concrete inputs.
use rfcs.Common.{
  ℕ, ◌+◌, ◌*◌, ◌%◌, ◌≡◌, refl, arith, List, [], ◌∷◌, ◌++◌, map, some, none, replicate,
}
use rfcs.Buffer.{Buffer}
use rfcs.Buffer.Valid.{IsValid, Holds, contents}
use rfcs.Buffer.Ints.{to_network}
use rfcs.Protobuf.{Codec, delivered, on_message, fill_empty_buffer}
use rfcs.Protobuf.Bodies.{IsSendable, frame, frames}
use rfcs.Protobuf.Frames.{IsPart, on_message-frames}
use rfcs.Protobuf.Fill.{fill_empty_buffer-Holds}

-- The checksum of zlib, from the sums `a` and `b`.
abbrev adler : ℕ → ℕ → List ℕ → ℕ
adler a b [] = b * 65536 + a
adler a b (x ∷ xs) = adler ((a + x) % 65521) ((b + (a + x) % 65521) % 65521) xs

-- Messages that are their own bytes, and the tag RPC0.
abbrev codec : Codec (List ℕ)
codec = record {
  tag = 82 ∷ 80 ∷ 67 ∷ 48 ∷ [];
  raw_callback = none;
  serialize = λ m. m;
  parse_from_array = λ bytes. some bytes;
  adler32 = adler 1 0;
}

abbrev first : List ℕ
first = 1 ∷ 2 ∷ 3 ∷ []

abbrev second : List ℕ
second = 4 ∷ 5 ∷ []

first_IsSendable : IsSendable codec first
unfolding to_network
first_IsSendable = record { short = omega arith; parsed = refl; word = omega arith }

second_IsSendable : IsSendable codec second
unfolding to_network
second_IsSendable = record { short = omega arith; parsed = refl; word = omega arith }

abbrev part : List ℕ
part = 0 ∷ 0 ∷ 0 ∷ 10 ∷ 82 ∷ 80 ∷ []

part-IsPart : IsPart codec part
unfolding to_network
part-IsPart = record {
  message = second;
  sendable = second_IsSendable;
  size = 6;
  proper = omega arith;
  cut = refl;
}

-- A frame of the first message and the first six bytes of the next one.
abbrev arrived : Buffer
arrived = record {
  bytes =
      replicate 8 0
      ++ (0 ∷ 0 ∷ 0 ∷ 11 ∷ 82 ∷ 80 ∷ 67 ∷ 48 ∷ 1 ∷ 2 ∷ 3 ∷ 6 ∷ 62 ∷ 1 ∷ 28 ∷ [])
      ++ part
      ++ replicate 4 0;
  reader_index = 8;
  writer_index = 29;
}

arrived-frames : contents arrived ≡ frames codec (first ∷ []) ++ part
unfolding to_network
arrived-frames = refl

on_message-frames_example :
    (end : Buffer) × (on_message codec arrived ≡ some (map delivered (first ∷ []), end))
    × (contents end ≡ part)
    × IsValid end
on_message-frames_example =
    on_message-frames codec (first ∷ []) part arrived refl (omega arith) (first_IsSendable, tt)
      part-IsPart arrived-frames

abbrev fresh : Buffer
fresh = record { bytes = replicate 32 0; reader_index = 8; writer_index = 8 }

fill_empty_buffer-Holds_example : Holds (fill_empty_buffer codec fresh first) (frame codec first)
fill_empty_buffer-Holds_example =
    fill_empty_buffer-Holds codec first fresh (omega arith) refl (omega arith) (omega arith)
      (omega arith)
