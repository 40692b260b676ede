-- ===== src/Protobuf.antt =====
-- muduo/net/protobuf/ProtobufCodecLite.cc and ProtobufCodecLite.h: messages in frames. The library of
-- Protocol Buffers and `adler32` of zlib are the fields of `Codec`. A 32-bit integer is its pattern.
pub mod Bodies
pub mod Frames
pub mod Fill
mod Tests
use rfcs.Common.{
  ℕ, zero, suc, ◌+◌, ◌-◌, ◌*◌, ◌%◌, ◌^◌, ◌≡◌, Bool, true, false, not, ◌&&◌, ◌||◌, List, [], ◌∷◌,
  ◌++◌, Option, none, some, ltb, leb, ◌==◌, if◌then◌else◌, length, take, drop, ◌>>=◌, ◌>>◌, assert,
}
use rfcs.Buffer.{
  Buffer, readable_bytes, bytes_at, peek, begin_write, retrieve, append, prepend, copy_to,
  has_written, ensure_writable_bytes,
}
use rfcs.Buffer.Ints.{to_network, from_network, append_int32, peek_int32}
use rfcs.Http.StringMap.{same}
use rfcs.Http.Request.{codes}

-- `tag_` and the raw callback, and what the libraries do: the bytes of a message, a message from
-- bytes, and the checksum of bytes.
pub record Codec (Message : Type 0) : Type 0 where
  pub tag : List ℕ
  pub raw_callback : Option (List ℕ → Bool)
  pub serialize : Message → List ℕ
  pub parse_from_array : List ℕ → Option Message
  pub adler32 : List ℕ → ℕ

abbrev pub header_len : ℕ
header_len = 4

abbrev pub checksum_len : ℕ
checksum_len = 4

abbrev pub max_message_len : ℕ
max_message_len = 64 * 1024 * 1024

pub data ErrorCode : Type 0 where
  no_error invalid_length checksum_error invalid_name_len unknown_message_type parse_error :
      ErrorCode

unfoldable pub error_code_to_string : ErrorCode → List ℕ
error_code_to_string no_error = codes "NoError"
error_code_to_string invalid_length = codes "InvalidLength"
error_code_to_string checksum_error = codes "CheckSumError"
error_code_to_string invalid_name_len = codes "InvalidNameLen"
error_code_to_string unknown_message_type = codes "UnknownMessageType"
error_code_to_string parse_error = codes "ParseError"

-- The calls of the message callback and of the error callback.
pub data Event (Message : Type 0) : Type 0 where
  delivered : Message → Event Message
  failed : ErrorCode → Event Message

module _ {Message : Type 0} (c : Codec Message) where
  abbrev pub min_message_len : ℕ
  min_message_len = length c.tag + checksum_len

  -- The bytes are written behind the contents, where room for the checksum is made as well. `ToIntSize`
  -- of the library stops at a size that an `int` does not hold, and `byte_size + kChecksumLen` is an
  -- `int`, which may not overflow.
  unfoldable pub serialize_to_buffer : Message → Buffer → Option Buffer
  serialize_to_buffer message buf = do
    let bytes = c.serialize message
    assert (ltb (length bytes + checksum_len) (2 ^ 31))
    buf ← ensure_writable_bytes buf (length bytes + checksum_len)
    has_written (record buf { bytes = copy_to (begin_write buf) bytes buf.bytes }) (length bytes)

  -- The length for the checksum is cast to an `int`, which `adler32` takes as an unsigned one; the
  -- length in front is cast to an `int32_t`.
  unfoldable pub fill_empty_buffer : Buffer → Message → Option Buffer
  fill_empty_buffer buf message = do
    assert (readable_bytes buf == 0)
    buf ← append buf c.tag
    buf ← serialize_to_buffer message buf
    buf ← append_int32 buf (c.adler32 (bytes_at buf (peek buf) (readable_bytes buf % 2 ^ 32)))
    assert (readable_bytes buf == length c.tag + length (c.serialize message) + checksum_len)
    prepend buf (to_network 4 (readable_bytes buf % 2 ^ 32))

  unfoldable pub validate_checksum : List ℕ → Bool
  validate_checksum bytes =
      let len = length bytes - checksum_len in
      c.adler32 (take len bytes) == from_network 0 (drop len bytes)

  -- The message, or the error code.
  unfoldable pub parse : List ℕ → Event Message
  parse bytes =
      if validate_checksum bytes
      then (if same (take (length c.tag) bytes) c.tag
          then elim (c.parse_from_array
              (take (length bytes - checksum_len - length c.tag) (drop (length c.tag) bytes))) [
                | none ↦ failed parse_error
                | some message ↦ delivered message
              ]
          else failed unknown_message_type)
      else failed checksum_error

  -- A length with its sign bit set is negative, and less than every other.
  abbrev pub is_refused : ℕ → Bool
  is_refused len = leb (2 ^ 31) len || ltb max_message_len len || ltb len min_message_len

  unfoldable pub raw_refuses : List ℕ → Bool
  raw_refuses bytes = elim c.raw_callback [ none ↦ false | some raw ↦ not (raw bytes) ]

  -- What a round of the loop does with a message that has arrived whole: the calls, whether the loop
  -- goes on, and the buffer.
  unfoldable pub take_message : ℕ → Buffer → Option (List (Event Message) × Bool × Buffer)
  take_message len buf =
      if raw_refuses (bytes_at buf (peek buf) (header_len + len))
      then (do buf' ← retrieve buf (header_len + len); some ([], true, buf'))
      else elim (parse (bytes_at buf (peek buf + header_len) len)) [
        | delivered message ↦ (do
          buf' ← retrieve buf (header_len + len)
          some (delivered message ∷ [], true, buf'))
        | failed code ↦ some (failed code ∷ [], false, buf)
      ]

  -- The loop of `onMessage`. The fuel is the number of rounds; each that goes on takes bytes out.
  unfoldable pub on_message_loop : ℕ → Buffer → Option (List (Event Message) × Buffer)
  on_message_loop zero buf = none
  on_message_loop (suc fuel) buf =
      if leb (min_message_len + header_len) (readable_bytes buf)
      then (do
        len ← peek_int32 buf
        if is_refused len
            then some (failed invalid_length ∷ [], buf)
            else (if leb (header_len + len) (readable_bytes buf)
                then (do
                  (events, go_on, buf') ← take_message len buf
                  (later, end) ← elim go_on [
                    | true ↦ on_message_loop fuel buf'
                    | false ↦ some ([], buf')
                  ]
                  some (events ++ later, end))
                else some ([], buf)))
      else some ([], buf)

  unfoldable pub on_message : Buffer → Option (List (Event Message) × Buffer)
  on_message buf = on_message_loop (suc (readable_bytes buf)) buf
