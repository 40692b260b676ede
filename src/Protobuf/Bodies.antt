-- ===== src/Protobuf/Bodies.antt =====
-- A message in its frame: the bytes, and what `parse` makes of them.
use rfcs.Common.{
  ℕ, ◌+◌, ◌-◌, ◌^◌, ◌≤◌, ◌<◌, ◌≡◌, refl, sym, ap, ◌∙◌, true, false, List, [], ◌∷◌, ◌++◌, some,
  length, take, drop, arith, length-append, take-append_at, drop-append_at, take-take_le,
  append_assoc,
}
use rfcs.Buffer.{Buffer, readable_bytes, bytes_at, peek}
use rfcs.Buffer.Valid.{IsValid, contents}
use rfcs.Buffer.Contents.{drop-contents}
use rfcs.Buffer.Ints.{to_network}
use rfcs.Buffer.Ints.RoundTrip.{length-to_network, from_network-to_network, limit}
use rfcs.Http.StringMap.{same_refl}
use rfcs.Protobuf.{
  Codec, delivered, header_len, checksum_len, max_message_len, validate_checksum, parse, is_refused,
}

module _ {Message : Type 0} (c : Codec Message) where
  -- The part that the checksum is of, the part that the length is of, and the whole.
  abbrev pub tagged : Message → List ℕ
  tagged m = c.tag ++ c.serialize m

  abbrev pub body : Message → List ℕ
  body m = tagged m ++ to_network 4 (c.adler32 (tagged m))

  abbrev pub frame : Message → List ℕ
  frame m = to_network 4 (length (body m)) ++ body m

  abbrev pub frames : List Message → List ℕ
  frames [] = []
  frames (m ∷ ms) = frame m ++ frames ms

  -- The message is short enough, and the libraries do with it what they say: its bytes give it back,
  -- and the checksum is a pattern of 32 bits.
  pub record IsSendable (m : Message) : Type 0 where
    pub short : length (body m) ≤ max_message_len
    pub parsed : c.parse_from_array (c.serialize m) ≡ some m
    pub word : c.adler32 (tagged m) < 2 ^ 32

  abbrev pub AllSendable : List Message → Type 0
  AllSendable [] = Unit {0}
  AllSendable (m ∷ ms) = IsSendable m × AllSendable ms

  module _ (m : Message) (s : IsSendable m) where
    pub length-body : length (body m) ≡ length (tagged m) + 4
    length-body = omega (
      arith,
      length-append (tagged m) (to_network 4 (c.adler32 (tagged m))),
      length-to_network 4 (c.adler32 (tagged m)),
    )

    pub length-tagged : length (tagged m) ≡ length c.tag + length (c.serialize m)
    length-tagged = length-append c.tag (c.serialize m)

    validate_checksum-body : validate_checksum c (body m) ≡ true
    unfolding validate_checksum
    validate_checksum-body =
        let n : length (body m) - checksum_len ≡ length (tagged m) = omega (arith, length-body) in
        let fits : c.adler32 (tagged m) < limit 4 = omega (arith, s.word) in
        rw
          (
            n,
            take-append_at (length (tagged m)) (tagged m) (to_network 4 (c.adler32 (tagged m)))
                refl,
            drop-append_at (length (tagged m)) (tagged m) (to_network 4 (c.adler32 (tagged m)))
                refl,
            from_network-to_network 4 (c.adler32 (tagged m)) fits,
          )
          (ground arith)

    -- The body is the tag, the bytes of the message and the checksum.
    body_tag :
        (take (length c.tag) (body m) ≡ c.tag)
        × (drop (length c.tag) (body m) ≡ c.serialize m ++ to_network 4 (c.adler32 (tagged m)))
    body_tag =
        let check = to_network 4 (c.adler32 (tagged m)) in
        rw (append_assoc c.tag (c.serialize m) check) (
          take-append_at (length c.tag) c.tag (c.serialize m ++ check) refl,
          drop-append_at (length c.tag) c.tag (c.serialize m ++ check) refl,
        )

    pub parse-body : parse c (body m) ≡ delivered m
    unfolding parse
    parse-body =
        let n : length (body m) - checksum_len - length c.tag ≡ length (c.serialize m) =
          omega (arith, length-body, length-tagged) in
        rw
          (
            validate_checksum-body,
            body_tag.0,
            same_refl c.tag,
            body_tag.1,
            n,
            take-append_at (length (c.serialize m)) (c.serialize m)
                (to_network 4 (c.adler32 (tagged m))) refl,
            s.parsed,
          )
          refl

    pub length-frame : length (frame m) ≡ 4 + length (body m)
    length-frame = omega (
      arith,
      length-append (to_network 4 (length (body m))) (body m),
      length-to_network 4 (length (body m)),
    )

    pub not_refused : is_refused c (length (body m)) ≡ false
    not_refused = ground (arith, s.short, length-body, length-tagged)

  -- A slice of the bytes, behind the length.
  pub bytes_at-contents :
      (b : Buffer) (n : ℕ)
      → IsValid b
      → 4 + n ≤ readable_bytes b
      → bytes_at b (peek b + header_len) n ≡ take n (drop 4 (contents b))
  bytes_at-contents b n v h =
      sym
        (ap (take n) (drop-contents b v 4) ∙ take-take_le n (readable_bytes b - 4) _ (omega arith))
