-- ===== src/Ipc/Connection/Format.antt =====
-- A whole message as the comment on the class SocketConnection describes it
-- (tools/connection/main.cpp), read by a peer.
use qbind.Base.{ℕ, ◌+◌, ◌-◌, ◌*◌, ◌/◌, ◌%◌, ◌^◌, ◌<◌, ◌≡◌, refl, arith, false, List, ◌∷◌, ◌++◌}
use qbind.Base.Tests.{◌==◌, ◌!=◌, if◌then◌else◌}
use qbind.Base.Lists.{length, take, drop, length-append}
use qbind.Base.Outcome.{Outcome, ok, undefined, ◌>>=◌}
use qbind.Ipc.{Endian, little, big, is_little, bytes_of, value_of}
use qbind.Ipc.Access.{take-append_left, drop-append_left}
use qbind.Ipc.Bytes.{length-bytes_of, value_of-bytes_of}
use qbind.Ipc.Connection.{gb}
use qbind.Ipc.Connection.Header.{order_of-flag}
use qbind.Ipc.Compress.Format.{restore}

-- The width of the field for the size before compression.
abbrev pub size_width : (compressed : ℕ) → ℕ
size_width compressed = if compressed == 1 then 4 else 8

-- The byte order, the type and the payload of a complete message.
unfoldable pub message_of : (cache : ℕ → ℕ) → List ℕ → Outcome (Endian × ℕ × List ℕ)
message_of cache (order ∷ msg_type ∷ compressed ∷ excess ∷ rest) =
    let e : Endian = if order == 1 then little else big in
    let w = size_width compressed in
    if gb 4 * excess + value_of e (take 4 rest) != 4 + length rest
    then undefined
    else if compressed == 0
    then ok (e, msg_type, drop 4 rest)
    else (restore cache (value_of e (take w (drop 4 rest)) - 8) (drop w (drop 4 rest))
        >>= λ payload. ok (e, msg_type, payload))
message_of cache bs = undefined

-- The bytes of a message: with the payload as it is, and with a compressed one behind the size
-- `before` that the message had.
abbrev pub plain_message : Endian → (msg_type : ℕ) → (payload : List ℕ) → List ℕ
plain_message e msg_type payload =
    let size = 8 + length payload in
    (if is_little e then 1 else 0)
    ∷ msg_type
    ∷ 0
    ∷ (size / gb 4)
    ∷ (bytes_of e 4 (size % gb 4) ++ payload)

abbrev pub compressed_message :
    Endian → (msg_type compressed before : ℕ) → (payload : List ℕ) → List ℕ
compressed_message e msg_type compressed before payload =
    let w = size_width compressed in
    let size = 8 + w + length payload in
    (if is_little e then 1 else 0)
    ∷ msg_type
    ∷ compressed
    ∷ (size / gb 4)
    ∷ (bytes_of e 4 (size % gb 4) ++ (bytes_of e w before ++ payload))

module _ (cache : ℕ → ℕ) (e : Endian) (msg_type : ℕ) (payload : List ℕ) where
  pub message_of-plain :
      message_of cache (plain_message e msg_type payload) ≡ ok (e, msg_type, payload)
  unfolding message_of
  message_of-plain =
      let size = 8 + length payload in
      let field = bytes_of e 4 (size % gb 4) in
      let wide : length field ≡ 4 = length-bytes_of e 4 (size % gb 4) in
      let whole : (gb 4 * (size / gb 4) + size % gb 4 != 4 + length (field ++ payload)) ≡ false =
        ground (arith, length-append field payload) in
      rw
        (
          order_of-flag e,
          take-append_left field payload 4 wide,
          value_of-bytes_of e 4 (size % gb 4) (omega arith),
          whole,
          drop-append_left field payload 4 wide,
        )
        refl

  pub message_of-compressed :
      (compressed before : ℕ)
      → (compressed == 0) ≡ false
      → before < 256 ^ size_width compressed
      → (original : List ℕ) → restore cache (before - 8) payload ≡ ok original
      → message_of cache (compressed_message e msg_type compressed before payload)
        ≡ ok (e, msg_type, original)
  unfolding message_of
  message_of-compressed compressed before some_level fits original restored =
      let w = size_width compressed in
      let size = 8 + w + length payload in
      let field = bytes_of e 4 (size % gb 4) in
      let second = bytes_of e w before in
      let wide : length field ≡ 4 = length-bytes_of e 4 (size % gb 4) in
      let wide' : length second ≡ w = length-bytes_of e w before in
      let whole : (gb 4 * (size / gb 4) + size % gb 4 != 4 + length (field ++ (second ++ payload)))
          ≡ false =
        ground (arith, length-append field (second ++ payload), length-append second payload) in
      rw
        (
          order_of-flag e,
          take-append_left field (second ++ payload) 4 wide,
          value_of-bytes_of e 4 (size % gb 4) (omega arith),
          whole,
          some_level,
          drop-append_left field (second ++ payload) 4 wide,
          take-append_left second payload w wide',
          drop-append_left second payload w wide',
          value_of-bytes_of e w before fits,
          restored,
        )
        refl
