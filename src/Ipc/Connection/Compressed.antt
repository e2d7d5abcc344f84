-- ===== src/Ipc/Connection/Compressed.antt =====
-- What `send_impl` of SocketConnection sends at any level, compressed or not
-- (tools/connection/main.cpp).
use qbind.Base.{
  ℕ, ◌+◌, ◌-◌, ◌/◌, ◌%◌, ◌^◌, ◌<◌, ◌≤◌, ◌≡◌, refl, sym, ap, ◌∙◌, inl, inr, arith, false, ◌&&◌, List,
  ◌∷◌, ◌++◌,
}
use mathlib.Core.List.{append_assoc}
use qbind.Base.Tests.{ltb, leb, ◌==◌, ltb→lt, if◌then◌else◌, Bool-cases}
use qbind.Base.Lists.{length, take, replicate, length-append}
use qbind.Base.Outcome.{ok, ◌>>=◌}
use qbind.Ipc.{is_little, Buffer, bytes_of}
use qbind.Ipc.Access.{take-append_left}
use qbind.Ipc.Bytes.{length-bytes_of}
use qbind.Ipc.Compress.Format.{restore}
use qbind.Ipc.Connection.{gb, Setting, try_compress, send_impl}
use qbind.Ipc.Connection.Header.{write-first, write-second, write-fourth, write-size, take-size}
use qbind.Ipc.Connection.Messages.{Stream, sends_both}
use qbind.Ipc.Connection.Format.{
  size_width, message_of, plain_message, compressed_message, message_of-plain,
  message_of-compressed,
}
use qbind.Ipc.Connection.Choice.{begun, level_of, IsSendable, try_compress-choice}

-- The part of the buffer of 16 bytes that is sent.
take-fields :
    (n w a b c d : ℕ) (field second zeros : List ℕ)
    → length field ≡ 4
    → length second ≡ w
    → n ≡ 8 + w
    → take n (a ∷ b ∷ c ∷ d ∷ (field ++ (second ++ zeros))) ≡ a ∷ b ∷ c ∷ d ∷ (field ++ second)
take-fields n w a b c d field second zeros wide wide' e =
    ap (λ l. take n (a ∷ b ∷ c ∷ d ∷ l)) (sym (append_assoc field second zeros))
    ∙ take-append_left (a ∷ b ∷ c ∷ d ∷ (field ++ second)) zeros n
        (omega (arith, length-append field second))

level_of-fits : (before : ℕ) → before < 2 ^ 40 → before < 256 ^ size_width (level_of before)
level_of-fits before bounded = elim (Bool-cases (ltb before (gb 4))) [
  | inl narrow ↦ rw narrow (let less = ltb→lt before (gb 4) narrow in omega arith)
  | inr wide ↦ rw wide (omega arith)
]

-- From the choice on: the size is written and both buffers are sent.
send_impl-choice :
    {S : Type 0} (c : Setting S) (b p : Buffer) (msg_type level header_size : ℕ) (rest : List ℕ)
    (s : S)
    → IsSendable c b
    → msg_type < 256
    → header_size + length p.bytes < 2 ^ 40
    → try_compress c b
        (begun b.endianness (if is_little b.endianness then 1 else 0) msg_type)
        (8 + length b.bytes)
      ≡ ok (
        p,
        record {
          bytes =
              (if is_little b.endianness then 1 else 0)
              ∷ msg_type
              ∷ level
              ∷ 0
              ∷ 0
              ∷ 0
              ∷ 0
              ∷ 0
              ∷ rest;
          endianness = b.endianness;
        },
        header_size,
      )
    → send_impl c b msg_type s ≡ (
        c.m_conn.send
          (take header_size (
            (if is_little b.endianness then 1 else 0)
            ∷ msg_type
            ∷ level
            ∷ ((header_size + length p.bytes) / gb 4)
            ∷ (bytes_of b.endianness 4 ((header_size + length p.bytes) % gb 4) ++ rest)))
          s
        >>= λ t. c.m_conn.send p.bytes t)
unfolding send_impl
send_impl-choice c b p msg_type level header_size rest s h small fits choice =
    let size = 8 + length b.bytes in
    let total = header_size + length p.bytes in
    let e = b.endianness in
    let flag : ℕ = if is_little e then 1 else 0 in
    let bounded = h.bounded in
    let whole : size % 2 ^ 64 ≡ size = omega arith in
    let whole' : total % 2 ^ 64 ≡ total = omega arith in
    let allowed : (leb (gb 2) size && ltb c.m_level 5) ≡ false =
      (let ways = h.allowed in ground arith) in
    let low : flag % 256 ≡ flag = ground arith in
    let same : msg_type % 256 ≡ msg_type = omega arith in
    let excess : total / gb 4 % 256 ≡ total / gb 4 = omega arith in
    rw
      (
        write-first c.native e flag 0 0 0 0 0 0 0 0 (replicate 15 0),
        write-second c.native e msg_type (flag % 256) 0 0 0 0 0 0 0 (replicate 14 0),
        low,
        same,
        whole,
        allowed,
        choice,
        whole',
        write-fourth c.native e (total / gb 4 % 256) flag msg_type level 0 0 0 0 0
            (0 ∷ 0 ∷ 0 ∷ 0 ∷ rest),
        write-size c.native e (total % gb 4) flag msg_type level (total / gb 4 % 256 % 256) 0 0 0 0
            rest,
        excess,
        excess,
      )
      refl

-- Over a working stream, a message whose size the protocol level and the header allow, with a cache
-- in `compress` that holds only zeros and allocations of the size asked for: `send_impl` returns at
-- every level, receives nothing, and has sent the bytes of one message, from which a peer that
-- reads the documented format takes the byte order, the type and the payload, decompressed if it
-- was compressed.
pub send_impl-message_of :
    {S : Type 0} (c : Setting S) (line : Stream c.m_conn) (b : Buffer) (msg_type : ℕ) (s : S)
    → IsSendable c b
    → msg_type < 256
    → (t : S) × (message : List ℕ) × (send_impl c b msg_type s ≡ ok t)
      × (line.sent t ≡ line.sent s ++ message)
      × (line.pending t ≡ line.pending s)
      × ((cache : ℕ → ℕ) → message_of cache message ≡ ok (b.endianness, msg_type, b.bytes))
send_impl-message_of c line b msg_type s h small =
    let size = 8 + length b.bytes in
    let e = b.endianness in
    let flag : ℕ = if is_little e then 1 else 0 in
    let bounded = h.bounded in
    elim (try_compress-choice c b flag msg_type h) [
      | inl plain ↦
          let sends = send_impl-choice c b b msg_type 0 8 (replicate 8 0) s h small bounded plain in
          let field = bytes_of e 4 (size % gb 4) in
          let header = flag ∷ msg_type ∷ 0 ∷ (size / gb 4) ∷ field in
          let (t, et, st, pt) = sends_both c line header b.bytes s in
          (
            t,
            plain_message e msg_type b.bytes,
            sends ∙ rw (take-size e (size % gb 4) (replicate 8 0)) et,
            st ∙ append_assoc (line.sent s) header b.bytes,
            pt,
            λ cache. message_of-plain cache e msg_type b.bytes,
          )
      | inr (r, packed, long, smaller, restores) ↦
          let level = level_of size in
          let w = size_width level in
          let narrow : w ≤ 8 = ground arith in
          let some_level : (level == 0) ≡ false = ground arith in
          let total = 8 + w + length r.bytes in
          let field = bytes_of e 4 (total % gb 4) in
          let second = bytes_of e w size in
          let zeros = replicate {A = ℕ} (8 - w) 0 in
          let sends =
            send_impl-choice c b r msg_type level (8 + w) (second ++ zeros) s h small (omega arith)
              packed in
          let cut =
            take-fields (8 + w) w flag msg_type level (total / gb 4) field second zeros
              (length-bytes_of e 4 (total % gb 4)) (length-bytes_of e w size) refl in
          let original : size - 8 ≡ length b.bytes = omega arith in
          let header = flag ∷ msg_type ∷ level ∷ (total / gb 4) ∷ (field ++ second) in
          let (t, et, st, pt) = sends_both c line header r.bytes s in
          (
            t,
            compressed_message e msg_type level size r.bytes,
            sends ∙ rw cut et,
            st
                ∙ append_assoc (line.sent s) header r.bytes
                ∙ ap (λ l. line.sent s ++ (flag ∷ msg_type ∷ level ∷ (total / gb 4) ∷ l))
                    (append_assoc field second r.bytes),
            pt,
            λ cache.
                message_of-compressed cache e msg_type r.bytes level size some_level
                  (level_of-fits size bounded) b.bytes
                  (ap (λ k. restore cache k r.bytes) original ∙ restores cache),
          )
    ]
