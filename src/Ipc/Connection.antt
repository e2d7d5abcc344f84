-- ===== src/Ipc/Connection.antt =====
-- The class SocketConnection of tools/connection/main.cpp: the handshake, sending and receiving.
pub mod Header
pub mod Messages
pub mod Handshake
pub mod Format
pub mod Choice
pub mod Compressed
pub mod Conversation
use qbind.Base.{
  ℕ, zero, suc, ◌+◌, ◌-◌, ◌*◌, ◌/◌, ◌%◌, ◌^◌, ◌≡◌, ◌&&◌, ◌||◌, Bool, true, false, not, List, [],
  ◌∷◌, ◌++◌,
}
use qbind.Base.Tests.{ltb, leb, ◌==◌, ◌!=◌, if◌then◌else◌}
use qbind.Base.Int.{pos}
use qbind.Base.Lists.{length, take, drop, replicate}
use qbind.Base.Outcome.{
  Outcome, ok, throw, undefined, ◌>>=◌, ◌>>◌, throw_if, text, str, num, runtime_error, domain_error,
}
use qbind.Ipc.{Endian, little, big, is_little, Buffer, read_at, write_at, write}
use qbind.Ipc.Compress.{Garbage, byte_at, compress, sub64}
use qbind.Ipc.Decompress.{decompress}

-- `operator""_GB`
abbrev pub gb : ℕ → ℕ
gb n = 1024 * 1024 * 1024 * n

-- The enumerators of `MessageType`, by their values.
abbrev pub async_type : ℕ
async_type = 0

abbrev pub sync_type : ℕ
sync_type = 1

abbrev pub response_type : ℕ
response_type = 2

-- The members that `TSocket` must have, over the state of the world. A received buffer may be
-- shorter than asked for.
pub record TSocket (S : Type 0) : Type 0 where
  pub send : List ℕ → S → Outcome S
  pub recv : ℕ → S → Outcome (List ℕ × S)
  pub is_unix_domain_socket : Bool

-- What is the same for every call: what the uninitialised memory holds, the byte order of the
-- machine, and the members `m_conn` and `m_level`.
pub record Setting (S : Type 0) : Type 0 where
  pub garbage : Garbage
  pub native : Endian
  pub m_conn : TSocket S
  pub m_level : ℕ

module _ {S : Type 0} (c : Setting S) where
  -- The constructor; `credentials` are bytes.
  unfoldable pub connect : (credentials : List ℕ) → S → Outcome S
  connect credentials s = do
    throw_if ((c.m_level == 4) || ltb 6 c.m_level)
        (domain_error (text "Protocol level must be less than 7 and not 4."))
    s1 ← c.m_conn.send credentials s
    s2 ← c.m_conn.send (c.m_level ∷ 0 ∷ []) s1
    (capability_response, s3) ← c.m_conn.recv 1 s2
    throw_if (length capability_response == 0)
        (runtime_error (text "Access: authentication failed"))
    supported_level ← byte_at capability_response 0
    throw_if (ltb supported_level c.m_level) (
        runtime_error (
          str "KDB instance supports insufficient protocol level: "
          ∷ num (pos supported_level)
          ∷ []))
    ok s3

  -- The choice to compress, the buffer to send, and the header with its size so far.
  unfoldable pub try_compress :
      Buffer → Buffer → (uncompressed_msg_size : ℕ) → Outcome (Buffer × Buffer × ℕ)
  try_compress in_buff header size =
      if ltb 0 c.m_level && not c.m_conn.is_unix_domain_socket && ltb 2000 size
      then (compress c.garbage in_buff >>= λ smaller.
          if ltb (length smaller.bytes) (length in_buff.bytes)
          then (do
            h ← write_at c.native 1 (if ltb size (gb 4) then 1 else 2) header 2
            (h', header_size) ← write c.native (if ltb size (gb 4) then 4 else 8) size h 8
            ok (smaller, h', header_size))
          else ok (smaller, header, 8))
      else ok (in_buff, header, 8)

  -- `send_impl(in_buff, msg_type)`
  unfoldable pub send_impl : Buffer → (msg_type : ℕ) → S → Outcome S
  send_impl in_buff msg_type s = do
    let empty : Buffer = record { bytes = replicate 16 0; endianness = in_buff.endianness }
    h0 ← write_at c.native 1 (if is_little in_buff.endianness then 1 else 0) empty 0
    h1 ← write_at c.native 1 msg_type h0 1
    let size = (8 + length in_buff.bytes) % 2 ^ 64
    throw_if (leb (gb 2) size && ltb c.m_level 5)
        (runtime_error (text "Protocol level only supports messages up to 2GB"))
    (payload, h2, header_size) ← try_compress in_buff h1 size
    let final_msg_size = (header_size + length payload.bytes) % 2 ^ 64
    h3 ← write_at c.native 1 (final_msg_size / gb 4 % 256) h2 3
    h4 ← write_at c.native 4 (final_msg_size % gb 4) h3 4
    t ← c.m_conn.send (take header_size h4.bytes) s
    c.m_conn.send payload.bytes t

  -- `recv()`: the payload and the message type. The header has the byte order of the machine.
  unfoldable pub recv : S → Outcome (Buffer × ℕ × S)
  recv s = do
    (h, t) ← c.m_conn.recv 8 s
    throw_if (length h != 8) (runtime_error (text "Could not get full header"))
    let header : Buffer = record { bytes = h; endianness = c.native }
    order ← byte_at h 0
    msg_type ← byte_at h 1
    compression_level ← byte_at h 2
    excess ← read_at c.native 1 header 3
    residual ← read_at c.native 4 header 4
    let payload_size = sub64 ((gb 4 * excess + residual) % 2 ^ 64) 8
    (p, u) ← c.m_conn.recv payload_size t
    throw_if (length p != payload_size) (runtime_error (text "Could not get full payload"))
    let payload : Buffer = record { bytes = p; endianness = if order == 1 then little else big }
    result ←
        (if compression_level != 0
          then decompress c.garbage c.native payload compression_level
          else ok payload)
    ok (result, msg_type, u)

  -- `send(in_buff)`: the payload of the response
  unfoldable pub send : Buffer → S → Outcome (Buffer × S)
  send in_buff s = do
    t ← send_impl in_buff sync_type s
    (buff, msg_type, u) ← recv t
    throw_if (msg_type != response_type) (
        runtime_error (
          str "Expected response message got "
          ∷ str (if msg_type == sync_type then "sync" else "async")
          ∷ str " message"
          ∷ []))
    ok (buff, u)

  -- `send_async(in_buff)`
  unfoldable pub send_async : Buffer → S → Outcome S
  send_async in_buff s = send_impl in_buff async_type s
