-- ===== src/Ipc/Connection/Conversation.antt =====
-- Several messages over one connection, and requests with their answers: `send_impl`, `recv` and
-- `send` of the class SocketConnection (tools/connection/main.cpp) one behind the other.
use qbind.Base.{ℕ, zero, suc, ◌+◌, ◌<◌, ◌^◌, ◌≡◌, refl, sym, ap, ◌∙◌, arith, List, [], ◌∷◌, ◌++◌}
use mathlib.Core.List.{append_assoc, append-nil}
use qbind.Base.Tests.{◌==◌, if◌then◌else◌}
use qbind.Base.Lists.{length, All}
use qbind.Base.Outcome.{Outcome, ok, throw, ◌>>=◌, str, runtime_error}
use qbind.Ipc.{Buffer}
use qbind.Ipc.Connection.{Setting, sync_type, response_type, send_impl, recv, send}
use qbind.Ipc.Connection.Header.{header_of}
use qbind.Ipc.Connection.Format.{message_of}
use qbind.Ipc.Connection.Choice.{IsSendable}
use qbind.Ipc.Connection.Compressed.{send_impl-message_of}
use qbind.Ipc.Connection.Messages.{Stream, IsPlain, send_impl-IsPlain, recv-header_of}

abbrev pub Messages : Type 0
Messages = List (Buffer × ℕ)

-- The calls, one behind the other.
unfoldable pub send_all : {S : Type 0} → Setting S → Messages → S → Outcome S
send_all c [] s = ok s
send_all c ((b, msg_type) ∷ ms) s = send_impl c b msg_type s >>= λ t. send_all c ms t

unfoldable pub recv_all : {S : Type 0} → Setting S → (n : ℕ) → S → Outcome (Messages × S)
recv_all c zero s = ok ([], s)
recv_all c (suc n) s = recv c s >>= λ m. recv_all c n m.2 >>= λ ms. ok ((m.0, m.1) ∷ ms.0, ms.1)

stream_of : Messages → List ℕ
stream_of [] = []
stream_of ((b, msg_type) ∷ ms) =
    header_of b.endianness msg_type (8 + length b.bytes) ++ (b.bytes ++ stream_of ms)

module _ {S : Type 0} (c : Setting S) (line : Stream c.m_conn) where
  abbrev pub ArePlain : Messages → Type 0
  ArePlain ms = All (λ (m : Buffer × ℕ). IsPlain c (length m.0.bytes) × (m.1 < 256)) ms

  send_all-stream_of :
      (ms : Messages) (s : S)
      → ArePlain ms
      → (t : S) × (send_all c ms s ≡ ok t) × (line.sent t ≡ line.sent s ++ stream_of ms)
  unfolding send_all stream_of
  send_all-stream_of [] s h = (s, refl, sym (append-nil (line.sent s)))
  send_all-stream_of ((b, msg_type) ∷ ms) s h =
      let header = header_of b.endianness msg_type (8 + length b.bytes) in
      let (u, eu, su, pu) = send_impl-IsPlain c line b msg_type s h.0.0 h.0.1 in
      let (t, et, st) = send_all-stream_of ms u h.1 in
      (
        t,
        rw (eu, et),
        st
            ∙ ap (λ l. l ++ stream_of ms) su
            ∙ append_assoc (line.sent s ++ header) b.bytes (stream_of ms)
            ∙ append_assoc (line.sent s) header (b.bytes ++ stream_of ms),
      )

module _ {R : Type 0} (c : Setting R) (line : Stream c.m_conn) where
  abbrev pub AreNative : Messages → Type 0
  AreNative ms = All (λ (m : Buffer × ℕ). m.0.endianness ≡ c.native) ms

  recv_all-stream_of :
      (ms : Messages) (rest : List ℕ) (r : R)
      → AreNative ms
      → All (λ (m : Buffer × ℕ). (8 + length m.0.bytes < 2 ^ 40) × (m.1 < 256)) ms
      → line.pending r ≡ stream_of ms ++ rest
      → (u : R) × (recv_all c (length ms) r ≡ ok (ms, u)) × (line.pending u ≡ rest)
  unfolding recv_all stream_of
  recv_all-stream_of [] rest r native fits comes = (r, refl, comes)
  recv_all-stream_of ((b, msg_type) ∷ ms) rest r native fits comes =
      let header = header_of b.endianness msg_type (8 + length b.bytes) in
      let first : line.pending r ≡ header ++ (b.bytes ++ (stream_of ms ++ rest)) =
        comes
        ∙ append_assoc header (b.bytes ++ stream_of ms) rest
        ∙ ap (λ l. header ++ l) (append_assoc b.bytes (stream_of ms) rest) in
      let (t, et, pt, st) =
        recv-header_of c line b msg_type (stream_of ms ++ rest) r native.0 fits.0.1 fits.0.0
          first in
      let (u, eu, pu) = recv_all-stream_of ms rest t native.1 fits.1 pt in (u, rw (et, eu), pu)

-- Messages that are not compressed and whose size the protocol allows, sent one behind the other by
-- `send_impl` over a working stream, are all sent, and as many calls of `recv`, over a working
-- stream to which they come, on a machine of the payloads' byte order, return the payloads and the
-- types in order, and leave what follows.
pub recv_all-send_all :
    {S R : Type 0} (c : Setting S) (line : Stream c.m_conn) (c' : Setting R)
    (line' : Stream c'.m_conn) (ms : Messages) (s : S)
    → ArePlain c line ms
    → AreNative c' line' ms
    → (t : S) × (news : List ℕ) × (send_all c ms s ≡ ok t)
      × (line.sent t ≡ line.sent s ++ news)
      × ((r : R) (rest : List ℕ)
          → line'.pending r ≡ news ++ rest
          → (u : R) × (recv_all c' (length ms) r ≡ ok (ms, u)) × (line'.pending u ≡ rest))
recv_all-send_all c line c' line' ms s plain native =
    let (t, et, st) = send_all-stream_of c line ms s plain in
    (
      t,
      stream_of ms,
      et,
      st,
      λ r rest comes. recv_all-stream_of c' line' ms rest r native (sizes ms plain) comes,
    )
  where
    sizes :
        (ms : Messages)
        → ArePlain c line ms
        → All (λ (m : Buffer × ℕ). (8 + length m.0.bytes < 2 ^ 40) × (m.1 < 256)) ms
    sizes [] h = tt
    sizes (m ∷ ms) h = ((h.0.0.2, h.0.1), sizes ms h.1)

-- Over a working stream, a payload whose size the protocol level and the header allow, with a cache
-- in `compress` that holds only zeros and allocations of the size asked for: where an uncompressed
-- message in the byte order of the machine, of a size that fits the header, comes next, `send` has
-- sent one sync message, from which a peer that reads the documented format takes the payload, and
-- has received that message and no more; it returns its payload if its type is that of a response,
-- and throws otherwise.
pub send-answered :
    {S : Type 0} (c : Setting S) (line : Stream c.m_conn) (b reply : Buffer) (msg_type : ℕ)
    (rest : List ℕ) (s : S)
    → IsSendable c b
    → reply.endianness ≡ c.native
    → msg_type < 256
    → 8 + length reply.bytes < 2 ^ 40
    → line.pending s
      ≡ header_of reply.endianness msg_type (8 + length reply.bytes) ++ (reply.bytes ++ rest)
    → (t : S) × (request : List ℕ) × (send c b s ≡ (
        if msg_type == response_type
        then ok (reply, t)
        else throw (
            runtime_error (
              str "Expected response message got "
              ∷ str (if msg_type == sync_type then "sync" else "async")
              ∷ str " message"
              ∷ []))))
      × (line.sent t ≡ line.sent s ++ request)
      × (line.pending t ≡ rest)
      × ((cache : ℕ → ℕ) → message_of cache request ≡ ok (b.endianness, sync_type, b.bytes))
unfolding send
send-answered c line b reply msg_type rest s sendable native small fits comes =
    let (u, request, eu, su, pu, seen) =
      send_impl-message_of c line b sync_type s sendable (omega arith) in
    let (t, et, pt, st) =
      recv-header_of c line reply msg_type rest u native small fits (pu ∙ comes) in
    (t, request, rw (eu, et) (ground arith), st ∙ su, pt, seen)
