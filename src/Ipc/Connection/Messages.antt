-- ===== src/Ipc/Connection/Messages.antt =====
-- Messages that are sent and received uncompressed (tools/connection/main.cpp).
use qbind.Base.{
  ℕ, ◌+◌, ◌*◌, ◌/◌, ◌%◌, ◌^◌, ◌<◌, ◌≤◌, ◌≡◌, refl, sym, ap, ◌∙◌, ◌⊎◌, arith, true, false, not, ◌&&◌,
  List, [], ◌++◌,
}
use mathlib.Core.List.{append_assoc}
use qbind.Base.Tests.{ltb, leb, ◌!=◌, if◌then◌else◌}
use qbind.Base.Lists.{length, take, drop, take-append, drop-append, replicate}
use qbind.Base.Outcome.{ok, ◌>>=◌}
use qbind.Ipc.{is_little, Buffer}
use qbind.Ipc.Compress.{sub64, byte_at}
use qbind.Ipc.Connection.{gb, TSocket, Setting, try_compress, send_impl, recv}
use qbind.Ipc.Connection.Header.{
  header_of, write-first, write-second, write-fourth, write-size, append-nil, take-size,
  length-received, read-excess, read-residual, order_of-flag, take-header, drop-header,
}

-- A socket that moves bytes: what was sent so far, and what the peer sent that is not received yet.
pub record Stream {S : Type 0} (sock : TSocket S) : Type 0 where
  pub sent : S → List ℕ
  pub pending : S → List ℕ
  pub send_ok :
      (b : List ℕ) (s : S)
      → (t : S) × (sock.send b s ≡ ok t) × (sent t ≡ sent s ++ b) × (pending t ≡ pending s)
  pub recv_ok :
      (n : ℕ) (s : S)
      → (t : S) × (sock.recv n s ≡ ok (take n (pending s), t))
        × (pending t ≡ drop n (pending s))
        × (sent t ≡ sent s)

-- `compress` is not tried, and the size is one that the header and the protocol level allow.
abbrev pub IsPlain : {S : Type 0} → Setting S → (payload_size : ℕ) → Type 0
IsPlain c n =
    ((c.m_level ≡ 0) ⊎ ((c.m_conn.is_unix_domain_socket ≡ true) ⊎ (n ≤ 1992)))
    × ((8 + n < gb 2) ⊎ (5 ≤ c.m_level))
    × (8 + n < 2 ^ 40)

try_compress-IsPlain :
    {S : Type 0} (c : Setting S) (b header : Buffer)
    → IsPlain c (length b.bytes)
    → try_compress c b header (8 + length b.bytes) ≡ ok (b, header, 8)
unfolding try_compress
try_compress-IsPlain c b header (skip, _, _) =
    let no : (ltb 0 c.m_level
          && not c.m_conn.is_unix_domain_socket
          && ltb 2000 (8 + length b.bytes))
        ≡ false =
      ground arith in
    rw no

module _ {S : Type 0} (c : Setting S) (line : Stream c.m_conn) where
  pub sends_both :
      (header payload : List ℕ) (s : S)
      → (t : S) × ((c.m_conn.send header s >>= λ u. c.m_conn.send payload u) ≡ ok t)
        × (line.sent t ≡ (line.sent s ++ header) ++ payload)
        × (line.pending t ≡ line.pending s)
  sends_both header payload s =
      let (u, eu, su, pu) = line.send_ok header s in
      let (t, et, st, pt) = line.send_ok payload u in
      (t, rw (eu, et), st ∙ ap (λ l. l ++ payload) su, pt ∙ pu)

  -- Over a working stream, a message that is not compressed (level 0, a local socket, or at most
  -- 1992 bytes of payload) and whose size level and header allow goes out as its header and its
  -- payload, and nothing is received.
  pub send_impl-IsPlain :
      (b : Buffer) (msg_type : ℕ) (s : S)
      → IsPlain c (length b.bytes)
      → msg_type < 256
      → (t : S) × (send_impl c b msg_type s ≡ ok t)
        × (line.sent t
            ≡ (line.sent s ++ header_of b.endianness msg_type (8 + length b.bytes)) ++ b.bytes)
        × (line.pending t ≡ line.pending s)
  unfolding send_impl
  send_impl-IsPlain b msg_type s plain small =
      let size = 8 + length b.bytes in
      let e = b.endianness in
      let flag : ℕ = if is_little e then 1 else 0 in
      let bounded = plain.2 in
      let whole : (8 + length b.bytes) % 2 ^ 64 ≡ size = omega arith in
      let allowed : (leb (gb 2) size && ltb c.m_level 5) ≡ false =
        (let ways = plain.1 in ground arith) in
      let low : flag % 256 ≡ flag = ground arith in
      let same : msg_type % 256 ≡ msg_type = omega arith in
      let excess : size / gb 4 % 256 ≡ size / gb 4 = omega arith in
      rw
        (
          write-first c.native e flag 0 0 0 0 0 0 0 0 (replicate 15 0),
          write-second c.native e msg_type (flag % 256) 0 0 0 0 0 0 0 (replicate 14 0),
          whole,
          allowed,
          try_compress-IsPlain c b _ plain,
          whole,
          write-fourth c.native e (size / gb 4 % 256) (flag % 256) (msg_type % 256) 0 0 0 0 0 0
              (replicate 12 0),
          write-size c.native e (size % gb 4) (flag % 256) (msg_type % 256) 0
              (size / gb 4 % 256 % 256) 0 0 0 0 (replicate 8 0),
          low,
          same,
          excess,
          excess,
          take-size e (size % gb 4) (replicate 8 0),
        )
        (sends_both (header_of e msg_type size) b.bytes s)

module _ {S : Type 0} (c : Setting S) (line : Stream c.m_conn) where
  -- Over a working stream, where the header of an uncompressed message in the byte order of the
  -- machine comes first, of a size that fits the header, `recv` returns its payload and its type,
  -- leaves what follows for the next call, and sends nothing.
  pub recv-header_of :
      (b : Buffer) (msg_type : ℕ) (rest : List ℕ) (s : S)
      → b.endianness ≡ c.native
      → msg_type < 256
      → 8 + length b.bytes < 2 ^ 40
      → line.pending s ≡ header_of b.endianness msg_type (8 + length b.bytes) ++ (b.bytes ++ rest)
      → (t : S) × (recv c s ≡ ok (b, msg_type, t))
        × (line.pending t ≡ rest)
        × (line.sent t ≡ line.sent s)
  unfolding recv byte_at
  recv-header_of b msg_type rest s order small fits comes =
      let size = 8 + length b.bytes in
      let first : line.pending s ≡ header_of c.native msg_type size ++ (b.bytes ++ rest) =
        rw order at comes in
      let (t, et, pt, st) = line.recv_ok 8 s in
      let header : take 8 (line.pending s) ≡ header_of c.native msg_type size =
        ap (take 8) first ∙ take-header c.native msg_type size (b.bytes ++ rest) in
      let behind : line.pending t ≡ b.bytes ++ rest =
        pt ∙ ap (drop 8) first ∙ drop-header c.native msg_type size (b.bytes ++ rest) in
      let (u, eu, pu, su) = line.recv_ok (length b.bytes) t in
      let payload : take (length b.bytes) (line.pending t) ≡ b.bytes =
        ap (take (length b.bytes)) behind ∙ take-append b.bytes rest in
      let n : sub64 ((gb 4 * (size / gb 4) + size % gb 4) % 2 ^ 64) 8 ≡ length b.bytes =
        omega arith in
      let all : (length b.bytes != length b.bytes) ≡ false = ground arith in
      let eight : (length (header_of c.native msg_type size) != 8) ≡ false =
        rw (length-received c.native msg_type size small fits) refl in
      (
        u,
        rw
            (
              et,
              header,
              eight,
              read-excess c.native msg_type size small fits,
              read-residual c.native msg_type size small fits,
              n,
              eu,
              payload,
              all,
              order_of-flag c.native,
            )
            (ap (λ e. ok (record { bytes = b.bytes; endianness = e }, msg_type, u)) (sym order)),
        pu ∙ ap (drop (length b.bytes)) behind ∙ drop-append b.bytes rest,
        su ∙ st,
      )

-- What `send_impl` has sent over a working stream, a message that is not compressed and whose size
-- the protocol allows, `recv` on a machine of the payload's byte order takes from a working stream:
-- the payload and the type, and nothing is left.
pub recv-send_impl :
    {S R : Type 0} (c : Setting S) (line : Stream c.m_conn) (c' : Setting R)
    (line' : Stream c'.m_conn) (b : Buffer) (msg_type : ℕ) (s t : S) (r : R)
    → IsPlain c (length b.bytes)
    → msg_type < 256
    → b.endianness ≡ c'.native
    → send_impl c b msg_type s ≡ ok t
    → line'.pending r ≡ drop (length (line.sent s)) (line.sent t)
    → (u : R) × (recv c' r ≡ ok (b, msg_type, u)) × (line'.pending u ≡ [])
recv-send_impl {S} c line c' line' b msg_type s t r plain small order sends comes =
    let (v, ev, sv, pv) = send_impl-IsPlain c line b msg_type s plain small in
    let one : v ≡ t = (let both : ok v ≡ ok t = sym ev ∙ sends in cc) in
    let header = header_of b.endianness msg_type (8 + length b.bytes) in
    let news : drop (length (line.sent s)) (line.sent t) ≡ header ++ (b.bytes ++ []) =
      ap (drop (length (line.sent s)))
        (ap line.sent (sym one) ∙ sv ∙ append_assoc (line.sent s) header b.bytes)
      ∙ drop-append (line.sent s) (header ++ b.bytes)
      ∙ ap (λ l. header ++ l) (sym (append-nil b.bytes)) in
    let (u, eu, pu, su) =
      recv-header_of c' line' b msg_type [] r order small plain.2 (comes ∙ news) in
    (u, eu, pu)
