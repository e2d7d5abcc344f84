-- ===== src/Ipc/Client/Delivery.antt =====
-- What the program of tools/connection/main.cpp delivers to a peer: the serializer, the connection
-- and the socket together.
use qbind.Base.{
  ℕ, ◌+◌, ◌-◌, ◌*◌, ◌^◌, ◌<◌, ◌≤◌, ◌≡◌, ◌≢◌, refl, ap, ◌∙◌, ◌⊎◌, inl, inr, arith, List, [], ◌∷◌,
  ◌++◌,
}
use native.Mathlib.Nat.{mul-le-mul_left}
use qbind.Base.Lists.{length, All, length-append}
use qbind.Base.Outcome.{Outcome, ok, ◌>>=◌}
use qbind.TypeCode.{QType, symbol, int, code, underlier, size_of}
use qbind.Ipc.{little, Buffer, bytes_of}
use qbind.Ipc.Bytes.{length-bytes_of}
use qbind.Ipc.Compress.{Garbage}
use qbind.Ipc.Connection.{gb, TSocket, Setting, async_type, send_async}
use qbind.Ipc.Connection.Handshake.{judged, connect-judged}
use qbind.Ipc.Connection.Messages.{Stream}
use qbind.Ipc.Connection.Format.{message_of}
use qbind.Ipc.Connection.Choice.{IsSendable}
use qbind.Ipc.Connection.Compressed.{send_impl-message_of}
use qbind.Ipc.Serializer.{supports_type, memory_of}
use qbind.Ipc.Serializer.Layout.{
  length-memory_of, serialize_array-layout, serialize_atom-wide, atom_type_byte,
}
use qbind.Ipc.Serializer.Format.{
  Received, atom, vector, object_of, object_of-atom, object_of-vector,
}
use qbind.Ipc.Client.{send_value, send_values, main, main_level}

-- What a peer gets from a message: its type, and the object in it.
abbrev pub delivery : (cache : ℕ → ℕ) → (message : List ℕ) → Outcome (ℕ × Received)
delivery cache message = message_of cache message >>= λ m. object_of m.0 m.2 >>= λ r. ok (m.1, r)

-- From `s` to `t` one message was sent, by which the peer gets `r`.
abbrev pub Delivers :
    {S : Type 0} {sock : TSocket S} → Stream sock → S → Outcome S → Received → Type 0
Delivers {S} line s o r =
    (t : S) × (message : List ℕ) × (o ≡ ok t)
    × (line.sent t ≡ line.sent s ++ message)
    × ((cache : ℕ → ℕ) → delivery cache message ≡ ok (async_type, r))

width-le : (T : QType) → size_of (underlier T) ≤ 16
unfolding underlier size_of
width-le T = ground arith

module _ {S : Type 0} (c : Setting S) (line : Stream c.m_conn)
    (sized : (m : ℕ) → length (c.garbage.malloc m) ≡ m) (zeros : (y : ℕ) → c.garbage.cache y ≡ 0)
    (T : QType) (number : T ≢ symbol) (supported : supports_type c.m_level T ≡ ok tt) where
  sent-Delivers :
      (b : Buffer) (s : S) (r : Received)
      → IsSendable c b
      → object_of b.endianness b.bytes ≡ ok r
      → Delivers line s (send_async c b s) r
  unfolding send_async
  sent-Delivers b s r sendable readable =
      let (t, message, e, grown, _, seen) =
        send_impl-message_of c line b async_type s sendable (omega arith) in
      (t, message, e, grown, λ cache. rw (seen cache, readable))

  -- Over a working stream, with a cache in `compress` that holds only zeros and allocations of the
  -- size asked for: an array of at most two billion values, of a type of numbers that the level
  -- supports, which fit that type, in a message that the protocol level allows, is sent as one
  -- asynchronous message, from which a peer that reads the documented formats gets the type and the
  -- values, whether or not it was compressed.
  pub send_values-Delivers :
      (vec : List ℕ) (s : S)
      → length vec ≤ 2000000000
      → All (λ v. v < 256 ^ size_of (underlier T)) vec
      → (14 + length vec * size_of (underlier T) < gb 2) ⊎ (5 ≤ c.m_level)
      → Delivers line s (send_values c T vec s) (vector (code T) vec)
  unfolding send_values
  send_values-Delivers vec s few small allowed =
      let e = c.native in
      let w = size_of (underlier T) in
      let type_field = bytes_of e 1 (code T) in
      let attributes = bytes_of e 1 0 in
      let count_field = bytes_of e 4 (length vec) in
      let memory = memory_of e w vec in
      let b : Buffer = record {
        bytes = ((type_field ++ attributes) ++ count_field) ++ memory;
        endianness = e;
      } in
      let long : length b.bytes ≡ 6 + length vec * w = omega (
        arith,
        length-append ((type_field ++ attributes) ++ count_field) memory,
        length-append (type_field ++ attributes) count_field,
        length-append type_field attributes,
        length-bytes_of e 1 (code T),
        length-bytes_of e 1 0,
        length-bytes_of e 4 (length vec),
        length-memory_of e w vec,
      ) in
      let bounded : length vec * w ≤ length vec * 16 = mul-le-mul_left (length vec) (width-le T) in
      rw (serialize_array-layout c.garbage e c.m_level T vec sized supported few) (
        sent-Delivers b s (vector (code T) vec)
          (record {
            allowed = limit b.bytes (length vec * w) long allowed;
            bounded = omega arith;
            sized = sized;
            zeros = zeros;
          })
          (object_of-vector e T number vec (omega arith) small))
    where
      limit :
          (bytes : List ℕ) (n : ℕ)
          → length bytes ≡ 6 + n
          → (14 + n < gb 2) ⊎ (5 ≤ c.m_level)
          → (8 + length bytes < gb 2) ⊎ (5 ≤ c.m_level)
      limit bytes n h (inl short) = inl (omega arith)
      limit bytes n h (inr allows) = inr allows

  -- placeholder
  pub send_value-Delivers :
      (value : ℕ) (s : S)
      → c.native ≡ little
      → 4 ≤ size_of (underlier T)
      → value < 256 ^ size_of (underlier T)
      → Delivers line s (send_value c T value s) (atom (code T) value)
  unfolding send_value
  send_value-Delivers value s order wide small =
      let e = c.native in
      let w = size_of (underlier T) in
      let b : Buffer = record { bytes = atom_type_byte e T ∷ bytes_of e w value; endianness = e } in
      let long : length b.bytes ≡ 1 + w = omega (arith, length-bytes_of e w value) in
      let type_byte : atom_type_byte e T ≡ 256 - code T = ap (λ o. atom_type_byte o T) order in
      rw (serialize_atom-wide c.garbage e c.m_level T value sized supported wide) (
        sent-Delivers b s (atom (code T) value)
          (record {
            allowed = inl (omega (arith, width-le T));
            bounded = omega (arith, width-le T);
            sized = sized;
            zeros = zeros;
          })
          (rw type_byte (object_of-atom e T number value small)))

supports_int : supports_type main_level int ≡ ok tt
unfolding supports_type
supports_int = refl

accepted :
    {S : Type 0} (pending : List ℕ) (answer : ℕ) (rest : List ℕ) (made : S)
    → pending ≡ answer ∷ rest
    → main_level ≤ answer
    → judged main_level pending made ≡ ok made
accepted pending answer rest made h enough = rw h (ground arith)

-- On a little-endian machine and over a working stream, with a cache in `compress` that holds only
-- zeros and allocations of the size asked for: where the peer answers a level of 6 or more, `main`
-- returns and has sent an empty text, its level and a 0, and two asynchronous messages, from which
-- a peer that reads the documented formats gets the int 666 and the ints from 1 to 5.
pub main-delivered :
    {S : Type 0} (garbage : Garbage) (sock : TSocket S) (line : Stream sock) (w : S) (answer : ℕ)
    (rest : List ℕ)
    → ((m : ℕ) → length (garbage.malloc m) ≡ m)
    → ((y : ℕ) → garbage.cache y ≡ 0)
    → line.pending w ≡ answer ∷ rest
    → 6 ≤ answer
    → (t : S) × (first second : List ℕ) × (main garbage little sock w ≡ ok t)
      × (line.sent t ≡ ((line.sent w ++ (6 ∷ 0 ∷ [])) ++ first) ++ second)
      × ((cache : ℕ → ℕ) → delivery cache first ≡ ok (async_type, atom (code int) 666))
      × ((cache : ℕ → ℕ)
          → delivery cache second ≡ ok (async_type, vector (code int) (1 ∷ 2 ∷ 3 ∷ 4 ∷ 5 ∷ [])))
unfolding main size_of underlier
main-delivered {S} garbage sock line w answer rest sized zeros pending enough =
    let c : Setting S = record {
      garbage = garbage;
      native = little;
      m_conn = sock;
      m_level = main_level;
    } in
    let (w1, e1, s1, p1) = connect-judged c line [] w (omega arith) in
    let (w2, first, e2, s2, seen) =
      send_value-Delivers c line sized zeros int (λ h. cc) supports_int 666 w1 refl (omega arith)
        (omega arith) in
    let (t, second, e3, s3, seen') =
      send_values-Delivers c line sized zeros int (λ h. cc) supports_int (1 ∷ 2 ∷ 3 ∷ 4 ∷ 5 ∷ []) w2
        (omega arith) (omega arith) (inr (omega arith)) in
    (
      t,
      first,
      second,
      rw (e1, accepted (line.pending w) answer rest w1 pending enough, e2, e3),
      s3 ∙ ap (λ l. l ++ second) (s2 ∙ ap (λ l. l ++ first) s1),
      seen,
      seen',
    )
