-- ===== src/Ipc/Client.antt =====
-- The program of tools/connection/main.cpp: `main`, behind its socket, and the two kinds of calls
-- that it makes.
pub mod Delivery
use qbind.Base.{ℕ, List, [], ◌∷◌}
use qbind.Base.Outcome.{Outcome, ◌>>=◌}
use qbind.TypeCode.{QType, int}
use qbind.Ipc.{Endian}
use qbind.Ipc.Compress.{Garbage}
use qbind.Ipc.Connection.{TSocket, Setting, connect, send_async}
use qbind.Ipc.Serializer.{serialize_array, serialize_atom}

module _ {S : Type 0} (conn : Setting S) where
  -- `conn.send_async(ser.serialize<Type>(value))`, with a serializer of the connection's level
  unfoldable pub send_value : QType → (value : ℕ) → S → Outcome S
  send_value T value s = do
    b ← serialize_atom conn.garbage conn.native conn.m_level T value
    send_async conn b s

  -- `conn.send_async(ser.serialize<Type>(vec.begin(), vec.end()))`
  unfoldable pub send_values : QType → (vec : List ℕ) → S → Outcome S
  send_values T vec s = do
    b ← serialize_array conn.garbage conn.native conn.m_level T vec
    send_async conn b s

abbrev pub main_level : ℕ
main_level = 6

-- `main()`, on the socket `s`
unfoldable pub main : {S : Type 0} → Garbage → Endian → (s : TSocket S) → S → Outcome S
unfolding send_value send_values
main garbage native s w = do
  let conn : Setting _ = record {
    garbage = garbage;
    native = native;
    m_conn = s;
    m_level = main_level;
  }
  w1 ← connect conn [] w
  w2 ← send_value conn int 666 w1
  send_values conn int (1 ∷ 2 ∷ 3 ∷ 4 ∷ 5 ∷ []) w2
