-- ===== src/Ipc/Socket/Transport.antt =====
-- A SocketConnection over the class Socket (tools/connection/main.cpp).
use qbind.Base.{ℕ, ◌≡◌, refl, false, some, List, [], ◌∷◌, ◌||◌}
use qbind.Base.Tests.{ltb, ◌==◌}
use qbind.Base.Outcome.{Outcome, ok, throw, undefined, terminated, bad_alloc}
use qbind.Ipc.{Buffer}
use qbind.Ipc.Os.{◌>>=◌, Os}
use qbind.Ipc.Socket.{Socket, send, recv}
use qbind.Ipc.Connection.{TSocket, Setting, connect}

-- The state of the world behind a call that returned.
abbrev with_state : {W A : Type 0} → Outcome A × W → Outcome (A × W)
with_state (ok a, w) = ok (a, w)
with_state (throw e, w) = throw e
with_state (undefined, w) = undefined
with_state (terminated, w) = terminated

abbrev state_of : {W A : Type 0} → Outcome A × W → Outcome W
state_of (ok a, w) = ok w
state_of (throw e, w) = throw e
state_of (undefined, w) = undefined
state_of (terminated, w) = terminated

-- What a connection uses of a socket; it ignores how many bytes `send` has sent.
unfoldable pub transport : {W : Type 0} → Setting W → Os W → Socket → TSocket W
transport c os s = record {
  send = λ bytes w. state_of (send os s bytes 0 w);
  recv = λ n w. with_state (bytes_of_buffer (recv os c.native s n 0 w));
  is_unix_domain_socket = s.m_is_unix_domain_socket;
}
  where
    bytes_of_buffer : {W : Type 0} → Outcome Buffer × W → Outcome (List ℕ) × W
    bytes_of_buffer (ok b, w) = (ok b.bytes, w)
    bytes_of_buffer (throw e, w) = (throw e, w)
    bytes_of_buffer (undefined, w) = (undefined, w)
    bytes_of_buffer (terminated, w) = (terminated, w)

abbrev pub over : {W : Type 0} → Setting W → Os W → Socket → Setting W
over c os s = record c { m_conn = transport c os s }

-- With a protocol level that is allowed, where the system takes both messages of the handshake, the
-- peer closes before it answers, and `realloc` to no bytes gives no pointer, the constructor of
-- SocketConnection over a Socket throws `bad_alloc`.
pub connect-closed :
    {W : Type 0} (os : Os W) (c : Setting W) (s : Socket) (credentials : List ℕ) (w u v z : W)
    (n m : ℕ)
    → (c.m_level == 4) || ltb 6 c.m_level ≡ false
    → os.keeps_empty ≡ false
    → os.send s.m_fd credentials 0 w ≡ (some n, u)
    → os.send s.m_fd (c.m_level ∷ 0 ∷ []) 0 u ≡ (some m, v)
    → os.recv s.m_fd 1 0 v ≡ (some [], z)
    → connect (over c os s) credentials w ≡ throw bad_alloc
unfolding connect transport send recv ◌>>=◌
connect-closed os c s credentials w u v z n m level empty first second closed =
    rw (level, first, second, closed, empty) refl
