-- ===== src/Ipc/Connection/Handshake.antt =====
-- The handshake of the class SocketConnection (tools/connection/main.cpp).
use qbind.Base.{ℕ, ◌≤◌, ◌≡◌, ◌≢◌, refl, ap, ◌∙◌, arith, true, false, ◌||◌, List, [], ◌∷◌, ◌++◌}
use mathlib.Core.List.{append_assoc}
use qbind.Base.Tests.{ltb, ◌==◌, if◌then◌else◌}
use qbind.Base.Int.{pos}
use qbind.Base.Lists.{length, take, drop}
use qbind.Base.Outcome.{
  Outcome, ok, throw, ◌>>=◌, ◌>>◌, throw_if, text, str, num, runtime_error, domain_error,
}
use qbind.Ipc.Compress.{byte_at}
use qbind.Ipc.Connection.{Setting, connect}
use qbind.Ipc.Connection.Messages.{Stream}

-- The levels of the protocol.
abbrev pub IsLevel : ℕ → Type 0
IsLevel level = (level ≢ 4) × (level ≤ 6)

-- The verdict on the level that the peer answers, if any; `made` is the state of a connection.
abbrev pub judged : {S : Type 0} → (level : ℕ) → (answer : List ℕ) → (made : S) → Outcome S
judged level [] made = throw (runtime_error (text "Access: authentication failed"))
judged level (l ∷ rest) made =
    if ltb l level
    then throw (
        runtime_error
          (str "KDB instance supports insufficient protocol level: " ∷ num (pos l) ∷ []))
    else ok made

module _ {S : Type 0} (c : Setting S) (line : Stream c.m_conn) (credentials : List ℕ) (s : S) where
  -- A level that is no level of the protocol is refused.
  pub connect-not_level :
      ¬ IsLevel c.m_level
      → connect c credentials s
        ≡ throw (domain_error (text "Protocol level must be less than 7 and not 4."))
  unfolding connect
  connect-not_level h =
      let bad : ((c.m_level == 4) || ltb 6 c.m_level) ≡ true = ground arith in rw bad

  -- Over a working stream, at a level of the protocol the constructor sends the credentials, the
  -- level and a 0 and reads one byte. Without an answer authentication failed, an answer below the
  -- level is refused, and any other makes the connection.
  pub connect-judged :
      IsLevel c.m_level
      → (t : S) × (connect c credentials s ≡ judged c.m_level (line.pending s) t)
        × (line.sent t ≡ line.sent s ++ (credentials ++ (c.m_level ∷ 0 ∷ [])))
        × (line.pending t ≡ drop 1 (line.pending s))
  unfolding connect byte_at
  connect-judged level =
      let good : ((c.m_level == 4) || ltb 6 c.m_level) ≡ false = ground arith in
      let (u, eu, su, pu) = line.send_ok credentials s in
      let (v, ev, sv, pv) = line.send_ok (c.m_level ∷ 0 ∷ []) u in
      let (t, et, pt, st) = line.recv_ok 1 v in
      let answer : line.pending v ≡ line.pending s = pv ∙ pu in
      (
        t,
        rw (good, eu, ev, et, answer) (verdict (line.pending s) t),
        st
            ∙ sv
            ∙ ap (λ l. l ++ (c.m_level ∷ 0 ∷ [])) su
            ∙ append_assoc (line.sent s) credentials (c.m_level ∷ 0 ∷ []),
        pt ∙ ap (drop 1) answer,
      )
    where
      verdict :
          (answer : List ℕ) (t : S)
          → (throw_if
                (length (take 1 answer) == 0)
                (runtime_error (text "Access: authentication failed"))
              >> (byte_at (take 1 answer) 0 >>= λ l.
                  throw_if (ltb l c.m_level) (
                    runtime_error (
                      str "KDB instance supports insufficient protocol level: " ∷ num (pos l) ∷ []))
                  >> ok t))
            ≡ judged c.m_level answer t
      verdict [] t = refl
      verdict (l ∷ rest) t = ground arith
