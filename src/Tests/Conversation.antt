-- ===== src/Tests/Conversation.antt =====
-- Messages over a concrete connection (tools/connection/main.cpp), one behind the other.
use qbind.Base.{ℕ, ◌≡◌, refl, arith, inl, inr, List, [], ◌∷◌, ◌++◌}
use qbind.Base.Tests.{◌==◌, if◌then◌else◌}
use qbind.Base.Outcome.{ok, throw, str, runtime_error}
use qbind.Ipc.{little, Buffer}
use qbind.Ipc.Connection.{Setting, send, sync_type, response_type}
use qbind.Ipc.Connection.Header.{header_of}
use qbind.Ipc.Connection.Format.{message_of}
use qbind.Ipc.Connection.Choice.{IsSendable}
use qbind.Ipc.Connection.Messages.{IsPlain}
use qbind.Ipc.Connection.Conversation.{
  Messages, send_all, recv_all, recv_all-send_all, send-answered,
}
use qbind.Tests.Ipc.{zeroed, Wire, wire, wire_line, length-replicate}

abbrev at_six : Setting Wire
at_six = record { garbage = zeroed; native = little; m_conn = wire; m_level = 6 }

abbrev short : ℕ → Buffer
short n = record { bytes = n ∷ n ∷ []; endianness = little }

abbrev two : Messages
two = (short 3, 1) ∷ (short 4, 0) ∷ []

short-IsPlain : (n : ℕ) → IsPlain at_six 2
short-IsPlain n = (inr (inr (omega arith)), inl (omega arith), omega arith)

recv_all-send_all_example :
    (t : Wire) × (news : List ℕ) × (send_all at_six two ([], []) ≡ ok t)
    × (t.0 ≡ [] ++ news)
    × ((r : Wire) (rest : List ℕ)
        → r.1 ≡ news ++ rest
        → (u : Wire) × (recv_all at_six 2 r ≡ ok (two, u)) × (u.1 ≡ rest))
recv_all-send_all_example =
    recv_all-send_all at_six wire_line at_six wire_line two ([], [])
      ((short-IsPlain 3, omega arith), ((short-IsPlain 4, omega arith), tt)) (refl, (refl, tt))

abbrev answered : Wire
answered = ([], header_of little 2 10 ++ ((short 5).bytes ++ (9 ∷ [])))

abbrev short-IsSendable : IsSendable at_six (short 3)
short-IsSendable = record {
  allowed = inr (omega arith);
  bounded = omega arith;
  sized = length-replicate;
  zeros = λ y. refl;
}

send-answered_example :
    (t : Wire) × (request : List ℕ) × (send at_six (short 3) answered ≡ (
      if 2 == response_type
      then ok (short 5, t)
      else throw (
          runtime_error (
            str "Expected response message got "
            ∷ str (if 2 == sync_type then "sync" else "async")
            ∷ str " message"
            ∷ []))))
    × (t.0 ≡ [] ++ request)
    × (t.1 ≡ 9 ∷ [])
    × ((cache : ℕ → ℕ) → message_of cache request ≡ ok (little, sync_type, (short 3).bytes))
send-answered_example =
    send-answered at_six wire_line (short 3) (short 5) 2 (9 ∷ []) answered short-IsSendable refl
      (omega arith) (omega arith) refl
