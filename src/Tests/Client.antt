-- ===== src/Tests/Client.antt =====
-- The program of tools/connection/main.cpp over a concrete socket.
use qbind.Base.{ℕ, ◌≡◌, refl, arith, inl, List, [], ◌∷◌, ◌++◌}
use qbind.Base.Outcome.{ok}
use qbind.TypeCode.{int, short, code, underlier, size_of}
use qbind.Ipc.{little}
use qbind.Ipc.Connection.{Setting, async_type}
use qbind.Ipc.Serializer.{supports_type}
use qbind.Ipc.Serializer.Format.{atom, vector}
use qbind.Ipc.Client.{send_values, main}
use qbind.Ipc.Client.Delivery.{delivery, Delivers, send_values-Delivers, main-delivered}
use qbind.Tests.Ipc.{zeroed, Wire, wire, wire_line, length-replicate}

abbrev at_three : Setting Wire
at_three = record { garbage = zeroed; native = little; m_conn = wire; m_level = 3 }

supported : supports_type 3 short ≡ ok tt
unfolding supports_type
supported = refl

supported_int : supports_type 3 int ≡ ok tt
unfolding supports_type
supported_int = refl

send_values-Delivers_example :
    Delivers {sock = wire} wire_line
      ([], [])
      (send_values at_three short (7 ∷ 8 ∷ []) ([], []))
      (vector (code short) (7 ∷ 8 ∷ []))
unfolding size_of underlier
send_values-Delivers_example =
    send_values-Delivers at_three wire_line length-replicate (λ y. refl) short (λ h. cc) supported
      (7 ∷ 8 ∷ []) ([], []) (omega arith) (omega arith) (inl (omega arith))

main-delivered_example :
    (t : Wire) × (first second : List ℕ) × (main zeroed little wire ([], 6 ∷ []) ≡ ok t)
    × (t.0 ≡ (([] ++ (6 ∷ 0 ∷ [])) ++ first) ++ second)
    × ((cache : ℕ → ℕ) → delivery cache first ≡ ok (async_type, atom (code int) 666))
    × ((cache : ℕ → ℕ)
        → delivery cache second ≡ ok (async_type, vector (code int) (1 ∷ 2 ∷ 3 ∷ 4 ∷ 5 ∷ [])))
main-delivered_example =
    main-delivered zeroed wire wire_line ([], 6 ∷ []) 6 [] length-replicate (λ y. refl) refl
      (omega arith)
