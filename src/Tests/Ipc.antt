-- ===== src/Tests/Ipc.antt =====
-- The connection of tools/connection/main.cpp over a concrete socket, and its buffers.
use qbind.Base.{ℕ, zero, suc, ◌+◌, ◌/◌, ◌≤◌, ◌≡◌, refl, inr, ◌⊎◌, arith, false, List, [], ◌∷◌, ◌++◌}
use qbind.Base.Lists.{length, take, drop, replicate}
use qbind.Base.Outcome.{ok, undefined, ◌>>=◌}
use qbind.TypeCode.{QType, short, underlier, size_of}
use qbind.Ipc.{little, big, Buffer, read_at, write_at}
use qbind.Ipc.Access.{read_at-write_at}
use qbind.Ipc.Compress.{
  Garbage, compress, pack, advance, new_block, look, remember, literal, run, run_end, close, put,
  byte_at, sub64,
}
use qbind.Ipc.Compress.Safety.{compress-fits}
use qbind.Ipc.Compress.Format.{restore}
use qbind.Ipc.Compress.RoundTrip.{compress-restore}
use qbind.Ipc.Connection.Choice.{IsSendable}
use qbind.Ipc.Connection.Compressed.{send_impl-message_of}
use qbind.Ipc.Connection.Format.{message_of}
use qbind.Ipc.Decompress.{
  decompress, unpack, first_state, unpack_round, next_header, copy_byte, after_copy, fill_cache,
  copy_run, copy_within,
}
use qbind.Ipc.Decompress.Bounds.{decompress-length}
use qbind.Ipc.Decompress.Rounds.{Run, unpack-Run}
use qbind.Ipc.Decompress.SizeField.{decompress-ignores_size}
use qbind.Ipc.Connection.{TSocket, Setting, connect, send_impl}
use qbind.Ipc.Connection.Messages.{Stream}
use qbind.Ipc.Connection.Handshake.{judged, connect-judged}
use qbind.Ipc.Serializer.{supports_type, serialize_atom}
use qbind.Ipc.Serializer.Layout.{supports_type_iff, serialize_atom-narrow}

-- Memory that holds only zeros.
abbrev pub zeroed : Garbage
zeroed = record { malloc = λ n. replicate n 0; cache = λ y. 0; offset = 0 }

pub length-replicate : (n : ℕ) → length {A = ℕ} (replicate n 0) ≡ n
length-replicate zero = refl
length-replicate (suc n) = omega (arith, length-replicate n)

-- A socket that keeps what was sent and hands out what is to come.
abbrev pub Wire : Type 0
Wire = List ℕ × List ℕ

abbrev pub wire : TSocket Wire
wire = record {
  send = λ b s. ok (s.0 ++ b, s.1);
  recv = λ n s. ok (take n s.1, (s.0, drop n s.1));
  is_unix_domain_socket = false;
}

abbrev pub wire_line : Stream wire
wire_line = record {
  sent = λ s. s.0;
  pending = λ s. s.1;
  send_ok = λ b s. ((s.0 ++ b, s.1), refl, refl, refl);
  recv_ok = λ n s. ((s.0, drop n s.1), refl, refl, refl);
}

abbrev at_level : ℕ → Setting Wire
at_level level = record { garbage = zeroed; native = little; m_conn = wire; m_level = level }

-- A big-endian machine writes what a little-endian one reads.
read_at-write_at_example :
    (write_at big 4 1000 (record { bytes = replicate 8 0; endianness = little }) 2 >>= λ b.
    read_at little 4 b 2)
    ≡ ok 1000
read_at-write_at_example =
    read_at-write_at big little 4 1000 (record { bytes = replicate 8 0; endianness = little }) 2
      (
        omega arith,
        (
          omega arith,
          (
            omega arith,
            (omega arith, (omega arith, (omega arith, (omega arith, (omega arith, tt))))),
          ),
        ),
      )
      (omega arith) (omega arith)

abbrev sevens : Buffer
sevens = record { bytes = replicate 60 7; endianness = little }

compress-fits_example :
    (r : Buffer) × (compress zeroed sevens ≡ ok r)
    × (r.endianness ≡ sevens.endianness)
    × ((r ≡ sevens) ⊎ (length r.bytes ≤ (8 + length sevens.bytes) / 2))
compress-fits_example =
    compress-fits zeroed sevens (omega arith) (omega arith) length-replicate (λ y. refl)

compress-restore_example :
    (r : Buffer) × (compress zeroed sevens ≡ ok r)
    × ((r ≡ sevens) ⊎ (restore (λ y. 99) 60 r.bytes ≡ ok sevens.bytes))
compress-restore_example =
    compress-restore zeroed sevens (omega arith) (omega arith) length-replicate (λ y. refl)
      (λ y. 99)

-- A payload that is long enough to be compressed.
abbrev long_payload : Buffer
long_payload = record { bytes = replicate 2500 7; endianness = big }

abbrev long_payload-IsSendable : IsSendable (at_level 6) long_payload
long_payload-IsSendable = record {
  allowed = inr (omega arith);
  bounded = omega arith;
  sized = length-replicate;
  zeros = λ y. refl;
}

send_impl-message_of_example :
    (t : Wire) × (message : List ℕ) × (send_impl (at_level 6) long_payload 1 ([], []) ≡ ok t)
    × (t.0 ≡ [] ++ message)
    × (t.1 ≡ [])
    × ((cache : ℕ → ℕ) → message_of cache message ≡ ok (big, 1, long_payload.bytes))
send_impl-message_of_example =
    send_impl-message_of (at_level 6) wire_line long_payload 1 ([], []) long_payload-IsSendable
      (omega arith)

decompress-ignores_size_example :
    decompress zeroed little
      (record { bytes = (1 ∷ 2 ∷ 3 ∷ 4 ∷ []) ++ replicate 9 0; endianness = little })
      1
    ≡ decompress zeroed little
        (record { bytes = (5 ∷ 6 ∷ 7 ∷ 8 ∷ []) ++ replicate 9 0; endianness = little })
        1
decompress-ignores_size_example =
    decompress-ignores_size zeroed little little 1 (1 ∷ 2 ∷ 3 ∷ 4 ∷ []) (5 ∷ 6 ∷ 7 ∷ 8 ∷ [])
      (replicate 9 0) refl refl

-- Behind eight bytes for a size, a block of three zeros, two runs of two bytes, and a 9. The header
-- of the block is read as the size before compression.
abbrev zeros_packed : Buffer
zeros_packed = record {
  bytes = replicate 8 0 ++ (24 ∷ 0 ∷ 0 ∷ 0 ∷ 0 ∷ 0 ∷ 0 ∷ 0 ∷ 9 ∷ []);
  endianness = little;
}

abbrev zeros_unpacked : Buffer
zeros_unpacked = record { bytes = replicate 7 0 ++ (9 ∷ []); endianness = little }

unpacks : decompress zeroed little zeros_packed 6 ≡ ok zeros_unpacked
unfolding decompress read_at unpack unpack_round next_header byte_at copy_byte put after_copy
    fill_cache copy_run copy_within
unpacks = refl

decompress-length_example :
    (size : ℕ) × (read_at little 8 zeros_packed 8 ≡ ok size)
    × (length zeros_unpacked.bytes ≡ sub64 (sub64 size 8) 8)
    × (zeros_unpacked.endianness ≡ zeros_packed.endianness)
decompress-length_example =
    decompress-length zeroed little 6 zeros_packed zeros_unpacked length-replicate unpacks

unpack-Run_example :
    (rounds : ℕ) × (rounds ≤ 8)
    × Run zeros_packed.bytes 8 rounds
        (first_state zeroed 8 6)
        (unpack zeros_packed.bytes 8 8 (first_state zeroed 8 6))
unpack-Run_example = unpack-Run zeros_packed.bytes 8 8 (first_state zeroed 8 6) (omega arith)

-- Sixty bytes of one value: three of them behind a header, and a run of the 57 others.
sevens_packed :
    compress zeroed sevens
    ≡ ok (record { bytes = 8 ∷ 7 ∷ 7 ∷ 7 ∷ 0 ∷ 55 ∷ []; endianness = little })
unfolding compress pack advance new_block look remember literal run run_end close put byte_at
sevens_packed = refl

-- Behind the size of their message they are not recovered: the size is read beyond the end.
sevens_lost :
    decompress zeroed little
      (record { bytes = 72 ∷ 0 ∷ 0 ∷ 0 ∷ 8 ∷ 7 ∷ 7 ∷ 7 ∷ 0 ∷ 55 ∷ []; endianness = little })
      1
    ≡ undefined
unfolding decompress read_at
sevens_lost = refl

abbrev greeting : Buffer
greeting = record { bytes = 104 ∷ 105 ∷ []; endianness = little }

connect-judged_example :
    (t : Wire) × (connect (at_level 3) (97 ∷ []) ([], 6 ∷ 5 ∷ []) ≡ judged 3 (6 ∷ 5 ∷ []) t)
    × (t.0 ≡ [] ++ ((97 ∷ []) ++ (3 ∷ 0 ∷ [])))
    × (t.1 ≡ drop 1 (6 ∷ 5 ∷ []))
connect-judged_example =
    connect-judged (at_level 3) wire_line (97 ∷ []) ([], 6 ∷ 5 ∷ []) (λ e. omega arith, omega arith)

supported : (T : QType) → supports_type 3 T ≡ ok tt
supported T = (supports_type_iff 3 T).1 (λ e. omega arith, λ e. omega arith, λ e. omega arith)

serialize_atom-narrow_example : serialize_atom zeroed little 3 short 5 ≡ undefined
unfolding size_of underlier
serialize_atom-narrow_example =
    serialize_atom-narrow zeroed little 3 short 5 length-replicate (supported short) (omega arith)
