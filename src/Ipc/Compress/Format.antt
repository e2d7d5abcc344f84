-- ===== src/Ipc/Compress/Format.antt =====
-- The format that the comment on the class SocketConnection describes (tools/connection/main.cpp):
-- how a peer reads a compressed payload, as `uncompress` of tools/connection/c.java does. A run is
-- copied byte by byte, so that it may overlap what it is copied from.
use qbind.Base.{ℕ, zero, suc, ◌+◌, ◌-◌, ◌*◌, ◌%◌, List, [], ◌∷◌, ◌++◌}
use Prim.Native.Nat.{bit_xor, bit_and}
use qbind.Base.Tests.{ltb, ◌==◌, ◌!=◌, if◌then◌else◌}
use qbind.Base.Lists.{length}
use qbind.Base.Outcome.{Outcome, ok, undefined, ◌>>=◌}
use qbind.Ipc.Compress.{byte_at, cache_set}

-- What a reader holds: the payload so far, its place in the compressed bytes, the block it is in,
-- and where each exclusive or of neighbours occurred last, up to `valid`.
pub record Reader : Type 0 where
  pub out : List ℕ
  pub in_idx : ℕ
  pub mask : ℕ
  pub header : ℕ
  pub cache : ℕ → ℕ
  pub valid : ℕ

-- `n` bytes from place `from` of the payload on, each put at its end.
unfoldable pub copy_from : List ℕ → (from n : ℕ) → Outcome (List ℕ)
copy_from out from zero = ok out
copy_from out from (suc n) = do a ← byte_at out from; copy_from (out ++ (a ∷ [])) (from + 1) n

-- The places from `v` on are put in the cache, `n` of them.
unfoldable pub fill : List ℕ → (n v : ℕ) → (ℕ → ℕ) → Outcome (ℕ → ℕ)
fill out zero v c = ok c
fill out (suc n) v c = do
  a ← byte_at out v
  b ← byte_at out (v + 1)
  fill out n (v + 1) (cache_set c (bit_xor a b) v)

unfoldable pub read_header : List ℕ → Reader → Outcome Reader
read_header input s =
    if s.mask == 0
    then (byte_at input s.in_idx >>= λ h.
        ok (record s { header = h; mask = 1; in_idx = s.in_idx + 1 }))
    else ok s

unfoldable pub read_run : List ℕ → Reader → Outcome Reader
read_run input s = do
  x ← byte_at input s.in_idx
  n ← byte_at input (s.in_idx + 1)
  o ← copy_from s.out (s.cache x) (2 + n)
  c ← fill o (length s.out + 1 - s.valid) s.valid s.cache
  ok (record s { out = o; in_idx = s.in_idx + 2; cache = c; valid = length o })

unfoldable pub read_byte : List ℕ → Reader → Outcome Reader
read_byte input s = do
  a ← byte_at input s.in_idx
  let o = s.out ++ (a ∷ [])
  c ← fill o (length s.out - s.valid) s.valid s.cache
  ok (record s {
    out = o;
    in_idx = s.in_idx + 1;
    cache = c;
    valid = s.valid + (length s.out - s.valid);
  })

unfoldable pub read_round : List ℕ → Reader → Outcome Reader
read_round input s = do
  t ← read_header input s
  u ← (if bit_and t.header t.mask != 0 then read_run input t else read_byte input t)
  ok (record u { mask = u.mask * 2 % 256 })

-- Rounds until the payload has `n` bytes; each adds one or more, so that `fuel` is what is missing.
unfoldable pub restore_from : List ℕ → (n fuel : ℕ) → Reader → Outcome (List ℕ)
restore_from input n zero s = if ltb (length s.out) n then undefined else ok s.out
restore_from input n (suc fuel) s =
    if ltb (length s.out) n
    then (read_round input s >>= λ t. restore_from input n fuel t)
    else ok s.out

-- The payload of `n` bytes; the reader's cache may hold anything at first.
unfoldable pub restore : (ℕ → ℕ) → (n : ℕ) → List ℕ → Outcome (List ℕ)
restore cache n input =
    restore_from input n n
      (record { out = []; in_idx = 0; mask = 0; header = 0; cache = cache; valid = 0 })
