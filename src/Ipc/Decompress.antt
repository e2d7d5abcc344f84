-- ===== src/Ipc/Decompress.antt =====
-- `decompress` of the class SocketConnection, tools/connection/main.cpp.
pub mod SizeField
pub mod Bounds
pub mod Rounds
use qbind.Base.{
  ℕ, zero, suc, ◌+◌, ◌-◌, ◌*◌, ◌%◌, ◌^◌, ◌||◌, ◌&&◌, Bool, true, false, not, List, [], ◌∷◌, ◌++◌,
}
use Prim.Native.Nat.{bit_xor, bit_and}
use qbind.Base.Tests.{ltb, ◌==◌, ◌!=◌, if◌then◌else◌}
use qbind.Base.Lists.{length, take, drop}
use qbind.Base.Outcome.{Outcome, ok, undefined, ◌>>=◌}
use qbind.Ipc.{Endian, Buffer, copy_at, read_at}
use qbind.Ipc.Compress.{Garbage, byte_at, put, cache_set, sub64}

-- The variables of `decompress`.
pub record Unpacker : Type 0 where
  pub out : List ℕ
  pub in_idx : ℕ
  pub out_idx : ℕ
  pub block_header_mask : ℕ
  pub current_block_header : ℕ
  pub xor_offset_cache : ℕ → ℕ
  pub cache_valid_to_idx : ℕ

-- `memcpy(out + to, out + from, n)`, undefined where the ranges overlap or leave the buffer.
unfoldable pub copy_within : List ℕ → (to from n : ℕ) → Outcome (List ℕ)
unfolding copy_at
copy_within out to from n =
    if ltb (length out) (from + n) || (ltb from (to + n) && ltb to (from + n))
    then undefined
    else copy_at out to (take n (drop from out))

-- `while (v < last) xor_offset_cache[out[v] ^ out[v + 1]] = v++;` for the `n` rounds that are
-- left. The right side of an assignment is evaluated first, so the index is formed from the next `v`.
unfoldable pub fill_cache : List ℕ → (n v : ℕ) → (ℕ → ℕ) → Outcome (ℕ → ℕ)
unfolding byte_at
fill_cache out zero v c = ok c
fill_cache out (suc n) v c = do
  a ← byte_at out (v + 1)
  b ← byte_at out (v + 2)
  fill_cache out n (v + 1) (cache_set c (bit_xor a b) v)

-- `if (block_header_mask == 0) { current_block_header = in[in_idx++]; block_header_mask = 1; }`
unfoldable pub next_header : List ℕ → Unpacker → Outcome Unpacker
next_header input s =
    if s.block_header_mask == 0
    then (byte_at input s.in_idx >>= λ h.
        ok (record s { current_block_header = h; block_header_mask = 1; in_idx = s.in_idx + 1 }))
    else ok s

abbrev pub is_run : Unpacker → Bool
is_run s = bit_and s.current_block_header s.block_header_mask != 0

-- The copy of a run, or of one byte; the result has `run_length` beside it.
unfoldable pub copy_run : List ℕ → Unpacker → Outcome (Unpacker × ℕ)
copy_run input s = do
  x ← byte_at input s.in_idx
  run_length ← byte_at input (s.in_idx + 1)
  o ← copy_within s.out s.out_idx (s.xor_offset_cache x) (2 + run_length)
  ok (record s { out = o; in_idx = s.in_idx + 2; out_idx = s.out_idx + 2 }, run_length)

unfoldable pub copy_byte : List ℕ → Unpacker → Outcome (Unpacker × ℕ)
copy_byte input s = do
  a ← byte_at input s.in_idx
  o ← put s.out s.out_idx a
  ok (record s { out = o; in_idx = s.in_idx + 1; out_idx = s.out_idx + 1 }, 0)

-- What follows in a round.
unfoldable pub after_copy : Unpacker → (run_length : ℕ) → Outcome Unpacker
after_copy s run_length = do
  let last = s.out_idx - 1
  c ← fill_cache s.out (last - s.cache_valid_to_idx) s.cache_valid_to_idx s.xor_offset_cache
  ok (record s {
    xor_offset_cache = c;
    out_idx = if is_run s then s.out_idx + run_length else s.out_idx;
    cache_valid_to_idx =
        if is_run s
        then s.out_idx + run_length
        else s.cache_valid_to_idx + (last - s.cache_valid_to_idx);
    block_header_mask = s.block_header_mask * 2 % 256;
  })

unfoldable pub unpack_round : List ℕ → Unpacker → Outcome Unpacker
unpack_round input s = do
  t ← next_header input s
  (u, run_length) ← (if is_run t then copy_run input t else copy_byte input t)
  after_copy u run_length

-- The loop; each round writes a byte or more, so that `fuel` is what is left of the output.
unfoldable pub unpack : List ℕ → (out_length fuel : ℕ) → Unpacker → Outcome Unpacker
unpack input out_length zero s = if ltb s.out_idx out_length then undefined else ok s
unpack input out_length (suc fuel) s =
    if ltb s.out_idx out_length
    then (unpack_round input s >>= λ t. unpack input out_length fuel t)
    else ok s

-- `level == 1 ? 4 : 8`
abbrev pub width_of : ℕ → ℕ
width_of level = if level == 1 then 4 else 8

-- The variables before the loop.
abbrev pub first_state : Garbage → (out_length level : ℕ) → Unpacker
first_state g out_length level = record {
  out = g.malloc out_length;
  in_idx = width_of level;
  out_idx = 0;
  block_header_mask = 0;
  current_block_header = 0;
  xor_offset_cache = g.cache;
  cache_valid_to_idx = 0;
}

-- `decompress(in_buff, level)`
unfoldable pub decompress : Garbage → Endian → Buffer → (level : ℕ) → Outcome Buffer
decompress g native in_buff level = do
  n ← read_at native (width_of level) in_buff 8
  let out_length = sub64 (sub64 n 8) (width_of level)
  s ← unpack in_buff.bytes out_length out_length (first_state g out_length level)
  ok (record in_buff { bytes = take s.out_idx s.out })
