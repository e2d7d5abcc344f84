-- ===== src/Ipc/Compress.antt =====
-- `compress` of the class SocketConnection, tools/connection/main.cpp.
pub mod Rounds
pub mod Safety
pub mod Xor
pub mod Format
pub mod Cells
pub mod Trace
pub mod Sync
pub mod Reading
pub mod Block
pub mod Written
pub mod RoundTrip
use qbind.Base.{
  ℕ, zero, suc, ◌+◌, ◌-◌, ◌*◌, ◌/◌, ◌%◌, ◌^◌, min, Bool, true, false, List, [], ◌∷◌, Option, none,
  some,
}
use Prim.Native.Nat.{bit_xor, bit_or}
use qbind.Base.Tests.{ltb, ◌==◌, ◌!=◌, if◌then◌else◌}
use qbind.Base.Lists.{length, get_elem?, set, take}
use qbind.Base.Outcome.{Outcome, ok, undefined, ◌>>=◌}
use qbind.Ipc.{Buffer}

-- Subtraction of `size_t`s, which wraps around.
abbrev pub sub64 : ℕ → ℕ → ℕ
sub64 a b = (a + 2 ^ 64 - b) % 2 ^ 64

-- `in[i]` and `out[i] = v`, undefined out of bounds.
abbrev or_undefined : Option ℕ → Outcome ℕ
or_undefined none = undefined
or_undefined (some x) = ok x

unfoldable pub byte_at : List ℕ → ℕ → Outcome ℕ
byte_at bs i = or_undefined (get_elem? bs i)

unfoldable pub put : List ℕ → ℕ → ℕ → Outcome (List ℕ)
put bs i v = if ltb i (length bs) then ok (set bs i v) else undefined

-- What the variables that the source leaves without a value hold: the bytes of a `malloc`, and
-- `xor_offset_cache` and `xor_offset`.
pub record Garbage : Type 0 where
  pub malloc : ℕ → List ℕ
  pub cache : ℕ → ℕ
  pub offset : ℕ

-- The variables of `compress`.
pub record Packer : Type 0 where
  pub out : List ℕ
  pub block_header_mask : ℕ
  pub current_block_header : ℕ
  pub in_idx : ℕ
  pub in_idx_prev : ℕ
  pub xor_offset : ℕ
  pub xor_offset_prev : ℕ
  pub header_idx : ℕ
  pub out_idx : ℕ
  pub xor_offset_cache : ℕ → ℕ

abbrev pub cache_set : (ℕ → ℕ) → ℕ → ℕ → ℕ → ℕ
cache_set c x i y = if y == x then i else c y

-- The start of a new block: the header of the last one is stored.
unfoldable pub new_block : Packer → Outcome Packer
unfolding put
new_block s = do
  o ← put s.out s.header_idx s.current_block_header
  ok (record s {
    out = o;
    block_header_mask = 1;
    current_block_header = 0;
    header_idx = s.out_idx;
    out_idx = s.out_idx + 1;
  })

-- `invalidate_cache`, with the values of `xor_offset` and `xor_offset_prev_idx`.
pub record Look : Type 0 where
  pub invalidate_cache : Bool
  pub offset : ℕ
  pub prev_idx : ℕ

unfoldable pub look : List ℕ → Packer → Outcome Look
unfolding byte_at
look input s =
    if ltb (sub64 (length input) 3) s.in_idx
    then ok (record { invalidate_cache = true; offset = s.xor_offset; prev_idx = 0 })
    else do
      a ← byte_at input s.in_idx
      b ← byte_at input (s.in_idx + 1)
      let x = bit_xor a b
      let p = s.xor_offset_cache x
      if p == 0
          then ok (record { invalidate_cache = true; offset = x; prev_idx = p })
          else (byte_at input p >>= λ c.
              ok (record { invalidate_cache = a != c; offset = x; prev_idx = p }))

-- `if (in_idx_prev) { xor_offset_cache[xor_offset_prev] = in_idx_prev; in_idx_prev = 0; }`
unfoldable pub remember : Packer → Packer
remember s = if s.in_idx_prev == 0 then s else record s {
  xor_offset_cache = cache_set s.xor_offset_cache s.xor_offset_prev s.in_idx_prev;
  in_idx_prev = 0;
}

-- The branch that writes the current byte.
unfoldable pub literal : List ℕ → ℕ → Packer → Outcome Packer
unfolding byte_at put
literal input x s = do
  a ← byte_at input s.in_idx
  o ← put s.out s.out_idx a
  ok (record s {
    out = o;
    xor_offset = x;
    xor_offset_prev = x;
    in_idx_prev = s.in_idx;
    out_idx = s.out_idx + 1;
    in_idx = s.in_idx + 1;
  })

-- `while (in[p] == in[q] && ++q < look_until_idx) ++p;`, the last value of `q`: `++q` stays below
-- `look_until_idx` as often as `left` says.
unfoldable pub run_end : List ℕ → (left p q : ℕ) → Outcome ℕ
unfolding byte_at
run_end input zero p q = do
  a ← byte_at input p
  b ← byte_at input q
  ok (if a == b then q + 1 else q)
run_end input (suc left) p q =
    let rest = run_end input left (p + 1) (q + 1) in
    do a ← byte_at input p; b ← byte_at input q; if a == b then rest else ok q

-- The branch that writes the offset and the length of a run.
unfoldable pub run : List ℕ → (x prev_idx : ℕ) → Packer → Outcome Packer
unfolding put run_end
run input x prev_idx s = do
  let start = s.in_idx + 2
  let until = min (start + 255) (length input)
  q ← run_end input (until - (start + 1)) (prev_idx + 2) start
  o ← put s.out s.out_idx x
  o' ← put o (s.out_idx + 1) ((q - start) % 256)
  ok (record s {
    out = o';
    xor_offset = x;
    xor_offset_cache = cache_set s.xor_offset_cache x s.in_idx;
    current_block_header = bit_or s.current_block_header s.block_header_mask;
    in_idx = q;
    out_idx = s.out_idx + 2;
  })

-- The rest of an iteration, `block_header_mask *= 2` included.
unfoldable pub advance : List ℕ → Packer → Outcome Packer
unfolding look remember literal run
advance input s = do
  l ← look input s
  t ←
      (if l.invalidate_cache
        then literal input l.offset (remember s)
        else run input l.offset l.prev_idx (remember s))
  ok (record t { block_header_mask = t.block_header_mask * 2 % 256 })

-- The result: `in_buff` itself, or the bytes that were written.
pub data Packed : Type 0 where
  unchanged : Packed
  packed : List ℕ → Packed

-- Behind the loop.
unfoldable pub close : Packer → Outcome Packed
unfolding put
close s = do o ← put s.out s.header_idx s.current_block_header; ok (packed (take s.out_idx o))

-- The loop; each round moves `in_idx` on, so that `fuel` is what is left of the input.
unfoldable pub pack : List ℕ → (out_length fuel : ℕ) → Packer → Outcome Packed
unfolding advance new_block close
pack input out_length zero s = if ltb s.in_idx (length input) then undefined else close s
pack input out_length (suc fuel) s =
    if ltb s.in_idx (length input)
    then elim (s.block_header_mask == 0) [
      | true ↦ elim (ltb (sub64 out_length 17) s.out_idx) [
        | true ↦ ok unchanged
        | false ↦ do t ← new_block s; u ← advance input t; pack input out_length fuel u
      ]
      | false ↦ do u ← advance input s; pack input out_length fuel u
    ]
    else close s

-- The variables before the loop.
abbrev pub first_state : Garbage → ℕ → Packer
first_state g out_length = record {
  out = g.malloc out_length;
  block_header_mask = 0;
  current_block_header = 0;
  in_idx = 0;
  in_idx_prev = 0;
  xor_offset = g.offset;
  xor_offset_prev = g.offset;
  header_idx = 0;
  out_idx = 0;
  xor_offset_cache = g.cache;
}

-- `compress(in_buff)`
unfoldable pub compress : Garbage → Buffer → Outcome Buffer
unfolding pack
compress g in_buff = do
  let out_length = (8 + length in_buff.bytes) / 2
  p ← pack in_buff.bytes out_length (length in_buff.bytes) (first_state g out_length)
  elim p [ unchanged ↦ ok in_buff | packed bs ↦ ok (record in_buff { bytes = bs }) ]
