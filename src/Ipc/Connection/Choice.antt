-- ===== src/Ipc/Connection/Choice.antt =====
-- The choice in `send_impl` whether to send a payload compressed (tools/connection/main.cpp).
use qbind.Base.{
  ℕ, ◌+◌, ◌-◌, ◌/◌, ◌%◌, ◌^◌, ◌<◌, ◌≤◌, ◌≡◌, refl, sym, ap, ◌∙◌, ◌⊎◌, inl, inr, arith, false, not,
  ◌&&◌, [], ◌∷◌, ◌++◌,
}
use qbind.Base.Tests.{ltb, lt→ltb, if◌then◌else◌, Bool-cases}
use qbind.Base.Lists.{length, replicate}
use qbind.Base.Outcome.{ok}
use qbind.Ipc.{Endian, Buffer, bytes_of, write_at, write}
use qbind.Ipc.Access.{write_at-bytes_of}
use qbind.Ipc.Bytes.{length-bytes_of}
use qbind.Ipc.Compress.{Garbage, compress}
use qbind.Ipc.Compress.Safety.{compress-fits}
use qbind.Ipc.Compress.Format.{restore}
use qbind.Ipc.Compress.RoundTrip.{compress-restore}
use qbind.Ipc.Connection.{gb, Setting, try_compress}
use qbind.Ipc.Connection.Header.{one_byte}
use qbind.Ipc.Connection.Format.{size_width}

-- The header of 16 bytes with byte order and type, and with what a compressed message adds.
abbrev pub begun : Endian → (x0 x1 : ℕ) → Buffer
begun e x0 x1 = record { bytes = x0 ∷ x1 ∷ replicate 14 0; endianness = e }

abbrev pub flagged : Endian → (x0 x1 level before : ℕ) → Buffer
flagged e x0 x1 level before =
    let w = size_width level in
    record {
      bytes = x0 ∷ x1 ∷ level ∷ 0 ∷ 0 ∷ 0 ∷ 0 ∷ 0 ∷ (bytes_of e w before ++ replicate (8 - w) 0);
      endianness = e;
    }

-- The level of compression that the size before it asks for.
abbrev pub level_of : (before : ℕ) → ℕ
level_of before = if ltb before (gb 4) then 1 else 2

module _ (native e : Endian) (x0 x1 before : ℕ) where
  write-level :
      (v : ℕ)
      → write_at native 1 v (begun e x0 x1) 2
        ≡ ok (record { bytes = x0 ∷ x1 ∷ (v % 256) ∷ replicate 13 0; endianness = e })
  write-level v =
      write_at-bytes_of native 1 (begun e x0 x1) 2 (omega arith) v ∙ rw (one_byte e v) refl

  write-narrow :
      (level : ℕ)
      → write native 4 before
          (record { bytes = x0 ∷ x1 ∷ level ∷ replicate 13 0; endianness = e })
          8
        ≡ ok (
          record {
            bytes = x0 ∷ x1 ∷ level ∷ 0 ∷ 0 ∷ 0 ∷ 0 ∷ 0 ∷ (bytes_of e 4 before ++ replicate 4 0);
            endianness = e;
          },
          12,
        )
  unfolding write
  write-narrow level =
      rw
        (
          write_at-bytes_of native 4
              (record { bytes = x0 ∷ x1 ∷ level ∷ replicate 13 0; endianness = e }) 8 (omega arith)
              before,
          length-bytes_of e 4 before,
        )
        refl

  write-wide :
      (level : ℕ)
      → write native 8 before
          (record { bytes = x0 ∷ x1 ∷ level ∷ replicate 13 0; endianness = e })
          8
        ≡ ok (
          record {
            bytes = x0 ∷ x1 ∷ level ∷ 0 ∷ 0 ∷ 0 ∷ 0 ∷ 0 ∷ (bytes_of e 8 before ++ []);
            endianness = e;
          },
          16,
        )
  unfolding write
  write-wide level =
      rw
        (
          write_at-bytes_of native 8
              (record { bytes = x0 ∷ x1 ∷ level ∷ replicate 13 0; endianness = e }) 8 (omega arith)
              before,
          length-bytes_of e 8 before,
        )
        refl

-- What may stand in the way of a message: its size, and what memory holds where `compress` runs.
pub record IsSendable {S : Type 0} (c : Setting S) (b : Buffer) : Type 0 where
  pub allowed : (8 + length b.bytes < gb 2) ⊎ (5 ≤ c.m_level)
  pub bounded : 8 + length b.bytes < 2 ^ 40
  pub sized : (m : ℕ) → length (c.garbage.malloc m) ≡ m
  pub zeros : (y : ℕ) → c.garbage.cache y ≡ 0

-- What `compress` makes of a buffer that it makes smaller.
abbrev pub Restores : Buffer → Buffer → Type 0
Restores b r = (cache : ℕ → ℕ) → restore cache (length b.bytes) r.bytes ≡ ok b.bytes

compress-choice :
    (g : Garbage) (b : Buffer)
    → 26 ≤ length b.bytes
    → length b.bytes < 2 ^ 63
    → ((m : ℕ) → length (g.malloc m) ≡ m)
    → ((y : ℕ) → g.cache y ≡ 0)
    → (r : Buffer) × (compress g b ≡ ok r)
      × ((r ≡ b) ⊎ ((length r.bytes ≤ (8 + length b.bytes) / 2) × Restores b r))
compress-choice g b long bounded sized zeros =
    let (r, e, order, fits) = compress-fits g b long bounded sized zeros in
    elim fits [
      | inl same ↦ (r, e, inl same)
      | inr small ↦
          let smaller : length r.bytes < length b.bytes = omega arith in
          (
            r,
            e,
            inr (
              small,
              λ cache.
                  let (r', e', restored) = compress-restore g b long bounded sized zeros cache in
                  let one : r' ≡ r = (let both = sym e' ∙ e in cc) in
                  elim restored [
                    | inl same ↦ absurd (
                        let lengths : length r.bytes ≡ length b.bytes =
                          ap (λ z. length z.bytes) (sym one ∙ same) in
                        omega arith)
                    | inr good ↦ rw one at good
                  ],
            ),
          )
    ]

-- `try_compress` sends the payload as it is, or a smaller one and its first size.
pub try_compress-choice :
    {S : Type 0} (c : Setting S) (b : Buffer) (x0 x1 : ℕ)
    → IsSendable c b
    → (try_compress c b (begun b.endianness x0 x1) (8 + length b.bytes)
        ≡ ok (b, begun b.endianness x0 x1, 8))
      ⊎ ((r : Buffer) × (try_compress c b (begun b.endianness x0 x1) (8 + length b.bytes)
            ≡ ok (
              r,
              flagged b.endianness x0 x1 (level_of (8 + length b.bytes)) (8 + length b.bytes),
              8 + size_width (level_of (8 + length b.bytes)),
            ))
          × (2000 < 8 + length b.bytes)
          × (length r.bytes ≤ (8 + length b.bytes) / 2)
          × Restores b r)
unfolding try_compress
try_compress-choice c b x0 x1 h =
    let size = 8 + length b.bytes in
    let bounded = h.bounded in
    elim (Bool-cases (ltb 0 c.m_level && not c.m_conn.is_unix_domain_socket && ltb 2000 size)) [
      | inr skip ↦ inl (rw skip refl)
      | inl try_it ↦
          let long : 2000 < size = ground arith in
          let (r, e, choice) =
            compress-choice c.garbage b (omega arith) (omega arith) h.sized h.zeros in
          elim choice [
            | inl same ↦
                let kept : ltb (length b.bytes) (length b.bytes) ≡ false = ground arith in
                inl (rw (try_it, e, same, kept) refl)
            | inr (smaller, restores) ↦
                let less = lt→ltb (length r.bytes) (length b.bytes) (omega arith) in
                elim (Bool-cases (ltb size (gb 4))) [
                  | inl narrow ↦ inr (
                    r,
                    rw
                        (
                          try_it,
                          e,
                          less,
                          narrow,
                          write-level c.native b.endianness x0 x1 size 1,
                          write-narrow c.native b.endianness x0 x1 size 1,
                        )
                        refl,
                    long,
                    smaller,
                    restores,
                  )
                  | inr wide ↦ inr (
                    r,
                    rw
                        (
                          try_it,
                          e,
                          less,
                          wide,
                          write-level c.native b.endianness x0 x1 size 2,
                          write-wide c.native b.endianness x0 x1 size 2,
                        )
                        refl,
                    long,
                    smaller,
                    restores,
                  )
                ]
          ]
    ]
