-- ===== src/StateStore/Pbas.antt =====
-- The bytes of a free pba record, in add_free_pba_record and get_free_pba_records.
use home_replication.Base.{
  ℕ, ◌+◌, ◌*◌, ◌%◌, ◌^◌, ◌<◌, ◌≡◌, refl, sym, ◌++◌, List, [], ◌∷◌, All, arith, length,
  length-append, take-append, drop-append, le→ltb,
}
use home_replication.Base.Exec.{ok}
use home_replication.Bytes.{Bytes, le_bytes, length-le_bytes, le_value-le_bytes}
use home_replication.StateStore.{encode_pbas, decode_pbas, read_pbas, concat_pbas}

abbrev pub IsPba : ℕ → Type 0
IsPba pba = pba < 2 ^ 64

-- The record of the pbas, with its size in the range of a uint32_t.
pub record IsPbaList (pbas : List ℕ) : Type 0 where
  pub pba_fits : All IsPba pbas
  pub size_fits : 4 + length pbas * 8 < 2 ^ 32

abbrev pub packed : List ℕ → Bytes
packed pbas = le_bytes 4 (length pbas) ++ concat_pbas pbas

pub encode_pbas-packed : (pbas : List ℕ) → IsPbaList pbas → encode_pbas pbas ≡ ok (packed pbas)
unfolding encode_pbas
encode_pbas-packed pbas h =
    let count : length pbas % 2 ^ 32 ≡ length pbas = omega (arith, h.size_fits) in
    let size : (4 + length pbas * 8) % 2 ^ 32 ≡ 4 + length pbas * 8 = omega (arith, h.size_fits) in
    rw (size, le→ltb (4 + length pbas * 8) (4 + length pbas * 8) (omega arith), count)

read_pbas-concat :
    (pbas : List ℕ) → All IsPba pbas → read_pbas (length pbas) (concat_pbas pbas) ≡ ok pbas
unfolding read_pbas
read_pbas-concat [] h = refl
read_pbas-concat (p ∷ pbas) (hp, h) =
    let word : Bytes = le_bytes 8 p in
    let eight : length word ≡ 8 = length-le_bytes 8 p in
    rw (
      le→ltb (length (word ++ concat_pbas pbas)) 8
          (omega (arith, length-append word (concat_pbas pbas))),
      drop-append 8 word (concat_pbas pbas) (sym eight),
      read_pbas-concat pbas h,
      take-append 8 word (concat_pbas pbas) (sym eight),
      le_value-le_bytes 8 p (omega arith),
    )

pub decode_pbas-packed : (pbas : List ℕ) → IsPbaList pbas → decode_pbas (packed pbas) ≡ ok pbas
unfolding decode_pbas
decode_pbas-packed pbas h =
    let word : Bytes = le_bytes 4 (length pbas) in
    let four : length word ≡ 4 = length-le_bytes 4 (length pbas) in
    rw (
      le→ltb (length (word ++ concat_pbas pbas)) 4
          (omega (arith, length-append word (concat_pbas pbas))),
      take-append 4 word (concat_pbas pbas) (sym four),
      drop-append 4 word (concat_pbas pbas) (sym four),
      le_value-le_bytes 4 (length pbas) (omega (arith, h.size_fits)),
      read_pbas-concat pbas h.pba_fits,
    )

-- Every list of 64-bit pbas whose record has a size below 2 ^ 32 is written as a record and read
-- back from it as it was.
pbas_roundtrip :
    (pbas : List ℕ)
    → IsPbaList pbas
    → (b : Bytes) × (encode_pbas pbas ≡ ok b) × (decode_pbas b ≡ ok pbas)
pbas_roundtrip pbas h = (packed pbas, encode_pbas-packed pbas h, decode_pbas-packed pbas h)
