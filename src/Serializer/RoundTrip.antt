-- ===== src/Serializer/RoundTrip.antt =====
-- The put functions of SEBufSerializer against its get functions.
use home_replication.Base.{
  ℕ, ◌+◌, ◌*◌, ◌%◌, ◌^◌, ◌≤◌, ◌<◌, ◌≡◌, ◌∙◌, ap, sym, some, arith, length, drop, take-drop,
}
use home_replication.Base.Int.{ℤ, pos, negsuc, to_int, to_uint}
use home_replication.Base.Exec.{Result, ok, pure, ◌>>=◌, ◌>>◌}
use home_replication.Bytes.{Bytes, le_bytes, length-le_bytes, le_value-le_bytes}
use home_replication.Endian.{enc64, dec64, enc32, dec32, enc16, dec16}
use home_replication.Endian.Order.{codec_64, codec_32, codec_16, enc_bounds}
use home_replication.Serializer.{
  Ser, overwrite, seek, put_word, get_word, put_u64, get_u64, put_u32, get_u32, put_u16, get_u16,
  put_u8, get_u8, put_i64, get_i64, put_i32, get_i32, put_i16, get_i16, put, get, put_string,
  get_string,
}
use home_replication.Serializer.Steps.{
  cursor, slice, length-overwrite, slice-overwrite, before-overwrite, is_valid_fits, put_word_fits,
  get_word_fits, put_raw_fits, get_raw_fits,
}

-- The result of a write at `p` followed by a read at `p`.
abbrev pub reread : {A : Type 0} → Ser (Unit {0}) → Ser A → Bytes → ℕ → Result A
reread write read m p = ((write >> seek p >> read) (cursor m p)).0

module _ (m : Bytes) (p : ℕ) (small : length m < 2 ^ 63) where
  pub seek_fits : (m' : Bytes) (q : ℕ) → p ≤ length m' → seek p (cursor m' q) ≡ (ok tt, cursor m' p)
  unfolding seek
  seek_fits m' q h = ground arith

  -- A word that was written is there for a reader at the same place, and the size is unchanged.
  word_written :
      (n w : ℕ) (f : ℕ → ℕ)
      → p + n ≤ length m
      → w < 256 ^ n
      → (length (overwrite m p (le_bytes n w)) ≡ length m)
        × (get_word n f (cursor (overwrite m p (le_bytes n w)) p)
            ≡ (ok (f w), cursor (overwrite m p (le_bytes n w)) (p + n)))
  word_written n w f room h =
      let bs : Bytes = le_bytes n w in
      let m' : Bytes = overwrite m p bs in
      let size : length m' ≡ length m =
        length-overwrite m p bs (omega (arith, length-le_bytes n w)) in
      let found : slice m' p n ≡ bs =
        ap (λ (k : ℕ). slice m' p k) (sym (length-le_bytes n w))
        ∙ slice-overwrite m p bs (omega arith) in
      (
        size,
        rw (get_word_fits m' p (omega arith) n f (omega arith), found, le_value-le_bytes n w h),
      )

  -- The word through a conversion `g`, as the signed functions make it.
  word_rereads :
      {A : Type 0} (n w : ℕ) (f : ℕ → ℕ) (g : ℕ → A)
      → p + n ≤ length m
      → w < 256 ^ n
      → reread (put_word n w) (get_word n f >>= λ u. pure (g u)) m p ≡ ok (g (f w))
  word_rereads n w f g room h =
      let (size, read) = word_written n w f room h in
      let m' : Bytes = overwrite m p (le_bytes n w) in
      rw (put_word_fits m p small n w room, seek_fits m' (p + n) (omega arith), read, reread)

  plain_rereads :
      (n w : ℕ) (f : ℕ → ℕ)
      → p + n ≤ length m
      → w < 256 ^ n
      → reread (put_word n w) (get_word n f) m p ≡ ok (f w)
  plain_rereads n w f room h =
      let (size, read) = word_written n w f room h in
      let m' : Bytes = overwrite m p (le_bytes n w) in
      rw (put_word_fits m p small n w room, seek_fits m' (p + n) (omega arith), read, reread)

abbrev pub IsInt : ℕ → ℤ → Type 0
IsInt w (pos n) = 2 * n < 2 ^ w
IsInt w (negsuc n) = 2 * n < 2 ^ w

-- The casts to an unsigned type and back, at the widths of the source.
pub to_int-to_uint_64 : (z : ℤ) → IsInt 64 z → to_int 64 (to_uint 64 z) ≡ z
to_int-to_uint_64 (pos n) h = ground arith
to_int-to_uint_64 (negsuc n) h = ground arith

pub to_int-to_uint_32 : (z : ℤ) → IsInt 32 z → to_int 32 (to_uint 32 z) ≡ z
to_int-to_uint_32 (pos n) h = ground arith
to_int-to_uint_32 (negsuc n) h = ground arith

pub to_int-to_uint_16 : (z : ℤ) → IsInt 16 z → to_int 16 (to_uint 16 z) ≡ z
to_int-to_uint_16 (pos n) h = ground arith
to_int-to_uint_16 (negsuc n) h = ground arith

pub to_uint-lt : (w : ℕ) (z : ℤ) → 0 < 2 ^ w → to_uint w z < 2 ^ w
to_uint-lt w (pos n) h = omega arith
to_uint-lt w (negsuc n) h = omega arith

module _ (m : Bytes) (p : ℕ) (small : length m < 2 ^ 63) where
  -- In a buffer of less than 2 ^ 63 bytes with 8 bytes left at the position `p`, an unsigned
  -- integer of 8, 16, 32 or 64 bits that is put there is read back by the get function of its width
  -- as it was written.
  unsigned_roundtrip :
      (v8 v16 v32 v64 : ℕ)
      → p + 8 ≤ length m
      → v8 < 2 ^ 8
      → v16 < 2 ^ 16
      → v32 < 2 ^ 32
      → v64 < 2 ^ 64
      → (reread (put_u8 v8) get_u8 m p ≡ ok v8)
        × (reread (put_u16 v16) get_u16 m p ≡ ok v16)
        × (reread (put_u32 v32) get_u32 m p ≡ ok v32)
        × (reread (put_u64 v64) get_u64 m p ≡ ok v64)
  unfolding put_u8 get_u8 put_u16 get_u16 put_u32 get_u32 put_u64 get_u64
  unsigned_roundtrip v8 v16 v32 v64 room h8 h16 h32 h64 = (
    plain_rereads m p small 1 v8 (λ v. v) (omega arith) (omega arith),
    plain_rereads m p small 2 (enc16 v16) dec16 (omega arith) (enc_bounds v16).2
        ∙ ap ok (codec_16 v16 h16).0,
    plain_rereads m p small 4 (enc32 v32) dec32 (omega arith) (enc_bounds v32).1
        ∙ ap ok (codec_32 v32 h32).0,
    plain_rereads m p small 8 (enc64 v64) dec64 (omega arith) (enc_bounds v64).0
        ∙ ap ok (codec_64 v64 h64).0,
  )

  -- In a buffer of less than 2 ^ 63 bytes with 8 bytes left at the position `p`, a signed integer
  -- of 16, 32 or 64 bits that is put there is read back by the get function of its width as it was
  -- written.
  signed_roundtrip :
      (v16 v32 v64 : ℤ)
      → p + 8 ≤ length m
      → IsInt 16 v16
      → IsInt 32 v32
      → IsInt 64 v64
      → (reread (put_i16 v16) get_i16 m p ≡ ok v16)
        × (reread (put_i32 v32) get_i32 m p ≡ ok v32)
        × (reread (put_i64 v64) get_i64 m p ≡ ok v64)
  unfolding put_i16 get_i16 put_i32 get_i32 put_i64 get_i64
  signed_roundtrip v16 v32 v64 room h16 h32 h64 =
      let u16 : ℕ = to_uint 16 v16 in
      let u32 : ℕ = to_uint 32 v32 in
      let u64 : ℕ = to_uint 64 v64 in
      (
        word_rereads m p small 2 (enc16 u16) dec16 (to_int 16) (omega arith) (enc_bounds u16).2
            ∙ ap (λ (u : ℕ). ok (to_int 16 u)) (codec_16 u16 (to_uint-lt 16 v16 (omega arith))).0
            ∙ ap ok (to_int-to_uint_16 v16 h16),
        word_rereads m p small 4 (enc32 u32) dec32 (to_int 32) (omega arith) (enc_bounds u32).1
            ∙ ap (λ (u : ℕ). ok (to_int 32 u)) (codec_32 u32 (to_uint-lt 32 v32 (omega arith))).0
            ∙ ap ok (to_int-to_uint_32 v32 h32),
        word_rereads m p small 8 (enc64 u64) dec64 (to_int 64) (omega arith) (enc_bounds u64).0
            ∙ ap (λ (u : ℕ). ok (to_int 64 u)) (codec_64 u64 (to_uint-lt 64 v64 (omega arith))).0
            ∙ ap ok (to_int-to_uint_64 v64 h64),
      )

  abbrev pub prefixed : Bytes → Bytes
  prefixed bs = overwrite (overwrite m p (le_bytes 4 (enc32 (length bs)))) (p + 4) bs

  pub put_fits :
      (bs : Bytes)
      → p + 4 + length bs ≤ length m
      → length bs < 2 ^ 32
      → put bs (cursor m p) ≡ (ok tt, cursor (prefixed bs) (p + 4 + length bs))
  unfolding put put_u32
  put_fits bs room h =
      let word : ℕ = enc32 (length bs) in
      let m' : Bytes = overwrite m p (le_bytes 4 word) in
      let size : length m' ≡ length m =
        length-overwrite m p (le_bytes 4 word) (omega (arith, length-le_bytes 4 word)) in
      let short : length bs % 2 ^ 32 ≡ length bs = omega arith in
      rw (
        short,
        put_word_fits m p small 4 word (omega arith),
        is_valid_fits m' (p + 4) (omega arith) (length bs) (omega arith),
        put_raw_fits m' (p + 4) (omega arith) bs (omega arith),
      )

  -- What a reader at `p` finds behind a byte string that was put there.
  prefixed_fields :
      (bs : Bytes)
      → p + 4 + length bs ≤ length m
      → length bs < 2 ^ 32
      → (length (prefixed bs) ≡ length m)
        × (slice (prefixed bs) p 4 ≡ le_bytes 4 (enc32 (length bs)))
        × (slice (prefixed bs) (p + 4) (length bs) ≡ bs)
  prefixed_fields bs room h =
      let word : Bytes = le_bytes 4 (enc32 (length bs)) in
      let four : length word ≡ 4 = length-le_bytes 4 (enc32 (length bs)) in
      let m' : Bytes = overwrite m p word in
      let size : length m' ≡ length m = length-overwrite m p word (omega arith) in
      let header : slice m' p 4 ≡ word =
        ap (λ (k : ℕ). slice m' p k) (sym four) ∙ slice-overwrite m p word (omega arith) in
      let kept : slice (prefixed bs) p 4 ≡ slice m' p 4 =
        take-drop p 4 (prefixed bs)
        ∙ ap (λ (t : Bytes). drop p t) (before-overwrite m' (p + 4) bs (omega arith))
        ∙ sym (take-drop p 4 m') in
      (
        length-overwrite m' (p + 4) bs (omega arith) ∙ size,
        kept ∙ header,
        slice-overwrite m' (p + 4) bs (omega arith),
      )

  get_fits :
      (bs : Bytes)
      → p + 4 + length bs ≤ length m
      → length bs < 2 ^ 32
      → get (cursor (prefixed bs) p) ≡ (ok (some bs), cursor (prefixed bs) (p + 4 + length bs))
  unfolding get get_u32
  get_fits bs room h =
      let (size, header, body) = prefixed_fields bs room h in
      let m' : Bytes = prefixed bs in
      let word : ℕ = enc32 (length bs) in
      rw (
        get_word_fits m' p (omega arith) 4 dec32 (omega arith),
        header,
        le_value-le_bytes 4 word (enc_bounds (length bs)).1,
        (codec_32 (length bs) h).0,
        is_valid_fits m' (p + 4) (omega arith) (length bs) (omega arith),
        get_raw_fits m' (p + 4) (omega arith) (length bs) (omega arith),
        body,
      )

  -- In a buffer of less than 2 ^ 63 bytes with room at the position `p` for a byte string of less
  -- than 2 ^ 32 bytes and its 4 bytes of length, what `put` writes there is what `get` reads back,
  -- and the same for `putString` and `getString`.
  blob_roundtrip :
      (bs : Bytes)
      → p + 4 + length bs ≤ length m
      → length bs < 2 ^ 32
      → (reread (put bs) get m p ≡ ok (some bs)) × (reread (put_string bs) get_string m p ≡ ok bs)
  unfolding put_string get_string
  blob_roundtrip bs room h =
      let (size, header, body) = prefixed_fields bs room h in
      let end : ℕ = p + 4 + length bs in
      (
        rw (
          put_fits bs room h,
          seek_fits m p small (prefixed bs) end (omega arith),
          get_fits bs room h,
          reread,
        ),
        rw (
          put_fits bs room h,
          seek_fits m p small (prefixed bs) end (omega arith),
          get_fits bs room h,
          reread,
        ),
      )
