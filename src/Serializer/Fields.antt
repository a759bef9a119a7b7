-- ===== src/Serializer/Fields.antt =====
-- One field of each kind that SEBufSerializer puts and gets.
pub mod Sequences
use home_replication.Base.{
  ℕ, ◌+◌, ◌^◌, ◌≤◌, ◌<◌, ◌≡◌, ◌∙◌, refl, ap, sym, List, [], ◌∷◌, ◌++◌, map, arith, length, All,
  length-append, take-append-drop, some,
}
use home_replication.Base.Int.{ℤ, to_int, to_uint}
use home_replication.Base.Exec.{ok, pure, ◌>>=◌, ◌>>◌}
use home_replication.Bytes.{Bytes, le_bytes, le_value, length-le_bytes, le_value-le_bytes}
use home_replication.Endian.{enc64, dec64, enc32, dec32, enc16, dec16}
use home_replication.Endian.Order.{codec_64, codec_32, codec_16, enc_bounds}
use home_replication.Serializer.{
  Ser, overwrite, seek, put_word, get_word, put_u64, get_u64, put_u32, get_u32, put_u16, get_u16,
  put_u8, get_u8, put_i64, get_i64, put_i32, get_i32, put_i16, get_i16, put_string, get_string, get,
}
use home_replication.Serializer.Steps.{
  cursor, slice, length-overwrite, slice-overwrite, put_word_fits, get_word_fits,
  overwrite-overwrite, slice-left, is_valid_fits, get_raw_fits, slice-right,
}
use home_replication.Serializer.RoundTrip.{
  reread, IsInt, to_int-to_uint_64, to_int-to_uint_32, to_int-to_uint_16, to_uint-lt, seek_fits,
  put_fits, prefixed,
}

pub data Kind : Type 0 where
  u64 u32 u16 u8 i64 i32 i16 text : Kind

-- A value of each kind.
abbrev pub Value : Kind → Type 0
Value u64 = ℕ
Value u32 = ℕ
Value u16 = ℕ
Value u8 = ℕ
Value i64 = ℤ
Value i32 = ℤ
Value i16 = ℤ
Value text = Bytes

abbrev pub IsFit : (k : Kind) → Value k → Type 0
IsFit u64 v = v < 2 ^ 64
IsFit u32 v = v < 2 ^ 32
IsFit u16 v = v < 2 ^ 16
IsFit u8 v = v < 2 ^ 8
IsFit i64 v = IsInt 64 v
IsFit i32 v = IsInt 32 v
IsFit i16 v = IsInt 16 v
IsFit text v = length v < 2 ^ 32

-- The put and the get function of a kind.
unfoldable pub put_value : (k : Kind) → Value k → Ser (Unit {0})
put_value u64 v = put_u64 v
put_value u32 v = put_u32 v
put_value u16 v = put_u16 v
put_value u8 v = put_u8 v
put_value i64 v = put_i64 v
put_value i32 v = put_i32 v
put_value i16 v = put_i16 v
put_value text v = put_string v

pub get_value : (k : Kind) → Ser (Value k)
get_value u64 = get_u64
get_value u32 = get_u32
get_value u16 = get_u16
get_value u8 = get_u8
get_value i64 = get_i64
get_value i32 = get_i32
get_value i16 = get_i16
get_value text = get_string

-- The bytes of a value.
unfoldable pub layout : (k : Kind) → Value k → Bytes
layout u64 v = le_bytes 8 (enc64 v)
layout u32 v = le_bytes 4 (enc32 v)
layout u16 v = le_bytes 2 (enc16 v)
layout u8 v = le_bytes 1 v
layout i64 v = le_bytes 8 (enc64 (to_uint 64 v))
layout i32 v = le_bytes 4 (enc32 (to_uint 32 v))
layout i16 v = le_bytes 2 (enc16 (to_uint 16 v))
layout text v = le_bytes 4 (enc32 (length v)) ++ v

module _ (m : Bytes) (p : ℕ) (small : length m < 2 ^ 63) where
  put_word-layout :
      (n w : ℕ)
      → p + length (le_bytes n w) ≤ length m
      → put_word n w (cursor m p)
        ≡ (ok tt, cursor (overwrite m p (le_bytes n w)) (p + length (le_bytes n w)))
  put_word-layout n w h =
      let size = length-le_bytes n w in rw (put_word_fits m p small n w (omega arith), size) refl

  get_word-layout :
      (n w : ℕ) (f : ℕ → ℕ)
      → p + length (le_bytes n w) ≤ length m
      → w < 256 ^ n
      → slice m p (length (le_bytes n w)) ≡ le_bytes n w
      → get_word n f (cursor m p) ≡ (ok (f w), cursor m (p + length (le_bytes n w)))
  get_word-layout n w f h fits there =
      let size = length-le_bytes n w in
      let found : slice m p n ≡ le_bytes n w = ap (λ (k : ℕ). slice m p k) (sym size) ∙ there in
      rw (get_word_fits m p small n f (omega arith), found, le_value-le_bytes n w fits, size) refl

  pub put_value-layout :
      (k : Kind) (v : Value k)
      → IsFit k v
      → p + length (layout k v) ≤ length m
      → put_value k v (cursor m p)
        ≡ (ok tt, cursor (overwrite m p (layout k v)) (p + length (layout k v)))
  unfolding put_value layout put_u64 put_u32 put_u16 put_u8 put_i64 put_i32 put_i16 put_string
  put_value-layout u64 v h room = put_word-layout 8 (enc64 v) room
  put_value-layout u32 v h room = put_word-layout 4 (enc32 v) room
  put_value-layout u16 v h room = put_word-layout 2 (enc16 v) room
  put_value-layout u8 v h room = put_word-layout 1 v room
  put_value-layout i64 v h room = put_word-layout 8 (enc64 (to_uint 64 v)) room
  put_value-layout i32 v h room = put_word-layout 4 (enc32 (to_uint 32 v)) room
  put_value-layout i16 v h room = put_word-layout 2 (enc16 (to_uint 16 v)) room
  put_value-layout text v h room =
      let word : Bytes = le_bytes 4 (enc32 (length v)) in
      let m' : Bytes = overwrite m p word in
      let four : length word ≡ 4 = length-le_bytes 4 (enc32 (length v)) in
      let total : length (word ++ v) ≡ length word + length v = length-append word v in
      let joined : overwrite m' (p + length word) v ≡ overwrite m p (word ++ v) =
        overwrite-overwrite m p word v (omega arith) in
      let end : p + length word + length v ≡ p + length (word ++ v) = omega arith in
      put_fits m p small v (omega arith) h
      ∙ ap (λ (k : ℕ). (ok tt, cursor (overwrite m' (p + k) v) (p + k + length v))) (sym four)
      ∙ ap (λ (t : Bytes). (ok tt, cursor t (p + length word + length v))) joined
      ∙ ap (λ (q : ℕ). (ok tt, cursor (overwrite m p (word ++ v)) q)) end

  pub get_value-layout :
      (k : Kind) (v : Value k)
      → IsFit k v
      → p + length (layout k v) ≤ length m
      → slice m p (length (layout k v)) ≡ layout k v
      → get_value k (cursor m p) ≡ (ok v, cursor m (p + length (layout k v)))
  unfolding get_value layout get_u64 get_u32 get_u16 get_u8 get_i64 get_i32 get_i16 get_string get
  get_value-layout u64 v h room there =
      rw
        (
          get_word-layout 8 (enc64 v) dec64 room (omega (arith, (enc_bounds v).0)) there,
          (codec_64 v h).0,
        )
        refl
  get_value-layout u32 v h room there =
      rw
        (
          get_word-layout 4 (enc32 v) dec32 room (omega (arith, (enc_bounds v).1)) there,
          (codec_32 v h).0,
        )
        refl
  get_value-layout u16 v h room there =
      rw
        (
          get_word-layout 2 (enc16 v) dec16 room (omega (arith, (enc_bounds v).2)) there,
          (codec_16 v h).0,
        )
        refl
  get_value-layout u8 v h room there = get_word-layout 1 v (λ v. v) room (omega arith) there
  get_value-layout i64 v h room there =
      let u : ℕ = to_uint 64 v in
      rw
        (
          get_word-layout 8 (enc64 u) dec64 room (omega (arith, (enc_bounds u).0)) there,
          (codec_64 u (to_uint-lt 64 v (omega arith))).0,
          to_int-to_uint_64 v h,
        )
        refl
  get_value-layout i32 v h room there =
      let u : ℕ = to_uint 32 v in
      rw
        (
          get_word-layout 4 (enc32 u) dec32 room (omega (arith, (enc_bounds u).1)) there,
          (codec_32 u (to_uint-lt 32 v (omega arith))).0,
          to_int-to_uint_32 v h,
        )
        refl
  get_value-layout i16 v h room there =
      let u : ℕ = to_uint 16 v in
      rw
        (
          get_word-layout 2 (enc16 u) dec16 room (omega (arith, (enc_bounds u).2)) there,
          (codec_16 u (to_uint-lt 16 v (omega arith))).0,
          to_int-to_uint_16 v h,
        )
        refl
  get_value-layout text v h room there =
      let word : Bytes = le_bytes 4 (enc32 (length v)) in
      let total : length (word ++ v) ≡ length word + length v = length-append word v in
      let end : p + length word + length v ≡ p + length (word ++ v) = omega arith in
      let size =
        get_word-layout 4 (enc32 (length v)) dec32 (omega arith)
          (omega (arith, (enc_bounds (length v)).1)) (slice-left m p word v there) in
      rw
        (
          size,
          (codec_32 (length v) h).0,
          is_valid_fits m (p + length word) small (length v) (omega arith),
          get_raw_fits m (p + length word) small (length v) (omega arith),
          slice-right m p word v there,
          end,
        )
        refl
