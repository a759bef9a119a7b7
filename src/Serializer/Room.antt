-- ===== src/Serializer/Room.antt =====
-- Fields that SEBufSerializer puts into a buffer whatever room it has.
use home_replication.Base.{
  ℕ, ◌%◌, ◌+◌, ◌-◌, ◌^◌, ◌≤◌, ◌<◌, ◌≡◌, ◌∙◌, refl, ap, Bool, true, false, not, List, [], ◌∷◌, ◌++◌,
  arith, length, All, All-append, length-append, take-append-drop, leb, le→leb, if◌then◌else◌,
  Bool-cases, inl, inr, ltb, ltb→lt, ltb→le,
}
use home_replication.Base.Exec.{Result, ok, pure, ◌>>=◌, ◌>>◌, Result-cases}
use home_replication.Bytes.{Bytes, le_bytes, length-le_bytes}
use home_replication.Endian.{enc64, enc32, enc16}
use home_replication.Base.Int.{to_uint}
use home_replication.Serializer.{
  Ser, SeBufSerializer, overwrite, is_valid, put_raw, put_word, put, put_u64, put_u32, put_u16,
  put_u8, put_i64, put_i32, put_i16, put_string,
}
use home_replication.Serializer.Steps.{
  cursor, length-overwrite, overwrite-overwrite, is_valid_fits, put_raw_fits, is_valid-Blocked,
}
use home_replication.Serializer.Fields.{Kind, Value, IsFit, put_value, layout}
use home_replication.Serializer.Fields.{u64, u32, u16, u8, i64, i32, i16, text}
use home_replication.Serializer.Fields.Sequences.{Field, field, IsFitting, put_fields}

-- The byte strings for which a field asks for room: those of a number at once, the length of a
-- string before its bytes.
unfoldable pub parts : (k : Kind) → Value k → List Bytes
parts u64 v = layout u64 v ∷ []
parts u32 v = layout u32 v ∷ []
parts u16 v = layout u16 v ∷ []
parts u8 v = layout u8 v ∷ []
parts i64 v = layout i64 v ∷ []
parts i32 v = layout i32 v ∷ []
parts i16 v = layout i16 v ∷ []
parts text v = le_bytes 4 (enc32 (length v)) ∷ v ∷ []

unfoldable pub parts_of : List Field → List Bytes
parts_of [] = []
parts_of (field k v ∷ fs) = parts k v ++ parts_of fs

-- What of the parts goes into so many bytes: those before the first that does not fit, and whether
-- that is all.
unfoldable pub fitting : ℕ → List Bytes → Bytes × Bool
fitting room [] = ([], true)
fitting room (b ∷ bs) =
    let (rest, whole) = fitting (room - length b) bs in
    if leb (length b) room then (b ++ rest, whole) else ([], false)

-- The put of a part.
put_part : Bytes → Ser (Unit {0})
put_part b = do valid ← is_valid (length b); if not valid then pure tt else put_raw b

put_parts : List Bytes → Ser (Unit {0})
unfolding put_part
put_parts [] = pure tt
put_parts (b ∷ bs) = do put_part b; put_parts bs

-- Where the parts that fit have gone, the cursor stands behind them, and the rest is an error.
abbrev pub outcome : Bytes → ℕ → Bytes × Bool → SeBufSerializer
outcome m p (bs, whole) = record {
  mem = overwrite m p bs;
  offset = p + length bs;
  err_happened = not whole;
}

abbrev failed_at : Bytes → ℕ → SeBufSerializer
failed_at m p = record { mem = m; offset = p; err_happened = true }

put_part-failed : (b m : Bytes) (p : ℕ) → put_part b (failed_at m p) ≡ (ok tt, failed_at m p)
unfolding put_part is_valid
put_part-failed b m p = refl

put_parts-failed :
    (bs : List Bytes) (m : Bytes) (p : ℕ) → put_parts bs (failed_at m p) ≡ (ok tt, failed_at m p)
unfolding put_parts
put_parts-failed [] m p = refl
put_parts-failed (b ∷ bs) m p = rw (put_part-failed b m p, put_parts-failed bs m p) refl

module _ (m : Bytes) (p : ℕ) (small : length m < 2 ^ 63) (b : Bytes) where
  put_part-fits :
      p + length b ≤ length m
      → put_part b (cursor m p) ≡ (ok tt, cursor (overwrite m p b) (p + length b))
  unfolding put_part
  put_part-fits h = rw (is_valid_fits m p small (length b) h, put_raw_fits m p small b h) refl

  put_part-full :
      length b < 2 ^ 32
      → length m < p + length b
      → p ≤ length m
      → put_part b (cursor m p) ≡ (ok tt, failed_at m p)
  unfolding put_part
  put_part-full short h inside =
      rw (is_valid-Blocked (cursor m p) (length b) (λ e. h) (omega arith)) refl

abbrev IsShort : Bytes → Type 0
IsShort b = length b < 2 ^ 32

lt→leb : (a b : ℕ) → b < a → leb a b ≡ false
lt→leb a b h = ground arith

put_parts-fitting :
    (bs : List Bytes) (m : Bytes) (p : ℕ)
    → length m < 2 ^ 63
    → p ≤ length m
    → All IsShort bs
    → put_parts bs (cursor m p) ≡ (ok tt, outcome m p (fitting (length m - p) bs))
unfolding put_parts fitting
put_parts-fitting [] m p small inside short =
    let plain : p + 0 ≡ p = omega arith in rw (plain, take-append-drop p m) refl
put_parts-fitting (b ∷ bs) m p small inside (short, shorts) =
    elim (Bool-cases (ltb (length m - p) (length b))) [
      | inl full ↦
          let plain : p + 0 ≡ p = omega arith in
          rw
            (
              lt→leb (length b) (length m - p) (ltb→lt _ _ full),
              put_part-full m p small b short (omega (arith, ltb→lt _ _ full)) inside,
              put_parts-failed bs m p,
              plain,
              take-append-drop p m,
            )
            refl
      | inr fits ↦
          let room : p + length b ≤ length m = omega (arith, ltb→le _ _ fits) in
          let m' : Bytes = overwrite m p b in
          let size : length m' ≡ length m = length-overwrite m p b room in
          let q : ℕ = p + length b in
          let rest : Bytes × Bool = fitting (length m - p - length b) bs in
          let left : length m' - q ≡ length m - p - length b = omega arith in
          let ih : put_parts bs (cursor m' q) ≡ (ok tt, outcome m' q rest) =
            put_parts-fitting bs m' q (omega arith) (omega arith) shorts
            ∙ ap (λ (n : ℕ). (ok tt, outcome m' q (fitting n bs))) left in
          let joined : overwrite m' q rest.0 ≡ overwrite m p (b ++ rest.0) =
            overwrite-overwrite m p b rest.0 room in
          let end : q + length rest.0 ≡ p + length (b ++ rest.0) =
            omega (arith, length-append b rest.0) in
          rw
            (
              le→leb (length b) (length m - p) (ltb→le _ _ fits),
              put_part-fits m p small b room,
              ih,
              joined,
              end,
            )
            refl
    ]

put_word-part : (n w : ℕ) (s : SeBufSerializer) → put_word n w s ≡ put_part (le_bytes n w) s
unfolding put_word put_part put_raw
put_word-part n w s = rw (length-le_bytes n w) refl

one_part : (b : Bytes) (s : SeBufSerializer) → put_part b s ≡ put_parts (b ∷ []) s
unfolding put_parts
one_part b s = elim (Result-cases (put_part b s).0) [
  | inl (done, ran) ↦ rw ran (ap (λ (r : Result (Unit {0})). (r, (put_part b s).1)) ran)
  | inr (e, threw) ↦ rw threw (ap (λ (r : Result (Unit {0})). (r, (put_part b s).1)) threw)
]

two_parts :
    (a b : Bytes) (s : SeBufSerializer) → (put_part a >> put_part b) s ≡ put_parts (a ∷ b ∷ []) s
unfolding put_parts
two_parts a b s = elim (Result-cases (put_part a s).0) [
  | inl (done, ran) ↦ rw ran (one_part b (put_part a s).1)
  | inr (e, threw) ↦ rw threw refl
]

put_word-parts : (n w : ℕ) (s : SeBufSerializer) → put_word n w s ≡ put_parts (le_bytes n w ∷ []) s
put_word-parts n w s = put_word-part n w s ∙ one_part (le_bytes n w) s

put_value-parts :
    (k : Kind) (v : Value k) (s : SeBufSerializer)
    → IsFit k v
    → put_value k v s ≡ put_parts (parts k v) s
unfolding put_value parts layout put_u64 put_u32 put_u16 put_u8 put_i64 put_i32 put_i16 put_string
    put put_part
put_value-parts u64 v s h = put_word-parts 8 (enc64 v) s
put_value-parts u32 v s h = put_word-parts 4 (enc32 v) s
put_value-parts u16 v s h = put_word-parts 2 (enc16 v) s
put_value-parts u8 v s h = put_word-parts 1 v s
put_value-parts i64 v s h = put_word-parts 8 (enc64 (to_uint 64 v)) s
put_value-parts i32 v s h = put_word-parts 4 (enc32 (to_uint 32 v)) s
put_value-parts i16 v s h = put_word-parts 2 (enc16 (to_uint 16 v)) s
put_value-parts text v s h =
    let short : length v % 2 ^ 32 ≡ length v = omega arith in
    let word : Bytes = le_bytes 4 (enc32 (length v)) in
    rw short (rw (put_word-part 4 (enc32 (length v)) s) (two_parts word v s))

parts-IsShort : (k : Kind) (v : Value k) → IsFit k v → All IsShort (parts k v)
unfolding parts layout
parts-IsShort u64 v h = (omega (arith, length-le_bytes 8 (enc64 v)), tt)
parts-IsShort u32 v h = (omega (arith, length-le_bytes 4 (enc32 v)), tt)
parts-IsShort u16 v h = (omega (arith, length-le_bytes 2 (enc16 v)), tt)
parts-IsShort u8 v h = (omega (arith, length-le_bytes 1 v), tt)
parts-IsShort i64 v h = (omega (arith, length-le_bytes 8 (enc64 (to_uint 64 v))), tt)
parts-IsShort i32 v h = (omega (arith, length-le_bytes 4 (enc32 (to_uint 32 v))), tt)
parts-IsShort i16 v h = (omega (arith, length-le_bytes 2 (enc16 (to_uint 16 v))), tt)
parts-IsShort text v h = (omega (arith, length-le_bytes 4 (enc32 (length v))), (h, tt))

parts_of-IsShort : (fs : List Field) → All IsFitting fs → All IsShort (parts_of fs)
unfolding parts_of
parts_of-IsShort [] h = tt
parts_of-IsShort (field k v ∷ fs) (h, hs) =
    All-append IsShort (parts k v) (parts_of fs) (parts-IsShort k v h) (parts_of-IsShort fs hs)

put_parts-append :
    (xs ys : List Bytes) (s : SeBufSerializer)
    → put_parts (xs ++ ys) s ≡ (put_parts xs >> put_parts ys) s
unfolding put_parts
put_parts-append [] ys s = refl
put_parts-append (x ∷ xs) ys s = elim (Result-cases (put_part x s).0) [
  | inl (done, ran) ↦ rw ran (put_parts-append xs ys (put_part x s).1)
  | inr (e, threw) ↦ rw threw refl
]

put_fields-parts :
    (fs : List Field) (s : SeBufSerializer)
    → All IsFitting fs
    → put_fields fs s ≡ put_parts (parts_of fs) s
unfolding put_fields parts_of put_parts
put_fields-parts [] s h = refl
put_fields-parts (field k v ∷ fs) s (h, hs) =
    let first = put_value-parts k v s h in
    elim (Result-cases (put_parts (parts k v) s).0) [
      | inl (done, ran) ↦ rw first (
          rw (put_parts-append (parts k v) (parts_of fs) s)
            (rw ran (put_fields-parts fs (put_parts (parts k v) s).1 hs)))
      | inr (e, threw) ↦
          rw first (rw (put_parts-append (parts k v) (parts_of fs) s) (rw threw refl))
    ]

-- In a buffer of less than 2 ^ 63 bytes with the cursor anywhere in it, put a sequence of fields,
-- each an unsigned integer of 8, 16, 32 or 64 bits, a signed one of 16, 32 or 64 bits, or a string
-- of less than 2 ^ 32 bytes, whatever the room. All puts return. Of the bytes of the fields, where
-- the length of a string is a part before its bytes, exactly the parts before the first that does
-- not fit stand behind each other from the cursor on, the rest of the buffer is as it was, the
-- cursor is behind them, and there is an error if a part did not fit.
pub put_fields_room :
    (fs : List Field) (m : Bytes) (p : ℕ)
    → length m < 2 ^ 63
    → p ≤ length m
    → All IsFitting fs
    → put_fields fs (cursor m p) ≡ (ok tt, outcome m p (fitting (length m - p) (parts_of fs)))
put_fields_room fs m p small inside h =
    put_fields-parts fs (cursor m p) h
    ∙ put_parts-fitting (parts_of fs) m p small inside (parts_of-IsShort fs h)
