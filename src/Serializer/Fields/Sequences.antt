-- ===== src/Serializer/Fields/Sequences.antt =====
-- Sequences of fields that SEBufSerializer puts and gets.
use home_replication.Base.{
  ℕ, ◌+◌, ◌^◌, ◌≤◌, ◌<◌, ◌≡◌, refl, List, [], ◌∷◌, ◌++◌, map, arith, length, All, length-append,
  take-append-drop,
}
use home_replication.Base.Exec.{ok, pure, ◌>>=◌, ◌>>◌}
use home_replication.Bytes.{Bytes}
use home_replication.Serializer.{Ser, overwrite}
use home_replication.Serializer.Steps.{
  cursor, slice, length-overwrite, slice-overwrite, overwrite-overwrite, slice-left, slice-right,
}
use home_replication.Serializer.RoundTrip.{reread, seek_fits}
use home_replication.Serializer.Fields.{
  Kind, Value, IsFit, put_value, get_value, layout, put_value-layout, get_value-layout,
}

-- Several fields, one after the other.
pub data Field : Type 0 where
  field : (k : Kind) → Value k → Field

abbrev pub kind_of : Field → Kind
kind_of (field k v) = k

abbrev pub IsFitting : Field → Type 0
IsFitting (field k v) = IsFit k v

unfoldable pub put_fields : List Field → Ser (Unit {0})
put_fields [] = pure tt
put_fields (field k v ∷ fs) = do put_value k v; put_fields fs

pub get_fields : List Kind → Ser (List Field)
get_fields [] = pure []
get_fields (k ∷ ks) = do v ← get_value k; fs ← get_fields ks; pure (field k v ∷ fs)

-- The bytes of the fields.
unfoldable pub layouts : List Field → Bytes
layouts [] = []
layouts (field k v ∷ fs) = layout k v ++ layouts fs

put_fields-layouts :
    (fs : List Field) (m : Bytes) (p : ℕ)
    → length m < 2 ^ 63
    → All IsFitting fs
    → p + length (layouts fs) ≤ length m
    → put_fields fs (cursor m p)
      ≡ (ok tt, cursor (overwrite m p (layouts fs)) (p + length (layouts fs)))
unfolding put_fields layouts
put_fields-layouts [] m p small h room =
    let plain : p + 0 ≡ p = omega arith in rw (plain, take-append-drop p m) refl
put_fields-layouts (field k v ∷ fs) m p small (h, hs) room =
    let a : Bytes = layout k v in
    let b : Bytes = layouts fs in
    let m' : Bytes = overwrite m p a in
    let total : length (a ++ b) ≡ length a + length b = length-append a b in
    let size : length m' ≡ length m = length-overwrite m p a (omega arith) in
    let joined : overwrite m' (p + length a) b ≡ overwrite m p (a ++ b) =
      overwrite-overwrite m p a b (omega arith) in
    let end : p + length a + length b ≡ p + length (a ++ b) = omega arith in
    rw
      (
        put_value-layout m p small k v h (omega arith),
        put_fields-layouts fs m' (p + length a) (omega arith) hs (omega arith),
        joined,
        end,
      )
      refl

get_fields-layouts :
    (fs : List Field) (m : Bytes) (p : ℕ)
    → length m < 2 ^ 63
    → All IsFitting fs
    → p + length (layouts fs) ≤ length m
    → slice m p (length (layouts fs)) ≡ layouts fs
    → get_fields (map kind_of fs) (cursor m p) ≡ (ok fs, cursor m (p + length (layouts fs)))
unfolding get_fields layouts
get_fields-layouts [] m p small h room there = let plain : p + 0 ≡ p = omega arith in rw plain refl
get_fields-layouts (field k v ∷ fs) m p small (h, hs) room there =
    let a : Bytes = layout k v in
    let b : Bytes = layouts fs in
    let total : length (a ++ b) ≡ length a + length b = length-append a b in
    let end : p + length a + length b ≡ p + length (a ++ b) = omega arith in
    rw
      (
        get_value-layout m p small k v h (omega arith) (slice-left m p a b there),
        get_fields-layouts fs m (p + length a) small hs (omega arith) (slice-right m p a b there),
        end,
      )
      refl

-- In a buffer of less than 2 ^ 63 bytes with room from the position `p` on, put a sequence of
-- fields, each an unsigned integer of 8, 16, 32 or 64 bits, a signed one of 16, 32 or 64 bits, or a
-- string of less than 2 ^ 32 bytes. The bytes of the fields then stand one behind the other from
-- `p` on, the rest of the buffer is as it was, and after a seek to `p` the get functions of the
-- same kinds give the fields back.
pub fields_roundtrip :
    (fs : List Field) (m : Bytes) (p : ℕ)
    → length m < 2 ^ 63
    → All IsFitting fs
    → p + length (layouts fs) ≤ length m
    → (put_fields fs (cursor m p)
        ≡ (ok tt, cursor (overwrite m p (layouts fs)) (p + length (layouts fs))))
      × (reread (put_fields fs) (get_fields (map kind_of fs)) m p ≡ ok fs)
fields_roundtrip fs m p small h room =
    let b : Bytes = layouts fs in
    let m' : Bytes = overwrite m p b in
    let size : length m' ≡ length m = length-overwrite m p b room in
    let put = put_fields-layouts fs m p small h room in
    let got =
      get_fields-layouts fs m' p (omega arith) h (omega arith)
        (slice-overwrite m p b (omega arith)) in
    (put, rw (put, seek_fits m p small m' (p + length b) (omega arith), got, reread))
