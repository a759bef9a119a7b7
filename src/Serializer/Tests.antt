-- ===== src/Serializer/Tests.antt =====
-- The theorems about SEBufSerializer at small buffers.
use home_replication.Base.{◌≡◌, refl, true, [], ◌∷◌, arith, replicate, List, length, ◌+◌}
use home_replication.Base.Int.{pos, negsuc}
use home_replication.Base.Exec.{ok}
use home_replication.Bytes.{Bytes, le_bytes}
use home_replication.Serializer.{overwrite, SeBufSerializer, serializer}
use home_replication.Serializer.RoundTrip.{reread}
use home_replication.Serializer.Steps.{cursor}
use home_replication.Serializer.Fields.{u8, i16, text, u64, i32, layout}
use home_replication.Serializer.Fields.Sequences.{
  Field, field, put_fields, get_fields, layouts, fields_roundtrip,
}
use home_replication.Serializer.Safety.{IsSound}
use home_replication.Serializer.Room.{outcome, fitting, parts_of, parts, put_fields_room}
use home_replication.Serializer.Checked.{CheckedCall, checked_calls, checked_calls_lem}

abbrev buffer : Bytes
buffer = replicate 16 0

abbrev start : SeBufSerializer
start = serializer buffer

abbrev failed : SeBufSerializer
failed = record { mem = buffer; offset = 12; err_happened = true }

start-IsSound : IsSound start
start-IsSound = record { inside = omega arith; small = omega arith }

abbrev wide : Bytes
wide = replicate 30 0

abbrev fields : List Field
fields =
    field u8 200
    ∷ field i16 (negsuc 1)
    ∷ field text (7 ∷ 8 ∷ [])
    ∷ field u64 4294967297
    ∷ field i32 (pos 70000)
    ∷ []

fields_size : length (layouts fields) ≡ 21
unfolding layouts layout le_bytes
fields_size = refl

fields_roundtrip_example :
    (put_fields fields (cursor wide 4)
      ≡ (ok tt, cursor (overwrite wide 4 (layouts fields)) (4 + length (layouts fields))))
    × (reread (put_fields fields) (get_fields (u8 ∷ i16 ∷ text ∷ u64 ∷ i32 ∷ [])) wide 4
        ≡ ok fields)
fields_roundtrip_example =
    fields_roundtrip fields wide 4 (omega arith)
      (omega arith, (omega arith, (omega arith, (omega arith, (omega arith, tt)))))
      (omega (arith, fields_size))

-- Fields that do not all fit, and reads from behind them.
abbrev some_calls : List CheckedCall
some_calls =
    CheckedCall.put_u64 5
    ∷ CheckedCall.put_string (replicate 14 3)
    ∷ CheckedCall.clear_error
    ∷ CheckedCall.seek 4
    ∷ CheckedCall.get_string
    ∷ CheckedCall.get_u32
    ∷ []

checked_calls_lem_example :
    (s : SeBufSerializer) × (checked_calls some_calls start ≡ (ok tt, s))
    × IsSound s
    × (length s.mem ≡ 16)
checked_calls_lem_example =
    checked_calls_lem some_calls start start-IsSound
      (tt, (omega arith, (tt, (omega arith, (tt, (tt, tt))))))

-- A number and a string of 9 bytes into 16: the length of the string still fits, its bytes do not,
-- and the number behind it is not put, although it would fit.
abbrev too_many : List Field
too_many = field u64 5 ∷ field text (replicate 9 3) ∷ field u8 7 ∷ []

put_fields_room_example :
    put_fields too_many (cursor buffer 0)
    ≡ (ok tt, outcome buffer 0 (fitting 16 (parts_of too_many)))
put_fields_room_example =
    put_fields_room too_many buffer 0 (omega arith) (omega arith)
      (omega arith, (omega arith, (omega arith, tt)))

twelve_fit : length (fitting 16 (parts_of too_many)).0 ≡ 12
unfolding fitting parts_of parts layout le_bytes
twelve_fit = refl
