-- ===== src/Serializer/Checked.antt =====
-- Sequences of calls of the checked functions of SEBufSerializer, on whatever the buffer holds.
use home_replication.Base.{
  ℕ, ◌≡◌, ◌∙◌, ◌≤◌, ◌<◌, ◌^◌, refl, sym, arith, inl, inr, List, [], ◌∷◌, All, length, le→leb,
}
use mathlib.Core.Path.{subst}
use home_replication.Base.Int.{ℤ, pos}
use home_replication.Base.Exec.{ok, pure, ◌>>=◌, ◌>>◌, Result-cases}
use home_replication.Bytes.{Bytes}
use home_replication.Serializer
use home_replication.Serializer.{SeBufSerializer, Ser}
use home_replication.Serializer.Safety.{
  IsSound, IsKept, Anything, Returns, checked_puts, checked_gets,
}

pub data CheckedCall : Type 0 where
  put_u64 : ℕ → CheckedCall
  put_u32 : ℕ → CheckedCall
  put_u16 : ℕ → CheckedCall
  put_u8 : ℕ → CheckedCall
  put_i64 : ℤ → CheckedCall
  put_i32 : ℤ → CheckedCall
  put_i16 : ℤ → CheckedCall
  put : Bytes → CheckedCall
  put_string : Bytes → CheckedCall
  put_se_buf : Bytes → CheckedCall
  get_u64 : CheckedCall
  get_u32 : CheckedCall
  get_u16 : CheckedCall
  get_u8 : CheckedCall
  get_i64 : CheckedCall
  get_i32 : CheckedCall
  get_i16 : CheckedCall
  get : CheckedCall
  get_string : CheckedCall
  get_se_buf : CheckedCall
  seek : ℕ → CheckedCall
  clear_error : CheckedCall

abbrev forget : {A : Type 0} → Ser A → Ser (Unit {0})
forget m = m >>= λ _. pure tt

-- What is read is not kept.
unfoldable pub checked_call : CheckedCall → Ser (Unit {0})
checked_call (put_u64 u) = Serializer.put_u64 u
checked_call (put_u32 u) = Serializer.put_u32 u
checked_call (put_u16 u) = Serializer.put_u16 u
checked_call (put_u8 u) = Serializer.put_u8 u
checked_call (put_i64 z) = Serializer.put_i64 z
checked_call (put_i32 z) = Serializer.put_i32 z
checked_call (put_i16 z) = Serializer.put_i16 z
checked_call (put src) = Serializer.put src
checked_call (put_string src) = Serializer.put_string src
checked_call (put_se_buf src) = Serializer.put_se_buf src
checked_call get_u64 = forget Serializer.get_u64
checked_call get_u32 = forget Serializer.get_u32
checked_call get_u16 = forget Serializer.get_u16
checked_call get_u8 = forget Serializer.get_u8
checked_call get_i64 = forget Serializer.get_i64
checked_call get_i32 = forget Serializer.get_i32
checked_call get_i16 = forget Serializer.get_i16
checked_call get = forget Serializer.get
checked_call get_string = forget Serializer.get_string
checked_call get_se_buf = forget Serializer.get_se_buf
checked_call (seek p) = Serializer.seek p
checked_call clear_error = Serializer.clear_error

unfoldable pub checked_calls : List CheckedCall → Ser (Unit {0})
checked_calls [] = pure tt
checked_calls (c ∷ cs) = checked_call c >> checked_calls cs

-- A byte string is below 2 ^ 63 bytes, and a seek stays in a buffer of the size.
abbrev pub IsAdmitted : ℕ → CheckedCall → Type 0
IsAdmitted size (put src) = length src < 2 ^ 63
IsAdmitted size (put_string src) = length src < 2 ^ 63
IsAdmitted size (put_se_buf src) = length src < 2 ^ 63
IsAdmitted size (seek p) = p ≤ size
IsAdmitted size c = Unit {0}

forget-IsKept :
    {A : Type 0} (m : Ser A) (s : SeBufSerializer) → IsKept s (m s) → IsKept s (forget m s)
forget-IsKept m s h = elim (Result-cases (m s).0) [
  | inl (a, ran) ↦ rw ran (tt, h.1, h.2)
  | inr (e, threw) ↦ absurd (subst (Returns Anything) threw h.0)
]

returned :
    (c : CheckedCall) (s : SeBufSerializer)
    → Returns Anything (checked_call c s).0
    → (checked_call c s).0 ≡ ok tt
returned c s h = elim (Result-cases (checked_call c s).0) [
  | inl (a, ran) ↦ ran
  | inr (e, threw) ↦ absurd (subst (Returns Anything) threw h)
]

call-IsKept :
    (c : CheckedCall) (s : SeBufSerializer)
    → IsSound s
    → IsAdmitted (length s.mem) c
    → IsKept s (checked_call c s)
unfolding checked_call Serializer.seek Serializer.clear_error
call-IsKept (put_u64 u) s h ok_call = (checked_puts s u (pos 0) [] h (omega arith)).0
call-IsKept (put_u32 u) s h ok_call = (checked_puts s u (pos 0) [] h (omega arith)).1
call-IsKept (put_u16 u) s h ok_call = (checked_puts s u (pos 0) [] h (omega arith)).2
call-IsKept (put_u8 u) s h ok_call = (checked_puts s u (pos 0) [] h (omega arith)).3
call-IsKept (put_i64 z) s h ok_call = (checked_puts s 0 z [] h (omega arith)).4
call-IsKept (put_i32 z) s h ok_call = (checked_puts s 0 z [] h (omega arith)).5
call-IsKept (put_i16 z) s h ok_call = (checked_puts s 0 z [] h (omega arith)).6
call-IsKept (put src) s h ok_call = (checked_puts s 0 (pos 0) src h ok_call).7
call-IsKept (put_string src) s h ok_call = (checked_puts s 0 (pos 0) src h ok_call).8
call-IsKept (put_se_buf src) s h ok_call = (checked_puts s 0 (pos 0) src h ok_call).9
call-IsKept get_u64 s h ok_call = forget-IsKept Serializer.get_u64 s (checked_gets s h).0
call-IsKept get_u32 s h ok_call = forget-IsKept Serializer.get_u32 s (checked_gets s h).1
call-IsKept get_u16 s h ok_call = forget-IsKept Serializer.get_u16 s (checked_gets s h).2
call-IsKept get_u8 s h ok_call = forget-IsKept Serializer.get_u8 s (checked_gets s h).3
call-IsKept get_i64 s h ok_call = forget-IsKept Serializer.get_i64 s (checked_gets s h).4
call-IsKept get_i32 s h ok_call = forget-IsKept Serializer.get_i32 s (checked_gets s h).5
call-IsKept get_i16 s h ok_call = forget-IsKept Serializer.get_i16 s (checked_gets s h).6
call-IsKept get s h ok_call = forget-IsKept Serializer.get s (checked_gets s h).7
call-IsKept get_string s h ok_call = forget-IsKept Serializer.get_string s (checked_gets s h).8
call-IsKept get_se_buf s h ok_call = forget-IsKept Serializer.get_se_buf s (checked_gets s h).9
call-IsKept (seek p) s h ok_call =
    rw (le→leb p (length s.mem) ok_call) (tt, record { inside = ok_call; small = h.small }, refl)
call-IsKept clear_error s h ok_call = (tt, record { inside = h.inside; small = h.small }, refl)

-- Take a state with the cursor in a buffer of less than 2 ^ 63 bytes, whatever the buffer holds.
-- Every sequence of checked puts (of byte strings below 2 ^ 63 bytes), checked gets, seeks into the
-- buffer and `clearError` returns, with or without room, and leaves the cursor in the buffer and
-- the size of the buffer as it was.
pub checked_calls_lem :
    (cs : List CheckedCall) (s : SeBufSerializer)
    → IsSound s
    → All (IsAdmitted (length s.mem)) cs
    → (s' : SeBufSerializer) × (checked_calls cs s ≡ (ok tt, s'))
      × IsSound s'
      × (length s'.mem ≡ length s.mem)
unfolding checked_calls
checked_calls_lem [] s h admitted = (s, refl, h, refl)
checked_calls_lem (c ∷ cs) s h (admitted, more) =
    let (there, sound, size) = call-IsKept c s h admitted in
    let (s', run, sound', size') =
      checked_calls_lem cs (checked_call c s).1 sound
        (subst (λ (n : ℕ). All (IsAdmitted n) cs) (sym size) more) in
    (s', rw (returned c s there, run) refl, sound', size' ∙ size)
