-- ===== src/Serializer/Safety.antt =====
-- The checked functions of SEBufSerializer at the end of the buffer and after an error.
use home_replication.Base.{Option}
use home_replication.Base.{
  ℕ, ◌%◌, ◌∙◌, not, if◌then◌else◌, ◌^◌, ◌≤◌, ◌<◌, ◌≡◌, refl, none, some, arith, length, take, drop,
}
use home_replication.Base.Int.{ℤ}
use home_replication.Base.Exec.{Result, ok, err, pure, continue, ◌>>=◌}
use home_replication.Bytes.{Bytes, le_bytes, le_value, length-le_bytes}
use home_replication.Endian.{enc32, dec32}
use home_replication.Endian.Order.{reverse_order_32-swapped, swapped-lt}
use home_replication.Serializer.{
  SeBufSerializer, Ser, is_valid, put_word, get_word, put_u64, get_u64, put_u32, get_u32, put_u16,
  get_u16, put_u8, get_u8, put_i64, get_i64, put_i32, get_i32, put_i16, get_i16, put_raw, get_raw,
  put, get, put_string, get_string, put_se_buf, get_se_buf,
}
use home_replication.Serializer.Steps.{length-overwrite}

-- The cursor lies in the buffer, and a size_t holds twice its size.
pub record IsSound (s : SeBufSerializer) : Type 0 where
  pub inside : s.offset ≤ length s.mem
  pub small : length s.mem < 2 ^ 63

-- The call returned, and its result has the property.
abbrev pub Returns : {A : Type 0} → (A → Type 0) → Result A → Type 0
Returns P (ok a) = P a
Returns P (err e) = ⊥

abbrev pub Anything : {A : Type 0} → A → Type 0
Anything a = Unit {0}

-- From a sound state the call returns, in a sound state with a buffer of the same size.
pub record IsSafe {A : Type 0} (P : A → Type 0) (m : Ser A) : Type 0 where
  pub run :
      (s : SeBufSerializer)
      → IsSound s
      → Returns P (m s).0 × IsSound (m s).1 × (length (m s).1.mem ≡ length s.mem)

module _ {A B : Type 0} where
  IsSafe-bind :
      (P : A → Type 0) (Q : B → Type 0) (m : Ser A) (f : A → Ser B)
      → IsSafe P m
      → ((a : A) → P a → IsSafe Q (f a))
      → IsSafe Q (m >>= f)
  IsSafe-bind P Q m f hm hf = record { run = λ s h. go s (m s).0 (m s).1 (hm.run s h) }
    where
      go :
          (s : SeBufSerializer) (r : Result A) (t : SeBufSerializer)
          → Returns P r × IsSound t × (length t.mem ≡ length s.mem)
          → Returns Q (continue r f t).0
            × IsSound (continue r f t).1
            × (length (continue r f t).1.mem ≡ length s.mem)
      go s (ok a) t (h, sound, size) =
          let (h', sound', size') = (hf a h).run t sound in (h', sound', size' ∙ size)
      go s (err e) t (h, sound, size) = absurd h

IsSafe-pure : {A : Type 0} (P : A → Type 0) (a : A) → P a → IsSafe P (pure a)
IsSafe-pure P a h = record { run = λ s k. (h, k, refl) }

put_word-IsSafe : (n w : ℕ) → n < 2 ^ 32 → IsSafe Anything (put_word n w)
unfolding put_word
put_word-IsSafe n w b = record {
  run = λ s h. ground (
    arith,
    h.inside,
    h.small,
    length-le_bytes n w,
    length-overwrite s.mem s.offset (le_bytes n w),
  );
}

get_word-IsSafe :
    (P : ℕ → Type 0) (n : ℕ) (f : ℕ → ℕ)
    → n < 2 ^ 32
    → P 0
    → ((v : ℕ) → P (f v))
    → IsSafe P (get_word n f)
unfolding get_word
get_word-IsSafe P n f b p0 pf = record {
  run = λ s h. ground (arith, h.inside, h.small, p0, pf (le_value (take n (drop s.offset s.mem))));
}

-- The tails of `put` and `get`, behind the length.
checked_put_raw-IsSafe :
    (src : Bytes)
    → length src < 2 ^ 63
    → IsSafe Anything
        (is_valid (length src) >>= λ valid. if not valid then pure tt else put_raw src)
unfolding is_valid put_raw
checked_put_raw-IsSafe src b = record {
  run = λ s h. ground (arith, h.inside, h.small, length-overwrite s.mem s.offset src);
}

checked_get_raw-IsSafe :
    (len : ℕ)
    → len < 2 ^ 32
    → IsSafe Anything (
        is_valid len >>= λ valid.
        if not valid then pure none else (get_raw len >>= λ bs. pure (some bs)))
unfolding is_valid get_raw
checked_get_raw-IsSafe len b = record { run = λ s h. ground (arith, h.inside, h.small) }

checked_get_se_raw-IsSafe :
    (len : ℕ)
    → len < 2 ^ 32
    → IsSafe {A = ℕ × Option Bytes} Anything (
        is_valid len >>= λ valid.
        if not valid then pure (len, none) else (get_raw len >>= λ bs. pure (len, some bs)))
unfolding is_valid get_raw
checked_get_se_raw-IsSafe len b = record { run = λ s h. ground (arith, h.inside, h.small) }

put-IsSafe : (src : Bytes) → length src < 2 ^ 63 → IsSafe Anything (put src)
unfolding put put_u32
put-IsSafe src b =
    IsSafe-bind Anything Anything (put_word 4 _) _
      (put_word-IsSafe 4 (enc32 (length src % 2 ^ 32)) (omega arith))
      (λ _ _. checked_put_raw-IsSafe src b)

dec32_bound : (v : ℕ) → dec32 v < 2 ^ 32
unfolding dec32
dec32_bound v = rw reverse_order_32-swapped (swapped-lt 4 v)

get-IsSafe : IsSafe Anything get
unfolding get get_u32
get-IsSafe =
    IsSafe-bind (λ v. v < 2 ^ 32) Anything (get_word 4 dec32) _
      (get_word-IsSafe (λ v. v < 2 ^ 32) 4 dec32 (omega arith) (omega arith) dec32_bound)
      checked_get_raw-IsSafe

get_se_buf-IsSafe : IsSafe Anything get_se_buf
unfolding get_se_buf get_u32
get_se_buf-IsSafe =
    IsSafe-bind (λ v. v < 2 ^ 32) Anything (get_word 4 dec32) _
      (get_word-IsSafe (λ v. v < 2 ^ 32) 4 dec32 (omega arith) (omega arith) dec32_bound)
      checked_get_se_raw-IsSafe

convert-IsSafe :
    (n : ℕ) (f : ℕ → ℕ) (g : ℕ → ℤ)
    → n < 2 ^ 32
    → IsSafe Anything (get_word n f >>= λ u. pure (g u))
convert-IsSafe n f g b =
    IsSafe-bind Anything Anything (get_word n f) _ (get_word-IsSafe Anything n f b tt (λ v. tt))
      (λ u _. IsSafe-pure Anything (g u) tt)

-- The call from `s` returned, with the cursor in the buffer and the size of the buffer as it was.
abbrev pub IsKept : {A : Type 0} → SeBufSerializer → Result A × SeBufSerializer → Type 0
IsKept s out = Returns Anything out.0 × IsSound out.1 × (length out.1.mem ≡ length s.mem)

-- From every state with the cursor in a buffer of less than 2 ^ 63 bytes, each checked put (of a
-- byte string below 2 ^ 63 bytes) returns, with or without room: it leaves the cursor in the buffer
-- and the size of the buffer as it was.
pub checked_puts :
    (s : SeBufSerializer) (u : ℕ) (z : ℤ) (src : Bytes)
    → IsSound s
    → length src < 2 ^ 63
    → IsKept s (put_u64 u s)
      × IsKept s (put_u32 u s)
      × IsKept s (put_u16 u s)
      × IsKept s (put_u8 u s)
      × IsKept s (put_i64 z s)
      × IsKept s (put_i32 z s)
      × IsKept s (put_i16 z s)
      × IsKept s (put src s)
      × IsKept s (put_string src s)
      × IsKept s (put_se_buf src s)
unfolding put_u64 put_u32 put_u16 put_u8 put_i64 put_i32 put_i16 put_string put_se_buf
checked_puts s u z src h b = (
  (put_word-IsSafe _ _ (omega arith)).run s h,
  (put_word-IsSafe _ _ (omega arith)).run s h,
  (put_word-IsSafe _ _ (omega arith)).run s h,
  (put_word-IsSafe _ _ (omega arith)).run s h,
  (put_word-IsSafe _ _ (omega arith)).run s h,
  (put_word-IsSafe _ _ (omega arith)).run s h,
  (put_word-IsSafe _ _ (omega arith)).run s h,
  (put-IsSafe src b).run s h,
  (put-IsSafe src b).run s h,
  (put-IsSafe src b).run s h,
)

-- From every state with the cursor in a buffer of less than 2 ^ 63 bytes, each checked get returns,
-- whatever the buffer holds: it leaves the cursor in the buffer and the size as it was.
pub checked_gets :
    (s : SeBufSerializer)
    → IsSound s
    → IsKept s (get_u64 s)
      × IsKept s (get_u32 s)
      × IsKept s (get_u16 s)
      × IsKept s (get_u8 s)
      × IsKept s (get_i64 s)
      × IsKept s (get_i32 s)
      × IsKept s (get_i16 s)
      × IsKept s (get s)
      × IsKept s (get_string s)
      × IsKept s (get_se_buf s)
unfolding get_u64 get_u32 get_u16 get_u8 get_i64 get_i32 get_i16 get_string
checked_gets s h = (
  (get_word-IsSafe Anything _ _ (omega arith) tt (λ v. tt)).run s h,
  (get_word-IsSafe Anything _ _ (omega arith) tt (λ v. tt)).run s h,
  (get_word-IsSafe Anything _ _ (omega arith) tt (λ v. tt)).run s h,
  (get_word-IsSafe Anything _ _ (omega arith) tt (λ v. tt)).run s h,
  (convert-IsSafe _ _ _ (omega arith)).run s h,
  (convert-IsSafe _ _ _ (omega arith)).run s h,
  (convert-IsSafe _ _ _ (omega arith)).run s h,
  get-IsSafe.run s h,
  (IsSafe-bind Anything Anything get _ get-IsSafe (λ o _. IsSafe-pure Anything _ tt)).run s h,
  get_se_buf-IsSafe.run s h,
)
