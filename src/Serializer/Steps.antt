-- ===== src/Serializer/Steps.antt =====
-- One call of SEBufSerializer: what it does where there is room, and where there is not.
use home_replication.Base.{
  ℕ, ◌+◌, ◌^◌, ◌≤◌, ◌<◌, ◌≡◌, ◌∙◌, refl, ap, sym, true, false, ◌++◌, arith, length, take, drop,
  length-append, length-take, length-drop, take-append, drop-append, append_assoc, take-append_le,
  take-take, take-drop, drop-drop,
}
use home_replication.Base.Exec.{ok}
use home_replication.Bytes.{Bytes, le_bytes, le_value, length-le_bytes}
use home_replication.Endian.{dec64}
use home_replication.Serializer.{
  SeBufSerializer, overwrite, is_valid, put_word, get_word, get_u64, put_raw, get_raw,
}

-- A serializer without an error, its cursor at `p`.
abbrev pub cursor : Bytes → ℕ → SeBufSerializer
cursor m p = record { mem = m; offset = p; err_happened = false }

-- The bytes of `m` from `p` on.
abbrev pub slice : Bytes → ℕ → ℕ → Bytes
slice m p n = take n (drop p m)

pub length-overwrite :
    (m : Bytes) (p : ℕ) (bs : Bytes)
    → p + length bs ≤ length m
    → length (overwrite m p bs) ≡ length m
length-overwrite m p bs h = omega (
  arith,
  length-append (take p m) (bs ++ drop (p + length bs) m),
  length-append bs (drop (p + length bs) m),
  length-take p m,
  length-drop (p + length bs) m,
)

-- What was written is there, and what stands before it is as it was.
pub slice-overwrite :
    (m : Bytes) (p : ℕ) (bs : Bytes) → p ≤ length m → slice (overwrite m p bs) p (length bs) ≡ bs
slice-overwrite m p bs h =
    ap (λ (t : Bytes). take (length bs) t)
      (drop-append p (take p m) (bs ++ drop (p + length bs) m) (omega (arith, length-take p m)))
    ∙ take-append (length bs) bs (drop (p + length bs) m) refl

pub before-overwrite :
    (m : Bytes) (p : ℕ) (bs : Bytes) → p ≤ length m → take p (overwrite m p bs) ≡ take p m
before-overwrite m p bs h =
    take-append p (take p m) (bs ++ drop (p + length bs) m) (omega (arith, length-take p m))

pub take-overwrite :
    (m : Bytes) (p : ℕ) (bs : Bytes) (k : ℕ)
    → k ≤ p
    → p ≤ length m
    → take k (overwrite m p bs) ≡ take k m
take-overwrite m p bs k h fits =
    take-append_le k (take p m) (bs ++ drop (p + length bs) m) (omega (arith, length-take p m))
    ∙ take-take k p m h

pub slice-before :
    (m : Bytes) (p : ℕ) (bs : Bytes) (q n : ℕ)
    → q + n ≤ p
    → p ≤ length m
    → slice (overwrite m p bs) q n ≡ slice m q n
slice-before m p bs q n h fits =
    take-drop q n (overwrite m p bs)
    ∙ ap (λ (t : Bytes). drop q t) (take-overwrite m p bs (q + n) h fits)
    ∙ sym (take-drop q n m)

pub after-overwrite :
    (m : Bytes) (p : ℕ) (bs : Bytes)
    → p ≤ length m
    → drop (p + length bs) (overwrite m p bs) ≡ drop (p + length bs) m
after-overwrite m p bs h =
    ap (λ (t : Bytes). drop (p + length bs) t)
      (sym (append_assoc (take p m) bs (drop (p + length bs) m)))
    ∙ drop-append (p + length bs) (take p m ++ bs) (drop (p + length bs) m)
        (omega (arith, length-take p m, length-append (take p m) bs))

-- One write behind another.
pub overwrite-overwrite :
    (m : Bytes) (p : ℕ) (a b : Bytes)
    → p + length a ≤ length m
    → overwrite (overwrite m p a) (p + length a) b ≡ overwrite m p (a ++ b)
overwrite-overwrite m p a b h =
    let m' : Bytes = overwrite m p a in
    let end : ℕ = p + length a in
    let total : end + length b ≡ p + length (a ++ b) = omega (arith, length-append a b) in
    let head : take end m' ≡ take p m ++ a =
      ap (λ (t : Bytes). take end t) (sym (append_assoc (take p m) a (drop end m)))
      ∙ take-append end (take p m ++ a) (drop end m)
          (omega (arith, length-append (take p m) a, length-take p m)) in
    let tail : drop (end + length b) m' ≡ drop (p + length (a ++ b)) m =
      drop-drop end (length b) m'
      ∙ ap (λ (t : Bytes). drop (length b) t) (after-overwrite m p a (omega arith))
      ∙ sym (drop-drop end (length b) m)
      ∙ ap (λ (n : ℕ). drop n m) total in
    rw (head, tail)
      (append_assoc (take p m) a (b ++ drop (p + length (a ++ b)) m)
        ∙ ap (λ (t : Bytes). take p m ++ t) (sym (append_assoc a b (drop (p + length (a ++ b)) m))))

pub slice-left :
    (m : Bytes) (p : ℕ) (a b : Bytes)
    → slice m p (length (a ++ b)) ≡ a ++ b
    → slice m p (length a) ≡ a
slice-left m p a b h =
    sym (take-take (length a) (length (a ++ b)) (drop p m) (omega (arith, length-append a b)))
    ∙ ap (λ (t : Bytes). take (length a) t) h
    ∙ take-append (length a) a b refl

pub slice-right :
    (m : Bytes) (p : ℕ) (a b : Bytes)
    → slice m p (length (a ++ b)) ≡ a ++ b
    → slice m (p + length a) (length b) ≡ b
slice-right m p a b h =
    ap (λ (t : Bytes). take (length b) t) (drop-drop p (length a) m)
    ∙ take-drop (length a) (length b) (drop p m)
    ∙ ap (λ (n : ℕ). drop (length a) (take n (drop p m))) (sym (length-append a b))
    ∙ ap (λ (t : Bytes). drop (length a) t) h
    ∙ drop-append (length a) a b refl

module _ (m : Bytes) (p : ℕ) (small : length m < 2 ^ 63) where
  pub is_valid_fits : (n : ℕ) → p + n ≤ length m → is_valid n (cursor m p) ≡ (ok true, cursor m p)
  unfolding is_valid
  is_valid_fits n h = ground arith

  pub put_word_fits :
      (n w : ℕ)
      → p + n ≤ length m
      → put_word n w (cursor m p) ≡ (ok tt, cursor (overwrite m p (le_bytes n w)) (p + n))
  unfolding put_word
  put_word_fits n w h = ground (arith, length-le_bytes n w, length-overwrite m p (le_bytes n w))

  pub get_word_fits :
      (n : ℕ) (f : ℕ → ℕ)
      → p + n ≤ length m
      → get_word n f (cursor m p) ≡ (ok (f (le_value (slice m p n))), cursor m (p + n))
  unfolding get_word
  get_word_fits n f h = ground arith

  pub get_u64_fits :
      p + 8 ≤ length m
      → get_u64 (cursor m p) ≡ (ok (dec64 (le_value (slice m p 8))), cursor m (p + 8))
  unfolding get_u64
  get_u64_fits h = get_word_fits 8 dec64 h

  pub put_raw_fits :
      (bs : Bytes)
      → p + length bs ≤ length m
      → put_raw bs (cursor m p) ≡ (ok tt, cursor (overwrite m p bs) (p + length bs))
  unfolding put_raw
  put_raw_fits bs h = ground (arith, length-overwrite m p bs)

  pub get_raw_fits :
      (n : ℕ) → p + n ≤ length m → get_raw n (cursor m p) ≡ (ok (slice m p n), cursor m (p + n))
  unfolding get_raw
  get_raw_fits n h = ground arith

-- No room, or an earlier error: nothing is read or written, and the error stays.
module _ (s : SeBufSerializer) where
  abbrev pub Blocked : ℕ → Type 0
  Blocked n = (s.err_happened ≡ false) → length s.mem < s.offset + n

  abbrev pub failed : SeBufSerializer
  failed = record s { err_happened = true }

  pub is_valid-Blocked :
      (n : ℕ) → Blocked n → s.offset + n < 2 ^ 64 → is_valid n s ≡ (ok false, failed)
  unfolding is_valid
  is_valid-Blocked n h b = ground arith

  pub put_word-Blocked :
      (n w : ℕ) → Blocked n → s.offset + n < 2 ^ 64 → put_word n w s ≡ (ok tt, failed)
  unfolding put_word
  put_word-Blocked n w h b = ground arith

  pub get_word-Blocked :
      (n : ℕ) (f : ℕ → ℕ) → Blocked n → s.offset + n < 2 ^ 64 → get_word n f s ≡ (ok 0, failed)
  unfolding get_word
  get_word-Blocked n f h b = ground arith
