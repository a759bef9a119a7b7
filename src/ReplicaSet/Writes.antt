-- ===== src/ReplicaSet/Writes.antt =====
-- Several writes into one buffer.
use home_replication.Base.{
  drop-drop, ℕ, ◌-◌, ◌+◌, ◌≤◌, ◌≡◌, ◌∙◌, refl, ap, sym, List, [], ◌∷◌, ◌++◌, All, arith, length,
  drop,
}
use home_replication.Bytes.{Bytes}
use home_replication.Serializer.{overwrite}
use home_replication.Serializer.Steps.{
  slice, length-overwrite, slice-overwrite, slice-before, after-overwrite,
}

-- Writes at ascending places, one after the other.
abbrev pub apply : List (ℕ × Bytes) → Bytes → Bytes
apply [] m = m
apply ((p, bs) ∷ ws) m = apply ws (overwrite m p bs)

abbrev pub IsWithin : ℕ → List (ℕ × Bytes) → Type 0
IsWithin size ws = All (λ w. w.0 + length w.1 ≤ size) ws

abbrev pub IsBehind : ℕ → List (ℕ × Bytes) → Type 0
IsBehind k ws = All (λ w. k ≤ w.0) ws

pub length-apply :
    (ws : List (ℕ × Bytes)) (m : Bytes) → IsWithin (length m) ws → length (apply ws m) ≡ length m
length-apply [] m h = refl
length-apply ((p, bs) ∷ ws) m (hp, h) =
    let same : length (overwrite m p bs) ≡ length m = length-overwrite m p bs hp in
    length-apply ws (overwrite m p bs) (rw same h) ∙ same

pub slice-apply :
    (ws : List (ℕ × Bytes)) (m : Bytes) (q n : ℕ)
    → IsWithin (length m) ws
    → IsBehind (q + n) ws
    → slice (apply ws m) q n ≡ slice m q n
slice-apply [] m q n h b = refl
slice-apply ((p, bs) ∷ ws) m q n (hp, h) (bp, b) =
    let same : length (overwrite m p bs) ≡ length m = length-overwrite m p bs hp in
    slice-apply ws (overwrite m p bs) q n (rw same h) b ∙ slice-before m p bs q n bp (omega arith)

-- What was written stays, where the later writes stand behind it.
slice-apply_first :
    (p : ℕ) (bs : Bytes) (ws : List (ℕ × Bytes)) (m : Bytes)
    → IsWithin (length m) ((p, bs) ∷ ws)
    → IsBehind (p + length bs) ws
    → slice (apply ((p, bs) ∷ ws) m) p (length bs) ≡ bs
slice-apply_first p bs ws m (hp, h) b =
    let same : length (overwrite m p bs) ≡ length m = length-overwrite m p bs hp in
    slice-apply ws (overwrite m p bs) p (length bs) (rw same h) b
    ∙ slice-overwrite m p bs (omega arith)

pub slice-apply_within :
    (before : List (ℕ × Bytes)) (p : ℕ) (bs : Bytes) (ws : List (ℕ × Bytes)) (m : Bytes)
    → IsWithin (length m) (before ++ ((p, bs) ∷ ws))
    → IsBehind (p + length bs) ws
    → slice (apply (before ++ ((p, bs) ∷ ws)) m) p (length bs) ≡ bs
slice-apply_within [] p bs ws m h b = slice-apply_first p bs ws m h b
slice-apply_within ((q, cs) ∷ before) p bs ws m (hq, h) b =
    let same : length (overwrite m q cs) ≡ length m = length-overwrite m q cs hq in
    slice-apply_within before p bs ws (overwrite m q cs) (rw same h) b

drop-overwrite :
    (p : ℕ) (bs m : Bytes) (k : ℕ)
    → p + length bs ≤ length m
    → p + length bs ≤ k
    → drop k (overwrite m p bs) ≡ drop k m
drop-overwrite p bs m k fits h =
    let end : ℕ = p + length bs in
    let split : k ≡ end + (k - end) = omega arith in
    ap (λ (j : ℕ). drop j (overwrite m p bs)) split
    ∙ drop-drop end (k - end) (overwrite m p bs)
    ∙ ap (λ (t : Bytes). drop (k - end) t) (after-overwrite m p bs (omega arith))
    ∙ sym (drop-drop end (k - end) m)
    ∙ ap (λ (j : ℕ). drop j m) (sym split)

-- What stands behind all writes is as it was.
pub drop-apply :
    (ws : List (ℕ × Bytes)) (m : Bytes) (k : ℕ)
    → IsWithin (length m) ws
    → IsWithin k ws
    → drop k (apply ws m) ≡ drop k m
drop-apply [] m k h b = refl
drop-apply ((p, bs) ∷ ws) m k (hp, h) (bp, b) =
    let same : length (overwrite m p bs) ≡ length m = length-overwrite m p bs hp in
    drop-apply ws (overwrite m p bs) k (rw same h) b ∙ drop-overwrite p bs m k hp bp
