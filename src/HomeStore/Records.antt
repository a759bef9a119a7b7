-- ===== src/HomeStore/Records.antt =====
-- Records with ascending numbers and gaps between them.
use home_replication.Base.{
  ℕ, ◌+◌, ◌≤◌, ◌<◌, ◌≡◌, refl, List, [], ◌∷◌, arith, ltb, leb, ◌==◌, ◌&&◌, if◌then◌else◌, All,
  Bool-cases, ltb→lt, ==→eq, inl, inr,
}

module _ {A : Type 0} where
  abbrev pub Above : ℕ → List (ℕ × A) → Type 0
  Above n l = All (λ r. n < r.0) l

  abbrev pub IsAscending : List (ℕ × A) → Type 0
  IsAscending [] = Unit {0}
  IsAscending ((k, a) ∷ l) = Above k l × IsAscending l

  -- The record with the number `n` is written, or written anew.
  unfoldable pub put : ℕ → A → List (ℕ × A) → List (ℕ × A)
  put n a [] = (n, a) ∷ []
  put n a ((k, b) ∷ l) =
      if ltb n k then (n, a) ∷ (k, b) ∷ l else if n == k then (n, a) ∷ l else (k, b) ∷ put n a l

  -- The records from the number `n` on.
  unfoldable pub from : ℕ → List (ℕ × A) → List (ℕ × A)
  from n [] = []
  from n ((k, b) ∷ l) = let rest = from n l in if ltb k n then rest else (k, b) ∷ l

  -- The records with a number from `a` up to but not including `b`.
  unfoldable pub within : ℕ → ℕ → List (ℕ × A) → List (ℕ × A)
  within a b [] = []
  within a b ((k, x) ∷ l) =
      let rest = within a b l in if leb a k && ltb k b then (k, x) ∷ rest else rest

  pub Above-trans : (n k : ℕ) (l : List (ℕ × A)) → n < k → Above k l → Above n l
  Above-trans n k [] h above = tt
  Above-trans n k ((j, b) ∷ l) h (hj, hl) = (omega arith, Above-trans n k l h hl)

  Above-put : (m n : ℕ) (a : A) (l : List (ℕ × A)) → m < n → Above m l → Above m (put n a l)
  unfolding put
  Above-put m n a [] h above = (h, tt)
  Above-put m n a ((k, b) ∷ l) h (hk, hl) = ground (arith, Above-put m n a l h hl)

  pub put-IsAscending : (n : ℕ) (a : A) (l : List (ℕ × A)) → IsAscending l → IsAscending (put n a l)
  unfolding put
  put-IsAscending n a [] h = (tt, tt)
  put-IsAscending n a ((k, b) ∷ l) (above, h) = elim (Bool-cases (ltb n k)) [
    | inl lt ↦ rw lt ((ltb→lt n k lt, Above-trans n k l (ltb→lt n k lt) above), (above, h))
    | inr ge ↦ elim (Bool-cases (n == k)) [
      | inl eq ↦ rw (ge, eq) (rw (==→eq n k eq) above, h)
      | inr ne ↦ rw (ge, ne) (Above-put k n a l (ground arith) above, put-IsAscending n a l h)
    ]
  ]

  pub within-Above : (a b k : ℕ) (l : List (ℕ × A)) → b ≤ k + 1 → Above k l → within a b l ≡ []
  unfolding within
  within-Above a b k [] h above = refl
  within-Above a b k ((j, x) ∷ l) h (hj, hl) = ground (arith, within-Above a b k l h hl)

  -- What a range holds after a record was written: in a range with the record's number, the range
  -- as it was with the record in it; in any other range, what it held.
  pub within-put :
      (a b n : ℕ) (x : A) (l : List (ℕ × A))
      → IsAscending l
      → within a b (put n x l)
        ≡ (if leb a n && ltb n b then put n x (within a b l) else within a b l)
  unfolding within put
  within-put a b n x [] h = ground arith
  within-put a b n x ((k, y) ∷ l) (above, h) =
      ground (arith, within-put a b n x l h, λ (p : b ≤ k + 1). within-Above a b k l p above)

  -- A range of one number, after its record was written.
  pub within-put_self :
      (n : ℕ) (x : A) (l : List (ℕ × A))
      → IsAscending l
      → within n (n + 1) (put n x l) ≡ (n, x) ∷ []
  unfolding within put
  within-put_self n x [] h = ground arith
  within-put_self n x ((k, y) ∷ l) (above, h) =
      ground
        (arith, within-put_self n x l h, λ (p : n + 1 ≤ k + 1). within-Above n (n + 1) k l p above)

  pub within-from :
      (a b : ℕ) (l : List (ℕ × A)) → IsAscending l → within a b (from a l) ≡ within a b l
  unfolding within from
  within-from a b [] h = refl
  within-from a b ((k, x) ∷ l) (above, h) = ground (arith, within-from a b l h)

  pub from-IsAscending : (n : ℕ) (l : List (ℕ × A)) → IsAscending l → IsAscending (from n l)
  unfolding from
  from-IsAscending n [] h = tt
  from-IsAscending n ((k, b) ∷ l) (above, h) = elim (Bool-cases (ltb k n)) [
    | inl lt ↦ rw lt (from-IsAscending n l h)
    | inr ge ↦ rw ge (above, h)
  ]
