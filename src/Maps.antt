-- ===== src/Maps.antt =====
-- std::map and folly::ConcurrentHashMap with numbers for keys, as ascending lists: `insert` keeps
-- what is there under the key.
use home_replication.Base.{
  ℕ, ◌<◌, ◌≡◌, ◌≢◌, ◌∙◌, refl, Option, none, some, List, [], ◌∷◌, All, arith, ltb, ◌==◌,
  if◌then◌else◌, Bool-cases, ltb→lt, ==→eq, inl, inr,
}
use home_replication.Base.{sym}
use mathlib.Core.Path.{subst}
use mathlib.Core.Option.{some-injective, none-ne-some}
use home_replication.HomeStore.Records.{Above, IsAscending, Above-trans}

module _ {A : Type 0} where
  unfoldable pub find : ℕ → List (ℕ × A) → Option A
  find k [] = none
  find k ((j, a) ∷ l) = let rest = find k l in if k == j then some a else rest

  unfoldable pub insert : ℕ → A → List (ℕ × A) → List (ℕ × A)
  insert k a [] = (k, a) ∷ []
  insert k a ((j, b) ∷ l) =
      if ltb k j then (k, a) ∷ (j, b) ∷ l else if k == j then (j, b) ∷ l else (j, b) ∷ insert k a l

  pub find-Above : (k : ℕ) (l : List (ℕ × A)) → Above k l → find k l ≡ none
  unfolding find
  find-Above k [] h = refl
  find-Above k ((j, a) ∷ l) (hj, h) = ground (arith, find-Above k l h)

  Above-insert : (m n : ℕ) (a : A) (l : List (ℕ × A)) → m < n → Above m l → Above m (insert n a l)
  unfolding insert
  Above-insert m n a [] h above = (h, tt)
  Above-insert m n a ((k, b) ∷ l) h (hk, hl) = ground (arith, Above-insert m n a l h hl)

  pub insert-IsAscending :
      (n : ℕ) (a : A) (l : List (ℕ × A)) → IsAscending l → IsAscending (insert n a l)
  unfolding insert
  insert-IsAscending n a [] h = (tt, tt)
  insert-IsAscending n a ((k, b) ∷ l) (above, h) = elim (Bool-cases (ltb n k)) [
    | inl lt ↦ rw lt ((ltb→lt n k lt, Above-trans n k l (ltb→lt n k lt) above), (above, h))
    | inr ge ↦ elim (Bool-cases (n == k)) [
      | inl eq ↦ rw (ge, eq) (above, h)
      | inr ne ↦ rw (ge, ne) (Above-insert k n a l (ground arith) above, insert-IsAscending n a l h)
    ]
  ]

  -- A new key is found with its value.
  pub find-insert_new :
      (k : ℕ) (a : A) (l : List (ℕ × A)) → find k l ≡ none → find k (insert k a l) ≡ some a
  unfolding find insert
  find-insert_new k a [] h = ground arith
  find-insert_new k a ((j, b) ∷ l) h =
      ground (arith, λ (p : find k l ≡ none). find-insert_new k a l p)

  -- A key that was there keeps its value.
  pub find-insert_old :
      (k : ℕ) (a b : A) (l : List (ℕ × A))
      → IsAscending l
      → find k l ≡ some b
      → find k (insert k a l) ≡ some b
  unfolding find insert
  find-insert_old k a b [] asc h = ground arith
  find-insert_old k a b ((j, c) ∷ l) (above, asc) h = elim (Bool-cases (ltb k j)) [
    | inl lt ↦
        let gone = find-Above k l (Above-trans k j l (ltb→lt k j lt) above) in ground (arith, gone)
    | inr ge ↦ ground (arith, λ (p : find k l ≡ some b). find-insert_old k a b l asc p)
  ]

  pub find-insert_other :
      (i k : ℕ) (a : A) (l : List (ℕ × A)) → i ≢ k → find i (insert k a l) ≡ find i l
  unfolding find insert
  find-insert_other i k a [] h = ground arith
  find-insert_other i k a ((j, b) ∷ l) h = ground (arith, find-insert_other i k a l h)

  pub All-insert {κ} :
      (P : ℕ × A → Type κ) (k : ℕ) (a : A) (l : List (ℕ × A))
      → P (k, a)
      → All P l
      → All P (insert k a l)
  unfolding insert
  All-insert P k a [] h hl = (h, tt)
  All-insert P k a ((j, b) ∷ l) h (hj, hl) = ground (arith, All-insert P k a l h hl)

  pub find-All {κ} :
      (P : ℕ × A → Type κ) (k : ℕ) (a : A) (l : List (ℕ × A))
      → All P l
      → find k l ≡ some a
      → P (k, a)
  unfolding find
  find-All P k a [] hl h = absurd (none-ne-some a h)
  find-All P k a ((j, b) ∷ l) (hj, hl) h = elim (Bool-cases (k == j)) [
    | inl eq ↦
        let value : b ≡ a = some-injective b a (rw eq at h) in
        subst (λ (i : ℕ). P (i, a)) (sym (==→eq k j eq)) (subst (λ (x : A). P (j, x)) value hj)
    | inr ne ↦ find-All P k a l hl (rw ne at h)
  ]

  -- What was found is still found.
  pub insert_found :
      (k : ℕ) (a : A) (l : List (ℕ × A))
      → IsAscending l
      → (i : ℕ) (b : A) → find i l ≡ some b
      → find i (insert k a l) ≡ some b
  insert_found k a l asc i b h = elim (Bool-cases (i == k)) [
    | inl same ↦ let eq : i ≡ k = ==→eq i k same in rw eq (find-insert_old k a b l asc (rw eq at h))
    | inr other ↦ find-insert_other i k a l (λ (e : i ≡ k). ground arith) ∙ h
  ]

  found_below :
      (k : ℕ) (a : A) (l sets : List (ℕ × A))
      → Above k sets
      → All (λ (e : ℕ × A). find e.0 l ≡ some e.1) sets
      → All (λ (e : ℕ × A). find e.0 ((k, a) ∷ l) ≡ some e.1) sets
  unfolding find
  found_below k a l [] above h = tt
  found_below k a l ((j, b) ∷ sets) (lt, above) (h, hs) =
      (ground arith, found_below k a l sets above hs)

  -- An ascending list as a map finds each of its entries.
  pub All-found : (l : List (ℕ × A)) → IsAscending l → All (λ (e : ℕ × A). find e.0 l ≡ some e.1) l
  unfolding find
  All-found [] h = tt
  All-found ((k, a) ∷ l) (above, h) = (ground arith, found_below k a l l above (All-found l h))
