-- ===== src/HomeStore/View.antt =====
-- The view of a log whose records have consecutive sequence numbers from 0 on: the records below
-- `first` are truncated, the others are in `entries`.
use home_replication.Base.{
  ℕ, ◌+◌, ◌-◌, ◌≤◌, ◌<◌, ◌≡◌, ◌++◌, Option, none, some, List, [], ◌∷◌, arith, ltb, if◌then◌else◌,
  length, get_elem?, take, drop, length-append, length-take, length-drop, get_elem?-append_left,
  get_elem?-append_end, get_elem?-take,
}
use Prim.Native.Nat.{max}
use home_replication.Bytes.{Bytes}

pub record LogView : Type 0 where
  pub first : ℕ
  pub entries : List Bytes

-- The number that the next record gets.
abbrev pub next : LogView → ℕ
next v = v.first + length v.entries

unfoldable pub at : LogView → ℕ → Option Bytes
at v n = if ltb n v.first then none else get_elem? v.entries (n - v.first)

-- The records from `n` on.
abbrev pub from : LogView → ℕ → List Bytes
from v n = drop (n - v.first) v.entries

unfoldable pub appended : LogView → Bytes → LogView
appended v b = record v { entries = v.entries ++ (b ∷ []) }

-- The records below `n`.
unfoldable pub kept : LogView → ℕ → LogView
kept v n = record v { entries = take (n - v.first) v.entries }

-- The records below `n` are truncated.
unfoldable pub cut : LogView → ℕ → LogView
cut v n = record { first = max v.first n; entries = drop (n - v.first) v.entries }

pub next-appended : (v : LogView) (b : Bytes) → next (appended v b) ≡ next v + 1
unfolding appended
next-appended v b = omega (arith, length-append v.entries (b ∷ []))

pub next-kept : (v : LogView) (n : ℕ) → v.first ≤ n → n ≤ next v → next (kept v n) ≡ n
unfolding kept
next-kept v n lo hi = omega (arith, length-take (n - v.first) v.entries)

pub next-cut : (v : LogView) (n : ℕ) → n ≤ next v → next (cut v n) ≡ next v
unfolding cut
next-cut v n hi = omega (arith, length-drop (n - v.first) v.entries)

pub at-appended_end : (v : LogView) (b : Bytes) → at (appended v b) (next v) ≡ some b
unfolding at appended
at-appended_end v b =
    ground (arith, get_elem?-append_end v.entries [] b (next v - v.first) (omega arith))

pub at-appended_before :
    (v : LogView) (b : Bytes) (n : ℕ) → n < next v → at (appended v b) n ≡ at v n
unfolding at appended
at-appended_before v b n h = ground (arith, get_elem?-append_left v.entries (b ∷ []) (n - v.first))

pub at-kept : (v : LogView) (k n : ℕ) → n < k → at (kept v k) n ≡ at v n
unfolding at kept
at-kept v k n h = ground (arith, get_elem?-take (k - v.first) v.entries (n - v.first))
