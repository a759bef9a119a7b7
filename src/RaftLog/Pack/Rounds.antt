-- ===== src/RaftLog/Pack/Rounds.antt =====
-- The rounds of the loop that is to fill a gap in `apply_pack`.
use home_replication.Base.{
  ℕ, zero, suc, ◌+◌, ◌-◌, ◌%◌, ◌^◌, ◌<◌, ◌≡◌, refl, arith, lt→ltb, le→ltb, ap, inl, inr,
}
use Prim.Native.Nat.{max}
use home_replication.Base.Exec.{ok, pure, ◌>>◌, Result-cases}
use home_replication.HomeStore.{HomeLogStore}
use home_replication.Nuraft.{LogEntry, Nuraft}
use home_replication.RaftLog.{HomeRaftLogStore, Raft, fill_by}
use home_replication.RaftLog.Pack.{fill_upto_by}

module _ {S : Type 0} (st : HomeLogStore S) (nu : Nuraft)
    (own_append : LogEntry → Raft st nu ℕ) where
  -- So many dummy entries, and the index after the loop.
  abbrev pub counted : ℕ → ℕ → Raft st nu ℕ
  counted n last = fill_by st nu own_append n >> pure last

  rounds_counted :
      (n index slot : ℕ) (r : HomeRaftLogStore S)
      → slot - index ≡ n
      → index + 1 < 2 ^ 64
      → slot + 1 < 2 ^ 64
      → fill_upto_by st nu own_append (suc n) index slot r ≡ counted n (max index slot + 1) r
  unfolding fill_upto_by fill_by
  rounds_counted zero index slot r gap small fits =
      let next : (index + 1) % 2 ^ 64 ≡ index + 1 = omega arith in
      rw (le→ltb index slot (omega arith), next) (ap (λ (n : ℕ). (ok n, r)) (omega arith))
  rounds_counted (suc n) index slot r gap small fits =
      let next : (index + 1) % 2 ^ 64 ≡ index + 1 = omega arith in
      let last : max (index + 1) slot ≡ max index slot = omega arith in
      let appended = own_append r.dummy_log_entry r in
      let more = rounds_counted n (index + 1) slot appended.1 (omega arith) (omega arith) fits in
      elim (Result-cases appended.0) [
        | inl (i, ran) ↦ rw (lt→ltb index slot (omega arith), ran, next, more, last) refl
        | inr (e, threw) ↦ rw (lt→ltb index slot (omega arith), threw) refl
      ]

  -- In any state and for any `append`, with the index and the slot below 2 ^ 64 - 1, the loop of
  -- `apply_pack` that is to fill a gap ends within one test more than the slot is above the index.
  -- It appends that many dummy entries, none where the slot is not above the index, and leaves in
  -- `index` one more than the larger of the two; what an `append` throws ends it.
  pub fill_upto_ends :
      (index slot : ℕ) (r : HomeRaftLogStore S)
      → index + 1 < 2 ^ 64
      → slot + 1 < 2 ^ 64
      → fill_upto_by st nu own_append (suc (slot - index)) index slot r
        ≡ counted (slot - index) (max index slot + 1) r
  fill_upto_ends index slot r small fits =
      rounds_counted (slot - index) index slot r refl small fits
