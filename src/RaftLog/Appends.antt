-- ===== src/RaftLog/Appends.antt =====
-- `append`, `write_at` and the two index functions of HomeRaftLogStore against the list of entries.
use home_replication.Base.{
  ℕ, ◌+◌, ◌-◌, ◌^◌, ◌≤◌, ◌<◌, ◌≡◌, ◌∙◌, refl, ap, ◌++◌, ◌∷◌, [], List, true, Option, arith, length,
  take, All-take, length-take,
}
use home_replication.Base.Int.{last_of}
use home_replication.Base.Exec.{ok}
use home_replication.Bytes.{Bytes}
use home_replication.HomeStore.{HomeLogStore, AppendLog}
use home_replication.HomeStore.View.{kept}
use home_replication.Nuraft.{LogEntry, Nuraft}
use home_replication.RaftLog.{
  HomeRaftLogStore, next_slot, start_index, append, write_at, write_at_by, flush,
}
use home_replication.RaftLog.Codec.{IsEntry}
use home_replication.RaftLog.Represents.{
  opened, Represents, next_of, first_of, Represents-append, Represents-flush, kept_view,
  store_lsn-before, io_blob-small,
}

module _ {S : Type 0} (st : HomeLogStore S) (nu : Nuraft) (law : AppendLog st) (id : Option ℕ)
    (dummy : LogEntry) where
  abbrev log_at : S → HomeRaftLogStore S
  log_at s = opened id dummy s

  module _ (s : S) (first : ℕ) (es : List LogEntry) (rep : Represents nu law s first es) where
    -- On an open log that holds the entries `es` from the raft index `first + 1` on, `next_slot()`
    -- returns the index behind the last entry and changes nothing.
    pub next_slot_lem : next_slot st nu (log_at s) ≡ (ok (first + length es + 1), log_at s)
    unfolding next_slot
    next_slot_lem = ground (arith, law.issued s, next_of nu law rep, rep.bounded)

    -- On an open log that holds the entries `es` from the raft index `first + 1` on,
    -- `start_index()` returns `first + 1` and changes nothing.
    pub start_index_lem : start_index st nu (log_at s) ≡ (ok (first + 1), log_at s)
    unfolding start_index
    start_index_lem = ground (arith, law.truncated s, first_of nu law rep, rep.bounded)

    -- On an open log that holds the entries `es` from the raft index `first + 1` on, `append` of an
    -- entry whose fields fit their widths returns the index behind the last entry and adds the
    -- entry at the end, as long as the indexes stay below 2 ^ 63 with one more.
    pub append_lem :
        (e : LogEntry)
        → IsEntry nu e
        → first + length es + 3 < 2 ^ 63
        → (s' : S) × (append st nu e (log_at s) ≡ (ok (first + length es + 1), log_at s'))
          × Represents nu law s' first (es ++ (e ∷ []))
    unfolding append
    append_lem e he room =
        let blob : Bytes = nu.serialize e in
        (
          (st.append_async s blob).1,
          rw (io_blob-small blob he.size_fits)
              (ground (arith, law.append_number s blob, next_of nu law rep, rep.bounded)),
          Represents-append st nu law s first es e rep he room,
        )

    pub rolled_back :
        (i : ℕ)
        → first ≤ i
        → i ≤ first + length es
        → Represents nu law (st.rollback_async s (last_of i)) first (take (i - first) es)
    rolled_back i lo hi = record {
      shows =
          law.rollback_view s i (rw (first_of nu law rep) lo) (rw (next_of nu law rep) hi)
          ∙ ap (λ v. kept v i) rep.shows
          ∙ kept_view nu law first es i;
      entries = All-take (IsEntry nu) (i - first) es rep.entries;
      bounded = omega (arith, length-take (i - first) es, rep.bounded);
    }

    -- The state of the log after `flush()` is as before.
    pub flush_keeps :
        (s' : S) × (flush st nu (log_at s) ≡ (ok true, log_at s')) × Represents nu law s' first es
    unfolding flush
    flush_keeps = (
      st.flush_sync s st.invalid_lsn,
      refl,
      Represents-flush st nu law s first es st.invalid_lsn rep,
    )

  -- On an open log that holds the entries `es` from the raft index `first + 1` on, `write_at(i + 1,
  -- e)` at an index that is held or at the next slot keeps the entries below that index, puts `e`
  -- there and drops those that were behind. The fields of `e` fit their widths, and `i + 3` is
  -- below 2 ^ 63.
  pub write_at_lem :
      (s : S) (first : ℕ) (es : List LogEntry) (rep : Represents nu law s first es) (i : ℕ)
      (e : LogEntry)
      → first ≤ i
      → i ≤ first + length es
      → IsEntry nu e
      → i + 3 < 2 ^ 63
      → (s' : S) × (write_at st nu (i + 1) e (log_at s) ≡ (ok tt, log_at s'))
        × Represents nu law s' first (take (i - first) es ++ (e ∷ []))
  unfolding write_at write_at_by
  write_at_lem s first es rep i e lo hi he room =
      let t : S = st.rollback_async s (last_of i) in
      let rep' : Represents nu law t first (take (i - first) es) =
        rolled_back s first es rep i lo hi in
      let (s', run, rep'') =
        append_lem t first (take (i - first) es) rep' e he
          (omega (arith, length-take (i - first) es)) in
      (s', rw (store_lsn-before i (omega arith), run), rep'')
