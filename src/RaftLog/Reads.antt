-- ===== src/RaftLog/Reads.antt =====
-- `entry_at`, `term_at` and `last_entry` of HomeRaftLogStore against the list of entries.
use home_replication.Base.{
  ℕ, suc, ◌+◌, ◌-◌, ◌^◌, ◌≤◌, ◌<◌, ◌≡◌, ◌≢◌, ◌∙◌, ◌++◌, ◌∷◌, [], List, map, Option, none, some,
  arith, length, get_elem?, All-get_elem?, ◌⊎◌, inl, inr, length-append, length-map, get_elem?-map,
  get_elem?-none, get_elem?-append_end,
}
use home_replication.Base.Int.{pos, negsuc}
use home_replication.Base.Exec.{ok, err, exception, out_of_range}
use home_replication.Endian.Order.{swapped}
use home_replication.HomeStore.{HomeLogStore, AppendLog}
use home_replication.HomeStore.View.{next, at}
use home_replication.Nuraft.{LogEntry, Nuraft, EntryFormat}
use home_replication.RaftLog.{HomeRaftLogStore, read_entry, entry_at, term_at, last_entry}
use home_replication.RaftLog.Codec.{
  IsEntry, to_nuraft_log_entry-serialize, extract_term-serialize, swapped-ne,
}
use home_replication.RaftLog.Represents.{opened, Represents, next_of, store_lsn_of}

module _ {S : Type 0} (st : HomeLogStore S) (nu : Nuraft) (law : AppendLog st)
    (format : EntryFormat nu) (id : Option ℕ) (dummy : LogEntry) where
  abbrev log_at : S → HomeRaftLogStore S
  log_at s = opened id dummy s

  pub read_entry_held :
      (s : S) (i : ℕ) (e : LogEntry)
      → at (law.view s) i ≡ some (nu.serialize e)
      → IsEntry nu e
      → read_entry st nu (pos i) s ≡ ok e
  read_entry_held s i e h he =
      cc (law.read_held s i (nu.serialize e) h, to_nuraft_log_entry-serialize nu format e he)

  read_entry_missing :
      (s : S) (i : ℕ) → at (law.view s) i ≡ none → read_entry st nu (pos i) s ≡ err out_of_range
  read_entry_missing s i h = cc (law.read_missing s i h)

  module _ (s : S) (first : ℕ) (es : List LogEntry) (rep : Represents nu law s first es) where
    pub at_held :
        (i : ℕ) (e : LogEntry)
        → first ≤ i
        → get_elem? es (i - first) ≡ some e
        → at (law.view s) i ≡ some (nu.serialize e)
    unfolding at
    at_held i e lo h = rw rep.shows (ground (arith, get_elem?-map nu.serialize es (i - first) e h))

    at_below : (i : ℕ) → i < first → at (law.view s) i ≡ none
    unfolding at
    at_below i h = rw rep.shows (ground arith)

    at_beyond : (i : ℕ) → first + length es ≤ i → at (law.view s) i ≡ none
    unfolding at
    at_beyond i h = rw rep.shows (
        ground
          (arith, get_elem?-none (map nu.serialize es) (i - first), length-map nu.serialize es))

    -- On an open log that holds the entries `es` from the raft index `first + 1` on, in records of
    -- nuraft's layout, `entry_at(i + 1)` of a held index below 2 ^ 63 returns the entry at that
    -- index and changes nothing.
    pub entry_at_held :
        (i : ℕ) (e : LogEntry)
        → first ≤ i
        → i + 1 < 2 ^ 63
        → get_elem? es (i - first) ≡ some e
        → entry_at st nu (i + 1) (log_at s) ≡ (ok e, log_at s)
    unfolding entry_at
    entry_at_held i e lo fits h = rw (
      store_lsn_of i fits,
      read_entry_held s i e (at_held i e lo h)
          (All-get_elem? (IsEntry nu) es (i - first) e rep.entries h),
    )

    pub term_at_held :
        (i : ℕ) (e : LogEntry)
        → first ≤ i
        → i + 1 < 2 ^ 63
        → get_elem? es (i - first) ≡ some e
        → term_at st nu (i + 1) (log_at s) ≡ (ok (swapped 8 e.term), log_at s)
    unfolding term_at
    term_at_held i e lo fits h = rw (
      store_lsn_of i fits,
      law.read_held s i (nu.serialize e) (at_held i e lo h),
      extract_term-serialize nu format e
          (All-get_elem? (IsEntry nu) es (i - first) e rep.entries h),
    )

    -- On an open log that holds the entries `es` from the raft index `first + 1` on, in records of
    -- nuraft's layout, let the entry with the index `i + 1`, below 2 ^ 63, have a term other than 0
    -- and below 2 ^ 32. Then `entry_at(i + 1)` returns that entry and `term_at(i + 1)` returns a
    -- number that is not its term.
    pub term_mismatch :
        (i : ℕ) (e : LogEntry)
        → first ≤ i
        → i + 1 < 2 ^ 63
        → get_elem? es (i - first) ≡ some e
        → 0 < e.term
        → e.term < 2 ^ 32
        → (entry_at st nu (i + 1) (log_at s) ≡ (ok e, log_at s))
          × ((term : ℕ) × (term_at st nu (i + 1) (log_at s) ≡ (ok term, log_at s))
              × (term ≢ e.term))
    term_mismatch i e lo fits h p small = (
      entry_at_held i e lo fits h,
      (swapped 8 e.term, term_at_held i e lo fits h, swapped-ne e.term p small),
    )

    missing :
        (i : ℕ)
        → i + 1 < 2 ^ 63
        → at (law.view s) i ≡ none
        → (entry_at st nu (i + 1) (log_at s) ≡ (err exception, log_at s))
          × (term_at st nu (i + 1) (log_at s) ≡ (err exception, log_at s))
    unfolding entry_at term_at
    missing i fits h = (
      rw (store_lsn_of i fits, read_entry_missing s i h),
      rw (store_lsn_of i fits, law.read_missing s i h),
    )

    -- On an open log that holds the entries `es` from the raft index `first + 1` on, `entry_at(i +
    -- 1)` and `term_at(i + 1)` of an index below 2 ^ 63 that was compacted or is not yet written
    -- both throw a plain std::exception and change nothing.
    pub reads_missing :
        (i : ℕ)
        → i + 1 < 2 ^ 63
        → (i < first) ⊎ (first + length es ≤ i)
        → (entry_at st nu (i + 1) (log_at s) ≡ (err exception, log_at s))
          × (term_at st nu (i + 1) (log_at s) ≡ (err exception, log_at s))
    reads_missing i fits (inl h) = missing i fits (at_below i h)
    reads_missing i fits (inr h) = missing i fits (at_beyond i h)

  -- `last_entry()` on a log that never held an entry is the dummy entry.
  pub last_entry_fresh :
      (s : S) → Represents nu law s 0 [] → last_entry st nu (log_at s) ≡ (ok dummy, log_at s)
  unfolding last_entry
  last_entry_fresh s rep = ground (arith, law.issued s, next_of nu law rep)

  last_issued :
      (s : S) (n : ℕ)
      → next (law.view s) ≡ n + 1
      → st.get_contiguous_issued_seq_num s (negsuc 0) ≡ pos n
  last_issued s n h = ground (arith, law.issued s)

  -- On an open log that holds at least one entry, in records of nuraft's layout, `last_entry()`
  -- returns the last of them and changes nothing.
  pub last_entry_held :
      (s : S) (first : ℕ) (es : List LogEntry) (e : LogEntry)
      → Represents nu law s first (es ++ (e ∷ []))
      → last_entry st nu (log_at s) ≡ (ok e, log_at s)
  unfolding last_entry
  last_entry_held s first es e rep =
      let i : ℕ = first + length es in
      let here : get_elem? (es ++ (e ∷ [])) (i - first) ≡ some e =
        get_elem?-append_end es [] e (i - first) (omega arith) in
      let he = All-get_elem? (IsEntry nu) (es ++ (e ∷ [])) (i - first) e rep.entries here in
      ground (
        arith,
        last_issued s i (next_of nu law rep ∙ omega (arith, length-append es (e ∷ []))),
        read_entry_held s i e (at_held s first (es ++ (e ∷ [])) rep i e (omega arith) here) he,
      )

  -- On an open log that holds nothing because all of its entries, at least one, were compacted,
  -- `last_entry()` throws a plain std::exception.
  pub last_entry_compacted :
      (s : S) (first : ℕ)
      → Represents nu law s (suc first) []
      → last_entry st nu (log_at s) ≡ (err exception, log_at s)
  unfolding last_entry
  last_entry_compacted s first rep = ground (
    arith,
    last_issued s first (next_of nu law rep ∙ omega arith),
    read_entry_missing s first (at_below s (suc first) [] rep first (omega arith)),
  )
