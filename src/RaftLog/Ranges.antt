-- ===== src/RaftLog/Ranges.antt =====
-- `log_entries` of HomeRaftLogStore against the list of entries.
use home_replication.Base.{get_elem?-some, take-drop_head, refl, length, zero}
use home_replication.RaftLog
use home_replication.RaftLog.Reads.{entry_at_held}
use home_replication.Base.{
  ℕ, suc, ◌+◌, ◌-◌, ◌^◌, ◌≤◌, ◌<◌, ◌≡◌, ◌∙◌, ap, sym, ◌++◌, ◌∷◌, [], List, map, Option, arith, take,
  drop, All, All-drop, inl, inr, ltb, false, Bool-cases, ltb→lt, ltb→le, tests, nil-take, drop-map,
  append_assoc, append-nil,
}
use home_replication.Base.Int.{pos}
use home_replication.Base.Exec.{Result, ok, pure, ◌>>=◌}
use home_replication.HomeStore.{HomeLogStore, AppendLog, visit}
use home_replication.HomeStore.View.{LogView, from}
use home_replication.Nuraft.{LogEntry, Nuraft, EntryFormat}
use home_replication.RaftLog.{HomeRaftLogStore, log_entries, collect}
use home_replication.RaftLog.Codec.{IsEntry, to_nuraft_log_entry-serialize}
use home_replication.RaftLog.Represents.{opened, Represents, first_of, store_lsn_of}

module _ {S : Type 0} (st : HomeLogStore S) (nu : Nuraft) where
  -- The entries with the indexes from `i + 1` on, `k` of them, read one by one.
  pub read_each : ℕ → ℕ → RaftLog.Raft st nu (List LogEntry)
  read_each zero i = pure []
  read_each (suc k) i = do
    e ← RaftLog.entry_at st nu (i + 1)
    rest ← read_each k (i + 1)
    pure (e ∷ rest)

module _ {S : Type 0} (st : HomeLogStore S) (nu : Nuraft) (law : AppendLog st)
    (format : EntryFormat nu) (id : Option ℕ) (dummy : LogEntry) where
  abbrev log_at : S → HomeRaftLogStore S
  log_at s = opened id dummy s

  module _ (e : LogEntry) (he : IsEntry nu e) (out : List LogEntry) (n b : ℕ)
      (fits : b + 1 < 2 ^ 63) where
    collect_within :
        n < b
        → collect st nu (b + 1) (pos n) (nu.serialize e) (ok out)
          ≡ (ltb (n + 1) b, ok (out ++ (e ∷ [])))
    unfolding collect
    collect_within h =
        ground (arith, to_nuraft_log_entry-serialize nu format e he, store_lsn_of b fits)

    collect_beyond :
        b ≤ n → collect st nu (b + 1) (pos n) (nu.serialize e) (ok out) ≡ (false, ok out)
    unfolding collect
    collect_beyond h = ground (arith, store_lsn_of b fits)

  -- The walk of `log_entries` from the number `n` on.
  visit-collect :
      (es out : List LogEntry) (n b : ℕ)
      → All (IsEntry nu) es
      → b + 1 < 2 ^ 63
      → visit (collect st nu (b + 1)) n (map nu.serialize es) (ok out) ≡ ok (out ++ take (b - n) es)
  unfolding visit
  visit-collect [] out n b h fits = rw (nil-take (b - n), append-nil)
  visit-collect (e ∷ es) out n b (he, hes) fits = elim (Bool-cases (ltb n b)) [
    | inl within ↦ elim (Bool-cases (ltb (n + 1) b)) [
      | inl more ↦
          let left : suc (b - suc n) ≡ b - n = omega tests in
          rw
            (
              collect_within e he out n b fits (ltb→lt n b within),
              more,
              visit-collect es (out ++ (e ∷ [])) (suc n) b hes fits,
            )
            (ap ok (
              append_assoc out (e ∷ []) (take (b - suc n) es)
              ∙ ap (λ (k : ℕ). out ++ take k (e ∷ es)) left))
      | inr last ↦
          let left : 1 ≡ b - n = omega tests in
          rw (collect_within e he out n b fits (ltb→lt n b within), last)
            (ap (λ (k : ℕ). ok (out ++ take k (e ∷ es))) left)
    ]
    | inr beyond ↦
        let left : 0 ≡ b - n = omega tests in
        rw (collect_beyond e he out n b fits (ltb→le n b beyond))
          (ap ok (sym (append-nil out) ∙ ap (λ (k : ℕ). out ++ take k (e ∷ es)) left))
  ]

  -- On an open log that holds the entries `es` from the raft index `first + 1` on, `log_entries(a +
  -- 1, b + 1)` with `first` at most `a` returns the held entries with an index from `a + 1` up to
  -- but not including `b + 1`, in order, and changes nothing. Both indexes are below 2 ^ 63, and
  -- records have nuraft's layout.
  pub log_entries_lem :
      (s : S) (first : ℕ) (es : List LogEntry) (a b : ℕ)
      → Represents nu law s first es
      → first ≤ a
      → a + 1 < 2 ^ 63
      → b + 1 < 2 ^ 63
      → log_entries st nu (a + 1) (b + 1) (log_at s)
        ≡ (ok (take (b - a) (drop (a - first) es)), log_at s)
  unfolding log_entries
  log_entries_lem s first es a b rep lo fits fits' =
      let walk = law.foreach_visit (Result (List LogEntry)) s a (collect st nu (b + 1)) (ok []) in
      let records : from (law.view s) a ≡ map nu.serialize (drop (a - first) es) =
        ap (λ (v : LogView). from v a) rep.shows ∙ drop-map nu.serialize (a - first) es in
      rw (
        store_lsn_of a fits,
        walk (rw (first_of nu law rep) lo),
        records,
        visit-collect (drop (a - first) es) [] a b
            (All-drop (IsEntry nu) (a - first) es rep.entries) fits',
      )

  module _ (s : S) (first : ℕ) (es : List LogEntry) (rep : Represents nu law s first es) where
    read_each-held :
        (k i : ℕ)
        → first ≤ i
        → i + k ≤ first + length es
        → i + k + 1 < 2 ^ 63
        → read_each st nu k i (log_at s) ≡ (ok (take k (drop (i - first) es)), log_at s)
    unfolding read_each
    read_each-held zero i lo hi fits = refl
    read_each-held (suc k) i lo hi fits =
        let (e, here) = get_elem?-some es (i - first) (omega arith) in
        let next : i - first + 1 ≡ i + 1 - first = omega arith in
        rw (
          entry_at_held st nu law format id dummy s first es rep i e lo (omega arith) here,
          read_each-held k (i + 1) (omega arith) (omega arith) (omega arith),
          take-drop_head k (i - first) es e here,
          next,
        )

    -- On an open log that holds the entries `es` from the raft index `first + 1` on, in records of
    -- nuraft's layout, `log_entries(a + 1, a + k + 1)` of a range that is held, with indexes below
    -- 2 ^ 63, does what the calls of `entry_at` one by one for the indexes from `a + 1` to `a + k`
    -- do.
    pub log_entries-read_each :
        (a k : ℕ)
        → first ≤ a
        → a + k ≤ first + length es
        → a + k + 1 < 2 ^ 63
        → log_entries st nu (a + 1) (a + k + 1) (log_at s) ≡ read_each st nu k a (log_at s)
    log_entries-read_each a k lo hi fits =
        let count : a + k - a ≡ k = omega arith in
        log_entries_lem s first es a (a + k) rep lo (omega arith) fits
        ∙ ap (λ (n : ℕ). (ok (take n (drop (a - first) es)), log_at s)) count
        ∙ sym (read_each-held k a lo hi fits)
