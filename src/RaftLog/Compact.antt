-- ===== src/RaftLog/Compact.antt =====
-- `compact` of HomeRaftLogStore: what it removes, and the dummy entries that it adds before.
use Prim.Native.Nat.{max}
use home_replication.Base.{
  ℕ, zero, suc, ◌+◌, ◌-◌, ◌^◌, ◌≤◌, ◌<◌, ◌≡◌, ◌∙◌, refl, ap, ◌++◌, ◌∷◌, [], List, true, Option, inl,
  inr, arith, length, drop, replicate, All-drop, length-append, length-drop, drop-length,
  length-replicate, append_assoc, append-nil, Bool-cases, ltb, ltb→lt, ltb→le, tests, false, true,
}
use home_replication.Base.Int.{pos, negsuc, pos_part, ◌-ℤ◌, ltb_ℤ, last_of}
use home_replication.Base.Exec.{ok}
use home_replication.HomeStore.{HomeLogStore, AppendLog}
use home_replication.HomeStore.View.{next, cut}
use home_replication.Nuraft.{LogEntry, Nuraft}
use home_replication.RaftLog.{HomeRaftLogStore, append, fill_by, compact, compact_by}
use home_replication.RaftLog.Codec.{IsEntry}
use home_replication.RaftLog.Represents.{opened, Represents, next_of, cut_view, store_lsn_of}
use home_replication.RaftLog.Appends.{append_lem}

-- The test and the number of rounds of the loop, where `n` entries were ever written.
test_held : (n c : ℕ) → c < n → ltb_ℤ (last_of n) (pos c) ≡ false
test_held n c h = ground arith

test_beyond : (n c : ℕ) → n ≤ c → ltb_ℤ (last_of n) (pos c) ≡ true
test_beyond n c h = ground arith

rounds_beyond : (n c : ℕ) → n ≤ c → pos_part (pos c -ℤ last_of n) ≡ suc c - n
rounds_beyond n c h = ground arith

module _ {S : Type 0} (st : HomeLogStore S) (nu : Nuraft) (law : AppendLog st) (id : Option ℕ)
    (dummy : LogEntry) (dummy_ok : IsEntry nu dummy) where
  abbrev log_at : S → HomeRaftLogStore S
  log_at s = opened id dummy s

  fill_lem :
      (n : ℕ) (s : S) (first : ℕ) (es : List LogEntry)
      → Represents nu law s first es
      → first + length es + n + 2 < 2 ^ 63
      → (s' : S) × (fill_by st nu (append st nu) n (log_at s) ≡ (ok tt, log_at s'))
        × Represents nu law s' first (es ++ replicate n dummy)
  unfolding fill_by
  fill_lem zero s first es rep room = (s, refl, rw append-nil rep)
  fill_lem (suc n) s first es rep room =
      let (t, run, rep') =
        append_lem st nu law id dummy s first es rep dummy dummy_ok (omega arith) in
      let (s', run', rep'') =
        fill_lem n t first (es ++ (dummy ∷ [])) rep'
          (omega (arith, length-append es (dummy ∷ []))) in
      (s', rw (run, run'), rw append_assoc at rep'')

  -- The end of `compact`, where the index is held or was compacted before.
  truncated_lem :
      (s : S) (first : ℕ) (es : List LogEntry) (c : ℕ)
      → Represents nu law s first es
      → c < first + length es
      → Represents nu law
          (st.truncate (st.flush_sync s (pos c)) (pos c))
          (max first (suc c))
          (drop (suc c - first) es)
  truncated_lem s first es c rep h =
      let flushed = law.flush_view s (pos c) in
      let held : c < next (law.view (st.flush_sync s (pos c))) =
        rw flushed (omega (arith, next_of nu law rep)) in
      record {
        shows =
            law.truncate_view (st.flush_sync s (pos c)) c held
            ∙ ap (λ v. cut v (suc c)) (flushed ∙ rep.shows)
            ∙ cut_view nu law first es (suc c);
        entries = All-drop (IsEntry nu) (suc c - first) es rep.entries;
        bounded = omega (arith, length-drop (suc c - first) es, rep.bounded);
      }

  -- On an open log that holds the entries `es` from the raft index `first + 1` on, `compact(c + 1)`
  -- succeeds and leaves the entries with an index above `c + 1`: the first index is then the larger
  -- of `first + 1` and `c + 2`, and where `c + 1` is beyond the log, nothing is held and the log
  -- goes on behind `c + 1`. The dummy entry's fields fit their widths, and `c + 3` is below 2 ^ 63.
  pub compact_lem :
      (s : S) (first : ℕ) (es : List LogEntry) (c : ℕ)
      → Represents nu law s first es
      → c + 3 < 2 ^ 63
      → (s' : S) × (compact st nu (c + 1) (log_at s) ≡ (ok true, log_at s'))
        × Represents nu law s' (max first (suc c)) (drop (suc c - first) es)
  unfolding compact compact_by
  compact_lem s first es c rep room = elim (Bool-cases (ltb c (first + length es))) [
    | inl held ↦ (
      st.truncate (st.flush_sync s (pos c)) (pos c),
      rw (
        store_lsn_of c (omega arith),
        issued_held,
        test_held (first + length es) c (ltb→lt _ _ held),
      ),
      truncated_lem s first es c rep (ltb→lt _ _ held),
    )
    | inr beyond ↦
        let n : ℕ = suc c - (first + length es) in
        let none_left : length es ≤ suc c - first = omega tests in
        let (t, run, rep') = fill_lem n s first es rep (omega tests) in
        let all : List LogEntry = es ++ replicate n dummy in
        let size : length all ≡ length es + n =
          length-append es (replicate n dummy)
          ∙ ap (λ (k : ℕ). length es + k) (length-replicate n dummy) in
        (
          st.truncate (st.flush_sync t (pos c)) (pos c),
          rw (
            store_lsn_of c (omega arith),
            issued_held,
            test_beyond (first + length es) c (ltb→le _ _ beyond),
            rounds_beyond (first + length es) c (ltb→le _ _ beyond),
            run,
          ),
          rw (drop-length (suc c - first) es none_left) (
              rw (drop-length (suc c - first) all (omega tests)) at
                (truncated_lem t first all c rep' (omega tests))),
        )
  ]
    where
      issued_held : st.get_contiguous_issued_seq_num s (negsuc 0) ≡ last_of (first + length es)
      issued_held = law.issued s ∙ ap last_of (next_of nu law rep)
