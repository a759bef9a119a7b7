-- ===== src/RaftLog/Calls/Refines.antt =====
-- Every call of HomeRaftLogStore, and every sequence of calls, against the promised log.
use home_replication.Base.{
  ℕ, zero, suc, ◌+◌, ◌-◌, ◌^◌, ◌≤◌, ◌<◌, ◌≡◌, refl, ap, Option, none, List, [], ◌∷◌, ◌++◌,
  get_elem?, ltb, arith, Bool-cases, ltb→lt, ltb→le, lt→ltb, inl, inr, ◌⊎◌, get_elem?-none,
  get_elem?-some,
}
use home_replication.Base.Exec.{ok}
use home_replication.HomeStore.{HomeLogStore, AppendLog}
use home_replication.Nuraft.{LogEntry, Nuraft, EntryFormat}
use home_replication.RaftLog.{HomeRaftLogStore}
use home_replication.RaftLog.Codec.{IsEntry}
use home_replication.RaftLog.Represents.{opened, Represents}
use home_replication.RaftLog.Appends.{
  next_slot_lem, start_index_lem, append_lem, write_at_lem, flush_keeps,
}
use home_replication.RaftLog.Reads.{
  entry_at_held, reads_missing, last_entry_held, last_entry_fresh, last_entry_compacted,
}
use home_replication.RaftLog.Ranges.{log_entries_lem}
use home_replication.RaftLog.Compact.{compact_lem}
use home_replication.RaftLog.Calls.{
  Call, append, write_at, compact, flush, next_slot, start_index, last_entry, entry_at, log_entries,
  entry, RaftSpec, end_of, last_of_log, promised, promised_run, Admits, AdmitsAll, call, call_run,
}

-- The store holds the promised log.
abbrev pub Holds :
    {S : Type 0} {st : HomeLogStore S} (nu : Nuraft) → AppendLog st → S → RaftSpec → Type 0
Holds nu law s a = Represents nu law s a.first a.log

module _ {S : Type 0} (st : HomeLogStore S) (nu : Nuraft) (law : AppendLog st)
    (format : EntryFormat nu) (id : Option ℕ) (dummy : LogEntry)
    (dummy_fits : IsEntry nu dummy) where
  abbrev log_at : S → HomeRaftLogStore S
  log_at s = opened id dummy s

  -- The call answers as promised and leaves the promised log.
  abbrev IsKept : Call → S → RaftSpec → Type 0
  IsKept c s a =
      (s' : S) × (call st nu c (log_at s) ≡ ((promised dummy c a).0, log_at s'))
      × Holds nu law s' (promised dummy c a).1

  reads_entry :
      (i : ℕ) (s : S) (a : RaftSpec)
      → Holds nu law s a
      → i + 1 < 2 ^ 63
      → call st nu (entry_at i) (log_at s) ≡ ((promised dummy (entry_at i) a).0, log_at s)
  unfolding call promised
  reads_entry i s a rep h =
      let missing = λ (out : (i < a.first) ⊎ (end_of a ≤ i)).
        (reads_missing st nu law format id dummy s a.first a.log rep i h out).0 in
      elim (Bool-cases (ltb i a.first)) [
        | inl lo ↦ rw (lo, missing (inl (ltb→lt i a.first lo)))
        | inr hi ↦ elim (Bool-cases (ltb i (end_of a))) [
          | inl held ↦
              let (e, here) =
                get_elem?-some a.log (i - a.first)
                  (omega (arith, ltb→le i a.first hi, ltb→lt i (end_of a) held)) in
              rw (
                hi,
                here,
                entry_at_held st nu law format id dummy s a.first a.log rep i e
                    (ltb→le i a.first hi) h here,
              )
          | inr out ↦
              let gone : get_elem? a.log (i - a.first) ≡ none =
                get_elem?-none a.log (i - a.first)
                  (omega (arith, ltb→le i a.first hi, ltb→le i (end_of a) out)) in
              rw (hi, gone, missing (inr (ltb→le i (end_of a) out)))
        ]
      ]

  -- A list that is not empty, taken apart at its end.
  split_last :
      (first : ℕ) (x : LogEntry) (xs : List LogEntry)
      → (front : List LogEntry) × (e : LogEntry) × (x ∷ xs ≡ front ++ (e ∷ []))
        × (last_of_log dummy first (x ∷ xs) ≡ ok (entry e))
  split_last first x [] = ([], x, refl, refl)
  split_last first x (y ∷ ys) =
      let (front, e, same, last) = split_last first y ys in
      (x ∷ front, e, ap (λ (l : List LogEntry). x ∷ l) same, last)

  reads_last :
      (s : S) (first : ℕ) (log : List LogEntry)
      → Represents nu law s first log
      → call st nu last_entry (log_at s) ≡ (last_of_log dummy first log, log_at s)
  unfolding call
  reads_last s zero [] rep = rw (last_entry_fresh st nu law format id dummy s rep)
  reads_last s (suc first) [] rep = rw (
    last_entry_compacted st nu law format id dummy s first rep,
    lt→ltb 0 (suc first) (omega arith),
  )
  reads_last s first (x ∷ xs) rep =
      let (front, e, same, last) = split_last first x xs in
      rw (last_entry_held st nu law format id dummy s first front e (rw same at rep), last)

  call_lem : (c : Call) (s : S) (a : RaftSpec) → Holds nu law s a → Admits nu a c → IsKept c s a
  unfolding call promised
  call_lem (append e) s a rep (he, room) =
      let (s', run, rep') = append_lem st nu law id dummy s a.first a.log rep e he room in
      (s', rw run, rep')
  call_lem (write_at i e) s a rep (he, lo, hi, room) =
      let (s', run, rep') = write_at_lem st nu law id dummy s a.first a.log rep i e lo hi he room in
      (s', rw run, rep')
  call_lem (compact c) s a rep room =
      let (s', run, rep') = compact_lem st nu law id dummy dummy_fits s a.first a.log c rep room in
      (s', rw run, rep')
  call_lem flush s a rep h =
      let (s', run, rep') = flush_keeps st nu law id dummy s a.first a.log rep in (s', rw run, rep')
  call_lem next_slot s a rep h = (s, rw (next_slot_lem st nu law id dummy s a.first a.log rep), rep)
  call_lem start_index s a rep h =
      (s, rw (start_index_lem st nu law id dummy s a.first a.log rep), rep)
  call_lem last_entry s a rep h = (s, reads_last s a.first a.log rep, rep)
  call_lem (entry_at i) s a rep h = (s, reads_entry i s a rep h, rep)
  call_lem (log_entries i j) s a rep (lo, hi, hi') =
      (s, rw (log_entries_lem st nu law format id dummy s a.first a.log i j rep lo hi hi'), rep)

  -- Take an open log that holds the entries `a.log` from the raft index `a.first + 1` on, in
  -- records of nuraft's layout, with a dummy entry whose fields fit their widths. Every sequence of
  -- `append`, `write_at`, `compact`, `flush`, `next_slot`, `start_index`, `last_entry`, `entry_at`
  -- and `log_entries` that `AdmitsAll` admits gives the answers of `promised_run`, a model on the
  -- list alone, and leaves an open log that holds the list of the model.
  pub runs_as_promised :
      (cs : List Call) (s : S) (a : RaftSpec)
      → Holds nu law s a
      → AdmitsAll nu dummy cs a
      → (s' : S) × (call_run st nu cs (log_at s) ≡ ((promised_run dummy cs a).0, log_at s'))
        × Holds nu law s' (promised_run dummy cs a).1
  unfolding call_run promised_run
  runs_as_promised [] s a rep h = (s, refl, rep)
  runs_as_promised (c ∷ cs) s a rep (h, hs) =
      let (t, run, rep') = call_lem c s a rep h in
      let (s', run', rep'') = runs_as_promised cs t (promised dummy c a).1 rep' hs in
      (s', rw (run, run'), rep'')
