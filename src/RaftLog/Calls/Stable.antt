-- ===== src/RaftLog/Calls/Stable.antt =====
-- What every sequence of calls leaves alone.
use Prim.Native.Nat.{max}
use home_replication.Base.{
  ℕ, suc, ◌+◌, ◌-◌, ◌^◌, ◌≤◌, ◌<◌, ◌≡◌, ◌∙◌, ap, Option, some, List, [], ◌∷◌, get_elem?, take,
  arith, All, get_elem?-append_left, get_elem?-take, get_elem?-lt, get_elem?-drop, length-take,
}
use home_replication.Base.Exec.{ok}
use home_replication.HomeStore.{HomeLogStore, AppendLog}
use home_replication.Nuraft.{LogEntry, Nuraft, EntryFormat}
use home_replication.RaftLog
use home_replication.RaftLog.{HomeRaftLogStore}
use home_replication.RaftLog.Codec.{IsEntry}
use home_replication.RaftLog.Represents.{opened}
use home_replication.RaftLog.Appends.{start_index_lem}
use home_replication.RaftLog.Reads.{entry_at_held}
use home_replication.RaftLog.Calls.{
  Call, append, write_at, compact, flush, next_slot, start_index, last_entry, entry_at, log_entries,
  RaftSpec, promised, promised_run, AdmitsAll, Admits, call_run,
}
use home_replication.RaftLog.Calls.Refines.{Holds, runs_as_promised}

-- The call neither overwrites nor compacts the index.
abbrev pub Spares : ℕ → Call → Type 0
Spares i (write_at j e) = i < j
Spares i (compact c) = c < i
Spares i c = Unit {0}

abbrev IsAt : RaftSpec → ℕ → LogEntry → Type 0
IsAt a i e = (a.first ≤ i) × (get_elem? a.log (i - a.first) ≡ some e)

module _ (nu : Nuraft) (dummy : LogEntry) where
  promised-IsAt :
      (c : Call) (a : RaftSpec) (i : ℕ) (e : LogEntry)
      → Admits nu a c
      → Spares i c
      → IsAt a i e
      → IsAt (promised dummy c a).1 i e
  unfolding promised
  promised-IsAt (append e') a i e h sp (lo, here) = (
    lo,
    get_elem?-append_left a.log (e' ∷ []) (i - a.first) (get_elem?-lt a.log (i - a.first) e here)
        ∙ here,
  )
  promised-IsAt (write_at j e') a i e (fits, low, hi, room) sp (lo, here) =
      let lt = get_elem?-lt a.log (i - a.first) e here in
      (
        lo,
        get_elem?-append_left (take (j - a.first) a.log) (e' ∷ []) (i - a.first)
              (omega (arith, length-take (j - a.first) a.log))
            ∙ get_elem?-take (j - a.first) a.log (i - a.first) (omega arith)
            ∙ here,
      )
  promised-IsAt (compact c) a i e h sp (lo, here) =
      let offset : suc c - a.first + (i - max a.first (suc c)) ≡ i - a.first = omega arith in
      (
        omega arith,
        get_elem?-drop (suc c - a.first) a.log (i - max a.first (suc c))
            ∙ ap (λ (k : ℕ). get_elem? a.log k) offset
            ∙ here,
      )
  promised-IsAt flush a i e h sp at = at
  promised-IsAt next_slot a i e h sp at = at
  promised-IsAt start_index a i e h sp at = at
  promised-IsAt last_entry a i e h sp at = at
  promised-IsAt (entry_at j) a i e h sp at = at
  promised-IsAt (log_entries j k) a i e h sp at = at

  promised_run-IsAt :
      (cs : List Call) (a : RaftSpec) (i : ℕ) (e : LogEntry)
      → AdmitsAll nu dummy cs a
      → All (Spares i) cs
      → IsAt a i e
      → IsAt (promised_run dummy cs a).1 i e
  unfolding promised_run
  promised_run-IsAt [] a i e h sp at = at
  promised_run-IsAt (c ∷ cs) a i e (h, hs) (sp, sps) at =
      promised_run-IsAt cs (promised dummy c a).1 i e hs sps (promised-IsAt c a i e h sp at)

  first-le-promised : (c : Call) (a : RaftSpec) → a.first ≤ (promised dummy c a).1.first
  unfolding promised
  first-le-promised (append e) a = omega arith
  first-le-promised (write_at i e) a = omega arith
  first-le-promised (compact c) a = omega arith
  first-le-promised flush a = omega arith
  first-le-promised next_slot a = omega arith
  first-le-promised start_index a = omega arith
  first-le-promised last_entry a = omega arith
  first-le-promised (entry_at i) a = omega arith
  first-le-promised (log_entries i j) a = omega arith

  first-le-promised_run :
      (cs : List Call) (a : RaftSpec) → a.first ≤ (promised_run dummy cs a).1.first
  unfolding promised_run
  first-le-promised_run [] a = omega arith
  first-le-promised_run (c ∷ cs) a =
      omega (arith, first-le-promised c a, first-le-promised_run cs (promised dummy c a).1)

module _ {S : Type 0} (st : HomeLogStore S) (nu : Nuraft) (law : AppendLog st)
    (format : EntryFormat nu) (id : Option ℕ) (dummy : LogEntry) (dummy_fits : IsEntry nu dummy)
    (cs : List Call) (s : S) (a : RaftSpec) (rep : Holds nu law s a)
    (admitted : AdmitsAll nu dummy cs a) where
  abbrev log_at : S → HomeRaftLogStore S
  log_at s = opened id dummy s

  -- On a log as `runs_as_promised` takes it, let the entry with the index `i + 1`, below 2 ^ 63, be
  -- `e`. After an admitted sequence of calls of which no `write_at` is at or below that index and
  -- no `compact` at or above it, `entry_at(i + 1)` returns `e` and changes nothing.
  pub entry_stable :
      (i : ℕ) (e : LogEntry)
      → a.first ≤ i
      → i + 1 < 2 ^ 63
      → get_elem? a.log (i - a.first) ≡ some e
      → All (Spares i) cs
      → (s' : S) × ((call_run st nu cs (log_at s)).1 ≡ log_at s')
        × (RaftLog.entry_at st nu (i + 1) (log_at s') ≡ (ok e, log_at s'))
  entry_stable i e lo fits here spares =
      let (s', run, rep') =
        runs_as_promised st nu law format id dummy dummy_fits cs s a rep admitted in
      let (lo', here') = promised_run-IsAt nu dummy cs a i e admitted spares (lo, here) in
      let a' : RaftSpec = (promised_run dummy cs a).1 in
      (
        s',
        ap (λ p. p.1) run,
        entry_at_held st nu law format id dummy s' a'.first a'.log rep' i e lo' fits here',
      )

  -- On a log as `runs_as_promised` takes it, `start_index()` after an admitted sequence of calls is
  -- at least what it was before.
  start_index_mono :
      (s' : S) × (x : ℕ) × (y : ℕ) × ((call_run st nu cs (log_at s)).1 ≡ log_at s')
      × (RaftLog.start_index st nu (log_at s) ≡ (ok x, log_at s))
      × (RaftLog.start_index st nu (log_at s') ≡ (ok y, log_at s'))
      × (x ≤ y)
  start_index_mono =
      let (s', run, rep') =
        runs_as_promised st nu law format id dummy dummy_fits cs s a rep admitted in
      let a' : RaftSpec = (promised_run dummy cs a).1 in
      (
        s',
        a.first + 1,
        a'.first + 1,
        ap (λ p. p.1) run,
        start_index_lem st nu law id dummy s a.first a.log rep,
        start_index_lem st nu law id dummy s' a'.first a'.log rep',
        omega (arith, first-le-promised_run nu dummy cs a),
      )
