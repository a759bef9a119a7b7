-- ===== src/RaftLog/Calls.antt =====
-- Sequences of calls of HomeRaftLogStore, and the log that they amount to: a list of entries,
-- with the answer and the new list of each call. A raft index `i + 1` stands as `i`.
pub mod Refines
pub mod Stable
pub mod Tests
use Prim.Native.Nat.{max}
use home_replication.Base.{
  ℕ, suc, Bool, true, ◌+◌, ◌-◌, ◌^◌, ◌≤◌, ◌<◌, Option, none, some, List, [], ◌∷◌, ◌++◌, length,
  get_elem?, take, drop, ltb, if◌then◌else◌,
}
use home_replication.Base.Exec.{Result, ok, err, exception, Exec, pure, ◌>>=◌}
use home_replication.HomeStore.{HomeLogStore}
use home_replication.Nuraft.{LogEntry, Nuraft}
use home_replication.RaftLog
use home_replication.RaftLog.{HomeRaftLogStore}
use home_replication.RaftLog.Codec.{IsEntry}

pub data Call : Type 0 where
  append : LogEntry → Call
  write_at : ℕ → LogEntry → Call
  compact : ℕ → Call
  flush : Call
  next_slot : Call
  start_index : Call
  last_entry : Call
  entry_at : ℕ → Call
  log_entries : ℕ → ℕ → Call

-- What a call returns.
pub data Reply : Type 0 where
  nothing : Reply
  flag : Bool → Reply
  index : ℕ → Reply
  entry : LogEntry → Reply
  entries : List LogEntry → Reply

-- The log as its users see it.
pub record RaftSpec : Type 0 where
  pub first : ℕ
  pub log : List LogEntry

abbrev end_of : RaftSpec → ℕ
end_of a = a.first + length a.log

abbrev entry_or_throw : Option LogEntry → Result Reply
entry_or_throw none = err exception
entry_or_throw (some e) = ok (entry e)

abbrev last_of_log : LogEntry → ℕ → List LogEntry → Result Reply
last_of_log dummy first [] = if ltb 0 first then err exception else ok (entry dummy)
last_of_log dummy first (e ∷ []) = ok (entry e)
last_of_log dummy first (e ∷ e' ∷ es) = last_of_log dummy first (e' ∷ es)

-- `dummy` is the entry that stands for one that does not exist.
unfoldable pub promised : LogEntry → Call → RaftSpec → Result Reply × RaftSpec
promised dummy (append e) a = (ok (index (end_of a + 1)), record a { log = a.log ++ (e ∷ []) })
promised dummy (write_at i e) a =
    (ok nothing, record a { log = take (i - a.first) a.log ++ (e ∷ []) })
promised dummy (compact c) a =
    (ok (flag true), record { first = max a.first (suc c); log = drop (suc c - a.first) a.log })
promised dummy flush a = (ok (flag true), a)
promised dummy next_slot a = (ok (index (end_of a + 1)), a)
promised dummy start_index a = (ok (index (a.first + 1)), a)
promised dummy last_entry a = (last_of_log dummy a.first a.log, a)
promised dummy (entry_at i) a =
    (if ltb i a.first then err exception else entry_or_throw (get_elem? a.log (i - a.first)), a)
promised dummy (log_entries i j) a = (ok (entries (take (j - i) (drop (i - a.first) a.log))), a)

-- The promise is made for calls whose indexes are not below the log and stay far below 2 ^ 63, and
-- for entries whose fields fit their widths.
abbrev pub Admits : Nuraft → RaftSpec → Call → Type 0
Admits nu a (append e) = IsEntry nu e × (end_of a + 3 < 2 ^ 63)
Admits nu a (write_at i e) = IsEntry nu e × (a.first ≤ i) × (i ≤ end_of a) × (i + 3 < 2 ^ 63)
Admits nu a (compact c) = c + 3 < 2 ^ 63
Admits nu a flush = Unit {0}
Admits nu a next_slot = Unit {0}
Admits nu a start_index = Unit {0}
Admits nu a last_entry = Unit {0}
Admits nu a (entry_at i) = i + 1 < 2 ^ 63
Admits nu a (log_entries i j) = (a.first ≤ i) × (i + 1 < 2 ^ 63) × (j + 1 < 2 ^ 63)

-- A sequence of calls: the answers, and the log at the end.
unfoldable pub promised_run : LogEntry → List Call → RaftSpec → List (Result Reply) × RaftSpec
promised_run dummy [] a = ([], a)
promised_run dummy (c ∷ cs) a =
    let (r, a') = promised dummy c a in let (rs, a'') = promised_run dummy cs a' in (r ∷ rs, a'')

abbrev pub AdmitsAll : Nuraft → LogEntry → List Call → RaftSpec → Type 0
AdmitsAll nu dummy [] a = Unit {0}
AdmitsAll nu dummy (c ∷ cs) a = Admits nu a c × AdmitsAll nu dummy cs (promised dummy c a).1

module _ {S : Type 0} (st : HomeLogStore S) (nu : Nuraft) where
  abbrev answer : {A : Type 0} → (A → Reply) → RaftLog.Raft st nu A → RaftLog.Raft st nu Reply
  answer f m = do a ← m; pure (f a)

  -- The call on the object.
  unfoldable pub call : Call → RaftLog.Raft st nu Reply
  call (append e) = answer index (RaftLog.append st nu e)
  call (write_at i e) = answer (λ _. nothing) (RaftLog.write_at st nu (i + 1) e)
  call (compact c) = answer flag (RaftLog.compact st nu (c + 1))
  call flush = answer flag (RaftLog.flush st nu)
  call next_slot = answer index (RaftLog.next_slot st nu)
  call start_index = answer index (RaftLog.start_index st nu)
  call last_entry = answer entry (RaftLog.last_entry st nu)
  call (entry_at i) = answer entry (RaftLog.entry_at st nu (i + 1))
  call (log_entries i j) = answer entries (RaftLog.log_entries st nu (i + 1) (j + 1))

  -- The calls one after the other; an exception goes to the caller, who goes on.
  unfoldable pub call_run :
      List Call → HomeRaftLogStore S → List (Result Reply) × HomeRaftLogStore S
  call_run [] r = ([], r)
  call_run (c ∷ cs) r =
      let (a, r') = call c r in let (rest, r'') = call_run cs r' in (a ∷ rest, r'')
