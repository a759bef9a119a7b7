-- ===== src/RaftLog/Represents.antt =====
-- The abstract view of HomeRaftLogStore: a list of log entries, the first of which has the raft
-- index `first + 1`. What is below was compacted.
use home_replication.Base.{
  ℕ, ◌+◌, ◌-◌, ◌%◌, ◌^◌, ◌<◌, ◌≡◌, ◌∙◌, ap, sym, ◌++◌, ◌∷◌, [], List, map, Option, some, arith,
  length, take, drop, All, take-length, take-map, drop-map, length-map, All-append, length-append,
}
use mathlib.Core.List.{map-append}
use Prim.Native.Nat.{max}
use home_replication.Base.Int.{ℤ, pos, last_of, to_int, ◌-ℤ◌}
use home_replication.Bytes.{Bytes}
use home_replication.HomeStore.{HomeLogStore, AppendLog}
use home_replication.HomeStore.View.{LogView, next, appended, kept, cut}
use home_replication.Nuraft.{LogEntry, Nuraft}
use home_replication.RaftLog.{HomeRaftLogStore, to_store_lsn, io_blob}
use home_replication.RaftLog.Codec.{IsEntry}

-- An object whose store is open.
abbrev pub opened : {S : Type 0} → Option ℕ → LogEntry → S → HomeRaftLogStore S
opened id dummy s = record { logstore_id = id; log_store = some s; dummy_log_entry = dummy }

module _ {S : Type 0} {st : HomeLogStore S} (nu : Nuraft) (law : AppendLog st) where
  abbrev pub log_view : ℕ → List LogEntry → LogView
  log_view first es = record { first = first; entries = map nu.serialize es }

  -- The store holds the entries `es`, and the raft indexes stay far below 2 ^ 63.
  pub record Represents (s : S) (first : ℕ) (es : List LogEntry) : Type 0 where
    pub shows : law.view s ≡ log_view first es
    pub entries : All (IsEntry nu) es
    pub bounded : first + length es + 2 < 2 ^ 63

module _ {S : Type 0} {st : HomeLogStore S} (nu : Nuraft) (law : AppendLog st) where
  pub appended_view :
      (first : ℕ) (es : List LogEntry) (e : LogEntry)
      → appended (log_view nu law first es) (nu.serialize e)
        ≡ log_view nu law first (es ++ (e ∷ []))
  unfolding appended
  appended_view first es e =
      ap (λ l. record { first = first; entries = l }) (sym (map-append nu.serialize es (e ∷ [])))

  pub kept_view :
      (first : ℕ) (es : List LogEntry) (n : ℕ)
      → kept (log_view nu law first es) n ≡ log_view nu law first (take (n - first) es)
  unfolding kept
  kept_view first es n =
      ap (λ l. record { first = first; entries = l }) (take-map nu.serialize (n - first) es)

  pub cut_view :
      (first : ℕ) (es : List LogEntry) (n : ℕ)
      → cut (log_view nu law first es) n ≡ log_view nu law (max first n) (drop (n - first) es)
  unfolding cut
  cut_view first es n =
      ap (λ l. record { first = max first n; entries = l }) (drop-map nu.serialize (n - first) es)

  module _ {s : S} {first : ℕ} {es : List LogEntry} (rep : Represents nu law s first es) where
    pub next_of : next (law.view s) ≡ first + length es
    next_of = rw rep.shows (omega (arith, length-map nu.serialize es))

    pub first_of : (law.view s).first ≡ first
    first_of = ap (λ (v : LogView). v.first) rep.shows

module _ {S : Type 0} (st : HomeLogStore S) (nu : Nuraft) (law : AppendLog st) where
  -- One more record, at the end.
  pub Represents-append :
      (s : S) (first : ℕ) (es : List LogEntry) (e : LogEntry)
      → Represents nu law s first es
      → IsEntry nu e
      → first + length es + 3 < 2 ^ 63
      → Represents nu law (st.append_async s (nu.serialize e)).1 first (es ++ (e ∷ []))
  Represents-append s first es e rep he room = record {
    shows =
        law.append_view s (nu.serialize e)
        ∙ ap (λ v. appended v (nu.serialize e)) rep.shows
        ∙ appended_view nu law first es e;
    entries = All-append (IsEntry nu) es (e ∷ []) rep.entries (he, tt);
    bounded = omega (arith, length-append es (e ∷ []));
  }

  -- A flush changes no record.
  pub Represents-flush :
      (s : S) (first : ℕ) (es : List LogEntry) (z : ℤ)
      → Represents nu law s first es
      → Represents nu law (st.flush_sync s z) first es
  Represents-flush s first es z rep = record {
    shows = law.flush_view s z ∙ rep.shows;
    entries = rep.entries;
    bounded = rep.bounded;
  }

-- Raft indexes and store numbers, in the range where no cast wraps.
pub store_lsn_of : (n : ℕ) → n + 1 < 2 ^ 63 → to_store_lsn (n + 1) ≡ pos n
store_lsn_of n h = ground arith

pub store_lsn-before : (n : ℕ) → n + 1 < 2 ^ 63 → to_int 64 (n + 1) -ℤ pos 1 -ℤ pos 1 ≡ last_of n
store_lsn-before n h = ground arith

pub io_blob-small : (bs : Bytes) → length bs < 2 ^ 32 → io_blob bs ≡ bs
io_blob-small bs h = take-length (length bs % 2 ^ 32) bs (omega arith)
