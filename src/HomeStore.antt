-- ===== src/HomeStore.antt =====
-- homestore::HomeLogStore, which the program calls and does not implement: its operations as a
-- record over the type `S` of its states, and what the program relies on as laws over a view of
-- the log. Sequence numbers are int64_t.
pub mod View
pub mod Records
pub mod Memory
pub mod MemoryRecords
pub mod Device
use home_replication.Base.{
  ℕ, zero, suc, ◌+◌, ◌≤◌, ◌<◌, ◌≡◌, Bool, Option, none, some, List, [], ◌∷◌, if◌then◌else◌, length,
}
use home_replication.Base.Int.{ℤ, pos, negsuc, last_of}
use home_replication.Base.Exec.{Result, ok, err, out_of_range}
use home_replication.Bytes.{Bytes}
use Records.{IsAscending, put, from as records_from}
use View.{LogView, next, at, appended, kept, cut, from}

-- A visitor of `foreach`: it is given a sequence number and a record, and says whether to go on.
abbrev pub Visitor : Type 0 → Type 0
Visitor B = ℤ → Bytes → B → Bool × B

pub record HomeLogStore (S : Type 0) : Type 1 where
  pub get_store_id : S → ℕ
  pub get_contiguous_issued_seq_num : S → ℤ → ℤ
  pub truncated_upto : S → ℤ
  -- throws std::out_of_range
  pub read_sync : S → ℤ → Result Bytes
  pub append_async : S → Bytes → ℤ × S
  pub write_async : S → ℤ → Bytes → S
  pub rollback_async : S → ℤ → S
  pub foreach : (B : Type 0) → S → ℤ → Visitor B → B → B
  pub flush_sync : S → ℤ → S
  pub truncate : S → ℤ → S
  -- homestore::invalid_lsn(), the default argument of `flush_sync`
  pub invalid_lsn : ℤ

-- `foreach` over consecutive records, the first of them at `n`.
unfoldable pub visit : {B : Type 0} → Visitor B → ℕ → List Bytes → B → B
visit cb n [] acc = acc
visit cb n (x ∷ xs) acc =
    let (more, acc') = cb (pos n) x acc in
    let rest = visit cb (suc n) xs acc' in if more then rest else acc'

-- A store that is only appended to: its records are consecutive, and the view tells them.
pub record AppendLog {S : Type 0} (st : HomeLogStore S) : Type 1 where
  pub view : S → LogView
  pub issued : (s : S) → st.get_contiguous_issued_seq_num s (negsuc 0) ≡ last_of (next (view s))
  pub truncated : (s : S) → st.truncated_upto s ≡ last_of (view s).first
  -- a record that is held is read back; one that is truncated or not yet there is out of range
  pub read_held :
      (s : S) (n : ℕ) (b : Bytes) → at (view s) n ≡ some b → st.read_sync s (pos n) ≡ ok b
  pub read_missing :
      (s : S) (n : ℕ) → at (view s) n ≡ none → st.read_sync s (pos n) ≡ err out_of_range
  pub read_negative : (s : S) (n : ℕ) → st.read_sync s (negsuc n) ≡ err out_of_range
  pub append_number : (s : S) (b : Bytes) → (st.append_async s b).0 ≡ pos (next (view s))
  pub append_view : (s : S) (b : Bytes) → view (st.append_async s b).1 ≡ appended (view s) b
  -- a rollback to the record before `n` keeps the records below `n`
  pub rollback_view :
      (s : S) (n : ℕ)
      → (view s).first ≤ n
      → n ≤ next (view s)
      → view (st.rollback_async s (last_of n)) ≡ kept (view s) n
  pub foreach_visit :
      (B : Type 0) (s : S) (n : ℕ) (cb : Visitor B) (acc : B)
      → (view s).first ≤ n
      → st.foreach B s (pos n) cb acc ≡ visit cb n (from (view s) n) acc
  pub flush_view : (s : S) (z : ℤ) → view (st.flush_sync s z) ≡ view s
  -- a truncation up to `n`, which is held or was truncated before
  pub truncate_view :
      (s : S) (n : ℕ) → n < next (view s) → view (st.truncate s (pos n)) ≡ cut (view s) (suc n)

-- What such a store promises of its device: `flushed s` is the number below which the records are on
-- it, and `reopened s` is the store as it is opened again after the process has crashed.
pub record DurableLog {S : Type 0} {st : HomeLogStore S} (law : AppendLog st) : Type 0 where
  pub flushed : S → ℕ
  pub reopened : S → S
  -- a flush up to a record that was issued, and a flush of everything
  pub flush_upto : (s : S) (n : ℕ) → n < next (law.view s) → n < flushed (st.flush_sync s (pos n))
  pub flush_all : (s : S) → next (law.view s) ≤ flushed (st.flush_sync s st.invalid_lsn)
  -- a crash loses no record that is held and on the device
  pub reopened_held :
      (s : S) (n : ℕ) (b : Bytes)
      → n < flushed s
      → at (law.view s) n ≡ some b
      → at (law.view (reopened s)) n ≡ some b

-- `foreach` over records with gaps.
unfoldable pub visit_records : {B : Type 0} → Visitor B → List (ℕ × Bytes) → B → B
visit_records cb [] acc = acc
visit_records cb ((n, x) ∷ xs) acc =
    let (more, acc') = cb (pos n) x acc in
    let rest = visit_records cb xs acc' in if more then rest else acc'

-- A store that is written at chosen numbers: `held` are its records, `Durable s n` says that the
-- record `n` is on the device.
pub record RecordLog {S : Type 0} (st : HomeLogStore S) : Type 1 where
  pub held : S → List (ℕ × Bytes)
  pub Durable : S → ℕ → Type 0
  pub held_ascending : (s : S) → IsAscending (held s)
  pub write_held :
      (s : S) (n : ℕ) (b : Bytes) → held (st.write_async s (pos n) b) ≡ put n b (held s)
  pub foreach_held :
      (B : Type 0) (s : S) (n : ℕ) (cb : Visitor B) (acc : B)
      → st.foreach B s (pos n) cb acc ≡ visit_records cb (records_from n (held s)) acc
  pub truncate_held : (s : S) (n : ℕ) → held (st.truncate s (pos n)) ≡ records_from (suc n) (held s)
  pub flush_held : (s : S) (z : ℤ) → held (st.flush_sync s z) ≡ held s
  -- a flush up to `n`, and a flush of everything
  pub flush_durable : (s : S) (n m : ℕ) → m ≤ n → Durable (st.flush_sync s (pos n)) m
  pub flush_all : (s : S) (m : ℕ) → Durable (st.flush_sync s st.invalid_lsn) m
