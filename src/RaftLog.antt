-- ===== src/RaftLog.antt =====
-- HomeRaftLogStore of lib/log_store/home_raft_log_store.{h,cpp}: the raft log over a HomeLogStore.
-- Raft indexes count from 1 and store sequence numbers from 0. Indexes are uint64_t, sequence
-- numbers int64_t; logging is left out.
pub mod Codec
pub mod Durable
pub mod Pack
pub mod Replica
pub mod Represents
pub mod Tests
pub mod Compact
pub mod Ranges
pub mod Reads
pub mod Appends
pub mod Calls
use Prim.Native.Nat.{max}
use home_replication.Base.{
  ℕ, zero, suc, ◌+◌, ◌-◌, ◌*◌, ◌%◌, ◌^◌, ◌++◌, Bool, true, false, Option, none, some, List, [], ◌∷◌,
  ltb, ◌==◌, if◌then◌else◌, length, take, drop,
}
use home_replication.Base.Int.{
  ℤ, pos, negsuc, pos_part, to_int, to_uint, ◌+ℤ◌, ◌-ℤ◌, ltb_ℤ, leb_ℤ, max_ℤ,
}
use home_replication.Base.Exec.{
  Error, Result, ok, err, out_of_range, overflow_error, runtime_error, exception, null_pointer,
  bad_access, Exec, pure, throw, lift, ◌>>=◌, ◌>>◌,
}
use home_replication.Bytes.{Bytes, le_value}
use home_replication.Serializer
use home_replication.Serializer.{serializer, get_u64}
use home_replication.HomeStore.{HomeLogStore, Visitor}
use home_replication.Nuraft.{LogEntry, Nuraft}

-- `to_store_lsn(uint64_t)` and `to_repl_lsn`.
abbrev pub to_store_lsn : ℕ → ℤ
to_store_lsn raft_lsn = to_int 64 raft_lsn -ℤ pos 1

abbrev pub to_repl_lsn : ℤ → ℤ
to_repl_lsn store_lsn = store_lsn +ℤ pos 1

-- A record shorter than its fixed fields is read outside its bytes.
unfoldable pub to_nuraft_log_entry : Bytes → Result LogEntry
to_nuraft_log_entry log_bytes =
    if ltb (length log_bytes) 9
    then err bad_access
    else ok (record {
      term = le_value (take 8 log_bytes);
      val_type = le_value (take 1 (drop 8 log_bytes));
      buf = drop 9 log_bytes;
    })

unfoldable pub extract_term : Bytes → Result ℕ
extract_term log_bytes = (get_u64 (serializer log_bytes)).0

-- `catch (const std::exception& e) { throw e; }` throws a copy of the base class only.
abbrev pub rethrow : {A : Type 0} → Result A → Result A
rethrow (ok a) = ok a
rethrow (err out_of_range) = err exception
rethrow (err overflow_error) = err exception
rethrow (err runtime_error) = err exception
rethrow (err e) = err e

-- `m_logstore_id` is not set before the store is opened or created; `m_log_store` may be null.
pub record HomeRaftLogStore (S : Type 0) : Type 0 where
  pub logstore_id : Option ℕ
  pub log_store : Option S
  pub dummy_log_entry : LogEntry

-- sisl::io_blob over a buffer, whose size is a uint32_t.
abbrev pub io_blob : Bytes → Bytes
io_blob bs = take (length bs % 2 ^ 32) bs

abbrev pub uint32_max : ℕ
uint32_max = 2 ^ 32 - 1

module _ {S : Type 0} (st : HomeLogStore S) (nu : Nuraft) where
  abbrev pub Raft : Type 0 → Type 0
  Raft A = Exec (HomeRaftLogStore S) A

  -- `m_log_store->f(...)`, for a function that only reads and for one that writes.
  abbrev pub query : {A : Type 0} → (S → Result A) → Raft A
  query f r = elim r.log_store [ none ↦ (err null_pointer, r) | some s ↦ (f s, r) ]

  abbrev pub update : {A : Type 0} → (S → A × S) → Raft A
  update f r = elim r.log_store [
    | none ↦ (err null_pointer, r)
    | some s ↦ (ok (f s).0, record r { log_store = some (f s).1 })
  ]

  abbrev pub issued : Raft ℤ
  issued = query (λ s. ok (st.get_contiguous_issued_seq_num s (negsuc 0)))

  -- The constructor: the object, and the id of the store that it asks the log store service to
  -- open, which will call `on_store_created`.
  unfoldable pub construct : ℕ → HomeRaftLogStore S × Option ℕ
  construct logstore_id =
      let fresh : HomeRaftLogStore S = record {
        logstore_id = none;
        log_store = none;
        dummy_log_entry = record { term = 0; val_type = nu.app_log; buf = [] };
      } in
      (fresh, if logstore_id == uint32_max then none else some logstore_id)

  unfoldable pub on_store_created : S → Raft (Unit {0})
  on_store_created s r =
      (ok tt, record r { log_store = some s; logstore_id = some (st.get_store_id s) })

  -- `create_new_log_store` gives a store, or null.
  unfoldable pub create_store : Option S → Raft (Unit {0})
  create_store none r = (err runtime_error, record r { log_store = none })
  create_store (some s) r = on_store_created s (record r { log_store = some s })

  -- The id is handed to `remove_log_store` of the log store service.
  unfoldable pub remove_store : Raft (Option ℕ)
  remove_store r = (ok r.logstore_id, record r { log_store = none })

  unfoldable pub next_slot : Raft ℕ
  next_slot = do last ← issued; pure (to_uint 64 (to_repl_lsn last +ℤ pos 1))

  unfoldable pub start_index : Raft ℕ
  start_index = do
    upto ← query (λ s. ok (st.truncated_upto s))
    pure (to_uint 64 (max_ℤ (pos 1) (to_repl_lsn upto +ℤ pos 1)))

  -- Reads a record and converts it, within the try block of the callers.
  abbrev pub read_entry : ℤ → S → Result LogEntry
  read_entry lsn s = elim (st.read_sync s lsn) [
    | ok log_bytes ↦ to_nuraft_log_entry log_bytes
    | err e ↦ err e
  ]

  unfoldable pub last_entry : Raft LogEntry
  last_entry = do
    max_seq ← issued
    if ltb_ℤ max_seq (pos 0)
        then (λ r. (ok r.dummy_log_entry, r))
        else query (λ s. rethrow (read_entry max_seq s))

  unfoldable pub append : LogEntry → Raft ℕ
  append entry = do
    next_seq ← update (λ s. st.append_async s (io_blob (nu.serialize entry)))
    pure (to_uint 64 (to_repl_lsn next_seq))

  -- `append` is virtual: the methods that call it take the one of the object's class.
  module _ (own_append : LogEntry → Raft ℕ) where
    unfoldable pub write_at_by : ℕ → LogEntry → Raft (Unit {0})
    write_at_by index entry = do
      update (λ s. (tt, st.rollback_async s (to_store_lsn index -ℤ pos 1)))
      own_append entry
      pure tt

    -- The loop of `compact`, over the sequence numbers that are missing.
    unfoldable pub fill_by : ℕ → Raft (Unit {0})
    fill_by zero r = (ok tt, r)
    fill_by (suc n) r = (own_append r.dummy_log_entry >> fill_by n) r

    unfoldable pub compact_by : ℕ → Raft Bool
    unfolding fill_by
    compact_by compact_lsn = do
      cur_max_lsn ← issued
      if ltb_ℤ cur_max_lsn (to_store_lsn compact_lsn)
          then fill_by (pos_part (to_store_lsn compact_lsn -ℤ cur_max_lsn))
          else pure tt
      update (λ s. (tt, st.flush_sync s (to_store_lsn compact_lsn)))
      update (λ s. (tt, st.truncate s (to_store_lsn compact_lsn)))
      pure true

  unfoldable pub write_at : ℕ → LogEntry → Raft (Unit {0})
  write_at = write_at_by append

  unfoldable pub compact : ℕ → Raft Bool
  compact = compact_by append

  unfoldable pub end_of_append_batch : ℕ → ℕ → Raft (Unit {0})
  end_of_append_batch start cnt = pure tt

  -- The lambda of `log_entries`; a failed conversion ends the walk.
  unfoldable pub collect : ℕ → Visitor (Result (List LogEntry))
  collect end cur entry (err e) = (false, err e)
  collect end cur entry (ok out) =
      let more = ltb_ℤ cur (to_store_lsn end -ℤ pos 1) in
      if ltb_ℤ cur (to_store_lsn end)
      then (elim (to_nuraft_log_entry entry) [
        | ok le ↦ (more, ok (out ++ (le ∷ [])))
        | err e ↦ (false, err e)
      ])
      else (more, ok out)

  unfoldable pub log_entries : ℕ → ℕ → Raft (List LogEntry)
  log_entries start end =
      query (λ s. st.foreach (Result (List LogEntry)) s (to_store_lsn start) (collect end) (ok []))

  unfoldable pub entry_at : ℕ → Raft LogEntry
  entry_at index = query (λ s. rethrow (read_entry (to_store_lsn index) s))

  unfoldable pub term_at : ℕ → Raft ℕ
  term_at index = query (λ s. rethrow (elim (st.read_sync s (to_store_lsn index)) [
    | ok log_bytes ↦ extract_term log_bytes
    | err e ↦ err e
  ]))

  unfoldable pub flush : Raft Bool
  flush = do update (λ s. (tt, st.flush_sync s st.invalid_lsn)); pure true
