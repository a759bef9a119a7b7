-- ===== src/StateStore.antt =====
-- HomeStateMachineStore of lib/storage/home_storage_engine.{h,cpp}: the superblock of a replica set
-- and the log of its free pba records. Logging and the lock of the superblock are left out.
pub mod Pbas
pub mod Records
pub mod Walk
use home_replication.Base.{
  ℕ, zero, suc, ◌+◌, ◌*◌, ◌%◌, ◌^◌, ◌++◌, Bool, true, false, Option, none, some, List, [], ◌∷◌, ltb,
  ◌==◌, if◌then◌else◌, length, take, drop,
}
use home_replication.Base.Int.{ℤ, pos, negsuc, ◌+ℤ◌, ◌-ℤ◌, ltb_ℤ}
use home_replication.Base.Exec.{
  Result, ok, err, runtime_error, null_pointer, bad_access, assertion, Exec, pure, ◌>>=◌, ◌>>◌,
}
use home_replication.Bytes.{Bytes, le_bytes, le_value}
use home_replication.HomeStore.{HomeLogStore, Visitor}

abbrev pub to_store_lsn : ℤ → ℤ
to_store_lsn raft_lsn = raft_lsn -ℤ pos 1

abbrev pub to_repl_lsn : ℤ → ℤ
to_repl_lsn store_lsn = store_lsn +ℤ pos 1

-- The fields of home_rs_superblk; a uuid is the number of its 16 bytes.
pub record HomeRsSuperblk : Type 0 where
  pub magic : ℕ
  pub version : ℕ
  pub uuid : ℕ
  pub free_pba_store_id : ℕ
  pub data_journal_id : ℕ
  pub commit_lsn : ℤ
  pub checkpoint_lsn : ℤ

abbrev pub replica_set_sb_magic : ℕ
replica_set_sb_magic = 0xABCDF00D

abbrev pub replica_set_sb_version : ℕ
replica_set_sb_version = 1

-- `sb_on_disk` is what `m_sb.write()` wrote last.
pub record HomeStateMachineStore (S : Type 0) : Type 0 where
  pub free_pba_store : Option S
  pub sb : HomeRsSuperblk
  pub sb_on_disk : Option HomeRsSuperblk
  pub sb_in_mem : HomeRsSuperblk
  pub last_write_lsn : ℤ

abbrev concat_pbas : List ℕ → Bytes
concat_pbas [] = []
concat_pbas (pba ∷ pbas) = le_bytes 8 pba ++ concat_pbas pbas

-- A free pba record: the number of pbas in 4 bytes, then each in 8. The size of the buffer is a
-- uint32_t; where it wraps the pbas are written outside.
unfoldable pub encode_pbas : List ℕ → Result Bytes
encode_pbas pbas =
    let size_needed : ℕ = (4 + length pbas * 8) % 2 ^ 32 in
    if ltb size_needed (4 + length pbas * 8)
    then err bad_access
    else ok (le_bytes 4 (length pbas % 2 ^ 32) ++ concat_pbas pbas)

read_pbas : ℕ → Bytes → Result (List ℕ)
read_pbas zero raw = ok []
read_pbas (suc n) raw =
    let rest = read_pbas n (drop 8 raw) in
    if ltb (length raw) 8
    then err bad_access
    else (elim rest [ ok plist ↦ ok (le_value (take 8 raw) ∷ plist) | err e ↦ err e ])

unfoldable pub decode_pbas : Bytes → Result (List ℕ)
unfolding read_pbas
decode_pbas entry =
    if ltb (length entry) 4
    then err bad_access
    else read_pbas (le_value (take 4 entry)) (drop 4 entry)

-- The listener of `get_free_pba_records`, over the caller's state.
abbrev pub Callback : Type 0 → Type 0
Callback B = ℤ → List ℕ → B → B

module _ {S : Type 0} (st : HomeLogStore S) where
  abbrev pub Store : Type 0 → Type 0
  Store A = Exec (HomeStateMachineStore S) A

  abbrev pub query : {A : Type 0} → (S → Result A) → Store A
  query f r = elim r.free_pba_store [ none ↦ (err null_pointer, r) | some s ↦ (f s, r) ]

  abbrev pub update : (S → S) → Store (Unit {0})
  update f r = elim r.free_pba_store [
    | none ↦ (err null_pointer, r)
    | some s ↦ (ok tt, record r { free_pba_store = some (f s) })
  ]

  -- The constructor for a new replica set, from what `superblk::create` leaves in the superblock and
  -- from the store, or null, that `create_new_log_store` gives.
  unfoldable pub create : HomeRsSuperblk → ℕ → Option S → Result (HomeStateMachineStore S)
  create created rs_uuid none = err runtime_error
  create created rs_uuid (some s) =
      let sb : HomeRsSuperblk = record created {
        uuid = rs_uuid;
        free_pba_store_id = st.get_store_id s;
      } in
      ok (record {
        free_pba_store = some s;
        sb = sb;
        sb_on_disk = some sb;
        sb_in_mem = sb;
        last_write_lsn = pos 0;
      })

  -- The constructor for a superblock that was found: the object, and the id of the store that is to
  -- be opened, which will call `on_store_created`.
  unfoldable pub open_existing : HomeRsSuperblk → HomeStateMachineStore S × ℕ
  open_existing rs_sb =
      let store : HomeStateMachineStore S = record {
        free_pba_store = none;
        sb = rs_sb;
        sb_on_disk = some rs_sb;
        sb_in_mem = rs_sb;
        last_write_lsn = pos 0;
      } in
      (store, rs_sb.free_pba_store_id)

  unfoldable pub on_store_created : S → Store (Unit {0})
  on_store_created s r =
      if r.sb.free_pba_store_id == st.get_store_id s
      then (ok tt, record r { free_pba_store = some s })
      else (err assertion, r)

  -- The id is handed to `remove_log_store` of the log store service.
  unfoldable pub destroy : Store ℕ
  destroy r = (ok r.sb.free_pba_store_id, record r { free_pba_store = none })

  -- These four have no code yet in the source: no pba is allocated, and no callback is called.
  unfoldable pub alloc_pbas : ℕ → Store (List ℕ)
  alloc_pbas size = pure []

  unfoldable pub async_write : {B : Type 0} → List Bytes → List ℕ → (ℤ → B → B) → B → Store B
  async_write sgs in_pbas cb acc = pure acc

  unfoldable pub async_read : {B : Type 0} → ℕ → List Bytes → ℕ → (ℤ → B → B) → B → Store B
  async_read pba sgs size cb acc = pure acc

  unfoldable pub free_pba : ℕ → Store (Unit {0})
  free_pba pba = pure tt

  unfoldable pub commit_lsn : ℤ → Store (Unit {0})
  commit_lsn lsn r = (ok tt, record r { sb_in_mem = record r.sb_in_mem { commit_lsn = lsn } })

  unfoldable pub get_last_commit_lsn : Store ℤ
  get_last_commit_lsn r = (ok r.sb_in_mem.commit_lsn, r)

  unfoldable pub add_free_pba_record : ℤ → List ℕ → Store (Unit {0})
  add_free_pba_record lsn pbas = do
    b ← (λ r. (encode_pbas pbas, r))
    (λ r. (ok tt, record r { last_write_lsn = lsn }))
    update (λ s. st.write_async s (to_store_lsn lsn) b)

  -- The lambda of `get_free_pba_records`; a record that is too short ends the walk.
  unfoldable pub deliver_record : {B : Type 0} → ℤ → Callback B → Visitor (Result B)
  deliver_record end_lsn cb lsn entry (err e) = (false, err e)
  deliver_record end_lsn cb lsn entry (ok acc) =
      let rlsn : ℤ = to_repl_lsn lsn in
      let more : Bool = ltb_ℤ rlsn (end_lsn -ℤ pos 1) in
      if ltb_ℤ rlsn end_lsn
      then (elim (decode_pbas entry) [
        | ok plist ↦ (more, ok (cb rlsn plist acc))
        | err e ↦ (false, err e)
      ])
      else (more, ok acc)

  unfoldable pub get_free_pba_records : {B : Type 0} → ℤ → ℤ → Callback B → B → Store B
  get_free_pba_records {B} start_lsn end_lsn cb acc =
      query
        (λ s. st.foreach (Result B) s (to_store_lsn start_lsn) (deliver_record end_lsn cb) (ok acc))

  unfoldable pub remove_free_pba_records_upto : ℤ → Store (Unit {0})
  remove_free_pba_records_upto lsn = do
    update (λ s. st.truncate s (to_store_lsn lsn))
    (λ r. (ok tt, record r { last_write_lsn = pos 0 }))

  is_zero : ℤ → Bool
  is_zero (pos n) = n == 0
  is_zero (negsuc n) = false

  unfoldable pub flush_free_pba_records : Store (Unit {0})
  unfolding is_zero
  flush_free_pba_records r =
      update
        (λ s.
          st.flush_sync s
            (if is_zero r.last_write_lsn then st.invalid_lsn else to_store_lsn r.last_write_lsn))
        r
