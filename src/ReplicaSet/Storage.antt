-- ===== src/ReplicaSet/Storage.antt =====
-- ReplicaSet::write with the pbas that its state machine store allocates.
use home_replication.Base.{ℕ, ◌+◌, ◌%◌, ◌^◌, ◌<◌, ◌≡◌, refl, List, [], length, arith}
use home_replication.Base.Int.{pos}
use home_replication.Base.Exec.{Result, ok, Exec, lift, ◌>>=◌}
use home_replication.Bytes.{Bytes}
use home_replication.HomeStore.{HomeLogStore}
use home_replication.StateStore
use home_replication.StateStore.{HomeStateMachineStore}
use home_replication.SmStore.{StateMachineStore}
use home_replication.SmStore.Home.{home_store}
use home_replication.ReplicaSet.{ReplReq, entry_of, total_size, write}
use home_replication.Serializer.Steps.{slice}
use home_replication.ReplicaSet.Journal.{entry_size, journal_lem}

-- `size` is the size that the sg_list of the value notes.
unfoldable pub write_to :
    {T : Type 0}
    → StateMachineStore T
    → (ℕ → Result Bytes)
    → Bytes
    → Bytes
    → List Bytes
    → ℕ
    → ℕ
    → Exec T (ReplReq × Bytes)
write_to store alloc header key value size user_ctx = do
  pbas ← store.alloc_pbas (size % 2 ^ 32)
  lift (write alloc pbas header key value user_ctx)

-- Where nuraft's allocation gives a buffer of the size of the entry, and the header and the
-- key leave the entry below 2 ^ 32 bytes, `write` of a replica set over a HomeStateMachineStore
-- leaves the store as it was and makes a journal entry of exactly its `total_size` that has the
-- header and the key where the size fields say and names no pbas, whatever the value is.
home_write_lem :
    {S : Type 0} (st : HomeLogStore S) (alloc : ℕ → Result Bytes) (memory header key : Bytes)
    (value : List Bytes) (size user_ctx : ℕ) (r : HomeStateMachineStore S)
    → alloc (entry_size [] header key) ≡ ok memory
    → length memory ≡ entry_size [] header key
    → 32 + length header + length key < 2 ^ 32
    → (req : ReplReq) × (b : Bytes) × (write_to
          (home_store st)
          alloc
          header
          key
          value
          size
          user_ctx
          r
        ≡ (ok (req, b), r))
      × (length b ≡ total_size (entry_of b))
      × ((entry_of b).n_pbas ≡ 0)
      × (slice b 32 (entry_of b).user_header_size ≡ header)
      × (slice b (32 + (entry_of b).user_header_size) (entry_of b).key_size ≡ key)
unfolding write_to StateStore.alloc_pbas
home_write_lem st alloc memory header key value size user_ctx r allocated sized fits =
    let req : ReplReq = record {
      header = header;
      key = key;
      value = value;
      user_ctx = user_ctx;
      lsn = pos 0;
    } in
    let (b, run, len, code, count, header_at, key_at) =
      journal_lem alloc memory [] header key value user_ctx allocated sized (omega arith)
        (omega arith) in
    (req, b, rw run refl, len, count, header_at, key_at)
