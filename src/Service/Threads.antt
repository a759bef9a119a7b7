-- ===== src/Service/Threads.antt =====
-- create_replica_set, on_replica_store_found and lookup_replica_set of lib/service/repl_service.cpp
-- on several threads. The lookup and the insertion take the lock of the map each on its own, so that
-- another thread may run between them: a thread stands between two parts of its function, and a step
-- runs one part of one thread.
pub mod Adds
pub mod Creates
pub mod Keeps
pub mod Progress
pub mod Race
pub mod Safety
pub mod Tests
pub mod Turns
use home_replication.Base.{
  ℕ, Bool, Option, some, List, [], ◌∷◌, ◌≡◌, get_elem?, map, zero, suc, replicate, ◌++◌,
}
use home_replication.Base.Exec.{Result, ok, err, Error, pure, lift, ◌>>=◌, ◌>>◌}
use home_replication.Bytes.{Bytes}
use home_replication.ReplicaSet.{replica_set}
use home_replication.Service.{
  ReplicationService, ReplicationServiceBackend, Svc, modify, lookup_replica_set, check_new,
  make_shared, insert_set, attach,
}

-- Where a thread stands: in create_replica_set from `started` on, in on_replica_store_found from
-- `recovering` on, and in lookup_replica_set from `looking` on. After the check, the first two go on
-- in the same way, with the pointer from the construction on.
pub data Thread (Sms Rls L : Type 0) : Type 0 where
  started : ℕ → Thread Sms Rls L
  checked : ℕ → Thread Sms Rls L
  constructed : ℕ → ℕ → Thread Sms Rls L
  inserted : ℕ → Thread Sms Rls L
  called : ℕ → L → Thread Sms Rls L
  returned : ℕ → Thread Sms Rls L
  failed : Error → Thread Sms Rls L
  recovering : ℕ → Sms → Rls → Thread Sms Rls L
  rechecked : ℕ → Sms → Rls → Thread Sms Rls L
  looking : ℕ → Thread Sms Rls L
  looked : Option ℕ → Thread Sms Rls L

abbrev pub outcome : {Sms Rls L : Type 0} → Result (Thread Sms Rls L) → Thread Sms Rls L
outcome (ok t) = t
outcome (err e) = failed e

pub record World (Sms Rls L : Type 0) : Type 0 where
  pub threads : List (Thread Sms Rls L)
  pub service : ReplicationService Sms Rls L

module _ {Sms Rls L : Type 0} (ndebug : Bool) (to_string : ℕ → Bytes) (on_rs_init : ℕ → Result L)
    (backend : ReplicationServiceBackend Sms Rls) where
  -- The next part of the function.
  unfoldable pub run_part : Thread Sms Rls L → Svc Sms Rls L (Thread Sms Rls L)
  unfolding make_shared insert_set attach
  run_part (started uuid) = do
    found ← lookup_replica_set uuid
    check_new ndebug found
    pure (checked uuid)
  run_part (checked uuid) = do
    sm_store ← lift (backend.create_state_store uuid)
    log_store ← lift backend.create_log_store
    rs ← make_shared (replica_set (to_string uuid) sm_store log_store)
    pure (constructed uuid rs)
  run_part (constructed uuid rs) = do insert_set uuid rs; pure (inserted rs)
  run_part (inserted rs) = do listener ← lift (on_rs_init rs); pure (called rs listener)
  run_part (called rs listener) = do attach rs listener; pure (returned rs)
  run_part (returned rs) = pure (returned rs)
  run_part (failed e) = pure (failed e)
  run_part (recovering uuid sm_store log_store) = do
    found ← lookup_replica_set uuid
    check_new ndebug found
    pure (rechecked uuid sm_store log_store)
  run_part (rechecked uuid sm_store log_store) = do
    rs ← make_shared (replica_set (to_string uuid) sm_store log_store)
    pure (constructed uuid rs)
  run_part (looking uuid) = do found ← lookup_replica_set uuid; pure (looked found)
  run_part (looked found) = pure (looked found)

  unfoldable pub advance :
      Thread Sms Rls L
      → ReplicationService Sms Rls L
      → Thread Sms Rls L × ReplicationService Sms Rls L
  advance t svc = let (r, svc') = run_part t svc in (outcome r, svc')

  -- A thread that runs on its own.
  unfoldable pub run_alone :
      ℕ
      → Thread Sms Rls L
      → ReplicationService Sms Rls L
      → Thread Sms Rls L × ReplicationService Sms Rls L
  run_alone zero t svc = (t, svc)
  run_alone (suc n) t svc = let (t', svc') = advance t svc in run_alone n t' svc'

  -- The world after the thread at the place `i` ran its next part.
  abbrev pub moved : World Sms Rls L → ℕ → Thread Sms Rls L → World Sms Rls L
  moved w i t = record {
    threads = modify i (λ _. (advance t w.service).0) w.threads;
    service = (advance t w.service).1;
  }

  infix 40 ◌⟶◌ ◌⟶*◌
  pub data ◌⟶◌ : World Sms Rls L → World Sms Rls L → Type 0 where
    step :
        (w : World Sms Rls L) (i : ℕ) (t : Thread Sms Rls L)
        → get_elem? w.threads i ≡ some t
        → w ⟶ moved w i t

  pub data ◌⟶*◌ : World Sms Rls L → World Sms Rls L → Type 0 where
    here : {w : World Sms Rls L} → w ⟶* w
    then : {u v w : World Sms Rls L} → u ⟶ v → v ⟶* w → u ⟶* w
