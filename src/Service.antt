-- ===== src/Service.antt =====
-- ReplicationService of lib/service/repl_service.cpp: the replica sets by their uuid. A pointer to a
-- replica set is its place in the list of the objects that were made. Here one thread runs alone;
-- Service.Threads has several.
pub mod Lock
pub mod Sets
pub mod Several
pub mod Tests
pub mod Threads
use home_replication.Base.{
  ℕ, zero, suc, Bool, true, false, Option, none, some, List, [], ◌∷◌, ◌++◌, if◌then◌else◌, length,
}
use home_replication.Base.Exec.{
  Result, ok, err, runtime_error, assertion, Exec, pure, lift, ◌>>=◌, ◌>>◌,
}
use home_replication.Bytes.{Bytes}
use home_replication.Maps.{find, insert}
use home_replication.ReplicaSet.{ReplicaSet, replica_set, attach_listener}

pub data BackendImpl : Type 0 where
  homestore : BackendImpl
  jungle : BackendImpl

-- ReplicationServiceBackend: what its two functions return, or throw.
pub record ReplicationServiceBackend (Sms Rls : Type 0) : Type 0 where
  pub create_state_store : ℕ → Result Sms
  pub create_log_store : Result Rls

pub record ReplicationService (Sms Rls L : Type 0) : Type 0 where
  pub rs_map : List (ℕ × ℕ)
  pub objects : List (ReplicaSet Sms Rls L)

-- An object in place of the one at the pointer, made from it.
unfoldable pub modify : {A : Type 0} → ℕ → (A → A) → List A → List A
modify p f [] = []
modify zero f (x ∷ xs) = f x ∷ xs
modify (suc p) f (x ∷ xs) = x ∷ modify p f xs

-- The callback of `iterate_replica_sets` works on the caller's state.
abbrev pub visit_sets : {B : Type 0} → (ℕ → B → B) → List (ℕ × ℕ) → B → B
visit_sets cb [] acc = acc
visit_sets cb ((uuid, rs) ∷ sets) acc = visit_sets cb sets (cb rs acc)

abbrev pub Svc : Type 0 → Type 0 → Type 0 → Type 0 → Type 0
Svc Sms Rls L A = Exec (ReplicationService Sms Rls L) A

module _ {Sms Rls L : Type 0} where
  -- The constructor.
  unfoldable pub construct : BackendImpl → Result (ReplicationService Sms Rls L)
  construct homestore = ok (record { rs_map = []; objects = [] })
  construct jungle = err runtime_error

  unfoldable pub lookup_replica_set : ℕ → Svc Sms Rls L (Option ℕ)
  lookup_replica_set uuid svc = (ok (find uuid svc.rs_map), svc)

  make_shared : ReplicaSet Sms Rls L → Svc Sms Rls L ℕ
  make_shared rs svc = (ok (length svc.objects), record svc { objects = svc.objects ++ (rs ∷ []) })

  insert_set : ℕ → ℕ → Svc Sms Rls L (Unit {0})
  insert_set uuid rs svc = (ok tt, record svc { rs_map = insert uuid rs svc.rs_map })

  attach : ℕ → L → Svc Sms Rls L (Unit {0})
  attach rs listener svc =
      (ok tt, record svc { objects = modify rs (attach_listener listener) svc.objects })

  -- `assert(0)`, which a build with NDEBUG leaves out, where the set exists.
  abbrev pub check_new : Bool → Option ℕ → Svc Sms Rls L (Unit {0})
  check_new ndebug none svc = (ok tt, svc)
  check_new true (some rs) svc = (ok tt, svc)
  check_new false (some rs) svc = (err assertion, svc)

  -- The service's own members and the user's: the text of a uuid, the backend, and the callback
  -- that makes a listener.
  module _ (ndebug : Bool) (to_string : ℕ → Bytes) (on_rs_init : ℕ → Result L) where
    unfoldable pub on_replica_store_found : ℕ → Sms → Rls → Svc Sms Rls L (Unit {0})
    unfolding make_shared insert_set attach
    on_replica_store_found uuid sm_store log_store = do
      found ← lookup_replica_set uuid
      check_new ndebug found
      rs ← make_shared (replica_set (to_string uuid) sm_store log_store)
      insert_set uuid rs
      listener ← lift (on_rs_init rs)
      attach rs listener

    unfoldable pub create_replica_set : ReplicationServiceBackend Sms Rls → ℕ → Svc Sms Rls L ℕ
    unfolding make_shared insert_set attach
    create_replica_set backend uuid = do
      found ← lookup_replica_set uuid
      check_new ndebug found
      sm_store ← lift (backend.create_state_store uuid)
      log_store ← lift backend.create_log_store
      rs ← make_shared (replica_set (to_string uuid) sm_store log_store)
      insert_set uuid rs
      listener ← lift (on_rs_init rs)
      attach rs listener
      pure rs

  unfoldable pub iterate_replica_sets : {B : Type 0} → (ℕ → B → B) → B → Svc Sms Rls L B
  iterate_replica_sets cb acc svc = (ok (visit_sets cb svc.rs_map acc), svc)
