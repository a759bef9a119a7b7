-- ===== src/Service/Threads/Race.antt =====
-- One thread on its own, and two threads that create a set of the same uuid.
use home_replication.Base.{
  Option, ℕ, ◌+◌, Bool, none, some, List, [], ◌∷◌, ◌++◌, ◌≡◌, refl, length, length-append, ◌≢◌,
  arith,
}
use home_replication.Base.Exec.{Result, ok, err}
use home_replication.Bytes.{Bytes}
use home_replication.Maps.{find, insert, find-insert_old, find-insert_new, insert-IsAscending}
use home_replication.HomeStore.Records.{IsAscending}
use home_replication.ReplicaSet.{ReplicaSet, replica_set, attach_listener}
use home_replication.Service.{
  ReplicationService, ReplicationServiceBackend, create_replica_set, on_replica_store_found,
  lookup_replica_set, modify,
}
use home_replication.Service.Threads.{
  Thread, started, checked, constructed, inserted, called, returned, failed, recovering, World,
  run_part, advance, run_alone, moved, ◌⟶◌, ◌⟶*◌, step, here, then,
}

-- The thread at the end of the function.
abbrev pub finished : {Sms Rls L : Type 0} → Result ℕ → Thread Sms Rls L
finished (ok rs) = returned rs
finished (err e) = failed e

-- What a function without a result has given to its caller at the end of the thread.
abbrev pub finished_void : {Sms Rls L : Type 0} → Thread Sms Rls L → Option (Result (Unit {0}))
finished_void (returned rs) = some (ok tt)
finished_void (failed e) = some (err e)
finished_void t = none

abbrev pub ended :
    {Sms Rls L : Type 0}
    → Thread Sms Rls L × ReplicationService Sms Rls L
    → Option (Result (Unit {0})) × ReplicationService Sms Rls L
ended (t, svc) = (finished_void t, svc)

abbrev pub two_threads :
    {Sms Rls L : Type 0}
    → Thread Sms Rls L
    → Thread Sms Rls L
    → ReplicationService Sms Rls L
    → World Sms Rls L
two_threads t u svc = record { threads = t ∷ u ∷ []; service = svc }

module _ {Sms Rls L : Type 0} (ndebug : Bool) (to_string : ℕ → Bytes) (on_rs_init : ℕ → Result L)
    (backend : ReplicationServiceBackend Sms Rls) where
  -- A thread that runs alone is at the end of `create_replica_set`, or of `on_replica_store_found`,
  -- after five parts, with the result, or the error, and the service that the function as a whole
  -- gives.
  alone_lem :
      (uuid : ℕ) (sm_store : Sms) (log_store : Rls) (svc : ReplicationService Sms Rls L)
      → (run_alone ndebug to_string on_rs_init backend 5 (started uuid) svc ≡ (
        finished (create_replica_set ndebug to_string on_rs_init backend uuid svc).0,
        (create_replica_set ndebug to_string on_rs_init backend uuid svc).1,
      ))
        × (ended (
              run_alone ndebug to_string on_rs_init backend 5
                (recovering uuid sm_store log_store)
                svc)
            ≡ (
              some
                  (on_replica_store_found ndebug to_string on_rs_init uuid sm_store log_store
                    svc).0,
              (on_replica_store_found ndebug to_string on_rs_init uuid sm_store log_store svc).1,
            ))
  unfolding run_alone create_replica_set on_replica_store_found advance run_part
  alone_lem uuid sm_store log_store svc = (ground arith, ground arith)

  infix 40 ◌⟹◌ ◌⟹*◌
  abbrev ◌⟹◌ : World Sms Rls L → World Sms Rls L → Type 0
  u ⟹ v = ◌⟶◌ ndebug to_string on_rs_init backend u v

  abbrev ◌⟹*◌ : World Sms Rls L → World Sms Rls L → Type 0
  u ⟹* v = ◌⟶*◌ ndebug to_string on_rs_init backend u v

  -- A step of the first thread, and of the second, by what the part of the function gives.
  first_moves :
      (t t' u : Thread Sms Rls L) (svc svc' : ReplicationService Sms Rls L) (w : World Sms Rls L)
      → advance ndebug to_string on_rs_init backend t svc ≡ (t', svc')
      → two_threads t' u svc' ⟹* w
      → two_threads t u svc ⟹* w
  unfolding modify
  first_moves t t' u svc svc' w run rest =
      let move : two_threads t u svc
          ⟹ moved ndebug to_string on_rs_init backend (two_threads t u svc) 0 t =
        step (two_threads t u svc) 0 t refl in
      then (rw run at move) rest

  second_moves :
      (t u u' : Thread Sms Rls L) (svc svc' : ReplicationService Sms Rls L) (w : World Sms Rls L)
      → advance ndebug to_string on_rs_init backend u svc ≡ (u', svc')
      → two_threads t u' svc' ⟹* w
      → two_threads t u svc ⟹* w
  unfolding modify
  second_moves t u u' svc svc' w run rest =
      let move : two_threads t u svc
          ⟹ moved ndebug to_string on_rs_init backend (two_threads t u svc) 1 u =
        step (two_threads t u svc) 1 u refl in
      then (rw run at move) rest

  -- On a service whose map is in order, let two threads call `create_replica_set` of a uuid that is
  -- not in the map, where the backend makes both stores and the callback a listener for each. There
  -- is an order of their steps in which both return, with or without assertions, and with different
  -- pointers, of which a lookup of the uuid gives the first.
  pub both_pass :
      (uuid : ℕ) (svc : ReplicationService Sms Rls L) (sm_store : Sms) (log_store : Rls) (l l' : L)
      → IsAscending svc.rs_map
      → find uuid svc.rs_map ≡ none
      → backend.create_state_store uuid ≡ ok sm_store
      → backend.create_log_store ≡ ok log_store
      → on_rs_init (length svc.objects) ≡ ok l
      → on_rs_init (length svc.objects + 1) ≡ ok l'
      → (svc' : ReplicationService Sms Rls L) × (p : ℕ) × (q : ℕ) × (two_threads
            (started uuid)
            (started uuid)
            svc
          ⟹* two_threads (returned p) (returned q) svc')
        × (p ≢ q)
        × (lookup_replica_set uuid svc' ≡ (ok (some p), svc'))
  unfolding advance run_part lookup_replica_set
  both_pass uuid svc sm_store log_store l l' asc fresh made_state made_log init init' =
      let raw : ReplicaSet Sms Rls L = replica_set (to_string uuid) sm_store log_store in
      let p : ℕ = length svc.objects in
      let one : List (ReplicaSet Sms Rls L) = svc.objects ++ (raw ∷ []) in
      let q : ℕ = length one in
      let two : List (ReplicaSet Sms Rls L) = one ++ (raw ∷ []) in
      let next : q ≡ p + 1 = omega (arith, length-append svc.objects (raw ∷ [])) in
      let sets : List (ℕ × ℕ) = insert uuid p svc.rs_map in
      let sets' : List (ℕ × ℕ) = insert uuid q sets in
      let s1 : ReplicationService Sms Rls L = record svc { objects = one } in
      let s2 : ReplicationService Sms Rls L = record svc { objects = two } in
      let s3 : ReplicationService Sms Rls L = record { rs_map = sets; objects = two } in
      let s4 : ReplicationService Sms Rls L = record { rs_map = sets'; objects = two } in
      let s5 : ReplicationService Sms Rls L = record s4 {
        objects = modify p (attach_listener l) two;
      } in
      let s6 : ReplicationService Sms Rls L = record s4 {
        objects = modify q (attach_listener l') s5.objects;
      } in
      let ends : two_threads (inserted p) (inserted q) s4
          ⟹* two_threads (returned p) (returned q) s6 =
        first_moves _ (called p l) _ s4 s4 _ (rw init refl) (
          first_moves _ (returned p) _ s4 s5 _ refl (
            second_moves _ _ (called q l') s5 s5 _ (rw (next, init') refl)
              (second_moves _ _ (returned q) s5 s6 _ refl here))) in
      let inserts : two_threads (constructed uuid p) (constructed uuid q) s2
          ⟹* two_threads (returned p) (returned q) s6 =
        first_moves _ (inserted p) _ s2 s3 _ refl
          (second_moves _ _ (inserted q) s3 s4 _ refl ends) in
      let kept : find uuid sets' ≡ some p =
        find-insert_old uuid q p sets (insert-IsAscending uuid p svc.rs_map asc)
          (find-insert_new uuid p svc.rs_map fresh) in
      (
        s6,
        p,
        q,
        first_moves _ (checked uuid) _ svc svc _ (rw fresh refl) (
            second_moves _ _ (checked uuid) svc svc _ (rw fresh refl) (
              first_moves _ (constructed uuid p) _ svc s1 _ (rw (made_state, made_log) refl) (
                second_moves _ _ (constructed uuid q) s1 s2 _ (rw (made_state, made_log) refl)
                  inserts))),
        λ (e : p ≡ q). omega arith,
        rw kept refl,
      )
