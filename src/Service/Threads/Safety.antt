-- ===== src/Service/Threads/Safety.antt =====
-- What every interleaving of threads leaves of the map and its objects.
use home_replication.Base.{
  ℕ, Bool, some, List, [], ◌∷◌, ◌≡◌, refl, Option-cases, All, inl, inr, Bool-cases,
}
use home_replication.Base.Exec.{Result, Result-cases, ok}
use home_replication.Bytes.{Bytes}
use home_replication.Maps.{find, insert-IsAscending, All-insert, insert_found, All-found}
use home_replication.ReplicaSet.{ReplicaSet, attach_listener}
use home_replication.Service.{
  ReplicationService, ReplicationServiceBackend, lookup_replica_set, modify,
}
use home_replication.Service.Sets.{IsNamed, IsWell}
use home_replication.Service.Threads.{
  Thread, started, checked, constructed, inserted, called, returned, failed, recovering, rechecked,
  looking, looked, World, run_part, advance, ◌⟶◌, ◌⟶*◌, step, here, then,
}
use home_replication.Service.Threads.Keeps.{
  IsSettled, IsGood, Keeps, Keeps-refl, Keeps-trans, attached-IsNamed, with_objects-IsWell,
  constructed-IsGood, others-IsSettled, IsSettled-at,
}

abbrev pub IsFound : {Sms Rls L : Type 0} → ReplicationService Sms Rls L → ℕ × ℕ → Type 0
IsFound svc e = lookup_replica_set e.0 svc ≡ (ok (some e.1), svc)

abbrev pub IsStarted : {Sms Rls L : Type 0} → Thread Sms Rls L → Type 0
IsStarted (started uuid) = Unit {0}
IsStarted (recovering uuid sm_store log_store) = Unit {0}
IsStarted (looking uuid) = Unit {0}
IsStarted t = ⊥

module _ {Sms Rls L : Type 0} (ndebug : Bool) (to_string : ℕ → Bytes) (on_rs_init : ℕ → Result L)
    (backend : ReplicationServiceBackend Sms Rls) where
  advance-IsGood :
      (t : Thread Sms Rls L) (svc : ReplicationService Sms Rls L)
      → IsWell to_string svc
      → IsSettled to_string svc.objects t
      → IsGood to_string svc (advance ndebug to_string on_rs_init backend t svc)
  unfolding advance run_part lookup_replica_set
  advance-IsGood (started uuid) svc well settled = elim (Option-cases (find uuid svc.rs_map)) [
    | inl fresh ↦ rw fresh (Keeps-refl to_string svc, well, tt)
    | inr (rs, there) ↦ elim (Bool-cases ndebug) [
      | inl release ↦ rw (there, release) (Keeps-refl to_string svc, well, tt)
      | inr asserts ↦ rw (there, asserts) (Keeps-refl to_string svc, well, tt)
    ]
  ]
  advance-IsGood (checked uuid) svc well settled =
      elim (Result-cases (backend.create_state_store uuid)) [
        | inr (e, threw) ↦ rw threw (Keeps-refl to_string svc, well, tt)
        | inl (sm_store, made_state) ↦ elim (Result-cases backend.create_log_store) [
          | inr (e, threw) ↦ rw (made_state, threw) (Keeps-refl to_string svc, well, tt)
          | inl (log_store, made_log) ↦
              rw (made_state, made_log)
                (constructed-IsGood to_string uuid svc sm_store log_store well)
        ]
      ]
  advance-IsGood (constructed uuid rs) svc well settled = (
    record { named = λ e h. h; found = insert_found uuid rs svc.rs_map well.ascending },
    record {
      ascending = insert-IsAscending uuid rs svc.rs_map well.ascending;
      named = All-insert (IsNamed to_string svc.objects) uuid rs svc.rs_map settled well.named;
    },
    tt,
  )
  advance-IsGood (inserted rs) svc well settled = elim (Result-cases (on_rs_init rs)) [
    | inr (e, threw) ↦ rw threw (Keeps-refl to_string svc, well, tt)
    | inl (l, made) ↦ rw made (Keeps-refl to_string svc, well, tt)
  ]
  advance-IsGood (called rs l) svc well settled =
      let kept : Keeps to_string svc
          (record svc { objects = modify rs (attach_listener l) svc.objects }) =
        record {
          named = λ e h. attached-IsNamed to_string l rs svc.objects e h;
          found = λ uuid p h. h;
        } in
      (kept, with_objects-IsWell to_string svc _ well kept, tt)
  advance-IsGood (returned rs) svc well settled = (Keeps-refl to_string svc, well, tt)
  advance-IsGood (failed e) svc well settled = (Keeps-refl to_string svc, well, tt)
  advance-IsGood (recovering uuid sm_store log_store) svc well settled =
      elim (Option-cases (find uuid svc.rs_map)) [
        | inl fresh ↦ rw fresh (Keeps-refl to_string svc, well, tt)
        | inr (rs, there) ↦ elim (Bool-cases ndebug) [
          | inl release ↦ rw (there, release) (Keeps-refl to_string svc, well, tt)
          | inr asserts ↦ rw (there, asserts) (Keeps-refl to_string svc, well, tt)
        ]
      ]
  advance-IsGood (rechecked uuid sm_store log_store) svc well settled =
      constructed-IsGood to_string uuid svc sm_store log_store well
  advance-IsGood (looking uuid) svc well settled = (Keeps-refl to_string svc, well, tt)
  advance-IsGood (looked found) svc well settled = (Keeps-refl to_string svc, well, tt)

  abbrev pub IsGoodWorld : World Sms Rls L → Type 0
  IsGoodWorld w = IsWell to_string w.service × All (IsSettled to_string w.service.objects) w.threads

  pub step-Keeps :
      (u v : World Sms Rls L)
      → ◌⟶◌ ndebug to_string on_rs_init backend u v
      → IsGoodWorld u
      → Keeps to_string u.service v.service × IsGoodWorld v
  step-Keeps u v (step w i t at) (well, settled) =
      let (kept, well', stands) =
        advance-IsGood t w.service well
          (IsSettled-at to_string w.service.objects i t w.threads settled at) in
      (kept, (well', others-IsSettled to_string w.service _ i _ w.threads kept stands settled))

  steps-Keeps :
      (u v : World Sms Rls L)
      → ◌⟶*◌ ndebug to_string on_rs_init backend u v
      → IsGoodWorld u
      → Keeps to_string u.service v.service × IsGoodWorld v
  steps-Keeps u v here good = (Keeps-refl to_string u.service, good)
  steps-Keeps u v (then {v = m} first rest) good =
      let (kept, good') = step-Keeps u m first good in
      let (kept', good'') = steps-Keeps m v rest good' in
      (Keeps-trans to_string u.service m.service v.service kept kept', good'')

  all-IsFound :
      (svc svc' : ReplicationService Sms Rls L) (sets : List (ℕ × ℕ))
      → Keeps to_string svc svc'
      → All (λ (e : ℕ × ℕ). find e.0 svc.rs_map ≡ some e.1) sets
      → All (IsFound svc') sets
  unfolding lookup_replica_set
  all-IsFound svc svc' [] k h = tt
  all-IsFound svc svc' (e ∷ sets) k (h, hs) =
      (rw (k.found e.0 e.1 h) refl, all-IsFound svc svc' sets k hs)

  pub all-IsStarted :
      (objects : List (ReplicaSet Sms Rls L)) (threads : List (Thread Sms Rls L))
      → All IsStarted threads
      → All (IsSettled to_string objects) threads
  all-IsStarted objects [] h = tt
  all-IsStarted objects (started uuid ∷ threads) (h, hs) = (tt, all-IsStarted objects threads hs)
  all-IsStarted objects (checked uuid ∷ threads) (h, hs) = absurd h
  all-IsStarted objects (constructed uuid rs ∷ threads) (h, hs) = absurd h
  all-IsStarted objects (inserted rs ∷ threads) (h, hs) = absurd h
  all-IsStarted objects (called rs l ∷ threads) (h, hs) = absurd h
  all-IsStarted objects (returned rs ∷ threads) (h, hs) = absurd h
  all-IsStarted objects (failed e ∷ threads) (h, hs) = absurd h
  all-IsStarted objects (recovering uuid sm_store log_store ∷ threads) (h, hs) =
      (tt, all-IsStarted objects threads hs)
  all-IsStarted objects (rechecked uuid sm_store log_store ∷ threads) (h, hs) = absurd h
  all-IsStarted objects (looking uuid ∷ threads) (h, hs) = (tt, all-IsStarted objects threads hs)
  all-IsStarted objects (looked found ∷ threads) (h, hs) = absurd h

  -- Let any number of threads start `create_replica_set`, `on_replica_store_found` or
  -- `lookup_replica_set` on a service whose map is in order and in which each set has the name of
  -- its uuid, and let them run in any order, each part between two locks at once. Then the map is
  -- in order, each set in it has the name of its uuid, and every uuid that was in the map still
  -- leads to its first pointer.
  pub interleaving_lem :
      (u v : World Sms Rls L)
      → ◌⟶*◌ ndebug to_string on_rs_init backend u v
      → IsWell to_string u.service
      → All IsStarted u.threads
      → IsWell to_string v.service × All (IsFound v.service) u.service.rs_map
  interleaving_lem u v steps well fresh =
      let (kept, good) =
        steps-Keeps u v steps (well, all-IsStarted u.service.objects u.threads fresh) in
      (
        good.0,
        all-IsFound u.service v.service u.service.rs_map kept
            (All-found u.service.rs_map well.ascending),
      )
