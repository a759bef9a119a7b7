-- ===== src/Service/Threads/Adds.antt =====
-- What a thread of create_replica_set or on_replica_store_found has still to add, and why it throws.
use home_replication.Base.{
  ℕ, Bool, false, some, ◌≡◌, refl, sym, arith, Option-cases, Bool-cases, inl, inr, ◌⊎◌,
}
use home_replication.Base.Exec.{Result, Result-cases, Error, ok, err, assertion}
use home_replication.Bytes.{Bytes}
use home_replication.Maps.{find, insert, find-insert_new, find-insert_old}
use mathlib.Core.Path.{subst}
use home_replication.Service.{ReplicationService, ReplicationServiceBackend, lookup_replica_set}
use home_replication.Service.Sets.{IsWell}
use home_replication.Service.Threads.{
  Thread, started, checked, constructed, inserted, called, returned, failed, recovering, rechecked,
  looking, looked, run_part, advance,
}
use home_replication.Service.Threads.Keeps.{Keeps}

module _ {Sms Rls L : Type 0} where
  -- The map has a set for the uuid.
  abbrev pub HasSet : ℕ → ReplicationService Sms Rls L → Type 0
  HasSet uuid svc = (p : ℕ) × (lookup_replica_set uuid svc ≡ (ok (some p), svc))

  HasSet-kept :
      (to_string : ℕ → Bytes) (uuid : ℕ) (svc svc' : ReplicationService Sms Rls L)
      → Keeps to_string svc svc'
      → HasSet uuid svc
      → HasSet uuid svc'
  unfolding lookup_replica_set
  HasSet-kept to_string uuid svc svc' kept (p, found) =
      let at : find uuid svc.rs_map ≡ some p = ground (arith, found) in
      (p, rw (kept.found uuid p at) refl)

  insert-HasSet :
      (to_string : ℕ → Bytes) (uuid rs : ℕ) (svc : ReplicationService Sms Rls L)
      → IsWell to_string svc
      → HasSet uuid (record svc { rs_map = insert uuid rs svc.rs_map })
  unfolding lookup_replica_set
  insert-HasSet to_string uuid rs svc well = elim (Option-cases (find uuid svc.rs_map)) [
    | inl fresh ↦ (rs, rw (find-insert_new uuid rs svc.rs_map fresh) refl)
    | inr (p, there) ↦ (p, rw (find-insert_old uuid rs p svc.rs_map well.ascending there) refl)
  ]

module _ {Sms Rls L : Type 0} (ndebug : Bool) (to_string : ℕ → Bytes) (on_rs_init : ℕ → Result L)
    (backend : ReplicationServiceBackend Sms Rls) (uuid : ℕ) where
  -- Why the function throws: the assertion on a map that has the uuid, or what the backend or the
  -- callback throws.
  abbrev pub Throws : ReplicationService Sms Rls L → Error → Type 0
  Throws svc e =
      ((ndebug ≡ false) × (e ≡ assertion) × HasSet uuid svc)
      ⊎ (backend.create_state_store uuid ≡ err e)
      ⊎ (backend.create_log_store ≡ err e)
      ⊎ ((rs : ℕ) × (on_rs_init rs ≡ err e))

  -- The thread adds a set for the uuid: it has not inserted it, or the map has one.
  abbrev pub Adds : ReplicationService Sms Rls L → Thread Sms Rls L → Type 0
  Adds svc (started u) = u ≡ uuid
  Adds svc (checked u) = u ≡ uuid
  Adds svc (constructed u rs) = u ≡ uuid
  Adds svc (inserted rs) = HasSet uuid svc
  Adds svc (called rs l) = HasSet uuid svc
  Adds svc (returned rs) = HasSet uuid svc
  Adds svc (failed e) = Throws svc e
  Adds svc (recovering u sm_store log_store) = u ≡ uuid
  Adds svc (rechecked u sm_store log_store) = u ≡ uuid
  Adds svc (looking u) = ⊥
  Adds svc (looked found) = ⊥

  Throws-kept :
      (svc svc' : ReplicationService Sms Rls L) (e : Error)
      → Keeps to_string svc svc'
      → Throws svc e
      → Throws svc' e
  Throws-kept svc svc' e kept (inl (asserts, same, has)) =
      inl (asserts, same, HasSet-kept to_string uuid svc svc' kept has)
  Throws-kept svc svc' e kept (inr h) = inr h

  pub Adds-kept :
      (svc svc' : ReplicationService Sms Rls L) (t : Thread Sms Rls L)
      → Keeps to_string svc svc'
      → Adds svc t
      → Adds svc' t
  Adds-kept svc svc' (started u) kept h = h
  Adds-kept svc svc' (checked u) kept h = h
  Adds-kept svc svc' (constructed u rs) kept h = h
  Adds-kept svc svc' (inserted rs) kept h = HasSet-kept to_string uuid svc svc' kept h
  Adds-kept svc svc' (called rs l) kept h = HasSet-kept to_string uuid svc svc' kept h
  Adds-kept svc svc' (returned rs) kept h = HasSet-kept to_string uuid svc svc' kept h
  Adds-kept svc svc' (failed e) kept h = Throws-kept svc svc' e kept h
  Adds-kept svc svc' (recovering u sm_store log_store) kept h = h
  Adds-kept svc svc' (rechecked u sm_store log_store) kept h = h
  Adds-kept svc svc' (looking u) kept h = h
  Adds-kept svc svc' (looked found) kept h = h

  abbrev AddsNext : ReplicationService Sms Rls L → Thread Sms Rls L → Type 0
  AddsNext svc t =
      Adds (advance ndebug to_string on_rs_init backend t svc).1
        (advance ndebug to_string on_rs_init backend t svc).0

  asserts_there :
      (u : ℕ) (svc : ReplicationService Sms Rls L) (p : ℕ)
      → ndebug ≡ false
      → find u svc.rs_map ≡ some p
      → u ≡ uuid
      → (false ≡ false) × (assertion ≡ assertion) × HasSet uuid svc
  unfolding lookup_replica_set
  asserts_there u svc p asserts there same = (refl, refl, (p, rw (sym same, there) refl))

  pub Adds-advance :
      (t : Thread Sms Rls L) (svc : ReplicationService Sms Rls L)
      → IsWell to_string svc
      → Adds svc t
      → AddsNext svc t
  unfolding advance run_part lookup_replica_set
  Adds-advance (started u) svc well h = elim (Option-cases (find u svc.rs_map)) [
    | inl fresh ↦ rw fresh h
    | inr (rs, there) ↦ elim (Bool-cases ndebug) [
      | inl release ↦ rw (there, release) h
      | inr asserts ↦ rw (there, asserts) (inl (asserts_there u svc rs asserts there h))
    ]
  ]
  Adds-advance (checked u) svc well h = elim (Result-cases (backend.create_state_store u)) [
    | inr (e, threw) ↦ rw threw (inr (inl (rw h at threw)))
    | inl (sm_store, made_state) ↦ elim (Result-cases backend.create_log_store) [
      | inr (e, threw) ↦ rw (made_state, threw) (inr (inr (inl refl)))
      | inl (log_store, made_log) ↦ rw (made_state, made_log) h
    ]
  ]
  Adds-advance (constructed u rs) svc well h =
      subst (λ (v : ℕ). HasSet v (record svc { rs_map = insert u rs svc.rs_map })) h
        (insert-HasSet to_string u rs svc well)
  Adds-advance (inserted rs) svc well h = elim (Result-cases (on_rs_init rs)) [
    | inr (e, threw) ↦ rw threw (inr (inr (inr (rs, threw))))
    | inl (l, made) ↦ rw made h
  ]
  Adds-advance (called rs l) svc well (p, found) = (p, ground (arith, found))
  Adds-advance (returned rs) svc well h = h
  Adds-advance (failed e) svc well h = h
  Adds-advance (recovering u sm_store log_store) svc well h =
      elim (Option-cases (find u svc.rs_map)) [
        | inl fresh ↦ rw fresh h
        | inr (rs, there) ↦ elim (Bool-cases ndebug) [
          | inl release ↦ rw (there, release) h
          | inr asserts ↦ rw (there, asserts) (inl (asserts_there u svc rs asserts there h))
        ]
      ]
  Adds-advance (rechecked u sm_store log_store) svc well h = h
  Adds-advance (looking u) svc well h = absurd h
  Adds-advance (looked found) svc well h = absurd h
