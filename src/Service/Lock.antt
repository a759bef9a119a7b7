-- ===== src/Service/Lock.antt =====
-- The mutex of the map in lib/service/repl_service.cpp, on one thread: iterate_replica_sets holds it
-- while it calls the user's callback, and lookup_replica_set takes it. A std::mutex is not
-- recursive: a thread that takes one that it holds does not go on. So a function here may have no
-- outcome, `none`.
use home_replication.Base.{
  ℕ, ◌≡◌, refl, Bool, true, false, Option, none, some, List, [], ◌∷◌, if◌then◌else◌, inl, inr,
}
use home_replication.Base.Exec.{Result, Result-cases, ok, err, Exec, pure, ◌>>◌}
use home_replication.Service.{ReplicationService, lookup_replica_set}

-- `held` says that the thread holds the mutex; `user` is what the callback works on.
pub record Locked (Sms Rls L U : Type 0) : Type 0 where
  pub held : Bool
  pub user : U
  pub service : ReplicationService Sms Rls L

abbrev pub Run : Type 0 → Type 0 → Type 0
Run W A = W → Option (Result A × W)

-- What the user's callback makes of the sets, in the order of the map.
unfoldable pub walk : {U : Type 0} → (ℕ → Exec U (Unit {0})) → List (ℕ × ℕ) → Exec U (Unit {0})
walk f [] = pure tt
walk f ((uuid, rs) ∷ sets) = f rs >> walk f sets

module _ {Sms Rls L U : Type 0} where
  abbrev unlock :
      {A : Type 0} → Option (Result A × Locked Sms Rls L U) → Option (Result A × Locked Sms Rls L U)
  unlock none = none
  unlock (some (r, w)) = some (r, record w { held = false })

  -- `{ std::unique_lock lg(m_rs_map_mtx); ... }`, which gives the mutex back where the block throws.
  abbrev pub with_lock : {A : Type 0} → Run (Locked Sms Rls L U) A → Run (Locked Sms Rls L U) A
  with_lock body w = if w.held then none else unlock (body (record w { held = true }))

  abbrev of_service :
      {A : Type 0} → Exec (ReplicationService Sms Rls L) A → Run (Locked Sms Rls L U) A
  of_service m w = some ((m w.service).0, record w { service = (m w.service).1 })

  unfoldable pub lookup_locked : ℕ → Run (Locked Sms Rls L U) (Option ℕ)
  lookup_locked uuid = with_lock (of_service (lookup_replica_set uuid))

  abbrev pub after :
      {A B : Type 0}
      → (A → Run (Locked Sms Rls L U) B)
      → Option (Result A × Locked Sms Rls L U)
      → Option (Result B × Locked Sms Rls L U)
  after k none = none
  after k (some (ok a, w)) = k a w
  after k (some (err e, w)) = some (err e, w)

  -- The loop; what the callback throws ends it.
  unfoldable pub each_set :
      (ℕ → Run (Locked Sms Rls L U) (Unit {0})) → List (ℕ × ℕ) → Run (Locked Sms Rls L U) (Unit {0})
  each_set cb [] w = some (ok tt, w)
  each_set cb ((uuid, rs) ∷ sets) w = after (λ _. each_set cb sets) (cb rs w)

  unfoldable pub iterate_locked :
      (ℕ → Run (Locked Sms Rls L U) (Unit {0})) → Run (Locked Sms Rls L U) (Unit {0})
  iterate_locked cb = with_lock (λ w. each_set cb w.service.rs_map w)

  -- A callback that works on the user's state alone.
  abbrev pub plain : (ℕ → Exec U (Unit {0})) → ℕ → Run (Locked Sms Rls L U) (Unit {0})
  plain f rs w = some ((f rs w.user).0, record w { user = (f rs w.user).1 })

  each-plain :
      (f : ℕ → Exec U (Unit {0})) (sets : List (ℕ × ℕ)) (w : Locked Sms Rls L U)
      → each_set (plain f) sets w
        ≡ some ((walk f sets w.user).0, record w { user = (walk f sets w.user).1 })
  unfolding each_set walk
  each-plain f [] w = refl
  each-plain f ((uuid, rs) ∷ sets) w = elim (Result-cases (f rs w.user).0) [
    | inl (done, ran) ↦ rw ran (each-plain f sets (record w { user = (f rs w.user).1 }))
    | inr (e, threw) ↦ rw threw refl
  ]

  -- A callback that first looks a uuid up, and goes on with what it finds.
  abbrev pub looks_up :
      ℕ
      → (ℕ → Option ℕ → Run (Locked Sms Rls L U) (Unit {0}))
      → ℕ
      → Run (Locked Sms Rls L U) (Unit {0})
  looks_up uuid k rs w = after (k rs) (lookup_locked uuid w)

  -- On a service that has a set, with the mutex of the map free, `iterate_replica_sets` with a
  -- callback that does not use the service calls it for the sets in the order of the map up to the
  -- first exception, changes nothing of the service and leaves the mutex free, exception or not.
  -- With a callback that looks up any uuid it never returns.
  pub iterate_lem :
      (f : ℕ → Exec U (Unit {0})) (uuid : ℕ)
      (k : ℕ → Option ℕ → Run (Locked Sms Rls L U) (Unit {0})) (svc : ReplicationService Sms Rls L)
      (user : U) (set : ℕ × ℕ) (sets : List (ℕ × ℕ))
      → svc.rs_map ≡ set ∷ sets
      → (iterate_locked (plain f) (record { held = false; user = user; service = svc })
          ≡ some (
            (walk f svc.rs_map user).0,
            record { held = false; user = (walk f svc.rs_map user).1; service = svc },
          ))
        × (iterate_locked (looks_up uuid k) (record { held = false; user = user; service = svc })
            ≡ none)
  unfolding iterate_locked each_set lookup_locked
  iterate_lem f uuid k svc user set sets some_set = (
    rw (each-plain f svc.rs_map (record { held = true; user = user; service = svc })) refl,
    rw some_set refl,
  )
