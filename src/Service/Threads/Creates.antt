-- ===== src/Service/Threads/Creates.antt =====
-- What create_replica_set and on_replica_store_found leave in the map at their ends, on a thread
-- among others.
use home_replication.Base.{
  ℕ, ◌≤◌, Bool, some, List, [], ◌∷◌, ◌≡◌, ◌∙◌, sym, All, get_elem?, ◌==◌, ==→eq, Bool-cases, inl,
  inr,
}
use home_replication.Base.Exec.{Result}
use home_replication.Bytes.{Bytes}
use mathlib.Core.Option.{some-injective}
use mathlib.Core.Path.{subst}
use home_replication.Service.{ReplicationServiceBackend}
use home_replication.Service.Sets.{IsWell}
use home_replication.Service.Threads.{
  Thread, started, checked, constructed, inserted, called, returned, failed, recovering, rechecked,
  looking, looked, World, step,
}
use home_replication.Service.Threads.Keeps.{Keeps, Keeps-refl}
use home_replication.Service.Threads.Safety.{IsGoodWorld, IsStarted, all-IsStarted, step-Keeps}
use home_replication.Service.Threads.Turns.{
  IsFinished, turns_of, turn, run_turns, turn-Step, turn-moved,
}
use home_replication.Service.Threads.Adds.{HasSet, Throws, Adds, Adds-kept, Adds-advance}
use home_replication.Service.Threads.Progress.{turned, turned_at, IsFinished-at}

module _ {Sms Rls L : Type 0} (ndebug : Bool) (to_string : ℕ → Bytes) (on_rs_init : ℕ → Result L)
    (backend : ReplicationServiceBackend Sms Rls) (uuid : ℕ) where
  abbrev next : ℕ → World Sms Rls L → World Sms Rls L
  next i w = turn ndebug to_string on_rs_init backend i w

  abbrev ran : List ℕ → World Sms Rls L → World Sms Rls L
  ran turns w = run_turns ndebug to_string on_rs_init backend turns w

  next-IsGoodWorld :
      (j : ℕ) (w : World Sms Rls L)
      → IsGoodWorld ndebug to_string on_rs_init backend w
      → Keeps to_string w.service (next j w).service
        × IsGoodWorld ndebug to_string on_rs_init backend (next j w)
  next-IsGoodWorld j w good = elim (turn-Step ndebug to_string on_rs_init backend j w) [
    | inl stays ↦ rw stays (Keeps-refl to_string w.service, good)
    | inr (t, there, moves) ↦
        rw moves (step-Keeps ndebug to_string on_rs_init backend w _ (step w j t there) good)
  ]

  Adds-turn :
      (i j : ℕ) (t : Thread Sms Rls L) (w : World Sms Rls L)
      → get_elem? w.threads i ≡ some t
      → IsGoodWorld ndebug to_string on_rs_init backend w
      → Adds ndebug to_string on_rs_init backend uuid w.service t
      → Adds ndebug to_string on_rs_init backend uuid
          (next j w).service
          (turned ndebug to_string on_rs_init backend i j t w)
  Adds-turn i j t w at good adds = elim (Bool-cases (i == j)) [
    | inl same ↦
        let eq : i ≡ j = ==→eq i j same in
        rw (same, turn-moved ndebug to_string on_rs_init backend j w t (rw eq at at))
          (Adds-advance ndebug to_string on_rs_init backend uuid t w.service good.0 adds)
    | inr other ↦ rw other (
        Adds-kept ndebug to_string on_rs_init backend uuid w.service (next j w).service t
          (next-IsGoodWorld j w good).0 adds)
  ]

  Adds-turns :
      (turns : List ℕ) (i : ℕ) (t t' : Thread Sms Rls L) (w : World Sms Rls L)
      → get_elem? w.threads i ≡ some t
      → get_elem? (ran turns w).threads i ≡ some t'
      → IsGoodWorld ndebug to_string on_rs_init backend w
      → Adds ndebug to_string on_rs_init backend uuid w.service t
      → Adds ndebug to_string on_rs_init backend uuid (ran turns w).service t'
  unfolding run_turns
  Adds-turns [] i t t' w at at' good adds =
      subst (Adds ndebug to_string on_rs_init backend uuid w.service)
        (some-injective t t' (sym at ∙ at')) adds
  Adds-turns (j ∷ turns) i t t' w at at' good adds =
      Adds-turns turns i (turned ndebug to_string on_rs_init backend i j t w) t' (next j w)
        (turned_at ndebug to_string on_rs_init backend i j t w at) at' (next-IsGoodWorld j w good).1
        (Adds-turn i j t w at good adds)

  -- How the thread ended.
  abbrev pub IsDone : World Sms Rls L → Thread Sms Rls L → Type 0
  IsDone w (returned rs) = HasSet uuid w.service
  IsDone w (failed e) = Throws ndebug to_string on_rs_init backend uuid w.service e
  IsDone w t = ⊥

  Adds-IsDone :
      (w : World Sms Rls L) (t : Thread Sms Rls L)
      → IsFinished t
      → Adds ndebug to_string on_rs_init backend uuid w.service t
      → IsDone w t
  Adds-IsDone w (returned rs) done adds = adds
  Adds-IsDone w (failed e) done adds = adds
  Adds-IsDone w (looked found) done adds = absurd adds
  Adds-IsDone w (started u) done adds = absurd done
  Adds-IsDone w (checked u) done adds = absurd done
  Adds-IsDone w (constructed u rs) done adds = absurd done
  Adds-IsDone w (inserted rs) done adds = absurd done
  Adds-IsDone w (called rs l) done adds = absurd done
  Adds-IsDone w (recovering u sm_store log_store) done adds = absurd done
  Adds-IsDone w (rechecked u sm_store log_store) done adds = absurd done
  Adds-IsDone w (looking u) done adds = absurd done

  -- Let any number of threads start `create_replica_set`, `on_replica_store_found` or
  -- `lookup_replica_set` on a service whose map is in order and in which each set has the name of
  -- its uuid, and let them run by any schedule. A thread that started one of the first two for a
  -- uuid and has at least five turns has returned, and a lookup of the uuid then gives a set, or it
  -- has thrown: the assertion in a build that has it, where a lookup of the uuid gives a set, or
  -- what the backend or the user's callback throws.
  pub turns_create :
      (turns : List ℕ) (i : ℕ) (t : Thread Sms Rls L) (w : World Sms Rls L)
      → IsWell to_string w.service
      → All IsStarted w.threads
      → get_elem? w.threads i ≡ some t
      → Adds ndebug to_string on_rs_init backend uuid w.service t
      → 5 ≤ turns_of i turns
      → (t' : Thread Sms Rls L) × (get_elem? (ran turns w).threads i ≡ some t')
        × IsDone (ran turns w) t'
  turns_create turns i t w well fresh at adds fair =
      let (t', at', done) = IsFinished-at ndebug to_string on_rs_init backend turns i t w at fair in
      let good : IsGoodWorld ndebug to_string on_rs_init backend w = (
        well,
        all-IsStarted ndebug to_string on_rs_init backend w.service.objects w.threads fresh,
      ) in
      (t', at', Adds-IsDone (ran turns w) t' done (Adds-turns turns i t t' w at at' good adds))
