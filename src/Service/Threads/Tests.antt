-- ===== src/Service/Threads/Tests.antt =====
-- Two threads that create sets on a service with the replica set of the uuid 7.
use home_replication.Base.{
  ℕ, ◌≤◌, ◌≡◌, ◌≢◌, refl, false, some, All, List, [], ◌∷◌, arith, get_elem?,
}
use home_replication.Base.Exec.{ok}
use home_replication.Maps.{find}
use home_replication.Service.{ReplicationService, lookup_replica_set, modify}
use home_replication.Service.Sets.{IsWell}
use home_replication.Service.Tests.{
  to_string, on_rs_init, backend, service, service-IsWell, not_at_8,
}
use home_replication.Service.Threads.{
  recovering, Thread, World, started, checked, constructed, returned, advance, run_part, moved,
  ◌⟶*◌, step, here, then,
}
use home_replication.Service.Threads.Race.{two_threads, both_pass}
use home_replication.Service.Threads.Safety.{IsFound, interleaving_lem}
use home_replication.Service.Threads.Turns.{turns_of, run_turns}
use home_replication.Service.Threads.Creates.{IsDone, turns_create}

both_pass_example :
    (svc : ReplicationService ℕ ℕ ℕ) × (p : ℕ) × (q : ℕ) × (◌⟶*◌ false to_string on_rs_init backend
      (two_threads (started 8) (started 8) service)
      (two_threads (returned p) (returned q) svc))
    × (p ≢ q)
    × (lookup_replica_set 8 svc ≡ (ok (some p), svc))
both_pass_example =
    both_pass false to_string on_rs_init backend 8 service 10 20 50 50 (tt, tt) not_at_8 refl refl
      refl refl

abbrev next : World ℕ ℕ ℕ → ℕ → Thread ℕ ℕ ℕ → World ℕ ℕ ℕ
next w i t = moved false to_string on_rs_init backend w i t

abbrev w0 : World ℕ ℕ ℕ
w0 = two_threads (started 8) (recovering 9 11 21) service

-- Both threads look up, and the first constructs its set and inserts it.
abbrev w4 : World ℕ ℕ ℕ
w4 =
    next (next (next (next w0 0 (started 8)) 1 (recovering 9 11 21)) 0 (checked 8)) 0
      (constructed 8 1)

four_steps : ◌⟶*◌ false to_string on_rs_init backend w0 w4
unfolding advance run_part modify lookup_replica_set find
four_steps = then (step w0 0 (started 8) refl) (
    then (step _ 1 (recovering 9 11 21) refl)
      (then (step _ 0 (checked 8) refl) (then (step _ 0 (constructed 8 1) refl) here)))

interleaving_lem_example : IsWell to_string w4.service × All (IsFound w4.service) service.rs_map
interleaving_lem_example =
    interleaving_lem false to_string on_rs_init backend w0 w4 four_steps service-IsWell
      (tt, (tt, tt))

abbrev turns : List ℕ
turns = 0 ∷ 1 ∷ 1 ∷ 0 ∷ 0 ∷ 1 ∷ 0 ∷ 1 ∷ 1 ∷ 0 ∷ []

fair : 5 ≤ turns_of 1 turns
unfolding turns_of
fair = omega arith

turns_create_example :
    (t : Thread ℕ ℕ ℕ) × (get_elem?
        (run_turns false to_string on_rs_init backend turns w0).threads
        1
      ≡ some t)
    × IsDone false to_string on_rs_init backend 9
        (run_turns false to_string on_rs_init backend turns w0)
        t
turns_create_example =
    turns_create false to_string on_rs_init backend 9 turns 1 (recovering 9 11 21) w0 service-IsWell
      (tt, (tt, tt)) refl refl fair
