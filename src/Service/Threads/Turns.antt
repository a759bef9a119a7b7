-- ===== src/Service/Threads/Turns.antt =====
-- The threads of the service under a schedule: a list of turns, each the number of the thread that
-- runs its next part.
use home_replication.Base.{
  ℕ, zero, suc, ◌-◌, ◌≤◌, Bool, Option, none, some, List, [], ◌∷◌, ◌≡◌, refl, ap, sym, ◌∙◌, arith,
  All, length, get_elem?, ◌==◌, if◌then◌else◌, Option-cases, inl, inr, ◌⊎◌,
}
use home_replication.Base.Exec.{Result}
use home_replication.Bytes.{Bytes}
use home_replication.Service.{
  ReplicationService, ReplicationServiceBackend, lookup_replica_set, modify,
}
use home_replication.Service.Threads.{
  Thread, started, checked, constructed, inserted, called, returned, failed, recovering, rechecked,
  looking, looked, World, run_part, advance, moved,
}

-- The parts of the function that are left.
abbrev pub parts_left : {Sms Rls L : Type 0} → Thread Sms Rls L → ℕ
parts_left (started uuid) = 5
parts_left (checked uuid) = 4
parts_left (constructed uuid rs) = 3
parts_left (inserted rs) = 2
parts_left (called rs l) = 1
parts_left (returned rs) = 0
parts_left (failed e) = 0
parts_left (recovering uuid sm_store log_store) = 5
parts_left (rechecked uuid sm_store log_store) = 4
parts_left (looking uuid) = 1
parts_left (looked found) = 0

abbrev pub IsFinished : {Sms Rls L : Type 0} → Thread Sms Rls L → Type 0
IsFinished (returned rs) = Unit {0}
IsFinished (failed e) = Unit {0}
IsFinished (looked found) = Unit {0}
IsFinished t = ⊥

-- How many turns of the schedule are the thread's.
unfoldable pub turns_of : ℕ → List ℕ → ℕ
turns_of i [] = 0
turns_of i (j ∷ turns) = let rest = turns_of i turns in if i == j then suc rest else rest

module _ {A : Type 0} where
  length-modify : (i : ℕ) (f : A → A) (xs : List A) → length (modify i f xs) ≡ length xs
  unfolding modify
  length-modify i f [] = refl
  length-modify zero f (x ∷ xs) = refl
  length-modify (suc i) f (x ∷ xs) = ap suc (length-modify i f xs)

  modify_here :
      (i : ℕ) (f : A → A) (xs : List A) (x : A)
      → get_elem? xs i ≡ some x
      → get_elem? (modify i f xs) i ≡ some (f x)
  unfolding modify
  modify_here i f [] x h = cc
  modify_here zero f (y ∷ xs) x h = cc
  modify_here (suc i) f (y ∷ xs) x h = modify_here i f xs x h

  pub modify_same :
      (i j : ℕ) (f : A → A) (xs : List A) (x : A)
      → i ≡ j
      → get_elem? xs i ≡ some x
      → get_elem? (modify j f xs) i ≡ some (f x)
  modify_same i j f xs x eq h = rw (sym eq) (modify_here i f xs x h)

  pub modify_other :
      (i j : ℕ) (f : A → A) (xs : List A)
      → (i ≡ j → ⊥)
      → get_elem? (modify j f xs) i ≡ get_elem? xs i
  unfolding modify
  modify_other i j f [] ne = refl
  modify_other zero zero f (y ∷ xs) ne = absurd (ne refl)
  modify_other zero (suc j) f (y ∷ xs) ne = refl
  modify_other (suc i) zero f (y ∷ xs) ne = refl
  modify_other (suc i) (suc j) f (y ∷ xs) ne = modify_other i j f xs λ e. ne (ap suc e)

  pub All-at :
      {P : A → Type 0} (xs : List A) → ((i : ℕ) (x : A) → get_elem? xs i ≡ some x → P x) → All P xs
  All-at [] h = tt
  All-at (x ∷ xs) h = (h 0 x refl, All-at xs λ i y e. h (suc i) y e)

module _ {Sms Rls L : Type 0} where
  pub IsFinished-parts : (t : Thread Sms Rls L) → parts_left t ≡ 0 → IsFinished t
  IsFinished-parts (started uuid) h = absurd (omega arith)
  IsFinished-parts (checked uuid) h = absurd (omega arith)
  IsFinished-parts (constructed uuid rs) h = absurd (omega arith)
  IsFinished-parts (inserted rs) h = absurd (omega arith)
  IsFinished-parts (called rs l) h = absurd (omega arith)
  IsFinished-parts (returned rs) h = tt
  IsFinished-parts (failed e) h = tt
  IsFinished-parts (recovering uuid sm_store log_store) h = absurd (omega arith)
  IsFinished-parts (rechecked uuid sm_store log_store) h = absurd (omega arith)
  IsFinished-parts (looking uuid) h = absurd (omega arith)
  IsFinished-parts (looked found) h = tt

  pub parts-at_most : (t : Thread Sms Rls L) → parts_left t ≤ 5
  parts-at_most (started uuid) = omega arith
  parts-at_most (checked uuid) = omega arith
  parts-at_most (constructed uuid rs) = omega arith
  parts-at_most (inserted rs) = omega arith
  parts-at_most (called rs l) = omega arith
  parts-at_most (returned rs) = omega arith
  parts-at_most (failed e) = omega arith
  parts-at_most (recovering uuid sm_store log_store) = omega arith
  parts-at_most (rechecked uuid sm_store log_store) = omega arith
  parts-at_most (looking uuid) = omega arith
  parts-at_most (looked found) = omega arith

module _ {Sms Rls L : Type 0} (ndebug : Bool) (to_string : ℕ → Bytes) (on_rs_init : ℕ → Result L)
    (backend : ReplicationServiceBackend Sms Rls) where
  abbrev turn_of : World Sms Rls L → ℕ → Option (Thread Sms Rls L) → World Sms Rls L
  turn_of w i none = w
  turn_of w i (some t) = moved ndebug to_string on_rs_init backend w i t

  -- The thread at the place `i`, if there is one, runs its next part.
  unfoldable pub turn : ℕ → World Sms Rls L → World Sms Rls L
  turn i w = turn_of w i (get_elem? w.threads i)

  unfoldable pub run_turns : List ℕ → World Sms Rls L → World Sms Rls L
  run_turns [] w = w
  run_turns (i ∷ turns) w = run_turns turns (turn i w)

  pub parts-advance :
      (t : Thread Sms Rls L) (svc : ReplicationService Sms Rls L)
      → parts_left (advance ndebug to_string on_rs_init backend t svc).0 ≤ parts_left t - 1
  unfolding advance run_part lookup_replica_set
  parts-advance (started uuid) svc = ground arith
  parts-advance (checked uuid) svc = ground arith
  parts-advance (constructed uuid rs) svc = omega arith
  parts-advance (inserted rs) svc = ground arith
  parts-advance (called rs l) svc = omega arith
  parts-advance (returned rs) svc = omega arith
  parts-advance (failed e) svc = omega arith
  parts-advance (recovering uuid sm_store log_store) svc = ground arith
  parts-advance (rechecked uuid sm_store log_store) svc = omega arith
  parts-advance (looking uuid) svc = omega arith
  parts-advance (looked found) svc = omega arith

  pub turn-Step :
      (i : ℕ) (w : World Sms Rls L)
      → (turn i w ≡ w)
        ⊎ ((t : Thread Sms Rls L) × (get_elem? w.threads i ≡ some t)
            × (turn i w ≡ moved ndebug to_string on_rs_init backend w i t))
  unfolding turn
  turn-Step i w = elim (Option-cases (get_elem? w.threads i)) [
    | inl empty ↦ inl (rw empty refl)
    | inr (t, there) ↦ inr (t, there, rw there refl)
  ]

  pub turn-moved :
      (i : ℕ) (w : World Sms Rls L) (t : Thread Sms Rls L)
      → get_elem? w.threads i ≡ some t
      → turn i w ≡ moved ndebug to_string on_rs_init backend w i t
  unfolding turn
  turn-moved i w t there = rw there refl

  length-turn : (i : ℕ) (w : World Sms Rls L) → length (turn i w).threads ≡ length w.threads
  length-turn i w = elim (turn-Step i w) [
    | inl stays ↦ ap (λ (v : World Sms Rls L). length v.threads) stays
    | inr (t, there, moves) ↦
        ap (λ (v : World Sms Rls L). length v.threads) moves ∙ length-modify i _ w.threads
  ]

  pub length-run_turns :
      (turns : List ℕ) (w : World Sms Rls L) → length (run_turns turns w).threads ≡ length w.threads
  unfolding run_turns
  length-run_turns [] w = refl
  length-run_turns (i ∷ turns) w = length-run_turns turns (turn i w) ∙ length-turn i w
