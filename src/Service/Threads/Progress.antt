-- ===== src/Service/Threads/Progress.antt =====
-- What a thread of the service comes to when it gets its turns, however the others run.
use home_replication.Base.{
  ℕ, ◌-◌, ◌≤◌, Bool, some, List, [], ◌∷◌, ◌≡◌, ◌∙◌, arith, get_elem?, ◌==◌, if◌then◌else◌,
  Option-cases, Bool-cases, ==→eq, inl, inr,
}
use home_replication.Base.Exec.{Result}
use home_replication.Bytes.{Bytes}
use mathlib.Core.Path.{subst}
use home_replication.Service.{ReplicationServiceBackend}
use home_replication.Service.Threads.{Thread, World, advance, ◌⟶◌, ◌⟶*◌, step, here, then}
use home_replication.Service.Threads.Turns.{
  parts_left, IsFinished, turns_of, turn, run_turns, modify_same, modify_other, IsFinished-parts,
  parts-at_most, parts-advance, turn-Step,
}

module _ {Sms Rls L : Type 0} (ndebug : Bool) (to_string : ℕ → Bytes) (on_rs_init : ℕ → Result L)
    (backend : ReplicationServiceBackend Sms Rls) where
  infix 40 ◌⟹◌ ◌⟹*◌
  abbrev ◌⟹◌ : World Sms Rls L → World Sms Rls L → Type 0
  u ⟹ v = ◌⟶◌ ndebug to_string on_rs_init backend u v

  abbrev ◌⟹*◌ : World Sms Rls L → World Sms Rls L → Type 0
  u ⟹* v = ◌⟶*◌ ndebug to_string on_rs_init backend u v

  abbrev next : ℕ → World Sms Rls L → World Sms Rls L
  next i w = turn ndebug to_string on_rs_init backend i w

  abbrev ran : List ℕ → World Sms Rls L → World Sms Rls L
  ran turns w = run_turns ndebug to_string on_rs_init backend turns w

  run_turns-steps : (turns : List ℕ) (w : World Sms Rls L) → w ⟹* ran turns w
  unfolding run_turns
  run_turns-steps [] w = here
  run_turns-steps (i ∷ turns) w = elim (turn-Step ndebug to_string on_rs_init backend i w) [
    | inl stays ↦ rw stays (run_turns-steps turns w)
    | inr (t, there, moves) ↦
        (then) (rw moves (step w i t there)) (run_turns-steps turns (next i w))
  ]

  -- The thread at `i` after a turn of the thread at `j`.
  abbrev pub turned : ℕ → ℕ → Thread Sms Rls L → World Sms Rls L → Thread Sms Rls L
  turned i j t w = if i == j then (advance ndebug to_string on_rs_init backend t w.service).0 else t

  pub turned_at :
      (i j : ℕ) (t : Thread Sms Rls L) (w : World Sms Rls L)
      → get_elem? w.threads i ≡ some t
      → get_elem? (next j w).threads i ≡ some (turned i j t w)
  unfolding turn
  turned_at i j t w at = elim (Bool-cases (i == j)) [
    | inl same ↦
        let eq : i ≡ j = ==→eq i j same in
        let there : get_elem? w.threads j ≡ some t =
          subst (λ (k : ℕ). get_elem? w.threads k ≡ some t) eq at in
        rw (same, there)
          (modify_same i j (λ _. (advance ndebug to_string on_rs_init backend t w.service).0)
            w.threads t eq at)
    | inr other ↦ elim (Option-cases (get_elem? w.threads j)) [
      | inl empty ↦ rw (other, empty) at
      | inr (u, there) ↦
          rw (other, there)
            (modify_other i j (λ _. (advance ndebug to_string on_rs_init backend u w.service).0)
                w.threads (λ (e : i ≡ j). ground arith)
              ∙ at)
    ]
  ]

  -- Where the thread stands when it has had its turns.
  stands_at :
      (turns : List ℕ) (i : ℕ) (t : Thread Sms Rls L) (w : World Sms Rls L)
      → get_elem? w.threads i ≡ some t
      → (t' : Thread Sms Rls L) × (get_elem? (ran turns w).threads i ≡ some t')
        × (parts_left t' ≤ parts_left t - turns_of i turns)
  unfolding run_turns turns_of
  stands_at [] i t w at = (t, at, omega arith)
  stands_at (j ∷ turns) i t w at =
      let (t', at', less) = stands_at turns i (turned i j t w) (next j w) (turned_at i j t w at) in
      elim (Bool-cases (i == j)) [
        | inl same ↦
            let one = parts-advance ndebug to_string on_rs_init backend t w.service in
            (t', at', rw same (omega (arith, one, rw same at less)))
        | inr other ↦ (t', at', rw other (rw other at less))
      ]

  pub IsFinished-at :
      (turns : List ℕ) (i : ℕ) (t : Thread Sms Rls L) (w : World Sms Rls L)
      → get_elem? w.threads i ≡ some t
      → 5 ≤ turns_of i turns
      → (t' : Thread Sms Rls L) × (get_elem? (ran turns w).threads i ≡ some t') × IsFinished t'
  IsFinished-at turns i t w at fair =
      let (t', at', less) = stands_at turns i t w at in
      (t', at', IsFinished-parts t' (omega (arith, parts-at_most t)))
