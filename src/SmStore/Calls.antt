-- ===== src/SmStore/Calls.antt =====
-- Sequences of calls of a state machine store, against the promised state.
use home_replication.Base.{ℕ, suc, ◌+◌, ◌^◌, ◌<◌, ◌≡◌, refl, List, [], ◌∷◌, All}
use home_replication.Base.Int.{ℤ, pos}
use home_replication.Base.Exec.{Result, ok, Exec, pure, ◌>>=◌}
use home_replication.HomeStore.Records.{put, from, within}
use home_replication.StateStore.Records.{Pbas, IsFree, deliver}
use home_replication.StateStore.Walk.{gather}
use home_replication.SmStore.{StateMachineStore, SmSpec, SmLaws}

pub data SmCall : Type 0 where
  commit_lsn : ℤ → SmCall
  get_last_commit_lsn : SmCall
  add_free_pba_record : ℕ → Pbas → SmCall
  get_free_pba_records : ℕ → ℕ → SmCall
  remove_free_pba_records_upto : ℕ → SmCall
  flush_free_pba_records : SmCall

pub data SmReply : Type 0 where
  done : SmReply
  lsn : ℤ → SmReply
  records : List (ℤ × Pbas) → SmReply

unfoldable pub sm_promised : SmCall → SmSpec → SmReply × SmSpec
sm_promised (commit_lsn n) a = (done, record a { commit = n })
sm_promised get_last_commit_lsn a = (lsn a.commit, a)
sm_promised (add_free_pba_record n p) a = (done, record a { records = put n p a.records })
sm_promised (get_free_pba_records i j) a = (records (deliver gather (within i j a.records) []), a)
sm_promised (remove_free_pba_records_upto n) a =
    (done, record a { records = from (suc n) a.records })
sm_promised flush_free_pba_records a = (done, a)

-- The pbas of a record fit their widths, and lsns stay far below 2 ^ 63.
abbrev pub IsAdmitted : SmCall → Type 0
IsAdmitted (commit_lsn n) = Unit {0}
IsAdmitted get_last_commit_lsn = Unit {0}
IsAdmitted (add_free_pba_record n p) = IsFree (n, p)
IsAdmitted (get_free_pba_records i j) = (i + 2 < 2 ^ 63) × (j + 2 < 2 ^ 63)
IsAdmitted (remove_free_pba_records_upto n) = Unit {0}
IsAdmitted flush_free_pba_records = Unit {0}

unfoldable pub sm_promised_run : List SmCall → SmSpec → List (Result SmReply) × SmSpec
sm_promised_run [] a = ([], a)
sm_promised_run (c ∷ cs) a =
    let (r, a') = sm_promised c a in let (rs, a'') = sm_promised_run cs a' in (ok r ∷ rs, a'')

module _ {T : Type 0} (store : StateMachineStore T) where
  abbrev answer : {A : Type 0} → (A → SmReply) → Exec T A → Exec T SmReply
  answer f m = do a ← m; pure (f a)

  unfoldable pub sm_call : SmCall → Exec T SmReply
  sm_call (commit_lsn n) = answer (λ _. done) (store.commit_lsn n)
  sm_call get_last_commit_lsn = answer lsn store.get_last_commit_lsn
  sm_call (add_free_pba_record n p) = answer (λ _. done) (store.add_free_pba_record (pos (n + 1)) p)
  sm_call (get_free_pba_records i j) =
      answer records
        (store.get_free_pba_records (List (ℤ × Pbas)) (pos (i + 1)) (pos (j + 1)) gather [])
  sm_call (remove_free_pba_records_upto n) =
      answer (λ _. done) (store.remove_free_pba_records_upto (pos (n + 1)))
  sm_call flush_free_pba_records = answer (λ _. done) store.flush_free_pba_records

  unfoldable pub sm_call_run : List SmCall → T → List (Result SmReply) × T
  sm_call_run [] t = ([], t)
  sm_call_run (c ∷ cs) t =
      let (r, t') = sm_call c t in let (rs, t'') = sm_call_run cs t' in (r ∷ rs, t'')

  module _ (law : SmLaws store) where
    sm_call_lem :
        (c : SmCall) (t : T) (a : SmSpec)
        → law.Holds t a
        → IsAdmitted c
        → (t' : T) × (sm_call c t ≡ (ok (sm_promised c a).0, t')) × law.Holds t' (sm_promised c a).1
    unfolding sm_call sm_promised
    sm_call_lem (commit_lsn n) t a rep h =
        let (t', run, rep') = law.commits t a n rep in (t', rw run refl, rep')
    sm_call_lem get_last_commit_lsn t a rep h = (t, rw (law.last_commit t a rep) refl, rep)
    sm_call_lem (add_free_pba_record n p) t a rep h =
        let (t', run, rep') = law.adds t a n p rep h in (t', rw run refl, rep')
    sm_call_lem (get_free_pba_records i j) t a rep (lo, hi) =
        (t, rw (law.gets (List (ℤ × Pbas)) gather t a i j [] rep lo hi) refl, rep)
    sm_call_lem (remove_free_pba_records_upto n) t a rep h =
        let (t', run, rep') = law.removes t a n rep in (t', rw run refl, rep')
    sm_call_lem flush_free_pba_records t a rep h =
        let (t', run, rep') = law.flushes t a rep in (t', rw run refl, rep')

    pub sm_run_lem :
        (cs : List SmCall) (t : T) (a : SmSpec)
        → law.Holds t a
        → All IsAdmitted cs
        → (t' : T) × (sm_call_run cs t ≡ ((sm_promised_run cs a).0, t'))
          × law.Holds t' (sm_promised_run cs a).1
    unfolding sm_call_run sm_promised_run
    sm_run_lem [] t a rep h = (t, refl, rep)
    sm_run_lem (c ∷ cs) t a rep (h, hs) =
        let (t1, run, rep1) = sm_call_lem c t a rep h in
        let (t2, run', rep2) = sm_run_lem cs t1 (sm_promised c a).1 rep1 hs in
        (t2, rw (run, run') refl, rep2)
