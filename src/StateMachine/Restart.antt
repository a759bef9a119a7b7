-- ===== src/StateMachine/Restart.antt =====
-- ReplicaStateMachine after a restart: the superblock that the constructor of HomeStateMachineStore
-- in lib/storage/home_storage_engine.cpp wrote is read back, and the store opened again.
use home_replication.Base.{
  ℕ, ◌+◌, ◌≡◌, ◌∙◌, refl, ap, some, List, [], ◌∷◌, ◌==◌, ==-refl, inl, inr, Option-cases, true,
}
use mathlib.Core.Path.{subst}
use home_replication.Base.Int.{ℤ, pos, to_uint}
use home_replication.Base.Exec.{ok, Exec, pure, ◌>>=◌, Result-cases}
use home_replication.HomeStore.{HomeLogStore}
use home_replication.StateStore
use home_replication.StateStore.{
  HomeRsSuperblk, HomeStateMachineStore, create, open_existing, on_store_created, encode_pbas,
  Callback,
}
use home_replication.StateStore.Walk.{gather}
use home_replication.SmStore.Calls.{
  SmCall, commit_lsn, get_last_commit_lsn, add_free_pba_record, get_free_pba_records,
  remove_free_pba_records_upto, flush_free_pba_records, sm_call, sm_call_run, SmReply, records,
}
use home_replication.SmStore.Home.{home_store}
use home_replication.StateMachine.{last_commit_index}

answer_state :
    {T A : Type 0} (f : A → SmReply) (m : Exec T A) (t : T)
    → ((m >>= λ a. pure (f a)) t).1 ≡ (m t).1
answer_state f m t = elim (Result-cases (m t).0) [
  | inl (a, ran) ↦ rw ran refl
  | inr (e, threw) ↦ rw threw refl
]

module _ {S : Type 0} (st : HomeLogStore S) where
  get-keeps_disk :
      {B : Type 0} (i j : ℤ) (cb : Callback B) (acc : B) (r : HomeStateMachineStore S)
      → (StateStore.get_free_pba_records st i j cb acc r).1.sb_on_disk ≡ r.sb_on_disk
  unfolding StateStore.get_free_pba_records
  get-keeps_disk i j cb acc r = elim (Option-cases r.free_pba_store) [
    | inl null ↦ rw null refl
    | inr (s, there) ↦ rw there refl
  ]

  -- No call of the store writes the superblock.
  call-keeps_disk :
      (c : SmCall) (r : HomeStateMachineStore S)
      → (sm_call (home_store st) c r).1.sb_on_disk ≡ r.sb_on_disk
  unfolding sm_call StateStore.commit_lsn StateStore.get_last_commit_lsn
      StateStore.add_free_pba_record StateStore.remove_free_pba_records_upto
      StateStore.flush_free_pba_records
  call-keeps_disk (commit_lsn n) r = refl
  call-keeps_disk get_last_commit_lsn r = refl
  call-keeps_disk (add_free_pba_record n p) r = elim (Result-cases (encode_pbas p)) [
    | inr (e, threw) ↦ rw threw refl
    | inl (b, made) ↦ elim (Option-cases r.free_pba_store) [
      | inl null ↦ rw (made, null) refl
      | inr (s, there) ↦ rw (made, there) refl
    ]
  ]
  call-keeps_disk (get_free_pba_records i j) r =
      ap (λ (q : HomeStateMachineStore S). q.sb_on_disk)
        (answer_state records
          (StateStore.get_free_pba_records st (pos (i + 1)) (pos (j + 1)) gather []) r)
      ∙ get-keeps_disk (pos (i + 1)) (pos (j + 1)) gather [] r
  call-keeps_disk (remove_free_pba_records_upto n) r = elim (Option-cases r.free_pba_store) [
    | inl null ↦ rw null refl
    | inr (s, there) ↦ rw there refl
  ]
  call-keeps_disk flush_free_pba_records r = elim (Option-cases r.free_pba_store) [
    | inl null ↦ rw null refl
    | inr (s, there) ↦ rw there refl
  ]

  calls-keep_disk :
      (cs : List SmCall) (r : HomeStateMachineStore S)
      → (sm_call_run (home_store st) cs r).1.sb_on_disk ≡ r.sb_on_disk
  unfolding sm_call_run
  calls-keep_disk [] r = refl
  calls-keep_disk (c ∷ cs) r =
      calls-keep_disk cs (sm_call (home_store st) c r).1 ∙ call-keeps_disk c r

  -- The superblock that the constructor writes.
  abbrev pub written : HomeRsSuperblk → ℕ → S → HomeRsSuperblk
  written created uuid s = record created { uuid = uuid; free_pba_store_id = st.get_store_id s }

  -- No sequence of calls of a new state machine store, `commit_lsn` included, changes the
  -- superblock on the device: it is the one that the constructor wrote, with the uuid and the id of
  -- the free pba store. A store that is opened from it, whose free pba store has that id, opens
  -- without an assertion, and the `last_commit_index` of its state machine is the lsn that was in
  -- the superblock when it was created, whatever was committed since.
  pub restart_commit :
      (created : HomeRsSuperblk) (uuid : ℕ) (s t : S) (cs : List SmCall)
      → st.get_store_id t ≡ st.get_store_id s
      → (r r' : HomeStateMachineStore S) × (create st created uuid (some s) ≡ ok r)
        × ((sm_call_run (home_store st) cs r).1.sb_on_disk ≡ some (written created uuid s))
        × (on_store_created st t (open_existing st (written created uuid s)).0 ≡ (ok tt, r'))
        × (last_commit_index (home_store st) r' ≡ (ok (to_uint 64 created.commit_lsn), r'))
  unfolding create open_existing on_store_created last_commit_index StateStore.get_last_commit_lsn
  restart_commit created uuid s t cs same =
      let sb : HomeRsSuperblk = written created uuid s in
      let checked : (st.get_store_id s == st.get_store_id t) ≡ true =
        subst (λ (i : ℕ). (i == st.get_store_id t) ≡ true) same (==-refl (st.get_store_id t)) in
      (
        record {
          free_pba_store = some s;
          sb = sb;
          sb_on_disk = some sb;
          sb_in_mem = sb;
          last_write_lsn = pos 0;
        },
        record {
          free_pba_store = some t;
          sb = sb;
          sb_on_disk = some sb;
          sb_in_mem = sb;
          last_write_lsn = pos 0;
        },
        refl,
        calls-keep_disk cs _,
        rw checked refl,
        refl,
      )
