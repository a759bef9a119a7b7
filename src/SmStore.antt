-- ===== src/SmStore.antt =====
-- StateMachineStore of lib/storage/storage_engine.h, the interface of a state machine store: its
-- virtual functions, and what they promise about a last committed lsn and a list of free pba
-- records. A record stands under its lsn less 1.
pub mod Calls
pub mod Home
pub mod Tests
use home_replication.Base.{ℕ, suc, ◌+◌, ◌^◌, ◌<◌, ◌≡◌, List}
use home_replication.Base.Int.{ℤ, pos}
use home_replication.Base.Exec.{ok, Exec}
use home_replication.Bytes.{Bytes}
use home_replication.HomeStore.Records.{put, from, within}
use home_replication.StateStore.{Callback}
use home_replication.StateStore.Records.{Pbas, IsFree, deliver}

-- A completion callback works on the caller's state.
pub record StateMachineStore (T : Type 0) : Type 1 where
  pub alloc_pbas : ℕ → Exec T (List ℕ)
  pub async_write : (B : Type 0) → List Bytes → List ℕ → (ℤ → B → B) → B → Exec T B
  pub async_read : (B : Type 0) → ℕ → List Bytes → ℕ → (ℤ → B → B) → B → Exec T B
  pub free_pba : ℕ → Exec T (Unit {0})
  pub destroy : Exec T (Unit {0})
  pub commit_lsn : ℤ → Exec T (Unit {0})
  pub get_last_commit_lsn : Exec T ℤ
  pub add_free_pba_record : ℤ → List ℕ → Exec T (Unit {0})
  pub get_free_pba_records : (B : Type 0) → ℤ → ℤ → Callback B → B → Exec T B
  pub remove_free_pba_records_upto : ℤ → Exec T (Unit {0})
  pub flush_free_pba_records : Exec T (Unit {0})

pub record SmSpec : Type 0 where
  pub commit : ℤ
  pub records : List (ℕ × Pbas)

-- What a client may rely on.
pub record SmLaws {T : Type 0} (store : StateMachineStore T) : Type 1 where
  pub Holds : T → SmSpec → Type 0
  pub commits :
      (t : T) (a : SmSpec) (lsn : ℤ)
      → Holds t a
      → (t' : T) × (store.commit_lsn lsn t ≡ (ok tt, t')) × Holds t' (record a { commit = lsn })
  pub last_commit :
      (t : T) (a : SmSpec) → Holds t a → store.get_last_commit_lsn t ≡ (ok a.commit, t)
  pub adds :
      (t : T) (a : SmSpec) (n : ℕ) (p : Pbas)
      → Holds t a
      → IsFree (n, p)
      → (t' : T) × (store.add_free_pba_record (pos (n + 1)) p t ≡ (ok tt, t'))
        × Holds t' (record a { records = put n p a.records })
  pub gets :
      (B : Type 0) (cb : Callback B) (t : T) (a : SmSpec) (i j : ℕ) (acc : B)
      → Holds t a
      → i + 2 < 2 ^ 63
      → j + 2 < 2 ^ 63
      → store.get_free_pba_records B (pos (i + 1)) (pos (j + 1)) cb acc t
        ≡ (ok (deliver cb (within i j a.records) acc), t)
  pub removes :
      (t : T) (a : SmSpec) (n : ℕ)
      → Holds t a
      → (t' : T) × (store.remove_free_pba_records_upto (pos (n + 1)) t ≡ (ok tt, t'))
        × Holds t' (record a { records = from (suc n) a.records })
  pub flushes :
      (t : T) (a : SmSpec)
      → Holds t a
      → (t' : T) × (store.flush_free_pba_records t ≡ (ok tt, t')) × Holds t' a
