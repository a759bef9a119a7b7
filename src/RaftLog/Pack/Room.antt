-- ===== src/RaftLog/Pack/Room.antt =====
-- The room in the buffer of `pack` of HomeRaftLogStore for one record.
use Prim.Native.Nat.{max}
use home_replication.Base.{
  ℕ, suc, ◌+◌, ◌-◌, ◌*◌, ◌^◌, ◌≤◌, ◌<◌, ◌≡◌, ◌∙◌, refl, ap, ◌++◌, ◌∷◌, [], List, true, false, Bool,
  arith, length, Bool-cases, ltb, leb, if◌then◌else◌, inl, inr,
}
use home_replication.Base.Int.{pos}
use home_replication.Base.Exec.{Result, ok, err, overflow_error}
use home_replication.Bytes.{Bytes, le_bytes}
use home_replication.HomeStore.{HomeLogStore}
use home_replication.Nuraft.{Nuraft, BufferLaws}
use home_replication.RaftLog.Pack.{Packing, make_room, pack_record}
use home_replication.RaftLog.Pack.Layout.{framed}

-- The size of the buffer for a record of `n` bytes, from a size and a position.
abbrev pub grown : ℕ → ℕ → ℕ → ℕ
grown size p n = if ltb (size - p) n then size - p + max (size * 2) n else size

-- There is room for each record, with the 4 bytes of its length, in the buffer as it has grown.
unfoldable pub packs : ℕ → ℕ → List Bytes → Bool
packs size p [] = true
packs size p (x ∷ xs) =
    let rest = packs (grown size p (length x)) (p + (4 + length x)) xs in
    if leb (p + (4 + length x)) (grown size p (length x)) then rest else false

-- No size of the buffer reaches 2 ^ 31.
abbrev pub IsModest : ℕ → ℕ → List Bytes → Type 0
IsModest size p [] = Unit {0}
IsModest size p (x ∷ xs) =
    (grown size p (length x) < 2 ^ 31) × IsModest (grown size p (length x)) (p + (4 + length x)) xs

module _ {S : Type 0} (st : HomeLogStore S) (nu : Nuraft) (bufs : BufferLaws nu) where
  make_room-grown :
      (b : nu.Buffer) (n : ℕ)
      → grown (nu.size b) (length (bufs.written b)) n < 2 ^ 31
      → (c : nu.Buffer) × (make_room st nu b n ≡ ok c)
        × (bufs.written c ≡ bufs.written b)
        × (nu.size c ≡ grown (nu.size b) (length (bufs.written b)) n)
  unfolding make_room
  make_room-grown b n h = elim (Bool-cases (ltb (nu.size b - length (bufs.written b)) n)) [
    | inl short ↦
        let size : ℕ = nu.size b - length (bufs.written b) + max (nu.size b * 2) n in
        let (c, run, bytes, same) = bufs.expand_room b size (omega arith) (rw short at h) in
        (c, rw (bufs.pos_written b, short, run), bytes, rw short same)
    | inr wide ↦ (b, rw (bufs.pos_written b, wide), refl, rw wide)
  ]

  module _ (n k : ℕ) (x : Bytes) (b : nu.Buffer)
      (modest : grown (nu.size b) (length (bufs.written b)) (length x) < 2 ^ 31) where
    abbrev pub size : ℕ
    size = grown (nu.size b) (length (bufs.written b)) (length x)

    abbrev pub end : ℕ
    end = length (bufs.written b) + (4 + length x)

    abbrev step : Bool × Result (Packing st nu)
    step = pack_record st nu (pos n) x (ok (record { out_buf = b; remain_cnt = pos (suc k) }))

    pub step_fits :
        leb end size ≡ true
        → (c : nu.Buffer) × (step ≡ (ltb 0 k, ok (record { out_buf = c; remain_cnt = pos k })))
          × (bufs.written c ≡ bufs.written b ++ (le_bytes 4 (length x) ++ x))
          × (nu.size c ≡ size)
    unfolding pack_record
    step_fits fits =
        let (room, made, kept, grew) = make_room-grown b (length x) modest in
        let enough : length (bufs.written room) + 4 + length x ≤ nu.size room =
          rw (kept, grew) (ground arith) in
        let (c, put, bytes, same) = bufs.put_bytes_room room x enough in
        (
          c,
          rw made (ground (arith, put)),
          bytes ∙ ap (λ (l : Bytes). l ++ (le_bytes 4 (length x) ++ x)) kept,
          same ∙ grew,
        )

    pub step_full : leb end size ≡ false → step ≡ (false, err overflow_error)
    unfolding pack_record
    step_full full =
        let (room, made, kept, grew) = make_room-grown b (length x) modest in
        let short : nu.size room < length (bufs.written room) + 4 + length x =
          rw (kept, grew) (ground arith) in
        let put = bufs.put_bytes_full room x short in rw made (ground (arith, put))

  -- What `pack` of `k` entries gives for the records `xs`.
  abbrev pub IsPacked : ℕ → List Bytes → Result nu.Buffer → Type 0
  IsPacked k xs (ok b) =
      (packs (k * 128 + 4) 4 xs ≡ true) × (bufs.written b ≡ le_bytes 4 k ++ framed xs)
  IsPacked k xs (err e) = (packs (k * 128 + 4) 4 xs ≡ false) × (e ≡ overflow_error)
