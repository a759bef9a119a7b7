-- ===== src/RaftLog/Pack/Exact.antt =====
-- When `pack` of HomeRaftLogStore has room for the records that it packs, and when it has not.
use home_replication.Base.{
  ℕ, zero, suc, ◌+◌, ◌-◌, ◌*◌, ◌%◌, ◌^◌, ◌≤◌, ◌<◌, ◌≡◌, ◌∙◌, refl, ap, sym, ◌++◌, ◌∷◌, [], List,
  map, true, false, Option, arith, length, take, drop, take-map, drop-map, append_assoc, append-nil,
  length-append, Bool-cases, leb, lt→ltb, inl, inr, nil-take,
}
use mathlib.Core.Path.{subst}
use home_replication.Base.Int.{pos, negsuc, to_uint}
use home_replication.Base.Exec.{Result, ok, err, overflow_error}
use home_replication.Bytes.{Bytes, le_bytes, length-le_bytes}
use home_replication.HomeStore.{HomeLogStore, AppendLog, visit}
use home_replication.HomeStore.View.{LogView, from}
use home_replication.Nuraft.{LogEntry, Nuraft, BufferLaws}
use home_replication.RaftLog.Represents.{opened, Represents, first_of, store_lsn_of}
use home_replication.RaftLog.Pack.{Packing, pack_record, pack, out_of}
use home_replication.RaftLog.Pack.Layout.{framed}
use home_replication.RaftLog.Pack.Room.{
  IsPacked, grown, packs, IsModest, size, end, step_fits, step_full,
}

module _ {S : Type 0} (st : HomeLogStore S) (nu : Nuraft) (law : AppendLog st)
    (bufs : BufferLaws nu) where
  -- The walk of `pack` ends with all records written where there is room for each, and with
  -- std::overflow_error where there is not.
  abbrev Ends : nu.Buffer → List Bytes → Result (Packing st nu) → Type 0
  Ends b xs (ok q) =
      (packs (nu.size b) (length (bufs.written b)) xs ≡ true)
      × (bufs.written q.out_buf ≡ bufs.written b ++ framed xs)
  Ends b xs (err e) =
      (packs (nu.size b) (length (bufs.written b)) xs ≡ false) × (e ≡ overflow_error)

  Ends-cons :
      (b c : nu.Buffer) (x : Bytes) (xs : List Bytes) (r : Result (Packing st nu))
      → leb
          (length (bufs.written b) + (4 + length x))
          (grown (nu.size b) (length (bufs.written b)) (length x))
        ≡ true
      → bufs.written c ≡ bufs.written b ++ (le_bytes 4 (length x) ++ x)
      → nu.size c ≡ grown (nu.size b) (length (bufs.written b)) (length x)
      → length (bufs.written c) ≡ length (bufs.written b) + (4 + length x)
      → Ends c xs r
      → Ends b (x ∷ xs) r
  unfolding packs
  Ends-cons b c x xs (ok q) fits bytes grew at_end (room, written) =
      let head : Bytes = le_bytes 4 (length x) ++ x in
      (
        rw fits (rw (grew, at_end) at room),
        written
            ∙ ap (λ (l : Bytes). l ++ framed xs) bytes
            ∙ append_assoc (bufs.written b) head (framed xs)
            ∙ ap (λ (l : Bytes). bufs.written b ++ l)
                (append_assoc (le_bytes 4 (length x)) x (framed xs)),
      )
  Ends-cons b c x xs (err e) fits bytes grew at_end (room, what) =
      (rw fits (rw (grew, at_end) at room), what)

  length-put :
      (b c : nu.Buffer) (x : Bytes)
      → bufs.written c ≡ bufs.written b ++ (le_bytes 4 (length x) ++ x)
      → length (bufs.written c) ≡ length (bufs.written b) + (4 + length x)
  length-put b c x bytes = rw bytes (
      omega (
        arith,
        length-append (bufs.written b) (le_bytes 4 (length x) ++ x),
        length-append (le_bytes 4 (length x)) x,
        length-le_bytes 4 (length x),
      ))

  visit-Ends :
      (xs : List Bytes) (n k : ℕ) (b : nu.Buffer)
      → IsModest (nu.size b) (length (bufs.written b)) (take k xs)
      → (r : Result (Packing st nu)) × (visit
            (pack_record st nu)
            n
            xs
            (ok (record { out_buf = b; remain_cnt = pos k }))
          ≡ r)
        × Ends b (take k xs) r
  unfolding visit packs
  visit-Ends [] n k b modest = (
    ok (record { out_buf = b; remain_cnt = pos k }),
    refl,
    rw (nil-take k) (refl, sym (append-nil (bufs.written b))),
  )
  visit-Ends (x ∷ xs) n zero b modest = (
    ok (record { out_buf = b; remain_cnt = negsuc 0 }),
    unfold pack_record in refl,
    (refl, sym (append-nil (bufs.written b))),
  )
  visit-Ends (x ∷ xs) n (suc zero) b (modest, more) =
      elim (Bool-cases (leb (end st nu bufs n 0 x b modest) (size st nu bufs n 0 x b modest))) [
        | inl fits ↦
            let (c, run, bytes, grew) = step_fits st nu bufs n 0 x b modest fits in
            let q : Packing st nu = record { out_buf = c; remain_cnt = pos 0 } in
            (
              ok q,
              rw run,
              Ends-cons b c x [] (ok q) fits bytes grew (length-put b c x bytes)
                  (refl, sym (append-nil (bufs.written c))),
            )
        | inr full ↦
            (err overflow_error, rw (step_full st nu bufs n 0 x b modest full), (rw full, refl))
      ]
  visit-Ends (x ∷ xs) n (suc (suc k)) b (modest, more) =
      elim (Bool-cases
        (leb (end st nu bufs n (suc k) x b modest) (size st nu bufs n (suc k) x b modest))) [
          | inl fits ↦
              let (c, run, bytes, grew) = step_fits st nu bufs n (suc k) x b modest fits in
              let at_end = length-put b c x bytes in
              let (r, run', ends) = visit-Ends xs (suc n) (suc k) c (rw (grew, at_end) more) in
              (
                r,
                rw (run, lt→ltb 0 (suc k) (omega arith), run'),
                Ends-cons b c x (take (suc k) xs) r fits bytes grew at_end ends,
              )
          | inr full ↦ (
            err overflow_error,
            rw (step_full st nu bufs n (suc k) x b modest full),
            (rw full, refl),
          )
        ]

  Ends-IsPacked :
      (k : ℕ) (b : nu.Buffer) (xs : List Bytes) (r : Result (Packing st nu))
      → bufs.written b ≡ le_bytes 4 k
      → length (bufs.written b) ≡ 4
      → nu.size b ≡ k * 128 + 4
      → Ends b xs r
      → IsPacked st nu bufs k xs (out_of st nu r)
  Ends-IsPacked k b xs (ok q) header four size (room, bytes) =
      (rw (four, size) at room, bytes ∙ ap (λ (l : Bytes). l ++ framed xs) header)
  Ends-IsPacked k b xs (err e) header four size (room, what) = (rw (four, size) at room, what)

  -- On an open log that holds the entries `es` from the raft index `first + 1` on, `pack(a + 1, k)`
  -- with `first` at most `a`, `a + 1` below 2 ^ 63 and `k` below 2 ^ 24 - 1, where the buffer would
  -- not grow to 2 ^ 31 bytes, leaves the log unchanged. It returns the number `k` and the records
  -- from the index `a + 1` on, at most `k` of them, each behind its length, where `packs` finds
  -- room for each of them in the buffer as it has grown, and throws std::overflow_error where
  -- `packs` does not.
  pub pack_exact :
      (id : Option ℕ) (dummy : LogEntry) (s : S) (first : ℕ) (es : List LogEntry) (a k : ℕ)
      → Represents nu law s first es
      → first ≤ a
      → a + 1 < 2 ^ 63
      → k < 2 ^ 24 - 1
      → IsModest (k * 128 + 4) 4 (map nu.serialize (take k (drop (a - first) es)))
      → (r : Result nu.Buffer) × (pack st nu (a + 1) (pos k) (opened id dummy s)
          ≡ (r, opened id dummy s))
        × IsPacked st nu bufs k (map nu.serialize (take k (drop (a - first) es))) r
  unfolding pack
  pack_exact id dummy s first es a k rep lo fits few modest =
      let (b0, allocated, bytes0, size0) = bufs.alloc_fresh (k * 128 + 4) (omega arith) in
      let (b1, counted, bytes1, size1) =
        bufs.put_int_room b0 k (rw (bytes0, size0) (omega arith)) in
      let xs : List Bytes = drop (a - first) (map nu.serialize es) in
      let header : bufs.written b1 ≡ le_bytes 4 k =
        bytes1 ∙ ap (λ (l : Bytes). l ++ le_bytes 4 k) bytes0 in
      let four : length (bufs.written b1) ≡ 4 =
        ap (λ (l : Bytes). length l) header ∙ length-le_bytes 4 k in
      let size : nu.size b1 ≡ k * 128 + 4 = size1 ∙ size0 in
      let same : take k xs ≡ map nu.serialize (take k (drop (a - first) es)) =
        ap (λ (l : List Bytes). take k l) (drop-map nu.serialize (a - first) es)
        ∙ take-map nu.serialize k (drop (a - first) es) in
      let (r, run, ends) = visit-Ends xs a k b1 (rw (size, four, same) modest) in
      let records : from (law.view s) a ≡ xs = ap (λ (v : LogView). from v a) rep.shows in
      let start : Result (Packing st nu) = ok (record { out_buf = b1; remain_cnt = pos k }) in
      let walk =
        law.foreach_visit (Result (Packing st nu)) s a (pack_record st nu) start
          (rw (first_of nu law rep) lo) in
      let estimated : (to_uint 64 (pos k) * 128 % 2 ^ 64 + 4) % 2 ^ 64 ≡ k * 128 + 4 =
        omega arith in
      let count : to_uint 32 (pos k) ≡ k = omega arith in
      (
        out_of st nu r,
        rw (estimated, allocated, count, counted, store_lsn_of a fits, walk, records, run),
        Ends-IsPacked k b1 (map nu.serialize (take k (drop (a - first) es))) r header four size
            (subst (λ (l : List Bytes). Ends b1 l r) same ends),
      )

  IsPacked-full :
      (k : ℕ) (xs : List Bytes) (r : Result nu.Buffer)
      → packs (k * 128 + 4) 4 xs ≡ false
      → IsPacked st nu bufs k xs r
      → r ≡ err overflow_error
  IsPacked-full k xs (ok b) full (room, bytes) = cc
  IsPacked-full k xs (err e) full (none, what) = ap err what

  large_full :
      (x y : Bytes)
      → 121 ≤ length x
      → length x ≤ 252
      → 520 ≤ length y
      → packs 260 4 (x ∷ y ∷ []) ≡ false
  unfolding packs
  large_full x y lo hi large = ground arith

  large-IsModest : (x y : Bytes) → length x ≤ 252 → length y < 2 ^ 30 → IsModest 260 4 (x ∷ y ∷ [])
  large-IsModest x y hi small = ground arith

  -- On an open log that holds the entries `es` from the raft index `first + 1` on, let a record of
  -- 121 to 252 bytes with the index `a + 1`, below 2 ^ 63, be followed by one of 520 bytes or more,
  -- below 2 ^ 30. Then `pack(a + 1, 2)` throws std::overflow_error and leaves the log unchanged.
  pub pack_large :
      (id : Option ℕ) (dummy : LogEntry) (s : S) (first : ℕ) (es rest : List LogEntry)
      (e e' : LogEntry) (a : ℕ)
      → Represents nu law s first es
      → first ≤ a
      → a + 1 < 2 ^ 63
      → drop (a - first) es ≡ e ∷ e' ∷ rest
      → 121 ≤ length (nu.serialize e)
      → length (nu.serialize e) ≤ 252
      → 520 ≤ length (nu.serialize e')
      → length (nu.serialize e') < 2 ^ 30
      → pack st nu (a + 1) (pos 2) (opened id dummy s) ≡ (err overflow_error, opened id dummy s)
  pack_large id dummy s first es rest e e' a rep lo fits here low high large small =
      let x : Bytes = nu.serialize e in
      let y : Bytes = nu.serialize e' in
      let two : map nu.serialize (take 2 (drop (a - first) es)) ≡ x ∷ y ∷ [] =
        ap (λ (l : List LogEntry). map nu.serialize (take 2 l)) here in
      let (r, run, packed) =
        pack_exact id dummy s first es a 2 rep lo fits (omega arith) (
          subst (λ (l : List Bytes). IsModest 260 4 l) (sym two) (large-IsModest x y high small)) in
      run
      ∙ ap (λ (r : Result nu.Buffer). (r, opened id dummy s))
          (IsPacked-full 2 (x ∷ y ∷ []) r (large_full x y low high large)
            (subst (λ (l : List Bytes). IsPacked st nu bufs 2 l r) two packed))
