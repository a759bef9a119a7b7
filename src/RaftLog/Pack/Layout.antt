-- ===== src/RaftLog/Pack/Layout.antt =====
-- What `pack` of HomeRaftLogStore writes into its buffer.
use home_replication.Base.{
  ℕ, zero, suc, ◌+◌, ◌-◌, ◌*◌, ◌%◌, ◌^◌, ◌≤◌, ◌<◌, ◌≡◌, ◌∙◌, refl, ap, sym, ◌++◌, ◌∷◌, [], List,
  map, Option, arith, length, take, drop, All, All-drop, take-map, drop-map, append_assoc,
  append-nil, length-append, ltb, lt→ltb, nil-take,
}
use home_replication.Base.Int.{pos, negsuc, to_uint}
use home_replication.Base.Exec.{Result, ok, err, overflow_error}
use home_replication.Bytes.{Bytes, le_bytes, length-le_bytes}
use home_replication.HomeStore.{HomeLogStore, AppendLog, visit}
use home_replication.HomeStore.View.{LogView, from}
use home_replication.Nuraft.{LogEntry, Nuraft, BufferLaws}
use home_replication.RaftLog.Represents.{opened, Represents, first_of, store_lsn_of}
use home_replication.RaftLog.Pack.{Packing, make_room, pack_record, pack}

-- Records, each behind its length in 4 bytes.
abbrev pub framed : List Bytes → Bytes
framed [] = []
framed (x ∷ xs) = le_bytes 4 (length x) ++ (x ++ framed xs)

-- A record that fits the 128 bytes which `pack` estimates for it, with its length.
abbrev pub IsSmall : Bytes → Type 0
IsSmall x = length x ≤ 124

module _ {S : Type 0} (st : HomeLogStore S) (nu : Nuraft) (law : AppendLog st)
    (bufs : BufferLaws nu) where
  -- One call of the lambda, with room for the record.
  pack_record_room :
      (n k : ℕ) (x : Bytes) (b : nu.Buffer)
      → length (bufs.written b) + 128 ≤ nu.size b
      → IsSmall x
      → (c : nu.Buffer) × (pack_record st nu
            (pos n)
            x
            (ok (record { out_buf = b; remain_cnt = pos (suc k) }))
          ≡ (ltb 0 k, ok (record { out_buf = c; remain_cnt = pos k })))
        × (bufs.written c ≡ bufs.written b ++ (le_bytes 4 (length x) ++ x))
        × (nu.size c ≡ nu.size b)
  unfolding pack_record make_room
  pack_record_room n k x b room small =
      let (c, put, bytes, size) = bufs.put_bytes_room b x (omega arith) in
      (c, ground (arith, bufs.pos_written b, put), bytes, size)

  pack_visit :
      (xs : List Bytes) (n k : ℕ) (b : nu.Buffer)
      → All IsSmall xs
      → length (bufs.written b) + 128 * k ≤ nu.size b
      → (q : Packing st nu) × (visit
            (pack_record st nu)
            n
            xs
            (ok (record { out_buf = b; remain_cnt = pos k }))
          ≡ ok q)
        × (bufs.written q.out_buf ≡ bufs.written b ++ framed (take k xs))
  unfolding visit
  pack_visit [] n k b small room = (
    record { out_buf = b; remain_cnt = pos k },
    refl,
    sym (append-nil (bufs.written b)) ∙ ap (λ l. bufs.written b ++ framed l) (sym (nil-take k)),
  )
  pack_visit (x ∷ xs) n zero b small room = (
    record { out_buf = b; remain_cnt = negsuc 0 },
    unfold pack_record in refl,
    sym (append-nil (bufs.written b)),
  )
  pack_visit (x ∷ xs) n (suc zero) b (hx, hxs) room =
      let (c, run, bytes, size) = pack_record_room n 0 x b (omega arith) hx in
      (
        record { out_buf = c; remain_cnt = pos 0 },
        rw run,
        bytes ∙ ap (λ l. bufs.written b ++ (le_bytes 4 (length x) ++ l)) (sym (append-nil x)),
      )
  pack_visit (x ∷ xs) n (suc (suc k)) b (hx, hxs) room =
      let (c, run, bytes, size) = pack_record_room n (suc k) x b (omega arith) hx in
      let head : Bytes = le_bytes 4 (length x) ++ x in
      let grown : length (bufs.written c) ≤ length (bufs.written b) + 128 = rw bytes (
        omega (
          arith,
          length-append (bufs.written b) head,
          length-append (le_bytes 4 (length x)) x,
          length-le_bytes 4 (length x),
        )) in
      let (q, run', bytes') = pack_visit xs (suc n) (suc k) c hxs (omega arith) in
      (
        q,
        rw (run, lt→ltb 0 (suc k) (omega arith), run'),
        bytes'
            ∙ ap (λ l. l ++ framed (take (suc k) xs)) bytes
            ∙ append_assoc (bufs.written b) head (framed (take (suc k) xs))
            ∙ ap (λ l. bufs.written b ++ l)
                (append_assoc (le_bytes 4 (length x)) x (framed (take (suc k) xs))),
      )

  -- On an open log that holds the entries `es` from the raft index `first + 1` on, all of whose
  -- records have at most 124 bytes, `pack(a + 1, k)` with `first` at most `a`, `a + 1` below 2 ^ 63
  -- and `k` below 2 ^ 24 - 1 succeeds and leaves the log unchanged: the bytes written are the
  -- number `k` and the records from the index `a + 1` on, at most `k` of them, each behind its
  -- length.
  pub pack_lem :
      (id : Option ℕ) (dummy : LogEntry) (s : S) (first : ℕ) (es : List LogEntry) (a k : ℕ)
      → Represents nu law s first es
      → first ≤ a
      → a + 1 < 2 ^ 63
      → k < 2 ^ 24 - 1
      → All IsSmall (map nu.serialize es)
      → (b : nu.Buffer) × (pack st nu (a + 1) (pos k) (opened id dummy s)
          ≡ (ok b, opened id dummy s))
        × (bufs.written b
            ≡ le_bytes 4 k ++ framed (map nu.serialize (take k (drop (a - first) es))))
  unfolding pack
  pack_lem id dummy s first es a k rep lo fits few small =
      let (b0, allocated, bytes0, size0) = bufs.alloc_fresh (k * 128 + 4) (omega arith) in
      let (b1, counted, bytes1, size1) =
        bufs.put_int_room b0 k (rw (bytes0, size0) (omega arith)) in
      let xs : List Bytes = drop (a - first) (map nu.serialize es) in
      let header : bufs.written b1 ≡ le_bytes 4 k =
        bytes1 ∙ ap (λ (l : Bytes). l ++ le_bytes 4 k) bytes0 in
      let room : length (bufs.written b1) + 128 * k ≤ nu.size b1 =
        rw header (omega (arith, length-le_bytes 4 k, size1, size0)) in
      let (q, run, bytes) =
        pack_visit xs a k b1 (All-drop IsSmall (a - first) (map nu.serialize es) small) room in
      let records : from (law.view s) a ≡ xs = ap (λ (v : LogView). from v a) rep.shows in
      let start : Result (Packing st nu) = ok (record { out_buf = b1; remain_cnt = pos k }) in
      let walk =
        law.foreach_visit (Result (Packing st nu)) s a (pack_record st nu) start
          (rw (first_of nu law rep) lo) in
      let estimated : (to_uint 64 (pos k) * 128 % 2 ^ 64 + 4) % 2 ^ 64 ≡ k * 128 + 4 =
        omega arith in
      let count : to_uint 32 (pos k) ≡ k = omega arith in
      (
        q.out_buf,
        rw (estimated, allocated, count, counted, store_lsn_of a fits, walk, records, run),
        bytes
            ∙ ap (λ (l : Bytes). l ++ framed (take k xs)) header
            ∙ ap (λ l. le_bytes 4 k ++ framed l)
                (ap (λ (l : List Bytes). take k l) (drop-map nu.serialize (a - first) es)
                  ∙ take-map nu.serialize k (drop (a - first) es)),
      )

  visit_full :
      (n : ℕ) (x : Bytes) (xs : List Bytes) (b : nu.Buffer)
      → length (bufs.written b) ≡ 4
      → nu.size b ≡ 132
      → 125 ≤ length x
      → length x ≤ 128
      → visit (pack_record st nu) n (x ∷ xs) (ok (record { out_buf = b; remain_cnt = pos 1 }))
        ≡ err overflow_error
  unfolding visit pack_record make_room
  visit_full n x xs b four size big small =
      let full = bufs.put_bytes_full b x (omega arith) in ground (arith, bufs.pos_written b, full)

  -- On an open log that holds the entries `es` from the raft index `first + 1` on, where the record
  -- with the index `a + 1`, below 2 ^ 63, has 125 to 128 bytes, `pack(a + 1, 1)` throws
  -- std::overflow_error and leaves the log unchanged.
  pack_overflow :
      (id : Option ℕ) (dummy : LogEntry) (s : S) (first : ℕ) (es rest : List LogEntry)
      (e : LogEntry) (a : ℕ)
      → Represents nu law s first es
      → first ≤ a
      → a + 1 < 2 ^ 63
      → drop (a - first) es ≡ e ∷ rest
      → 125 ≤ length (nu.serialize e)
      → length (nu.serialize e) ≤ 128
      → pack st nu (a + 1) (pos 1) (opened id dummy s) ≡ (err overflow_error, opened id dummy s)
  unfolding pack
  pack_overflow id dummy s first es rest e a rep lo fits here big small =
      let (b0, allocated, bytes0, size0) = bufs.alloc_fresh 132 (omega arith) in
      let (b1, counted, bytes1, size1) =
        bufs.put_int_room b0 1 (rw (bytes0, size0) (omega arith)) in
      let four : length (bufs.written b1) ≡ 4 =
        ap (λ (l : Bytes). length l) (bytes1 ∙ ap (λ (l : Bytes). l ++ le_bytes 4 1) bytes0)
        ∙ length-le_bytes 4 1 in
      let records : from (law.view s) a ≡ map nu.serialize (e ∷ rest) =
        ap (λ (v : LogView). from v a) rep.shows
        ∙ drop-map nu.serialize (a - first) es
        ∙ ap (λ (l : List LogEntry). map nu.serialize l) here in
      let start : Result (Packing st nu) = ok (record { out_buf = b1; remain_cnt = pos 1 }) in
      let walk =
        law.foreach_visit (Result (Packing st nu)) s a (pack_record st nu) start
          (rw (first_of nu law rep) lo) in
      rw (
        allocated,
        counted,
        store_lsn_of a fits,
        walk,
        records,
        visit_full a (nu.serialize e) (map nu.serialize rest) b1 four (size1 ∙ size0) big small,
      )
