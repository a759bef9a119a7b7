-- ===== src/RaftLog/Codec.antt =====
-- A log entry as the bytes of a record: what `to_nuraft_log_entry` and `extract_term` find there.
use home_replication.Base.{
  ℕ, ◌+◌, ◌^◌, ◌<◌, ◌≡◌, ◌≢◌, ◌∙◌, ap, sym, ◌++◌, ◌∷◌, [], arith, length, take, drop, length-append,
  take-append, drop-append, append_assoc, le→ltb,
}
use home_replication.Base.Exec.{Result, ok}
use home_replication.Bytes.{Bytes, le_bytes, le_value, length-le_bytes, le_value-le_bytes}
use home_replication.Endian.{dec64}
use home_replication.Endian.Order.{swapped, reverse_order_64-swapped}
use home_replication.Serializer.{SeBufSerializer}
use home_replication.Serializer.Steps.{get_u64_fits}
use home_replication.Nuraft.{LogEntry, Nuraft, EntryFormat}
use home_replication.RaftLog.{to_nuraft_log_entry, extract_term}

module _ (nu : Nuraft) where
  -- The term is a uint64_t, the type a byte, and the record's size a uint32_t.
  pub record IsEntry (e : LogEntry) : Type 0 where
    pub term_fits : e.term < 2 ^ 64
    pub type_fits : e.val_type < 256
    pub size_fits : length (nu.serialize e) < 2 ^ 32

module _ (nu : Nuraft) (format : EntryFormat nu) where
  pub length-serialize : (e : LogEntry) → length (nu.serialize e) ≡ 9 + length e.buf
  length-serialize e = rw (format.layout e) (
      omega
        (arith, length-append (le_bytes 8 e.term) (e.val_type ∷ e.buf), length-le_bytes 8 e.term))

  term_bytes : (e : LogEntry) → take 8 (nu.serialize e) ≡ le_bytes 8 e.term
  term_bytes e = rw (format.layout e) (
      take-append 8 (le_bytes 8 e.term) (e.val_type ∷ e.buf)
        (omega (arith, length-le_bytes 8 e.term)))

  rest_bytes : (e : LogEntry) → drop 8 (nu.serialize e) ≡ e.val_type ∷ e.buf
  rest_bytes e = rw (format.layout e) (
      drop-append 8 (le_bytes 8 e.term) (e.val_type ∷ e.buf)
        (omega (arith, length-le_bytes 8 e.term)))

  buf_bytes : (e : LogEntry) → drop 9 (nu.serialize e) ≡ e.buf
  buf_bytes e =
      ap (λ (t : Bytes). drop 9 t) (format.layout e)
      ∙ ap (λ (t : Bytes). drop 9 t)
          (sym (append_assoc (le_bytes 8 e.term) (e.val_type ∷ []) e.buf))
      ∙ drop-append 9 (le_bytes 8 e.term ++ (e.val_type ∷ [])) e.buf (
          omega
            (arith, length-append (le_bytes 8 e.term) (e.val_type ∷ []), length-le_bytes 8 e.term))

  -- An entry whose fields fit their widths is read back by `to_nuraft_log_entry` from its record in
  -- nuraft's layout: term, type and contents.
  pub to_nuraft_log_entry-serialize :
      (e : LogEntry) → IsEntry nu e → to_nuraft_log_entry (nu.serialize e) ≡ ok e
  unfolding to_nuraft_log_entry le_value
  to_nuraft_log_entry-serialize e h =
      rw
        (
          le→ltb (length (nu.serialize e)) 9 (omega (arith, length-serialize e)),
          term_bytes e,
          rest_bytes e,
          buf_bytes e,
        )
        (ground (arith, le_value-le_bytes 8 e.term h.term_fits))

  -- `extract_term` finds the term with its bytes reversed.
  pub extract_term-serialize :
      (e : LogEntry) → IsEntry nu e → extract_term (nu.serialize e) ≡ ok (swapped 8 e.term)
  unfolding extract_term dec64
  extract_term-serialize e h =
      ap (λ (r : Result ℕ × SeBufSerializer). r.0)
        (get_u64_fits (nu.serialize e) 0 (omega (arith, h.size_fits))
          (omega (arith, length-serialize e)))
      ∙ ap (λ (t : Bytes). ok (dec64 (le_value t))) (term_bytes e)
      ∙ ap (λ (t : ℕ). ok (dec64 t)) (le_value-le_bytes 8 e.term h.term_fits)
      ∙ ap ok (reverse_order_64-swapped e.term)

-- A term below 2 ^ 32 other than 0 comes back from `extract_term` as another number.
pub swapped-ne : (v : ℕ) → 0 < v → v < 2 ^ 32 → swapped 8 v ≢ v
unfolding le_bytes le_value
swapped-ne v p h e = omega arith
