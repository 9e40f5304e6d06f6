-- ===== src/RecordLog/Appends.antt =====
-- A log built by calls of `append`, replayed.
use lion_fs.Base.{
  Bytes, ℕ, suc, ◌+◌, ◌<◌, ◌≡◌, refl, sym, ap, ◌∙◌, inl, inr, true, false, some, List, [], ◌∷◌,
  ◌++◌, arith, length, u64_mod, u32_mod, add_u64, add_u64-exact, if◌then◌else◌, append_assoc,
  append-nil, All, Bool-cases,
}
use lion_fs.RecordLog.{
  LogEntry, RecordType, commit, RecordLog, new, append, is_refused, replay, encode_record, no_stats,
  commit_window, checkpoint_due,
}
use lion_fs.RecordLog.Wire.{IsEncodable}
use lion_fs.RecordLog.Torn.{encode_all, stats_of, replay-torn, length-encode_record}

-- A call of `append`: its arguments.
pub record Call : Type 0 where
  pub kind : RecordType
  pub file_id : ℕ
  pub offset : ℕ
  pub payload : Bytes

abbrev pub FitsWords : Call → Type 0
FitsWords c = (c.file_id < u64_mod) × (c.offset < u64_mod) × (length c.payload < u32_mod)

abbrev entry_at : ℕ → Call → LogEntry
entry_at seq c = record {
  kind = c.kind;
  file_id = c.file_id;
  offset = c.offset;
  sequence = seq;
  payload = c.payload;
}

-- The entries of the calls that are not refused, numbered from `seq` on.
abbrev pub entries_from : ℕ → List Call → List LogEntry
entries_from seq [] = []
entries_from seq (c ∷ cs) =
    if is_refused c.kind (length c.payload)
    then entries_from seq cs
    else entry_at seq c ∷ entries_from (suc seq) cs

-- Any entry: no byte of it is written.
abbrev last_entry : LogEntry
last_entry = record { kind = commit; file_id = 0; offset = 0; sequence = 0; payload = [] }

last-IsEncodable : IsEncodable last_entry
last-IsEncodable = record {
  file_id_fits = omega arith;
  offset_fits = omega arith;
  sequence_fits = omega arith;
  payload_fits = omega arith;
}

due_after_commit :
    (log : RecordLog) (byte_budget record_budget : ℕ)
    → log.last_kind ≡ some commit
    → 1 < log.records_since_checkpoint
    → 0 < log.bytes_since_checkpoint
    → checkpoint_due log byte_budget record_budget ≡ true
unfolding checkpoint_due
due_after_commit log byte_budget record_budget last records bytes = ground arith

module _ (crc : Bytes → ℕ) where
  abbrev pub append_calls : RecordLog → List Call → RecordLog
  append_calls log [] = log
  append_calls log (c ∷ cs) = append_calls (append crc log c.kind c.file_id c.offset c.payload).0 cs

  append_refused :
      (log : RecordLog) (c : Call)
      → is_refused c.kind (length c.payload) ≡ true
      → (append crc log c.kind c.file_id c.offset c.payload).0 ≡ log
  unfolding append
  append_refused log c e = rw (append, e) refl

  append_taken :
      (log : RecordLog) (c : Call)
      → is_refused c.kind (length c.payload) ≡ false
      → let next = (append crc log c.kind c.file_id c.offset c.payload).0 in
        (next.sink ≡ log.sink ++ encode_record crc (entry_at log.next_sequence c))
        × (next.next_sequence ≡ add_u64 log.next_sequence 1)
        × (next.bytes_since_checkpoint
            ≡ add_u64 log.bytes_since_checkpoint
                (length (encode_record crc (entry_at log.next_sequence c))))
        × (next.records_since_checkpoint ≡ add_u64 log.records_since_checkpoint 1)
        × (next.last_kind ≡ some c.kind)
  unfolding append
  append_taken log c e = rw (append, e) ((refl, refl, refl, refl, refl))

  sink-append_calls :
      (log : RecordLog) (cs : List Call)
      → log.next_sequence + length cs < u64_mod
      → (append_calls log cs).sink ≡ log.sink ++ encode_all crc (entries_from log.next_sequence cs)
  sink-append_calls log [] h = sym (append-nil log.sink)
  sink-append_calls log (c ∷ cs) h = elim (Bool-cases (is_refused c.kind (length c.payload))) [
    | inl refused ↦ rw (refused) (
        ap (λ l. (append_calls l cs).sink) (append_refused log c refused)
        ∙ sink-append_calls log cs (omega arith))
    | inr taken ↦
        let next = (append crc log c.kind c.file_id c.offset c.payload).0 in
        let step = append_taken log c taken in
        let follows : next.next_sequence ≡ suc log.next_sequence =
          omega (arith, step.1, add_u64-exact log.next_sequence 1 (omega arith)) in
        let later = sink-append_calls next cs (omega (arith, follows)) in
        let entry = encode_record crc (entry_at log.next_sequence c) in
        rw (taken) (
          later
          ∙ ap (λ n. next.sink ++ encode_all crc (entries_from n cs)) follows
          ∙ ap (λ b. b ++ encode_all crc (entries_from (suc log.next_sequence) cs)) step.0
          ∙ append_assoc log.sink entry (encode_all crc (entries_from (suc log.next_sequence) cs)))
  ]

  entries-IsEncodable :
      (seq : ℕ) (cs : List Call)
      → seq + length cs < u64_mod
      → All FitsWords cs
      → All IsEncodable (entries_from seq cs)
  entries-IsEncodable seq [] h v = tt
  entries-IsEncodable seq (c ∷ cs) h v = elim (Bool-cases (is_refused c.kind (length c.payload))) [
    | inl refused ↦ rw (refused) (entries-IsEncodable seq cs (omega arith) v.1)
    | inr taken ↦ rw (taken) (
        (
          record {
            file_id_fits = v.0.0;
            offset_fits = v.0.1;
            sequence_fits = omega arith;
            payload_fits = v.0.2;
          },
          entries-IsEncodable (suc seq) cs (omega arith) v.1,
        ))
  ]

  -- The log of any calls of `append` whose arguments fit in their words, fewer than 2^64: replay
  -- returns exactly the calls that were not refused, in order, numbered from 0 without a gap, and
  -- ends cleanly. The checksum fits in a u32.
  pub replay-append_calls :
      (cs : List Call)
      → ((b : Bytes) → crc b < 4294967296)
      → length cs < u64_mod
      → All FitsWords cs
      → replay crc (append_calls (new []) cs).sink
        ≡ some (entries_from 0 cs, stats_of no_stats (entries_from 0 cs))
  unfolding new
  replay-append_calls cs fits few v =
      let es = entries_from 0 cs in
      let image = sink-append_calls (new []) cs (omega arith) in
      ap (replay crc) (image ∙ sym (append-nil (encode_all crc es)))
      ∙ replay-torn crc fits es last_entry 0 (entries-IsEncodable 0 cs (omega arith) v)
          last-IsEncodable (omega (arith, length-encode_record crc last_entry))

  -- After one record of data and a commit, from any log, a checkpoint is due whatever the budgets
  -- are, if the counters do not overflow.
  pub checkpoint_due-commit_window :
      (log : RecordLog) (c : Call) (byte_budget record_budget : ℕ)
      → is_refused c.kind (length c.payload) ≡ false
      → log.records_since_checkpoint + 2 < u64_mod
      → log.bytes_since_checkpoint + length c.payload + 88 < u64_mod
      → checkpoint_due
          (commit_window crc (append crc log c.kind c.file_id c.offset c.payload).0).0
          byte_budget
          record_budget
        ≡ true
  unfolding commit_window is_refused
  checkpoint_due-commit_window log c byte_budget record_budget ok few small =
      let once = (append crc log c.kind c.file_id c.offset c.payload).0 in
      let first = append_taken log c ok in
      let second =
        append_taken once (record { kind = commit; file_id = 0; offset = 0; payload = [] }) refl in
      let entry = entry_at log.next_sequence c in
      let mark =
        entry_at once.next_sequence
          (record { kind = commit; file_id = 0; offset = 0; payload = [] }) in
      due_after_commit (commit_window crc once).0 byte_budget record_budget second.4
        (omega (
          arith,
          first.3,
          second.3,
          add_u64-exact log.records_since_checkpoint 1 (omega arith),
          add_u64-exact once.records_since_checkpoint 1
              (omega (arith, first.3, add_u64-exact log.records_since_checkpoint 1 (omega arith))),
        ))
        (omega (
          arith,
          first.2,
          second.2,
          length-encode_record crc entry,
          length-encode_record crc mark,
          add_u64-exact log.bytes_since_checkpoint (length (encode_record crc entry))
              (omega (arith, length-encode_record crc entry)),
          add_u64-exact once.bytes_since_checkpoint (length (encode_record crc mark)) (
              omega (
                arith,
                first.2,
                length-encode_record crc entry,
                length-encode_record crc mark,
                add_u64-exact log.bytes_since_checkpoint (length (encode_record crc entry))
                    (omega (arith, length-encode_record crc entry)),
              )),
        ))
