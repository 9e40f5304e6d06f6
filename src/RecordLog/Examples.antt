-- ===== src/RecordLog/Examples.antt =====
-- Two records under a checksum that counts the bytes: tests, and the theorems at concrete inputs.
use lion_fs.Base.{
  Bytes, ℕ, ◌%◌, ◌<◌, ◌≡◌, refl, true, none, some, List, [], ◌∷◌, ◌++◌, arith, length, take,
  u32_mod, if◌then◌else◌, ◌==◌,
}
use lion_fs.RecordLog.{
  LogEntry, RecordType, create, write, delete, commit, RecordLog, new, append, commit_window,
  mark_checkpoint, checkpoint_due, replay, encode_record, encode_header, torn, corrupt, no_stats,
  decode_header, stopped,
}
use lion_fs.RecordLog.Wire.{IsEncodable}
use lion_fs.RecordLog.Torn.{encode_all, stats_of, replay-torn, length-encode_record}
use lion_fs.RecordLog.Appends.{
  Call, append_calls, entries_from, replay-append_calls, checkpoint_due-commit_window,
}

abbrev byte_count : Bytes → ℕ
byte_count b = length b % u32_mod

byte_count_fits : (b : Bytes) → byte_count b < 4294967296
byte_count_fits b = omega arith

abbrev hello : LogEntry
hello = record { kind = create; file_id = 7; offset = 0; sequence = 0; payload = 104 ∷ 105 ∷ [] }

abbrev gone : LogEntry
gone = record { kind = delete; file_id = 7; offset = 0; sequence = 1; payload = [] }

hello-IsEncodable : IsEncodable hello
hello-IsEncodable = record {
  file_id_fits = omega arith;
  offset_fits = omega arith;
  sequence_fits = omega arith;
  payload_fits = omega arith;
}

gone-IsEncodable : IsEncodable gone
gone-IsEncodable = record {
  file_id_fits = omega arith;
  offset_fits = omega arith;
  sequence_fits = omega arith;
  payload_fits = omega arith;
}

-- A header of another format.
corrupt_test : decode_header (1 ∷ take 50 (encode_record byte_count hello)) ≡ stopped corrupt
unfolding decode_header encode_record encode_header
corrupt_test = refl

-- Control records carry no payload.
refused_test : (append byte_count (new []) delete 7 0 (1 ∷ [])).1 ≡ none
unfolding append
refused_test = refl

checkpoint_test : (mark_checkpoint byte_count (new []) 5).0.records_since_checkpoint ≡ 0
unfolding mark_checkpoint
checkpoint_test = refl

-- The delete is cut off after 10 bytes.
replay-torn_example :
    replay byte_count
      (encode_all byte_count (hello ∷ []) ++ take 10 (encode_record byte_count gone))
    ≡ some (
      hello ∷ [],
      (if 10 == 0
          then stats_of no_stats (hello ∷ [])
          else record (stats_of no_stats (hello ∷ [])) { tail = some torn }),
    )
replay-torn_example =
    replay-torn byte_count byte_count_fits (hello ∷ []) gone 10 (hello-IsEncodable, tt)
      gone-IsEncodable (omega (arith, length-encode_record byte_count gone))

abbrev calls : List Call
calls =
    record { kind = create; file_id = 7; offset = 0; payload = 104 ∷ 105 ∷ [] }
    ∷ record { kind = delete; file_id = 7; offset = 0; payload = 1 ∷ [] }
    ∷ record { kind = commit; file_id = 0; offset = 0; payload = [] }
    ∷ []

replay-append_calls_example :
    replay byte_count (append_calls byte_count (new []) calls).sink
    ≡ some (entries_from 0 calls, stats_of no_stats (entries_from 0 calls))
replay-append_calls_example =
    replay-append_calls byte_count calls byte_count_fits (omega arith) (omega arith)

checkpoint_due-commit_window_example :
    checkpoint_due
      (commit_window byte_count (append byte_count (new []) create 7 0 (9 ∷ [])).0).0
      1000000
      1000
    ≡ true
unfolding new lion_fs.RecordLog.is_refused
checkpoint_due-commit_window_example =
    checkpoint_due-commit_window byte_count (new [])
      (record { kind = create; file_id = 7; offset = 0; payload = 9 ∷ [] }) 1000000 1000 refl
      (omega arith) (omega arith)
