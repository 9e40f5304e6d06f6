-- ===== src/RecordLog/Torn.antt =====
-- Replay of a log that ends in the middle of a record.
use lion_fs.Base.{
  Bytes, ℕ, suc, ◌+◌, ◌-◌, ◌≤◌, ◌<◌, ◌≡◌, refl, sym, ap, ◌∙◌, true, some, List, [], ◌∷◌, ◌++◌,
  arith, tests, ◌==◌, ==_self, eq_of_==, ne_of_==_false, if◌then◌else◌, take_past, take_none,
  length, length-append, take, drop, to_le_bytes, from_le_bytes-to_le_bytes, length-to_le_bytes,
  take_at, drop_at, append_assoc, append-nil, length-take, ltb, Bool-cases, inl, inr, All,
}
use lion_fs.RecordLog.{
  LogEntry, header, stopped, torn, encode_header, encode_record, decode_header, is_intact, entry_of,
  ReplayStats, replay, replay_loop, count_entry, no_stats,
}
use lion_fs.RecordLog.Wire.{
  IsEncodable, header_of, decode_header-encode_header, decode_header-torn, decode_header-short,
  length-encode_header,
}

-- The statistics after the entries.
abbrev pub stats_of : ReplayStats → List LogEntry → ReplayStats
stats_of stats [] = stats
stats_of stats (e ∷ es) = stats_of (count_entry stats (header_of e)) es

size_of_header : (e : LogEntry) → length (encode_header e) ≡ 40
size_of_header e =
    omega (arith, ap length (append-nil (encode_header e)), length-encode_header e [])

-- A loop's fuel: a round for each entry, and `fuel` more.
abbrev rounds : List LogEntry → ℕ → ℕ
rounds [] fuel = fuel
rounds (e ∷ es) fuel = suc (rounds es fuel)

rounds-eq-add : (es : List LogEntry) (fuel : ℕ) → rounds es fuel ≡ length es + fuel
rounds-eq-add [] fuel = omega arith
rounds-eq-add (e ∷ es) fuel = omega (arith, rounds-eq-add es fuel)

module _ (crc : Bytes → ℕ) where
  abbrev pub encode_all : List LogEntry → Bytes
  encode_all [] = []
  encode_all (e ∷ es) = encode_record crc e ++ encode_all es

  -- A record before other bytes: what is framed, the checksum, the rest.
  frame : LogEntry → Bytes
  frame e = encode_header e ++ e.payload

  length-frame : (e : LogEntry) → length (frame e) ≡ 40 + length e.payload
  unfolding frame
  length-frame e = length-encode_header e e.payload

  framed :
      (e : LogEntry) (rest : Bytes)
      → encode_record crc e ++ rest ≡ frame e ++ (to_le_bytes 4 (crc (frame e)) ++ rest)
  unfolding encode_record frame
  framed e rest = append_assoc (frame e) (to_le_bytes 4 (crc (frame e))) rest

  pub length-encode_record : (e : LogEntry) → length (encode_record crc e) ≡ 44 + length e.payload
  unfolding encode_record frame
  length-encode_record e = omega (
    arith,
    length-append (frame e) (to_le_bytes 4 (crc (frame e))),
    length-frame e,
    length-to_le_bytes 4 (crc (frame e)),
  )

  is_intact-encode_record :
      (e : LogEntry) (rest : Bytes)
      → crc (frame e) < 4294967296
      → is_intact crc (encode_record crc e ++ rest) (header_of e) ≡ true
  unfolding is_intact
  is_intact-encode_record e rest h =
      rw
        (
          is_intact,
          framed e rest,
          take_at (40 + length e.payload + 4 - 4) (frame e) (to_le_bytes 4 (crc (frame e)) ++ rest)
              (omega (arith, length-frame e)),
          drop_at (40 + length e.payload + 4 - 4) (frame e) (to_le_bytes 4 (crc (frame e)) ++ rest)
              (omega (arith, length-frame e)),
          take_at (40 + length e.payload + 4 - (40 + length e.payload + 4 - 4))
              (to_le_bytes 4 (crc (frame e))) rest
              (omega (arith, length-to_le_bytes 4 (crc (frame e)))),
          from_le_bytes-to_le_bytes 4 (crc (frame e)) h,
        )
        (==_self (crc (frame e)))

  entry_of-encode_record :
      (e : LogEntry) (rest : Bytes) → entry_of (encode_record crc e ++ rest) (header_of e) ≡ e
  unfolding entry_of frame
  entry_of-encode_record e rest =
      ap (λ (b : Bytes). record e { payload = b })
        (rw
          (
            framed e rest,
            append_assoc (encode_header e) e.payload (to_le_bytes 4 (crc (frame e)) ++ rest),
            drop_at 40 (encode_header e) (e.payload ++ (to_le_bytes 4 (crc (frame e)) ++ rest))
                (omega (arith, size_of_header e)),
          )
          (take_at (40 + length e.payload - 40) e.payload (to_le_bytes 4 (crc (frame e)) ++ rest)
            (omega arith)))

  drop-encode_record :
      (e : LogEntry) (rest : Bytes) → drop (header_of e).total (encode_record crc e ++ rest) ≡ rest
  drop-encode_record e rest =
      drop_at (40 + length e.payload + 4) (encode_record crc e) rest
        (omega (arith, length-encode_record e))

  -- A record before other bytes decodes, whatever the other bytes are.
  decode-encode_record :
      (e : LogEntry) (rest : Bytes)
      → IsEncodable e
      → decode_header (encode_record crc e ++ rest) ≡ header (header_of e)
  unfolding frame
  decode-encode_record e rest v =
      let sum = to_le_bytes 4 (crc (frame e)) in
      rw (framed e rest, append_assoc (encode_header e) e.payload (sum ++ rest))
        (decode_header-encode_header e (e.payload ++ (sum ++ rest)) v (
          omega (
            arith,
            length-append e.payload (sum ++ rest),
            length-append sum rest,
            length-to_le_bytes 4 (crc (frame e)),
          )))

  record_parts :
      (e : LogEntry)
      → encode_record crc e ≡ encode_header e ++ (e.payload ++ to_le_bytes 4 (crc (frame e)))
  unfolding encode_record frame
  record_parts e = append_assoc (encode_header e) e.payload (to_le_bytes 4 (crc (frame e)))

  -- A part of a record, not empty and not whole, is torn.
  decode-part :
      (e : LogEntry) (n : ℕ)
      → IsEncodable e
      → 0 < n
      → n < length (encode_record crc e)
      → decode_header (take n (encode_record crc e)) ≡ stopped torn
  decode-part e n v pos short = elim (Bool-cases (ltb n 40)) [
    | inl early ↦
        let size = length-take n (encode_record crc e) (omega arith) in
        decode_header-short (take n (encode_record crc e)) (omega (arith, size))
          (omega (tests, size, early))
    | inr late ↦
        let sum = to_le_bytes 4 (crc (frame e)) in
        let part = take (n - length (encode_header e)) (e.payload ++ sum) in
        let size = length-take (n - length (encode_header e)) (e.payload ++ sum) (
          omega (
            arith,
            size_of_header e,
            length-append e.payload sum,
            length-to_le_bytes 4 (crc (frame e)),
            length-encode_record e,
          )) in
        rw
          (
            record_parts e,
            take_past n (encode_header e) (e.payload ++ sum)
                (omega (tests, late, size_of_header e)),
          )
          (decode_header-torn e part v
            (omega (arith, size, size_of_header e, length-encode_record e)))
  ]

  module _ (fits : (b : Bytes) → crc b < 4294967296) where
    -- One round of the loop reads the record in front.
    one_round :
        (fuel : ℕ) (e : LogEntry) (rest : Bytes) (out : List LogEntry) (stats : ReplayStats)
        → IsEncodable e
        → replay_loop crc (suc fuel) (encode_record crc e ++ rest) out stats
          ≡ replay_loop crc fuel rest (out ++ (e ∷ [])) (count_entry stats (header_of e))
    unfolding replay_loop
    one_round fuel e rest out stats v =
        rw
          (
            replay_loop,
            decode-encode_record e rest v,
            is_intact-encode_record e rest (fits (frame e)),
            entry_of-encode_record e rest,
            drop-encode_record e rest,
          )
          refl

    replay_loop-encode_all :
        (es : List LogEntry) (tail : Bytes) (fuel : ℕ) (out : List LogEntry) (stats : ReplayStats)
        → All IsEncodable es
        → replay_loop crc (rounds es fuel) (encode_all es ++ tail) out stats
          ≡ replay_loop crc fuel tail (out ++ es) (stats_of stats es)
    replay_loop-encode_all [] tail fuel out stats v =
        ap (λ l. replay_loop crc fuel tail l stats) (sym (append-nil out))
    replay_loop-encode_all (e ∷ es) tail fuel out stats v =
        ap (λ b. replay_loop crc (suc (rounds es fuel)) b out stats)
          (append_assoc (encode_record crc e) (encode_all es) tail)
        ∙ one_round (rounds es fuel) e (encode_all es ++ tail) out stats v.0
        ∙ replay_loop-encode_all es tail fuel (out ++ (e ∷ [])) (count_entry stats (header_of e))
            v.1
        ∙ ap (λ l. replay_loop crc fuel tail l (stats_of (count_entry stats (header_of e)) es))
            (append_assoc out (e ∷ []) es)

    -- How replay ends on a part of a record: cleanly if nothing of it was written.
    ends :
        (fuel : ℕ) (e : LogEntry) (n : ℕ) (out : List LogEntry) (stats : ReplayStats)
        → IsEncodable e
        → n < length (encode_record crc e)
        → replay_loop crc (suc fuel) (take n (encode_record crc e)) out stats
          ≡ some (out, (if n == 0 then stats else record stats { tail = some torn }))
    unfolding replay_loop
    ends fuel e n out stats v short = elim (Bool-cases (n == 0)) [
      | inl nothing ↦ rw (nothing, take_none n (encode_record crc e) (eq_of_== n 0 nothing)) refl
      | inr some_bytes ↦
          let ne = ne_of_==_false n 0 some_bytes in
          let pos : 0 < n = ground (arith, ne) in
          rw (some_bytes, replay_loop, decode-part e n v pos short) refl
    ]

    count_bytes : (es : List LogEntry) → All IsEncodable es → length es ≤ length (encode_all es)
    count_bytes [] v = omega arith
    count_bytes (e ∷ es) v = omega (
      arith,
      length-append (encode_record crc e) (encode_all es),
      length-encode_record e,
      count_bytes es v.1,
    )

    -- A log of whole records that ends in the first `n` bytes of one more record, fewer than all:
    -- replay returns exactly the whole records, in order and unchanged, with their count, their
    -- bytes and the last sequence number, and reports a torn tail exactly if `n` is not 0. The
    -- fields of the records fit in their words, and the checksum fits in a u32.
    pub replay-torn :
        (es : List LogEntry) (e : LogEntry) (n : ℕ)
        → All IsEncodable es
        → IsEncodable e
        → n < length (encode_record crc e)
        → replay crc (encode_all es ++ take n (encode_record crc e))
          ≡ some (
            es,
            (if n == 0
                then stats_of no_stats es
                else record (stats_of no_stats es) { tail = some torn }),
          )
    unfolding replay
    replay-torn es e n v w short =
        let tail = take n (encode_record crc e) in
        let image = encode_all es ++ tail in
        let spare = length image - length es in
        let enough : suc (length image) ≡ rounds es (suc spare) = omega (
          arith,
          rounds-eq-add es (suc spare),
          count_bytes es v,
          length-append (encode_all es) tail,
        ) in
        ap (λ fuel. replay_loop crc fuel image [] no_stats) enough
        ∙ replay_loop-encode_all es tail (suc spare) [] no_stats v
        ∙ ends spare e n es (stats_of no_stats es) w short
