-- ===== src/Journal/Rounds.antt =====
-- One round of the scan of the journal.
use mathlib.Core.Path.{subst}
use lion_fs.Base.{
  ℕ, zero, suc, ◌+◌, ◌*◌, ◌<◌, ◌≡◌, ◌≢◌, refl, sym, ap, ◌∙◌, Bool, true, false, ◌&&◌, ◌||◌, none,
  some, List, [], ◌∷◌, arith, ltb, leb, ◌==◌, ==_self, ==_of_ne, Bool-cases, Option-cases,
  some_injective, inl, inr, length, Bytes, from_le_bytes, slice,
}
use lion_fs.Journal.{
  Transaction, Superblock, Write, Disk, JournalRecordHeader, JournalHeader, journal_magic,
  read_header, read_record,
}
use lion_fs.Journal.Commit.{record_blocks}
use lion_fs.Journal.Recover.{is_sealed_header, read_records, is_footer, scan_block, Found}

pub some_not_none {ℓ} : {A : Type ℓ} {x : A} → some x ≡ none → ⊥
some_not_none e = cc

-- The block does not begin with the magic number.
abbrev pub IsPlain : Bytes → Type 0
IsPlain b = from_le_bytes (slice 0 8 b) ≢ journal_magic

pub length-record_blocks :
    (crc : Bytes → ℕ) (tx : Transaction) (ws : List Write)
    → length (record_blocks crc tx ws) ≡ 2 * length ws
length-record_blocks crc tx [] = refl
length-record_blocks crc tx (w ∷ ws) = omega (arith, length-record_blocks crc tx ws)

module _ (crc : Bytes → ℕ) (sb : Superblock) where
  not_past :
      (temp : ℕ)
      → temp + 1 < sb.journal_blocks
      → (leb sb.journal_blocks temp || leb sb.journal_blocks (temp + 1)) ≡ false
  not_past temp h = ground arith

  -- A round of the records' loop.
  pub read_checked :
      (disk : Disk) (n temp : ℕ)
      → temp + 1 < sb.journal_blocks
      → (crc (disk (sb.journal_start + (temp + 1)))
          == (read_record (disk (sb.journal_start + temp))).checksum)
        ≡ true
      → (rest : List Write × ℕ) → read_records crc sb disk n (temp + 2) ≡ some rest
      → read_records crc sb disk (suc n) temp
        ≡ some (
          (
            (read_record (disk (sb.journal_start + temp))).physical_block,
            disk (sb.journal_start + (temp + 1)),
          )
              ∷ rest.0,
          rest.1,
        )
  unfolding read_records
  read_checked disk n temp inside sum rest read =
      rw (read_records, not_past temp inside, sum, read) refl

  pub read_one :
      (disk : Disk) (n temp : ℕ) (block : Bytes) (place : ℕ) (rest : List Write × ℕ)
      → temp + 1 < sb.journal_blocks
      → disk (sb.journal_start + (temp + 1)) ≡ block
      → (read_record (disk (sb.journal_start + temp))).physical_block ≡ place
      → (read_record (disk (sb.journal_start + temp))).checksum ≡ crc block
      → read_records crc sb disk n (temp + 2) ≡ some rest
      → read_records crc sb disk (suc n) temp ≡ some ((place, block) ∷ rest.0, rest.1)
  read_one disk n temp block place rest inside is_block is_place is_sum read =
      let same =
        ap (λ k. crc (disk (sb.journal_start + (temp + 1))) == k) is_sum
        ∙ ap (λ b. crc b == crc block) is_block
        ∙ ==_self (crc block) in
      read_checked disk n temp inside same rest read
      ∙ ap (λ k. some ((k, disk (sb.journal_start + (temp + 1))) ∷ rest.0, rest.1)) is_place
      ∙ ap (λ b. some ((place, b) ∷ rest.0, rest.1)) is_block

  -- A round of the scan that finds a transaction.
  pub scan_valid :
      (disk : Disk) (current id : ℕ) (read : List Write × ℕ)
      → from_le_bytes (slice 0 8 (disk (sb.journal_start + current))) ≡ journal_magic
      → is_sealed_header crc sb (disk (sb.journal_start + current)) ≡ true
      → (read_header (disk (sb.journal_start + current))).tx_id ≡ id
      → read_records crc sb disk
          (read_header (disk (sb.journal_start + current))).entry_count
          (current + 1)
        ≡ some read
      → read.1 < sb.journal_blocks
      → is_footer crc sb (disk (sb.journal_start + read.1)) id ≡ true
      → scan_block crc sb disk current
        ≡ some (record { tx_id = id; records = read.0; footer_block = read.1 })
  unfolding scan_block
  scan_valid disk current id read magic good is_id records inside footer =
      let tested : (from_le_bytes (slice 0 8 (disk (sb.journal_start + current))) == journal_magic)
          ≡ true =
        ap (λ m. m == journal_magic) magic in
      let here : ltb read.1 sb.journal_blocks ≡ true = ground arith in
      let sealed = ap (λ k. is_footer crc sb (disk (sb.journal_start + read.1)) k) is_id ∙ footer in
      rw (scan_block, tested, good, records, here, sealed)
        (ap (λ k. some (record { tx_id = k; records = read.0; footer_block = read.1 })) is_id)

  -- A block without the magic number is passed over.
  pub scan_block-IsPlain :
      (disk : Disk) (current : ℕ)
      → IsPlain (disk (sb.journal_start + current))
      → scan_block crc sb disk current ≡ none
  unfolding scan_block
  scan_block-IsPlain disk current plain = rw (scan_block, ==_of_ne _ _ plain) refl

  -- The records of a header end after two blocks for each.
  read_records_end :
      (disk : Disk) (n temp : ℕ) (read : List Write × ℕ)
      → read_records crc sb disk n temp ≡ some read
      → read.1 ≡ temp + 2 * n
  unfolding read_records
  read_records_end disk zero temp read e =
      sym (ap (λ (r : List Write × ℕ). r.1) (some_injective e)) ∙ omega arith
  read_records_end disk (suc n) temp read e =
      elim (Option-cases (read_records crc sb disk n (temp + 2))) [
        | inl nothing ↦ grind (arith, nothing, e)
        | inr (later, got) ↦
            let step = read_records_end disk n (temp + 2) later got in grind (arith, got, e, step)
      ]

  is_footer-IsPlain : (b : Bytes) (id : ℕ) → IsPlain b → is_footer crc sb b id ≡ false
  unfolding is_footer lion_fs.Journal.read_footer
  is_footer-IsPlain b id plain = rw (==_of_ne _ _ plain) refl

  and-false : (b : Bool) → (b && false) ≡ false
  and-false true = refl
  and-false false = refl

  -- A header that no footer can stand behind is passed over.
  scan_block_unsealed :
      (disk : Disk) (current k : ℕ)
      → (read_header (disk (sb.journal_start + current))).entry_count ≡ k
      → ((after : ℕ) (id : ℕ)
          → after ≡ current + 1 + 2 * k
          → (ltb after sb.journal_blocks && is_footer crc sb (disk (sb.journal_start + after)) id)
            ≡ false)
      → scan_block crc sb disk current ≡ none
  unfolding scan_block
  scan_block_unsealed disk current k count open_end =
      let header = read_header (disk (sb.journal_start + current)) in
      let read = read_records crc sb disk header.entry_count (current + 1) in
      elim (Bool-cases
        (from_le_bytes (slice 0 8 (disk (sb.journal_start + current))) == journal_magic)) [
          | inl other ↦
              elim (Bool-cases (is_sealed_header crc sb (disk (sb.journal_start + current)))) [
                | inl good ↦ elim (Option-cases read) [
                  | inl nothing ↦ rw (scan_block, other, good, nothing) refl
                  | inr (got, e) ↦
                      let behind = read_records_end disk header.entry_count (current + 1) got e in
                      rw
                        (
                          scan_block,
                          other,
                          good,
                          e,
                          open_end got.1 header.tx_id (omega (arith, behind, count)),
                        )
                        refl
                ]
                | inr bad ↦ rw (scan_block, other, bad) refl
              ]
          | inr plain_here ↦ rw (scan_block, plain_here) refl
        ]

  pub scan_block_without_footer :
      (disk : Disk) (current k : ℕ)
      → (read_header (disk (sb.journal_start + current))).entry_count ≡ k
      → IsPlain (disk (sb.journal_start + (current + 1 + 2 * k)))
      → scan_block crc sb disk current ≡ none
  scan_block_without_footer disk current k count plain =
      scan_block_unsealed disk current k count (λ after id e.
        rw
          (is_footer-IsPlain (disk (sb.journal_start + after)) id
            (subst (λ p. IsPlain (disk (sb.journal_start + p))) (sym e) plain))
          (and-false (ltb after sb.journal_blocks)))

  -- A header whose image goes past the end of the journal is passed over.
  pub scan_block_past_end :
      (disk : Disk) (current k : ℕ)
      → (read_header (disk (sb.journal_start + current))).entry_count ≡ k
      → sb.journal_blocks < current + 2 * k + 2
      → scan_block crc sb disk current ≡ none
  scan_block_past_end disk current k count long =
      scan_block_unsealed disk current k count (λ after id e.
        let out : ltb after sb.journal_blocks ≡ false = ground (arith, e) in rw (out) refl)

  within : (n : ℕ) (b : Bool) → (ltb n sb.journal_blocks && b) ≡ true → n < sb.journal_blocks
  within n b e = ground (arith, e)

  -- The scan goes on behind the header that it found.
  pub scan_block_forward :
      (disk : Disk) (current : ℕ) (t : Found)
      → scan_block crc sb disk current ≡ some t
      → (current < t.footer_block) × (t.footer_block < sb.journal_blocks)
  unfolding scan_block
  scan_block_forward disk current t e =
      let header = read_header (disk (sb.journal_start + current)) in
      elim (Bool-cases
        (from_le_bytes (slice 0 8 (disk (sb.journal_start + current))) == journal_magic)) [
          | inl other ↦
              elim (Bool-cases (is_sealed_header crc sb (disk (sb.journal_start + current)))) [
                | inl good ↦
                    elim (Option-cases
                      (read_records crc sb disk header.entry_count (current + 1))) [
                        | inl nothing ↦
                            absurd
                              (some_not_none (sym e ∙ rw (scan_block, other, good, nothing) refl))
                        | inr (got, r) ↦
                            let behind =
                              read_records_end disk header.entry_count (current + 1) got r in
                            elim (Bool-cases (
                              ltb got.1 sb.journal_blocks
                              && is_footer crc sb (disk (sb.journal_start + got.1)) header.tx_id)) [
                                | inl closed ↦
                                    let found : some (record {
                                      tx_id = header.tx_id;
                                      records = got.0;
                                      footer_block = got.1;
                                    })
                                        ≡ some t =
                                      sym (rw (scan_block, other, good, r, closed) refl) ∙ e in
                                    let same =
                                      ap (λ (f : Found). f.footer_block) (some_injective found) in
                                    let inside : got.1 < sb.journal_blocks =
                                      within got.1 _ closed in
                                    (omega (arith, same, behind), omega (arith, same, inside))
                                | inr not_closed ↦ absurd (
                                    some_not_none
                                      (sym e ∙ rw (scan_block, other, good, r, not_closed) refl))
                              ]
                      ]
                | inr bad ↦ absurd (some_not_none (sym e ∙ rw (scan_block, other, bad) refl))
              ]
          | inr plain_here ↦ absurd (some_not_none (sym e ∙ rw (scan_block, plain_here) refl))
        ]
