-- ===== src/Journal/Layout.antt =====
-- The blocks of the journal read back: the structs, their seals, and the records of an image.
use lion_fs.Base.{
  ℕ, zero, suc, ◌<◌, ◌≡◌, refl, sym, ap, ◌∙◌, true, ◌&&◌, ◌∷◌, arith, ◌==◌, ==_self, length, take,
  Bytes, to_le_bytes, from_le_bytes, from_le_bytes-to_le_bytes, slice, u64_mod, u32_mod, All,
}
use lion_fs.Journal.{
  Transaction, Superblock, Write, JournalHeader, JournalRecordHeader, JournalFooter, journal_magic,
  zeros, bytes_of_header, bytes_of_record, bytes_of_footer, read_header, read_record, read_footer,
}
use lion_fs.Journal.Commit.{header_block, record_block, footer_block, sealed_header, sealed_footer}
use lion_fs.Journal.Recover.{is_sealed_header, is_footer}

length-zeros : (n : ℕ) → length (zeros n) ≡ n
unfolding zeros
length-zeros zero = refl
length-zeros (suc n) = ap suc (length-zeros n)

take-zeros : (n : ℕ) → take n (zeros n) ≡ zeros n
unfolding zeros
take-zeros zero = refl
take-zeros (suc n) = ap (λ l. 0 ∷ l) (take-zeros n)

abbrev header_from : ℕ → ℕ → ℕ → ℕ → ℕ → ℕ → ℕ → Bytes → JournalHeader
header_from m v c t s k p b = record {
  magic = m;
  version = v;
  entry_count = c;
  tx_id = t;
  timestamp = s;
  checksum = k;
  padding_csum = p;
  padding = b;
}

header_equal :
    {m m' v v' c c' t t' s s' k k' p p' : ℕ} {b b' : Bytes}
    → m ≡ m'
    → v ≡ v'
    → c ≡ c'
    → t ≡ t'
    → s ≡ s'
    → k ≡ k'
    → p ≡ p'
    → b ≡ b'
    → header_from m v c t s k p b ≡ header_from m' v' c' t' s' k' p' b'
header_equal a1 a2 a3 a4 a5 a6 a7 a8 = rw (a1, a2, a3, a4, a5, a6, a7, a8) refl

abbrev FitsU32 : ℕ → Type 0
FitsU32 n = n < 4294967296

abbrev FitsU64 : ℕ → Type 0
FitsU64 n = n < u64_mod

read_header-bytes_of_header :
    (m v c t s k p n : ℕ)
    → FitsU64 m
    → FitsU32 v
    → FitsU32 c
    → FitsU64 t
    → FitsU64 s
    → FitsU32 k
    → FitsU32 p
    → n ≡ 4056
    → read_header (bytes_of_header (header_from m v c t s k p (zeros n)))
      ≡ header_from m v c t s k p (zeros n)
unfolding read_header bytes_of_header to_le_bytes
read_header-bytes_of_header m v c t s k p n h1 h2 h3 h4 h5 h6 h7 e =
    header_equal (from_le_bytes-to_le_bytes 8 m h1) (from_le_bytes-to_le_bytes 4 v h2)
      (from_le_bytes-to_le_bytes 4 c h3) (from_le_bytes-to_le_bytes 8 t h4)
      (from_le_bytes-to_le_bytes 8 s h5) (from_le_bytes-to_le_bytes 4 k h6)
      (from_le_bytes-to_le_bytes 4 p h7) (ap (λ w. take w (zeros n)) (sym e) ∙ take-zeros n)

abbrev record_from : ℕ → ℕ → ℕ → ℕ → Bytes → JournalRecordHeader
record_from t q k p b = record {
  tx_id = t;
  physical_block = q;
  checksum = k;
  padding = p;
  padding2 = b;
}

record_equal :
    {t t' q q' k k' p p' : ℕ} {b b' : Bytes}
    → t ≡ t'
    → q ≡ q'
    → k ≡ k'
    → p ≡ p'
    → b ≡ b'
    → record_from t q k p b ≡ record_from t' q' k' p' b'
record_equal a1 a2 a3 a4 a5 = rw (a1, a2, a3, a4, a5) refl

read_record-bytes_of_record :
    (t q k p n : ℕ)
    → FitsU64 t
    → FitsU64 q
    → FitsU32 k
    → FitsU32 p
    → n ≡ 4072
    → read_record (bytes_of_record (record_from t q k p (zeros n))) ≡ record_from t q k p (zeros n)
unfolding read_record bytes_of_record to_le_bytes
read_record-bytes_of_record t q k p n h1 h2 h3 h4 e =
    record_equal (from_le_bytes-to_le_bytes 8 t h1) (from_le_bytes-to_le_bytes 8 q h2)
      (from_le_bytes-to_le_bytes 4 k h3) (from_le_bytes-to_le_bytes 4 p h4)
      (ap (λ w. take w (zeros n)) (sym e) ∙ take-zeros n)

abbrev footer_from : ℕ → ℕ → ℕ → ℕ → Bytes → JournalFooter
footer_from m t r k b = record {
  magic = m;
  tx_id = t;
  total_records = r;
  checksum = k;
  padding = b;
}

footer_equal :
    {m m' t t' r r' k k' : ℕ} {b b' : Bytes}
    → m ≡ m'
    → t ≡ t'
    → r ≡ r'
    → k ≡ k'
    → b ≡ b'
    → footer_from m t r k b ≡ footer_from m' t' r' k' b'
footer_equal a1 a2 a3 a4 a5 = rw (a1, a2, a3, a4, a5) refl

read_footer-bytes_of_footer :
    (m t r k n : ℕ)
    → FitsU64 m
    → FitsU64 t
    → FitsU32 r
    → FitsU32 k
    → n ≡ 4072
    → read_footer (bytes_of_footer (footer_from m t r k (zeros n))) ≡ footer_from m t r k (zeros n)
unfolding read_footer bytes_of_footer to_le_bytes
read_footer-bytes_of_footer m t r k n h1 h2 h3 h4 e =
    footer_equal (from_le_bytes-to_le_bytes 8 m h1) (from_le_bytes-to_le_bytes 8 t h2)
      (from_le_bytes-to_le_bytes 4 r h3) (from_le_bytes-to_le_bytes 4 k h4)
      (ap (λ w. take w (zeros n)) (sym e) ∙ take-zeros n)

-- The transaction's fields fit in their words, and so do the numbers of its blocks.
pub record IsStorable (tx : Transaction) : Type 0 where
  pub id_fits : tx.id < u64_mod
  pub timestamp_fits : tx.timestamp < u64_mod
  pub blocks_fit : All (λ (w : Write). w.0 < u64_mod) tx.dirty_blocks

module _ (crc : Bytes → ℕ) (fits : (b : Bytes) → crc b < 4294967296) (tx : Transaction)
    (v : IsStorable tx) where
  abbrev pub plain_header : ℕ → JournalHeader
  plain_header c = header_from journal_magic 1 c tx.id tx.timestamp 0 0 (zeros 4056)

  pub read_header-header_block :
      (c : ℕ)
      → c < u32_mod
      → read_header (header_block crc tx c) ≡ sealed_header crc (plain_header c)
  unfolding header_block sealed_header
  read_header-header_block c small =
      read_header-bytes_of_header journal_magic 1 c tx.id tx.timestamp
        (crc (bytes_of_header (plain_header c))) 0 4056 (omega arith) (omega arith) small v.id_fits
        v.timestamp_fits (fits _) (omega arith) refl

  pub is_sealed_header-header_block :
      (sb : Superblock) (c : ℕ)
      → c < u32_mod
      → is_sealed_header crc sb (header_block crc tx c) ≡ true
  unfolding is_sealed_header sealed_header
  is_sealed_header-header_block sb c small =
      ap (λ (h : JournalHeader). crc (bytes_of_header (record h { checksum = 0 })) == h.checksum)
        (read_header-header_block c small)
      ∙ ==_self (crc (bytes_of_header (plain_header c)))

  pub magic_of_header : (c : ℕ) → from_le_bytes (slice 0 8 (header_block crc tx c)) ≡ journal_magic
  unfolding header_block bytes_of_header to_le_bytes sealed_header
  magic_of_header c = refl

  pub read_record-record_block :
      (w : Write)
      → w.0 < u64_mod
      → read_record (record_block crc tx w) ≡ record_from tx.id w.0 (crc w.1) 0 (zeros 4072)
  unfolding record_block
  read_record-record_block w small =
      read_record-bytes_of_record tx.id w.0 (crc w.1) 0 4072 v.id_fits small (fits w.1)
        (omega arith) refl

  abbrev plain_footer : ℕ → JournalFooter
  plain_footer c = footer_from journal_magic tx.id c 0 (zeros 4072)

  read_footer-footer_block :
      (c : ℕ)
      → c < u32_mod
      → read_footer (footer_block crc tx c) ≡ sealed_footer crc (plain_footer c)
  unfolding footer_block sealed_footer
  read_footer-footer_block c small =
      read_footer-bytes_of_footer journal_magic tx.id c (crc (bytes_of_footer (plain_footer c)))
        4072 (omega arith) v.id_fits small (fits _) refl

  pub is_footer-footer_block :
      (sb : Superblock) (c : ℕ)
      → c < u32_mod
      → is_footer crc sb (footer_block crc tx c) tx.id ≡ true
  unfolding is_footer sealed_footer
  is_footer-footer_block sb c small =
      ap
        (λ (f : JournalFooter).
          (f.magic == journal_magic)
          && ((f.tx_id == tx.id)
              && (crc (bytes_of_footer (record f { checksum = 0 })) == f.checksum)))
        (read_footer-footer_block c small)
      ∙ rw (==_self tx.id) (==_self (crc (bytes_of_footer (plain_footer c))))
