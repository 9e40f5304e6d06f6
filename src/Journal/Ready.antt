-- ===== src/Journal/Ready.antt =====
-- A transaction that is ready to be committed to a blank journal, and lemmas on its commit.
use lion_fs.Base.{
  to_le_bytes, from_le_bytes-to_le_bytes, ℕ, zero, suc, ◌+◌, ◌-◌, ◌*◌, ◌/◌, ◌≤◌, ◌<◌, ◌≡◌, ◌≢◌, ◌⊎◌,
  refl, sym, ap, ◌∙◌, true, false, Option, none, some, List, [], ◌∷◌, ◌++◌, arith, ltb, ◌==◌,
  ==_self, ==_of_ne, Bool-cases, inl, inr, length, take, drop, Bytes, u64_mod, u32_mod, All,
}
use lion_fs.Journal.{
  JournalHeader, Transaction, Superblock, Write, Disk, journal_magic, read_header, write_block,
  contiguous_run, apply_records,
}
use lion_fs.Journal.Commit.{TransactionManager, max_records, chunks, record_block, record_blocks}
use lion_fs.Journal.Recover.{find_records, replay_ids}
use lion_fs.Journal.Layout.{IsStorable}
use lion_fs.Journal.Writes.{Avoids}
use lion_fs.Journal.Rounds.{IsPlain}

pub take_within {ℓ} :
    {A : Type ℓ} (n : ℕ) (xs ys : List A) → n ≤ length xs → take n (xs ++ ys) ≡ take n xs
take_within zero xs ys h = refl
take_within (suc n) [] ys h = absurd (omega arith)
take_within (suc n) (x ∷ xs) ys h = ap (λ l. x ∷ l) (take_within n xs ys (omega arith))

pub take_all {ℓ} : {A : Type ℓ} (n : ℕ) (xs : List A) → length xs ≤ n → take n xs ≡ xs
take_all zero [] h = refl
take_all zero (x ∷ xs) h = absurd (omega arith)
take_all (suc n) [] h = refl
take_all (suc n) (x ∷ xs) h = ap (λ l. x ∷ l) (take_all n xs (omega arith))

pub drop_all {ℓ} : {A : Type ℓ} (n : ℕ) (xs : List A) → length xs ≤ n → drop n xs ≡ []
drop_all zero [] h = refl
drop_all zero (x ∷ xs) h = absurd (omega arith)
drop_all (suc n) [] h = refl
drop_all (suc n) (x ∷ xs) h = drop_all n xs (omega arith)

pub All-take {ℓ κ} :
    {A : Type ℓ} (P : A → Type κ) (n : ℕ) (xs : List A) → All P xs → All P (take n xs)
All-take P zero xs h = tt
All-take P (suc n) [] h = tt
All-take P (suc n) (x ∷ xs) h = (h.0, All-take P n xs h.1)

-- A block outside the journal.
abbrev pub IsOutside : Superblock → ℕ → Type 0
IsOutside sb q = (q < sb.journal_start) ⊎ (sb.journal_start + sb.journal_blocks ≤ q)

-- A transaction that is to be committed to a journal of blank blocks: its image fits before the
-- journal's end, and none of its blocks looks like a header or belongs into the journal.
pub record IsReady (disk : Disk) (sb : Superblock) (m : TransactionManager) (tx : Transaction)
    : Type 0 where
  pub storable : IsStorable tx
  pub some_block : 0 < length tx.dirty_blocks
  pub room : m.next_journal_block + 2 * length tx.dirty_blocks + 2 ≤ sb.journal_blocks
  pub journal_fits : sb.journal_blocks < u32_mod
  pub newer : sb.generation < tx.id
  pub id_plain : tx.id ≢ journal_magic
  pub blocks_plain : All (λ (w : Write). IsPlain w.1) tx.dirty_blocks
  pub blocks_outside : All (λ (w : Write). IsOutside sb w.0) tx.dirty_blocks
  pub blank : (i : ℕ) → i < sb.journal_blocks → IsPlain (disk (sb.journal_start + i))

-- The writes that a commit makes.
abbrev pub writes_of : Option (TransactionManager × List Write) → List Write
writes_of none = []
writes_of (some done) = done.1

-- What a block holds after recovery, and the highest id.
abbrev pub recovered : ℕ → Option (Disk × ℕ) → Option (Bytes × ℕ)
recovered q none = none
recovered q (some r) = some (r.0 q, r.1)

pub Avoids-outside :
    (sb : Superblock) (ws : List Write) (i : ℕ)
    → i < sb.journal_blocks
    → All (λ (w : Write). IsOutside sb w.0) ws
    → Avoids ws (sb.journal_start + i)
Avoids-outside sb [] i h out = tt
Avoids-outside sb (w ∷ ws) i h out = (
  (λ e. elim out.0 [ inl below ↦ omega (arith, below, e) | inr above ↦ omega (arith, above, e) ]),
  Avoids-outside sb ws i h out.1,
)

-- Plain blocks written anywhere leave a plain block plain.
pub IsPlain-contiguous_run :
    (d : Disk) (p : ℕ) (bs : List Bytes) (q : ℕ)
    → IsPlain (d q)
    → All IsPlain bs
    → IsPlain (apply_records d (contiguous_run p bs) q)
unfolding write_block
IsPlain-contiguous_run d p [] q h plain = h
IsPlain-contiguous_run d p (b ∷ bs) q h plain =
    IsPlain-contiguous_run (write_block d p b) (p + 1) bs q
      (elim (Bool-cases (q == p)) [ inl same ↦ rw (same) plain.0 | inr other ↦ rw (other) h ])
      plain.1

pub max_records_lem :
    (sb : Superblock) (k : ℕ)
    → 2 * k + 2 ≤ sb.journal_blocks
    → 0 < k
    → (k ≤ max_records sb) × ((max_records sb == 0) ≡ false)
unfolding max_records
max_records_lem sb k room pos =
    let long : ltb 2 sb.journal_blocks ≡ true = ground arith in
    (
      rw (long) (omega arith),
      rw (long) (==_of_ne ((sb.journal_blocks - 2) / 2) 0 (λ e. omega (arith, e))),
    )

pub one_chunk {ℓ} :
    {A : Type ℓ} (fuel n : ℕ) (xs : List A)
    → length xs ≤ n
    → length xs ≤ fuel
    → 0 < length xs
    → chunks fuel n xs ≡ xs ∷ []
unfolding chunks
one_chunk fuel n [] fit enough pos = elim pos [ ]
one_chunk zero n (x ∷ xs) fit enough pos = absurd (omega arith)
one_chunk (suc zero) n (x ∷ xs) fit enough pos = ap (λ l. l ∷ []) (take_all n (x ∷ xs) fit)
one_chunk (suc (suc fuel)) n (x ∷ xs) fit enough pos =
    rw (take_all n (x ∷ xs) fit, drop_all n (x ∷ xs) fit) refl

pub find_one : (id : ℕ) (ws : List Write) → find_records id ((id, ws) ∷ []) ≡ some ws
find_one id ws = rw (==_self id) refl

pub replay_one :
    (d : Disk) (id : ℕ) (ws : List Write)
    → replay_ids d ((id, ws) ∷ []) (id ∷ []) ≡ apply_records d ws
replay_one d id ws =
    ap (λ found. elim found [ none ↦ d | some records ↦ apply_records d records ]) (find_one id ws)

module _ (crc : Bytes → ℕ) (tx : Transaction) (id_fits : tx.id < u64_mod)
    (id_plain : tx.id ≢ journal_magic) where
  record_block-IsPlain : (w : Write) → IsPlain (record_block crc tx w)
  unfolding record_block lion_fs.Journal.bytes_of_record to_le_bytes
  record_block-IsPlain w e = id_plain (sym (from_le_bytes-to_le_bytes 8 tx.id id_fits) ∙ e)

  pub record_blocks-IsPlain :
      (ws : List Write)
      → All (λ (w : Write). IsPlain w.1) ws
      → All IsPlain (record_blocks crc tx ws)
  record_blocks-IsPlain [] h = tt
  record_blocks-IsPlain (w ∷ ws) h = (record_block-IsPlain w, (h.0, record_blocks-IsPlain ws h.1))
