-- ===== src/Allocator/FirstFit.antt =====
-- The scan of the bitmap finds the first run that is long enough.
use mathlib.Core.Path.{subst}
use lion_fs.Base.{
  ℕ, zero, suc, ◌+◌, ◌-◌, ◌*◌, ◌/◌, ◌%◌, ◌<◌, ◌≤◌, ◌≡◌, ◌⊎◌, inl, inr, refl, ap, ◌∙◌, Bool, true,
  false, not, Option, none, some, arith, tests, leb, ◌==◌, if◌then◌else◌, eq_of_==, ne_of_==_false,
  Bool-cases, min,
}
use lion_fs.Allocator.{
  is_set, is_used, Bitmap, Buffer, Scanned, found, going, scan_bits, scan_bytes, scan_blocks,
  bitmap_blocks, find_run,
}
use lion_fs.Allocator.Bits.{is_used_bit, is_set_full}
use lion_fs.Allocator.Scan.{NoRun, IsState, IsFirst, IsScanned, skip, grow, finish, beyond}

Scanned-cases : (s : Scanned) → ((x : ℕ) × (s ≡ found x)) ⊎ ((r : ℕ) × ((x : ℕ) × (s ≡ going r x)))
Scanned-cases (found x) = inl (x, refl)
Scanned-cases (going r x) = inr (r, (x, refl))

module _ (blocks_per_group count : ℕ) (bitmap : Bitmap) (from : ℕ) (pos : 0 < count) where
  -- The byte holds the bits of the eight blocks from `base` on.
  abbrev pub Covers : ℕ → ℕ → Type 0
  Covers base byte = (i : ℕ) → i < 8 → is_used bitmap (base + i) ≡ is_set byte i

  State : ℕ → ℕ → ℕ → Type 0
  State p run start = IsState blocks_per_group count bitmap from p run start

  Outcome : ℕ → Scanned → Type 0
  Outcome p s = IsScanned blocks_per_group count bitmap from p s

  used_at : (q r : ℕ) (b : Bool) → q ≡ r → is_used bitmap r ≡ b → is_used bitmap q ≡ b
  used_at q r b e h = ap (is_used bitmap) e ∙ h

  off_of_negation : (b : Bool) → not b ≡ true → b ≡ false
  off_of_negation true e = cc
  off_of_negation false e = refl

  on_of_negation : (b : Bool) → not b ≡ false → b ≡ true
  on_of_negation true e = refl
  on_of_negation false e = cc

  scan_bits-Outcome :
      (left byte base bit run start : ℕ)
      → bit + left ≡ 8
      → from ≤ base + bit
      → Covers base byte
      → State (base + bit) run start
      → Outcome (base + 8) (scan_bits blocks_per_group count left byte base bit run start)
  unfolding scan_bits State Outcome
  scan_bits-Outcome zero byte base bit run start size reached covers st =
      subst (λ p. IsState blocks_per_group count bitmap from p run start) (omega arith) st
  scan_bits-Outcome (suc left) byte base bit run start size reached covers st =
      elim (Bool-cases (leb blocks_per_group (base + bit))) [
        | inl out ↦
            rw (scan_bits, out)
              (beyond blocks_per_group count bitmap from (base + bit) (base + 8) run start
                (omega (tests, out)) (omega arith) st)
        | inr inside ↦ elim (Bool-cases (not (is_set byte bit))) [
          | inl unset ↦
              let free = covers bit (omega arith) ∙ off_of_negation (is_set byte bit) unset in
              elim (Bool-cases (run + 1 == count)) [
                | inl full ↦
                    rw (scan_bits, inside, unset, full)
                      (finish blocks_per_group count bitmap from (base + bit) run start
                        (omega (tests, inside)) free (omega (tests, full)) st)
                | inr short ↦
                    rw (scan_bits, inside, unset, short)
                      (scan_bits-Outcome left byte base (bit + 1) (run + 1)
                        (if run == 0 then base + bit else start) (omega arith) (omega arith) covers
                        (subst
                          (λ p.
                            IsState blocks_per_group count bitmap from p (run + 1)
                              (if run == 0 then base + bit else start))
                          (omega arith)
                          (grow blocks_per_group count bitmap from (base + bit) run start
                            (omega (tests, inside)) free (ne_of_==_false _ _ short) st)))
              ]
          | inr set ↦
              let used = covers bit (omega arith) ∙ on_of_negation (is_set byte bit) set in
              rw (scan_bits, inside, set)
                (scan_bits-Outcome left byte base (bit + 1) 0 start (omega arith) (omega arith)
                  covers
                  (skip blocks_per_group count bitmap from (base + bit) (base + (bit + 1)) run start
                    pos reached (omega arith)
                    (λ q lo hi in_group. used_at q (base + bit) true (omega arith) used) st))
        ]
      ]

  -- The block of the bitmap holds the bits from `base` on.
  abbrev pub CoversAll : ℕ → Buffer → Type 0
  CoversAll base buffer = (b : ℕ) → b < 4096 → Covers (base + b * 8) (buffer b)

  scan_bytes-Outcome :
      (left : ℕ) (buffer : Buffer) (base idx bit run start : ℕ)
      → idx + left ≡ 4096
      → bit < 8
      → (left ≡ 0 → bit ≡ 0)
      → from ≤ base + idx * 8 + bit
      → CoversAll base buffer
      → State (base + idx * 8 + bit) run start
      → Outcome
          (base + 32768)
          (scan_bytes blocks_per_group count left buffer base idx bit run start)
  unfolding scan_bytes State Outcome
  scan_bytes-Outcome zero buffer base idx bit run start size small last reached covers st =
      subst (λ p. IsState blocks_per_group count bitmap from p run start) (omega (arith, last refl))
        st
  scan_bytes-Outcome (suc left) buffer base idx bit run start size small last reached covers st =
      elim (Bool-cases (buffer idx == 255)) [
        | inl full ↦
            rw (scan_bytes, full)
              (scan_bytes-Outcome left buffer base (idx + 1) 0 0 start (omega arith) (omega arith)
                (λ e. refl) (omega arith) covers
                (skip blocks_per_group count bitmap from (base + idx * 8 + bit)
                  (base + (idx + 1) * 8 + 0) run start pos reached (omega arith)
                  (λ q lo hi in_group.
                    used_at q (base + idx * 8 + (q - (base + idx * 8))) true (omega arith) (
                      covers idx (omega arith) (q - (base + idx * 8)) (omega arith)
                      ∙ is_set_full (buffer idx) (q - (base + idx * 8))
                          (eq_of_== (buffer idx) 255 full) (omega arith)))
                  st))
        | inr part ↦
            let scanned =
              scan_bits blocks_per_group count (8 - bit) (buffer idx) (base + idx * 8) bit run
                start in
            let outcome =
              scan_bits-Outcome (8 - bit) (buffer idx) (base + idx * 8) bit run start (omega arith)
                reached (covers idx (omega arith)) st in
            elim (Scanned-cases scanned) [
              | inl (x, e) ↦
                  let first : Outcome (base + idx * 8 + 8) (found x) =
                    subst (Outcome (base + idx * 8 + 8)) e outcome in
                  rw (scan_bytes, part, e) first
              | inr (r, (x, e)) ↦
                  let later : Outcome (base + idx * 8 + 8) (going r x) =
                    subst (Outcome (base + idx * 8 + 8)) e outcome in
                  rw (scan_bytes, part, e)
                    (scan_bytes-Outcome left buffer base (idx + 1) 0 r x (omega arith) (omega arith)
                      (λ z. refl) (omega arith) covers
                      (subst (λ p. IsState blocks_per_group count bitmap from p r x) (omega arith)
                        later))
            ]
      ]

  -- What a search answers: the first run, or that there is none from `from` on.
  abbrev pub IsAnswer : Option ℕ → Type 0
  IsAnswer none = NoRun blocks_per_group count bitmap from blocks_per_group
  IsAnswer (some s) = IsFirst blocks_per_group count bitmap from s

  scan_blocks-IsAnswer :
      (left bm_idx byte bit run start : ℕ)
      → blocks_per_group ≤ (bm_idx + left) * 32768
      → byte < 4096
      → bit < 8
      → from ≤ bm_idx * 32768 + byte * 8 + bit
      → State (bm_idx * 32768 + byte * 8 + bit) run start
      → IsAnswer (scan_blocks blocks_per_group count left bitmap bm_idx byte bit run start)
  unfolding scan_blocks State Outcome
  scan_blocks-IsAnswer zero bm_idx byte bit run start size small few reached st =
      (λ s lo hi run_free. st.none_before s lo (omega arith) run_free)
  scan_blocks-IsAnswer (suc left) bm_idx byte bit run start size small few reached st =
      let scanned =
        scan_bytes blocks_per_group count (4096 - byte) (bitmap bm_idx) (bm_idx * 32768) byte bit
          run start in
      let outcome =
        scan_bytes-Outcome (4096 - byte) (bitmap bm_idx) (bm_idx * 32768) byte bit run start
          (omega arith) few (λ z. absurd (omega arith)) reached
          (λ b h i h'. is_used_bit bitmap bm_idx b i h h') st in
      elim (Scanned-cases scanned) [
        | inl (x, e) ↦
            let first : Outcome (bm_idx * 32768 + 32768) (found x) =
              subst (Outcome (bm_idx * 32768 + 32768)) e outcome in
            rw (scan_blocks, e) first
        | inr (r, (x, e)) ↦
            let later : Outcome (bm_idx * 32768 + 32768) (going r x) =
              subst (Outcome (bm_idx * 32768 + 32768)) e outcome in
            rw (scan_blocks, e)
              (scan_blocks-IsAnswer left (bm_idx + 1) 0 0 r x (omega arith) (omega arith)
                (omega arith) (omega arith)
                (subst (λ p. IsState blocks_per_group count bitmap from p r x) (omega arith) later))
      ]

  State-start : State from 0 0
  unfolding State
  State-start = record {
    current = (λ inside. record {
      short = pos;
      fits = omega arith;
      free = (λ q lo hi. absurd (omega arith));
      begins = (λ z. absurd (omega arith));
      longest = inl (omega arith);
    });
    none_before = (λ s lo hi run_free. omega arith);
  }

  -- The search answers with the first run of `count` free blocks, not 0, from its origin on, or with
  -- none if there is no such run in the group. Its origin is the block `from_bit`, but in the last
  -- block of the bitmap if `from_bit` lies in a block beyond it.
  pub find_run-IsAnswer :
      (from_bit : ℕ)
      → from
        ≡ min (from_bit / 32768) (bitmap_blocks blocks_per_group count - 1) * 32768
          + from_bit % 32768
      → IsAnswer (find_run blocks_per_group count bitmap from_bit)
  unfolding find_run State
  find_run-IsAnswer from_bit origin =
      let first = min (from_bit / 32768) (bitmap_blocks blocks_per_group count - 1) in
      scan_blocks-IsAnswer (bitmap_blocks blocks_per_group count - first) first
        (from_bit % 32768 / 8) (from_bit % 8) 0 0 (omega arith) (omega arith) (omega arith)
        (omega (arith, origin))
        (subst (λ p. IsState blocks_per_group count bitmap from p 0 0) (omega (arith, origin))
          State-start)
