-- ===== src/Allocator/Scan.antt =====
-- What the scan of the bitmap knows at each block that it has come to.
use mathlib.Core.Path.{subst}
use lion_fs.Base.{
  ℕ, ◌+◌, ◌-◌, ◌<◌, ◌≤◌, ◌≡◌, ◌⊎◌, inl, inr, sym, ap, ◌∙◌, Bool, true, false, arith, tests, leb,
  ◌==◌, if◌then◌else◌, eq_of_==, Bool-cases, min,
}
use lion_fs.Allocator.{is_used, Bitmap, Scanned, found, going}

-- All blocks from `s` to before `e` are free.
abbrev pub IsFree : Bitmap → ℕ → ℕ → Type 0
IsFree bitmap s e = (q : ℕ) → s ≤ q → q < e → is_used bitmap q ≡ false

true_not_false : {b : Bool} → b ≡ true → b ≡ false → ⊥
true_not_false e f = cc

module _ (blocks_per_group count : ℕ) (bitmap : Bitmap) (from : ℕ) where
  -- No run of `count` free blocks lies between `from` and `p`.
  abbrev pub NoRun : ℕ → Type 0
  NoRun p = (s : ℕ) → from ≤ s → s + count ≤ p → IsFree bitmap s (s + count) → ⊥

  -- The current run ends at `p` and is as long as it can be.
  pub record IsCurrent (p run start : ℕ) : Type 0 where
    pub short : run < count
    pub fits : from + run ≤ p
    pub free : IsFree bitmap (p - run) p
    pub begins : 0 < run → start + run ≡ p
    pub longest : (p ≡ from + run) ⊎ ((from + run < p) × (is_used bitmap (p - run - 1) ≡ true))

  -- The state of the scan at `p`; beyond the group, only that there is no run in it.
  pub record IsState (p run start : ℕ) : Type 0 where
    pub current : p ≤ blocks_per_group → IsCurrent p run start
    pub none_before : NoRun (min p blocks_per_group)

  -- The first run at or after `from`.
  pub record IsFirst (s : ℕ) : Type 0 where
    pub after : from ≤ s
    pub inside : s + count ≤ blocks_per_group
    pub all_free : IsFree bitmap s (s + count)
    pub first : NoRun (s + count - 1)

  -- What a part of the scan up to `p` leaves.
  abbrev pub IsScanned : ℕ → Scanned → Type 0
  IsScanned p (found s) = IsFirst s
  IsScanned p (going run start) = IsState p run start

  -- A step over blocks that are all used.
  pub skip :
      (p p' run start : ℕ)
      → 0 < count
      → from ≤ p
      → p < p'
      → ((q : ℕ) → p ≤ q → q < p' → q < blocks_per_group → is_used bitmap q ≡ true)
      → IsState p run start
      → IsState p' 0 start
  skip p p' run start pos reached h used st = record {
    current = (λ inside. record {
      short = pos;
      fits = omega arith;
      free = (λ q lo hi. absurd (omega arith));
      begins = (λ z. absurd (omega arith));
      longest = inr (omega arith, used (p' - 0 - 1) (omega arith) (omega arith) (omega arith));
    });
    none_before = (λ s lo hi run_free. elim (Bool-cases (leb (s + count) p)) [
      | inl early ↦ st.none_before s lo (omega (tests, early)) run_free
      | inr late ↦
          true_not_false
            (used (s + count - 1) (omega (tests, late)) (omega (tests, late)) (omega (tests, late)))
            (run_free (s + count - 1) (omega arith) (omega arith))
    ]);
  }

  start_is :
      (p run start : ℕ) → (0 < run → start + run ≡ p) → (if run == 0 then p else start) ≡ p - run
  start_is p run start begins = ground (arith, begins)

  -- A step over a free block.
  pub grow :
      (p run start : ℕ)
      → p < blocks_per_group
      → is_used bitmap p ≡ false
      → (run + 1 ≡ count → ⊥)
      → IsState p run start
      → IsState (p + 1) (run + 1) (if run == 0 then p else start)
  grow p run start inside free short st =
      let c = st.current (omega arith) in
      let fits = c.fits in
      let room : run + 1 < count = ground (arith, short, c.short) in
      record {
        current = (λ in_group. record {
          short = room;
          fits = omega arith;
          free = (λ q lo hi. elim (Bool-cases (q == p)) [
            | inl here ↦ ap (is_used bitmap) (eq_of_== q p here) ∙ free
            | inr before ↦ c.free q (omega arith) (omega (tests, before))
          ]);
          begins = (λ z. omega (arith, start_is p run start c.begins));
          longest = elim c.longest [
            | inl all ↦ inl (omega (arith, all))
            | inr (less, last) ↦ inr (omega (arith, less), ap (is_used bitmap) (omega arith) ∙ last)
          ];
        });
        none_before = (λ s lo hi run_free. elim (Bool-cases (leb (s + count) p)) [
          | inl early ↦ st.none_before s lo (omega (tests, early)) run_free
          | inr late ↦ elim c.longest [
            | inl all ↦ omega (tests, all, late)
            | inr (less, last) ↦
                true_not_false last
                  (run_free (p - run - 1) (omega (tests, less, late)) (omega (tests, less, late)))
          ]
        ]);
      }

  pub finish :
      (p run start : ℕ)
      → p < blocks_per_group
      → is_used bitmap p ≡ false
      → run + 1 ≡ count
      → IsState p run start
      → IsFirst (if run == 0 then p else start)
  finish p run start inside free full st =
      let c = st.current (omega arith) in
      let fits = c.fits in
      subst IsFirst (sym (start_is p run start c.begins)) (record {
        after = omega arith;
        inside = omega arith;
        all_free = (λ q lo hi. elim (Bool-cases (q == p)) [
          | inl here ↦ ap (is_used bitmap) (eq_of_== q p here) ∙ free
          | inr before ↦ c.free q lo (omega (tests, before))
        ]);
        first = (λ s lo hi run_free. st.none_before s lo (omega arith) run_free);
      })

  -- Beyond the group nothing changes.
  pub beyond :
      (p p' run start : ℕ)
      → blocks_per_group ≤ p
      → p < p'
      → IsState p run start
      → IsState p' run start
  beyond p p' run start out h st = record {
    current = (λ inside. absurd (omega arith));
    none_before = (λ s lo hi run_free. st.none_before s lo (omega arith) run_free);
  }
