-- ===== src/Allocator/Counting.antt =====
-- The count of free blocks.
use lion_fs.Base.{
  ℕ, zero, suc, ◌+◌, ◌-◌, ◌*◌, ◌/◌, ◌%◌, ◌<◌, ◌≤◌, ◌≡◌, inl, inr, refl, sym, ap, ◌∙◌, Bool, true,
  false, not, arith, tests, ◌==◌, leb, if◌then◌else◌, min, Bool-cases, eq_of_==, ne_of_==_false,
}
use lion_fs.Allocator.{is_set, is_used, Bitmap, count_bits, count_blocks, count_free_blocks}

-- The free blocks among the `left` blocks from `n` on.
abbrev pub count_from : Bitmap → ℕ → ℕ → ℕ
count_from bitmap zero n = 0
count_from bitmap (suc left) n =
    let rest = count_from bitmap left (n + 1) in if not (is_used bitmap n) then rest + 1 else rest

module _ (bitmap : Bitmap) where
  plus_zero : (k : ℕ) → k ≡ 0 + k
  plus_zero k = omega arith

  one_more :
      (b : Bool) (whole left right : ℕ)
      → whole ≡ left + right
      → (if b then whole + 1 else whole) ≡ (if b then left + 1 else left) + right
  one_more true whole left right e = omega (arith, e)
  one_more false whole left right e = e

  count_from-add :
      (a b n : ℕ)
      → count_from bitmap (a + b) n ≡ count_from bitmap a n + count_from bitmap b (n + a)
  count_from-add zero b n =
      let same : 0 + b ≡ b = omega arith in
      let here : n ≡ n + 0 = omega arith in
      ap (λ k. count_from bitmap k n) same
      ∙ ap (count_from bitmap b) here
      ∙ plus_zero (count_from bitmap b (n + 0))
  count_from-add (suc a) b n =
      let same : suc a + b ≡ suc (a + b) = omega arith in
      let place : n + 1 + a ≡ n + suc a = omega arith in
      let rest : count_from bitmap (a + b) (n + 1)
          ≡ count_from bitmap a (n + 1) + count_from bitmap b (n + suc a) =
        count_from-add a b (n + 1)
        ∙ ap (λ k. count_from bitmap a (n + 1) + count_from bitmap b k) place in
      ap (λ k. count_from bitmap k n) same
      ∙ one_more (not (is_used bitmap n)) (count_from bitmap (a + b) (n + 1))
          (count_from bitmap a (n + 1)) (count_from bitmap b (n + suc a)) rest

  bit_is :
      (bm i : ℕ) → i < 32768 → is_used bitmap (bm * 32768 + i) ≡ is_set (bitmap bm (i / 8)) (i % 8)
  bit_is bm i h =
      let block : (bm * 32768 + i) / 32768 ≡ bm = omega arith in
      let byte : (bm * 32768 + i) % 32768 / 8 ≡ i / 8 = omega arith in
      let bit : (bm * 32768 + i) % 8 ≡ i % 8 = omega arith in rw (block, byte, bit) refl

  count_bits-eq :
      (left bm i : ℕ)
      → i + left ≤ 32768
      → count_bits left (bitmap bm) i ≡ count_from bitmap left (bm * 32768 + i)
  unfolding count_bits
  count_bits-eq zero bm i h = refl
  count_bits-eq (suc left) bm i h =
      let rest : count_bits left (bitmap bm) (i + 1) ≡ count_from bitmap left (bm * 32768 + i + 1) =
        count_bits-eq left bm (i + 1) (omega arith) ∙ ap (count_from bitmap left) (omega arith) in
      rw (rest) (
        ap
          (λ b.
            if not b
            then count_from bitmap left (bm * 32768 + i + 1) + 1
            else count_from bitmap left (bm * 32768 + i + 1))
          (sym (bit_is bm i (omega arith))))

  next_place :
      (bm remaining : ℕ)
      → count_from bitmap (remaining - min remaining 32768) ((bm + 1) * 32768)
        ≡ count_from bitmap (remaining - min remaining 32768) (bm * 32768 + min remaining 32768)
  next_place bm remaining = elim (Bool-cases (leb remaining 32768)) [
    | inl last ↦
        let done : remaining - min remaining 32768 ≡ 0 = omega (tests, last) in rw (done) refl
    | inr more ↦
        let place : (bm + 1) * 32768 ≡ bm * 32768 + min remaining 32768 = omega (tests, more) in
        ap (count_from bitmap (remaining - min remaining 32768)) place
  ]

  count_blocks-eq :
      (fuel bm remaining : ℕ)
      → remaining ≤ fuel
      → count_blocks fuel bitmap bm remaining ≡ count_from bitmap remaining (bm * 32768)
  unfolding count_blocks
  count_blocks-eq zero bm zero h = refl
  count_blocks-eq zero bm (suc remaining) h = absurd (omega arith)
  count_blocks-eq (suc fuel) bm remaining h = elim (Bool-cases (remaining == 0)) [
    | inl none_left ↦
        rw (none_left)
          (ap (λ k. count_from bitmap k (bm * 32768)) (sym (eq_of_== remaining 0 none_left)))
    | inr more ↦
        let ne = ne_of_==_false remaining 0 more in
        let bits = min remaining 32768 in
        let positive : 0 < remaining = ground (arith, ne) in
        let base : bm * 32768 + 0 ≡ bm * 32768 = omega arith in
        let here : count_bits bits (bitmap bm) 0 ≡ count_from bitmap bits (bm * 32768) =
          count_bits-eq bits bm 0 (omega arith) ∙ ap (count_from bitmap bits) base in
        let later_bound : remaining - bits ≤ fuel = omega arith in
        let later : count_blocks fuel bitmap (bm + 1) (remaining - bits)
            ≡ count_from bitmap (remaining - bits) (bm * 32768 + bits) =
          count_blocks-eq fuel (bm + 1) (remaining - bits) later_bound ∙ next_place bm remaining in
        let whole : bits + (remaining - bits) ≡ remaining = omega arith in
        rw (more, here, later)
          (sym (count_from-add bits (remaining - bits) (bm * 32768))
            ∙ ap (λ k. count_from bitmap k (bm * 32768)) whole)
  ]

  -- The count of free blocks, block by block of the bitmap, is the number of the first `total`
  -- blocks of the group that are free.
  pub count_free_blocks-eq :
      (total : ℕ) → count_free_blocks bitmap total ≡ count_from bitmap total 0
  unfolding count_free_blocks
  count_free_blocks-eq total = count_blocks-eq total 0 total (omega arith)
