-- ===== src/Allocator/Marking.antt =====
-- Marking a run of blocks changes the bits of these blocks and no other.
use lion_fs.Base.{
  ℕ, zero, suc, ◌+◌, ◌/◌, ◌%◌, ◌<◌, ◌≤◌, ◌≡◌, ◌≢◌, inl, inr, refl, sym, ap, ◌∙◌, Bool, true, false,
  ◌&&◌, arith, ltb, leb, ◌==◌, if◌then◌else◌, ==_of_ne, eq_of_==, ne_of_==_false, Bool-cases,
  u64_max,
}
use lion_fs.Allocator.{
  is_set, put_bit, is_used, Bitmap, Buffer, Editing, write_buffer, put_byte, flush, modify_block,
  modify_loop, modify_blocks,
}
use lion_fs.Allocator.Bits.{is_set-put_bit_same, is_set-put_bit_other}

true_not_false : {b : Bool} → b ≡ true → b ≡ false → ⊥
true_not_false e f = cc

-- A buffer that was not modified is not that of a block of the bitmap.
abbrev pub IsFresh : Editing → Type 0
IsFresh m = m.modified ≡ false → m.current_bm_idx ≡ u64_max

module _ (m : Editing) (bm : ℕ) where
  -- The buffer that the step works on is the block as it is.
  buffer_is :
      IsFresh m → bm ≢ u64_max → (if bm == m.current_bm_idx then m.buf else flush m bm) ≡ flush m bm
  unfolding flush
  buffer_is fresh real = elim (Bool-cases (bm == m.current_bm_idx)) [
    | inl same ↦ elim (Bool-cases m.modified) [
      | inl dirty ↦ rw (same, flush, dirty, same) refl
      | inr clean ↦ absurd (real (eq_of_== bm m.current_bm_idx same ∙ fresh clean))
    ]
    | inr other ↦ rw (other) refl
  ]

  kept_is :
      (j : ℕ)
      → (j == bm) ≡ false
      → (if bm == m.current_bm_idx then m.bitmap else flush m) j ≡ flush m j
  unfolding flush
  kept_is j ne = elim (Bool-cases (bm == m.current_bm_idx)) [
    | inl same ↦
        let apart : (j == m.current_bm_idx) ≡ false =
          ==_of_ne j m.current_bm_idx
            (λ e. ne_of_==_false j bm ne (e ∙ sym (eq_of_== bm m.current_bm_idx same))) in
        elim (Bool-cases m.modified) [
          | inl dirty ↦ rw (same, flush, dirty, apart) refl
          | inr clean ↦ rw (same, flush, clean) refl
        ]
    | inr other ↦ rw (other) refl
  ]

-- A byte of the buffer after a bit of it was put.
put_bit_in :
    (buf : Buffer) (set : Bool) (b i c j : ℕ)
    → is_set (put_byte buf b (put_bit set (buf b) i) c) j
      ≡ (if (c == b) && (j == i) then set else is_set (buf c) j)
put_bit_in buf set b i c j = elim (Bool-cases (c == b)) [
  | inl same ↦ elim (Bool-cases (j == i)) [
    | inl here ↦
        rw (same, here)
          (ap (is_set (put_bit set (buf b) i)) (eq_of_== j i here)
            ∙ is_set-put_bit_same set (buf b) i)
    | inr there ↦
        rw (same, there)
          (is_set-put_bit_other set (buf b) i j (ne_of_==_false j i there)
            ∙ ap (λ k. is_set (buf k) j) (sym (eq_of_== c b same)))
  ]
  | inr other ↦ rw (other) refl
]

parts_differ :
    (n block : ℕ)
    → n / 32768 ≡ block / 32768
    → ((n % 32768 / 8 == block % 32768 / 8) && (n % 8 == block % 8)) ≡ (n == block)
parts_differ n block e = ground (arith, e)

written_here :
    (bitmap : Bitmap) (bm : ℕ) (buf : Buffer) (n : ℕ)
    → (n / 32768 == bm) ≡ true
    → is_used (write_buffer bitmap bm buf) n ≡ is_set (buf (n % 32768 / 8)) (n % 8)
written_here bitmap bm buf n e = rw (e) refl

written_elsewhere :
    (bitmap : Bitmap) (bm : ℕ) (buf : Buffer) (n : ℕ)
    → (n / 32768 == bm) ≡ false
    → is_used (write_buffer bitmap bm buf) n ≡ is_used bitmap n
written_elsewhere bitmap bm buf n e = rw (e) refl

is_used-modify_block :
    (set : Bool) (block : ℕ) (m : Editing) (n : ℕ)
    → IsFresh m
    → block < u64_max
    → is_used (flush (modify_block set block m)) n
      ≡ (if n == block then set else is_used (flush m) n)
unfolding modify_block
is_used-modify_block set block m n fresh small =
    let bm = block / 32768 in
    let buf = if bm == m.current_bm_idx then m.buf else flush m bm in
    let bitmap = if bm == m.current_bm_idx then m.bitmap else flush m in
    let next =
      put_byte buf (block % 32768 / 8) (put_bit set (buf (block % 32768 / 8)) (block % 8)) in
    elim (Bool-cases (n / 32768 == bm)) [
      | inl same ↦
          let kept : is_set (buf (n % 32768 / 8)) (n % 8) ≡ is_used (flush m) n =
            ap (λ (b : Buffer). is_set (b (n % 32768 / 8)) (n % 8))
              (buffer_is m bm fresh (λ e. omega (arith, e))
                ∙ ap (flush m) (sym (eq_of_== (n / 32768) bm same))) in
          written_here bitmap bm next n same
          ∙ put_bit_in buf set (block % 32768 / 8) (block % 8) (n % 32768 / 8) (n % 8)
          ∙ ap (λ (b : Bool). if b then set else is_set (buf (n % 32768 / 8)) (n % 8))
              (parts_differ n block (eq_of_== (n / 32768) bm same))
          ∙ ap (λ (b : Bool). if n == block then set else b) kept
      | inr other ↦
          let apart : (n == block) ≡ false =
            ==_of_ne n block (λ e. ne_of_==_false _ _ other (ap (λ k. k / 32768) e)) in
          written_elsewhere bitmap bm next n other
          ∙ ap (λ (b : Buffer). is_set (b (n % 32768 / 8)) (n % 8)) (kept_is m bm (n / 32768) other)
          ∙ rw (apart) refl
    ]

modify_block-IsFresh : (set : Bool) (block : ℕ) (m : Editing) → IsFresh (modify_block set block m)
unfolding modify_block
modify_block-IsFresh set block m e = absurd (true_not_false refl e)

is_used-modify_loop :
    (left : ℕ) (set : Bool) (block : ℕ) (m : Editing) (n : ℕ)
    → IsFresh m
    → block + left ≤ u64_max
    → is_used (flush (modify_loop left set block m)) n
      ≡ (if leb block n && ltb n (block + left) then set else is_used (flush m) n)
unfolding modify_loop
is_used-modify_loop zero set block m n fresh small =
    let nothing : (leb block n && ltb n (block + 0)) ≡ false = ground arith in rw (nothing) refl
is_used-modify_loop (suc left) set block m n fresh small =
    let later =
      is_used-modify_loop left set (block + 1) (modify_block set block m) n
        (modify_block-IsFresh set block m) (omega arith) in
    let here = is_used-modify_block set block m n fresh (omega arith) in
    later ∙ ground (arith, here)

-- Marking `count` blocks from `start` on sets exactly their bits of the bitmap, or clears them,
-- and changes no other bit, across any number of blocks of the bitmap; the blocks' numbers fit in
-- a u64.
pub is_used-modify_blocks :
    (bitmap : Bitmap) (start count : ℕ) (set : Bool) (n : ℕ)
    → start + count ≤ u64_max
    → is_used (modify_blocks bitmap start count set) n
      ≡ (if leb start n && ltb n (start + count) then set else is_used bitmap n)
unfolding modify_blocks flush
is_used-modify_blocks bitmap start count set n small =
    is_used-modify_loop count set start
      (record { bitmap = bitmap; current_bm_idx = u64_max; buf = (λ i. 0); modified = false }) n
      (λ e. refl) small
