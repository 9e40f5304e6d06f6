-- ===== src/Allocator/Bits.antt =====
-- The bits of a byte, and the block of the group that a bit of the bitmap stands for.
use lion_fs.Base.{
  ℕ, zero, suc, ◌+◌, ◌*◌, ◌/◌, ◌%◌, ◌<◌, ◌≡◌, ◌≢◌, refl, ap, ◌∙◌, Bool, true, false, not, arith,
  ◌==◌,
}
use lion_fs.Allocator.{is_set, put_bit, is_used, Bitmap}

pub is_set-put_bit_same : (set : Bool) (byte i : ℕ) → is_set (put_bit set byte i) i ≡ set
unfolding is_set put_bit
is_set-put_bit_same true byte zero = ground arith
is_set-put_bit_same false byte zero = ground arith
is_set-put_bit_same set byte (suc i) =
    ap (λ b. is_set b i) (omega arith) ∙ is_set-put_bit_same set (byte / 2) i

pub is_set-put_bit_other :
    (set : Bool) (byte i j : ℕ) → j ≢ i → is_set (put_bit set byte i) j ≡ is_set byte j
unfolding is_set put_bit
is_set-put_bit_other set byte zero zero ne = absurd (ne refl)
is_set-put_bit_other true byte zero (suc j) ne = ap (λ b. is_set b j) (omega arith)
is_set-put_bit_other false byte zero (suc j) ne = ap (λ b. is_set b j) (omega arith)
is_set-put_bit_other set byte (suc i) zero ne = ap (λ n. not (n == 0)) (omega arith)
is_set-put_bit_other set byte (suc i) (suc j) ne =
    ap (λ b. is_set b j) (omega arith)
    ∙ is_set-put_bit_other set (byte / 2) i j (λ e. ne (ap suc e))

low_ones : (i : ℕ) → i < 7 → is_set 127 i ≡ true
unfolding is_set
low_ones zero h = refl
low_ones (suc zero) h = refl
low_ones (suc (suc zero)) h = refl
low_ones (suc (suc (suc zero))) h = refl
low_ones (suc (suc (suc (suc zero)))) h = refl
low_ones (suc (suc (suc (suc (suc zero))))) h = refl
low_ones (suc (suc (suc (suc (suc (suc zero)))))) h = refl
low_ones (suc (suc (suc (suc (suc (suc (suc i))))))) h = absurd (omega arith)

pub is_set_full : (byte i : ℕ) → byte ≡ 255 → i < 8 → is_set byte i ≡ true
unfolding is_set
is_set_full byte zero e h = ground (arith, e)
is_set_full byte (suc i) e h = ap (λ b. is_set (b / 2) i) e ∙ low_ones i (omega arith)

-- The bit `i` of the byte `b` of the bitmap's block `k`.
pub is_used_bit :
    (bitmap : Bitmap) (k b i : ℕ)
    → b < 4096
    → i < 8
    → is_used bitmap (k * 32768 + b * 8 + i) ≡ is_set (bitmap k b) i
is_used_bit bitmap k b i h h' =
    let block : (k * 32768 + b * 8 + i) / 32768 ≡ k = omega arith in
    let byte : (k * 32768 + b * 8 + i) % 32768 / 8 ≡ b = omega arith in
    let bit : (k * 32768 + b * 8 + i) % 8 ≡ i = omega arith in rw (block, byte, bit) refl
