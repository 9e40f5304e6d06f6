-- ===== src/Base/LittleEndian.antt =====
-- Little-endian bytes of a number, and slices of byte strings.
use Prim.Native.Nat.{ℕ, zero, suc, ◌+◌, ◌-◌, ◌*◌, ◌/◌, ◌%◌, ◌≤◌, ◌<◌}
use mathlib.Core.Path.{◌≡◌, refl, ap, ◌∙◌}
use mathlib.Core.List.{List, [], ◌∷◌, ◌++◌}
use native.Mathlib.Omega.{arith}
use lion_fs.Base.Lists.{length, take, drop}

abbrev pub Bytes : Type 0
Bytes = List ℕ

-- The `w` low bytes of `n`, the lowest first.
unfoldable pub to_le_bytes : ℕ → ℕ → List ℕ
to_le_bytes zero n = []
to_le_bytes (suc w) n = n % 256 ∷ to_le_bytes w (n / 256)

abbrev pub from_le_bytes : List ℕ → ℕ
from_le_bytes [] = 0
from_le_bytes (b ∷ bs) = b + 256 * from_le_bytes bs

-- 256 ^ w
abbrev pub byte_limit : ℕ → ℕ
byte_limit zero = 1
byte_limit (suc w) = 256 * byte_limit w

pub from_le_bytes-to_le_bytes : (w n : ℕ) → n < byte_limit w → from_le_bytes (to_le_bytes w n) ≡ n
unfolding to_le_bytes
from_le_bytes-to_le_bytes zero n h = omega arith
from_le_bytes-to_le_bytes (suc w) n h =
    omega (arith, from_le_bytes-to_le_bytes w (n / 256) (omega arith))

-- `bytes[from..to]`
abbrev pub slice : ℕ → ℕ → List ℕ → List ℕ
slice from to bytes = take (to - from) (drop from bytes)

pub length-to_le_bytes : (w n : ℕ) → length (to_le_bytes w n) ≡ w
unfolding to_le_bytes
length-to_le_bytes zero n = refl
length-to_le_bytes (suc w) n = omega (arith, length-to_le_bytes w (n / 256))

module _ {ℓ} {A : Type ℓ} where
  -- Cutting a list at the length of its first part.
  pub take_at : (n : ℕ) (xs ys : List A) → n ≡ length xs → take n (xs ++ ys) ≡ xs
  take_at zero [] ys e = refl
  take_at zero (x ∷ xs) ys e = absurd (omega arith)
  take_at (suc n) [] ys e = absurd (omega arith)
  take_at (suc n) (x ∷ xs) ys e = ap (λ l. x ∷ l) (take_at n xs ys (omega arith))

  pub drop_at : (n : ℕ) (xs ys : List A) → n ≡ length xs → drop n (xs ++ ys) ≡ ys
  drop_at zero [] ys e = refl
  drop_at zero (x ∷ xs) ys e = absurd (omega arith)
  drop_at (suc n) [] ys e = absurd (omega arith)
  drop_at (suc n) (x ∷ xs) ys e = drop_at n xs ys (omega arith)

  pub drop_into : (n : ℕ) (xs ys : List A) → n ≤ length xs → drop n (xs ++ ys) ≡ drop n xs ++ ys
  drop_into zero xs ys h = refl
  drop_into (suc n) [] ys h = absurd (omega arith)
  drop_into (suc n) (x ∷ xs) ys h = drop_into n xs ys (omega arith)

  pub take_past :
      (n : ℕ) (xs ys : List A) → length xs ≤ n → take n (xs ++ ys) ≡ xs ++ take (n - length xs) ys
  take_past n [] ys h = ap (λ k. take k ys) (omega arith)
  take_past zero (x ∷ xs) ys h = absurd (omega arith)
  take_past (suc n) (x ∷ xs) ys h =
      ap (λ l. x ∷ l) (take_past n xs ys (omega arith))
      ∙ ap (λ k. x ∷ xs ++ take k ys) (omega arith)

  pub take_none : (n : ℕ) (xs : List A) → n ≡ 0 → take n xs ≡ []
  take_none zero xs e = refl
  take_none (suc n) xs e = absurd (omega arith)
