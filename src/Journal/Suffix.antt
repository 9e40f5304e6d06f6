-- ===== src/Journal/Suffix.antt =====
-- Which of the transactions that the scan found are replayed.
use lion_fs.Base.{ℕ, ◌≤◌, ◌<◌, ◌≡◌, ◌⊎◌, List, [], ◌∷◌, length, drop, All}
use lion_fs.Journal.Recover.{lower_cutoff}

abbrev pub Member : ℕ → List ℕ → Type 0
Member x [] = ⊥
Member x (y ∷ ys) = (x ≡ y) ⊎ Member x ys

abbrev pub IsAscending : List ℕ → Type 0
IsAscending [] = Unit
IsAscending (x ∷ xs) = All (λ y. x < y) xs × IsAscending xs

abbrev pub last : ℕ → List ℕ → ℕ
last x [] = x
last x (y ∷ ys) = last y ys

-- The ids from which a run without a gap leads to the last one.
abbrev pub Reaches : ℕ → ℕ → List ℕ → Type 0
Reaches x top ids = (w : ℕ) → x ≤ w → w ≤ top → Member w ids

abbrev suffix : ℕ → List ℕ → List ℕ
suffix y ys = drop (lower_cutoff (y ∷ ys) (length ys)) (y ∷ ys)
