-- ===== src/Quota/Denials.antt =====
-- The log of denials is bounded and keeps the latest.
use lion_fs.Base.{
  ℕ, zero, suc, ◌+◌, ◌-◌, ◌≤◌, ◌≡◌, refl, List, [], ◌∷◌, ◌++◌, arith, ltb, length, drop,
  length-append, Bool-cases, inl, inr, lt_of_ltb, le_of_not_ltb, ap, min,
}
use lion_fs.Quota.{
  LimitKind, DenialRecord, QuotaTable, trim, record_denial, denial_of, kept_denials,
}

length-drop {ℓ} : {A : Type ℓ} (n : ℕ) (xs : List A) → length (drop n xs) ≡ length xs - n
length-drop zero xs = omega arith
length-drop (suc n) [] = omega arith
length-drop (suc n) (x ∷ xs) = omega (arith, length-drop n xs)

-- Keeps the front part that is dropped, so that the rest is seen to be the end of the list.
drop-suffix {ℓ} :
    {A : Type ℓ} (n : ℕ) (xs : List A)
    → n ≤ length xs
    → (front : List A) × (front ++ drop n xs ≡ xs) × (length front ≡ n)
drop-suffix zero xs h = ([], refl, refl)
drop-suffix (suc n) [] h = elim h [ ]
drop-suffix (suc n) (x ∷ xs) h =
    let (front, is, count) = drop-suffix n xs (omega arith) in
    (x ∷ front, ap (◌∷◌ x) is, omega (arith, count))

trim_lem :
    (ds : List DenialRecord)
    → (length (trim ds) ≡ min kept_denials (length ds))
      × ((front : List DenialRecord) × (front ++ trim ds ≡ ds))
unfolding trim
trim_lem ds = elim (Bool-cases (ltb kept_denials (length ds))) [
  | inl long ↦
      let n = length ds - kept_denials in
      let (front, is, count) = drop-suffix n ds (omega arith) in
      rw long (omega (arith, length-drop n ds, lt_of_ltb _ _ long), (front, is))
  | inr short ↦ rw short (omega (arith, le_of_not_ltb _ _ short), ([], refl))
]

-- After a denial is recorded the log holds at most 1024 denials: the last of the old log with the
-- new one, which is its end, and the quotas are as they were.
pub record_denial_bounded :
    (t : QuotaTable) (n : ℕ) (kind : LimitKind) (now requested : ℕ)
    → let t' = record_denial t n kind now requested in
      (length t'.denials ≡ min 1024 (length t.denials + 1))
      × ((front : List DenialRecord) × (new : DenialRecord) × (front ++ t'.denials
            ≡ t.denials ++ new ∷ [])
          × (new.namespace ≡ n)
          × (new.kind ≡ kind)
          × (new.at_ns ≡ now)
          × (new.requested_bytes ≡ requested))
      × (t'.specs ≡ t.specs)
unfolding record_denial
record_denial_bounded t n kind now requested =
    let new = denial_of t n kind now requested in
    let (len, (front, is)) = trim_lem (t.denials ++ new ∷ []) in
    (
      omega (arith, len, length-append t.denials (new ∷ [])),
      (
        front,
        new,
        is,
        unfold denial_of in refl,
        unfold denial_of in refl,
        unfold denial_of in refl,
        unfold denial_of in refl,
      ),
      refl,
    )
