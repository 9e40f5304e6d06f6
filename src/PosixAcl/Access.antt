-- ===== src/PosixAcl/Access.antt =====
-- The access check on the list that a mode stands for.
use lion_fs.Base.{ℕ, ◌/◌, ◌%◌, ◌≡◌, refl, Bool, none, ◌==◌, if◌then◌else◌, Bool-cases, inl, inr}
use lion_fs.PosixAcl.{evaluate, from_mode, find, named_by_id, is_granted}

-- The check of the permission bits of a mode: the class of the caller decides.
abbrev pub mode_allows : ℕ → ℕ → ℕ → ℕ → ℕ → ℕ → Bool
mode_allows mode uid gid owner_uid owner_gid want =
    if uid == owner_uid
    then is_granted (mode / 64 % 8) none want
    else if gid == owner_gid
    then is_granted (mode / 8 % 8) none want
    else is_granted (mode % 8) none want

-- On the access-control list of a mode the access check is the check of the mode's bits.
pub evaluate-from_mode :
    (mode uid gid owner_uid owner_gid want : ℕ)
    → evaluate (from_mode mode) uid gid owner_uid owner_gid want
      ≡ mode_allows mode uid gid owner_uid owner_gid want
unfolding evaluate from_mode find named_by_id
evaluate-from_mode mode uid gid owner_uid owner_gid want = elim (Bool-cases (uid == owner_uid)) [
  | inl owner ↦ rw (evaluate, owner) refl
  | inr stranger ↦ elim (Bool-cases (gid == owner_gid)) [
    | inl member ↦ elim (Bool-cases (is_granted (mode / 8 % 8) none want)) [
      | inl yes_granted ↦ rw (evaluate, stranger, member, yes_granted) refl
      | inr refused ↦ rw (evaluate, stranger, member, refused) refl
    ]
    | inr outsider ↦ rw (evaluate, stranger, outsider) refl
  ]
]
