-- ===== src/PosixAcl/Modes.antt =====
-- The mode bits of a list after a change of the mode.
use Prim.Native.Nat.{bit_and, bit_or}
use lion_fs.Base.{
  ℕ, ◌*◌, ◌/◌, ◌%◌, ◌≡◌, refl, sym, ap, ◌∙◌, Bool, true, false, Option, none, some, List, [], ◌∷◌,
  arith, ◌==◌, if◌then◌else◌, Bool-cases, inl, inr, find?, map, eq_of_==, some_injective,
  Option-cases, ◌≢◌,
}
use lion_fs.PosixAcl.{
  AclEntry, PosixAcl, find, mode_bits, masked, perm_or_zero, is_there, apply_chmod, chmod_entry,
  chmod_group, has_tag, user_obj, group_obj, mask_tag, other_tag,
}

abbrev map_entry : (AclEntry → AclEntry) → Option AclEntry → Option AclEntry
map_entry f none = none
map_entry f (some e) = some (f e)

abbrev find_in : List AclEntry → ℕ → Option AclEntry
find_in es t = find? (λ (e : AclEntry). e.tag == t) es

branch :
    (f : AclEntry → AclEntry) (b : Bool) (e : AclEntry) (new old : Option AclEntry)
    → new ≡ map_entry f old
    → (if b then some (f e) else new) ≡ map_entry f (if b then some e else old)
branch f true e new old h = refl
branch f false e new old h = h

-- A change that keeps the tags is seen by the search.
find_in-map :
    (f : AclEntry → AclEntry) (es : List AclEntry) (t : ℕ)
    → ((e : AclEntry) → (f e).tag ≡ e.tag)
    → find_in (map f es) t ≡ map_entry f (find_in es t)
find_in-map f [] t keeps = refl
find_in-map f (e ∷ es) t keeps =
    let tag = ap (λ n. n == t) (keeps e) in
    let left = ap (λ b. if b then some (f e) else find_in (map f es) t) tag in
    left ∙ branch f (e.tag == t) e (find_in (map f es) t) (find_in es t) (find_in-map f es t keeps)

chmod_entry_tag : (mode : ℕ) (e : AclEntry) → (chmod_entry mode e).tag ≡ e.tag
chmod_entry_tag mode e = ground arith

chmod_group_tag : (mode : ℕ) (e : AclEntry) → (chmod_group mode e).tag ≡ e.tag
chmod_group_tag mode e = ground arith

find_in_tag : (es : List AclEntry) (t : ℕ) (e : AclEntry) → find_in es t ≡ some e → e.tag ≡ t
find_in_tag [] t e h = cc
find_in_tag (x ∷ es) t e h = elim (Bool-cases (x.tag == t)) [
  | inl hit ↦
      let same : some x ≡ some e = sym (rw (hit) refl) ∙ h in
      ap (λ (y : AclEntry). y.tag) (sym (some_injective same)) ∙ eq_of_== x.tag t hit
  | inr miss ↦ find_in_tag es t e (sym (rw (miss) refl) ∙ h)
]

has_tag-find_in : (t : ℕ) (es : List AclEntry) → has_tag t es ≡ is_there (find_in es t)
unfolding has_tag
has_tag-find_in t [] = refl
has_tag-find_in t (e ∷ es) = elim (Bool-cases (e.tag == t)) [
  | inl hit ↦ rw (hit) refl
  | inr miss ↦ rw (miss) (has_tag-find_in t es)
]

mode_bits_parts :
    (es : List AclEntry) (pu pg po : ℕ) (mask : Option AclEntry)
    → perm_or_zero (find_in es user_obj) ≡ pu
    → perm_or_zero (find_in es group_obj) ≡ pg
    → perm_or_zero (find_in es other_tag) ≡ po
    → find_in es mask_tag ≡ mask
    → mode_bits (record { entries = es }) ≡ bit_or (bit_or (pu * 64) (masked mask pg * 8)) po
unfolding mode_bits find
mode_bits_parts es pu pg po mask a b c d = rw (mode_bits, a, b, c, d) refl

-- The perms that the change of the mode gives to each class.
user_perm : (mode : ℕ) (e : AclEntry) → e.tag ≡ user_obj → (chmod_entry mode e).perm ≡ mode / 64 % 8
user_perm mode e h = ground (arith, h)

other_perm : (mode : ℕ) (e : AclEntry) → e.tag ≡ other_tag → (chmod_entry mode e).perm ≡ mode % 8
other_perm mode e h = ground (arith, h)

mask_perm : (mode : ℕ) (e : AclEntry) → e.tag ≡ mask_tag → (chmod_entry mode e).perm ≡ mode / 8 % 8
mask_perm mode e h = ground (arith, h)

group_kept : (mode : ℕ) (e : AclEntry) → e.tag ≡ group_obj → (chmod_entry mode e).perm ≡ e.perm
group_kept mode e h = ground (arith, h)

group_perm :
    (mode : ℕ) (e : AclEntry) → e.tag ≡ group_obj → (chmod_group mode e).perm ≡ mode / 8 % 8
group_perm mode e h = ground (arith, h)

group_other :
    (mode t : ℕ) (e : AclEntry) → e.tag ≡ t → t ≢ group_obj → (chmod_group mode e).perm ≡ e.perm
group_other mode t e h ne = ground (arith, h, ne)

-- The group class after a change of the mode.
abbrev pub group_class : Option AclEntry → ℕ → ℕ → ℕ
group_class none perm mode = mode / 8 % 8
group_class (some m) perm mode = bit_and perm (mode / 8 % 8)

module _ (es : List AclEntry) (mode : ℕ) (u g o : AclEntry)
    (has_user : find_in es user_obj ≡ some u) (has_group : find_in es group_obj ≡ some g)
    (has_other : find_in es other_tag ≡ some o) where
  once :
      (t : ℕ) (e : AclEntry)
      → find_in es t ≡ some e
      → find_in (map (chmod_entry mode) es) t ≡ some (chmod_entry mode e)
  once t e h =
      find_in-map (chmod_entry mode) es t (chmod_entry_tag mode)
      ∙ ap (map_entry (chmod_entry mode)) h

  twice :
      (t : ℕ) (e : AclEntry)
      → find_in es t ≡ some e
      → find_in (map (chmod_group mode) (map (chmod_entry mode) es)) t
        ≡ some (chmod_group mode (chmod_entry mode e))
  twice t e h =
      find_in-map (chmod_group mode) (map (chmod_entry mode) es) t (chmod_group_tag mode)
      ∙ ap (map_entry (chmod_group mode)) (once t e h)

  tag_after : (t : ℕ) (e : AclEntry) → find_in es t ≡ some e → (chmod_entry mode e).tag ≡ t
  tag_after t e h = chmod_entry_tag mode e ∙ find_in_tag es t e h

  unmasked :
      find_in es mask_tag ≡ none
      → mode_bits (record { entries = map (chmod_group mode) (map (chmod_entry mode) es) })
        ≡ bit_or (bit_or (mode / 64 % 8 * 64) (mode / 8 % 8 * 8)) (mode % 8)
  unmasked no_mask =
      mode_bits_parts (map (chmod_group mode) (map (chmod_entry mode) es)) (mode / 64 % 8)
        (mode / 8 % 8) (mode % 8) none
        (ap perm_or_zero (twice user_obj u has_user)
          ∙ group_other mode user_obj (chmod_entry mode u) (tag_after user_obj u has_user)
              (λ e. omega (arith, e))
          ∙ user_perm mode u (find_in_tag es user_obj u has_user))
        (ap perm_or_zero (twice group_obj g has_group)
          ∙ group_perm mode (chmod_entry mode g) (tag_after group_obj g has_group))
        (ap perm_or_zero (twice other_tag o has_other)
          ∙ group_other mode other_tag (chmod_entry mode o) (tag_after other_tag o has_other)
              (λ e. omega (arith, e))
          ∙ other_perm mode o (find_in_tag es other_tag o has_other))
        (find_in-map (chmod_group mode) (map (chmod_entry mode) es) mask_tag (chmod_group_tag mode)
          ∙ ap (map_entry (chmod_group mode)) (
              find_in-map (chmod_entry mode) es mask_tag (chmod_entry_tag mode)
              ∙ ap (map_entry (chmod_entry mode)) no_mask))

  with_mask :
      (m : AclEntry)
      → find_in es mask_tag ≡ some m
      → mode_bits (record { entries = map (chmod_entry mode) es })
        ≡ bit_or (bit_or (mode / 64 % 8 * 64) (bit_and g.perm (mode / 8 % 8) * 8)) (mode % 8)
  with_mask m has_mask =
      mode_bits_parts (map (chmod_entry mode) es) (mode / 64 % 8) g.perm (mode % 8)
        (some (chmod_entry mode m))
        (ap perm_or_zero (once user_obj u has_user)
          ∙ user_perm mode u (find_in_tag es user_obj u has_user))
        (ap perm_or_zero (once group_obj g has_group)
          ∙ group_kept mode g (find_in_tag es group_obj g has_group))
        (ap perm_or_zero (once other_tag o has_other)
          ∙ other_perm mode o (find_in_tag es other_tag o has_other))
        (once mask_tag m has_mask)
      ∙ ap (λ p. bit_or (bit_or (mode / 64 % 8 * 64) (bit_and g.perm p * 8)) (mode % 8))
          (mask_perm mode m (find_in_tag es mask_tag m has_mask))

-- After a change of the mode of a list that has the three base entries, the mode bits of the list
-- are the bits of the new mode for the owner and for others; for the group class they are those of
-- the new mode if the list has no mask, and otherwise only those of them that the owning group's
-- entry has as well.
pub mode_bits-apply_chmod :
    (acl : PosixAcl) (mode : ℕ) (u g o : AclEntry)
    → find acl user_obj ≡ some u
    → find acl group_obj ≡ some g
    → find acl other_tag ≡ some o
    → mode_bits (apply_chmod acl mode)
      ≡ bit_or
          (bit_or (mode / 64 % 8 * 64) (group_class (find acl mask_tag) g.perm mode * 8))
          (mode % 8)
unfolding apply_chmod find
mode_bits-apply_chmod acl mode u g o hu hg ho =
    let es = acl.entries in
    let out = map (chmod_entry mode) es in
    let tagged =
      has_tag-find_in mask_tag out
      ∙ ap is_there (find_in-map (chmod_entry mode) es mask_tag (chmod_entry_tag mode)) in
    elim (Option-cases (find_in es mask_tag)) [
      | inl no_mask ↦
          let untagged : has_tag mask_tag out ≡ false = tagged ∙ rw (no_mask) refl in
          rw (apply_chmod, untagged, no_mask) (unmasked es mode u g o hu hg ho no_mask)
      | inr (m, has_mask) ↦
          let is_tagged : has_tag mask_tag out ≡ true = tagged ∙ rw (has_mask) refl in
          rw (apply_chmod, is_tagged, has_mask) (with_mask es mode u g o hu hg ho m has_mask)
    ]
