-- ===== src/PosixAcl/Examples.antt =====
-- A list with a named user and a mask: tests, and the theorems at concrete inputs.
use Prim.Native.Nat.{bit_or}
use lion_fs.Base.{ℕ, Bool, ◌*◌, ◌/◌, ◌%◌, ◌<◌, ◌≡◌, refl, true, false, none, some, [], ◌∷◌, arith}
use lion_fs.PosixAcl.{
  AclEntry, PosixAcl, decode, encode, canonical_sort, validate, find, mode_bits, evaluate,
  apply_chmod, inherit_access_from_default, from_mode, is_trivial, user_obj, group_obj, mask_tag,
  other_tag,
}
use lion_fs.PosixAcl.Wire.{IsEntry, decode-encode}
use lion_fs.PosixAcl.Access.{mode_allows, evaluate-from_mode}
use lion_fs.PosixAcl.Modes.{group_class, mode_bits-apply_chmod}

abbrev owner_entry : AclEntry
owner_entry = record { tag = 1; perm = 7; id = none }

abbrev named_entry : AclEntry
named_entry = record { tag = 2; perm = 6; id = some 1000 }

abbrev group_entry : AclEntry
group_entry = record { tag = 4; perm = 4; id = none }

abbrev mask_entry : AclEntry
mask_entry = record { tag = 16; perm = 6; id = none }

abbrev other_entry : AclEntry
other_entry = record { tag = 32; perm = 0; id = none }

abbrev shared : PosixAcl
shared = record {
  entries = mask_entry ∷ (owner_entry ∷ (named_entry ∷ (group_entry ∷ (other_entry ∷ []))));
}

validate_test : validate shared true ≡ true
unfolding validate
validate_test = refl

-- The named user may write, the owning group may not.
named_user_test : evaluate shared 1000 5 0 5 2 ≡ true
unfolding evaluate
named_user_test = refl

owning_group_test : evaluate shared 1001 5 0 5 2 ≡ false
unfolding evaluate
owning_group_test = refl

-- After chmod 0770 the mode bits are 0740: the mask does not widen the group's own entry.
chmod_test : mode_bits (apply_chmod shared 504) ≡ 480
unfolding mode_bits apply_chmod
chmod_test = refl

inherit_test : mode_bits (inherit_access_from_default shared 448) ≡ 448
unfolding mode_bits inherit_access_from_default
inherit_test = refl

trivial_test : is_trivial (from_mode 420) ≡ true
unfolding is_trivial from_mode
trivial_test = refl

false_not_true : {b : Bool} → b ≡ true → b ≡ false → ⊥
false_not_true e f = cc

class-IsEntry :
    (t p : ℕ)
    → lion_fs.PosixAcl.is_valid_tag t ≡ true
    → lion_fs.PosixAcl.is_named_tag t ≡ false
    → t < 65536
    → p < 65536
    → IsEntry (record { tag = t; perm = p; id = none })
class-IsEntry t p valid class t_fits p_fits = record {
  tag_valid = valid;
  tag_fits = t_fits;
  perm_fits = p_fits;
  id_given = (λ named. absurd (false_not_true named class));
  id_absent = (λ e. refl);
}

named-IsEntry : IsEntry named_entry
named-IsEntry = record {
  tag_valid = refl;
  tag_fits = omega arith;
  perm_fits = omega arith;
  id_given = (λ named. (1000, (refl, omega arith)));
  id_absent = (λ class. absurd (false_not_true refl class));
}

decode-encode_example :
    decode (encode shared) ≡ some (record { entries = canonical_sort shared.entries })
decode-encode_example = decode-encode shared (omega arith) (
  class-IsEntry 16 6 refl refl (omega arith) (omega arith),
  (
    class-IsEntry 1 7 refl refl (omega arith) (omega arith),
    (
      named-IsEntry,
      (
        class-IsEntry 4 4 refl refl (omega arith) (omega arith),
        (class-IsEntry 32 0 refl refl (omega arith) (omega arith), tt),
      ),
    ),
  ),
)

evaluate-from_mode_example : evaluate (from_mode 416) 7 100 0 100 4 ≡ mode_allows 416 7 100 0 100 4
evaluate-from_mode_example = evaluate-from_mode 416 7 100 0 100 4

mode_bits-apply_chmod_example :
    mode_bits (apply_chmod shared 504)
    ≡ bit_or
        (bit_or (504 / 64 % 8 * 64) (group_class (find shared mask_tag) group_entry.perm 504 * 8))
        (504 % 8)
unfolding find
mode_bits-apply_chmod_example =
    mode_bits-apply_chmod shared 504 owner_entry group_entry other_entry refl refl refl
