-- ===== src/PosixAcl.antt =====
-- crates/lionfs/src/security/posix_acl.rs: access-control lists. Permission words and modes are
-- numbers, joined and cut by their bits; the texts of errors are left out, an error is `none`.
pub mod Wire
pub mod Modes
pub mod Access
mod Examples
use Prim.Native.Nat.{bit_and, bit_or}
use lion_fs.Base.{
  ℕ, zero, suc, ◌+◌, ◌-◌, ◌*◌, ◌/◌, ◌%◌, Bool, true, false, not, ◌&&◌, ◌||◌, Option, none, some,
  List, [], ◌∷◌, ◌++◌, ltb, leb, ◌==◌, if◌then◌else◌, length, map, find?, keep, Bytes, to_le_bytes,
  from_le_bytes, slice, drop,
}

abbrev pub wire_version : ℕ
wire_version = 1

abbrev pub user_obj : ℕ
user_obj = 1

abbrev pub user : ℕ
user = 2

abbrev pub group_obj : ℕ
group_obj = 4

abbrev pub group : ℕ
group = 8

abbrev pub mask_tag : ℕ
mask_tag = 16

abbrev pub other_tag : ℕ
other_tag = 32

pub record AclEntry : Type 0 where
  pub tag : ℕ
  pub perm : ℕ
  pub id : Option ℕ

pub record PosixAcl : Type 0 where
  pub entries : List AclEntry

abbrev pub is_valid_tag : ℕ → Bool
is_valid_tag t =
    (t == user_obj)
    || ((t == user)
        || ((t == group_obj) || ((t == group) || ((t == mask_tag) || (t == other_tag)))))

abbrev pub is_named_tag : ℕ → Bool
is_named_tag t = (t == user) || (t == group)

-- One entry of 8 bytes.
unfoldable pub decode_entry : Bytes → Option AclEntry
decode_entry chunk =
    let t = from_le_bytes (slice 0 2 chunk) in
    let p = from_le_bytes (slice 2 4 chunk) in
    let i = from_le_bytes (slice 4 8 chunk) in
    if not (is_valid_tag t)
    then none
    else if is_named_tag t
    then (if i == 4294967295 then none else some (record { tag = t; perm = p; id = some i }))
    else some (record { tag = t; perm = p; id = none })

-- The entries of a body of a whole number of chunks; a round takes 8 bytes.
unfoldable pub decode_entries : ℕ → Bytes → Option (List AclEntry)
unfolding decode_entry
decode_entries zero body = some []
decode_entries (suc chunks) body = elim (decode_entry (slice 0 8 body)) [
  | none ↦ none
  | some e ↦ elim (decode_entries chunks (drop 8 body)) [ none ↦ none | some es ↦ some (e ∷ es) ]
]

unfoldable pub decode : Bytes → Option PosixAcl
unfolding decode_entries
decode bytes =
    let body = drop 4 bytes in
    if ltb (length bytes) 4
    then none
    else if not (from_le_bytes (slice 0 4 bytes) == wire_version)
    then none
    else if not (length body % 8 == 0)
    then none
    else elim (decode_entries (length body / 8) body) [
      | none ↦ none
      | some es ↦ if length es == 0 then none else some (record { entries = es })
    ]

abbrev pub rank : ℕ → ℕ
rank t =
    if t == user_obj
    then 0
    else if t == user
    then 1
    else if t == group_obj
    then 2
    else if t == group
    then 3
    else if t == mask_tag
    then 4
    else 5

-- `Option<u32>`, with `None` first.
abbrev pub id_before : Option ℕ → Option ℕ → Bool
id_before none none = false
id_before none (some y) = true
id_before (some x) none = false
id_before (some x) (some y) = ltb x y

-- `a` comes strictly before `b`.
abbrev pub before : AclEntry → AclEntry → Bool
before a b =
    ltb (rank a.tag) (rank b.tag)
    || ((rank a.tag == rank b.tag) && (is_named_tag a.tag && id_before a.id b.id))

-- A stable sort: an entry is inserted before the later entries that it does not follow.
unfoldable pub insert_entry : AclEntry → List AclEntry → List AclEntry
insert_entry e [] = e ∷ []
insert_entry e (f ∷ fs) =
    let later = insert_entry e fs in if before f e then f ∷ later else e ∷ (f ∷ fs)

unfoldable pub canonical_sort : List AclEntry → List AclEntry
unfolding insert_entry
canonical_sort [] = []
canonical_sort (e ∷ es) = insert_entry e (canonical_sort es)

abbrev pub or_zero : Option ℕ → ℕ
or_zero none = 0
or_zero (some i) = i

unfoldable pub encode_entries : List AclEntry → Bytes
unfolding to_le_bytes
encode_entries [] = []
encode_entries (e ∷ es) =
    to_le_bytes 2 e.tag
    ++ (to_le_bytes 2 e.perm ++ (to_le_bytes 4 (or_zero e.id) ++ encode_entries es))

unfoldable pub encode : PosixAcl → Bytes
unfolding canonical_sort encode_entries to_le_bytes
encode acl = to_le_bytes 4 wire_version ++ encode_entries (canonical_sort acl.entries)

unfoldable pub count : ℕ → List AclEntry → ℕ
count t [] = 0
count t (e ∷ es) = if e.tag == t then count t es + 1 else count t es

-- The ids of the entries with the tag, sorted.
abbrev pub insert_id : ℕ → List ℕ → List ℕ
insert_id i [] = i ∷ []
insert_id i (j ∷ js) = let later = insert_id i js in if ltb j i then j ∷ later else i ∷ (j ∷ js)

abbrev pub ids_of : ℕ → List AclEntry → List ℕ
ids_of t [] = []
ids_of t (e ∷ es) =
    let rest = ids_of t es in
    if e.tag == t then elim e.id [ none ↦ rest | some i ↦ insert_id i rest ] else rest

-- `Vec::dedup`
abbrev pub dedup_from : ℕ → List ℕ → List ℕ
dedup_from last [] = []
dedup_from last (i ∷ is) = let rest = dedup_from i is in if i == last then rest else i ∷ rest

abbrev pub dedup : List ℕ → List ℕ
dedup [] = []
dedup (i ∷ is) = i ∷ dedup_from i is

-- `e.perm & !0o7 != 0` for some entry.
abbrev pub has_other_bits : List AclEntry → Bool
has_other_bits [] = false
has_other_bits (e ∷ es) = not (e.perm / 8 == 0) || has_other_bits es

unfoldable pub validate : PosixAcl → Bool → Bool
unfolding count
validate acl is_default =
    let es = acl.entries in
    let named = count user es + count group es in
    if not (count user_obj es == 1)
    then false
    else if not (count group_obj es == 1)
    then false
    else if not (count other_tag es == 1)
    then false
    else if ltb 1 (count mask_tag es)
    then false
    else if ltb 0 named && (count mask_tag es == 0)
    then false
    else if has_other_bits es
    then false
    else if not (length (dedup (ids_of user es)) == count user es)
    then false
    else if not (length (dedup (ids_of group es)) == count group es)
    then false
    else not (is_default && (named == 0))

unfoldable pub find : PosixAcl → ℕ → Option AclEntry
find acl t = find? (λ (e : AclEntry). e.tag == t) acl.entries

abbrev pub is_id : ℕ → Option ℕ → Bool
is_id i none = false
is_id i (some j) = j == i

unfoldable pub named_by_id : PosixAcl → ℕ → ℕ → Option AclEntry
named_by_id acl t i = find? (λ (e : AclEntry). (e.tag == t) && is_id i e.id) acl.entries

-- `map_or(0, |e| e.perm)`
abbrev pub perm_or_zero : Option AclEntry → ℕ
perm_or_zero none = 0
perm_or_zero (some e) = e.perm

abbrev pub masked : Option AclEntry → ℕ → ℕ
masked none p = p
masked (some m) p = bit_and p m.perm

-- The words are of three bits each, as `validate` asks.
unfoldable pub mode_bits : PosixAcl → ℕ
unfolding find
mode_bits acl =
    let group_class = masked (find acl mask_tag) (perm_or_zero (find acl group_obj)) in
    bit_or (bit_or (perm_or_zero (find acl user_obj) * 64) (group_class * 8))
      (perm_or_zero (find acl other_tag))

-- `perm & mask & want == want`; without a mask all bits count.
unfoldable pub is_granted : ℕ → Option AclEntry → ℕ → Bool
is_granted perm none want = bit_and (bit_and perm 65535) want == want
is_granted perm (some m) want = bit_and (bit_and perm m.perm) want == want

abbrev pub entry_grants : Option AclEntry → Option AclEntry → ℕ → Bool
entry_grants none mask want = false
entry_grants (some e) mask want = is_granted e.perm mask want

abbrev pub is_there : Option AclEntry → Bool
is_there none = false
is_there (some e) = true

unfoldable pub evaluate : PosixAcl → ℕ → ℕ → ℕ → ℕ → ℕ → Bool
unfolding find named_by_id is_granted
evaluate acl uid gid owner_uid owner_gid want =
    let mask = find acl mask_tag in
    let named_group = named_by_id acl group gid in
    let owning_grants =
      (gid == owner_gid) && is_granted (perm_or_zero (find acl group_obj)) mask want in
    let named_grants = entry_grants named_group mask want in
    let has_named = is_there named_group in
    if uid == owner_uid
    then is_granted (perm_or_zero (find acl user_obj)) none want
    else elim (named_by_id acl user uid) [
      | some e ↦ is_granted e.perm mask want
      | none ↦
          if owning_grants
          then true
          else if named_grants
          then true
          else if (gid == owner_gid) || has_named
          then false
          else is_granted (perm_or_zero (find acl other_tag)) none want
    ]

-- `entries.iter().any(|e| e.tag == t)`
unfoldable pub has_tag : ℕ → List AclEntry → Bool
has_tag t [] = false
has_tag t (e ∷ es) = (e.tag == t) || has_tag t es

abbrev pub set_perm : AclEntry → ℕ → AclEntry
set_perm e p = record e { perm = p }

-- The match of `apply_chmod` on one entry.
abbrev pub chmod_entry : ℕ → AclEntry → AclEntry
chmod_entry mode e =
    if e.tag == user_obj
    then set_perm e (mode / 64 % 8)
    else if e.tag == other_tag
    then set_perm e (mode % 8)
    else if e.tag == mask_tag
    then set_perm e (mode / 8 % 8)
    else e

abbrev pub chmod_group : ℕ → AclEntry → AclEntry
chmod_group mode e = if e.tag == group_obj then set_perm e (mode / 8 % 8) else e

unfoldable pub apply_chmod : PosixAcl → ℕ → PosixAcl
unfolding has_tag
apply_chmod acl mode =
    let out = map (chmod_entry mode) acl.entries in
    if not (has_tag mask_tag out)
    then record { entries = map (chmod_group mode) out }
    else record { entries = out }

abbrev pub inherit_entry : ℕ → AclEntry → AclEntry
inherit_entry mode e =
    if e.tag == user_obj
    then set_perm e (bit_and e.perm (mode / 64 % 8))
    else if e.tag == group_obj
    then set_perm e (bit_and e.perm (mode / 8 % 8))
    else if e.tag == other_tag
    then set_perm e (bit_and e.perm (mode % 8))
    else e

-- The named permissions together.
unfoldable pub max_named : ℕ → List AclEntry → ℕ
max_named acc [] = acc
max_named acc (e ∷ es) = max_named (if is_named_tag e.tag then bit_or acc e.perm else acc) es

unfoldable pub inherit_access_from_default : PosixAcl → ℕ → PosixAcl
unfolding has_tag max_named
inherit_access_from_default acl mode =
    let entries = map (inherit_entry mode) acl.entries in
    let named = max_named 0 acl.entries in
    if not (has_tag mask_tag entries) && not (named == 0)
    then record { entries = entries ++ (record { tag = mask_tag; perm = named; id = none } ∷ []) }
    else record { entries = entries }

unfoldable pub from_mode : ℕ → PosixAcl
from_mode mode = record {
  entries =
      record { tag = user_obj; perm = mode / 64 % 8; id = none }
      ∷ (record { tag = group_obj; perm = mode / 8 % 8; id = none }
          ∷ (record { tag = other_tag; perm = mode % 8; id = none } ∷ []));
}

unfoldable pub is_trivial : PosixAcl → Bool
unfolding has_tag
is_trivial acl =
    not (has_tag user acl.entries || (has_tag group acl.entries || has_tag mask_tag acl.entries))
