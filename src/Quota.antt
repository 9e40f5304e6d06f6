-- ===== src/Quota.antt =====
-- crates/lionfs/src/qos/quota.rs: quotas on bytes and inodes for each namespace, with soft limits
-- that turn into refusals after a grace period. The `HashMap` is an association list; times and
-- amounts are u64, added and subtracted with saturation, as the source does.
pub mod Limits
pub mod Trips
pub mod Denials
mod Examples
use lion_fs.Base.{
  ℕ, zero, suc, ◌+◌, ◌-◌, Bool, true, false, ◌&&◌, Option, none, some, List, [], ◌∷◌, ◌++◌, ltb,
  leb, ◌==◌, if◌then◌else◌, length, drop, map, sat_add,
}

pub data LimitKind : Type 0 where
  soft_space hard_space soft_inode hard_inode : LimitKind

pub record QuotaSpec : Type 0 where
  pub soft_space_limit : Option ℕ
  pub hard_space_limit : Option ℕ
  pub soft_inodes : Option ℕ
  pub hard_inodes : Option ℕ
  pub grace_ns : ℕ

-- One axis: soft at most hard, and hard not 0.
unfoldable pub axes_ok : Option ℕ → Option ℕ → Bool
axes_ok (some s) (some h) = leb s h && ltb 0 h
axes_ok (some s) none = true
axes_ok none (some h) = ltb 0 h
axes_ok none none = true

unfoldable pub validate : QuotaSpec → Bool
unfolding axes_ok
validate s = axes_ok s.soft_space_limit s.hard_space_limit && axes_ok s.soft_inodes s.hard_inodes

pub record NamespaceUsage : Type 0 where
  pub used_bytes : ℕ
  pub used_inodes : ℕ
  pub soft_space_since : Option ℕ
  pub soft_inodes_since : Option ℕ

abbrev pub no_usage : NamespaceUsage
no_usage = record {
  used_bytes = 0;
  used_inodes = 0;
  soft_space_since = none;
  soft_inodes_since = none;
}

pub data QuotaDecision : Type 0 where
  allow : QuotaDecision
  allow_warn : LimitKind → QuotaDecision
  deny : LimitKind → QuotaDecision

pub record DenialRecord : Type 0 where
  pub namespace : ℕ
  pub kind : LimitKind
  pub at_ns : ℕ
  pub requested_bytes : ℕ
  pub used : ℕ
  pub hard : Option ℕ

abbrev pub Entry : Type 0
Entry = QuotaSpec × NamespaceUsage

pub record QuotaTable : Type 0 where
  pub specs : List (ℕ × Entry)
  pub denials : List DenialRecord

unfoldable pub new : QuotaTable
new = record { specs = []; denials = [] }

unfoldable pub lookup : ℕ → List (ℕ × Entry) → Option Entry
lookup n [] = none
lookup n ((m, e) ∷ es) = if m == n then some e else lookup n es

unfoldable pub insert : ℕ → Entry → List (ℕ × Entry) → List (ℕ × Entry)
insert n e [] = (n, e) ∷ []
insert n e ((m, f) ∷ es) = if m == n then (n, e) ∷ es else (m, f) ∷ insert n e es

-- A change through `get_mut`.
unfoldable pub modify : ℕ → (Entry → Entry) → List (ℕ × Entry) → List (ℕ × Entry)
modify n f [] = []
modify n f ((m, e) ∷ es) = if m == n then (m, f e) ∷ es else (m, e) ∷ modify n f es

-- A new envelope clears a trip that it does not uphold.
unfoldable pub respec_since : Option ℕ → ℕ → Option ℕ → Option ℕ
respec_since none used since = none
respec_since (some soft) used since = if leb used soft then none else since

unfoldable pub respec : QuotaSpec → NamespaceUsage → NamespaceUsage
unfolding respec_since
respec s u = record u {
  soft_space_since = respec_since s.soft_space_limit u.used_bytes u.soft_space_since;
  soft_inodes_since = respec_since s.soft_inodes u.used_inodes u.soft_inodes_since;
}

abbrev pub usage_or_new : Option Entry → NamespaceUsage
usage_or_new none = no_usage
usage_or_new (some e) = e.1

unfoldable pub set_spec : QuotaTable → ℕ → QuotaSpec → QuotaTable × Bool
unfolding validate lookup insert respec
set_spec t n s =
    if validate s
    then (
      record t { specs = insert n (s, respec s (usage_or_new (lookup n t.specs))) t.specs },
      true,
    )
    else (t, false)

unfoldable pub get : QuotaTable → ℕ → Option Entry
unfolding lookup
get t n = lookup n t.specs

-- `used.saturating_add(extra) > limit`, for a limit that may be absent
unfoldable pub exceeds : Option ℕ → ℕ → ℕ → Bool
exceeds none used extra = false
exceeds (some limit) used extra = ltb limit (sat_add used extra)

abbrev pub unwrap_or : Option ℕ → ℕ → ℕ
unwrap_or none d = d
unwrap_or (some x) d = x

-- The grace period of a trip is over.
unfoldable pub past_grace : Option ℕ → ℕ → ℕ → Bool
past_grace since now grace = ltb grace (now - unwrap_or since now) && ltb 0 grace

unfoldable pub soft_verdict : LimitKind → Option ℕ → ℕ → ℕ → QuotaDecision
unfolding past_grace
soft_verdict kind since now grace =
    if past_grace since now grace then deny kind else allow_warn kind

unfoldable pub evaluate_entry : Entry → ℕ → ℕ → ℕ → QuotaDecision
unfolding exceeds soft_verdict
evaluate_entry (s, u) now bytes inodes =
    if exceeds s.hard_space_limit u.used_bytes bytes
    then deny hard_space
    else if exceeds s.hard_inodes u.used_inodes inodes
    then deny hard_inode
    else if exceeds s.soft_space_limit u.used_bytes bytes
    then soft_verdict soft_space u.soft_space_since now s.grace_ns
    else if exceeds s.soft_inodes u.used_inodes inodes
    then soft_verdict soft_inode u.soft_inodes_since now s.grace_ns
    else allow

-- An unmanaged namespace is allowed everything.
unfoldable pub evaluate : QuotaTable → ℕ → ℕ → ℕ → ℕ → QuotaDecision
unfolding evaluate_entry lookup
evaluate t n now bytes inodes = elim (lookup n t.specs) [
  | none ↦ allow
  | some e ↦ evaluate_entry e now bytes inodes
]

unfoldable pub is_none : Option ℕ → Bool
is_none none = true
is_none (some x) = false

unfoldable pub trip : Option ℕ → ℕ → Option ℕ → ℕ → Option ℕ
unfolding is_none
trip none used since now = since
trip (some soft) used since now = if ltb soft used && is_none since then some now else since

unfoldable pub charge_usage : QuotaSpec → ℕ → ℕ → ℕ → NamespaceUsage → NamespaceUsage
unfolding trip
charge_usage s now bytes inodes u =
    let b = sat_add u.used_bytes bytes in
    let i = sat_add u.used_inodes inodes in
    record {
      used_bytes = b;
      used_inodes = i;
      soft_space_since = trip s.soft_space_limit b u.soft_space_since now;
      soft_inodes_since = trip s.soft_inodes i u.soft_inodes_since now;
    }

unfoldable pub charge : QuotaTable → ℕ → ℕ → ℕ → ℕ → QuotaTable
unfolding modify charge_usage
charge t n now bytes inodes = record t {
  specs = modify n (λ e. (e.0, charge_usage e.0 now bytes inodes e.1)) t.specs;
}

unfoldable pub clear : Option ℕ → ℕ → Option ℕ → Option ℕ
clear none used since = since
clear (some soft) used since = if leb used soft then none else since

unfoldable pub release_usage : QuotaSpec → ℕ → ℕ → NamespaceUsage → NamespaceUsage
unfolding clear
release_usage s bytes inodes u =
    let b = u.used_bytes - bytes in
    let i = u.used_inodes - inodes in
    record {
      used_bytes = b;
      used_inodes = i;
      soft_space_since = clear s.soft_space_limit b u.soft_space_since;
      soft_inodes_since = clear s.soft_inodes i u.soft_inodes_since;
    }

unfoldable pub release : QuotaTable → ℕ → ℕ → ℕ → QuotaTable
unfolding modify release_usage
release t n bytes inodes = record t {
  specs = modify n (λ e. (e.0, release_usage e.0 bytes inodes e.1)) t.specs;
}

abbrev pub kept_denials : ℕ
kept_denials = 1024

-- Only the latest denials are kept.
unfoldable pub trim : List DenialRecord → List DenialRecord
trim ds = if ltb kept_denials (length ds) then drop (length ds - kept_denials) ds else ds

-- An unmanaged namespace counts as one with no usage and no hard limit.
unfoldable pub denial_of : QuotaTable → ℕ → LimitKind → ℕ → ℕ → DenialRecord
unfolding lookup
denial_of t n kind now requested = record {
  namespace = n;
  kind = kind;
  at_ns = now;
  requested_bytes = requested;
  used = elim (lookup n t.specs) [ none ↦ 0 | some e ↦ e.1.used_bytes ];
  hard = elim (lookup n t.specs) [ none ↦ none | some e ↦ e.0.hard_space_limit ];
}

unfoldable pub record_denial : QuotaTable → ℕ → LimitKind → ℕ → ℕ → QuotaTable
record_denial t n kind now requested = record t {
  denials = trim (t.denials ++ (denial_of t n kind now requested ∷ []));
}
