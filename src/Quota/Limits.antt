-- ===== src/Quota/Limits.antt =====
-- Hard limits: a namespace whose charges are all evaluated first never exceeds them.
use lion_fs.Base.{
  ℕ, ◌-◌, ◌≤◌, ◌≡◌, ◌≢◌, refl, ◌∙◌, inl, inr, Bool, true, false, Option, none, some, List, [], ◌∷◌,
  arith, ◌==◌, ◌&&◌, ◌||◌, not, sat_add, Bool-cases, All, if_elim,
}
use lion_fs.Quota.{
  LimitKind, soft_space, hard_space, soft_inode, hard_inode, QuotaDecision, allow, allow_warn, deny,
  Entry, QuotaTable, exceeds, past_grace, evaluate_entry, evaluate, charge_usage, charge,
  release_usage, release, record_denial, modify, lookup,
}

-- The amount keeps to a limit that may be absent.
abbrev pub Within : Option ℕ → ℕ → Type 0
Within none used = Unit
Within (some limit) used = used ≤ limit

-- Both hard limits hold.
pub record KeepsHard (e : Entry) : Type 0 where
  pub bytes_kept : Within e.0.hard_space_limit e.1.used_bytes
  pub inodes_kept : Within e.0.hard_inodes e.1.used_inodes

abbrev pub AllKeepHard : List (ℕ × Entry) → Type 0
AllKeepHard es = All (λ e. KeepsHard e.1) es

pub data Request : Type 0 where
  -- namespace, time, bytes, inodes
  reserve : ℕ → ℕ → ℕ → ℕ → Request
  -- namespace, bytes, inodes
  give_back : ℕ → ℕ → ℕ → Request

-- What the allocator does: evaluate, then charge, or record the denial.
unfoldable pub serve : QuotaTable → Request → QuotaTable
unfolding evaluate charge release record_denial
serve t (reserve n now bytes inodes) = elim (evaluate t n now bytes inodes) [
  | allow ↦ charge t n now bytes inodes
  | allow_warn kind ↦ charge t n now bytes inodes
  | deny kind ↦ record_denial t n kind now bytes
]
serve t (give_back n bytes inodes) = release t n bytes inodes

unfoldable pub serve_all : QuotaTable → List Request → QuotaTable
unfolding serve
serve_all t [] = t
serve_all t (r ∷ rs) = serve_all (serve t r) rs

exceeds-Within :
    (limit : Option ℕ) (used extra : ℕ)
    → exceeds limit used extra ≡ false
    → Within limit (sat_add used extra)
unfolding exceeds
exceeds-Within none used extra h = tt
exceeds-Within (some limit) used extra h = ground arith

Within-sub : (limit : Option ℕ) (used less : ℕ) → Within limit used → Within limit (used - less)
Within-sub none used less h = tt
Within-sub (some limit) used less h = omega arith

-- What is not denied keeps to the hard limits when it is charged.
charge_usage-KeepsHard :
    (e : Entry) (now bytes inodes : ℕ)
    → (exceeds e.0.hard_space_limit e.1.used_bytes bytes ≡ false)
      × (exceeds e.0.hard_inodes e.1.used_inodes inodes ≡ false)
    → KeepsHard (e.0, charge_usage e.0 now bytes inodes e.1)
unfolding charge_usage
charge_usage-KeepsHard e now bytes inodes h = record {
  bytes_kept = exceeds-Within e.0.hard_space_limit e.1.used_bytes bytes h.0;
  inodes_kept = exceeds-Within e.0.hard_inodes e.1.used_inodes inodes h.1;
}

-- A verdict other than a denial.
abbrev pub IsGranted : QuotaDecision → Type 0
IsGranted d = (kind : LimitKind) → d ≢ deny kind

evaluate_entry-granted :
    (e : Entry) (now bytes inodes : ℕ)
    → IsGranted (evaluate_entry e now bytes inodes)
    → (exceeds e.0.hard_space_limit e.1.used_bytes bytes ≡ false)
      × (exceeds e.0.hard_inodes e.1.used_inodes inodes ≡ false)
unfolding evaluate_entry
evaluate_entry-granted e now bytes inodes g = ground (arith, g hard_space, g hard_inode)

modify-granted :
    (n now bytes inodes : ℕ) (es : List (ℕ × Entry))
    → AllKeepHard es
    → ((e : Entry) → lookup n es ≡ some e → IsGranted (evaluate_entry e now bytes inodes))
    → AllKeepHard (modify n (λ e. (e.0, charge_usage e.0 now bytes inodes e.1)) es)
unfolding modify lookup
modify-granted n now bytes inodes [] a g = tt
modify-granted n now bytes inodes ((m, e) ∷ es) a g = elim (Bool-cases (m == n)) [
  | inl here ↦ rw here (
    charge_usage-KeepsHard e now bytes inodes
        (evaluate_entry-granted e now bytes inodes (g e (rw here))),
    a.1,
  )
  | inr there ↦ rw there (a.0, modify-granted n now bytes inodes es a.1 (λ f h. g f (rw there h)))
]

release-kept :
    (n bytes inodes : ℕ) (es : List (ℕ × Entry))
    → AllKeepHard es
    → AllKeepHard (modify n (λ e. (e.0, release_usage e.0 bytes inodes e.1)) es)
unfolding modify release_usage
release-kept n bytes inodes [] a = tt
release-kept n bytes inodes ((m, e) ∷ es) a =
    if_elim AllKeepHard (m == n) _ _
      (
        record {
          bytes_kept = Within-sub e.0.hard_space_limit e.1.used_bytes bytes a.0.bytes_kept;
          inodes_kept = Within-sub e.0.hard_inodes e.1.used_inodes inodes a.0.inodes_kept;
        },
        a.1,
      )
      (a.0, release-kept n bytes inodes es a.1)

evaluate-entry :
    (t : QuotaTable) (n now bytes inodes : ℕ) (e : Entry)
    → lookup n t.specs ≡ some e
    → evaluate t n now bytes inodes ≡ evaluate_entry e now bytes inodes
unfolding evaluate
evaluate-entry t n now bytes inodes e h = rw (h, evaluate)

charge-AllKeepHard :
    (t : QuotaTable) (n now bytes inodes : ℕ)
    → AllKeepHard t.specs
    → IsGranted (evaluate t n now bytes inodes)
    → AllKeepHard (charge t n now bytes inodes).specs
unfolding charge
charge-AllKeepHard t n now bytes inodes a g =
    modify-granted n now bytes inodes t.specs a
      (λ e h kind d. g kind (evaluate-entry t n now bytes inodes e h ∙ d))

serve-AllKeepHard :
    (t : QuotaTable) (r : Request) → AllKeepHard t.specs → AllKeepHard (serve t r).specs
unfolding serve
serve-AllKeepHard t (give_back n bytes inodes) a = release-kept n bytes inodes t.specs a
serve-AllKeepHard t (reserve n now bytes inodes) a = verdict (evaluate t n now bytes inodes) refl
  where
    verdict :
        (d : QuotaDecision)
        → evaluate t n now bytes inodes ≡ d
        → AllKeepHard (serve t (reserve n now bytes inodes)).specs
    verdict allow e = rw (e, serve) (charge-AllKeepHard t n now bytes inodes a (λ kind d. cc))
    verdict (allow_warn k) e =
        rw (e, serve) (charge-AllKeepHard t n now bytes inodes a (λ kind d. cc))
    verdict (deny k) e = rw (e, serve) a

-- From a table whose namespaces keep their hard limits, any sequence of reservations, each charged
-- only if its evaluation does not deny it, and of releases ends in such a table.
pub serve_all-AllKeepHard :
    (t : QuotaTable) (rs : List Request) → AllKeepHard t.specs → AllKeepHard (serve_all t rs).specs
unfolding serve_all
serve_all-AllKeepHard t [] a = a
serve_all-AllKeepHard t (r ∷ rs) a = serve_all-AllKeepHard (serve t r) rs (serve-AllKeepHard t r a)

abbrev pub is_denied : QuotaDecision → Bool
is_denied (deny kind) = true
is_denied _ = false

-- A charge is denied exactly if it would exceed a hard limit, or it exceeds the soft space limit
-- with the grace period of that trip over, or it keeps to the soft space limit and exceeds the soft
-- inode limit with the grace period of that trip over.
pub is_denied-evaluate_entry :
    (e : Entry) (now bytes inodes : ℕ)
    → let s = e.0 in
      let u = e.1 in
      let space_over = exceeds s.soft_space_limit u.used_bytes bytes in
      is_denied (evaluate_entry e now bytes inodes) ≡ (
        exceeds s.hard_space_limit u.used_bytes bytes
        || exceeds s.hard_inodes u.used_inodes inodes
        || (space_over && past_grace u.soft_space_since now s.grace_ns)
        || (not space_over
            && exceeds s.soft_inodes u.used_inodes inodes
            && past_grace u.soft_inodes_since now s.grace_ns))
unfolding evaluate_entry
is_denied-evaluate_entry e now bytes inodes = ground arith

-- The soft inode limit is not looked at while the soft space limit is exceeded within its grace: a
-- charge that exceeds both, with the grace of the inode trip over, is allowed.
pub soft_space_hides_soft_inodes :
    (e : Entry) (now bytes inodes : ℕ)
    → exceeds e.0.hard_space_limit e.1.used_bytes bytes ≡ false
    → exceeds e.0.hard_inodes e.1.used_inodes inodes ≡ false
    → exceeds e.0.soft_space_limit e.1.used_bytes bytes ≡ true
    → past_grace e.1.soft_space_since now e.0.grace_ns ≡ false
    → exceeds e.0.soft_inodes e.1.used_inodes inodes ≡ true
    → past_grace e.1.soft_inodes_since now e.0.grace_ns ≡ true
    → (evaluate_entry e now bytes inodes ≡ allow_warn soft_space)
      × (evaluate_entry (record e.0 { soft_space_limit = none }, e.1) now bytes inodes
          ≡ deny soft_inode)
unfolding evaluate_entry
soft_space_hides_soft_inodes e now bytes inodes hs hi ss gs si gi = ground arith
