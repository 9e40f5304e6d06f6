-- ===== src/Allocator/Outcomes.antt =====
-- What every way to allocate answers.
use mathlib.Core.Path.{subst}
use lion_fs.Base.{
  ℕ, ◌+◌, ◌-◌, ◌*◌, ◌/◌, ◌%◌, ◌<◌, ◌≤◌, ◌≡◌, inl, inr, refl, sym, true, false, ◌&&◌, Option, none,
  some, arith, ltb, leb, ◌==◌, if◌then◌else◌, ==_of_ne, Option-cases, min, u32_mod,
}
use lion_fs.Allocator.{
  is_used, Bitmap, Context, find_run, modify_blocks, scan_free_run, or_else, scan_from_cursor,
  take_run, take_meta_run, want_run, preferred_search_start, allocate_extents,
  allocate_extents_hinted, allocate_extents_meta, allocate_extents_reserved, bitmap_blocks,
}
use lion_fs.Allocator.Scan.{IsFree, NoRun, IsFirst}
use lion_fs.Allocator.FirstFit.{IsAnswer, find_run-IsAnswer}
use lion_fs.Allocator.Marking.{is_used-modify_blocks}

-- The blocks from `s` on were free, lie in the group, and are used now; no other block changed.
pub record IsGranted (blocks_per_group : ℕ) (before after : Bitmap) (s count : ℕ) : Type 0 where
  pub inside : s + count ≤ blocks_per_group
  pub was_free : IsFree before s (s + count)
  pub marked :
      (n : ℕ) → is_used after n ≡ (if leb s n && ltb n (s + count) then true else is_used before n)

-- A failure changes nothing.
abbrev pub IsGrant : ℕ → Context → ℕ → Context × Option ℕ → Type 0
IsGrant blocks_per_group ctx count (after, some s) =
    IsGranted blocks_per_group ctx.bitmap after.bitmap s count
IsGrant blocks_per_group ctx count (after, none) = after ≡ ctx

-- A failure changes nothing, and means that no run of `count` blocks is free.
abbrev pub IsOutcome : ℕ → Context → ℕ → Context × Option ℕ → Type 0
IsOutcome blocks_per_group ctx count (after, some s) =
    IsGranted blocks_per_group ctx.bitmap after.bitmap s count
IsOutcome blocks_per_group ctx count (after, none) =
    (after ≡ ctx) × NoRun blocks_per_group count ctx.bitmap 0 blocks_per_group

module _ (blocks_per_group : ℕ) (few : blocks_per_group < u32_mod) where
  taken_run :
      (ctx : Context) (count mark from s : ℕ)
      → mark ≤ count
      → IsFirst blocks_per_group count ctx.bitmap from s
      → IsGranted blocks_per_group ctx.bitmap (modify_blocks ctx.bitmap s mark true) s mark
  taken_run ctx count mark from s le first =
      let fits = first.inside in
      record {
        inside = omega arith;
        was_free = (λ q lo hi. first.all_free q lo (omega arith));
        marked = (λ n. is_used-modify_blocks ctx.bitmap s mark true n (omega arith));
      }

  scan_free_run-IsGrant :
      (ctx : Context) (count from mark : ℕ)
      → 0 < count
      → mark ≤ count
      → IsGrant blocks_per_group ctx mark (scan_free_run ctx blocks_per_group count from mark)
  unfolding scan_free_run
  scan_free_run-IsGrant ctx count from mark pos le =
      let origin =
        min (from / 32768) (bitmap_blocks blocks_per_group count - 1) * 32768 + from % 32768 in
      let answer = find_run-IsAnswer blocks_per_group count ctx.bitmap origin pos from refl in
      elim (Option-cases (find_run blocks_per_group count ctx.bitmap from)) [
        | inl nothing ↦ rw (scan_free_run, nothing) refl
        | inr (s, e) ↦
            rw (scan_free_run, e)
              (taken_run ctx count mark origin s le
                (subst (IsAnswer blocks_per_group count ctx.bitmap origin pos) e answer))
      ]

  -- The search from the first block is complete.
  scan_free_run-IsOutcome :
      (ctx : Context) (count : ℕ)
      → 0 < count
      → IsOutcome blocks_per_group ctx count (scan_free_run ctx blocks_per_group count 0 count)
  unfolding scan_free_run
  scan_free_run-IsOutcome ctx count pos =
      let answer = find_run-IsAnswer blocks_per_group count ctx.bitmap 0 pos 0 (omega arith) in
      elim (Option-cases (find_run blocks_per_group count ctx.bitmap 0)) [
        | inl nothing ↦
            rw (scan_free_run, nothing)
              ((refl, subst (IsAnswer blocks_per_group count ctx.bitmap 0 pos) nothing answer))
        | inr (s, e) ↦
            rw (scan_free_run, e)
              (taken_run ctx count count 0 s (omega arith)
                (subst (IsAnswer blocks_per_group count ctx.bitmap 0 pos) e answer))
      ]

  or_else-IsGrant :
      (ctx : Context) (count : ℕ) (r : Context × Option ℕ) (next : Context → Context × Option ℕ)
      → IsGrant blocks_per_group ctx count r
      → IsGrant blocks_per_group ctx count (next ctx)
      → IsGrant blocks_per_group ctx count (or_else r next)
  or_else-IsGrant ctx count (after, some s) next h k = h
  or_else-IsGrant ctx count (after, none) next h k =
      subst (λ c. IsGrant blocks_per_group ctx count (next c)) (sym h) k

  or_else-IsOutcome :
      (ctx : Context) (count : ℕ) (r : Context × Option ℕ) (next : Context → Context × Option ℕ)
      → IsGrant blocks_per_group ctx count r
      → IsOutcome blocks_per_group ctx count (next ctx)
      → IsOutcome blocks_per_group ctx count (or_else r next)
  or_else-IsOutcome ctx count (after, some s) next h k = h
  or_else-IsOutcome ctx count (after, none) next h k =
      subst (λ c. IsOutcome blocks_per_group ctx count (next c)) (sym h) k

  cursor_case :
      (ctx : Context) (count mark : ℕ) (cursor : Option ℕ)
      → 0 < count
      → mark ≤ count
      → IsGrant blocks_per_group ctx mark (elim cursor [
        | some c ↦ scan_free_run ctx blocks_per_group count c mark
        | none ↦ (ctx, none)
      ])
  cursor_case ctx count mark none pos le = refl
  cursor_case ctx count mark (some c) pos le = scan_free_run-IsGrant ctx count c mark pos le

  cursor-IsGrant :
      (ctx : Context) (count mark : ℕ)
      → 0 < count
      → mark ≤ count
      → IsGrant blocks_per_group ctx mark (scan_from_cursor blocks_per_group count mark ctx)
  cursor-IsGrant ctx count mark pos le = cursor_case ctx count mark ctx.alloc_cursor pos le

  take_run-IsOutcome :
      (ctx : Context) (count : ℕ) (r : Context × Option ℕ)
      → IsOutcome blocks_per_group ctx count r
      → IsOutcome blocks_per_group ctx count (take_run count r)
  take_run-IsOutcome ctx count (after, some s) h = h
  take_run-IsOutcome ctx count (after, none) h = h

  take_meta_run-IsOutcome :
      (ctx : Context) (count : ℕ) (r : Context × Option ℕ)
      → IsOutcome blocks_per_group ctx count r
      → IsOutcome blocks_per_group ctx count (take_meta_run blocks_per_group count r)
  take_meta_run-IsOutcome ctx count (after, some s) h = h
  take_meta_run-IsOutcome ctx count (after, none) h = h

  want_run-IsGrant :
      (ctx : Context) (want mark : ℕ) (hint : Option ℕ)
      → 0 < want
      → mark ≤ want
      → IsGrant blocks_per_group ctx mark (want_run ctx blocks_per_group want mark hint)
  want_run-IsGrant ctx want mark (some hint) pos le =
      or_else-IsGrant ctx mark _ (λ c. scan_free_run c blocks_per_group want 0 mark)
        (scan_free_run-IsGrant ctx want (preferred_search_start (some hint) blocks_per_group) mark
          pos le)
        (scan_free_run-IsGrant ctx want 0 mark pos le)
  want_run-IsGrant ctx want mark none pos le =
      or_else-IsGrant ctx mark _ (λ c. scan_free_run c blocks_per_group want 0 mark)
        (cursor-IsGrant ctx want mark pos le) (scan_free_run-IsGrant ctx want 0 mark pos le)

  -- A request for `count` blocks, not 0: whether it is plain, hinted or for metadata, or a
  -- reservation that marks `count` of the `want` blocks it looks for, it is granted blocks that were
  -- free, lie in the group and are marked used, with no other block changed; or it fails, changes
  -- nothing, and no run of `count` blocks of the group is free. The group's size is a u32.
  pub allocate_extents-IsOutcome :
      (ctx : Context) (count hint want : ℕ) (near : Option ℕ)
      → 0 < count
      → count ≤ want
      → IsOutcome blocks_per_group ctx count (allocate_extents ctx blocks_per_group count)
        × (IsOutcome blocks_per_group ctx count
              (allocate_extents_hinted ctx blocks_per_group count hint)
            × (IsOutcome blocks_per_group ctx count
                  (allocate_extents_meta ctx blocks_per_group count)
                × IsOutcome blocks_per_group ctx count
                    (allocate_extents_reserved ctx blocks_per_group want count near)))
  unfolding allocate_extents allocate_extents_hinted allocate_extents_meta allocate_extents_reserved
  allocate_extents-IsOutcome ctx count hint want near pos le =
      let some_count : (count == 0) ≡ false = ==_of_ne count 0 (λ e. omega (arith, e)) in
      let in_want : ltb want count ≡ false = ground arith in
      let full = scan_free_run-IsOutcome ctx count pos in
      let from_start = (λ (c : Context). scan_free_run c blocks_per_group count 0 count) in
      let cursor = cursor-IsGrant ctx count count pos (omega arith) in
      let scan_at = (λ (from : ℕ). scan_free_run-IsGrant ctx count from count pos (omega arith)) in
      (
        rw (allocate_extents, some_count)
            (take_run-IsOutcome ctx count _ (or_else-IsOutcome ctx count _ from_start cursor full)),
        (
          rw (allocate_extents_hinted, some_count)
              (take_run-IsOutcome ctx count _ (
                or_else-IsOutcome ctx count _ from_start
                  (or_else-IsGrant ctx count _ (scan_from_cursor blocks_per_group count count)
                    (scan_at (preferred_search_start (some hint) blocks_per_group)) cursor)
                  full)),
          (
            rw (allocate_extents_meta, some_count)
                (take_meta_run-IsOutcome ctx count _ (
                  or_else-IsOutcome ctx count _ from_start
                    (or_else-IsGrant ctx count _
                      (λ c. scan_free_run c blocks_per_group count (blocks_per_group / 2) count)
                      (scan_at (blocks_per_group - (1 + ctx.meta_high_water)))
                      (scan_at (blocks_per_group / 2)))
                    full)),
            rw (allocate_extents_reserved, some_count, in_want)
                (take_run-IsOutcome ctx count _ (
                  or_else-IsOutcome ctx count _ from_start
                    (want_run-IsGrant ctx want count near (omega arith) le) full)),
          ),
        ),
      )
