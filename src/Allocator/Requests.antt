-- ===== src/Allocator/Requests.antt =====
-- Sequences of requests to the allocator.
use mathlib.Core.Path.{subst}
use lion_fs.Base.{
  ℕ, ◌+◌, ◌<◌, ◌≤◌, ◌≡◌, refl, sym, ap, ◌∙◌, inl, inr, Bool, true, false, ◌&&◌, ◌||◌, Option, none,
  some, arith, ltb, leb, ◌==◌, if◌then◌else◌, Bool-cases, Option-cases, some_injective, u32_mod,
  List, [], ◌∷◌, All, ne_of_==_false,
}
use lion_fs.Allocator.{
  is_used, Context, allocate_extents, allocate_extents_hinted, allocate_extents_meta,
  allocate_extents_reserved, free_extents,
}
use lion_fs.Allocator.Marking.{is_used-modify_blocks}
use lion_fs.Allocator.Outcomes.{IsGranted, IsGrant, IsOutcome, allocate_extents-IsOutcome}

pub data Request : Type 0 where
  plain : ℕ → Request
  hinted : ℕ → ℕ → Request
  metadata : ℕ → Request
  reserved : ℕ → ℕ → Option ℕ → Request

-- The blocks that are marked.
abbrev pub size : Request → ℕ
size (plain count) = count
size (hinted count hint) = count
size (metadata count) = count
size (reserved want mark hint) = mark

unfoldable pub serve : ℕ → Context → Request → Context × Option ℕ
unfolding allocate_extents allocate_extents_hinted allocate_extents_meta allocate_extents_reserved
serve blocks_per_group ctx (plain count) = allocate_extents ctx blocks_per_group count
serve blocks_per_group ctx (hinted count hint) =
    allocate_extents_hinted ctx blocks_per_group count hint
serve blocks_per_group ctx (metadata count) = allocate_extents_meta ctx blocks_per_group count
serve blocks_per_group ctx (reserved want mark hint) =
    allocate_extents_reserved ctx blocks_per_group want mark hint

-- The runs that are granted, each with its length.
unfoldable pub granted : ℕ → Context → List Request → List (ℕ × ℕ)
unfolding serve
granted blocks_per_group ctx [] = []
granted blocks_per_group ctx (r ∷ rs) =
    let later = granted blocks_per_group (serve blocks_per_group ctx r).0 rs in
    elim (serve blocks_per_group ctx r).1 [ none ↦ later | some s ↦ (s, size r) ∷ later ]

abbrev pub IsIn : ℕ → ℕ × ℕ → Type 0
IsIn q run = (run.0 ≤ q) × (q < run.0 + run.1)

-- No block is in two of the runs.
abbrev pub AllApart : List (ℕ × ℕ) → Type 0
AllApart [] = Unit
AllApart (run ∷ runs) =
    All (λ (other : ℕ × ℕ). (q : ℕ) → IsIn q run → IsIn q other → ⊥) runs × AllApart runs

weaken :
    (blocks_per_group : ℕ) (ctx : Context) (count : ℕ) (r : Context × Option ℕ)
    → IsOutcome blocks_per_group ctx count r
    → IsGrant blocks_per_group ctx count r
weaken blocks_per_group ctx count (after, some s) h = h
weaken blocks_per_group ctx count (after, none) h = h.0

no_step : (blocks_per_group : ℕ) (ctx : Context) → granted blocks_per_group ctx [] ≡ []
unfolding granted
no_step blocks_per_group ctx = refl

module _ (blocks_per_group : ℕ) (ctx : Context) (r : Request) (rs : List Request) where
  refused_step :
      (serve blocks_per_group ctx r).1 ≡ none
      → granted blocks_per_group ctx (r ∷ rs)
        ≡ granted blocks_per_group (serve blocks_per_group ctx r).0 rs
  unfolding granted
  refused_step e = rw (granted, e) refl

  taken_step :
      (s : ℕ)
      → (serve blocks_per_group ctx r).1 ≡ some s
      → granted blocks_per_group ctx (r ∷ rs)
        ≡ (s, size r) ∷ granted blocks_per_group (serve blocks_per_group ctx r).0 rs
  unfolding granted
  taken_step s e = rw (granted, e) refl

module _ (blocks_per_group : ℕ) (few : blocks_per_group < u32_mod) where
  serve-IsGrant :
      (ctx : Context) (r : Request)
      → IsGrant blocks_per_group ctx (size r) (serve blocks_per_group ctx r)
  unfolding serve
  serve-IsGrant ctx (plain count) = elim (Bool-cases (count == 0)) [
    | inl nothing ↦ rw (allocate_extents, nothing) refl
    | inr more ↦
        let pos : 0 < count = ground (arith, ne_of_==_false count 0 more) in
        weaken blocks_per_group ctx count _
          (allocate_extents-IsOutcome blocks_per_group few ctx count 0 count none pos
            (omega arith)).0
  ]
  serve-IsGrant ctx (hinted count hint) = elim (Bool-cases (count == 0)) [
    | inl nothing ↦ rw (allocate_extents_hinted, nothing) refl
    | inr more ↦
        let pos : 0 < count = ground (arith, ne_of_==_false count 0 more) in
        weaken blocks_per_group ctx count _
          (allocate_extents-IsOutcome blocks_per_group few ctx count hint count none pos
            (omega arith)).1.0
  ]
  serve-IsGrant ctx (metadata count) = elim (Bool-cases (count == 0)) [
    | inl nothing ↦ rw (allocate_extents_meta, nothing) refl
    | inr more ↦
        let pos : 0 < count = ground (arith, ne_of_==_false count 0 more) in
        weaken blocks_per_group ctx count _
          (allocate_extents-IsOutcome blocks_per_group few ctx count 0 count none pos
            (omega arith)).1.1.0
  ]
  serve-IsGrant ctx (reserved want mark hint) = elim (Bool-cases ((mark == 0) || ltb want mark)) [
    | inl bad ↦ rw (allocate_extents_reserved, bad) refl
    | inr good ↦
        let sized : (0 < mark) × (mark ≤ want) = ground (arith, good) in
        weaken blocks_per_group ctx mark _
          (allocate_extents-IsOutcome blocks_per_group few ctx mark 0 want hint sized.0
            sized.1).1.1.1
  ]

  -- The blocks of the run are used.
  IsUsedRun : Context → ℕ × ℕ → Type 0
  IsUsedRun ctx run = (q : ℕ) → IsIn q run → is_used ctx.bitmap q ≡ true

  true_not_false : {b : Bool} → b ≡ true → b ≡ false → ⊥
  true_not_false e f = cc

  either_true : (b : Bool) → (if b then true else true) ≡ true
  either_true true = refl
  either_true false = refl

  none_not_some : {s : ℕ} → none ≡ some s → ⊥
  none_not_some e = cc

  taken_run :
      (ctx : Context) (count : ℕ) (r : Context × Option ℕ) (s : ℕ)
      → IsGrant blocks_per_group ctx count r
      → r.1 ≡ some s
      → IsGranted blocks_per_group ctx.bitmap (r.0).bitmap s count
  taken_run ctx count (after, some t) s h e =
      subst (λ k. IsGranted blocks_per_group ctx.bitmap after.bitmap k count) (some_injective e) h
  taken_run ctx count (after, none) s h e = absurd (none_not_some e)

  kept_used :
      (ctx : Context) (count : ℕ) (run : ℕ × ℕ) (r : Context × Option ℕ)
      → IsGrant blocks_per_group ctx count r
      → IsUsedRun ctx run
      → IsUsedRun r.0 run
  unfolding IsUsedRun
  kept_used ctx count run (after, none) h used q m =
      ap (λ (c : Context). is_used c.bitmap q) h ∙ used q m
  kept_used ctx count run (after, some s) h used q m =
      h.marked q ∙ rw (used q m) (either_true (leb s q && ltb q (s + count)))

  later_apart :
      (rs : List Request) (ctx : Context) (run : ℕ × ℕ)
      → IsUsedRun ctx run
      → All
          (λ (other : ℕ × ℕ). (q : ℕ) → IsIn q run → IsIn q other → ⊥)
          (granted blocks_per_group ctx rs)
  unfolding IsUsedRun
  later_apart [] ctx run used =
      subst (All (λ (other : ℕ × ℕ). (q : ℕ) → IsIn q run → IsIn q other → ⊥))
        (sym (no_step blocks_per_group ctx)) tt
  later_apart (r ∷ rs) ctx run used =
      let grant = serve-IsGrant ctx r in
      let rest =
        later_apart rs (serve blocks_per_group ctx r).0 run
          (kept_used ctx (size r) run _ grant used) in
      elim (Option-cases (serve blocks_per_group ctx r).1) [
        | inl nothing ↦
            subst (All (λ (other : ℕ × ℕ). (q : ℕ) → IsIn q run → IsIn q other → ⊥))
              (sym (refused_step blocks_per_group ctx r rs nothing)) rest
        | inr (s, e) ↦
            let g = taken_run ctx (size r) _ s grant e in
            subst (All (λ (other : ℕ × ℕ). (q : ℕ) → IsIn q run → IsIn q other → ⊥))
              (sym (taken_step blocks_per_group ctx r rs s e))
              (((λ q m m'. true_not_false (used q m) (g.was_free q m'.0 m'.1)), rest))
      ]

  in_run : (s count q : ℕ) → s ≤ q → q < s + count → (leb s q && ltb q (s + count)) ≡ true
  in_run s count q lo hi = ground arith

  run_used :
      (ctx after : Context) (s count : ℕ)
      → IsGranted blocks_per_group ctx.bitmap after.bitmap s count
      → IsUsedRun after (s, count)
  unfolding IsUsedRun
  run_used ctx after s count g q m = g.marked q ∙ rw (in_run s count q m.0 m.1) refl

  -- Whatever is requested one after the other, of whatever kind and with whatever hints, no block is
  -- granted twice. The group's size is a u32.
  pub granted-AllApart :
      (rs : List Request) (ctx : Context) → AllApart (granted blocks_per_group ctx rs)
  granted-AllApart [] ctx = subst AllApart (sym (no_step blocks_per_group ctx)) tt
  granted-AllApart (r ∷ rs) ctx =
      let grant = serve-IsGrant ctx r in
      let rest = granted-AllApart rs (serve blocks_per_group ctx r).0 in
      elim (Option-cases (serve blocks_per_group ctx r).1) [
        | inl nothing ↦ subst AllApart (sym (refused_step blocks_per_group ctx r rs nothing)) rest
        | inr (s, e) ↦
            let g = taken_run ctx (size r) _ s grant e in
            subst AllApart (sym (taken_step blocks_per_group ctx r rs s e)) (
              (
                later_apart rs (serve blocks_per_group ctx r).0 (s, size r)
                    (run_used ctx _ s (size r) g),
                rest,
              ))
      ]

  -- Freeing a run that was granted gives back the bitmap from before the request.
  pub free_extents-serve :
      (ctx : Context) (r : Request) (s : ℕ)
      → (serve blocks_per_group ctx r).1 ≡ some s
      → (n : ℕ)
      → is_used (free_extents (serve blocks_per_group ctx r).0 s (size r)).bitmap n
        ≡ is_used ctx.bitmap n
  unfolding free_extents
  free_extents-serve ctx r s e n =
      let g = taken_run ctx (size r) _ s (serve-IsGrant ctx r) e in
      let fits = g.inside in
      let cleared =
        is_used-modify_blocks (serve blocks_per_group ctx r).0.bitmap s (size r) false n
          (omega arith) in
      elim (Bool-cases (leb s n && ltb n (s + size r))) [
        | inl here ↦
            let within : (s ≤ n) × (n < s + size r) = ground (arith, here) in
            cleared ∙ rw (here) (sym (g.was_free n within.0 within.1))
        | inr away ↦ cleared ∙ rw (away) (g.marked n ∙ rw (away) refl)
      ]
