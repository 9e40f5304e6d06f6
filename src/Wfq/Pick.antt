-- ===== src/Wfq/Pick.antt =====
-- Which queue is picked.
use lion_fs.Base.{
  ℕ, zero, suc, ◌+◌, ◌≤◌, ◌<◌, ◌≡◌, refl, inl, inr, ◌⊎◌, Bool, true, false, Option, none, some,
  List, [], ◌∷◌, arith, tests, ltb, if◌then◌else◌, get_elem?, u64_max, lt_of_ltb, ap, ◌∙◌,
  some_injective,
}
use lion_fs.Wfq.{WfqScheduler, best_from, pick, account}

-- `q` holds the earliest finish `f`, and every queue before it a later one.
abbrev pub IsEarliest : List (Option ℕ) → ℕ → ℕ → Type 0
IsEarliest fs q f =
    (get_elem? fs q ≡ some (some f))
    × ((j g : ℕ) → get_elem? fs j ≡ some (some g) → f ≤ g)
    × ((j g : ℕ) → j < q → get_elem? fs j ≡ some (some g) → f < g)

abbrev NoneBelow : ℕ → List (Option ℕ) → Type 0
NoneBelow v fs = (j g : ℕ) → get_elem? fs j ≡ some (some g) → v ≤ g

NoneBelow-cons :
    (v : ℕ) (h : Option ℕ) (fs : List (Option ℕ))
    → ((g : ℕ) → h ≡ some g → v ≤ g)
    → NoneBelow v fs
    → NoneBelow v (h ∷ fs)
NoneBelow-cons v h fs first rest zero g e = first g (cc)
NoneBelow-cons v h fs first rest (suc j) g e = rest j g e

abbrev LaterBefore : ℕ → List (Option ℕ) → ℕ → Type 0
LaterBefore f fs q = (j g : ℕ) → j < q → get_elem? fs j ≡ some (some g) → f < g

LaterBefore-cons :
    (f : ℕ) (h : Option ℕ) (fs : List (Option ℕ)) (q : ℕ)
    → ((g : ℕ) → h ≡ some g → f < g)
    → LaterBefore f fs q
    → LaterBefore f (h ∷ fs) (suc q)
LaterBefore-cons f h fs q first before zero g lt e = first g (cc)
LaterBefore-cons f h fs q first before (suc j) g lt e = before j g (omega arith) e

IsEarliest-cons :
    (h : Option ℕ) (fs : List (Option ℕ)) (q f : ℕ)
    → ((g : ℕ) → h ≡ some g → f < g)
    → IsEarliest fs q f
    → IsEarliest (h ∷ fs) (suc q) f
IsEarliest-cons h fs q f first (at, least, before) = (
  at,
  NoneBelow-cons f h fs (λ g e. omega (arith, first g e)) least,
  LaterBefore-cons f h fs q first before,
)

IsEarliest-head : (f : ℕ) (fs : List (Option ℕ)) → NoneBelow f fs → IsEarliest (some f ∷ fs) 0 f
IsEarliest-head f fs rest = (
  refl,
  NoneBelow-cons f (some f) fs (λ g e. omega (arith, some_injective e)) rest,
  λ j g lt e. absurd (omega arith),
)

-- What `best_from base fs (b, v)` is: the start value, or the first earliest finish below `v`.
abbrev IsBest : ℕ → List (Option ℕ) → Option ℕ → ℕ → Option ℕ × ℕ → Type 0
IsBest base fs b v r =
    ((r ≡ (b, v)) × NoneBelow v fs)
    ⊎ (q : ℕ) × (r.0 ≡ some (base + q)) × (r.1 < v) × IsEarliest fs q r.1

-- A head that does not beat `v` changes nothing but the positions.
IsBest-skip :
    (base : ℕ) (h : Option ℕ) (fs : List (Option ℕ)) (b : Option ℕ) (v : ℕ) (r : Option ℕ × ℕ)
    → ((g : ℕ) → h ≡ some g → v ≤ g)
    → IsBest (suc base) fs b v r
    → IsBest base (h ∷ fs) b v r
IsBest-skip base h fs b v r first (inl (same, least)) =
    inl (same, NoneBelow-cons v h fs first least)
IsBest-skip base h fs b v r first (inr (q, is, lt, e)) = inr (
  suc q,
  is ∙ ap some (omega arith),
  lt,
  IsEarliest-cons h fs q r.1 (λ g i. omega (arith, first g i)) e,
)

IsBest-take :
    (base f : ℕ) (fs : List (Option ℕ)) (b : Option ℕ) (v : ℕ) (r : Option ℕ × ℕ)
    → f < v
    → IsBest (suc base) fs (some base) f r
    → IsBest base (some f ∷ fs) b v r
IsBest-take base f fs b v r lt (inl (same, least)) =
    rw (same) (inr (0, ap some (omega arith), lt, IsEarliest-head f fs least))
IsBest-take base f fs b v r lt (inr (q, is, less, e)) = inr (
  suc q,
  is ∙ ap some (omega arith),
  omega arith,
  IsEarliest-cons (some f) fs q r.1 (λ g i. omega (arith, some_injective i)) e,
)

IsBest-if :
    (base f : ℕ) (fs : List (Option ℕ)) (b : Option ℕ) (v : ℕ) (c : Bool)
    → ltb f v ≡ c
    → IsBest (suc base) fs (some base) f (best_from (suc base) fs (some base, f))
    → IsBest (suc base) fs b v (best_from (suc base) fs (b, v))
    → IsBest base (some f ∷ fs) b v (best_from (suc base) fs (if c then (some base, f) else (b, v)))
IsBest-if base f fs b v true e taken skipped = IsBest-take base f fs b v _ (lt_of_ltb f v e) taken
IsBest-if base f fs b v false e taken skipped =
    IsBest-skip base (some f) fs b v _ (λ g i. omega (tests, e, some_injective i)) skipped

best_from-IsBest :
    (base : ℕ) (fs : List (Option ℕ)) (b : Option ℕ) (v : ℕ)
    → IsBest base fs b v (best_from base fs (b, v))
best_from-IsBest base [] b v = inl (refl, λ j g h. absurd (cc))
best_from-IsBest base (none ∷ fs) b v =
    IsBest-skip base none fs b v _ (λ g e. absurd (cc)) (best_from-IsBest (suc base) fs b v)
best_from-IsBest base (some f ∷ fs) b v =
    IsBest-if base f fs b v (ltb f v) refl (best_from-IsBest (suc base) fs (some base) f)
      (best_from-IsBest (suc base) fs b v)

-- What a pick does: nothing where no finish is below 2^64 - 1; otherwise it serves the queue with
-- the earliest finish, the lowest index among equal ones.
abbrev pub IsPick : WfqScheduler → Option ℕ × WfqScheduler → Type 0
IsPick s (none, t) = (t ≡ s) × NoneBelow u64_max s.finish
IsPick s (some q, t) = (f : ℕ) × IsEarliest s.finish q f × (f < u64_max) × (t ≡ account s q f)

zero_add : (q : ℕ) → 0 + q ≡ q
zero_add q = omega arith

earliest_served :
    (s : WfqScheduler) (r : Option ℕ × ℕ)
    → IsBest 0 s.finish none u64_max r
    → IsPick s (elim (r.0) [ none ↦ (none, s) | some q ↦ (some q, account s q r.1) ])
earliest_served s r (inl (same, least)) = rw (same) ((refl, least))
earliest_served s r (inr (q, is, lt, e)) = rw (is ∙ ap some (zero_add q)) ((r.1, e, lt, refl))

-- A pick returns none, and changes nothing, exactly if no pending finish is below 2^64 - 1.
-- Otherwise it serves a pending queue of the earliest finish, of several the one with the lowest
-- index: the head is consumed, virtual time advances to the finish, the service is accounted.
pub pick-IsPick : (s : WfqScheduler) → IsPick s (pick s)
unfolding pick
pick-IsPick s =
    earliest_served s (best_from 0 s.finish (none, u64_max))
      (best_from-IsBest 0 s.finish none u64_max)
