-- ===== src/Wfq/Invariant.antt =====
-- Virtual time against the pending finishes, and a starving queue.
use lion_fs.Base.{
  ℕ, zero, suc, ◌+◌, ◌/◌, ◌≤◌, ◌<◌, ◌≡◌, refl, inl, inr, ◌⊎◌, true, false, Option, none, some, List,
  [], ◌∷◌, arith, ltb, get_elem?, set, u64_max, u64_mod, add_u64, add_u64-exact, max, ap,
  some_injective, All, length,
}
use native.Mathlib.Nat.{div-eq_of_lt}
use lion_fs.Wfq.{WfqScheduler, set_pending, pick, account, best_from}
use lion_fs.Wfq.Pick.{IsPick, pick-IsPick}

-- No pending head finishes before virtual time.
abbrev pub IsAhead : WfqScheduler → Type 0
IsAhead s = (j g : ℕ) → get_elem? s.finish j ≡ some (some g) → s.virtual_time ≤ g

get_elem?-set :
    (fs : List (Option ℕ)) (q : ℕ) (h : Option ℕ) (j : ℕ) (k : Option ℕ)
    → get_elem? (set fs q h) j ≡ some k
    → (k ≡ h) ⊎ (get_elem? fs j ≡ some k)
get_elem?-set [] q h j k e = inr e
get_elem?-set (x ∷ fs) zero h zero k e = inl (cc)
get_elem?-set (x ∷ fs) zero h (suc j) k e = inr e
get_elem?-set (x ∷ fs) (suc q) h zero k e = inr e
get_elem?-set (x ∷ fs) (suc q) h (suc j) k e = get_elem?-set fs q h j k e

-- A pick takes `s` to `r`: heads are only consumed, virtual time does not go back, no head is left
-- behind it.
abbrev pub Keeps : WfqScheduler → Option ℕ × WfqScheduler → Type 0
Keeps s r =
    IsAhead r.1
    × (s.virtual_time ≤ r.1.virtual_time)
    × ((j g : ℕ) → get_elem? r.1.finish j ≡ some (some g) → get_elem? s.finish j ≡ some (some g))
    × ((q f : ℕ) → r.0 ≡ some q → get_elem? s.finish q ≡ some (some f) → r.1.virtual_time ≡ f)

unconsumed :
    (fs : List (Option ℕ)) (q j g : ℕ)
    → get_elem? (set fs q none) j ≡ some (some g)
    → get_elem? fs j ≡ some (some g)
unconsumed fs q j g e = elim (get_elem?-set fs q none j (some g) e) [
  | inl bad ↦ absurd (cc)
  | inr old ↦ old
]

head_unique :
    (fs : List (Option ℕ)) (q p f g : ℕ)
    → some q ≡ some p
    → get_elem? fs q ≡ some (some f)
    → get_elem? fs p ≡ some (some g)
    → g ≡ f
head_unique fs q p f g e at i = cc

IsPick-Keeps : (s : WfqScheduler) (r : Option ℕ × WfqScheduler) → IsAhead s → IsPick s r → Keeps s r
unfolding account
IsPick-Keeps s (none, t) h (same, least) =
    rw (same) ((h, omega arith, λ j g e. e, λ q f e. absurd (cc)))
IsPick-Keeps s (some q, t) h (f, (at, least, before), lt, is) = rw (is) (
    (
      λ j g e. omega (arith, h q f at, least j g (unconsumed s.finish q j g e)),
      omega arith,
      unconsumed s.finish q,
      λ p g e i. omega (arith, h q f at, head_unique s.finish q p f g e at i),
    ))

-- Where no pending head finishes before virtual time, a pick keeps it so, moves virtual time
-- forward to exactly the finish of the head it serves, and takes no other head away or changes it.
pub pick-Keeps : (s : WfqScheduler) → IsAhead s → Keeps s (pick s)
pick-Keeps s h = IsPick-Keeps s (pick s) h (pick-IsPick s)

-- The queue exists, and no pending head finishes before virtual time.
abbrev pub IsAheadResult : Option WfqScheduler → Type 0
IsAheadResult none = ⊥
IsAheadResult (some t) = IsAhead t

declared_ahead :
    (s : WfqScheduler) (q f : ℕ)
    → IsAhead s
    → s.virtual_time ≤ f
    → (j g : ℕ) → get_elem? (set s.finish q (some f)) j ≡ some (some g)
    → s.virtual_time ≤ g
declared_ahead s q f h le j g e = elim (get_elem?-set s.finish q (some f) j (some g) e) [
  | inl new ↦ omega (arith, some_injective new)
  | inr old ↦ h j g old
]

-- Declaring the head of a queue that exists does not panic, and keeps the invariant that no head
-- finishes before virtual time, if the finish time does not overflow.
pub set_pending-IsAheadResult :
    (s : WfqScheduler) (q cost w : ℕ) (head : Option ℕ)
    → IsAhead s
    → get_elem? s.finish q ≡ some head
    → get_elem? s.weights q ≡ some w
    → s.virtual_time + max cost 1 / w < u64_mod
    → IsAheadResult (set_pending s q cost)
unfolding set_pending
set_pending-IsAheadResult s q cost w (some f) h e ew lt = rw (set_pending, e) h
set_pending-IsAheadResult s q cost w none h e ew lt =
    rw (set_pending, e, ew, add_u64-exact s.virtual_time (max cost 1 / w) lt)
      (declared_ahead s q (s.virtual_time + max cost 1 / w) h (omega arith))

-- The rounds of a client that always has a request for queue 0: each declares the next cost of the
-- list and picks.
unfoldable pub serve_first : List ℕ → WfqScheduler → List (Option ℕ)
unfolding set_pending pick
serve_first [] s = []
serve_first (cost ∷ costs) s = elim (set_pending s 0 cost) [
  | none ↦ []
  | some t ↦ let (q, u) = pick t in q ∷ serve_first costs u
]

abbrev pub times : ℕ → List (Option ℕ)
times zero = []
times (suc n) = some 0 ∷ times n

finish_now : (t cost w : ℕ) → max cost 1 < w → t < u64_max → add_u64 t (max cost 1 / w) ≡ t
unfolding add_u64
finish_now t cost w lt bound = rw (div-eq_of_lt lt) (omega arith)

below_holds : (m n : ℕ) → m < n → ltb m n ≡ true
below_holds m n h = ground arith

below_fails : (m n : ℕ) → n ≤ m → ltb m n ≡ false
below_fails m n h = ground arith

abbrev pub two_queues : ℕ → ℕ → Option ℕ → ℕ → ℕ → List ℕ → List ℕ → List ℕ → WfqScheduler
two_queues w v head g t cs ss ks = record {
  weights = w ∷ v ∷ [];
  finish = head ∷ some g ∷ [];
  pending_cost = cs;
  virtual_time = t;
  served = ss;
  served_cost = ks;
}

best_of_two :
    (f g : ℕ)
    → f ≤ g
    → f < u64_max
    → best_from 0 (some f ∷ some g ∷ []) (none, u64_max) ≡ (some 0, f)
best_of_two f g le bound = ground arith

earlier_picked :
    (w v f g t : ℕ) (cs ss ks : List ℕ)
    → f ≤ g
    → f < u64_max
    → pick (two_queues w v (some f) g t cs ss ks)
      ≡ (some 0, account (two_queues w v (some f) g t cs ss ks) 0 f)
unfolding pick
earlier_picked w v f g t cs ss ks le bound =
    rw (pick, best_of_two f g le bound)
      (ap (λ (p : Option ℕ × ℕ). (some 0, account (two_queues w v (some f) g t cs ss ks) 0 p.1))
        (best_of_two f g le bound))

-- Two queues of weights w and v, queue 0 empty, the head of queue 1 pending with a finish time g that
-- is not before virtual time and is below 2^64 - 1. For any list of costs that are each, and 1 at
-- least, below w: rounds that each declare a request of the next cost for queue 0 and pick always
-- pick queue 0, and so never queue 1, however many they are (cost / w is 0).
pub cheap_requests_starve :
    (costs : List ℕ) (w v g t : ℕ) (cs ss ks : List ℕ)
    → All (λ cost. max cost 1 < w) costs
    → t ≤ g
    → g < u64_max
    → serve_first costs (two_queues w v none g t cs ss ks) ≡ times (length costs)
unfolding serve_first set_pending account
cheap_requests_starve [] w v g t cs ss ks lt le bound = refl
cheap_requests_starve (cost ∷ costs) w v g t cs ss ks lt le bound =
    rw
      (
        finish_now t cost w lt.0 (omega arith),
        earlier_picked w v t g t (set cs 0 (max cost 1)) ss ks le (omega arith),
      )
      (ap (λ l. some 0 ∷ l)
        (cheap_requests_starve costs w v g (max t t) _ _ _ lt.1 (omega arith) bound))
