-- ===== src/Clocks/Vector.antt =====
-- core.rs: the vector clock. A map from nodes to counters is a list of pairs without a repeated
-- node.
use lion_fs.Base.{
  ℕ, max, Bool, true, false, ◌&&◌, not, Option, none, some, List, [], ◌∷◌, leb, ◌==◌, if◌then◌else◌,
  length, add_u64,
}

pub record VectorClock : Type 0 where
  pub counters : List (ℕ × ℕ)

unfoldable pub new : VectorClock
new = record { counters = [] }

unfoldable pub get : ℕ → List (ℕ × ℕ) → Option ℕ
get n [] = none
get n ((m, c) ∷ cs) = if m == n then some c else get n cs

-- A change through `entry(node).or_insert(0)`.
unfoldable pub update : ℕ → (ℕ → ℕ) → List (ℕ × ℕ) → List (ℕ × ℕ)
update n f [] = (n, f 0) ∷ []
update n f ((m, c) ∷ cs) = if m == n then (m, f c) ∷ cs else (m, c) ∷ update n f cs

unfoldable pub increment : VectorClock → ℕ → VectorClock
unfolding update add_u64
increment v n = record { counters = update n (λ c. add_u64 c 1) v.counters }

unfoldable pub merge_all : List (ℕ × ℕ) → List (ℕ × ℕ) → List (ℕ × ℕ)
unfolding update
merge_all [] cs = cs
merge_all ((n, c) ∷ others) cs = merge_all others (update n (λ e. max e c) cs)

unfoldable pub merge : VectorClock → VectorClock → VectorClock
unfolding merge_all
merge v other = record { counters = merge_all other.counters v.counters }

unfoldable pub covers : Option ℕ → ℕ → Bool
covers none c = c == 0
covers (some o) c = leb c o

unfoldable pub all_covered : List (ℕ × ℕ) → List (ℕ × ℕ) → Bool
unfolding covers get
all_covered [] others = true
all_covered ((n, c) ∷ cs) others = covers (get n others) c && all_covered cs others

unfoldable pub happens_before_or_equal : VectorClock → VectorClock → Bool
unfolding all_covered
happens_before_or_equal v other = all_covered v.counters other.counters

unfoldable pub concurrent_with : VectorClock → VectorClock → Bool
unfolding happens_before_or_equal
concurrent_with v other =
    not (happens_before_or_equal v other) && not (happens_before_or_equal other v)

unfoldable pub width : VectorClock → ℕ
width v = length v.counters

unfoldable pub sum_counters : List (ℕ × ℕ) → ℕ
unfolding add_u64
sum_counters [] = 0
sum_counters ((n, c) ∷ cs) = add_u64 c (sum_counters cs)

unfoldable pub total : VectorClock → ℕ
unfolding sum_counters
total v = sum_counters v.counters

pub data Ordering : Type 0 where
  less equal greater : Ordering

unfoldable pub ordering_of : Bool → Bool → Option Ordering
ordering_of true true = some equal
ordering_of true false = some less
ordering_of false true = some greater
ordering_of false false = none

unfoldable pub partial_cmp : VectorClock → VectorClock → Option Ordering
unfolding ordering_of happens_before_or_equal
partial_cmp v other =
    ordering_of (happens_before_or_equal v other) (happens_before_or_equal other v)
