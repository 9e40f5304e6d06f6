-- ===== src/Clocks/Causality.antt =====
-- The causal order of vector clocks against the counters, and the merge as its join.
use lion_fs.Base.{
  ℕ, ◌+◌, ◌≤◌, ◌<◌, ◌≡◌, ◌≢◌, ◌↔◌, refl, sym, ap, ◌∙◌, max, Bool, true, false, ◌&&◌, Option, none,
  some, List, [], ◌∷◌, arith, leb, ◌==◌, add_u64, add_u64-exact, u64_mod, inl, inr, Bool-cases,
  ne_of_==_false, le_of_leb, eq_of_==,
}
use lion_fs.Clocks.Vector.{
  VectorClock, get, update, increment, merge_all, merge, covers, all_covered,
  happens_before_or_equal, partial_cmp, ordering_of, less,
}

abbrev pub or_zero : Option ℕ → ℕ
or_zero none = 0
or_zero (some c) = c

-- The events of a node that the clock has seen.
unfoldable pub count : ℕ → List (ℕ × ℕ) → ℕ
unfolding get
count n cs = or_zero (get n cs)

-- No node twice.
abbrev pub IsMap : List (ℕ × ℕ) → Type 0
IsMap [] = Unit
IsMap ((n, c) ∷ cs) = (get n cs ≡ none) × IsMap cs

count-update_same :
    (n : ℕ) (f : ℕ → ℕ) (cs : List (ℕ × ℕ)) → count n (update n f cs) ≡ f (count n cs)
unfolding get update count
count-update_same n f [] = ground arith
count-update_same n f ((m, c) ∷ cs) = ground (arith, count-update_same n f cs)

count-update_other :
    (m n : ℕ) (f : ℕ → ℕ) (cs : List (ℕ × ℕ)) → m ≢ n → count m (update n f cs) ≡ count m cs
unfolding get update count
count-update_other m n f [] ne = ground arith
count-update_other m n f ((k, c) ∷ cs) ne = ground (arith, count-update_other m n f cs ne)

get-update_other :
    (m n : ℕ) (f : ℕ → ℕ) (cs : List (ℕ × ℕ))
    → m ≢ n
    → get m cs ≡ none
    → get m (update n f cs) ≡ none
unfolding get update
get-update_other m n f [] ne h = ground arith
get-update_other m n f ((k, c) ∷ cs) ne h = ground (arith, get-update_other m n f cs ne)

update-IsMap : (n : ℕ) (f : ℕ → ℕ) (cs : List (ℕ × ℕ)) → IsMap cs → IsMap (update n f cs)
unfolding update get
update-IsMap n f [] h = (refl, tt)
update-IsMap n f ((m, c) ∷ cs) h = elim (Bool-cases (m == n)) [
  | inl same ↦ rw (same) h
  | inr other ↦
      rw (other)
        ((get-update_other m n f cs (ne_of_==_false m n other) h.0, update-IsMap n f cs h.1))
]

merge_all-IsMap : (os cs : List (ℕ × ℕ)) → IsMap cs → IsMap (merge_all os cs)
unfolding merge_all
merge_all-IsMap [] cs h = h
merge_all-IsMap ((n, c) ∷ os) cs h = merge_all-IsMap os _ (update-IsMap n (λ e. max e c) cs h)

covers-leb : (o : Option ℕ) (c : ℕ) → covers o c ≡ leb c (or_zero o)
unfolding covers
covers-leb none c = ground arith
covers-leb (some x) c = refl

count-same : (m n c : ℕ) (os : List (ℕ × ℕ)) → m ≡ n → count n ((m, c) ∷ os) ≡ c
unfolding count get
count-same m n c os e = ground arith

count-other : (m n c : ℕ) (os : List (ℕ × ℕ)) → m ≢ n → count n ((m, c) ∷ os) ≡ count n os
unfolding count get
count-other m n c os e = ground arith

count-absent : (m n : ℕ) (os : List (ℕ × ℕ)) → m ≡ n → get m os ≡ none → count n os ≡ 0
unfolding count
count-absent m n os e h = rw (← e, h) refl

count-update_at :
    (m n : ℕ) (f : ℕ → ℕ) (cs : List (ℕ × ℕ)) → m ≡ n → count n (update m f cs) ≡ f (count n cs)
count-update_at m n f cs e = rw (e) (count-update_same n f cs)

leb_of_le : (m n : ℕ) → m ≤ n → leb m n ≡ true
leb_of_le m n h = ground arith

and_true : (a b : Bool) → a ≡ true → b ≡ true → (a && b) ≡ true
and_true a b p q = ground arith

of_and : (a b : Bool) → (a && b) ≡ true → (a ≡ true) × (b ≡ true)
of_and a b h = ground arith

count-merge_all :
    (n : ℕ) (os cs : List (ℕ × ℕ))
    → IsMap os
    → count n (merge_all os cs) ≡ max (count n cs) (count n os)
unfolding merge_all count
count-merge_all n [] cs h = omega arith
count-merge_all n ((m, c) ∷ os) cs h =
    let merged = count-merge_all n os (update m (λ e. max e c) cs) h.1 in
    elim (Bool-cases (m == n)) [
      | inl same ↦
          let e = eq_of_== m n same in
          omega (
            arith,
            merged,
            count-same m n c os e,
            count-absent m n os e h.0,
            count-update_at m n (λ e. max e c) cs e,
          )
      | inr other ↦
          let ne = ne_of_==_false m n other in
          omega (
            arith,
            merged,
            count-other m n c os ne,
            count-update_other n m (λ e. max e c) cs (λ e. ne (sym e)),
          )
    ]

-- The counters of `v` are at most those of `w`.
abbrev pub IsBelow : VectorClock → VectorClock → Type 0
IsBelow v w = (n : ℕ) → count n v.counters ≤ count n w.counters

covered_count :
    (m n c : ℕ) (os : List (ℕ × ℕ)) → m ≡ n → covers (get m os) c ≡ true → c ≤ count n os
unfolding count
covered_count m n c os e h =
    rw (← e) (le_of_leb c (or_zero (get m os)) (sym (covers-leb (get m os) c) ∙ h))

all_covered-below :
    (cs os : List (ℕ × ℕ)) → all_covered cs os ≡ true → (n : ℕ) → count n cs ≤ count n os
unfolding all_covered count get
all_covered-below [] os h n = omega arith
all_covered-below ((m, c) ∷ cs) os h n =
    let (head, rest) = of_and (covers (get m os) c) (all_covered cs os) h in
    elim (Bool-cases (m == n)) [
      | inl same ↦
          let e = eq_of_== m n same in
          omega (arith, count-same m n c cs e, covered_count m n c os e head)
      | inr other ↦
          omega
            (arith, count-other m n c cs (ne_of_==_false m n other), all_covered-below cs os rest n)
    ]

below-all_covered :
    (cs os : List (ℕ × ℕ))
    → IsMap cs
    → ((n : ℕ) → count n cs ≤ count n os)
    → all_covered cs os ≡ true
unfolding all_covered count get
below-all_covered [] os d h = refl
below-all_covered ((m, c) ∷ cs) os d h =
    and_true (covers (get m os) c) (all_covered cs os)
      (covers-leb (get m os) c
        ∙ leb_of_le c (count m os) (omega (arith, h m, count-same m m c cs refl)))
      (below-all_covered cs os d.1 (λ n. elim (Bool-cases (m == n)) [
        | inl same ↦ omega (arith, count-absent m n cs (eq_of_== m n same) d.0)
        | inr other ↦ omega (arith, h n, count-other m n c cs (ne_of_==_false m n other))
      ]))

-- For clocks that name no node twice: one happens before or equals the other exactly if each of
-- its counters is at most the other's.
pub happens_before_or_equal_iff :
    (v w : VectorClock) → IsMap v.counters → (happens_before_or_equal v w ≡ true) ↔ IsBelow v w
unfolding happens_before_or_equal
happens_before_or_equal_iff v w h =
    (all_covered-below v.counters w.counters, below-all_covered v.counters w.counters h)

bool_of_iff : (a b : Bool) → (a ≡ true → b ≡ true) → (b ≡ true → a ≡ true) → a ≡ b
bool_of_iff true b f g = sym (f refl)
bool_of_iff false true f g = g refl
bool_of_iff false false f g = refl

-- For clocks that name no node twice the merge is the join of the causal order: the merge of two
-- clocks happens before or equals a third clock exactly if both do.
pub happens_before_or_equal-merge :
    (v w u : VectorClock)
    → IsMap v.counters
    → IsMap w.counters
    → happens_before_or_equal (merge v w) u
      ≡ (happens_before_or_equal v u && happens_before_or_equal w u)
unfolding merge
happens_before_or_equal-merge v w u hv hw =
    let joined = λ (n : ℕ). count-merge_all n w.counters v.counters hw in
    let iff_v = happens_before_or_equal_iff v u hv in
    let iff_w = happens_before_or_equal_iff w u hw in
    let iff =
      happens_before_or_equal_iff (merge v w) u (merge_all-IsMap w.counters v.counters hv) in
    bool_of_iff _ _
      (λ b.
        and_true _ _ (iff_v.1 (λ n. omega (arith, joined n, iff.0 b n)))
          (iff_w.1 (λ n. omega (arith, joined n, iff.0 b n))))
      (λ b.
        let both = of_and (happens_before_or_equal v u) (happens_before_or_equal w u) b in
        iff.1 (λ n. omega (arith, joined n, iff_v.0 both.0 n, iff_w.0 both.1 n)))

-- Merging and counting an event keep a clock that names no node twice so.
pub merge_and_increment-IsMap :
    (v w : VectorClock) (n : ℕ)
    → IsMap v.counters
    → IsMap (merge v w).counters × IsMap (increment v n).counters
unfolding merge increment
merge_and_increment-IsMap v w n h =
    (merge_all-IsMap w.counters v.counters h, update-IsMap n (λ c. add_u64 c 1) v.counters h)

increment_above :
    (v : VectorClock) (n : ℕ) → count n v.counters + 1 < u64_mod → IsBelow v (increment v n)
unfolding increment
increment_above v n lt m = elim (Bool-cases (n == m)) [
  | inl same ↦ omega (
    arith,
    count-update_same n (λ c. add_u64 c 1) v.counters,
    add_u64-exact (count n v.counters) 1 lt,
    ap (λ k. count k v.counters) (eq_of_== n m same),
    ap (λ k. count k (update n (λ c. add_u64 c 1) v.counters)) (eq_of_== n m same),
  )
  | inr other ↦ omega (
    arith,
    count-update_other m n (λ c. add_u64 c 1) v.counters (λ e. ne_of_==_false n m other (sym e)),
  )
]

increment_not_below :
    (v : VectorClock) (n : ℕ)
    → count n v.counters + 1 < u64_mod
    → IsMap v.counters
    → happens_before_or_equal (increment v n) v ≡ false
unfolding increment
increment_not_below v n lt h = elim (Bool-cases (happens_before_or_equal (increment v n) v)) [
  | inl bad ↦
      let below =
        (happens_before_or_equal_iff (increment v n) v
            (update-IsMap n (λ c. add_u64 c 1) v.counters h)).0
          bad n in
      absurd (
        omega (
          arith,
          below,
          count-update_same n (λ c. add_u64 c 1) v.counters,
          add_u64-exact (count n v.counters) 1 lt,
        ))
  | inr good ↦ good
]

-- An event of a node makes a clock that names no node twice strictly later, if the node's counter
-- does not overflow.
pub partial_cmp-increment :
    (v : VectorClock) (n : ℕ)
    → IsMap v.counters
    → count n v.counters + 1 < u64_mod
    → partial_cmp v (increment v n) ≡ some less
unfolding partial_cmp ordering_of
partial_cmp-increment v n h lt =
    rw
      (
        partial_cmp,
        (happens_before_or_equal_iff v (increment v n) h).1 (increment_above v n lt),
        increment_not_below v n lt h,
      )
      refl
