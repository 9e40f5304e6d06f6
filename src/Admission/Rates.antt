-- ===== src/Admission/Rates.antt =====
-- What a token bucket admits over time, and the polls that starve it.
use lion_fs.Base.{
  All, ℕ, ◌+◌, ◌-◌, ◌*◌, ◌/◌, ◌%◌, ◌≤◌, ◌<◌, ◌≡◌, refl, sym, ap, ◌∙◌, inl, inr, Bool-cases, tests,
  min, Bool, true, false, List, [], ◌∷◌, arith, leb, if◌then◌else◌, sat_add, u64_max,
}
use native.Mathlib.Nat.{mul-add, div-eq_of_lt, mod-eq_of_lt}
use lion_fs.Admission.{take_tokens, TokenBucket, refill, gain, try_charge}

-- A request: its time, its bytes, its operations.
abbrev pub Request : Type 0
Request = ℕ × ℕ × ℕ

-- The bytes admitted.
abbrev taken : ℕ → Bool → ℕ
taken bytes true = bytes
taken bytes false = 0

-- The bucket after the requests, and the bytes admitted.
unfoldable pub serve : TokenBucket → List Request → TokenBucket × ℕ
unfolding try_charge
serve b [] = (b, 0)
serve b ((now, bytes, ops) ∷ rs) =
    let (c, admitted) = try_charge b now bytes ops in
    let (d, total) = serve c rs in (d, taken bytes admitted + total)

mul_split :
    (rate elapsed q f : ℕ)
    → elapsed ≡ q * 1000000000 + f
    → rate * elapsed ≡ rate * q * 1000000000 + rate * f
mul_split rate elapsed q f e = rw (e) (grind arith)

sum_bound : (x y w z m : ℕ) → x ≤ w → y ≤ z → (if leb (x + y) m then x + y else m) ≤ w + z
sum_bound x y w z m h k = ground arith

gain_bound : (rate elapsed : ℕ) → gain rate elapsed * 1000000000 ≤ rate * elapsed
unfolding gain
gain_bound rate elapsed =
    let q = elapsed / 1000000000 in
    let f = elapsed % 1000000000 in
    let summed =
      sum_bound (min (rate * q) u64_max) (min (rate * f) u64_max / 1000000000) (rate * q)
        (min (rate * f) u64_max / 1000000000) u64_max (omega arith) (omega arith) in
    let split = mul_split rate elapsed q f (omega arith) in omega (arith, summed, split)

mul_back : (r now last : ℕ) → last ≤ now → r * (now - last) + r * last ≡ r * now
mul_back r now last h = sym (mul-add r (now - last) last) ∙ ap (λ t. r * t) (omega arith)

topped_up : (tokens gained burst : ℕ) → min (sat_add tokens gained) burst ≤ tokens + gained
topped_up tokens gained burst = ground arith

refill_bound :
    (b : TokenBucket) (now : ℕ)
    → (refill b now).tokens_bytes * 1000000000 + b.rate_bytes_per_s * b.last_refill_ns
      ≤ b.tokens_bytes * 1000000000 + b.rate_bytes_per_s * (refill b now).last_refill_ns
unfolding refill
refill_bound b now = elim (Bool-cases (leb now b.last_refill_ns)) [
  | inl late ↦ rw (late, refill) (omega arith)
  | inr early ↦
      let elapsed = now - b.last_refill_ns in
      let gained = gain b.rate_bytes_per_s elapsed in
      rw (early, refill)
        (omega (
          arith,
          gain_bound b.rate_bytes_per_s elapsed,
          topped_up b.tokens_bytes gained b.burst_bytes,
          mul_back b.rate_bytes_per_s now b.last_refill_ns (omega (tests, early)),
        ))
]

tokens_kept :
    (r : TokenBucket) (bytes ops : ℕ)
    → (taken bytes (take_tokens r bytes ops).1 + (take_tokens r bytes ops).0.tokens_bytes
        ≡ r.tokens_bytes)
      × ((take_tokens r bytes ops).0.last_refill_ns ≡ r.last_refill_ns)
      × ((take_tokens r bytes ops).0.rate_bytes_per_s ≡ r.rate_bytes_per_s)
unfolding take_tokens
tokens_kept r bytes ops = ground arith

rate_kept : (b : TokenBucket) (now : ℕ) → (refill b now).rate_bytes_per_s ≡ b.rate_bytes_per_s
unfolding refill
rate_kept b now = elim (Bool-cases (leb now b.last_refill_ns)) [
  | inl late ↦ rw (late, refill) refl
  | inr early ↦ rw (early, refill) refl
]

-- One request and the rest: `total` bytes are admitted after the first `more`.
add_up :
    (rate last end b_tokens r_tokens r_last c_rate c_last c_tokens more total : ℕ)
    → r_tokens * 1000000000 + rate * last ≤ b_tokens * 1000000000 + rate * r_last
    → more + c_tokens ≡ r_tokens
    → c_last ≡ r_last
    → c_rate ≡ rate
    → total * 1000000000 + c_rate * c_last ≤ c_tokens * 1000000000 + c_rate * end
    → (more + total) * 1000000000 + rate * last ≤ b_tokens * 1000000000 + rate * end
add_up rate last end b_tokens r_tokens r_last c_rate c_last c_tokens more total h kept same rates
      later =
    omega (arith, ap (λ x. x * c_last) rates, ap (λ x. rate * x) same, ap (λ x. x * end) rates)

-- Any requests: the bytes admitted never exceed the tokens at the start plus the rate times the
-- time that passed until the last refill (in nanoseconds, hence the factor 10^9).
pub served_bytes_bounded :
    (b : TokenBucket) (rs : List Request)
    → (serve b rs).1 * 1000000000 + b.rate_bytes_per_s * b.last_refill_ns
      ≤ b.tokens_bytes * 1000000000 + b.rate_bytes_per_s * (serve b rs).0.last_refill_ns
unfolding serve try_charge
served_bytes_bounded b [] = omega arith
served_bytes_bounded b ((now, bytes, ops) ∷ rs) =
    let r = refill b now in
    let c = (take_tokens r bytes ops).0 in
    let kept = tokens_kept r bytes ops in
    add_up b.rate_bytes_per_s b.last_refill_ns (serve c rs).0.last_refill_ns b.tokens_bytes
      r.tokens_bytes r.last_refill_ns c.rate_bytes_per_s c.last_refill_ns c.tokens_bytes _ _
      (refill_bound b now) kept.0 kept.1 (kept.2 ∙ rate_kept b now) (served_bytes_bounded c rs)

-- A refill of an empty bucket after too short a time.
no_gain :
    (rate period : ℕ) → period < 1000000000 → rate * period < 1000000000 → gain rate period ≡ 0
unfolding gain
no_gain rate period short slow = rw (div-eq_of_lt short, mod-eq_of_lt short) (ground arith)

refill_nothing :
    (b : TokenBucket) (now period : ℕ)
    → now ≡ b.last_refill_ns + period
    → b.tokens_bytes ≡ 0
    → period < 1000000000
    → b.rate_bytes_per_s * period < 1000000000
    → ((refill b now).tokens_bytes ≡ 0) × ((refill b now).last_refill_ns ≡ now)
unfolding refill
refill_nothing b now period at empty short slow = elim (Bool-cases (leb now b.last_refill_ns)) [
  | inl late ↦ rw (late, refill) ((empty, omega (tests, late, at)))
  | inr early ↦
      let gained = gain b.rate_bytes_per_s (now - b.last_refill_ns) in
      let elapsed : now - b.last_refill_ns ≡ period = omega (arith, at) in
      let gains_nothing =
        ap (λ t. gain b.rate_bytes_per_s t) elapsed
        ∙ no_gain b.rate_bytes_per_s period short slow in
      rw (early, refill)
        ((omega (arith, topped_up b.tokens_bytes gained b.burst_bytes, gains_nothing), refl))
]

refused :
    (r : TokenBucket) (bytes ops : ℕ)
    → r.tokens_bytes ≡ 0
    → 0 < bytes
    → take_tokens r bytes ops ≡ (r, false)
unfolding take_tokens
refused r bytes ops empty some_bytes =
    rw (take_tokens, not_covered r.tokens_bytes bytes empty some_bytes) refl
  where
    not_covered : (t bytes : ℕ) → t ≡ 0 → 0 < bytes → leb bytes t ≡ false
    not_covered t bytes e h = ground arith

-- A poll: the time since the one before, its bytes, its operations.
abbrev pub Poll : Type 0
Poll = ℕ × ℕ × ℕ

-- The requests of the polls from a time on.
abbrev pub polls : ℕ → List Poll → List Request
polls now [] = []
polls now ((gap, bytes, ops) ∷ ps) = (now + gap, bytes, ops) ∷ polls (now + gap) ps

-- The poll asks for bytes, and comes below a second and before the rate gives a byte.
pub record IsFrequent (rate : ℕ) (poll : Poll) : Type 0 where
  pub some_bytes : 0 < poll.1
  pub below_second : poll.0 < 1000000000
  pub below_byte : rate * poll.0 < 1000000000

starves_from :
    (b : TokenBucket) (rate t : ℕ) (ps : List Poll)
    → b.rate_bytes_per_s ≡ rate
    → b.last_refill_ns ≡ t
    → b.tokens_bytes ≡ 0
    → All (IsFrequent rate) ps
    → (serve b (polls t ps)).1 ≡ 0
unfolding serve try_charge
starves_from b rate t [] is at empty often = refl
starves_from b rate t ((gap, bytes, ops) ∷ ps) is at empty often =
    let r = refill b (t + gap) in
    let slow : b.rate_bytes_per_s * gap < 1000000000 =
      omega (arith, often.0.below_byte, ap (λ x. x * gap) is) in
    let nothing =
      refill_nothing b (t + gap) gap (omega (arith, at)) empty often.0.below_second slow in
    rw (refused r bytes ops nothing.0 often.0.some_bytes) (
      omega (
        arith,
        starves_from r rate (t + gap) ps (rate_kept b (t + gap) ∙ is) nothing.1 nothing.0 often.1,
      ))

-- A bucket that has no bytes left and is polled, from its last refill on, by any requests that each
-- ask for a byte at least and any operations, each less than a second after the one before and so
-- soon that the rate gives less than a byte in between: it admits no byte, however many the
-- requests are. Each refill rounds the gain down to 0 and moves the time of the last refill.
pub frequent_polls_starve :
    (b : TokenBucket) (ps : List Poll)
    → b.tokens_bytes ≡ 0
    → All (IsFrequent b.rate_bytes_per_s) ps
    → (serve b (polls b.last_refill_ns ps)).1 ≡ 0
frequent_polls_starve b ps empty often =
    starves_from b b.rate_bytes_per_s b.last_refill_ns ps refl refl empty often
