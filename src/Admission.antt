-- ===== src/Admission.antt =====
-- crates/lionfs/src/qos/classes.rs: the classes of requests, and the token bucket that admits them.
pub mod Rates
mod Examples
use lion_fs.Base.{
  ℕ, ◌+◌, ◌-◌, ◌*◌, ◌/◌, ◌%◌, min, max, Bool, true, false, ◌&&◌, ◌||◌, Option, none, some, leb,
  ◌==◌, if◌then◌else◌, sat_add, u64_max,
}

pub data IoLevel : Type 0 where
  realtime best_effort bulk : IoLevel

unfoldable pub tag : IoLevel → ℕ
tag realtime = 0
tag best_effort = 1
tag bulk = 2

unfoldable pub from_tag : ℕ → Option IoLevel
from_tag t =
    if t == 0
    then some realtime
    else if t == 1
    then some best_effort
    else if t == 2
    then some bulk
    else none

abbrev pub sub_levels : ℕ
sub_levels = 8

pub record IoClass : Type 0 where
  pub level : IoLevel
  pub sub : ℕ

unfoldable pub class : IoLevel → ℕ → IoClass
class level sub = record { level = level; sub = sub % sub_levels }

unfoldable pub slot : IoClass → ℕ
unfolding tag
slot c = tag c.level * sub_levels + c.sub

unfoldable pub default_class : IoClass
unfolding class
default_class = class best_effort 4

pub record TokenBucket : Type 0 where
  pub rate_bytes_per_s : ℕ
  pub rate_ops_per_s : ℕ
  pub burst_bytes : ℕ
  pub burst_ops : ℕ
  pub tokens_bytes : ℕ
  pub tokens_ops : ℕ
  pub last_refill_ns : ℕ

unfoldable pub unlimited : TokenBucket
unlimited = record {
  rate_bytes_per_s = u64_max;
  rate_ops_per_s = u64_max;
  burst_bytes = u64_max;
  burst_ops = u64_max;
  tokens_bytes = u64_max;
  tokens_ops = u64_max;
  last_refill_ns = 0;
}

unfoldable pub new : ℕ → ℕ → ℕ → ℕ → Option TokenBucket
new rate_bytes rate_ops burst_b burst_o =
    if (rate_bytes == 0) || (rate_ops == 0)
    then none
    else some (record {
      rate_bytes_per_s = rate_bytes;
      rate_ops_per_s = rate_ops;
      burst_bytes = max burst_b 1;
      burst_ops = max burst_o 1;
      tokens_bytes = max burst_b 1;
      tokens_ops = max burst_o 1;
      last_refill_ns = 0;
    })

-- u64::saturating_mul
abbrev pub sat_mul : ℕ → ℕ → ℕ
sat_mul a b = min (a * b) u64_max

abbrev pub ns_per_s : ℕ
ns_per_s = 1000000000

-- What a rate gives in the elapsed time.
unfoldable pub gain : ℕ → ℕ → ℕ
gain rate elapsed =
    sat_add (sat_mul rate (elapsed / ns_per_s)) (sat_mul rate (elapsed % ns_per_s) / ns_per_s)

unfoldable pub refill : TokenBucket → ℕ → TokenBucket
unfolding gain
refill b now = if leb now b.last_refill_ns then b else record b {
  tokens_bytes =
      min (sat_add b.tokens_bytes (gain b.rate_bytes_per_s (now - b.last_refill_ns))) b.burst_bytes;
  tokens_ops =
      min (sat_add b.tokens_ops (gain b.rate_ops_per_s (now - b.last_refill_ns))) b.burst_ops;
  last_refill_ns = now;
}

-- Taking the tokens of a bucket that has been refilled.
unfoldable pub take_tokens : TokenBucket → ℕ → ℕ → TokenBucket × Bool
take_tokens r bytes ops =
    if leb bytes r.tokens_bytes && leb ops r.tokens_ops
    then (record r { tokens_bytes = r.tokens_bytes - bytes; tokens_ops = r.tokens_ops - ops }, true)
    else (r, false)

unfoldable pub try_charge : TokenBucket → ℕ → ℕ → ℕ → TokenBucket × Bool
unfolding refill take_tokens
try_charge b now bytes ops = take_tokens (refill b now) bytes ops

unfoldable pub headroom : TokenBucket → ℕ → ℕ × ℕ
unfolding refill
headroom b now = ((refill b now).tokens_bytes, (refill b now).tokens_ops)
