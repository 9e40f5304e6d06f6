-- ===== src/Admission/Examples.antt =====
-- A bucket of 1000 bytes a second: tests, and the theorems at concrete inputs.
use lion_fs.Base.{List, ◌+◌, ◌*◌, ◌≤◌, ◌≡◌, refl, true, none, some, [], ◌∷◌, arith}
use lion_fs.Admission.{
  TokenBucket, bulk, from_tag, slot, default_class, new, try_charge, headroom, unlimited,
}
use lion_fs.Admission.Rates.{serve, Poll, polls, served_bytes_bounded, frequent_polls_starve}

abbrev slow_bucket : TokenBucket
slow_bucket = record {
  rate_bytes_per_s = 1000;
  rate_ops_per_s = 1000;
  burst_bytes = 500;
  burst_ops = 10;
  tokens_bytes = 0;
  tokens_ops = 10;
  last_refill_ns = 0;
}

slot_test : slot default_class ≡ 12
unfolding slot default_class
slot_test = refl

from_tag_test : from_tag 2 ≡ some bulk
unfolding from_tag
from_tag_test = refl

new_test : new 0 100 1000 10 ≡ none
unfolding new
new_test = refl

headroom_test : headroom slow_bucket 100000000 ≡ (100, 10)
unfolding headroom
headroom_test = refl

unlimited_test : (try_charge unlimited 0 4096 1).1 ≡ true
unfolding try_charge unlimited
unlimited_test = refl

served_bytes_bounded_example :
    (serve slow_bucket ((100000000, 60, 1) ∷ (200000000, 300, 1) ∷ [])).1 * 1000000000 + 1000 * 0
    ≤ 0 * 1000000000
      + 1000 * (serve slow_bucket ((100000000, 60, 1) ∷ (200000000, 300, 1) ∷ [])).0.last_refill_ns
served_bytes_bounded_example =
    served_bytes_bounded slow_bucket ((100000000, 60, 1) ∷ (200000000, 300, 1) ∷ [])

-- 0.9 ms and 0.5 ms apart, of one operation each.
abbrev requests : List Poll
requests = (900000, 1, 1) ∷ (500000, 4096, 1) ∷ (900000, 60, 1) ∷ []

frequent_polls_starve_example : (serve slow_bucket (polls 0 requests)).1 ≡ 0
frequent_polls_starve_example = frequent_polls_starve slow_bucket requests refl (omega arith)
