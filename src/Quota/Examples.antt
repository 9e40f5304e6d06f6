-- ===== src/Quota/Examples.antt =====
-- One namespace with soft and hard limits: tests, and the theorems at concrete inputs.
use lion_fs.Base.{◌≡◌, refl, true, none, some, List, [], ◌∷◌, arith}
use lion_fs.Quota.{
  hard_space, QuotaSpec, deny, Entry, QuotaTable, set_spec, new, evaluate, evaluate_entry,
  charge_usage, release_usage,
}
use lion_fs.Quota.Limits.{
  Request, reserve, give_back, serve_all, AllKeepHard, serve_all-AllKeepHard, is_denied,
}
use lion_fs.Quota.Trips.{AreTripsTracked, charge_and_release-AreTripsTracked}

abbrev limits : QuotaSpec
limits = record {
  soft_space_limit = some 100;
  hard_space_limit = some 200;
  soft_inodes = some 2;
  hard_inodes = some 10;
  grace_ns = 1000;
}

abbrev table : QuotaTable
table = record {
  specs =
      (
        7,
        (
          limits,
          record {
            used_bytes = 90;
            used_inodes = 3;
            soft_space_since = none;
            soft_inodes_since = some 5;
          },
        ),
      )
      ∷ [];
  denials = [];
}

abbrev entry : Entry
entry = (
  limits,
  record { used_bytes = 90; used_inodes = 3; soft_space_since = none; soft_inodes_since = some 5 },
)

hard_test : evaluate table 7 0 111 0 ≡ deny hard_space
unfolding evaluate
hard_test = refl

set_spec_test : (set_spec new 7 limits).1 ≡ true
unfolding set_spec new
set_spec_test = refl

abbrev requests : List Request
requests = reserve 7 10 100 1 ∷ reserve 7 20 100 1 ∷ give_back 7 50 2 ∷ []

serve_all-AllKeepHard_example : AllKeepHard (serve_all table requests).specs
serve_all-AllKeepHard_example = serve_all-AllKeepHard table requests (omega arith)

is_denied-evaluate_entry_test : is_denied (evaluate_entry entry 5000 5 1) ≡ true
unfolding evaluate_entry
is_denied-evaluate_entry_test = refl

charge_and_release-AreTripsTracked_example :
    AreTripsTracked (limits, charge_usage limits 9 20 1 entry.1)
    × AreTripsTracked (limits, release_usage limits 20 1 entry.1)
charge_and_release-AreTripsTracked_example =
    charge_and_release-AreTripsTracked entry 9 20 1 (omega arith) (omega arith) (omega arith)
