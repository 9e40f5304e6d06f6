-- ===== src/Policies/Examples.antt =====
-- The candidates of the unit tests.
use lion_fs.Base.{◌≡◌, refl, none, some, List, [], ◌∷◌}
use lion_fs.Policies.{Candidate, choose, first_fit, best_fit, worst_fit}

abbrev extents : List Candidate
extents = (0, 5) ∷ (100, 20) ∷ (200, 8) ∷ (300, 50) ∷ []

first_fit_test : choose extents 8 first_fit ≡ some (100, 20)
unfolding choose
first_fit_test = refl

worst_fit_test : choose extents 8 worst_fit ≡ some (300, 50)
unfolding choose
worst_fit_test = refl

nothing_fits_test : choose extents 1000 best_fit ≡ none
unfolding choose
nothing_fits_test = refl
