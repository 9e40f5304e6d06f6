-- ===== src/Paths.antt =====
-- crates/lionfs/src/path/normalize.rs: normal forms of paths. A string is the list of its bytes; a
-- vector that is pushed to and popped from is the list of its elements, the last one first.
pub mod Normal
mod Examples
use lion_fs.Base.{ℕ, Bool, true, false, ◌&&◌, not, List, [], ◌∷◌, ◌++◌, ◌==◌, if◌then◌else◌}

abbrev pub Text : Type 0
Text = List ℕ

abbrev pub slash : ℕ
slash = 47

abbrev pub dot : Text
dot = 46 ∷ []

abbrev pub dot_dot : Text
dot_dot = 46 ∷ 46 ∷ []

unfoldable pub is_absolute : Text → Bool
is_absolute [] = false
is_absolute (c ∷ cs) = c == slash

abbrev pub prepend : ℕ → List Text → List Text
prepend c [] = (c ∷ []) ∷ []
prepend c (part ∷ parts) = (c ∷ part) ∷ parts

-- `split('/')`: the empty path is one empty part.
unfoldable pub split : Text → List Text
split [] = [] ∷ []
split (c ∷ cs) = let rest = split cs in if c == slash then [] ∷ rest else prepend c rest

-- The three patterns of the match.
pub data Part : Type 0 where
  skipped parent name : Part

unfoldable pub kind_of : Text → Part
kind_of [] = skipped
kind_of (c ∷ []) = if c == 46 then skipped else name
kind_of (c ∷ d ∷ []) = if (c == 46) && (d == 46) then parent else name
kind_of (c ∷ d ∷ e ∷ cs) = name

abbrev pub is_parent : Part → Bool
is_parent parent = true
is_parent _ = false

-- The arm of "..": the last component is popped unless it is "..".
unfoldable pub go_up : Bool → List Text → List Text
unfolding kind_of
go_up absolute [] = if absolute then [] else dot_dot ∷ []
go_up absolute (last ∷ out) =
    if is_parent (kind_of last)
    then (if absolute then last ∷ out else dot_dot ∷ last ∷ out)
    else out

unfoldable pub push_part : Bool → List Text → Text → List Text
unfolding kind_of go_up
push_part absolute out part = elim (kind_of part) [
  | skipped ↦ out
  | parent ↦ go_up absolute out
  | name ↦ part ∷ out
]

unfoldable pub push_all : Bool → List Text → List Text → List Text
unfolding push_part
push_all absolute out [] = out
push_all absolute out (part ∷ parts) = push_all absolute (push_part absolute out part) parts

-- The components, the last one first.
unfoldable pub normalize_components : Text → List Text
unfolding push_all split is_absolute
normalize_components path = push_all (is_absolute path) [] (split path)

-- `join("/")` of components that stand last first, before a tail.
unfoldable pub join : List Text → Text
join [] = []
join (part ∷ []) = part
join (part ∷ previous ∷ parts) = join (previous ∷ parts) ++ (slash ∷ part)

unfoldable pub normalize : Text → Text
unfolding normalize_components join is_absolute
normalize path =
    let joined = join (normalize_components path) in
    if is_absolute path then slash ∷ joined else elim joined [ [] ↦ dot | ◌∷◌ c cs ↦ c ∷ cs ]
