-- ===== src/Paths/Normal.antt =====
-- What the normal form of a path is.
use lion_fs.Base.{ap, sym, ◌∙◌, ◌≡◌, refl, Bool, true, false, List, [], ◌∷◌, All, ◌⊎◌, inl, inr}
use lion_fs.Paths.{
  Text, Part, skipped, parent, name, kind_of, go_up, push_part, push_all, split, is_absolute,
  normalize_components,
}

abbrev AllParents : List Text → Type 0
AllParents parts = All (λ part. kind_of part ≡ parent) parts

-- Components, the last one first: names, and in front of them, in a relative path only, "..".
abbrev pub IsNormal : Bool → List Text → Type 0
IsNormal absolute [] = Unit
IsNormal absolute (last ∷ out) =
    ((kind_of last ≡ name) × IsNormal absolute out)
    ⊎ (absolute ≡ false) × (kind_of last ≡ parent) × AllParents out

go_up-IsNormal :
    (absolute : Bool) (out : List Text)
    → IsNormal absolute out
    → IsNormal absolute (go_up absolute out)
unfolding go_up kind_of
go_up-IsNormal true [] h = tt
go_up-IsNormal false [] h = inr (refl, refl, tt)
go_up-IsNormal absolute (last ∷ out) (inl (is, rest)) = rw (go_up, is) rest
go_up-IsNormal absolute (last ∷ out) (inr (relative, is, rest)) =
    rw (go_up, is, relative) (inr (refl, refl, (is, rest)))

push_part-IsNormal :
    (absolute : Bool) (out : List Text) (part : Text) (kind : Part)
    → kind_of part ≡ kind
    → IsNormal absolute out
    → IsNormal absolute (push_part absolute out part)
unfolding push_part
push_part-IsNormal absolute out part skipped e h = rw (push_part, e) h
push_part-IsNormal absolute out part parent e h = rw (push_part, e) (go_up-IsNormal absolute out h)
push_part-IsNormal absolute out part name e h = rw (push_part, e) (inl (e, h))

push_all-IsNormal :
    (absolute : Bool) (parts out : List Text)
    → IsNormal absolute out
    → IsNormal absolute (push_all absolute out parts)
unfolding push_all
push_all-IsNormal absolute [] out h = h
push_all-IsNormal absolute (part ∷ parts) out h =
    push_all-IsNormal absolute parts _ (push_part-IsNormal absolute out part (kind_of part) refl h)

-- A directory is the names on the way to it from the root, the last one first; in a tree without
-- links a part of a path leads to the directory itself, to its parent (the root's is the root) or to
-- a child.
abbrev parent_of : List Text → List Text
parent_of [] = []
parent_of (last ∷ dir) = dir

unfoldable pub walk : List Text → Text → List Text
unfolding kind_of
walk dir part = elim (kind_of part) [ skipped ↦ dir | parent ↦ parent_of dir | name ↦ part ∷ dir ]

-- The parts in order.
unfoldable pub resolve : List Text → List Text → List Text
unfolding walk
resolve dir [] = dir
resolve dir (part ∷ parts) = resolve (walk dir part) parts

-- Components that stand last first.
unfoldable pub resolve_back : List Text → List Text → List Text
unfolding walk
resolve_back dir [] = dir
resolve_back dir (last ∷ out) = walk (resolve_back dir out) last

-- Where the resolution of a path begins.
abbrev pub origin : Bool → List Text → List Text
origin true dir = []
origin false dir = dir

walk-name : (dir : List Text) (part : Text) → kind_of part ≡ name → walk dir part ≡ part ∷ dir
unfolding walk
walk-name dir part e = rw (walk, e) refl

resolve_back-go_up :
    (absolute : Bool) (dir out : List Text)
    → IsNormal absolute out
    → resolve_back (origin absolute dir) (go_up absolute out)
      ≡ parent_of (resolve_back (origin absolute dir) out)
unfolding go_up kind_of resolve_back
resolve_back-go_up true dir [] h = refl
resolve_back-go_up false dir [] h = refl
resolve_back-go_up absolute dir (last ∷ out) (inl (is, rest)) =
    rw (go_up, is) (sym (ap parent_of (walk-name (resolve_back (origin absolute dir) out) last is)))
resolve_back-go_up true dir (last ∷ out) (inr (relative, is, rest)) = absurd (cc)
resolve_back-go_up false dir (last ∷ out) (inr (relative, is, rest)) = rw (go_up, is) refl

resolve_back-push_part :
    (absolute : Bool) (dir out : List Text) (part : Text) (kind : Part)
    → kind_of part ≡ kind
    → IsNormal absolute out
    → resolve_back (origin absolute dir) (push_part absolute out part)
      ≡ walk (resolve_back (origin absolute dir) out) part
unfolding push_part walk resolve_back
resolve_back-push_part absolute dir out part skipped e h = rw (push_part, e, walk) refl
resolve_back-push_part absolute dir out part parent e h =
    rw (push_part, e, walk) (resolve_back-go_up absolute dir out h)
resolve_back-push_part absolute dir out part name e h = rw (push_part, e) refl

resolve_back-push_all :
    (absolute : Bool) (dir parts out : List Text)
    → IsNormal absolute out
    → resolve_back (origin absolute dir) (push_all absolute out parts)
      ≡ resolve (resolve_back (origin absolute dir) out) parts
unfolding push_all resolve
resolve_back-push_all absolute dir [] out h = refl
resolve_back-push_all absolute dir (part ∷ parts) out h =
    resolve_back-push_all absolute dir parts (push_part absolute out part)
      (push_part-IsNormal absolute out part (kind_of part) refl h)
    ∙ ap (λ d. resolve d parts) (resolve_back-push_part absolute dir out part (kind_of part) refl h)

-- For every path and every directory: the components are names, neither empty nor ".", after a run
-- of ".." that only a relative path has; and in a tree without links they lead from the directory,
-- or from the root if the path is absolute, to the same directory as the parts of the path do.
pub resolve_back-normalize_components :
    (path : Text) (dir : List Text)
    → IsNormal (is_absolute path) (normalize_components path)
      × (resolve_back (origin (is_absolute path) dir) (normalize_components path)
          ≡ resolve (origin (is_absolute path) dir) (split path))
unfolding normalize_components resolve_back
resolve_back-normalize_components path dir = (
  push_all-IsNormal (is_absolute path) (split path) [] tt,
  resolve_back-push_all (is_absolute path) dir (split path) [] tt,
)
