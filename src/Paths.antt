-- ===== src/Paths.antt =====
-- `filepath.Clean`, `filepath.Join` and `filepath.Dir` of Go's standard library on Unix, for rooted
-- paths: those that start with a slash.
pub mod Clean
use hostlink.Prelude.{
  ℕ, Bool, true, false, not, ◌&&◌, Option, none, some, List, [], ◌∷◌, ◌++◌, Text, codes, ◌==◌,
  if◌then◌else◌, drop, nat_comparable, text_comparable,
}
use hostlink.Strings.{split, cut_prefix}

-- The elements of a path so far, the last one first, after one more: nothing and a dot stay, two dots
-- take the last element back, but never the root.
unfoldable pub push : List Text → Text → List Text
push stack part =
    if part == []
    then stack
    else if part == b'.' ∷ []
    then stack
    else if part == b'.' ∷ b'.' ∷ []
    then drop 1 stack
    else part ∷ stack

unfoldable pub walk : List Text → List Text → List Text
unfolding push
walk stack [] = stack
walk stack (part ∷ parts) = walk (push stack part) parts

-- The elements with a slash before each; the root is empty.
unfoldable pub render : List Text → Text
render [] = []
render (part ∷ stack) = render stack ++ b'/' ∷ part

abbrev pub path_of : List Text → Text
path_of [] = b'/' ∷ []
path_of (part ∷ stack) = render (part ∷ stack)

-- `filepath.Clean` on a rooted path.
unfoldable pub clean : Text → Text
unfolding split walk render
clean path = path_of (walk [] (split b'/' path))

-- `filepath.Join` of two elements that are not empty, the first one rooted.
unfoldable pub join : Text → Text → Text
unfolding clean
join dir name = clean (dir ++ b'/' ∷ name)

-- `strings.HasPrefix(s, prefix)`
abbrev pub has_prefix : Text → Text → Bool
has_prefix s prefix = elim (cut_prefix prefix s) [ none ↦ false | some _ ↦ true ]
