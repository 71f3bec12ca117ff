-- ===== src/Paths/Clean.antt =====
-- What a cleaned path is made of, and how paths are joined.
use mathlib.Core.List.{append_assoc, append-nil}
use hostlink.Prelude.{
  ◌≡◌, ◌≢◌, refl, sym, ap, ◌∙◌, subst, true, List, [], ◌∷◌, ◌++◌, Text, All, arith, nat_comparable,
  text_comparable,
}
use hostlink.Strings.{split, split_whole, split-append, split_parts_clean, cut_prefix-append}
use hostlink.Paths.{push, walk, render, path_of, clean, join, has_prefix}

-- An element of a cleaned path: not empty, neither dot nor dots, without a slash.
abbrev pub IsElement : Text → Type 0
IsElement part =
    (part ≢ []) × (part ≢ b'.' ∷ []) × (part ≢ b'.' ∷ b'.' ∷ []) × All (λ c. c ≢ b'/') part

abbrev pub NoSlash : Text → Type 0
NoSlash part = All (λ c. c ≢ b'/') part

push_element : (stack : List Text) (part : Text) → IsElement part → push stack part ≡ part ∷ stack
unfolding push
push_element stack part (a, b, c, d) = ground arith

push-All :
    (stack : List Text) (part : Text)
    → NoSlash part
    → All IsElement stack
    → All IsElement (push stack part)
unfolding push
push-All [] part n a = ground arith
push-All (p ∷ stack) part n a = ground arith

walk-All :
    (stack parts : List Text)
    → All NoSlash parts
    → All IsElement stack
    → All IsElement (walk stack parts)
unfolding walk
walk-All stack [] n a = a
walk-All stack (part ∷ parts) n a = walk-All (push stack part) parts n.1 (push-All stack part n.0 a)

walk-append : (stack xs ys : List Text) → walk stack (xs ++ ys) ≡ walk (walk stack xs) ys
unfolding walk
walk-append stack [] ys = refl
walk-append stack (x ∷ xs) ys = walk-append (push stack x) xs ys

walk_nothing : (stack : List Text) → walk stack (split b'/' []) ≡ stack
unfolding walk push split
walk_nothing stack = ground arith

walk_one :
    (stack : List Text) (part : Text) → IsElement part → walk stack (part ∷ []) ≡ part ∷ stack
unfolding walk
walk_one stack part e = push_element stack part e

-- Walking along a cleaned path from some directory adds its elements.
pub walk-render :
    (stack e : List Text) → All IsElement e → walk stack (split b'/' (render e)) ≡ e ++ stack
unfolding render
walk-render stack [] a = walk_nothing stack
walk-render stack (part ∷ e) (here, later) =
    rw
      (
        split-append b'/' (render e) part,
        split_whole b'/' part here.3,
        walk-append stack (split b'/' (render e)) (part ∷ []),
        walk-render stack e later,
      )
      (walk_one (e ++ stack) part here)

walk_root : (stack : List Text) → walk stack (split b'/' (b'/' ∷ [])) ≡ stack
unfolding walk push split
walk_root stack = ground arith

walk-path_of :
    (stack e : List Text) → All IsElement e → walk stack (split b'/' (path_of e)) ≡ e ++ stack
walk-path_of stack [] a = walk_root stack
walk-path_of stack (part ∷ e) a = walk-render stack (part ∷ e) a

-- A path that is cleaned consists of elements.
pub clean_elements : (path : Text) → (e : List Text) × All IsElement e × (clean path ≡ path_of e)
unfolding clean
clean_elements path = (
  walk [] (split b'/' path),
  walk-All [] (split b'/' path) (split_parts_clean b'/' path) tt,
  refl,
)

-- Joining a path behind a directory that is not the root puts its elements behind the directory's.
pub join-path_of :
    (part : Text) (d e : List Text)
    → All IsElement (part ∷ d)
    → All IsElement e
    → join (path_of (part ∷ d)) (path_of e) ≡ path_of (e ++ part ∷ d)
unfolding join clean
join-path_of part d e a b =
    rw
      (
        split-append b'/' (render (part ∷ d)) (path_of e),
        walk-append [] (split b'/' (render (part ∷ d))) (split b'/' (path_of e)),
        walk-render [] (part ∷ d) a,
        append-nil (part ∷ d),
        walk-path_of (part ∷ d) e b,
      )
      refl

render-append : (e d : List Text) → render (e ++ d) ≡ render d ++ render e
unfolding render
render-append [] d = sym (append-nil (render d))
render-append (part ∷ e) d =
    rw (render-append e d, append_assoc (render d) (render e) (b'/' ∷ part)) refl

pub render_slash : (part : Text) (e : List Text) → (s : Text) × (render (part ∷ e) ≡ b'/' ∷ s)
unfolding render
render_slash part [] = (part, refl)
render_slash part (q ∷ e) = let (s, h) = render_slash q e in (s ++ b'/' ∷ part, rw h refl)

has_prefix-append : (p s : Text) → has_prefix (p ++ s) p ≡ true
has_prefix-append p s = rw (cut_prefix-append p s, has_prefix) refl

-- A path with elements behind a directory starts with that directory and a slash.
pub has_prefix-render :
    (part : Text) (e d : List Text)
    → has_prefix (render (part ∷ e ++ d)) (render d ++ b'/' ∷ []) ≡ true
has_prefix-render part e d =
    let (s, h) = render_slash part e in
    let split_at_slash : render (part ∷ e ++ d) ≡ (render d ++ b'/' ∷ []) ++ s =
      render-append (part ∷ e) d
      ∙ ap (λ t. render d ++ t) h
      ∙ sym (append_assoc (render d) (b'/' ∷ []) s) in
    subst (λ t. has_prefix t (render d ++ b'/' ∷ []) ≡ true) (sym split_at_slash)
      (has_prefix-append (render d ++ b'/' ∷ []) s)

-- Joining behind the root leaves the path as it is.
pub join_root : (e : List Text) → All IsElement e → join (path_of []) (path_of e) ≡ path_of e
unfolding join clean
join_root e a =
    rw
      (
        split-append b'/' (b'/' ∷ []) (path_of e),
        walk-append [] (split b'/' (b'/' ∷ [])) (split b'/' (path_of e)),
        walk_root [],
        walk-path_of [] e a,
        append-nil e,
      )
      refl
