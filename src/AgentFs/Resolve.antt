-- ===== src/AgentFs/Resolve.antt =====
-- pkg/agent/fs.go, `resolve`: no request path leaves the working directory.
use hostlink.Prelude.{
  ℕ, ◌≡◌, ◌≢◌, refl, sym, subst, true, false, not, ◌&&◌, List, [], ◌∷◌, ◌++◌, Text, ◌==◌,
  if◌then◌else◌, All, arith, nat_comparable, text_comparable, ok, err, ==_refl, ℕ_discrete,
  Text-discrete,
}
use hostlink.Strings.{cut_prefix}
use hostlink.Paths.{clean, path_of, render, has_prefix}
use hostlink.Paths.Clean.{
  IsElement, clean_elements, join-path_of, has_prefix-render, render_slash, join_root,
}
use hostlink.AgentFs.{path_escapes, resolve}

path_of_full : (part : Text) (d : List Text) → (path_of (part ∷ d) == []) ≡ false
unfolding render
path_of_full part [] = ground arith
path_of_full part (q ∷ d) = let (s, h) = render_slash part (q ∷ d) in rw h (ground arith)

guard_passes :
    (part : Text) (d e : List Text)
    → (not (path_of (e ++ part ∷ d) == path_of (part ∷ d))
        && not (has_prefix (path_of (e ++ part ∷ d)) (path_of (part ∷ d) ++ b'/' ∷ [])))
      ≡ false
guard_passes part d [] = ground (arith, ==_refl (path_of (part ∷ d)))
guard_passes part d (q ∷ e) = ground (arith, has_prefix-render q e (part ∷ d))

-- Two dots at the root of a path are dropped.
clean_up : (rel : Text) → clean (b'/' ∷ b'.' ∷ b'.' ∷ b'/' ∷ rel) ≡ clean (b'/' ∷ rel)
unfolding clean Text-discrete
clean_up rel = refl

-- In a working directory that is a cleaned rooted path and not the root, every request path is
-- resolved, whatever it is made of: to the elements of the working directory followed by those of
-- the request's path, cleaned as a rooted one, which are neither empty, nor dots, and have no slash in
-- them. No path is refused for climbing out: two dots in front of one change nothing.
pub resolve_lem :
    (part : Text) (d : List Text) (rel : Text)
    → All IsElement (part ∷ d)
    → (e : List Text) × All IsElement e
      × (clean (b'/' ∷ rel) ≡ path_of e)
      × (resolve (path_of (part ∷ d)) rel ≡ ok (path_of (e ++ part ∷ d)))
      × (resolve (path_of (part ∷ d)) (b'.' ∷ b'.' ∷ b'/' ∷ rel) ≡ ok (path_of (e ++ part ∷ d)))
unfolding resolve
resolve_lem part d rel a =
    let (e, b, h) = clean_elements (b'/' ∷ rel) in
    (
      e,
      b,
      h,
      rw (h, join-path_of part d e a b, path_of_full part d, guard_passes part d e) refl,
      rw (clean_up rel, h, join-path_of part d e a b, path_of_full part d, guard_passes part d e)
          refl,
    )

render_first :
    (part : Text) (e : List Text)
    → All IsElement (part ∷ e)
    → (c : ℕ) × (s : Text) × (render (part ∷ e) ≡ b'/' ∷ c ∷ s) × (c ≢ b'/')
unfolding render
render_first [] e a = absurd (a.0.0 refl)
render_first (c ∷ part) [] a = (c, part, refl, a.0.3.0)
render_first (c ∷ part) (q ∷ e) a =
    let (x, s, h, n) = render_first q e a.1 in (x, s ++ b'/' ∷ c ∷ part, rw h refl, n)

root_guard :
    (part : Text) (e : List Text)
    → All IsElement (part ∷ e)
    → (not (path_of (part ∷ e) == b'/' ∷ [])
        && not (has_prefix (path_of (part ∷ e)) (b'/' ∷ b'/' ∷ [])))
      ≡ true
unfolding cut_prefix
root_guard part e a = let (c, s, h, n) = render_first part e a in rw h (ground arith)

root_passes :
    (not (path_of [] == b'/' ∷ []) && not (has_prefix (path_of []) (b'/' ∷ b'/' ∷ []))) ≡ false
unfolding cut_prefix ℕ_discrete Text-discrete
root_passes = refl

abbrev AtRoot : Text → Text → Type 0
AtRoot path rel =
    if path == b'/' ∷ []
    then resolve (b'/' ∷ []) rel ≡ ok (b'/' ∷ [])
    else resolve (b'/' ∷ []) rel ≡ err path_escapes

resolve-AtRoot :
    (rel : Text) (e : List Text)
    → All IsElement e
    → clean (b'/' ∷ rel) ≡ path_of e
    → AtRoot (path_of e) rel
unfolding resolve
resolve-AtRoot rel [] a h =
    rw (h, join_root [] a) (ground (arith, root_passes, ==_refl {A = Text} (b'/' ∷ [])))
resolve-AtRoot rel (part ∷ e) a h =
    rw (h, join_root (part ∷ e) a) (ground (arith, root_guard part e a))

-- With the root as working directory `resolve` accepts the requests for the root itself, and refuses
-- every other one as leaving the working directory.
pub resolve_root_lem :
    (rel : Text)
    → if clean (b'/' ∷ rel) == b'/' ∷ []
      then resolve (b'/' ∷ []) rel ≡ ok (b'/' ∷ [])
      else resolve (b'/' ∷ []) rel ≡ err path_escapes
resolve_root_lem rel =
    let (e, a, h) = clean_elements (b'/' ∷ rel) in
    subst (λ path. AtRoot path rel) (sym h) (resolve-AtRoot rel e a h)
