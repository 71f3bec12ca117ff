-- ===== src/AgentFs/Removal.antt =====
-- pkg/agent/fs.go, `remove`: what a removal can reach.
use hostlink.Prelude.{
  ◌≡◌, refl, false, Option, none, some, List, [], ◌∷◌, ◌++◌, Text, ◌==◌, All, arith, nat_comparable,
  text_comparable, inl, inr, ◌⊎◌, ok, ==_refl,
}
use hostlink.Paths.{path_of}
use hostlink.Paths.Clean.{IsElement}
use hostlink.AgentFs.{Os, resolve, remove}
use hostlink.AgentFs.Resolve.{resolve_lem}

module _ {S : Type 0} (os : Os S) (part : Text) (d : List Text) where
  -- The state is as before, or one `RemoveAll` strictly inside the working directory was made.
  abbrev pub RemovedInside : S → S → Type 0
  RemovedInside s s' =
      (s' ≡ s)
      ⊎ ((q : Text) × (e : List Text) × All IsElement (q ∷ e)
          × (s' ≡ (os.remove_all (path_of (q ∷ e ++ part ∷ d)) s).0))

  remove_resolved :
      (path full : Text) (s : S)
      → resolve (path_of (part ∷ d)) path ≡ ok full
      → ((remove os (path_of (part ∷ d)) (some path) s).0 ≡ s)
        ⊎ (((full == path_of (part ∷ d)) ≡ false)
            × ((remove os (path_of (part ∷ d)) (some path) s).0 ≡ (os.remove_all full s).0))
  unfolding remove
  remove_resolved path full s h = ground arith

  remove_nothing : (s : S) → (remove os (path_of (part ∷ d)) none s).0 ≡ s
  unfolding remove
  remove_nothing s = refl

  -- Whatever the request, a removal makes no call that changes the file system but one `RemoveAll` of a
  -- path strictly below the working directory: never the working directory itself.
  pub removal_lem :
      (request : Option Text) (s : S)
      → All IsElement (part ∷ d)
      → RemovedInside s (remove os (path_of (part ∷ d)) request s).0
  removal_lem none s a = inl (remove_nothing s)
  removal_lem (some path) s a =
      let (e, b, c, h, up) = resolve_lem part d path a in
      inside e b (remove_resolved path (path_of (e ++ part ∷ d)) s h)
    where
      inside :
          (e : List Text)
          → All IsElement e
          → ((remove os (path_of (part ∷ d)) (some path) s).0 ≡ s)
            ⊎ (((path_of (e ++ part ∷ d) == path_of (part ∷ d)) ≡ false)
                × ((remove os (path_of (part ∷ d)) (some path) s).0
                    ≡ (os.remove_all (path_of (e ++ part ∷ d)) s).0))
          → RemovedInside s (remove os (path_of (part ∷ d)) (some path) s).0
      inside e b (inl same) = inl same
      inside [] b (inr (other, did)) = absurd (ground (arith, other, ==_refl (path_of (part ∷ d))))
      inside (q ∷ e) b (inr (other, did)) = inr (q, e, b, did)
