-- ===== src/Ports/Watchers.antt =====
-- pkg/controller/ports.go, `portWatchers`: the subscribers of a port store, each woken through a
-- channel that holds one token at most.
use hostlink.Prelude.{
  ℕ, suc, ◌+◌, ◌%◌, ◌^◌, ◌<◌, ◌≡◌, ◌≢◌, refl, Bool, true, false, ◌||◌, Option, none, some, [], ◌∷◌,
  ◌==◌, if◌then◌else◌, arith, All, nat_comparable, ==_refl, Bool-cases, Option-cases, inl, inr, ap,
}
use hostlink.Map.{Map, get, put, delete}
use hostlink.Map.Laws.{get-put}

-- `buffers` is the heap of the channels that `watch` made: whether a channel holds its token.
pub record PortWatchers : Type 0 where
  pub next : ℕ  -- uint64
  pub closed : Bool
  pub subs : Map ℕ ℕ
  pub made : ℕ
  pub buffers : Map ℕ Bool

abbrev pub new_watchers : PortWatchers
new_watchers = record { next = 0; closed = false; subs = []; made = 0; buffers = [] }

-- What `watch` returns: the channel, and what its cancel function captures. `id` is `none` where that
-- function does nothing; `done` is its `sync.Once`.
pub record Subscription : Type 0 where
  pub channel : ℕ
  pub id : Option ℕ
  pub done : Bool

unfoldable pub watch : PortWatchers → PortWatchers × Subscription
watch w =
    let made = record w { made = suc w.made; buffers = put w.buffers w.made false } in
    if w.closed then (made, record { channel = w.made; id = none; done = false }) else (
      record made { next = (w.next + 1) % 2 ^ 64; subs = put w.subs w.next w.made },
      record { channel = w.made; id = some w.next; done = false },
    )

unfoldable pub remove : PortWatchers → ℕ → PortWatchers
remove w id = record w { subs = delete w.subs id }

-- The cancel function: `once.Do(func() { w.remove(id) })`.
unfoldable pub cancel : PortWatchers → Subscription → PortWatchers × Subscription
unfolding remove
cancel w s = elim s.id [
  | none ↦ (w, s)
  | some id ↦ if s.done then (w, s) else (remove w id, record s { done = true })
]

-- `select { case ch <- struct{}{}: default: }` on a channel of capacity one.
abbrev pub offer : Map ℕ Bool → ℕ → Map ℕ Bool
offer buffers ch = elim (get buffers ch) [ some true ↦ buffers | _ ↦ put buffers ch true ]

unfoldable pub offer_all : Map ℕ ℕ → Map ℕ Bool → Map ℕ Bool
offer_all [] buffers = buffers
offer_all ((id, ch) ∷ subs) buffers = offer_all subs (offer buffers ch)

unfoldable pub notify : PortWatchers → PortWatchers
unfolding offer_all
notify w = record w { buffers = offer_all w.subs w.buffers }

unfoldable pub close : PortWatchers → PortWatchers
close w = record w { closed = true; subs = [] }

-- Whether some subscription delivers to the channel.
unfoldable pub subscribed : Map ℕ ℕ → ℕ → Bool
subscribed [] ch = false
subscribed ((id, c) ∷ subs) ch = c == ch || subscribed subs ch

get-offer_all :
    (subs : Map ℕ ℕ) (buffers : Map ℕ Bool) (ch : ℕ)
    → get (offer_all subs buffers) ch ≡ (if subscribed subs ch then some true else get buffers ch)
unfolding offer_all subscribed
get-offer_all [] buffers ch = refl
get-offer_all ((id, c) ∷ subs) buffers ch =
    ground (arith, get-offer_all subs (offer buffers c) ch, get-put buffers c ch true)

-- After a notification every subscribed channel holds exactly one token, whether or not it held one
-- before, and no other channel has changed.
pub get-notify :
    (w : PortWatchers) (ch : ℕ)
    → get (notify w).buffers ch ≡ (if subscribed w.subs ch then some true else get w.buffers ch)
unfolding notify
get-notify w ch = get-offer_all w.subs w.buffers ch

-- The channels of the subscriptions were made by `watch`, and a closed registry has none.
pub record IsValid (w : PortWatchers) : Type 0 where
  pub known : All (λ (e : ℕ × ℕ). e.1 < w.made) w.subs
  pub quiet : w.closed ≡ true → w.subs ≡ []

known_mono :
    (subs : Map ℕ ℕ) (n : ℕ)
    → All (λ (e : ℕ × ℕ). e.1 < n) subs
    → All (λ (e : ℕ × ℕ). e.1 < suc n) subs
known_mono [] n a = tt
known_mono ((j, c) ∷ subs) n a = (omega arith, known_mono subs n a.1)

known-put :
    (subs : Map ℕ ℕ) (id n : ℕ)
    → All (λ (e : ℕ × ℕ). e.1 < n) subs
    → All (λ (e : ℕ × ℕ). e.1 < suc n) (put subs id n)
unfolding put
known-put [] id n a = (omega arith, tt)
known-put ((j, c) ∷ subs) id n a = ground (arith, known-put subs id n a.1, known_mono subs n a.1)

known-delete :
    (subs : Map ℕ ℕ) (id n : ℕ)
    → All (λ (e : ℕ × ℕ). e.1 < n) subs
    → All (λ (e : ℕ × ℕ). e.1 < n) (delete subs id)
unfolding delete
known-delete [] id n a = tt
known-delete ((j, c) ∷ subs) id n a = ground (arith, known-delete subs id n a.1)

pub watch-IsValid : (w : PortWatchers) → IsValid w → IsValid (watch w).0
unfolding watch
watch-IsValid w v = elim (Bool-cases w.closed) [
  | inl shut ↦
      rw (shut, watch)
        (record { known = known_mono w.subs w.made v.known; quiet = λ h. v.quiet shut })
  | inr live ↦
      rw (live, watch) (record { known = known-put w.subs w.next w.made v.known; quiet = λ h. cc })
]

pub cancel-IsValid : (w : PortWatchers) (s : Subscription) → IsValid w → IsValid (cancel w s).0
unfolding cancel delete
cancel-IsValid w s v = elim (Option-cases s.id) [
  | inl never ↦ rw (never, cancel) v
  | inr (id, e) ↦ elim (Bool-cases s.done) [
    | inl again ↦ rw (e, again, cancel) v
    | inr first ↦
        rw (e, first, cancel)
          (record {
            known = known-delete w.subs id w.made v.known;
            quiet = λ h. ap (λ m. delete m id) (v.quiet h);
          })
  ]
]

subscribed_unknown :
    (subs : Map ℕ ℕ) (n : ℕ) → All (λ (e : ℕ × ℕ). e.1 < n) subs → subscribed subs n ≡ false
unfolding subscribed
subscribed_unknown [] n a = refl
subscribed_unknown ((j, c) ∷ subs) n a = ground (arith, subscribed_unknown subs n a.1)

subscribed-put : (subs : Map ℕ ℕ) (id ch : ℕ) → subscribed (put subs id ch) ch ≡ true
unfolding subscribed put
subscribed-put [] id ch = ground arith
subscribed-put ((j, c) ∷ subs) id ch = ground (arith, subscribed-put subs id ch)

subscribed-delete-put :
    (subs : Map ℕ ℕ) (id c ch : ℕ)
    → get subs id ≡ none
    → subscribed (delete (put subs id c) id) ch ≡ subscribed subs ch
unfolding subscribed put delete get
subscribed-delete-put [] id c ch h = ground arith
subscribed-delete-put ((j, d) ∷ subs) id c ch h = ground (arith, subscribed-delete-put subs id c ch)

-- The life of a subscription to an open registry whose next id is free: its channel starts without
-- a token, the next notification puts one there, and once it is cancelled a notification leaves the
-- channel alone and reaches every other channel as if the subscription had never been made.
pub watch_cancel_lem :
    (w : PortWatchers)
    → IsValid w
    → w.closed ≡ false
    → get w.subs w.next ≡ none
    → let (w', s) = watch w in
      let (w'', s') = cancel w' s in
      (get w'.buffers s.channel ≡ some false)
      × (get (notify w').buffers s.channel ≡ some true)
      × (get (notify w'').buffers s.channel ≡ some false)
      × ((ch : ℕ) → ch ≢ s.channel → get (notify w'').buffers ch ≡ get (notify w).buffers ch)
      × ((cancel w'' s').0 ≡ w'')
unfolding watch cancel
watch_cancel_lem w v live free =
    let dropped = subscribed-delete-put w.subs w.next w.made in
    let stale = subscribed_unknown w.subs w.made v.known in
    rw (live, watch)
      (
        rw (get-put w.buffers w.made w.made false, ==_refl w.made) refl,
        rw (get-notify, subscribed-put w.subs w.next w.made) refl,
        rw (get-notify, dropped w.made free, stale)
            (rw (get-put w.buffers w.made w.made false, ==_refl w.made) refl),
        λ ch other.
            rw (get-notify, dropped ch free)
              (ground (arith, get-notify w ch, get-put w.buffers w.made ch false)),
        refl,
      )
