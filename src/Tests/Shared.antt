-- ===== src/Tests/Shared.antt =====
-- The port registry in redis at a concrete input, over one map.
use hostlink.Prelude.{
  ℕ, ◌≡◌, ◌≢◌, refl, sym, ap, ◌∙◌, Bool, true, false, Option, none, some, [], ◌∷◌, map, Text, codes,
  arith, ◌==◌, if◌then◌else◌, ◌⊎◌, nat_comparable, text_comparable, Result, ok, err,
}
use hostlink.Map.{Map, get, put}
use hostlink.Map.Laws.{get-put}
use hostlink.Ports.{PortMapping, PortError, invalid_port_range, validate_port_range}
use hostlink.Ports.Watchers.{new_watchers}
use hostlink.Ports.Keys.{port_key}
use hostlink.Ports.Memory.{MemPortStore, allocate as local_allocate}
use hostlink.Ports.Refinement.{IsRange, port_key_eq, Related, Simulates, allocate_refinement}
use hostlink.Ports.Redis.{Redis, Codec, RedisPortStore, allocate}
use hostlink.Ports.Redis.Allocate.{RedisLaws, Searched, redis_allocate_lem}

set_absent : Option Text → Text → Text → Map Text Text → Map Text Text × Result PortError Bool
set_absent none key value s = (put s key value, ok true)
set_absent (some _) key value s = (s, ok false)

server : Redis (Map Text Text)
unfolding set_absent
server = record {
  mget = λ ks s. ok (map (λ k. get s k) ks);
  set_nx = λ key value s. set_absent (get s key) key value s;
  del = λ key s. (s, ok false);
  read = λ key s. ok (get s key);
  set_xx = λ key value s. (s, ok false);
  scan = λ cursor s. ok ([], 0);
  publish = λ s. s;
}

codec : Codec
codec = record { encode = λ m. m.target; decode = λ s. none }

set_absent_lem :
    (o : Option Text) (key value : Text) (s s' : Map Text Text)
    → get s key ≡ o
    → (set_absent o key value s ≡ (s', ok true) → s' ≡ put s key value)
      × (set_absent o key value s ≡ (s', ok false) → get s key ≢ none)
      × ((e : PortError) → set_absent o key value s ≢ (s', err e))
unfolding set_absent
set_absent_lem none key value s s' h = (λ e. ap (λ x. x.0) (sym e), λ e. cc, λ x e. cc)
set_absent_lem (some v) key value s s' h = (λ e. cc, λ e f. cc, λ x e. cc)

server-RedisLaws : RedisLaws server (λ s k. get s k)
unfolding server
server-RedisLaws = record {
  mget_values = λ ks s values e. cc;
  set_nx_sets = λ key value s s' e j.
      ap (λ (m : Map Text Text). get m j) ((set_absent_lem (get s key) key value s s' refl).0 e)
      ∙ get-put s key j value;
  set_nx_keeps = λ key value s s' e. (set_absent_lem (get s key) key value s s' refl).1 e;
  mget_fails = λ ks s e h. cc;
  set_nx_fails =
      λ key value s s' e h. absurd ((set_absent_lem (get s key) key value s s' refl).2 e h);
  publish_keeps = λ s j. refl;
}

abbrev shop : PortMapping
shop = record {
  agent_id = codes "edge";
  target = codes "10.0.0.7:80";
  container_id = codes "c1";
  suspended = false;
}

abbrev shared_store : RedisPortStore (Map Text Text)
shared_store = record {
  server = (codes "hostlink:port:8000", codes "x") ∷ [];
  watchers = new_watchers;
}

redis_allocate_lem_example :
    (q : RedisPortStore (Map Text Text) × Result PortError ℕ) × (allocate server codec 8000 8200
        shop shared_store
      ≡ some q)
    × (((validate_port_range 8000 8200 ≡ err invalid_port_range)
          × (q ≡ (shared_store, err invalid_port_range)))
        ⊎ ((validate_port_range 8000 8200 ≡ ok tt)
            × Searched server codec
                (λ s k. get s k)
                8000
                8200
                (codec.encode shop)
                shared_store.server
                q))
redis_allocate_lem_example =
    redis_allocate_lem server codec (λ s k. get s k) server-RedisLaws 8000 8200 shop shared_store

-- A replica's own store that maps the same port.
abbrev held : PortMapping
held = record shop { target = codes "x" }

abbrev local_store : MemPortStore
local_store = record { mappings = (8000, held) ∷ []; watchers = new_watchers }

abbrev same_store : RedisPortStore (Map Text Text)
same_store = record { server = (port_key 8000, codes "x") ∷ []; watchers = new_watchers }

one_entry :
    (b : Bool)
    → (if b then some (codes "x") else none) ≡ (elim (if b then some held else none) [
      | none ↦ none
      | some mapping ↦ some (codec.encode mapping)
    ])
unfolding codec
one_entry true = refl
one_entry false = refl

same_store-Related : Related server codec (λ s k. get s k) same_store.server local_store
unfolding get
same_store-Related q pos max =
    ap (λ b. if b then some (codes "x") else none)
      (port_key_eq 8000 q (omega arith) (omega arith) pos max)
    ∙ one_entry (8000 == q)

allocate_refinement_example :
    (q : RedisPortStore (Map Text Text) × Result PortError ℕ) × (r : MemPortStore
      × Result PortError ℕ)
    × (allocate server codec 8000 8200 shop same_store ≡ some q)
    × (local_allocate 8000 8200 shop local_store ≡ some r)
    × ((¬ IsRange 8000 8200
          × (q ≡ (same_store, err invalid_port_range))
          × (r ≡ (local_store, err invalid_port_range)))
        ⊎ (IsRange 8000 8200 × Simulates server codec (λ s k. get s k) q r))
allocate_refinement_example =
    allocate_refinement server codec (λ s k. get s k) server-RedisLaws 8000 8200 shop same_store
      local_store same_store-Related
