-- ===== src/Ports/Redis.antt =====
-- pkg/controller/ports.go, `redisPortStore`: the port registry that replicas share. Redis and the JSON
-- form of a mapping are parameters; every command may fail. Timeouts and logs have no part.
pub mod Allocate
use hostlink.Prelude.{
  ℕ, zero, suc, ◌+◌, ◌-◌, ◌%◌, ◌^◌, min, Bool, true, false, Option, none, some, List, [], ◌∷◌, ◌++◌,
  ◌==◌, if◌then◌else◌, Result, ok, err, Text, or_fail, nat_comparable, text_comparable, ltb, take,
  drop, length, ◌>>=◌,
}
use hostlink.Map.{Map, put}
use hostlink.Ports.{
  PortMapping, PortError, port_range_exhausted, port_not_found, bad_mapping, validate_port_range,
}
use hostlink.Ports.Keys.{port_key, port_from_key}
use hostlink.Ports.Watchers.{PortWatchers, notify}

-- The commands: `MGET`, `SETNX`, `DEL` with whether it deleted, `GET`, `SET XX` with whether the key
-- was there, one page of `SCAN` on the port keys from a cursor with the next cursor, and `PUBLISH`
-- of a change.
pub record Redis (S : Type 0) : Type 0 where
  pub mget : List Text → S → Result PortError (List (Option Text))
  pub set_nx : Text → Text → S → S × Result PortError Bool
  pub del : Text → S → S × Result PortError Bool
  pub read : Text → S → Result PortError (Option Text)
  pub set_xx : Text → Text → S → S × Result PortError Bool
  pub scan : ℕ → S → Result PortError (List Text × ℕ)
  pub publish : S → S

pub record Codec : Type 0 where
  pub encode : PortMapping → Text
  pub decode : Text → Option PortMapping

pub record RedisPortStore (S : Type 0) : Type 0 where
  pub server : S
  pub watchers : PortWatchers

-- The keys of so many ports from the first one.
unfoldable pub port_keys : ℕ → ℕ → List Text
port_keys zero port = []
port_keys (suc n) port = port_key port ∷ port_keys n (port + 1)

abbrev pub scan_batch_size : ℕ
scan_batch_size = 100

module _ {S : Type 0} (redis : Redis S) (codec : Codec) where
  -- `changed`
  abbrev pub changed : RedisPortStore S → RedisPortStore S
  changed s = record { server = redis.publish s.server; watchers = notify s.watchers }

  -- What `allocate` does with the reply to its `SETNX`.
  unfoldable pub after_set_nx :
      ℕ
      → RedisPortStore S
      → Result PortError Bool
      → RedisPortStore S × Result PortError (Option ℕ)
      → RedisPortStore S × Result PortError (Option ℕ)
  after_set_nx port s (err e) rest = (s, err e)
  after_set_nx port s (ok true) rest = (changed s, ok (some port))
  after_set_nx port s (ok false) rest = rest

  -- The loop of `allocate` over the values of one batch; the first value is that of `port`.
  unfoldable pub claim_free :
      Text
      → ℕ
      → List (Option Text)
      → RedisPortStore S
      → RedisPortStore S × Result PortError (Option ℕ)
  unfolding after_set_nx
  claim_free value port [] s = (s, ok none)
  claim_free value port (some _ ∷ values) s = claim_free value ((port + 1) % 2 ^ 32) values s
  claim_free value port (none ∷ values) s =
      let r = redis.set_nx (port_key port) value s.server in
      let s' = record s { server = r.0 } in
      after_set_nx port s' r.1 (claim_free value ((port + 1) % 2 ^ 32) values s')

  -- What `allocate` does after one batch: it returns, or goes on.
  unfoldable pub after_batch :
      Bool
      → RedisPortStore S × Result PortError (Option ℕ)
      → Option (RedisPortStore S × Result PortError ℕ)
      → Option (RedisPortStore S × Result PortError ℕ)
  after_batch is_last (s, err e) rest = some (s, err e)
  after_batch is_last (s, ok (some port)) rest = some (s, ok port)
  after_batch true (s, ok none) rest = some (s, err port_range_exhausted)
  after_batch false (s, ok none) rest = rest

  abbrev pub batch_end : ℕ → ℕ → ℕ
  batch_end start to = min ((start + scan_batch_size - 1) % 2 ^ 32) to

  -- The loop of `allocate` over the batches; `none` means that the fuel ran out.
  unfoldable pub claim_batches :
      ℕ → Text → ℕ → ℕ → RedisPortStore S → Option (RedisPortStore S × Result PortError ℕ)
  unfolding port_keys claim_free after_batch
  claim_batches zero value start to s = none
  claim_batches (suc f) value start to s =
      let end = batch_end start to in
      if ltb to start
      then some (s, err port_range_exhausted)
      else elim (redis.mget (port_keys (end + 1 - start) start) s.server) [
        | err e ↦ some (s, err e)
        | ok values ↦
            let r = claim_free value start values s in
            after_batch (end == to) r (claim_batches f value ((end + 1) % 2 ^ 32) to r.0)
      ]

  unfoldable pub allocate :
      ℕ → ℕ → PortMapping → RedisPortStore S → Option (RedisPortStore S × Result PortError ℕ)
  unfolding claim_batches
  allocate from to mapping s = elim (validate_port_range from to) [
    | err e ↦ some (s, err e)
    | ok _ ↦ claim_batches (suc (to - from)) (codec.encode mapping) from to s
  ]

  after_del :
      RedisPortStore S → Result PortError Bool → RedisPortStore S × Result PortError (Unit {0})
  after_del s (err e) = (s, err e)
  after_del s (ok true) = (changed s, ok tt)
  after_del s (ok false) = (s, ok tt)

  unfoldable pub release : ℕ → RedisPortStore S → RedisPortStore S × Result PortError (Unit {0})
  unfolding after_del
  release port s =
      let r = redis.del (port_key port) s.server in after_del (record s { server = r.0 }) r.1

  -- `decodePortMapping`
  abbrev pub decode_port_mapping : Text → Result PortError PortMapping
  decode_port_mapping value = or_fail (codec.decode value) bad_mapping

  unfoldable pub lookup : ℕ → RedisPortStore S → Result PortError PortMapping
  lookup port s = do
    found ← redis.read (port_key port) s.server
    value ← or_fail found port_not_found
    decode_port_mapping value

  after_set_xx : Result PortError Bool → Result PortError (Unit {0})
  after_set_xx (err e) = err e
  after_set_xx (ok true) = ok tt
  after_set_xx (ok false) = err port_not_found

  unfoldable pub update :
      ℕ → PortMapping → RedisPortStore S → RedisPortStore S × Result PortError (Unit {0})
  unfolding after_set_xx
  update port mapping s =
      let r = redis.set_xx (port_key port) (codec.encode mapping) s.server in
      (record s { server = r.0 }, after_set_xx r.1)

  -- `keys`, on fuel: redis decides how many pages there are.
  unfoldable pub keys : ℕ → ℕ → List Text → S → Option (Result PortError (List Text))
  keys zero cursor found s = none
  keys (suc f) cursor found s = elim (redis.scan cursor s) [
    | err e ↦ some (err e)
    | ok (page, next) ↦
        let rest = keys f next (found ++ page) s in
        if next == 0 then some (ok (found ++ page)) else rest
  ]

  -- The inner loop of `desired` over the keys and the values of one batch.
  unfoldable pub read_batch :
      List Text → List (Option Text) → Map ℕ PortMapping → Result PortError (Map ℕ PortMapping)
  read_batch (key ∷ ks) (none ∷ values) found = read_batch ks values found
  read_batch (key ∷ ks) (some raw ∷ values) found = do
    port ← port_from_key key
    mapping ← decode_port_mapping raw
    read_batch ks values (put found port mapping)
  read_batch _ _ found = ok found

  -- The outer loop of `desired`; the fuel is the number of keys.
  unfoldable pub read_batches :
      ℕ → List Text → Map ℕ PortMapping → S → Result PortError (Map ℕ PortMapping)
  unfolding read_batch
  read_batches f [] found s = ok found
  read_batches zero (key ∷ ks) found s = ok found
  read_batches (suc f) (key ∷ ks) found s = do
    values ← redis.mget (take scan_batch_size (key ∷ ks)) s
    found' ← read_batch (take scan_batch_size (key ∷ ks)) values found
    read_batches f (drop scan_batch_size (key ∷ ks)) found' s

  -- `desired`, after `keys`.
  unfoldable pub desired :
      Result PortError (List Text) → RedisPortStore S → Result PortError (Map ℕ PortMapping)
  unfolding read_batches
  desired listed s = do ks ← listed; read_batches (length ks) ks [] s.server

  -- The loop of `releaseByAgent`: the keys still to visit, and the ports released so far.
  unfoldable pub release_keys :
      Text → List Text → List ℕ → RedisPortStore S → RedisPortStore S × Result PortError (List ℕ)
  release_keys agent [] ports s = (s, ok ports)
  release_keys agent (key ∷ ks) ports s = elim (redis.read key s.server) [
    | err e ↦ (s, err e)
    | ok none ↦ release_keys agent ks ports s
    | ok (some value) ↦ elim (codec.decode value) [
      | none ↦ (s, err bad_mapping)
      | some mapping ↦ elim (port_from_key key) [
        | err e ↦ if mapping.agent_id == agent then (s, err e) else release_keys agent ks ports s
        | ok port ↦
            let deleted = redis.del key s.server in
            let s' = record s { server = deleted.0 } in
            if mapping.agent_id == agent
            then elim deleted.1 [
              | err e ↦ (s', err e)
              | ok true ↦ release_keys agent ks (ports ++ port ∷ []) (changed s')
              | ok false ↦ release_keys agent ks ports s'
            ]
            else release_keys agent ks ports s
      ]
    ]
  ]

  -- `releaseByAgent`, after `keys`.
  unfoldable pub release_by_agent :
      Text
      → Result PortError (List Text)
      → RedisPortStore S
      → RedisPortStore S × Result PortError (List ℕ)
  unfolding release_keys
  release_by_agent agent (err e) s = (s, err e)
  release_by_agent agent (ok ks) s = release_keys agent ks [] s
