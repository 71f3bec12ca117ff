-- ===== src/Registry.antt =====
-- pkg/controller/registry.go, `registry`: the agents connected here, and the directory in redis that
-- tells the other replicas which pod holds an agent. Redis is a parameter: `SET`, `GET` and `DEL`,
-- without expiry and errors. A connection is named by a number.
use hostlink.Prelude.{
  ℕ, Bool, true, false, Option, none, some, [], if◌then◌else◌, ◌==◌, Text, nat_comparable,
  text_comparable, ◌≡◌, arith, codes, ◌++◌, ==_refl,
}
use hostlink.Map.{Map, get, put, delete}
use hostlink.Map.Laws.{get-put, get-delete}

abbrev pub mapping_key_prefix : Text
mapping_key_prefix = codes "hostlink:agent:"

-- `mappingKey`
abbrev pub mapping_key : Text → Text
mapping_key agent = mapping_key_prefix ++ agent

pub record Directory (S : Type 0) : Type 0 where
  pub set : Text → Text → S → S
  pub look : S → Text → Option Text
  pub del : Text → S → S

pub record Registry : Type 0 where
  pub redis : Bool  -- whether a redis client is configured
  pub self_addr : Text
  pub agents : Map Text ℕ

-- What redis documents of the commands, without expiry.
pub record DirectoryLaws {S : Type 0} (d : Directory S) : Type 0 where
  pub look_set :
      (k j v : Text) (s : S) → d.look (d.set k v s) j ≡ (if k == j then some v else d.look s j)
  pub look_del : (k j : Text) (s : S) → d.look (d.del k s) j ≡ (if k == j then none else d.look s j)

module _ {S : Type 0} (d : Directory S) where
  -- `writeMapping`
  unfoldable pub write_mapping : Text → Registry → S → S
  write_mapping agent r s = if r.redis then d.set (mapping_key agent) r.self_addr s else s

  -- `dropMappingScript`
  unfoldable pub drop_mapping_script : Text → Text → S → S
  drop_mapping_script key value s = elim (d.look s key) [
    | none ↦ s
    | some v ↦ if v == value then d.del key s else s
  ]

  -- `dropMapping`
  unfoldable pub drop_mapping : Text → Registry → S → S
  unfolding drop_mapping_script
  drop_mapping agent r s =
      if r.redis then drop_mapping_script (mapping_key agent) r.self_addr s else s

  -- `add`: with the connection that it replaces.
  unfoldable pub add : Text → ℕ → Registry → S → (Registry × S) × Option ℕ
  unfolding write_mapping
  add agent conn r s =
      ((record r { agents = put r.agents agent conn }, write_mapping agent r s), get r.agents agent)

  abbrev pub points_to : Option ℕ → ℕ → Bool
  points_to none conn = false
  points_to (some c) conn = c == conn

  -- `remove`
  unfoldable pub remove : Text → ℕ → Registry → S → Registry × S
  unfolding drop_mapping
  remove agent conn r s =
      if points_to (get r.agents agent) conn
      then (record r { agents = delete r.agents agent }, drop_mapping agent r s)
      else (r, s)

  -- `get`
  abbrev pub find : Text → Registry → Option ℕ
  find agent r = get r.agents agent

  -- `refresh`
  abbrev pub refresh : Text → Registry → S → S
  refresh agent r s = write_mapping agent r s

  -- `locate`: the empty address where there is no mapping.
  unfoldable pub locate : Text → Registry → S → Text
  locate agent r s =
      if r.redis then (elim (d.look s (mapping_key agent)) [ none ↦ [] | some addr ↦ addr ]) else []

  -- A reconnect takes over: the agent is found at the new connection, the directory names this pod,
  -- the old connection's teardown changes neither, and the new one's frees the agent and its entry.
  pub reconnect_lem :
      (laws : DirectoryLaws d) (agent : Text) (old new : ℕ) (r : Registry) (s : S)
      → r.redis ≡ true
      → get r.agents agent ≡ some old
      → (old == new) ≡ false
      → let ((r1, s1), replaced) = add agent new r s in
        (replaced ≡ some old)
        × (find agent r1 ≡ some new)
        × (locate agent r1 s1 ≡ r.self_addr)
        × (remove agent old r1 s1 ≡ (r1, s1))
        × (let (r2, s2) = remove agent new r1 s1 in
            (find agent r2 ≡ none) × (locate agent r2 s2 ≡ []))
  unfolding add remove locate
  reconnect_lem laws agent old new r s redis here differ = ground (
    arith,
    get-put r.agents agent agent new,
    ==_refl agent,
    ==_refl new,
    get-delete (put r.agents agent new) agent agent,
    ==_refl (mapping_key agent),
    laws.look_set (mapping_key agent) (mapping_key agent) r.self_addr s,
    laws.look_del (mapping_key agent) (mapping_key agent) (d.set (mapping_key agent) r.self_addr s),
    ==_refl r.self_addr,
  )

  -- A pod's teardown leaves the directory to the pod that has taken the agent over: the entry of
  -- another address stays.
  pub remove_lem :
      (agent addr : Text) (conn : ℕ) (r : Registry) (s : S)
      → d.look s (mapping_key agent) ≡ some addr
      → (addr == r.self_addr) ≡ false
      → d.look (remove agent conn r s).1 (mapping_key agent) ≡ some addr
  unfolding remove
  remove_lem agent addr conn r s there other = ground arith
