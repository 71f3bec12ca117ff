-- ===== src/Rest/Routing.antt =====
-- pkg/controller/api.go, `dispatch`, with pkg/controller/registry.go: a request reaches the pod that
-- holds the agent.
use hostlink.Prelude.{
  ℕ, ◌≡◌, true, false, none, some, [], ◌==◌, Text, Result, ok, err, arith, text_comparable,
  nat_comparable, ==_refl,
}
use hostlink.Map.Laws.{get-put}
use hostlink.Registry.{Directory, DirectoryLaws, Registry, add, find, locate, mapping_key}
use hostlink.Rest.{DispatchError, not_connected, dispatch}

module _ {S : Type 0} (d : Directory S) where
  -- Two pods share the directory, with different addresses that are not empty. After an agent has
  -- connected to the second one, a dispatch there goes to that connection, and a dispatch at the
  -- first one, which does not hold the agent, is relayed to the second one's address, and without a
  -- peer plane it fails as not connected.
  pub dispatch_lem :
      {A : Type 0} (laws : DirectoryLaws d) (agent : Text) (conn : ℕ) (here there : Registry)
      (s : S) (local : ℕ → Result DispatchError A) (ask : Text → Result DispatchError A)
      → there.redis ≡ true
      → here.redis ≡ true
      → find d agent here ≡ none
      → (there.self_addr == []) ≡ false
      → (there.self_addr == here.self_addr) ≡ false
      → let ((held, s'), replaced) = add d agent conn there s in
        (dispatch local (some ask) (ok (locate d agent held s')) agent held ≡ local conn)
        × (dispatch local (some ask) (ok (locate d agent here s')) agent here ≡ ask there.self_addr)
        × (dispatch local none (ok (locate d agent here s')) agent here ≡ err not_connected)
  unfolding dispatch add locate
  dispatch_lem laws agent conn here there s local ask h1 h2 miss named other = ground (
    arith,
    get-put there.agents agent agent conn,
    ==_refl agent,
    ==_refl (mapping_key agent),
    laws.look_set (mapping_key agent) (mapping_key agent) there.self_addr s,
  )
