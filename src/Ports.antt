-- ===== src/Ports.antt =====
-- pkg/controller/ports.go: the data of the public port registry, shared by its stores and clients.
pub mod Keys
pub mod Watchers
pub mod Memory
pub mod Redis
pub mod Refinement
use hostlink.Prelude.{
  ◌≡◌, ◌≤◌, ◌<◌, ◌⊎◌, inl, inr, arith, ℕ, Bool, Text, Result, ok, err, fail_if, ltb, ◌==◌, ◌||◌,
  nat_comparable,
}

-- `portMapping`
pub record PortMapping : Type 0 where
  pub agent_id : Text
  pub target : Text
  pub container_id : Text
  pub suspended : Bool

-- The errors of a port store: its two sentinels, and the ones that only carry a message.
pub data PortError : Type 0 where
  port_range_exhausted port_not_found invalid_port_range invalid_port_key : PortError
  parse_port redis_failed bad_mapping : PortError

-- `portRange`; the bounds are uint32
pub record PortRange : Type 0 where
  pub from : ℕ
  pub to : ℕ

abbrev pub maximum_public_port : ℕ
maximum_public_port = 65535

-- `validatePortRange`
unfoldable pub validate_port_range : ℕ → ℕ → Result PortError (Unit {0})
validate_port_range from to =
    fail_if (from == 0 || ltb maximum_public_port to || ltb to from) PortError.invalid_port_range

-- A range is refused, or it is a range of valid ports.
pub validate_port_range_cases :
    (from to : ℕ)
    → (validate_port_range from to ≡ err PortError.invalid_port_range)
      ⊎ ((validate_port_range from to ≡ ok tt)
          × (0 < from)
          × (from ≤ to)
          × (to ≤ maximum_public_port))
unfolding validate_port_range
validate_port_range_cases from to = ground arith
