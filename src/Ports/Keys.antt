-- ===== src/Ports/Keys.antt =====
-- The textual forms of pkg/controller/ports.go: `parsePortRange`, `portKey` and `portFromKey`.
use hostlink.Prelude.{
  ℕ, ◌≤◌, ◌<◌, ◌≡◌, ◌≢◌, List, [], ◌∷◌, ◌++◌, Text, codes, ◌==◌, arith, Result, ok, err, ◌>>=◌,
  ◌>>◌, fail_if, or_fail, All, nat_comparable,
}
use hostlink.Decimal.{
  parse_uint, format_uint, parse_uint-format_uint, parse_uint-le, format_uint-ge,
}
use hostlink.Strings.{split, split_whole, split_at, cut_prefix, cut_prefix-append}
use hostlink.Ports.{PortRange, PortError, validate_port_range, maximum_public_port}

-- `parsePort`
unfoldable pub parse_port : Text → Result PortError ℕ
parse_port s = or_fail (parse_uint 16 s) PortError.parse_port

range_of : Text → Text → Result PortError PortRange
range_of first last = do
  from ← parse_port first
  to ← parse_port last
  validate_port_range from to
  ok (record { from = from; to = to })

-- The body of `parsePortRange` on the parts: a single port is a range of one.
range_of_parts : List Text → Result PortError PortRange
unfolding range_of
range_of_parts [] = err PortError.invalid_port_range
range_of_parts (s ∷ []) = do
  from ← parse_port s
  validate_port_range from from
  ok (record { from = from; to = from })
range_of_parts (s ∷ t ∷ []) = range_of s t
range_of_parts (s ∷ t ∷ u ∷ parts) = err PortError.invalid_port_range

unfoldable pub parse_port_range : Text → Result PortError PortRange
unfolding range_of_parts
parse_port_range s = range_of_parts (split b'-' s)

abbrev pub port_key_prefix : Text
port_key_prefix = codes "hostlink:port:"

-- `portKey`
unfoldable pub port_key : ℕ → Text
port_key port = port_key_prefix ++ format_uint port

-- `portFromKey`
unfoldable pub port_from_key : Text → Result PortError ℕ
port_from_key key = do
  digits ← or_fail (cut_prefix port_key_prefix key) PortError.invalid_port_key
  port ← or_fail (parse_uint 16 digits) PortError.invalid_port_key
  fail_if (port == 0) PortError.invalid_port_key
  ok port

-- The key of every valid port is read back as that port.
pub port_from_key-port_key :
    (port : ℕ) → 0 < port → port ≤ maximum_public_port → port_from_key (port_key port) ≡ ok port
unfolding port_from_key port_key
port_from_key-port_key port pos le =
    rw (cut_prefix-append port_key_prefix (format_uint port), parse_uint-format_uint 16 port le)
      (ground arith)

-- A key that is read is the key of a valid port.
pub port_from_key_bounds :
    (key : Text) (port : ℕ)
    → port_from_key key ≡ ok port
    → (0 < port) × (port ≤ maximum_public_port)
unfolding port_from_key
port_from_key_bounds key port h = grind (arith, parse_uint-le)

no_dash : (s : Text) → All (λ c. 48 ≤ c) s → All (λ c. c ≢ b'-') s
no_dash [] a = tt
no_dash (c ∷ s) a = (omega arith, no_dash s a.1)

-- A range that is parsed is a range of valid ports.
pub parse_port_range_bounds :
    (s : Text) (r : PortRange)
    → parse_port_range s ≡ ok r
    → (0 < r.from) × (r.from ≤ r.to) × (r.to ≤ maximum_public_port)
unfolding parse_port_range parse_port validate_port_range
parse_port_range_bounds s r h = ground arith

-- The text `from-to` of two valid bounds in order is parsed as the range that it shows.
pub parse_port_range-format_uint :
    (from to : ℕ)
    → 0 < from
    → from ≤ to
    → to ≤ maximum_public_port
    → parse_port_range (format_uint from ++ b'-' ∷ format_uint to)
      ≡ ok (record { from = from; to = to })
unfolding parse_port_range parse_port validate_port_range
parse_port_range-format_uint from to pos le max =
    rw
      (
        split_at b'-' (format_uint from) (format_uint to) (no_dash _ (format_uint-ge from)),
        split_whole b'-' (format_uint to) (no_dash _ (format_uint-ge to)),
        parse_uint-format_uint 16 from (omega arith),
        parse_uint-format_uint 16 to (omega arith),
      )
      (ground arith)
