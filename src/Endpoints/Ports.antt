-- ===== src/Endpoints/Ports.antt =====
-- The ports that a record gives are ports.
use netobserv_cli.Common.{ℕ, ◌≡◌, ◌≤◌, some, arith}
use netobserv_cli.Common.Int.{ℤ, pos, negsuc}
use netobserv_cli.Text.{Bytes, trim_space}
use netobserv_cli.Text.Numbers.{parse_uint-le}
use netobserv_cli.GenericMap.{
  Value, str, float64, uint16, int, int64, null, uint64, bool, slice, object, truncate,
}
use netobserv_cli.Endpoints.{
  before_paren, max_port, port_in_range, parse_port_string, port_of_value,
}

-- What Go's types guarantee: a `uint16` is below 2 to the 16.
unfoldable pub IsWidth : Value → Type 0
IsWidth (uint16 v) = v ≤ max_port
IsWidth _ = Unit

port_in_range-le : (v : ℤ) (p : ℕ) → port_in_range v ≡ some p → p ≤ max_port
unfolding port_in_range
port_in_range-le (pos v) p e = ground arith
port_in_range-le (negsuc v) p e = cc

pub parse_port_string-le : (s : Bytes) (p : ℕ) → parse_port_string s ≡ some p → p ≤ max_port
unfolding parse_port_string
parse_port_string-le s p e =
    ground (arith, parse_uint-le max_port (trim_space (before_paren s)) {r = p})

-- A value that gives a port, of whatever type it is, gives one of at most 65535, given that a
-- `uint16` does not exceed it.
pub port_of_value-le : (v : Value) (p : ℕ) → IsWidth v → port_of_value v ≡ some p → p ≤ max_port
unfolding port_of_value IsWidth
port_of_value-le (str s) p w e = parse_port_string-le s p e
port_of_value-le (float64 v) p w e = port_in_range-le (truncate v) p e
port_of_value-le (uint16 v) p w e = ground arith
port_of_value-le (int v) p w e = port_in_range-le v p e
port_of_value-le (int64 v) p w e = port_in_range-le v p e
port_of_value-le null p w e = cc
port_of_value-le (uint64 n) p w e = cc
port_of_value-le (bool b) p w e = cc
port_of_value-le (slice i) p w e = cc
port_of_value-le (object f) p w e = cc
