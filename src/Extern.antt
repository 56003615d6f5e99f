-- ===== src/Extern.antt =====
-- What the program takes from packages that are not in the repository: `net` addresses, base64,
-- JSON decoding, gopacket's layers and the Unicode tables. It is a parameter of the model.
use netobserv_cli.Common.{ℕ, Bool, List, Option}
use netobserv_cli.Text.{Bytes}
use netobserv_cli.GenericMap.{Value}

-- `net.IPNet`, whose two parts are byte slices.
pub record IpNet : Type 0 where
  pub ip : Bytes
  pub mask : Bytes

-- The layer at which gopacket starts to decode a frame.
pub data LayerType : Type 0 where
  ethernet linux_sll ipv4 ipv6 : LayerType

-- `packet.Layer(layers.LayerTypeTCP)`: no such layer, a layer of another Go type, or the payload of
-- a `*layers.TCP`.
pub data TcpLayer : Type 0 where
  absent : TcpLayer
  foreign : TcpLayer
  tcp : Bytes → TcpLayer

pub record Extern : Type 0 where
  -- `net.ParseIP`; a `net.IP` is a byte slice, and nil is `none`.
  pub parse_ip : Bytes → Option Bytes
  -- `net.IP.String`.
  pub ip_string : Bytes → Bytes
  -- `net.IP.IsUnspecified`.
  pub is_unspecified : Bytes → Bool
  -- `net.ParseCIDR`, the network.
  pub parse_cidr : Bytes → Option IpNet
  -- `net.IPNet.Contains`.
  pub net_contains : IpNet → Bytes → Bool
  -- `base64.StdEncoding.DecodeString`.
  pub decode_base64 : Bytes → Option Bytes
  -- `json.Unmarshal` into a `map[string]json.RawMessage`, in the order of Go's iteration.
  pub json_object : Bytes → Option (List (Bytes × Bytes))
  -- `json.Unmarshal` into a string.
  pub json_string : Bytes → Option Bytes
  -- `gopacket.NewPacket(frame, layer, Default).Layer(TCP)`.
  pub tcp_layer : LayerType → Bytes → TcpLayer
  -- `fmt.Sprintf("%v", v)`.
  pub print_value : Value → Bytes
  -- `unicode.IsPrint`.
  pub is_print : ℕ → Bool
