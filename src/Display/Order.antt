-- ===== src/Display/Order.antt =====
-- How the table orders flows: `toFloat64` of cmd/map_format.go, `packetFlowTimeMs`,
-- `packetFlowIndex`, `comparePacketFlows` and the orders of `AppendFlow` in cmd/flow_display.go.
use netobserv_cli.Common.{
  ℕ, ◌+◌, ◌*◌, ◌^◌, ◌≤◌, ◌<◌, ◌≡◌, Bool, true, false, ◌||◌, Option, none, some, arith,
  if◌then◌else◌,
}
use netobserv_cli.Common.Int.{ℤ, pos, negsuc, pos_part, neg_part, sub_ℕ, ltb_ℤ, ◌≤ℤ◌, ltb→≤ℤ}
use netobserv_cli.Text.{Bytes, codes}
use netobserv_cli.GenericMap.{GenericMap, Value, Float, float64, int, lookup, whole, positive}
use native.Mathlib.Nat.{one-le-pow, le_of_mul-le-mul_right, mul-le-mul_right}

-- Which command runs.
pub data Capture : Type 0 where
  flows packets metrics : Capture

-- `n * 2 ^ scale` and `-n * 2 ^ scale`.
abbrev scale_ℤ : ℤ → ℕ → ℤ
scale_ℤ n d = sub_ℕ (pos_part n * d) (neg_part n * d)

-- `a < b` on float64 values, which are finite.
unfoldable pub less_float : Float → Float → Bool
less_float a b = ltb_ℤ (scale_ℤ a.num (2 ^ b.scale)) (scale_ℤ b.num (2 ^ a.scale))

-- `v * 1000`, which is exact for the times of a capture.
unfoldable pub thousandfold : Float → Float
thousandfold v = record { num = scale_ℤ v.num 1000; scale = v.scale }

-- `toFloat64`: 0 where the field is missing, and `none` where the type assertion fails.
unfoldable pub float_of : Option Value → Option Float
float_of none = some (whole 0)
float_of (some (float64 v)) = some v
float_of (some _) = none

unfoldable pub to_float64 : GenericMap → Bytes → Option Float
unfolding float_of
to_float64 m field_name = float_of (lookup field_name m)

-- What two flows are compared by: the time, and then the index.
pub record Key : Type 0 where
  pub time : Float
  pub index : ℤ

-- The start, if it is positive, or else the thousandfold of the time in seconds.
unfoldable pub start_or_time : Option Float → Option Float → Option Float
unfolding thousandfold positive
start_or_time none time = none
start_or_time (some t) none = if positive t.num then some t else none
start_or_time (some t) (some s) = if positive t.num then some t else some (thousandfold s)

-- `packetFlowTimeMs`.
unfoldable pub packet_flow_time_ms : GenericMap → Option Float
unfolding to_float64 start_or_time
packet_flow_time_ms m =
    start_or_time (to_float64 m (codes "TimeFlowStartMs")) (to_float64 m (codes "Time"))

unfoldable pub index_of : Option Value → ℤ
index_of (some (int n)) = n
index_of _ = pos 0

-- `packetFlowIndex`.
unfoldable pub packet_flow_index : GenericMap → ℤ
unfolding index_of
packet_flow_index m = index_of (lookup (codes "Index") m)

unfoldable pub key_at : ℤ → Option Float → Option Key
key_at i none = none
key_at i (some t) = some (record { time = t; index = i })

-- What a capture compares a flow by; the flows of `flows` and `metrics` have their time alone.
unfoldable pub flow_key : Capture → GenericMap → Option Key
unfolding to_float64 packet_flow_time_ms packet_flow_index key_at
flow_key Capture.flows m = key_at (pos 0) (to_float64 m (codes "TimeFlowEndMs"))
flow_key Capture.packets m = key_at (packet_flow_index m) (packet_flow_time_ms m)
flow_key Capture.metrics m = key_at (pos 0) (to_float64 m (codes "Time"))

-- `comparePacketFlows` on the keys.
unfoldable pub less_key : Key → Key → Bool
unfolding less_float
less_key a b =
    if less_float a.time b.time || less_float b.time a.time
    then less_float a.time b.time
    else ltb_ℤ a.index b.index

-- The key of a flow whose type assertions hold, and any key where one fails.
unfoldable pub key_or_zero : Option Key → Key
key_or_zero none = record { time = whole 0; index = pos 0 }
key_or_zero (some k) = k

-- The function that the slices are sorted by.
unfoldable pub less_flows : Capture → GenericMap → GenericMap → Bool
unfolding less_key flow_key key_or_zero
less_flows c a b = less_key (key_or_zero (flow_key c a)) (key_or_zero (flow_key c b))

two_pow_pos : (n : ℕ) → 0 < 2 ^ n
two_pow_pos n = one-le-pow n 2 (omega arith)

-- Fractions compare as they do over a common denominator.
cross_trans :
    (p n q m r s a b c : ℕ)
    → 0 < b
    → p * b + m * a ≤ q * a + n * b
    → q * c + s * b ≤ r * b + m * c
    → p * c + s * a ≤ r * a + n * c
cross_trans p n q m r s a b c h x y =
    le_of_mul-le-mul_right (omega (arith, mul-le-mul_right c x, mul-le-mul_right a y)) h

≤ℤ→ltb : (a b : ℤ) → b ≤ℤ a → ltb_ℤ a b ≡ false
≤ℤ→ltb a b h = ground arith

scale_parts :
    (n : ℤ) (d : ℕ)
    → (pos_part (scale_ℤ n d) ≡ pos_part n * d) × (neg_part (scale_ℤ n d) ≡ neg_part n * d)
scale_parts (pos n) d = (ground arith, ground arith)
scale_parts (negsuc n) d = (ground arith, ground arith)

-- `a` is at most `b`.
abbrev AtMost : Float → Float → Type 0
AtMost a b =
    pos_part a.num * 2 ^ b.scale + neg_part b.num * 2 ^ a.scale
    ≤ pos_part b.num * 2 ^ a.scale + neg_part a.num * 2 ^ b.scale

not_less→AtMost : (a b : Float) → less_float b a ≡ false → AtMost a b
unfolding less_float
not_less→AtMost a b h =
    let x = scale_parts a.num (2 ^ b.scale) in
    let y = scale_parts b.num (2 ^ a.scale) in
    omega (
      arith,
      ltb→≤ℤ (scale_ℤ b.num (2 ^ a.scale)) (scale_ℤ a.num (2 ^ b.scale)) h,
      x.0,
      x.1,
      y.0,
      y.1,
    )

AtMost→not_less : (a b : Float) → AtMost a b → less_float b a ≡ false
unfolding less_float
AtMost→not_less a b h =
    let x = scale_parts a.num (2 ^ b.scale) in
    let y = scale_parts b.num (2 ^ a.scale) in
    ≤ℤ→ltb (scale_ℤ b.num (2 ^ a.scale)) (scale_ℤ a.num (2 ^ b.scale))
      (omega (arith, h, x.0, x.1, y.0, y.1))

less_float_trans :
    (a b c : Float) → less_float b a ≡ false → less_float c b ≡ false → less_float c a ≡ false
less_float_trans a b c h k = AtMost→not_less a c (
    cross_trans (pos_part a.num) (neg_part a.num) (pos_part b.num) (neg_part b.num) (pos_part c.num)
      (neg_part c.num) (2 ^ a.scale) (2 ^ b.scale) (2 ^ c.scale) (two_pow_pos b.scale)
      (not_less→AtMost a b h) (not_less→AtMost b c k))

less_float_asym : (a b : Float) → less_float a b ≡ true → less_float b a ≡ false
unfolding less_float
less_float_asym a b h = ground arith

-- The keys are compared by the time, and then by the index.
not_less_key :
    (k l : Key)
    → less_key l k ≡ false
    → (less_float l.time k.time ≡ false)
      × ((less_float k.time l.time ≡ false) → ltb_ℤ l.index k.index ≡ false)
unfolding less_key
not_less_key k l h = ground (arith, h, less_float_asym l.time k.time)

less_key_trans : (k l m : Key) → less_key l k ≡ false → less_key m l ≡ false → less_key m k ≡ false
unfolding less_key
less_key_trans k l m h g =
    let x = not_less_key k l h in
    let y = not_less_key l m g in
    ground (
      arith,
      x,
      y,
      less_float_trans k.time l.time m.time x.0 y.0,
      less_float_trans l.time m.time k.time y.0,
      less_float_trans m.time k.time l.time,
    )

less_key_asym : (k l : Key) → less_key k l ≡ true → less_key l k ≡ false
unfolding less_key
less_key_asym k l h = ground (arith, less_float_asym k.time l.time)

-- What `sort.Slice` asks of a function that it sorts by: it is a strict weak order.
pub record StrictWeak (less : GenericMap → GenericMap → Bool) : Type 0 where
  pub asym : (a b : GenericMap) → less a b ≡ true → less b a ≡ false
  pub trans : (a b c : GenericMap) → less b a ≡ false → less c b ≡ false → less c a ≡ false

-- The comparison of flows is one, in each command.
pub less_flows-StrictWeak : (c : Capture) → StrictWeak (less_flows c)
unfolding less_flows
less_flows-StrictWeak c = record {
  asym = λ a b h. less_key_asym (key_or_zero (flow_key c a)) (key_or_zero (flow_key c b)) h;
  trans = λ a b d h k.
      less_key_trans (key_or_zero (flow_key c a)) (key_or_zero (flow_key c b))
        (key_or_zero (flow_key c d)) h k;
}
