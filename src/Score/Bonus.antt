-- ===== src/Score/Bonus.antt =====
-- The bonus for packets that are near in time.
use netobserv_cli.Common.{ℕ, ◌≤◌, Option, none, some, arith, leb, if◌then◌else◌}
use netobserv_cli.Score.{
  BufferedWirePacket, PendingPlaintext, proximity, event_time_bonus, time_correlation_bonus,
  receive_time_delta, score_time_bonus_max, plaintext_correlation_window,
}

by_receipt-le : (delta : ℕ) → proximity plaintext_correlation_window delta ≤ score_time_bonus_max
unfolding proximity
by_receipt-le delta = omega arith

event_time_bonus-le : (event packet : ℕ) → event_time_bonus event packet ≤ score_time_bonus_max
unfolding event_time_bonus proximity
event_time_bonus-le event packet = ground arith

-- The time bonus is at most 10.
pub time_correlation_bonus-le :
    (pkt : BufferedWirePacket) (pt : PendingPlaintext)
    → time_correlation_bonus pkt pt ≤ score_time_bonus_max
unfolding time_correlation_bonus
time_correlation_bonus-le pkt pt = by_times pkt.packet_time pt.event_time
  where
    by_receipt : ℕ
    by_receipt =
        if leb (receive_time_delta pkt pt) plaintext_correlation_window
        then proximity plaintext_correlation_window (receive_time_delta pkt pt)
        else 0

    by_receipt_le : by_receipt ≤ score_time_bonus_max
    by_receipt_le = ground (arith, by_receipt-le (receive_time_delta pkt pt))

    by_times :
        (a b : Option ℕ)
        → (elim a as (λ _. ℕ) [
          | none ↦ by_receipt
          | some packet ↦ elim b as (λ _. ℕ) [
            | none ↦ by_receipt
            | some event ↦ event_time_bonus event packet
          ]
        ])
          ≤ score_time_bonus_max
    by_times none b = by_receipt_le
    by_times (some a) none = by_receipt_le
    by_times (some packet) (some event) = event_time_bonus-le event packet
