-- ===== src/Session/Counts.antt =====
-- What is counted of a session: the lines of the plaintext log, the packets of the capture file, and
-- the packets that were shown.
use netobserv_cli.Common.{
  ℕ, ◌+◌, ◌≡◌, Bool, ◌&&◌, List, [], ◌∷◌, ◌++◌, Option, none, some, arith, ltb, leb, ◌==◌,
  if◌then◌else◌,
}
use netobserv_cli.Text.{Bytes, codes}
use netobserv_cli.GenericMap.{GenericMap, Value, str, lookup}
use netobserv_cli.Extern.{Extern}
use netobserv_cli.WireBuffer.Defs.{Buffer}
use netobserv_cli.WireBuffer.Identity.{Arrival}
use netobserv_cli.WireBuffer.Conservation.{
  sent_packets, sent_records, held_packets, held_records, IsWired,
}
use netobserv_cli.Session.{is_plaintext_record}

-- The record's number is one of those from 1 to `last`.
unfoldable pub numbered : ℕ → ℕ → ℕ
numbered k last = if ltb 0 k && leb k last then 1 else 0

pub numbered-next :
    (k last : ℕ) → numbered k (last + 1) ≡ numbered k last + (if last + 1 == k then 1 else 0)
unfolding numbered
numbered-next k last = ground arith

-- How many lines stand under a number.
unfoldable pub count_lines : ℕ → List (ℕ × GenericMap) → ℕ
count_lines k [] = 0
count_lines k ((id, m) ∷ lines) = (if id == k then 1 else 0) + count_lines k lines

pub count_lines-snoc :
    (k : ℕ) (lines : List (ℕ × GenericMap)) (id : ℕ) (m : GenericMap)
    → count_lines k (lines ++ (id, m) ∷ []) ≡ count_lines k lines + (if id == k then 1 else 0)
unfolding count_lines
count_lines-snoc k [] id m = omega arith
count_lines-snoc k ((i, x) ∷ lines) id m = omega (arith, count_lines-snoc k lines id m)

-- What a buffer has sent and holds, if there is one.
unfoldable pub sent_lines : ℕ → Option Buffer → ℕ
sent_lines k none = 0
sent_lines k (some b) = sent_records k b.trace

unfoldable pub held_lines : ℕ → Option Buffer → ℕ
held_lines k none = 0
held_lines k (some b) = held_records k b.pending

abbrev pub AllWired : Option Buffer → Type 0
AllWired none = Unit
AllWired (some b) = IsWired b

-- A test of a packet's map and its frame.
module _ (p : GenericMap → Bytes → Bool) where
  abbrev pub of_arrival : Arrival → Bool
  of_arrival a = p a.generic_map a.frame

  unfoldable pub count_frames : List (GenericMap × Bytes) → ℕ
  count_frames [] = 0
  count_frames ((m, frame) ∷ frames) = (if p m frame then 1 else 0) + count_frames frames

  pub count_frames-snoc :
      (frames : List (GenericMap × Bytes)) (m : GenericMap) (frame : Bytes)
      → count_frames (frames ++ (m, frame) ∷ [])
        ≡ count_frames frames + (if p m frame then 1 else 0)
  unfolding count_frames
  count_frames-snoc [] m frame = omega arith
  count_frames-snoc ((x, f) ∷ frames) m frame = omega (arith, count_frames-snoc frames m frame)

  unfoldable pub sent_frames : Option Buffer → ℕ
  sent_frames none = 0
  sent_frames (some b) = sent_packets of_arrival b.trace

  unfoldable pub held_frames : Option Buffer → ℕ
  held_frames none = 0
  held_frames (some b) = held_packets of_arrival b.packets

  unfoldable pub frame_weight : GenericMap → Option Bytes → ℕ
  frame_weight m none = 0
  frame_weight m (some frame) = if p m frame then 1 else 0

  module _ (ext : Extern) where
    -- The packet that a map holds, if it has one that decodes.
    unfoldable pub data_weight : GenericMap → Option Value → ℕ
    unfolding frame_weight
    data_weight m (some (str data_b64)) = frame_weight m (ext.decode_base64 data_b64)
    data_weight m _ = 0

    unfoldable pub map_weight : GenericMap → ℕ
    unfolding data_weight
    map_weight m = if is_plaintext_record m then 0 else data_weight m (lookup (codes "Data") m)

    -- How many packets that pass were shown.
    unfoldable pub shown_packets : List GenericMap → ℕ
    unfolding map_weight
    shown_packets [] = 0
    shown_packets (m ∷ shown) = map_weight m + shown_packets shown

    pub shown_packets-snoc :
        (shown : List GenericMap) (m : GenericMap)
        → shown_packets (shown ++ m ∷ []) ≡ shown_packets shown + map_weight m
    unfolding shown_packets
    shown_packets-snoc [] m = omega arith
    shown_packets-snoc (x ∷ shown) m = omega (arith, shown_packets-snoc shown m)
