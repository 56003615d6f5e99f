-- ===== src/Session/Runs.antt =====
-- Whole runs of the collector's loop: what every round keeps holds at the end.
use netobserv_cli.Common.{
  ℕ, suc, ◌+◌, Bool, true, false, ltb, if◌then◌else◌, ◌≡◌, subst, List, [], ◌∷◌, Option, none, some,
  length,
}
use netobserv_cli.Text.{Bytes}
use netobserv_cli.GenericMap.{GenericMap}
use netobserv_cli.Extern.{Extern}
use netobserv_cli.Session.{
  Session, Input, Outcome, waiting, completed, crashed, session_step, collect, count_bytes,
}

-- A predicate of the session that an outcome leaves.
abbrev pub Holds : (Session → Type 0) → Outcome → Type 0
Holds P (waiting s) = P s
Holds P (completed s) = P s
Holds P crashed = Unit

pub Holds-completed :
    (P : Session → Type 0) (o : Outcome) (s : Session) → Holds P o → o ≡ completed s → P s
Holds-completed P o s h e = subst (Holds P) e h

module _ (ext : Extern) (json_map : Bytes → Option GenericMap) (max_bytes : ℕ) where
  -- The predicate may depend on how many inputs are left.
  pub collect-Holds :
      (P : ℕ → Session → Type 0)
      → ((n now : ℕ) (since : ℕ → ℕ) (i : Input) (s : Session)
          → P (suc n) s
          → Holds (P n) (session_step ext json_map max_bytes now since i s))
      → (inputs : List (ℕ × (ℕ → ℕ) × Input)) (s : Session) → P (length inputs) s
      → Holds (λ s'. (n : ℕ) × P n s') (collect ext json_map max_bytes inputs s)
  unfolding collect
  collect-Holds P keeps [] s h = (0, h)
  collect-Holds P keeps ((now, since, i) ∷ inputs) s h =
      by_round (session_step ext json_map max_bytes now since i s)
        (keeps (length inputs) now since i s h) (λ s' h'. collect-Holds P keeps inputs s' h')
    where
      by_round :
          (o : Outcome)
          → Holds (P (length inputs)) o
          → ((s' : Session)
              → P (length inputs) s'
              → Holds (λ t. (n : ℕ) × P n t) (collect ext json_map max_bytes inputs s'))
          → Holds
              (λ t. (n : ℕ) × P n t)
              (elim o as (λ _. Outcome) [
                | waiting s' ↦ collect ext json_map max_bytes inputs s'
                | completed s' ↦ completed s'
                | crashed ↦ crashed
              ])
      by_round (waiting s') h' further = further s' h'
      by_round (completed s') h' further = (length inputs, h')
      by_round crashed h' further = tt

-- A predicate of the session that a handler leaves, if it leaves one.
abbrev pub HoldsIn : (Session → Type 0) → Option Session → Type 0
HoldsIn P none = Unit
HoldsIn P (some s) = P s

-- The count of the bytes keeps what does not speak of it.
pub count_bytes-Holds :
    (ext : Extern) (json_map : Bytes → Option GenericMap) (max_bytes : ℕ) (P : Session → Type 0)
    → ((size : ℕ) (s : Session) → P s → P (record s { total_bytes = s.total_bytes + size }))
    → (size : ℕ) (s : Option Session) → HoldsIn P s
    → Holds P (count_bytes ext json_map max_bytes size s)
unfolding count_bytes
count_bytes-Holds ext json_map max_bytes P counts size none h = tt
count_bytes-Holds ext json_map max_bytes P counts size (some s) h =
    by_limit (ltb max_bytes (s.total_bytes + size))
  where
    by_limit :
        (over : Bool)
        → Holds P (
            if over
            then completed (record s { total_bytes = s.total_bytes + size })
            else waiting (record s { total_bytes = s.total_bytes + size }))
    by_limit true = counts size s h
    by_limit false = counts size s h
