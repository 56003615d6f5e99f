-- ===== src/FlowCapture/Limits.antt =====
-- How the limits end a flow capture.
use netobserv_cli.Common.{
  ℕ, zero, suc, ◌+◌, ◌≡◌, ◌≤◌, refl, sym, ap, subst, Bool, true, false, not, List, [], ◌∷◌, ◌++◌,
  Option, none, some, arith, ltb, ◌<◌, if◌then◌else◌, if_true, if_false, ◌∙◌,
}
use netobserv_cli.FlowCapture.{
  Lifecycle, on_limit_reached, Collector, Arrival, Outcome, waiting, returned, check_limit,
  check_limits, after_write, flow_round, collect_flows,
}

-- The answers to so many calls of `onLimitReached` in a row, and the globals after them.
unfoldable pub limit_calls : ℕ → Lifecycle → List Bool × Lifecycle
unfolding on_limit_reached
limit_calls zero l = ([], l)
limit_calls (suc n) l =
    let (answer, l') = on_limit_reached l in
    let (answers, last) = limit_calls n l' in (answer ∷ answers, last)

-- How many of the calls are told to exit.
unfoldable pub exits : List Bool → ℕ
exits [] = 0
exits (b ∷ bs) = (if b then 1 else 0) + exits bs

ended_calls :
    (n : ℕ) (l : Lifecycle)
    → l.capture_ended ≡ true
    → (exits (limit_calls n l).0 ≡ 0) × ((limit_calls n l).1 ≡ l)
unfolding limit_calls exits on_limit_reached
ended_calls zero l h = (refl, refl)
ended_calls (suc n) l h =
    let e : on_limit_reached l ≡ (false, l) = if_true _ _ h in
    let ih = ended_calls n l h in
    (
      subst (λ (r : Bool × Lifecycle). exits (r.0 ∷ (limit_calls n r.1).0) ≡ 0) (sym e)
          (omega (arith, ih.0)),
      subst (λ (r : Bool × Lifecycle). (limit_calls n r.1).1 ≡ l) (sym e) ih.1,
    )

-- The globals after the first call.
abbrev pub ended : Lifecycle → Lifecycle
ended l = record l {
  capture_ended = true;
  app_stops = if l.shows_display then suc l.app_stops else l.app_stops;
  daemonset_deletions =
      if l.is_background then suc l.daemonset_deletions else l.daemonset_deletions;
}

bool_cost :
    (b : Bool) (n d : ℕ)
    → n ≡ 0
    → ((if not b then 1 else 0) + n ≡ (if b then 0 else 1))
      × ((if b then suc d else d) ≡ d + (if b then 1 else 0))
bool_cost true n d h = (omega (arith, h), omega arith)
bool_cost false n d h = (omega (arith, h), omega arith)

-- However often the limits are reached by a capture that has not ended: with a display, the first
-- caller alone is told to exit, and in the background none is; the DaemonSet is deleted once in the
-- background, and not at all with a display.
pub limit_reached_once :
    (n : ℕ) (l : Lifecycle)
    → l.capture_ended ≡ false
    → (exits (limit_calls (suc n) l).0 ≡ (if l.is_background then 0 else 1))
      × ((limit_calls (suc n) l).1.capture_ended ≡ true)
      × ((limit_calls (suc n) l).1.daemonset_deletions
          ≡ l.daemonset_deletions + (if l.is_background then 1 else 0))
unfolding limit_calls exits on_limit_reached
limit_reached_once n l h =
    let e : on_limit_reached l ≡ (not l.is_background, ended l) = if_false _ _ h in
    let ih = ended_calls n (ended l) refl in
    let cost =
      bool_cost l.is_background (exits (limit_calls n (ended l)).0) l.daemonset_deletions ih.0 in
    let Once = λ (r : Bool × Lifecycle).
      (exits (r.0 ∷ (limit_calls n r.1).0) ≡ (if l.is_background then 0 else 1))
      × ((limit_calls n r.1).1.capture_ended ≡ true)
      × ((limit_calls n r.1).1.daemonset_deletions
          ≡ l.daemonset_deletions + (if l.is_background then 1 else 0)) in
    subst Once (sym e) (
      cost.0,
      ap (λ (r : Lifecycle). r.capture_ended) ih.1,
      ap (λ (r : Lifecycle). r.daemonset_deletions) ih.1 ∙ cost.1,
    )

module _ (max_bytes max_time : ℕ) where
  -- A round that leaves the collector waiting, with a display whose capture has not ended.
  record IsRunning (s : Collector) : Type 0 where
    not_ended : s.lifecycle.capture_ended ≡ false
    with_display : s.lifecycle.is_background ≡ false
    within : s.total_bytes ≤ max_bytes

  -- A round that leaves the collector waiting leaves it running, with so many bytes; nothing is asked
  -- of a collector that has returned.
  abbrev RunningIf : ℕ → Outcome → Type 0
  RunningIf total (waiting r) = IsRunning r × (r.total_bytes ≡ total)
  RunningIf total (returned r) = Unit

  check_limit-exit :
      (s : Collector)
      → s.lifecycle.capture_ended ≡ false
      → s.lifecycle.is_background ≡ false
      → (check_limit true s).0 ≡ true
  unfolding check_limit on_limit_reached
  check_limit-exit s e b = ap (λ (r : Bool × Lifecycle). r.0) (if_false _ _ e) ∙ ap not b

  check_limits-RunningIf :
      (elapsed : ℕ) (s : Collector)
      → s.lifecycle.capture_ended ≡ false
      → s.lifecycle.is_background ≡ false
      → RunningIf s.total_bytes (check_limits max_bytes max_time elapsed s)
  unfolding check_limits
  check_limits-RunningIf elapsed s e b =
      by_tests (ltb max_bytes s.total_bytes) refl (ltb max_time elapsed)
    where
      by_tests :
          (over : Bool)
          → ltb max_bytes s.total_bytes ≡ over
          → (late : Bool)
          → RunningIf s.total_bytes (
              let by_size = check_limit over s in
              let by_time = check_limit late by_size.1 in
              if by_size.0
              then returned by_size.1
              else if by_time.0
              then returned by_time.1
              else waiting by_time.1)
      by_tests true o late =
          subst (RunningIf s.total_bytes) (sym (if_true _ _ (check_limit-exit s e b))) tt
      by_tests false o true =
          subst (RunningIf s.total_bytes) (sym (if_true _ _ (check_limit-exit s e b))) tt
      by_tests false o false =
          (record { not_ended = e; with_display = b; within = ground (arith, o) }, refl)

  -- The bytes of a line, none if it could not be written.
  unfoldable pub line_bytes : Option ℕ → ℕ
  line_bytes none = 0
  line_bytes (some bytes) = bytes

  unfoldable pub all_bytes : List Arrival → ℕ
  unfolding line_bytes
  all_bytes [] = 0
  all_bytes (a ∷ arrivals) = line_bytes a.written_bytes + all_bytes arrivals

  flow_round-RunningIf :
      (a : Arrival) (s : Collector)
      → IsRunning s
      → RunningIf (s.total_bytes + line_bytes a.written_bytes) (flow_round max_bytes max_time a s)
  unfolding flow_round after_write line_bytes
  flow_round-RunningIf a s h = by_stop a.stop_received a.written_bytes
    where
      by_stop :
          (b : Bool) (w : Option ℕ)
          → RunningIf (s.total_bytes + line_bytes w) (
              if b
              then returned s
              else after_write max_bytes max_time a.value a.elapsed w (record s {
                started = s.started ++ a.value ∷ [];
                stored = if a.is_stored then s.stored ++ a.value ∷ [] else s.stored;
              }))
      by_stop true w = tt
      by_stop false none = tt
      by_stop false (some bytes) = check_limits-RunningIf a.elapsed _ h.not_ended h.with_display

  collect_flows-RunningIf :
      (arrivals : List Arrival) (s : Collector)
      → IsRunning s
      → RunningIf (s.total_bytes + all_bytes arrivals) (collect_flows max_bytes max_time arrivals s)
  unfolding collect_flows all_bytes
  collect_flows-RunningIf [] s h = (h, omega arith)
  collect_flows-RunningIf (a ∷ arrivals) s h =
      by_round (flow_round max_bytes max_time a s) (flow_round-RunningIf a s h)
        (λ r w. collect_flows-RunningIf arrivals r w)
    where
      by_round :
          (o : Outcome)
          → RunningIf (s.total_bytes + line_bytes a.written_bytes) o
          → ((r : Collector)
              → IsRunning r
              → RunningIf
                  (r.total_bytes + all_bytes arrivals)
                  (collect_flows max_bytes max_time arrivals r))
          → RunningIf
              (s.total_bytes + (line_bytes a.written_bytes + all_bytes arrivals))
              (elim o as (λ _. Outcome) [
                | waiting r ↦ collect_flows max_bytes max_time arrivals r
                | returned r ↦ returned r
              ])
      by_round (waiting r) x further =
          let e : r.total_bytes + all_bytes arrivals
              ≡ s.total_bytes + (line_bytes a.written_bytes + all_bytes arrivals) =
            omega (arith, x.1) in
          subst (λ n. RunningIf n (collect_flows max_bytes max_time arrivals r)) e (further r x.0)
      by_round (returned r) x further = tt

  -- A flow capture with a display that starts within its limit has returned once its lines have more
  -- bytes than the limit.
  pub display_capture_returns :
      (arrivals : List Arrival) (s : Collector)
      → s.lifecycle.capture_ended ≡ false
      → s.lifecycle.is_background ≡ false
      → s.total_bytes ≤ max_bytes
      → max_bytes < s.total_bytes + all_bytes arrivals
      → (r : Collector) × (collect_flows max_bytes max_time arrivals s ≡ returned r)
  display_capture_returns arrivals s e b within over = by_outcome _ (
      collect_flows-RunningIf arrivals s
        (record { not_ended = e; with_display = b; within = within }))
    where
      by_outcome :
          (o : Outcome)
          → RunningIf (s.total_bytes + all_bytes arrivals) o
          → (r : Collector) × (o ≡ returned r)
      by_outcome (waiting r) x = absurd (omega (arith, x.1, x.0.within, over))
      by_outcome (returned r) x = (r, refl)
