-- ===== src/Display/Rows/Newest.antt =====
-- The table of a packet capture shows the newest flows that match.
use netobserv_cli.Common.{
  ℕ, zero, suc, ◌≡◌, refl, sym, ap, subst, Bool, true, false, ◌&&◌, List, [], ◌∷◌, ◌++◌, Option,
  none, some, arith, leb, if_true, if_false, is_some, append-nil, length, All, All-append, filter,
  min, inl, inr, Bool-cases, ◌∙◌, if◌then◌else◌,
}
use mathlib.Core.List.{Permᴰ}
use mathlib.Core.List.Permᴰ
use netobserv_cli.Text.{Bytes, is_empty}
use netobserv_cli.GenericMap.{GenericMap}
use netobserv_cli.Display.Order.{Capture, flow_key, less_flows, less_flows-StrictWeak}
use netobserv_cli.Display.Sorting.{
  Less, IsSorted, Before, SortLaws, keep_last, All-filter, IsSorted-filter, All-Perm, Perm-length,
}
use netobserv_cli.Display.Flows.{
  Memory, comparable, sort_flows, is_packets, packet_capture_flow_snapshot,
}
use netobserv_cli.Display.Flows.Newest.{IsNewest, keep_last-IsNewest}
use netobserv_cli.Display.Flows.Buffers.{IsTimed, all-All}
use netobserv_cli.Display.Flows.Indexed.{IsWellFormed}
use netobserv_cli.Display.Rows.{
  trim_flows_to_show_count, filter_flows, candidates, trim_candidates, get_flows,
}

abbrev cons_when : Bool → GenericMap → List GenericMap → List GenericMap
cons_when c a rest = if c then a ∷ rest else rest

swap_when :
    (c d : Bool) {a b a' b' : GenericMap} (rest : List GenericMap)
    → a ≡ b'
    → b ≡ a'
    → Permᴰ (cons_when c a (cons_when d b rest)) (cons_when d a' (cons_when c b' rest))
swap_when true true rest e f = Permᴰ.swap e f
swap_when true false rest e f = Permᴰ.cons e (Permᴰ.refl rest)
swap_when false true rest e f = Permᴰ.cons f (Permᴰ.refl rest)
swap_when false false rest e f = Permᴰ.refl rest

cons_when-Perm :
    (c : Bool) {a b : GenericMap} {xs ys : List GenericMap}
    → a ≡ b
    → Permᴰ xs ys
    → Permᴰ (cons_when c a xs) (cons_when c b ys)
cons_when-Perm true e h = Permᴰ.cons e h
cons_when-Perm false e h = h

module _ (p : GenericMap → Bool) where
  filter-Perm : {xs ys : List GenericMap} → Permᴰ xs ys → Permᴰ (filter p xs) (filter p ys)
  filter-Perm Permᴰ.nil = Permᴰ.nil
  filter-Perm (Permᴰ.cons {a} {b} {l₁ = xs} {l₂ = ys} e h) =
      subst (λ c. Permᴰ (cons_when (p a) a (filter p xs)) (cons_when c b (filter p ys))) (ap p e)
        (cons_when-Perm (p a) e (filter-Perm h))
  filter-Perm (Permᴰ.swap {a} {b} {a'} {b'} {l} e f) =
      let rest = filter p l in
      let left = cons_when (p a) a (cons_when (p b) b rest) in
      subst (λ v. Permᴰ left (cons_when v a' (cons_when (p b') b' rest))) (ap p f)
        (subst (λ u. Permᴰ left (cons_when (p b) a' (cons_when u b' rest))) (ap p e)
          (swap_when (p a) (p b) rest e f))
  filter-Perm (Permᴰ.trans h k) = Permᴰ.trans (filter-Perm h) (filter-Perm k)

IsNewest-Perm :
    (c : Capture) (n : ℕ) (xs ys kept : List GenericMap)
    → Permᴰ xs ys
    → IsNewest c n xs kept
    → IsNewest c n ys kept
IsNewest-Perm c n xs ys kept p h = record {
  dropped = h.dropped;
  all_there = Permᴰ.trans h.all_there p;
  older = h.older;
  in_order = h.in_order;
  full = h.full ∙ ap (min n) (Perm-length p);
}

packets_and : (tls : Bool) → tls ≡ true → (is_packets Capture.packets && tls) ≡ true
unfolding is_packets
packets_and tls h = h

module _ (sort : Less → List GenericMap → List GenericMap) (laws : SortLaws sort) where
  sort_flows-some :
      (c : Capture) (xs : List GenericMap)
      → All (IsTimed c) xs
      → sort_flows sort c xs ≡ some (sort (less_flows c) xs)
  unfolding sort_flows comparable
  sort_flows-some c xs t =
      let known = all-All (λ x. is_some (flow_key c x)) xs t in
      if_true {b = comparable c xs} _ none (ground (arith, known))

  -- What is trimmed is in order.
  trim-IsNewest :
      (xs : List GenericMap) (n : ℕ)
      → IsSorted (less_flows Capture.packets) xs
      → All (IsTimed Capture.packets) xs
      → (rows : List GenericMap) × (trim_flows_to_show_count sort Capture.packets xs n ≡ some rows)
        × IsNewest Capture.packets n xs rows
  unfolding trim_flows_to_show_count is_packets
  trim-IsNewest xs zero h t = (
    [],
    refl,
    record {
      dropped = xs;
      all_there = subst (λ ys. Permᴰ ys xs) (sym (append-nil xs)) (Permᴰ.refl xs);
      older = nothing_newer xs;
      in_order = tt;
      full = omega arith;
    },
  )
    where
      nothing_newer : (ys : List GenericMap) → Before (less_flows Capture.packets) ys []
      nothing_newer [] = tt
      nothing_newer (y ∷ ys) = (tt, nothing_newer ys)
  trim-IsNewest xs (suc n) h t = elim (Bool-cases (leb (length xs) (suc n))) [
    | inl e ↦ (
      xs,
      if_true _ _ e,
      record {
        dropped = [];
        all_there = Permᴰ.refl xs;
        older = tt;
        in_order = h;
        full = ground (arith, e);
      },
    )
    | inr e ↦ (
      keep_last (suc n) (sort (less_flows Capture.packets) xs),
      if_false _ _ e
          ∙ ap
              (λ (r : Option (List GenericMap)). elim r as (λ _. Option (List GenericMap)) [
                | none ↦ none
                | some ys ↦ some (keep_last (suc n) ys)
              ])
              (sort_flows-some Capture.packets xs t),
      keep_last-IsNewest sort laws Capture.packets (suc n) xs,
    )
  ]

  module _ (regex_match : Bytes → GenericMap → Bool) where
    filter_flows-cases :
        (P : List GenericMap → List GenericMap → Type 0)
        → ((xs : List GenericMap) → P xs xs)
        → ((q : GenericMap → Bool) (xs : List GenericMap) → P xs (filter q xs))
        → (regexes : List Bytes) (xs : List GenericMap)
        → P xs (filter_flows sort regex_match regexes xs)
    unfolding filter_flows
    filter_flows-cases P same filtered regexes xs = elim (Bool-cases (is_empty regexes)) [
      | inl e ↦ subst (P xs) (sym (if_true _ _ e)) (same xs)
      | inr e ↦ subst (P xs) (sym (if_false _ _ e)) (filtered _ xs)
    ]

    filter_flows-Perm :
        (regexes : List Bytes) {xs ys : List GenericMap}
        → Permᴰ xs ys
        → Permᴰ
            (filter_flows sort regex_match regexes xs)
            (filter_flows sort regex_match regexes ys)
    unfolding filter_flows
    filter_flows-Perm [] h = h
    filter_flows-Perm (r ∷ regexes) h = filter-Perm _ h

    snapshot-sorted :
        (s : Memory)
        → s.capture ≡ Capture.packets
        → s.tls ≡ true
        → All (IsTimed Capture.packets) (s.last_wire_packets ++ s.last_plaintext_flows)
        → packet_capture_flow_snapshot sort s
          ≡ some (sort (less_flows Capture.packets) (s.last_wire_packets ++ s.last_plaintext_flows))
    unfolding packet_capture_flow_snapshot
    snapshot-sorted s packets tls timed =
        let both : (is_packets s.capture && s.tls) ≡ true =
          ap (λ c. is_packets c && s.tls) packets ∙ packets_and s.tls tls in
        let xs = s.last_wire_packets ++ s.last_plaintext_flows in
        if_true _ _ both
        ∙ ap (λ c. sort_flows sort c xs) packets
        ∙ sort_flows-some Capture.packets xs timed

    -- In a packet capture with plaintext, whose memory is well-formed: the table shows the newest
    -- packets and records that match the filters, as many as are asked for, in order.
    pub get_flows-IsNewest :
        (s : Memory) (shown : List GenericMap) (regexes : List Bytes) (show_count : ℕ)
        → s.capture ≡ Capture.packets
        → s.tls ≡ true
        → IsWellFormed s
        → (rows : List GenericMap) × (get_flows sort regex_match s shown regexes show_count
            ≡ some rows)
          × IsNewest Capture.packets show_count
              (filter_flows sort regex_match regexes
                (s.last_wire_packets ++ s.last_plaintext_flows))
              rows
    unfolding get_flows packet_capture_flow_snapshot candidates trim_candidates is_packets
    get_flows-IsNewest s shown regexes show_count packets tls w =
        let c = Capture.packets in
        let xs = s.last_wire_packets ++ s.last_plaintext_flows in
        let timed =
          subst (λ d. All (IsTimed d) xs) packets
            (All-append (IsTimed s.capture) s.last_wire_packets s.last_plaintext_flows w.wires.timed
              w.plaintexts.timed) in
        let sorted = sort (less_flows c) xs in
        let perm = laws.permutes (less_flows c) xs in
        let in_order = laws.sorts (less_flows c) xs (less_flows-StrictWeak c) in
        let ordered =
          filter_flows-cases (λ ys zs. IsSorted (less_flows c) ys → IsSorted (less_flows c) zs)
            (λ ys h. h) (λ q ys h. IsSorted-filter (less_flows c) q ys h) regexes sorted in_order in
        let all_timed =
          filter_flows-cases (λ ys zs. All (IsTimed c) ys → All (IsTimed c) zs) (λ ys h. h)
            (λ q ys h. All-filter (less_flows c) (IsTimed c) q ys h) regexes sorted
            (All-Perm (IsTimed c) (Permᴰ.symm perm) timed) in
        let (rows, e, newest) =
          trim-IsNewest (filter_flows sort regex_match regexes sorted) show_count ordered
            all_timed in
        (
          rows,
          ap
                (λ o.
                  trim_candidates sort regex_match s.capture regexes show_count
                    (candidates sort regex_match s.capture shown o))
                (snapshot-sorted s packets tls timed)
              ∙ ap
                  (λ d.
                    trim_candidates sort regex_match d regexes show_count
                      (candidates sort regex_match d shown (some sorted)))
                  packets
              ∙ e,
          IsNewest-Perm c show_count _ _ rows (filter_flows-Perm regexes perm) newest,
        )
