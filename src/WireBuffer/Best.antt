-- ===== src/WireBuffer/Best.antt =====
-- What the search of `bestWireMatchWithAmbiguityLocked` finds: the winner and how far it leads.
use netobserv_cli.Common.{
  ℕ, zero, suc, ◌+◌, ◌≡◌, refl, ◌⊎◌, inl, inr, Bool, true, false, List, [], ◌∷◌, Option, none, some,
  arith, get_elem?, ◌∙◌, Bool-cases, subst, sym, if_true, if_false, if◌then◌else◌,
}
use netobserv_cli.Common.Int.{ℤ, pos, ◌≤ℤ◌, ◌<ℤ◌, ◌+ℤ◌, is_neg}
use netobserv_cli.Extern.{Extern}
use netobserv_cli.Endpoints.{FlowTuple, flow_tuple_from_map}
use netobserv_cli.Filters.{CaptureFilters}
use netobserv_cli.Score.{
  BufferedWirePacket, PendingPlaintext, score_plaintext_wire_match, score_ambiguity_margin,
}
use netobserv_cli.WireBuffer.Defs.{
  Search, search_start, search_round, search_from, search_all, rank, note_packet, note_connection,
  scores_ambiguous,
}

abbrev pub IsOrdered : Search → Type 0
IsOrdered s = s.second_best ≤ℤ s.best_score

-- What a round with a score does to the ranking.
record Round (s r : Search) (i : ℕ) (score : ℤ) : Type 0 where
  best_grows : s.best_score ≤ℤ r.best_score
  second_grows : s.second_best ≤ℤ r.second_best
  ordered : IsOrdered r
  covered : score ≤ℤ r.best_score
  settled : ((r.best_idx ≡ some i) × (r.best_score ≡ score)) ⊎ (score ≤ℤ r.second_best)
  kept :
      ((r.best_idx ≡ s.best_idx) × (r.best_score ≡ s.best_score))
      ⊎ ((r.best_idx ≡ some i)
          × (r.best_score ≡ score)
          × (s.best_score ≤ℤ r.second_best)
          × (s.best_score <ℤ score))

rank-Round : (i : ℕ) (score : ℤ) (s : Search) → IsOrdered s → Round s (rank i score s) i score
unfolding rank
rank-Round i score s h = ground arith

-- The two searches rank alike.
record SameRanking (s r : Search) : Type 0 where
  same_idx : r.best_idx ≡ s.best_idx
  same_score : r.best_score ≡ s.best_score
  same_second : r.second_best ≡ s.second_best

module _ (ext : Extern) (filters : CaptureFilters) (pt : PendingPlaintext) where
  abbrev score_of : BufferedWirePacket → ℤ
  score_of pkt = score_plaintext_wire_match ext pkt pt filters

  note_packet-SameRanking :
      (pkt : BufferedWirePacket) (s : Search) → SameRanking s (note_packet ext filters pt pkt s)
  unfolding note_packet note_connection
  note_packet-SameRanking pkt s =
      same (flow_tuple_from_map ext pkt.generic_map) (is_neg (score_of pkt))
    where
      same :
          (t : Option FlowTuple) (b : Bool) → SameRanking s (if b then s else note_connection t s)
      same t true = record { same_idx = refl; same_score = refl; same_second = refl }
      same none false = record { same_idx = refl; same_score = refl; same_second = refl }
      same (some c) false = record { same_idx = refl; same_score = refl; same_second = refl }

  annotated-SameRanking :
      (i : ℕ) (pkt : BufferedWirePacket) (s : Search)
      → pkt.annotated ≡ true
      → SameRanking s (search_round ext filters pt i pkt s)
  unfolding search_round
  annotated-SameRanking i pkt s a =
      subst (SameRanking s) (sym (if_true _ _ a)) (note_packet-SameRanking pkt s)

  Round-along :
      {s n r : Search} (i : ℕ) (score : ℤ) → SameRanking s n → Round n r i score → Round s r i score
  Round-along i score q r = ground arith

  SameRanking-IsOrdered : {s n : Search} → SameRanking s n → IsOrdered s → IsOrdered n
  SameRanking-IsOrdered q h = ground arith

  search_round-Round :
      (i : ℕ) (pkt : BufferedWirePacket) (s : Search)
      → IsOrdered s
      → pkt.annotated ≡ false
      → Round s (search_round ext filters pt i pkt s) i (score_of pkt)
  unfolding search_round
  search_round-Round i pkt s h a =
      let q = note_packet-SameRanking pkt s in
      let n = note_packet ext filters pt pkt s in
      subst (λ r. Round s r i (score_of pkt)) (sym (if_false _ _ a))
        (Round-along i (score_of pkt) q (rank-Round i (score_of pkt) n (SameRanking-IsOrdered q h)))

  -- The winner of the rest of the loop, from position `i` on: the best so far, or a later packet.
  abbrev Winner : Search → Search → ℕ → List BufferedWirePacket → Type 0
  Winner s r i packets =
      ((r.best_idx ≡ s.best_idx) × (r.best_score ≡ s.best_score))
      ⊎ ((j : ℕ) × (pkt : BufferedWirePacket) × (r.best_idx ≡ some (i + j))
          × (get_elem? packets j ≡ some pkt)
          × (pkt.annotated ≡ false)
          × (score_of pkt ≡ r.best_score)
          × (s.best_score <ℤ r.best_score))

  -- A packet that counts is the winner or a runner-up.
  abbrev Ranks : Search → ℕ → BufferedWirePacket → Type 0
  Ranks r i pkt =
      ((r.best_idx ≡ some i) ⊎ (score_of pkt ≤ℤ r.second_best)) × (score_of pkt ≤ℤ r.best_score)

  abbrev Covers : Search → ℕ → List BufferedWirePacket → Type 0
  Covers r i packets =
      (j : ℕ) (pkt : BufferedWirePacket)
      → get_elem? packets j ≡ some pkt
      → pkt.annotated ≡ false
      → Ranks r (i + j) pkt

  record Rest (s r : Search) (i : ℕ) (packets : List BufferedWirePacket) : Type 0 where
    best_grows : s.best_score ≤ℤ r.best_score
    second_grows : s.second_best ≤ℤ r.second_best
    -- the best so far stays so, or it is beaten and counts as a runner-up
    kept :
        ((r.best_idx ≡ s.best_idx) × (r.best_score ≡ s.best_score))
        ⊎ (s.best_score ≤ℤ r.second_best)
    winner : Winner s r i packets
    covers : Covers r i packets

  Rest-nil : (s : Search) (i : ℕ) → Rest s s i []
  Rest-nil s i = record {
    best_grows = omega arith;
    second_grows = omega arith;
    kept = inl (refl, refl);
    winner = inl (refl, refl);
    covers = λ j pkt e a. cc;
  }

  Winner-later :
      (s n r : Search) (i : ℕ) (pkt : BufferedWirePacket) (packets : List BufferedWirePacket)
      → s.best_score ≤ℤ n.best_score
      → Winner n r (suc i) packets
      → Winner s r i (pkt ∷ packets) ⊎ ((r.best_idx ≡ n.best_idx) × (r.best_score ≡ n.best_score))
  Winner-later s n r i pkt packets h (inl e) = inr e
  Winner-later s n r i pkt packets h (inr (j, p, e, g, b, f, l)) =
      inl (inr (suc j, p, ground arith, g, b, f, ground arith))

  Covers-cons :
      (r : Search) (i : ℕ) (pkt : BufferedWirePacket) (packets : List BufferedWirePacket)
      → (pkt.annotated ≡ false → Ranks r i pkt)
      → Covers r (suc i) packets
      → Covers r i (pkt ∷ packets)
  Covers-cons r i pkt packets first later zero p g b =
      let e : pkt ≡ p = ground arith in
      subst (λ k. Ranks r k p) (omega arith)
        (subst (λ q. q.annotated ≡ false → Ranks r i q) e first b)
  Covers-cons r i pkt packets first later (suc j) p g b =
      subst (λ k. Ranks r k p) (omega arith) (later j p g b)

  Rest-annotated :
      {s n r : Search} (i : ℕ) (pkt : BufferedWirePacket) (packets : List BufferedWirePacket)
      → pkt.annotated ≡ true
      → SameRanking s n
      → Rest n r (suc i) packets
      → Rest s r i (pkt ∷ packets)
  Rest-annotated {s} {n} {r} i pkt packets a q h = record {
    best_grows = ground (arith, h.best_grows);
    second_grows = ground (arith, h.second_grows);
    kept = ground (arith, h.kept);
    winner = elim (Winner-later s n r i pkt packets (ground arith) h.winner) [
      | inl w ↦ w
      | inr (e, f) ↦ inl (e ∙ q.same_idx, f ∙ q.same_score)
    ];
    covers = Covers-cons r i pkt packets (λ b. cc) h.covers;
  }

  Rest-counted :
      {s n r : Search} (i : ℕ) (pkt : BufferedWirePacket) (packets : List BufferedWirePacket)
      → pkt.annotated ≡ false
      → Round s n i (score_of pkt)
      → Rest n r (suc i) packets
      → Rest s r i (pkt ∷ packets)
  Rest-counted {s} {n} {r} i pkt packets a q h = record {
    best_grows = ground (arith, h.best_grows, q.best_grows);
    second_grows = ground (arith, h.second_grows, q.second_grows);
    kept = ground (arith, h.kept, q.kept, h.second_grows);
    winner = elim (Winner-later s n r i pkt packets q.best_grows h.winner) [
      | inl w ↦ w
      | inr (e, f) ↦ elim q.kept [
        | inl (e', f') ↦ inl (e ∙ e', f ∙ f')
        | inr (e', f', _, l) ↦ inr (0, pkt, ground arith, refl, a, sym (f ∙ f'), ground arith)
      ]
    ];
    covers = Covers-cons r i pkt packets (λ b. first) h.covers;
  }
    where
      first : Ranks r i pkt
      first = (ground (arith, h.kept, q.settled, h.second_grows), ground arith)

  search_from-Rest :
      (i : ℕ) (packets : List BufferedWirePacket) (s : Search)
      → IsOrdered s
      → Rest s (search_from ext filters pt i packets s) i packets
  unfolding search_from
  search_from-Rest i [] s o = Rest-nil s i
  search_from-Rest i (pkt ∷ packets) s o = elim (Bool-cases pkt.annotated) [
    | inl a ↦
        let q = annotated-SameRanking i pkt s a in
        Rest-annotated i pkt packets a q (
          search_from-Rest (suc i) packets (search_round ext filters pt i pkt s)
            (SameRanking-IsOrdered q o))
    | inr a ↦
        let q = search_round-Round i pkt s o a in
        Rest-counted i pkt packets a q
          (search_from-Rest (suc i) packets (search_round ext filters pt i pkt s) q.ordered)
  ]

  -- Every other packet that is not annotated is rejected, or trails by more than the margin.
  abbrev pub LeadsFrom : ℕ → BufferedWirePacket → List BufferedWirePacket → Type 0
  LeadsFrom i pkt packets =
      (j : ℕ) (other : BufferedWirePacket)
      → get_elem? packets j ≡ some other
      → other.annotated ≡ false
      → (i ≡ j)
        ⊎ (score_of other <ℤ pos 0)
        ⊎ (score_of other +ℤ pos score_ambiguity_margin <ℤ score_of pkt)

  search_all-Rest :
      (packets : List BufferedWirePacket)
      → Rest search_start (search_all ext filters packets pt) 0 packets
  unfolding search_all
  search_all-Rest packets = search_from-Rest 0 packets search_start (omega arith)

  unambiguous-gap :
      (s : Search) (i : ℕ) (x : ℤ)
      → s.best_idx ≡ some i
      → scores_ambiguous s ≡ false
      → x ≤ℤ s.second_best
      → (x <ℤ pos 0) ⊎ (x +ℤ pos score_ambiguity_margin <ℤ s.best_score)
  unfolding scores_ambiguous ◌+ℤ◌
  unambiguous-gap s i x e a h = ground arith

  -- The packet that the search finds stands at the position that it returns, is not annotated, has
  -- the score returned, and is not rejected; no packet that is not annotated scores higher; and if
  -- the scores are not ambiguous it leads all of those by more than the margin.
  pub search_all_found :
      (packets : List BufferedWirePacket) (i : ℕ)
      → (search_all ext filters packets pt).best_idx ≡ some i
      → (pkt : BufferedWirePacket) × (get_elem? packets i ≡ some pkt)
        × (pkt.annotated ≡ false)
        × (score_of pkt ≡ (search_all ext filters packets pt).best_score)
        × (pos 0 ≤ℤ score_of pkt)
        × ((j : ℕ) (other : BufferedWirePacket)
            → get_elem? packets j ≡ some other
            → other.annotated ≡ false
            → score_of other ≤ℤ score_of pkt)
        × (scores_ambiguous (search_all ext filters packets pt) ≡ false → LeadsFrom i pkt packets)
  search_all_found packets i e = elim h.winner [
    | inl (f, _) ↦ cc
    | inr (j, pkt, f, g, a, same, l) ↦
        let ij : i ≡ j = ground arith in
        (
          pkt,
          rw ij g,
          a,
          same,
          ground arith,
          λ k other at' b. ground (arith, (h.covers k other at' b).1),
          λ clear k other at' b. elim (h.covers k other at' b).0 [
            | inl f' ↦ inl (ground arith)
            | inr low ↦ inr (
                subst
                  (λ top.
                    (score_of other <ℤ pos 0)
                    ⊎ (score_of other +ℤ pos score_ambiguity_margin <ℤ top))
                  (sym same) (unambiguous-gap r i (score_of other) e clear low))
          ],
        )
  ]
    where
      r : Search
      r = search_all ext filters packets pt

      h : Rest search_start r 0 packets
      h = search_all-Rest packets

  -- Nothing is found only if every packet that is not annotated is rejected.
  pub search_all_nothing :
      (packets : List BufferedWirePacket)
      → (search_all ext filters packets pt).best_idx ≡ none
      → (j : ℕ) (other : BufferedWirePacket) → get_elem? packets j ≡ some other
      → other.annotated ≡ false
      → score_of other <ℤ pos 0
  search_all_nothing packets e j other at' b = elim h.winner [
    | inl (_, f) ↦ ground (arith, (h.covers j other at' b).1)
    | inr (k, _, f, _, _, _, _) ↦ cc
  ]
    where
      h : Rest search_start (search_all ext filters packets pt) 0 packets
      h = search_all-Rest packets
