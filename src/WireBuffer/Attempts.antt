-- ===== src/WireBuffer/Attempts.antt =====
-- What one attempt of `tryAnnotateLocked` does, on every branch.
use netobserv_cli.Common.{
  ℕ, ◌≡◌, refl, sym, subst, ap, ◌∙◌, Bool, true, false, List, Option, none, some, arith, get_elem?,
  set, if◌then◌else◌,
}
use netobserv_cli.Common.Int.{ℤ, pos, ◌≤ℤ◌}
use netobserv_cli.Extern.{Extern}
use netobserv_cli.Filters.{CaptureFilters}
use netobserv_cli.Score.{
  BufferedWirePacket, PendingPlaintext, min_annotation_score, score_plaintext_wire_match,
}
use netobserv_cli.WireBuffer.Defs.{
  BestMatch, best_wire_match, prepare_plaintext_for_match, search_all, note_ambiguity,
  scores_ambiguous,
}
use netobserv_cli.WireBuffer.Annotate.{
  Attempt, attempt_on, chosen, try_annotate, annotate_at, annotate_found, usable, must_wait,
  annotate_packet, annotated_plaintext,
}
use netobserv_cli.WireBuffer.Best.{LeadsFrom, search_all_found}

module _ (ext : Extern) (window : ℕ) (filters : CaptureFilters) (final : Bool) (since : ℕ → ℕ)
    (packets : List BufferedWirePacket) (pt : PendingPlaintext) where
  abbrev pub match : BestMatch
  match = best_wire_match ext filters packets pt

  abbrev pub attempt : Attempt
  attempt = try_annotate ext window filters final since packets pt

  abbrev pub threshold : ℤ
  threshold = pos (min_annotation_score ext match.pt.contents filters)

  -- What holds of the packet that an attempt settles on.
  pub record Chosen (i : ℕ) : Type 0 where
    pub found : match.idx ≡ some i
    pub clear : match.ambiguous ≡ false
    pub enough : threshold ≤ℤ match.score

  chosen-Chosen : (i : ℕ) → chosen ext filters match ≡ some i → Chosen i
  unfolding chosen
  chosen-Chosen i e = ground arith

  attempt_cases {ℓ} :
      (P : Attempt → Type ℓ)
      → P (record { pt = match.pt; packets = packets; done = false })
      → ((i : ℕ) → Chosen i → P (annotate_at ext window final since packets match.pt i))
      → P attempt
  unfolding try_annotate
  attempt_cases P refused matched = by_choice (chosen ext filters match) refl
    where
      by_choice :
          (c : Option ℕ)
          → chosen ext filters match ≡ c
          → P (attempt_on ext window final since packets match.pt c)
      by_choice none e = unfold attempt_on in refused
      by_choice (some i) e = unfold attempt_on in matched i (chosen-Chosen i e)

  -- What holds of a packet that may be annotated for a record.
  pub record Usable (pt' : PendingPlaintext) (i : ℕ) (pkt : BufferedWirePacket) : Type 0 where
    pub stands : get_elem? packets i ≡ some pkt
    pub fresh : pkt.annotated ≡ false
    pub due : must_wait ext window final since pt' pkt ≡ false

  usable-Usable :
      (pt' : PendingPlaintext) (i : ℕ) (pkt : BufferedWirePacket)
      → usable ext window final since packets pt' i ≡ some pkt
      → Usable pt' i pkt
  unfolding usable
  usable-Usable pt' i pkt e = ground arith

  annotate_at_cases {ℓ} :
      (P : Attempt → Type ℓ) (pt' : PendingPlaintext) (i : ℕ)
      → P (record { pt = pt'; packets = packets; done = false })
      → ((pkt : BufferedWirePacket)
          → Usable pt' i pkt
          → P (record {
            pt = annotated_plaintext ext pt' pkt;
            packets = set packets i (annotate_packet ext pt' pkt);
            done = true;
          }))
      → P (annotate_at ext window final since packets pt' i)
  unfolding annotate_at
  annotate_at_cases P pt' i refused matched =
      by_use (usable ext window final since packets pt' i) refl
    where
      by_use :
          (c : Option BufferedWirePacket)
          → usable ext window final since packets pt' i ≡ c
          → P (annotate_found ext packets pt' i c)
      by_use none e = unfold annotate_found in refused
      by_use (some pkt) e = unfold annotate_found in matched pkt (usable-Usable pt' i pkt e)

  -- The attempt refuses, and then leaves the packets alone, or it annotates one packet.
  pub try_annotate_cases {ℓ} :
      (P : Attempt → Type ℓ)
      → P (record { pt = match.pt; packets = packets; done = false })
      → ((i : ℕ) (pkt : BufferedWirePacket)
          → Chosen i
          → Usable match.pt i pkt
          → P (record {
            pt = annotated_plaintext ext match.pt pkt;
            packets = set packets i (annotate_packet ext match.pt pkt);
            done = true;
          }))
      → P attempt
  try_annotate_cases P refused matched =
      attempt_cases P refused
        (λ i c. annotate_at_cases P match.pt i refused (λ pkt u. matched i pkt c u))

  abbrev pub prepared : PendingPlaintext
  prepared = prepare_plaintext_for_match ext filters pt

  -- A record that is left unambiguous is left as it was prepared.
  note_ambiguity-same :
      (c : Bool) (p : PendingPlaintext)
      → (if c then record p { connection_ambiguous = true } else p).connection_ambiguous ≡ false
      → (if c then record p { connection_ambiguous = true } else p) ≡ p
  note_ambiguity-same true p e = cc
  note_ambiguity-same false p e = refl

  match-prepared : match.ambiguous ≡ false → match.pt ≡ prepared
  unfolding best_wire_match note_ambiguity
  match-prepared e = note_ambiguity-same _ prepared (ground arith)

  match-clear :
      match.ambiguous ≡ false → scores_ambiguous (search_all ext filters packets prepared) ≡ false
  unfolding best_wire_match
  match-clear e = ground arith

  -- What is true of an attempt that annotated a packet.
  pub record Annotated (a : Attempt) : Type 0 where
    pub position : ℕ
    pub pkt : BufferedWirePacket
    pub stands : get_elem? packets position ≡ some pkt
    pub fresh : pkt.annotated ≡ false
    pub leads : LeadsFrom ext filters prepared position pkt packets
    pub enough :
        pos (min_annotation_score ext prepared.contents filters)
        ≤ℤ score_plaintext_wire_match ext pkt prepared filters
    pub due : must_wait ext window final since prepared pkt ≡ false
    pub record_left : a.pt ≡ annotated_plaintext ext prepared pkt
    pub packets_left : a.packets ≡ set packets position (annotate_packet ext prepared pkt)

  idx-search :
      (i : ℕ) → match.idx ≡ some i → (search_all ext filters packets prepared).best_idx ≡ some i
  unfolding best_wire_match
  idx-search i e = e

  score-search : match.score ≡ (search_all ext filters packets prepared).best_score
  unfolding best_wire_match
  score-search = refl

  -- The packet that stands at the best position is the one that leads.
  found_leads :
      (i : ℕ) (pkt : BufferedWirePacket)
      → Chosen i
      → get_elem? packets i ≡ some pkt
      → LeadsFrom ext filters prepared i pkt packets
        × (score_plaintext_wire_match ext pkt prepared filters ≡ match.score)
  found_leads i pkt c e =
      let (other, at_i, _, top, _, _, lead) =
        search_all_found ext filters prepared packets i (idx-search i c.found) in
      let same : other ≡ pkt = cc in
      subst
        (λ p.
          LeadsFrom ext filters prepared i p packets
          × (score_plaintext_wire_match ext p prepared filters ≡ match.score))
        same (lead (match-clear c.clear), top ∙ sym score-search)

  Annotated-of :
      (p : PendingPlaintext) (i : ℕ) (pkt : BufferedWirePacket)
      → p ≡ prepared
      → pos (min_annotation_score ext p.contents filters) ≤ℤ match.score
      → Chosen i
      → Usable p i pkt
      → Annotated (record {
        pt = annotated_plaintext ext p pkt;
        packets = set packets i (annotate_packet ext p pkt);
        done = true;
      })
  Annotated-of p i pkt same enough c u =
      let (lead, top) = found_leads i pkt c u.stands in
      record {
        position = i;
        pkt = pkt;
        stands = u.stands;
        fresh = u.fresh;
        leads = lead;
        enough =
            subst (λ x. pos (min_annotation_score ext prepared.contents filters) ≤ℤ x) (sym top)
              (subst (λ q. pos (min_annotation_score ext q.contents filters) ≤ℤ match.score) same
                enough);
        due = subst (λ q. must_wait ext window final since q pkt ≡ false) same u.due;
        record_left = ap (λ q. annotated_plaintext ext q pkt) same;
        packets_left = ap (λ q. set packets i (annotate_packet ext q pkt)) same;
      }

  -- An annotation is made only of a packet that is not annotated yet, scores at least what the record
  -- must reach, and leads every other such packet that is not rejected by more than the margin; it
  -- changes that packet and the record alone, and it is not made while the record must wait.
  pub try_annotate_done : attempt.done ≡ true → Annotated attempt
  try_annotate_done =
      try_annotate_cases (λ a. a.done ≡ true → Annotated a) (λ e. cc)
        (λ i pkt c u _. Annotated-of match.pt i pkt (match-prepared c.clear) c.enough c u)
