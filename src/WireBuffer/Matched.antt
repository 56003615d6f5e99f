-- ===== src/WireBuffer/Matched.antt =====
-- The endpoints of a record that was matched.
use netobserv_cli.Common.{
  ◌≡◌, ◌||◌, Bool-cases, inl, inr, refl, sym, ap, ◌∙◌, Bool, true, false, some, arith, if_false, [],
  ◌∷◌, subst, if◌then◌else◌,
}
use netobserv_cli.Text.{Bytes, codes, eq_bytes, has_prefix, is_empty}
use netobserv_cli.Text.Laws.{eq_bytes→eq}
use netobserv_cli.GenericMap.{GenericMap, str, bool, get, put, lookup}
use netobserv_cli.GenericMap.Laws.{HasUniqueKeys, lookup-put}
use netobserv_cli.Extern.{Extern}
use netobserv_cli.Endpoints.{
  FlowTuple, flow_tuple_from_map, valid_ip_string, map_port_from_generic, port_of_value,
  overlay_wire_tuple_to_plaintext,
}
use netobserv_cli.Endpoints.Overlay.{IpLaws, flow_tuple-overlay}
use netobserv_cli.Endpoints.Tuples.{tuple_of-cong}
use netobserv_cli.Plaintext.Display.{enrich_plaintext_for_export, plaintext_preview_for_display}
use netobserv_cli.Score.{BufferedWirePacket, PendingPlaintext}
use netobserv_cli.WireBuffer.Annotate.{
  is_k8s_endpoint_key, is_wire_k8s_enrichment_field, overlay_correlated_wire_to_plaintext,
  correlated_contents, annotated_plaintext,
}
use netobserv_cli.WireBuffer.Overlay.{lookup-overlay_correlated}

get-same : (key : Bytes) (m m' : GenericMap) → lookup key m ≡ lookup key m' → get key m ≡ get key m'
unfolding get
get-same key m m' e = ground arith

-- The keys that the search for a tuple reads.
unfoldable pub is_tuple_key : Bytes → Bool
is_tuple_key key =
    eq_bytes key (codes "SrcAddr")
    || eq_bytes key (codes "DstAddr")
    || eq_bytes key (codes "SrcPort")
    || eq_bytes key (codes "DstPort")

-- What holds of the four keys holds of every key of a tuple.
tuple_key_cases :
    (P : Bytes → Type 0)
    → P (codes "SrcAddr")
    → P (codes "DstAddr")
    → P (codes "SrcPort")
    → P (codes "DstPort")
    → (key : Bytes) → is_tuple_key key ≡ true
    → P key
unfolding is_tuple_key
tuple_key_cases P sa da sp dp key e = elim (Bool-cases (eq_bytes key (codes "SrcAddr"))) [
  | inl a ↦ subst P (sym (eq_bytes→eq key (codes "SrcAddr") a)) sa
  | inr a ↦ elim (Bool-cases (eq_bytes key (codes "DstAddr"))) [
    | inl b ↦ subst P (sym (eq_bytes→eq key (codes "DstAddr") b)) da
    | inr b ↦ elim (Bool-cases (eq_bytes key (codes "SrcPort"))) [
      | inl c ↦ subst P (sym (eq_bytes→eq key (codes "SrcPort") c)) sp
      | inr c ↦ subst P (sym (eq_bytes→eq key (codes "DstPort") (ground arith))) dp
    ]
  ]
]

-- No key of a tuple is one that a match writes for another purpose.
abbrev IsPlain : Bytes → Type 0
IsPlain key =
    (is_k8s_endpoint_key key ≡ false)
    × (is_wire_k8s_enrichment_field key ≡ false)
    × (eq_bytes (codes "PlaintextDisplay") key ≡ false)
    × (eq_bytes (codes "PcapAnnotated") key ≡ false)

tuple_key-IsPlain : (key : Bytes) → is_tuple_key key ≡ true → IsPlain key
unfolding is_k8s_endpoint_key is_wire_k8s_enrichment_field has_prefix eq_bytes
tuple_key-IsPlain =
    tuple_key_cases IsPlain (refl, refl, refl, refl) (refl, refl, refl, refl)
      (refl, refl, refl, refl) (refl, refl, refl, refl)

module _ (ext : Extern) where
  -- The tuple depends on four fields alone.
  flow_tuple-same :
      (m m' : GenericMap)
      → ((key : Bytes) → is_tuple_key key ≡ true → lookup key m ≡ lookup key m')
      → flow_tuple_from_map ext m ≡ flow_tuple_from_map ext m'
  unfolding flow_tuple_from_map map_port_from_generic is_tuple_key eq_bytes
  flow_tuple-same m m' same =
      tuple_of-cong
        (ap (valid_ip_string ext) (get-same (codes "SrcAddr") m m' (same (codes "SrcAddr") refl)))
        (ap (valid_ip_string ext) (get-same (codes "DstAddr") m m' (same (codes "DstAddr") refl)))
        (ap port_of_value (get-same (codes "SrcPort") m m' (same (codes "SrcPort") refl)))
        (ap port_of_value (get-same (codes "DstPort") m m' (same (codes "DstPort") refl)))

  pub enrich_for_export-lookup :
      (m : GenericMap) (key : Bytes)
      → eq_bytes (codes "PlaintextDisplay") key ≡ false
      → lookup key (enrich_plaintext_for_export ext m) ≡ lookup key m
  unfolding enrich_plaintext_for_export
  enrich_for_export-lookup m key e = by_display (plaintext_preview_for_display ext m 0)
    where
      by_display :
          (d : Bytes)
          → lookup key (if is_empty d then m else put (codes "PlaintextDisplay") (str d) m)
            ≡ lookup key m
      by_display [] = refl
      by_display (c ∷ d) =
          lookup-put (codes "PlaintextDisplay") key (str (c ∷ d)) m ∙ if_false _ _ e

  overlay-lookup :
      (pt wire : GenericMap) (key : Bytes)
      → HasUniqueKeys wire
      → is_tuple_key key ≡ true
      → lookup key (overlay_correlated_wire_to_plaintext ext pt wire)
        ≡ lookup key (overlay_wire_tuple_to_plaintext ext pt wire)
  overlay-lookup pt wire key u k =
      let plain = tuple_key-IsPlain key k in
      lookup-overlay_correlated ext key pt wire u ∙ ground (arith, plain.0, plain.1)

  -- A record that was matched to a packet with a flow tuple has that tuple when it is sent out, whatever
  -- it had before, if no key of the packet's map stands twice and printed addresses parse again.
  pub flow_tuple-annotated :
      (laws : IpLaws ext) (pt : PendingPlaintext) (pkt : BufferedWirePacket) (t : FlowTuple)
      → HasUniqueKeys pkt.generic_map
      → flow_tuple_from_map ext pkt.generic_map ≡ some t
      → flow_tuple_from_map ext (annotated_plaintext ext pt pkt).contents ≡ some t
  unfolding annotated_plaintext correlated_contents
  flow_tuple-annotated laws pt pkt t u e =
      let overlaid = overlay_correlated_wire_to_plaintext ext pt.contents pkt.generic_map in
      let shown = enrich_plaintext_for_export ext overlaid in
      flow_tuple-same (put (codes "PcapAnnotated") (bool true) shown)
        (overlay_wire_tuple_to_plaintext ext pt.contents pkt.generic_map)
        (λ key k.
          let plain = tuple_key-IsPlain key k in
          lookup-put (codes "PcapAnnotated") key (bool true) shown
          ∙ if_false _ _ plain.3
          ∙ enrich_for_export-lookup overlaid key plain.2
          ∙ overlay-lookup pt.contents pkt.generic_map key u k)
      ∙ flow_tuple-overlay ext laws pt.contents pkt.generic_map t e
