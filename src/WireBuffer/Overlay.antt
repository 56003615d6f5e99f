-- ===== src/WireBuffer/Overlay.antt =====
-- What a record takes over from the packet that it is matched to.
use netobserv_cli.Common.{
  ◌≡◌, refl, ◌∙◌, [], ◌∷◌, Option, none, some, arith, if◌then◌else◌, not, ◌&&◌,
}
use netobserv_cli.Text.{Bytes}
use netobserv_cli.Text.Laws.{eq_bytes_iff}
use netobserv_cli.GenericMap.{GenericMap, Value, lookup, get, put, delete_if}
use netobserv_cli.GenericMap.Laws.{
  HasUniqueKeys, found_or, lookup-put, get-put, lookup-delete_if, get-delete_if,
}
use netobserv_cli.Extern.{Extern}
use netobserv_cli.Endpoints.{overlay_wire_tuple_to_plaintext}
use netobserv_cli.WireBuffer.Annotate.{
  is_wire_k8s_enrichment_field, has_meaningful_generic_value, copy_wire_k8s_fields_to_plaintext,
  is_k8s_endpoint_key, overlay_correlated_wire_to_plaintext,
}

-- The packet's Kubernetes fields fill the record's, where the record says nothing of its own.
pub lookup-copy_wire_k8s_fields :
    (key : Bytes) (pt wire : GenericMap)
    → HasUniqueKeys wire
    → lookup key (copy_wire_k8s_fields_to_plaintext pt wire) ≡ (
        if is_wire_k8s_enrichment_field key && not (has_meaningful_generic_value (get key pt))
        then found_or (lookup key wire) (lookup key pt)
        else lookup key pt)
unfolding copy_wire_k8s_fields_to_plaintext lookup
lookup-copy_wire_k8s_fields key pt [] u = ground arith
lookup-copy_wire_k8s_fields key pt ((k, v) ∷ wire) (fresh, u) = ground (
  arith,
  eq_bytes_iff k key,
  lookup-put k key v pt,
  get-put k key v pt,
  lookup-copy_wire_k8s_fields key (put k v pt) wire u,
  lookup-copy_wire_k8s_fields key pt wire u,
)

found_or-none : (v : Option Value) → found_or v none ≡ v
found_or-none none = refl
found_or-none (some v) = refl

-- What a matched record holds under each key: a Kubernetes field of an endpoint is the packet's, or is
-- gone with it; another Kubernetes field is the packet's where the record has nothing of its own; and
-- every other field is what the overlay of the packet's tuple
-- leaves. No key of the packet's map stands twice.
pub lookup-overlay_correlated :
    (ext : Extern) (key : Bytes) (pt wire : GenericMap)
    → HasUniqueKeys wire
    → lookup key (overlay_correlated_wire_to_plaintext ext pt wire) ≡ (
        let with_tuple = overlay_wire_tuple_to_plaintext ext pt wire in
        if is_k8s_endpoint_key key
        then lookup key wire
        else (if is_wire_k8s_enrichment_field key
              && not (has_meaningful_generic_value (get key with_tuple))
            then found_or (lookup key wire) (lookup key with_tuple)
            else lookup key with_tuple))
unfolding overlay_correlated_wire_to_plaintext has_meaningful_generic_value is_k8s_endpoint_key
    is_wire_k8s_enrichment_field
lookup-overlay_correlated ext key pt wire u =
    let with_tuple = overlay_wire_tuple_to_plaintext ext pt wire in
    let kept = delete_if is_k8s_endpoint_key with_tuple in
    lookup-copy_wire_k8s_fields key kept wire u
    ∙ ground (
      arith,
      lookup-delete_if is_k8s_endpoint_key key with_tuple,
      get-delete_if is_k8s_endpoint_key key with_tuple,
      found_or-none (lookup key wire),
    )
