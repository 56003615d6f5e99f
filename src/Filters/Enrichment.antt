-- ===== src/Filters/Enrichment.antt =====
-- What the capture filters add to a record, and what of it they leave alone.
use netobserv_cli.Common.{
  ℕ, ◌≡◌, ◌⊎◌, refl, sym, subst, ◌∙◌, ap, Bool, true, false, ◌||◌, Option, none, some, arith,
  if◌then◌else◌, Bool-cases, inl, inr, if_true, if_false, ltb,
}
use netobserv_cli.Text.{Bytes, codes, eq_bytes}
use netobserv_cli.Text.Laws.{eq_bytes→eq}
use netobserv_cli.GenericMap.{GenericMap, str, uint16, float64, whole, lookup, get, put}
use netobserv_cli.GenericMap.Laws.{lookup-put, get-put_self}
use netobserv_cli.Extern.{Extern}
use netobserv_cli.Endpoints.{
  port_of_value, map_port_from_generic, valid_ip_string, plaintext_has_tuple,
}
use netobserv_cli.Filters.{
  CaptureFilters, put_missing_port, write_peer, apply_workload_plaintext_tuple, enrich_port,
  enrich_plaintext_from_capture_filters, single_capture_peer_ip, single_capture_port, port_known,
  port_missing,
}

-- The keys that the filters may write.
unfoldable pub is_enriched_key : Bytes → Bool
is_enriched_key key =
    eq_bytes (codes "SrcAddr") key || eq_bytes (codes "SrcPort") key || eq_bytes (codes "Proto") key

module _ (ext : Extern) where
  -- What of the record `m` is left in `m'`.
  pub record Keeps (m m' : GenericMap) : Type 0 where
    pub others : (key : Bytes) → is_enriched_key key ≡ false → lookup key m' ≡ lookup key m
    pub port :
        port_known (map_port_from_generic m (codes "SrcPort")) ≡ true
        → get (codes "SrcPort") m' ≡ get (codes "SrcPort") m
    pub address :
        (src : Bytes)
        → valid_ip_string ext (get (codes "SrcAddr") m) ≡ some src
        → (get (codes "SrcAddr") m' ≡ get (codes "SrcAddr") m)
          ⊎ (get (codes "SrcAddr") m' ≡ str src)

  Keeps-refl : (m : GenericMap) → Keeps m m
  Keeps-refl m = record { others = λ key e. refl; port = λ e. refl; address = λ src e. inl refl }

  known_not_missing : (p : Option ℕ) → port_known p ≡ true → port_missing p ≡ false
  unfolding port_known port_missing
  known_not_missing none e = cc
  known_not_missing (some p) e = ground arith

  -- The port after `put_missing_port`.
  put_missing_port-lookup :
      (port : ℕ) (m : GenericMap) (key : Bytes)
      → eq_bytes (codes "SrcPort") key ≡ false
      → lookup key (put_missing_port ext port m) ≡ lookup key m
  unfolding put_missing_port
  put_missing_port-lookup port m key e =
      ground (arith, lookup-put (codes "SrcPort") key (uint16 port) m)

  put_missing_port-known :
      (port : ℕ) (m : GenericMap)
      → port_known (map_port_from_generic m (codes "SrcPort")) ≡ true
      → put_missing_port ext port m ≡ m
  unfolding put_missing_port
  put_missing_port-known port m e = ground (arith, known_not_missing _ e)

  get-lookup :
      (key : Bytes) (m m' : GenericMap) → lookup key m ≡ lookup key m' → get key m ≡ get key m'
  unfolding get
  get-lookup key m m' e = ground arith

  abbrev with_peer : GenericMap → Bytes → GenericMap
  with_peer m peer =
      put (codes "SrcAddr") (str (ext.ip_string peer)) (put (codes "Proto") (float64 (whole 6)) m)

  with_peer-lookup :
      (m : GenericMap) (peer key : Bytes)
      → eq_bytes (codes "SrcAddr") key ≡ false
      → eq_bytes (codes "Proto") key ≡ false
      → lookup key (with_peer m peer) ≡ lookup key m
  with_peer-lookup m peer key a p =
      lookup-put (codes "SrcAddr") key (str (ext.ip_string peer))
        (put (codes "Proto") (float64 (whole 6)) m)
      ∙ if_false _ _ a
      ∙ lookup-put (codes "Proto") key (float64 (whole 6)) m
      ∙ if_false _ _ p

  src_port-with_peer :
      (m : GenericMap) (peer : Bytes)
      → get (codes "SrcPort") (with_peer m peer) ≡ get (codes "SrcPort") m
  src_port-with_peer m peer = get-lookup (codes "SrcPort") (with_peer m peer) m (
      with_peer-lookup m peer (codes "SrcPort") (unfold eq_bytes in refl) (unfold eq_bytes in refl))

  write_peer-port :
      (m : GenericMap) (peer : Bytes) (port : ℕ)
      → port_known (map_port_from_generic m (codes "SrcPort")) ≡ true
      → get (codes "SrcPort") (write_peer ext m peer port) ≡ get (codes "SrcPort") m
  unfolding write_peer map_port_from_generic
  write_peer-port m peer port known =
      let same = src_port-with_peer m peer in
      ap (get (codes "SrcPort")) (
        put_missing_port-known port (with_peer m peer)
          (ap (λ v. port_known (port_of_value v)) same ∙ known))
      ∙ same

  write_peer-address :
      (m : GenericMap) (peer : Bytes) (port : ℕ)
      → get (codes "SrcAddr") (write_peer ext m peer port) ≡ str (ext.ip_string peer)
  unfolding write_peer
  write_peer-address m peer port =
      get-lookup (codes "SrcAddr") (put_missing_port ext port (with_peer m peer)) (with_peer m peer)
        (put_missing_port-lookup port (with_peer m peer) (codes "SrcAddr")
          (unfold eq_bytes in refl))
      ∙ get-put_self (codes "SrcAddr") (str (ext.ip_string peer)) _

  write_peer-others :
      (m : GenericMap) (peer : Bytes) (port : ℕ) (key : Bytes)
      → is_enriched_key key ≡ false
      → lookup key (write_peer ext m peer port) ≡ lookup key m
  unfolding write_peer is_enriched_key
  write_peer-others m peer port key e =
      put_missing_port-lookup port (with_peer m peer) key (ground arith)
      ∙ with_peer-lookup m peer key (ground arith) (ground arith)

  write_peer-Keeps :
      (m : GenericMap) (peer : Bytes) (port : ℕ)
      → ((src : Bytes)
          → valid_ip_string ext (get (codes "SrcAddr") m) ≡ some src
          → src ≡ ext.ip_string peer)
      → Keeps m (write_peer ext m peer port)
  write_peer-Keeps m peer port same = record {
    others = write_peer-others m peer port;
    port = write_peer-port m peer port;
    address = λ src e. inr (write_peer-address m peer port ∙ ap str (sym (same src e)));
  }

  apply_workload-Keeps :
      (m : GenericMap) (peer : Bytes) (port : ℕ)
      → Keeps m (apply_workload_plaintext_tuple ext m peer port)
  unfolding apply_workload_plaintext_tuple
  apply_workload-Keeps m peer port = by_address (valid_ip_string ext (get (codes "SrcAddr") m)) refl
    where
      by_address :
          (a : Option Bytes)
          → valid_ip_string ext (get (codes "SrcAddr") m) ≡ a
          → Keeps m (elim a as (λ _. GenericMap) [
            | none ↦ write_peer ext m peer port
            | some src ↦ if eq_bytes src (ext.ip_string peer) then write_peer ext m peer port else m
          ])
      by_address none e = write_peer-Keeps m peer port (λ src f. cc)
      by_address (some src) e = elim (Bool-cases (eq_bytes src (ext.ip_string peer))) [
        | inl t ↦ subst (Keeps m) (sym (if_true _ _ t)) (
            write_peer-Keeps m peer port
              (λ s f. let same : s ≡ src = cc in same ∙ eq_bytes→eq _ _ t))
        | inr t ↦ subst (Keeps m) (sym (if_false _ _ t)) (Keeps-refl m)
      ]

  abbrev with_port : GenericMap → ℕ → GenericMap
  with_port m port = put (codes "SrcPort") (uint16 port) (put (codes "Proto") (float64 (whole 6)) m)

  with_port-lookup :
      (m : GenericMap) (port : ℕ) (key : Bytes)
      → eq_bytes (codes "SrcPort") key ≡ false
      → eq_bytes (codes "Proto") key ≡ false
      → lookup key (with_port m port) ≡ lookup key m
  with_port-lookup m port key a p =
      lookup-put (codes "SrcPort") key (uint16 port) (put (codes "Proto") (float64 (whole 6)) m)
      ∙ if_false _ _ a
      ∙ lookup-put (codes "Proto") key (float64 (whole 6)) m
      ∙ if_false _ _ p

  enrich_port-Keeps : (m : GenericMap) (port : ℕ) → Keeps m (enrich_port ext m port)
  unfolding enrich_port
  enrich_port-Keeps m port = elim (Bool-cases (ltb 0 port)) [
    | inr e ↦ subst (Keeps m) (sym (if_false _ _ e)) (Keeps-refl m)
    | inl e ↦
        subst (Keeps m) (sym (if_true _ _ e))
          (elim (Bool-cases (port_known (map_port_from_generic m (codes "SrcPort")))) [
            | inl k ↦ subst (Keeps m) (sym (if_true _ _ k)) (Keeps-refl m)
            | inr k ↦ subst (Keeps m) (sym (if_false _ _ k)) (record {
              others = λ key n.
                  unfold is_enriched_key in
                  with_port-lookup m port key (ground arith) (ground arith);
              port = λ known. cc;
              address = λ src a. inl (
                  get-lookup (codes "SrcAddr") (with_port m port) m (
                    with_port-lookup m port (codes "SrcAddr") (unfold eq_bytes in refl)
                      (unfold eq_bytes in refl)));
            })
          ])
  ]

  -- What the filters leave: no field changes but `SrcAddr`, `SrcPort` and `Proto`; a source port above
  -- zero stays; a valid source address stays, or is written again in its canonical print; and a record
  -- with a whole tuple is not changed at all.
  pub enrich-Keeps :
      (m : GenericMap) (f : CaptureFilters)
      → Keeps m (enrich_plaintext_from_capture_filters ext m f)
        × (plaintext_has_tuple ext m ≡ true → enrich_plaintext_from_capture_filters ext m f ≡ m)
  unfolding enrich_plaintext_from_capture_filters
  enrich-Keeps m f = (keeps, λ e. if_true _ _ e)
    where
      by_peer :
          (p : Option Bytes)
          → Keeps m (elim p as (λ _. GenericMap) [
            | some peer ↦ apply_workload_plaintext_tuple ext m peer (single_capture_port f)
            | none ↦ enrich_port ext m (single_capture_port f)
          ])
      by_peer none = enrich_port-Keeps m (single_capture_port f)
      by_peer (some peer) = apply_workload-Keeps m peer (single_capture_port f)

      keeps : Keeps m (enrich_plaintext_from_capture_filters ext m f)
      keeps = elim (Bool-cases (plaintext_has_tuple ext m)) [
        | inl e ↦ subst (Keeps m) (sym (if_true _ _ e)) (Keeps-refl m)
        | inr e ↦ subst (Keeps m) (sym (if_false _ _ e)) (by_peer (single_capture_peer_ip f))
      ]

  -- The filters change no field of a record but `SrcAddr`, `SrcPort` and `Proto`.
  pub enrich_others :
      (m : GenericMap) (f : CaptureFilters) (key : Bytes)
      → is_enriched_key key ≡ false
      → lookup key (enrich_plaintext_from_capture_filters ext m f) ≡ lookup key m
  enrich_others m f key e = (enrich-Keeps m f).0.others key e

  -- The filters never replace a source port above zero.
  pub enrich_port_known :
      (m : GenericMap) (f : CaptureFilters)
      → port_known (map_port_from_generic m (codes "SrcPort")) ≡ true
      → get (codes "SrcPort") (enrich_plaintext_from_capture_filters ext m f)
        ≡ get (codes "SrcPort") m
  enrich_port_known m f e = (enrich-Keeps m f).0.port e

  -- The filters leave a valid source address as it is, or write it again in its canonical print.
  pub enrich_address_known :
      (m : GenericMap) (f : CaptureFilters) (src : Bytes)
      → valid_ip_string ext (get (codes "SrcAddr") m) ≡ some src
      → let m' = enrich_plaintext_from_capture_filters ext m f in
        (get (codes "SrcAddr") m' ≡ get (codes "SrcAddr") m) ⊎ (get (codes "SrcAddr") m' ≡ str src)
  enrich_address_known m f src e = (enrich-Keeps m f).0.address src e
