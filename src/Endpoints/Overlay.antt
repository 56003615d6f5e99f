-- ===== src/Endpoints/Overlay.antt =====
-- What a record's tuple is once the packet's is written over it.
use netobserv_cli.Common.{
  ℕ, ◌≡◌, refl, sym, subst, ap, ◌∙◌, Bool, false, ◌||◌, Option, none, some, arith, if◌then◌else◌,
  if_false, if_true, Bool-cases, inl, inr, ◌>>=◌,
}
use netobserv_cli.Text.{Bytes, codes, eq_bytes, is_empty}
use netobserv_cli.GenericMap.{
  GenericMap, Value, str, float64, uint16, int, int64, null, uint64, bool, slice, object, get, put,
  string?,
}
use netobserv_cli.GenericMap.Laws.{get-put, get-put_self}
use netobserv_cli.Extern.{Extern}
use netobserv_cli.Endpoints.{
  FlowTuple, canonical_ip, valid_ip_string, map_port_from_generic, port_of_value,
  flow_tuple_from_map, set_plaintext_tuple, overlay_wire_tuple_to_plaintext,
}
use netobserv_cli.Endpoints.Tuples.{tuple_of, tuple_of-cong}

-- The texts that stand for no address.
unfoldable pub is_no_address : Bytes → Bool
is_no_address s = is_empty s || eq_bytes s (codes "0.0.0.0") || eq_bytes s (codes "::")

-- What the documentation of `net` says of `IP.String`, for an address that `ParseIP` gave: it parses to
-- the same address, and it is a text of its own, apart from those of the unspecified addresses.
pub record IpLaws (ext : Extern) : Type 0 where
  pub reparse :
      (s ip : Bytes) → ext.parse_ip s ≡ some ip → ext.parse_ip (ext.ip_string ip) ≡ some ip
  pub printed :
      (s ip : Bytes)
      → ext.parse_ip s ≡ some ip
      → ext.is_unspecified ip ≡ false
      → is_no_address (ext.ip_string ip) ≡ false

get-put_other :
    (k j : Bytes) (v : Value) (m : GenericMap) → eq_bytes k j ≡ false → get j (put k v m) ≡ get j m
get-put_other k j v m e = get-put k j v m ∙ if_false _ _ e

module _ (ext : Extern) (laws : IpLaws ext) where
  -- A canonical print stays as it is.
  canonical-fixed :
      (s a : Bytes) → canonical_ip ext s ≡ some a → valid_ip_string ext (str a) ≡ some a
  unfolding canonical_ip valid_ip_string is_no_address string?
  canonical-fixed s a = by_parse (ext.parse_ip s) refl
    where
      kept :
          (ip : Bytes)
          → ext.parse_ip s ≡ some ip
          → ext.is_unspecified ip ≡ false
          → valid_ip_string ext (str (ext.ip_string ip)) ≡ some (ext.ip_string ip)
      kept ip p u =
          if_false _ _ (laws.printed s ip p u)
          ∙ ap
              (λ (o : Option Bytes).
                o >>= λ x. if ext.is_unspecified x then none else some (ext.ip_string x))
              (laws.reparse s ip p)
          ∙ if_false _ _ u

      by_parse :
          (c : Option Bytes)
          → ext.parse_ip s ≡ c
          → (c >>= λ ip. if ext.is_unspecified ip then none else some (ext.ip_string ip)) ≡ some a
          → valid_ip_string ext (str a) ≡ some a
      by_parse none p e = cc
      by_parse (some ip) p e = elim (Bool-cases (ext.is_unspecified ip)) [
        | inl u ↦ let bad : none ≡ some a = sym (if_true _ _ u) ∙ e in cc
        | inr u ↦
            let good : some (ext.ip_string ip) ≡ some a = sym (if_false _ _ u) ∙ e in
            let same : ext.ip_string ip ≡ a = cc in
            subst (λ x. valid_ip_string ext (str x) ≡ some x) same (kept ip p u)
      ]

  valid-fixed :
      (v : Value) (a : Bytes)
      → valid_ip_string ext v ≡ some a
      → valid_ip_string ext (str a) ≡ some a
  unfolding valid_ip_string string? is_no_address
  valid-fixed (str s) a e = elim (Bool-cases (is_no_address s)) [
    | inl n ↦ let bad : none ≡ some a = sym (if_true _ _ n) ∙ e in cc
    | inr n ↦ canonical-fixed s a (sym (if_false _ _ n) ∙ e)
  ]
  valid-fixed null a e = cc
  valid-fixed (float64 v) a e = cc
  valid-fixed (int v) a e = cc
  valid-fixed (int64 v) a e = cc
  valid-fixed (uint16 v) a e = cc
  valid-fixed (uint64 v) a e = cc
  valid-fixed (bool v) a e = cc
  valid-fixed (slice v) a e = cc
  valid-fixed (object v) a e = cc

  -- A tuple is made of its four parts.
  tuple_of-parts :
      (a b : Option Bytes) (c d : Option ℕ) (t : FlowTuple)
      → tuple_of a b c d ≡ some t
      → (a ≡ some t.src_ip) × (b ≡ some t.dst_ip) × (c ≡ some t.src_port) × (d ≡ some t.dst_port)
  tuple_of-parts none b c d t e = cc
  tuple_of-parts (some a) none c d t e = cc
  tuple_of-parts (some a) (some b) none d t e = cc
  tuple_of-parts (some a) (some b) (some c) none t e = cc
  tuple_of-parts (some a) (some b) (some c) (some d) t e = ground arith

  -- The fields that `setPlaintextTuple` writes.
  set_tuple-fields :
      (si : Bytes) (sp : ℕ) (di : Bytes) (dp : ℕ) (m : GenericMap)
      → let m' = set_plaintext_tuple si sp di dp m in
        (get (codes "SrcAddr") m' ≡ str si)
        × (get (codes "DstAddr") m' ≡ str di)
        × (get (codes "SrcPort") m' ≡ uint16 sp)
        × (get (codes "DstPort") m' ≡ uint16 dp)
  unfolding set_plaintext_tuple eq_bytes
  set_tuple-fields si sp di dp m = (
    get-put_other (codes "Proto") (codes "SrcAddr") _ _ refl
        ∙ get-put_other (codes "DstPort") (codes "SrcAddr") _ _ refl
        ∙ get-put_other (codes "SrcPort") (codes "SrcAddr") _ _ refl
        ∙ get-put_other (codes "DstAddr") (codes "SrcAddr") _ _ refl
        ∙ get-put_self (codes "SrcAddr") _ _,
    get-put_other (codes "Proto") (codes "DstAddr") _ _ refl
        ∙ get-put_other (codes "DstPort") (codes "DstAddr") _ _ refl
        ∙ get-put_other (codes "SrcPort") (codes "DstAddr") _ _ refl
        ∙ get-put_self (codes "DstAddr") _ _,
    get-put_other (codes "Proto") (codes "SrcPort") _ _ refl
        ∙ get-put_other (codes "DstPort") (codes "SrcPort") _ _ refl
        ∙ get-put_self (codes "SrcPort") _ _,
    get-put_other (codes "Proto") (codes "DstPort") _ _ refl ∙ get-put_self (codes "DstPort") _ _,
  )

  set_tuple-flow_tuple :
      (t : FlowTuple) (m : GenericMap)
      → valid_ip_string ext (str t.src_ip) ≡ some t.src_ip
      → valid_ip_string ext (str t.dst_ip) ≡ some t.dst_ip
      → flow_tuple_from_map ext (set_plaintext_tuple t.src_ip t.src_port t.dst_ip t.dst_port m)
        ≡ some t
  unfolding flow_tuple_from_map map_port_from_generic port_of_value
  set_tuple-flow_tuple t m s d =
      let (src, dst, sp, dp) = set_tuple-fields t.src_ip t.src_port t.dst_ip t.dst_port m in
      tuple_of-cong (ap (valid_ip_string ext) src ∙ s) (ap (valid_ip_string ext) dst ∙ d)
        (ap port_of_value sp) (ap port_of_value dp)

  -- A record over which the tuple of a packet is written has that tuple, whatever it had
  -- before, if printed addresses parse again.
  pub flow_tuple-overlay :
      (pt wire : GenericMap) (t : FlowTuple)
      → flow_tuple_from_map ext wire ≡ some t
      → flow_tuple_from_map ext (overlay_wire_tuple_to_plaintext ext pt wire) ≡ some t
  unfolding overlay_wire_tuple_to_plaintext
  flow_tuple-overlay pt wire t e =
      let (src, dst, _, _) = parts_of wire t e in
      let written = set_tuple-flow_tuple t pt (valid-fixed _ _ src) (valid-fixed _ _ dst) in
      subst
        (λ (c : Option FlowTuple).
          flow_tuple_from_map ext (elim c as (λ _. GenericMap) [
            | none ↦ pt
            | some u ↦ set_plaintext_tuple u.src_ip u.src_port u.dst_ip u.dst_port pt
          ])
          ≡ some t)
        (sym e) written
    where
      parts_of :
          (m : GenericMap) (u : FlowTuple)
          → flow_tuple_from_map ext m ≡ some u
          → (valid_ip_string ext (get (codes "SrcAddr") m) ≡ some u.src_ip)
            × (valid_ip_string ext (get (codes "DstAddr") m) ≡ some u.dst_ip)
            × (map_port_from_generic m (codes "SrcPort") ≡ some u.src_port)
            × (map_port_from_generic m (codes "DstPort") ≡ some u.dst_port)
      parts_of m u f =
          tuple_of-parts (valid_ip_string ext (get (codes "SrcAddr") m))
            (valid_ip_string ext (get (codes "DstAddr") m))
            (map_port_from_generic m (codes "SrcPort")) (map_port_from_generic m (codes "DstPort"))
            u (unfold flow_tuple_from_map in f)
