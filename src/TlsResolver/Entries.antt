-- ===== src/TlsResolver/Entries.antt =====
-- The entries of the ConfigMap are read back as the numbers that they print.
use netobserv_cli.Common.{
  ℕ, zero, suc, ◌+◌, ◌/◌, ◌%◌, ◌≤◌, ◌≡◌, ◌≢◌, refl, ap, Bool, true, false, List, [], ◌∷◌, ◌++◌, map,
  Option, none, some, ltb, ◌==◌, if◌then◌else◌, All, arith, append-nil, append_assoc, ◌∙◌, sym,
}
use netobserv_cli.Text.{Bytes, codes, eq_bytes, join, split, split_from}
use netobserv_cli.Text.Numbers.{format_uint, digits_before, parse_uint, parse_uint-format_uint}
use netobserv_cli.TlsResolver.{
  TlsConfig, EnvMap, uint16_slice_to_string, ids_entry, config_to_env_map,
}

-- The value of a key.
unfoldable pub entry : Bytes → EnvMap → Option Bytes
entry key [] = none
entry key ((k, v) ∷ env) = let rest = entry key env in if eq_bytes k key then some v else rest

-- Numbers that are read one after the other, if each of them can be read.
unfoldable pub prepend_read : Option ℕ → Option (List ℕ) → Option (List ℕ)
prepend_read none ns = none
prepend_read (some n) none = none
prepend_read (some n) (some ns) = some (n ∷ ns)

unfoldable pub read_all : List Bytes → Option (List ℕ)
read_all [] = some []
read_all (p ∷ ps) = prepend_read (parse_uint 65535 p) (read_all ps)

-- A key that is not there stands for no numbers.
unfoldable pub read_entry : Option Bytes → Option (List ℕ)
read_entry none = some []
read_entry (some v) = read_all (split b',' v)

abbrev pub IsUint16 : ℕ → Type 0
IsUint16 n = n ≤ 65535

HasNoComma : Bytes → Type 0
HasNoComma = All (λ c. c ≢ b',')

if-HasNoComma :
    (b : Bool) (s t : Bytes) → HasNoComma s → HasNoComma t → HasNoComma (if b then s else t)
if-HasNoComma true s t hs ht = hs
if-HasNoComma false s t hs ht = ht

digits_before-HasNoComma :
    (fuel n : ℕ) (acc : Bytes) → HasNoComma acc → HasNoComma (digits_before fuel n acc)
unfolding digits_before HasNoComma
digits_before-HasNoComma zero n acc h = h
digits_before-HasNoComma (suc fuel) n acc h =
    if-HasNoComma (ltb n 10) ((b'0' + n) ∷ acc)
      (digits_before fuel (n / 10) ((b'0' + n % 10) ∷ acc)) (ground arith, h)
      (digits_before-HasNoComma fuel (n / 10) ((b'0' + n % 10) ∷ acc) (ground arith, h))

format_uint-HasNoComma : (n : ℕ) → HasNoComma (format_uint n)
unfolding format_uint HasNoComma
format_uint-HasNoComma n = digits_before-HasNoComma (suc n) n [] tt

split_from-last : (cur p : Bytes) → HasNoComma p → split_from b',' cur p ≡ (cur ++ p) ∷ []
unfolding split_from HasNoComma
split_from-last cur [] h = ap (λ s. s ∷ []) (sym (append-nil cur))
split_from-last cur (c ∷ p) (hc, h) =
    ground (arith, split_from-last (cur ++ c ∷ []) p h, append_assoc cur (c ∷ []) p)

split_from-part :
    (cur p rest : Bytes)
    → HasNoComma p
    → split_from b',' cur (p ++ b',' ∷ rest) ≡ (cur ++ p) ∷ split_from b',' [] rest
unfolding split_from HasNoComma
split_from-part cur [] rest h = ap (λ s. s ∷ split_from b',' [] rest) (sym (append-nil cur))
split_from-part cur (c ∷ p) rest (hc, h) =
    ground (arith, split_from-part (cur ++ c ∷ []) p rest h, append_assoc cur (c ∷ []) p)

-- A list that is not empty is split where it was joined.
split-join :
    (p : Bytes) (ps : List Bytes)
    → HasNoComma p
    → All HasNoComma ps
    → split b',' (join b',' (p ∷ ps)) ≡ p ∷ ps
unfolding split join
split-join p [] hp h = split_from-last [] p hp
split-join p (q ∷ ps) hp (hq, h) =
    split_from-part [] p (join b',' (q ∷ ps)) hp
    ∙ ap (λ r. p ∷ r) (unfold split in split-join q ps hq h)

map-format_uint-HasNoComma : (ids : List ℕ) → All HasNoComma (map format_uint ids)
map-format_uint-HasNoComma [] = tt
map-format_uint-HasNoComma (id ∷ ids) = (format_uint-HasNoComma id, map-format_uint-HasNoComma ids)

read_all-format_uint : (ids : List ℕ) → All IsUint16 ids → read_all (map format_uint ids) ≡ some ids
unfolding read_all prepend_read
read_all-format_uint [] h = refl
read_all-format_uint (id ∷ ids) (small, h) =
    rw (parse_uint-format_uint 65535 id small, read_all-format_uint ids h)

read_ids :
    (id : ℕ) (ids : List ℕ)
    → All IsUint16 (id ∷ ids)
    → read_all (split b',' (uint16_slice_to_string (id ∷ ids))) ≡ some (id ∷ ids)
unfolding uint16_slice_to_string
read_ids id ids h =
    ap read_all (
      split-join (format_uint id) (map format_uint ids) (format_uint-HasNoComma id)
        (map-format_uint-HasNoComma ids))
    ∙ read_all-format_uint (id ∷ ids) h

-- The value that a list of numbers is stored as.
abbrev value_of_ids : List ℕ → Option Bytes
value_of_ids [] = none
value_of_ids (id ∷ ids) = some (uint16_slice_to_string (id ∷ ids))

-- The entries by their keys.
entries_of :
    (without : Bool) (v : Bytes) (suites curves : List ℕ)
    → let env =
        (if without then [] else (codes "TLS_MIN_VERSION", v) ∷ [])
        ++ ids_entry (codes "TLS_CIPHER_SUITES") suites
        ++ ids_entry (codes "TLS_CURVE_PREFERENCES") curves in
      (entry (codes "TLS_MIN_VERSION") env ≡ (if without then none else some v))
      × (entry (codes "TLS_CIPHER_SUITES") env ≡ value_of_ids suites)
      × (entry (codes "TLS_CURVE_PREFERENCES") env ≡ value_of_ids curves)
unfolding entry eq_bytes ids_entry
entries_of true v [] [] = (refl, refl, refl)
entries_of true v [] (c ∷ curves) = (refl, refl, refl)
entries_of true v (s ∷ suites) [] = (refl, refl, refl)
entries_of true v (s ∷ suites) (c ∷ curves) = (refl, refl, refl)
entries_of false v [] [] = (refl, refl, refl)
entries_of false v [] (c ∷ curves) = (refl, refl, refl)
entries_of false v (s ∷ suites) [] = (refl, refl, refl)
entries_of false v (s ∷ suites) (c ∷ curves) = (refl, refl, refl)

read_value_of_ids : (ids : List ℕ) → All IsUint16 ids → read_entry (value_of_ids ids) ≡ some ids
unfolding read_entry
read_value_of_ids [] h = refl
read_value_of_ids (id ∷ ids) h = read_ids id ids h

read_version :
    (without : Bool) (n : ℕ)
    → IsUint16 n
    → read_entry (if without then none else some (format_uint n))
      ≡ some (if without then [] else n ∷ [])
unfolding read_entry
read_version true n h = refl
read_version false n h = unfold uint16_slice_to_string join in read_ids n [] (h, tt)

-- A reader of the entries, which splits a value at its commas and parses the parts as uint16, gets
-- the config's own numbers: the version, if it is not 0, the cipher suites and the curves, where
-- all of these numbers are uint16.
pub read-config_to_env_map :
    (c : TlsConfig)
    → IsUint16 c.min_version
    → All IsUint16 c.cipher_suites
    → All IsUint16 c.curve_preferences
    → let env = config_to_env_map (some c) in
      (read_entry (entry (codes "TLS_MIN_VERSION") env)
        ≡ some (if c.min_version == 0 then [] else c.min_version ∷ []))
      × (read_entry (entry (codes "TLS_CIPHER_SUITES") env) ≡ some c.cipher_suites)
      × (read_entry (entry (codes "TLS_CURVE_PREFERENCES") env) ≡ some c.curve_preferences)
unfolding config_to_env_map
read-config_to_env_map c hm hs hc =
    let (em, es, ec) =
      entries_of (c.min_version == 0) (format_uint c.min_version) c.cipher_suites
        c.curve_preferences in
    (
      ap read_entry em ∙ read_version (c.min_version == 0) c.min_version hm,
      ap read_entry es ∙ read_value_of_ids c.cipher_suites hs,
      ap read_entry ec ∙ read_value_of_ids c.curve_preferences hc,
    )
