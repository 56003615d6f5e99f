-- ===== src/TlsResolver/Usable.antt =====
-- What is published of a profile: a config that a server can be run with, or nothing new.
use netobserv_cli.Common.{
  ℕ, ◌<◌, ◌≡◌, refl, ◌==◌, Bool, true, false, List, [], ◌∷◌, Option, none, some, if◌then◌else◌, All,
  arith, ◌⊎◌, inl, inr,
}
use netobserv_cli.Text.{Bytes, is_empty}
use netobserv_cli.GenericMap.{GenericMap}
use netobserv_cli.TlsResolver.{
  SecurityProfile, TlsConfig, Libraries, Group, EnvMap, compose_tls_config, config_to_env_map,
  suite_named, cipher_suite_by_name, suite_ids, curve_id_by_group, curve_ids, prepend_some,
  tls_version_from_string, or_zero, settings_of, spec_of, profile_to_tls_config, override,
  ProfileSpec, ProtocolVersion,
}
use netobserv_cli.TlsResolver.Entries.{IsUint16}
use netobserv_cli.TlsResolver.Resolution.{
  Answer, apply_config_map, publish, resolve, fetch_tls_profile,
}

-- A config that a server can be run with: it has a version and cipher suites, and all of its numbers
-- are uint16.
pub record IsUsable (c : TlsConfig) : Type 0 where
  pub has_version : 0 < c.min_version
  pub version_fits : IsUint16 c.min_version
  pub has_suites : is_empty c.cipher_suites ≡ false
  pub suites_fit : All IsUint16 c.cipher_suites
  pub curves_fit : All IsUint16 c.curve_preferences

unfoldable pub AreUint16 : List (Bytes × ℕ) → Type 0
AreUint16 = All (λ suite. IsUint16 suite.1)

suite_named-le :
    (name : Bytes) (suites : List (Bytes × ℕ)) (next : ℕ)
    → AreUint16 suites
    → IsUint16 next
    → IsUint16 (suite_named name suites next)
unfolding suite_named AreUint16
suite_named-le name [] next h hn = hn
suite_named-le name ((n, id) ∷ suites) next (hi, h) hn =
    ground (arith, suite_named-le name suites next h hn)

-- The numbers of the libraries' suites.
pub record AreSuites (lib : Libraries) : Type 0 where
  pub known : AreUint16 lib.known_suites
  pub insecure : AreUint16 lib.insecure_suites

cipher_suite_by_name-le :
    (lib : Libraries) → AreSuites lib → (name : Bytes) → IsUint16 (cipher_suite_by_name lib name)
unfolding cipher_suite_by_name
cipher_suite_by_name-le lib h name =
    suite_named-le name lib.known_suites (suite_named name lib.insecure_suites 0) h.known
      (suite_named-le name lib.insecure_suites 0 h.insecure (omega arith))

if-All :
    (b : Bool) (xs ys : List ℕ)
    → All IsUint16 xs
    → All IsUint16 ys
    → All IsUint16 (if b then xs else ys)
if-All true xs ys hx hy = hx
if-All false xs ys hx hy = hy

suite_ids-fit :
    (lib : Libraries) → AreSuites lib → (names : List Bytes) → All IsUint16 (suite_ids lib names)
unfolding suite_ids
suite_ids-fit lib h [] = tt
suite_ids-fit lib h (name ∷ names) =
    let later = suite_ids-fit lib h names in
    if-All (cipher_suite_by_name lib name == 0) (suite_ids lib names)
      (cipher_suite_by_name lib name ∷ suite_ids lib names) later
      (cipher_suite_by_name-le lib h name, later)

prepend_some-fit :
    (group : Group) (ids : List ℕ)
    → All IsUint16 ids
    → All IsUint16 (prepend_some (curve_id_by_group group) ids)
unfolding curve_id_by_group prepend_some
prepend_some-fit Group.x25519 ids h = (omega arith, h)
prepend_some-fit Group.secp256r1 ids h = (omega arith, h)
prepend_some-fit Group.secp384r1 ids h = (omega arith, h)
prepend_some-fit Group.secp521r1 ids h = (omega arith, h)
prepend_some-fit Group.x25519_mlkem768 ids h = (omega arith, h)
prepend_some-fit Group.secp256r1_mlkem768 ids h = (omega arith, h)
prepend_some-fit Group.secp384r1_mlkem1024 ids h = (omega arith, h)
prepend_some-fit (Group.other_group name) ids h = h

curve_ids-fit : (groups : List Group) → All IsUint16 (curve_ids groups)
unfolding curve_ids
curve_ids-fit [] = tt
curve_ids-fit (group ∷ groups) = prepend_some-fit group (curve_ids groups) (curve_ids-fit groups)

version-fits : (v : ProtocolVersion) → IsUint16 (or_zero (tls_version_from_string v))
unfolding tls_version_from_string or_zero
version-fits ProtocolVersion.tls10 = omega arith
version-fits ProtocolVersion.tls11 = omega arith
version-fits ProtocolVersion.tls12 = omega arith
version-fits ProtocolVersion.tls13 = omega arith
version-fits (ProtocolVersion.other_version name) = omega arith

-- The settings of a profile, which may be empty.
record Fits (c : TlsConfig) : Type 0 where
  version : IsUint16 c.min_version
  suites : All IsUint16 c.cipher_suites
  curves : All IsUint16 c.curve_preferences

settings_of-Fits :
    (lib : Libraries) → AreSuites lib → (spec : Option ProfileSpec) → Fits (settings_of lib spec).0
unfolding settings_of
settings_of-Fits lib h none = record { version = omega arith; suites = tt; curves = tt }
settings_of-Fits lib h (some spec) = record {
  version = version-fits spec.min_tls_version;
  suites = suite_ids-fit lib h (lib.openssl_to_iana spec.ciphers);
  curves = curve_ids-fit spec.groups;
}

still_has :
    (xs ys : List ℕ) → is_empty ys ≡ false → is_empty (if is_empty xs then ys else xs) ≡ false
still_has [] ys h = h
still_has (x ∷ xs) ys h = refl

override-IsUsable : (base c : TlsConfig) → IsUsable base → Fits c → IsUsable (override base c)
unfolding override
override-IsUsable base c b f = record {
  has_version = ground (arith, b.has_version);
  version_fits = ground (arith, b.version_fits, f.version);
  has_suites = still_has c.cipher_suites base.cipher_suites b.has_suites;
  suites_fit =
      if-All (is_empty c.cipher_suites) base.cipher_suites c.cipher_suites b.suites_fit f.suites;
  curves_fit =
      if-All (is_empty c.curve_preferences) base.curve_preferences c.curve_preferences b.curves_fit
        f.curves;
}

-- Whatever the profile, also one that is nil, unknown or only partly resolved, the composed config is
-- usable, if the libraries' secure config is and their suites have uint16 numbers.
pub compose_tls_config-IsUsable :
    (lib : Libraries)
    → IsUsable lib.secure_config
    → AreSuites lib
    → (profile : Option SecurityProfile) → IsUsable (compose_tls_config lib profile).0
unfolding compose_tls_config profile_to_tls_config
compose_tls_config-IsUsable lib base h none = base
compose_tls_config-IsUsable lib base h (some p) =
    override-IsUsable lib.secure_config (settings_of lib (spec_of lib p)).0 base
      (settings_of-Fits lib h (spec_of lib p))

-- What a call leaves of the ConfigMap and answers: an error and the ConfigMap as it was, or the
-- entries of a usable config.
abbrev pub IsAllOrNothing : Option EnvMap → Option EnvMap × Bool → Type 0
IsAllOrNothing config_map result =
    (result.1 ≡ false) × (result.0 ≡ config_map)
    ⊎ (result.1 ≡ true)
      × ((c : TlsConfig) × IsUsable c × (result.0 ≡ some (config_to_env_map (some c))))

apply_config_map-IsAllOrNothing :
    (refuses_read refuses_write : Bool) (c : TlsConfig)
    → IsUsable c
    → (config_map : Option EnvMap)
    → IsAllOrNothing config_map
        (apply_config_map refuses_read refuses_write (config_to_env_map (some c)) config_map)
unfolding apply_config_map
apply_config_map-IsAllOrNothing true refuses_write c u config_map = inl (refl, refl)
apply_config_map-IsAllOrNothing false true c u none = inl (refl, refl)
apply_config_map-IsAllOrNothing false true c u (some old) = inl (refl, refl)
apply_config_map-IsAllOrNothing false false c u none = inr (refl, (c, u, refl))
apply_config_map-IsAllOrNothing false false c u (some old) = inr (refl, (c, u, refl))

publish-IsAllOrNothing :
    (lib : Libraries)
    → IsUsable lib.secure_config
    → AreSuites lib
    → (refuses_read refuses_write : Bool) (profile : Option SecurityProfile)
      (config_map : Option EnvMap)
    → IsAllOrNothing config_map (publish lib refuses_read refuses_write profile config_map)
unfolding publish
publish-IsAllOrNothing lib base h refuses_read refuses_write none config_map = inl (refl, refl)
publish-IsAllOrNothing lib base h refuses_read refuses_write (some p) config_map =
    apply_config_map-IsAllOrNothing refuses_read refuses_write (compose_tls_config lib (some p)).0
      (compose_tls_config-IsUsable lib base h (some p)) config_map

-- A resolution fails and leaves the ConfigMap as it was, or it succeeds and the ConfigMap holds the
-- entries of a usable config, whatever the API answers and whatever the profile, if the libraries'
-- secure config is usable and their suites have uint16 numbers.
pub resolve-IsAllOrNothing :
    (lib : Libraries)
    → IsUsable lib.secure_config
    → AreSuites lib
    → {Object : Type 0}
    → (nested : Object → Option (Option GenericMap)) (decode : GenericMap → Option SecurityProfile)
      (connected : Bool) (answer : Answer Object) (refuses_read refuses_write : Bool)
      (config_map : Option EnvMap)
    → IsAllOrNothing config_map
        (resolve lib nested decode connected answer refuses_read refuses_write config_map)
unfolding resolve
resolve-IsAllOrNothing lib base h nested decode false answer refuses_read refuses_write config_map =
    inl (refl, refl)
resolve-IsAllOrNothing lib base h nested decode true answer refuses_read refuses_write config_map =
    publish-IsAllOrNothing lib base h refuses_read refuses_write
      (fetch_tls_profile nested decode answer) config_map
