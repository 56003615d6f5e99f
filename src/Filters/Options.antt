-- ===== src/Filters/Options.antt =====
-- What the options parse to.
use netobserv_cli.Common.{
  ℕ, ◌≡◌, ◌≤◌, refl, sym, subst, ◌∙◌, Bool, false, List, [], ◌∷◌, ◌++◌, Option, none, some, arith,
  Bool-cases, inl, inr, any, ◌||◌, ◌==◌, if_true, if_false,
}
use netobserv_cli.Text.{Bytes, codes, is_empty}
use netobserv_cli.Extern.{Extern}
use netobserv_cli.Endpoints.{max_port, parse_port_string}
use netobserv_cli.Endpoints.Ports.{parse_port_string-le}
use netobserv_cli.Filters.{append_unique_port, add_port_option, option_value, parse_capture_filters}

-- No port stands twice, and each is a port.
abbrev pub IsPortList : List ℕ → Type 0
IsPortList [] = Unit
IsPortList (p ∷ ports) = (p ≤ max_port) × (any (λ q. q == p) ports ≡ false) × IsPortList ports

any-append : (p : ℕ → Bool) (xs : List ℕ) (x : ℕ) → any p (xs ++ x ∷ []) ≡ (any p xs || p x)
unfolding any
any-append p [] x = ground arith
any-append p (y ∷ xs) x = ground (arith, any-append p xs x)

append-IsPortList :
    (ports : List ℕ) (p : ℕ)
    → p ≤ max_port
    → any (λ q. q == p) ports ≡ false
    → IsPortList ports
    → IsPortList (ports ++ p ∷ [])
unfolding any
append-IsPortList [] p l n u = (l, refl, tt)
append-IsPortList (x ∷ ports) p l n (lx, nx, u) = (
  lx,
  any-append (λ q. q == x) ports p ∙ ground arith,
  append-IsPortList ports p l (ground arith) u,
)

append_unique_port-IsPortList :
    (ports : List ℕ) (p : ℕ)
    → p ≤ max_port
    → IsPortList ports
    → IsPortList (append_unique_port ports p)
unfolding append_unique_port
append_unique_port-IsPortList ports p l u = elim (Bool-cases (any (λ q. q == p) ports)) [
  | inl e ↦ subst IsPortList (sym (if_true _ _ e)) u
  | inr e ↦ subst IsPortList (sym (if_false _ _ e)) (append-IsPortList ports p l e u)
]

add_port_option-IsPortList :
    (options : Bytes) (ports : List ℕ) (key : Bytes)
    → IsPortList ports
    → IsPortList (add_port_option options ports key)
unfolding add_port_option
add_port_option-IsPortList options ports key u =
    elim (Bool-cases (is_empty (option_value options key))) [
      | inl e ↦ subst IsPortList (sym (if_true _ _ e)) u
      | inr e ↦
          subst IsPortList (sym (if_false _ _ e))
            (by_port (parse_port_string (option_value options key)) refl)
    ]
  where
    by_port :
        (r : Option ℕ)
        → parse_port_string (option_value options key) ≡ r
        → IsPortList
            (elim r as (λ _. List ℕ) [ none ↦ ports | some p ↦ append_unique_port ports p ])
    by_port none e = u
    by_port (some p) e = append_unique_port-IsPortList ports p (parse_port_string-le _ p e) u

-- Whatever the options say, the ports of the filters are ports, and none stands twice.
pub parse_capture_filters-IsPortList :
    (ext : Extern) (options : Bytes) → IsPortList (parse_capture_filters ext options).ports
unfolding parse_capture_filters
parse_capture_filters-IsPortList ext options =
    add_port_option-IsPortList options _ (codes "sport") (
      add_port_option-IsPortList options _ (codes "dport")
        (add_port_option-IsPortList options [] (codes "port") tt))
