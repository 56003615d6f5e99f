-- ===== src/Text/Laws.antt =====
-- Laws of the comparison of byte strings.
use netobserv_cli.Common.{◌≡◌, refl, ◌↔◌, true, [], ◌∷◌, ◌++◌, arith, length, drop}
use netobserv_cli.Text.{Bytes, eq_bytes, has_prefix}

pub eq_bytes→eq : (a b : Bytes) → eq_bytes a b ≡ true → a ≡ b
unfolding eq_bytes
eq_bytes→eq [] [] h = refl
eq_bytes→eq [] (b ∷ bs) h = cc
eq_bytes→eq (a ∷ as') [] h = cc
eq_bytes→eq (a ∷ as') (b ∷ bs) h = ground (arith, eq_bytes→eq as' bs)

pub eq_bytes_refl : (a : Bytes) → eq_bytes a a ≡ true
unfolding eq_bytes
eq_bytes_refl [] = refl
eq_bytes_refl (a ∷ as') = ground (arith, eq_bytes_refl as')

pub eq_bytes_iff : (a b : Bytes) → (eq_bytes a b ≡ true) ↔ (a ≡ b)
eq_bytes_iff a b = (eq_bytes→eq a b, λ e. rw e (eq_bytes_refl b))

-- A prefix and what follows it spell the text.
pub has_prefix-append : (p s : Bytes) → has_prefix p s ≡ true → p ++ drop (length p) s ≡ s
unfolding has_prefix
has_prefix-append [] s h = refl
has_prefix-append (a ∷ p) [] h = cc
has_prefix-append (a ∷ p) (b ∷ s) h = ground (arith, has_prefix-append p s)

pub append-has_prefix : (p s : Bytes) → has_prefix p (p ++ s) ≡ true
unfolding has_prefix
append-has_prefix [] s = refl
append-has_prefix (a ∷ p) s = ground (arith, append-has_prefix p s)
