-- ===== src/Display/Options/Cycles.antt =====
-- The arrows and keys that go through the choices.
use netobserv_cli.Common.{
  ℕ, zero, suc, ◌+◌, ◌-◌, ◌%◌, ◌<◌, ◌≡◌, refl, sym, ap, List, [], ◌∷◌, some, arith, length,
  get_elem?, ◌∙◌,
}
use native.Mathlib.Nat.{mod-lt, mod-eq_of_lt, mod-add-mod, add-mod_right, suc-mod}
use netobserv_cli.Display.Options.{Choice, OptionItem, get_current_item, prev, next}

-- The current item is one of the choices.
abbrev pub IsChoice : Choice → Type 0
IsChoice opt = opt.current < length opt.items

prev_next_mod : (i n : ℕ) → i < n → (suc i % n + (n - 1)) % n ≡ i
prev_next_mod i n h =
    let e : suc i + (n - 1) ≡ i + n = omega (arith, h) in
    mod-add-mod (suc i) n (n - 1) ∙ ap (λ k. k % n) e ∙ add-mod_right i n ∙ mod-eq_of_lt h

next_prev_mod : (i n : ℕ) → i < n → suc ((i + (n - 1)) % n) % n ≡ i
next_prev_mod i n h =
    let e : suc (i + (n - 1)) ≡ i + n = omega (arith, h) in
    sym (suc-mod (i + (n - 1)) n) ∙ ap (λ k. k % n) e ∙ add-mod_right i n ∙ mod-eq_of_lt h

-- Each arrow takes back the other, and both stay within the choices.
pub prev-next :
    (opt : Choice)
    → IsChoice opt
    → (prev (next opt) ≡ opt) × (next (prev opt) ≡ opt) × IsChoice (next opt) × IsChoice (prev opt)
unfolding prev next
prev-next opt h = (
  ap (λ i. record opt { current = i }) (prev_next_mod opt.current (length opt.items) h),
  ap (λ i. record opt { current = i }) (next_prev_mod opt.current (length opt.items) h),
  mod-lt _ (omega (arith, h)),
  mod-lt _ (omega (arith, h)),
)

-- The choice after so many steps forward.
unfoldable pub steps : ℕ → Choice → Choice
steps zero opt = opt
steps (suc k) opt = steps k (next opt)

steps-current :
    (k : ℕ) (opt : Choice)
    → IsChoice opt
    → steps k opt ≡ record opt { current = (opt.current + k) % length opt.items }
unfolding steps next
steps-current zero opt h =
    let e : opt.current + 0 ≡ opt.current = omega arith in
    ap (λ i. record opt { current = i }) (sym (ap (λ k. k % length opt.items) e ∙ mod-eq_of_lt h))
steps-current (suc k) opt h =
    let n = length opt.items in
    let e : suc opt.current + k ≡ opt.current + suc k = omega arith in
    steps-current k (next opt) (mod-lt _ (omega (arith, h)))
    ∙ ap (λ i. record opt { current = i }) (mod-add-mod (suc opt.current) n k ∙ ap (λ j. j % n) e)

get_elem-some :
    {A : Type 0} (xs : List A) (i : ℕ) → i < length xs → (x : A) × (get_elem? xs i ≡ some x)
get_elem-some [] i h = absurd (omega (arith, h))
get_elem-some (x ∷ xs) zero h = (x, refl)
get_elem-some (x ∷ xs) (suc i) h = get_elem-some xs i (omega (arith, h))

-- Every item of the choices comes up after some steps forward, and is then the current one.
pub every_item_comes_up :
    (opt : Choice) (i : ℕ)
    → IsChoice opt
    → i < length opt.items
    → (k : ℕ) × (x : OptionItem) × (get_elem? opt.items i ≡ some x)
      × (get_current_item (steps k opt) ≡ some x)
unfolding get_current_item
every_item_comes_up opt i h b =
    let n = length opt.items in
    let k = n - opt.current + i in
    let around : opt.current + k ≡ i + n = omega (arith, h) in
    let e : (opt.current + k) % n ≡ i =
      ap (λ j. j % n) around ∙ add-mod_right i n ∙ mod-eq_of_lt b in
    let (x, found) = get_elem-some opt.items i b in
    (k, x, found, ap get_current_item (steps-current k opt h) ∙ ap (get_elem? opt.items) e ∙ found)
