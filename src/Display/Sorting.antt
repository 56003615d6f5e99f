-- ===== src/Display/Sorting.antt =====
-- `sort.Slice` as it is documented, and lists in order.
use netobserv_cli.Common.{
  ℕ, zero, suc, ◌-◌, ◌≡◌, refl, sym, ap, Bool, true, false, List, [], ◌∷◌, arith, ltb,
  if◌then◌else◌, if_true, if_false, length, drop, take, All, All-drop, filter, subst, Bool-cases,
  inl, inr, ◌∙◌,
}
use mathlib.Core.List.{Permᴰ}
use netobserv_cli.GenericMap.{GenericMap}
use netobserv_cli.Display.Order.{StrictWeak}

module _ {ℓ} {A : Type ℓ} where
  pub Perm-length : {xs ys : List A} → Permᴰ xs ys → length xs ≡ length ys
  Perm-length Permᴰ.nil = refl
  Perm-length (Permᴰ.cons e p) = ap suc (Perm-length p)
  Perm-length (Permᴰ.swap e f) = refl
  Perm-length (Permᴰ.trans p q) = Perm-length p ∙ Perm-length q

module _ {ℓ κ} {A : Type ℓ} (P : A → Type κ) where
  pub All-Perm : {xs ys : List A} → Permᴰ xs ys → All P xs → All P ys
  All-Perm Permᴰ.nil h = h
  All-Perm (Permᴰ.cons e p) h = (subst P e h.0, All-Perm p h.1)
  All-Perm (Permᴰ.swap e f) h = (subst P f h.1.0, (subst P e h.0, h.1.1))
  All-Perm (Permᴰ.trans p q) h = All-Perm q (All-Perm p h)

abbrev pub Less : Type 0
Less = GenericMap → GenericMap → Bool

-- No element is less than one before it.
abbrev pub IsSorted : Less → List GenericMap → Type 0
IsSorted less [] = Unit
IsSorted less (x ∷ xs) = All (λ y. less y x ≡ false) xs × IsSorted less xs

-- No element of the second list is less than one of the first.
abbrev pub Before : Less → List GenericMap → List GenericMap → Type 0
Before less old new = All (λ x. All (λ y. less y x ≡ false) new) old

module _ (less : Less) where
  pub IsSorted-drop : (n : ℕ) (xs : List GenericMap) → IsSorted less xs → IsSorted less (drop n xs)
  IsSorted-drop zero xs h = h
  IsSorted-drop (suc n) [] h = tt
  IsSorted-drop (suc n) (x ∷ xs) h = IsSorted-drop n xs h.1

  pub take-Before-drop :
      (n : ℕ) (xs : List GenericMap) → IsSorted less xs → Before less (take n xs) (drop n xs)
  take-Before-drop zero xs h = tt
  take-Before-drop (suc n) [] h = tt
  take-Before-drop (suc n) (x ∷ xs) h =
      (All-drop (λ y. less y x ≡ false) n xs h.0, take-Before-drop n xs h.1)

  pub All-filter :
      (P : GenericMap → Type 0) (p : GenericMap → Bool) (xs : List GenericMap)
      → All P xs
      → All P (filter p xs)
  All-filter P p [] h = tt
  All-filter P p (x ∷ xs) h = kept (p x) (All-filter P p xs h.1)
    where
      kept : (b : Bool) → All P (filter p xs) → All P (if b then x ∷ filter p xs else filter p xs)
      kept true r = (h.0, r)
      kept false r = r

  pub IsSorted-filter :
      (p : GenericMap → Bool) (xs : List GenericMap)
      → IsSorted less xs
      → IsSorted less (filter p xs)
  IsSorted-filter p [] h = tt
  IsSorted-filter p (x ∷ xs) h = kept (p x) (IsSorted-filter p xs h.1)
    where
      kept :
          (b : Bool)
          → IsSorted less (filter p xs)
          → IsSorted less (if b then x ∷ filter p xs else filter p xs)
      kept true r = (All-filter (λ y. less y x ≡ false) p xs h.0, r)
      kept false r = r

-- `s[len(s)-n:]` where the slice is longer than `n`.
unfoldable pub keep_last : ℕ → List GenericMap → List GenericMap
keep_last n xs = if ltb n (length xs) then drop (length xs - n) xs else xs

pub keep_last-drop : (n : ℕ) (xs : List GenericMap) → keep_last n xs ≡ drop (length xs - n) xs
unfolding keep_last
keep_last-drop n xs = elim (Bool-cases (ltb n (length xs))) [
  | inl e ↦ if_true _ _ e
  | inr e ↦
      let none_left : length xs - n ≡ 0 = ground (arith, e) in
      if_false _ _ e ∙ ap (λ k. drop k xs) (sym none_left)
]

-- `sort.Slice` is a parameter. It permutes the slice, and orders it if the function that it is
-- given is a strict weak order.
pub record SortLaws (sort : Less → List GenericMap → List GenericMap) : Type 0 where
  pub permutes : (less : Less) (xs : List GenericMap) → Permᴰ (sort less xs) xs
  pub sorts : (less : Less) (xs : List GenericMap) → StrictWeak less → IsSorted less (sort less xs)
