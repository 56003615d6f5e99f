-- ===== src/Display/Flows/Buffers.antt =====
-- A buffer of flows in order and within its limit, and an append to it.
use netobserv_cli.Common.{
  ℕ, ◌≡◌, ◌≤◌, refl, Bool, true, List, [], ◌∷◌, ◌++◌, some, arith, is_some, all, length, All,
  All-append,
}
use mathlib.Core.List.Permᴰ
use netobserv_cli.GenericMap.{GenericMap}
use netobserv_cli.Display.Order.{Capture, flow_key, less_flows}
use netobserv_cli.Display.Sorting.{Less, IsSorted, SortLaws, All-Perm}
use netobserv_cli.Display.Flows.{comparable, append_to_time_sorted_buffer}
use netobserv_cli.Display.Flows.Newest.{append-IsNewest}

module _ {ℓ κ μ} {A : Type ℓ} (P : A → Type κ) (Q : A → Type μ) where
  pub All-weaken : ((x : A) → P x → Q x) → (xs : List A) → All P xs → All Q xs
  All-weaken f [] h = tt
  All-weaken f (x ∷ xs) h = (f x h.0, All-weaken f xs h.1)

pub all-All :
    (p : GenericMap → Bool) (xs : List GenericMap) → All (λ m. p m ≡ true) xs → all p xs ≡ true
unfolding all
all-All p [] h = refl
all-All p (x ∷ xs) h = ground (arith, h.0, all-All p xs h.1)

-- The flow has the times that its capture sorts by.
abbrev pub IsTimed : Capture → GenericMap → Type 0
IsTimed c m = is_some (flow_key c m) ≡ true

-- One of the three buffers.
pub record IsBuffer (c : Capture) (max_len : ℕ) (P : GenericMap → Type 0) (xs : List GenericMap)
    : Type 0 where
  pub sorted : IsSorted (less_flows c) xs
  pub bounded : length xs ≤ max_len
  pub each : All P xs
  pub timed : All (IsTimed c) xs

module _ (c : Capture) (max_len : ℕ) where
  pub IsBuffer-nil : (P : GenericMap → Type 0) → IsBuffer c max_len P []
  IsBuffer-nil P = record { sorted = tt; bounded = omega arith; each = tt; timed = tt }

  pub IsBuffer-weaken :
      (P Q : GenericMap → Type 0)
      → ((m : GenericMap) → P m → Q m)
      → (xs : List GenericMap) → IsBuffer c max_len P xs
      → IsBuffer c max_len Q xs
  IsBuffer-weaken P Q f xs h = record {
    sorted = h.sorted;
    bounded = h.bounded;
    each = All-weaken P Q f xs h.each;
    timed = h.timed;
  }

All-append_back : (P : GenericMap → Type 0) (xs ys : List GenericMap) → All P (xs ++ ys) → All P ys
All-append_back P [] ys h = h
All-append_back P (x ∷ xs) ys h = All-append_back P xs ys h.1

module _ (sort : Less → List GenericMap → List GenericMap) (laws : SortLaws sort) where
  pub append-IsBuffer :
      (c : Capture) (max_len : ℕ) (P : GenericMap → Type 0) (buf : List GenericMap) (m : GenericMap)
      → IsBuffer c max_len P buf
      → P m
      → IsTimed c m
      → (kept : List GenericMap) × (append_to_time_sorted_buffer sort c buf m max_len ≡ some kept)
        × IsBuffer c max_len P kept
  unfolding comparable
  append-IsBuffer c max_len P buf m h p t =
      let timed : All (IsTimed c) (buf ++ m ∷ []) =
        All-append (IsTimed c) buf (m ∷ []) h.timed (t, tt) in
      let each : All P (buf ++ m ∷ []) = All-append P buf (m ∷ []) h.each (p, tt) in
      let known = all-All (λ x. is_some (flow_key c x)) (buf ++ m ∷ []) timed in
      let (kept, e, newest) = append-IsNewest sort laws c buf m max_len (ground (arith, known)) in
      (
        kept,
        e,
        record {
          sorted = newest.in_order;
          bounded = omega (arith, newest.full);
          each =
              All-append_back P newest.dropped kept (All-Perm P (Permᴰ.symm newest.all_there) each);
          timed =
              All-append_back (IsTimed c) newest.dropped kept
                (All-Perm (IsTimed c) (Permᴰ.symm newest.all_there) timed);
        },
      )
