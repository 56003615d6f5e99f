-- ===== src/Display/Flows/Newest.antt =====
-- What an append keeps: the newest flows, in order.
use netobserv_cli.Common.{
  ℕ, ◌-◌, ◌≡◌, sym, ap, subst, true, List, [], ◌∷◌, ◌++◌, Option, none, some, arith, if_true,
  length, take, min, length-drop, take-append-drop,
}
use mathlib.Core.List.{Permᴰ}
use netobserv_cli.GenericMap.{GenericMap}
use netobserv_cli.Display.Order.{Capture, less_flows, less_flows-StrictWeak}
use netobserv_cli.Display.Sorting.{
  Less, IsSorted, Before, SortLaws, keep_last, keep_last-drop, IsSorted-drop, take-Before-drop,
  Perm-length,
}
use netobserv_cli.Display.Flows.{comparable, sort_flows, append_to_time_sorted_buffer}

-- The newest `n` of some flows, in order: the others were dropped, and none of them is newer.
pub record IsNewest (c : Capture) (n : ℕ) (xs kept : List GenericMap) : Type 0 where
  pub dropped : List GenericMap
  pub all_there : Permᴰ (dropped ++ kept) xs
  pub older : Before (less_flows c) dropped kept
  pub in_order : IsSorted (less_flows c) kept
  pub full : length kept ≡ min n (length xs)

module _ (sort : Less → List GenericMap → List GenericMap) (laws : SortLaws sort) where
  pub keep_last-IsNewest :
      (c : Capture) (n : ℕ) (xs : List GenericMap)
      → IsNewest c n xs (keep_last n (sort (less_flows c) xs))
  keep_last-IsNewest c n xs =
      let sorted = sort (less_flows c) xs in
      let k = length sorted - n in
      let ordered = laws.sorts (less_flows c) xs (less_flows-StrictWeak c) in
      subst (IsNewest c n xs) (sym (keep_last-drop n sorted)) (record {
        dropped = take k sorted;
        all_there =
            subst (λ ys. Permᴰ ys xs) (sym (take-append-drop k sorted))
              (laws.permutes (less_flows c) xs);
        older = take-Before-drop (less_flows c) k sorted ordered;
        in_order = IsSorted-drop (less_flows c) k sorted ordered;
        full = omega (arith, length-drop k sorted, Perm-length (laws.permutes (less_flows c) xs));
      })

  -- An append to a buffer all of whose flows have a time gives the newest flows of the buffer and the
  -- new one, as many as the limit allows, in order.
  pub append-IsNewest :
      (c : Capture) (buf : List GenericMap) (m : GenericMap) (max_len : ℕ)
      → comparable c (buf ++ m ∷ []) ≡ true
      → (kept : List GenericMap) × (append_to_time_sorted_buffer sort c buf m max_len ≡ some kept)
        × IsNewest c max_len (buf ++ m ∷ []) kept
  unfolding append_to_time_sorted_buffer sort_flows
  append-IsNewest c buf m max_len h =
      let xs = buf ++ m ∷ [] in
      (
        keep_last max_len (sort (less_flows c) xs),
        ap
            (λ (r : Option (List GenericMap)). elim r as (λ _. Option (List GenericMap)) [
              | none ↦ none
              | some xs ↦ some (keep_last max_len xs)
            ])
            (if_true _ _ h),
        keep_last-IsNewest c max_len xs,
      )
