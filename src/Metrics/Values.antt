-- ===== src/Metrics/Values.antt =====
-- The values of the rows where no series is shorter than the others.
use netobserv_cli.Common.{
  ℕ, zero, suc, ◌≡◌, ◌<◌, refl, sym, ap, List, [], ◌∷◌, ◌++◌, map, some, arith, ltb, length, set,
  take, All, if_true, if_false, ◌∙◌, append_assoc, length-append,
}
use netobserv_cli.GenericMap.{Float}
use netobserv_cli.Metrics.{
  Series, Graph, zeros, fill_row, cons_row, data_rows, rows_of, scan_times, set_rows, update_data,
}
use netobserv_cli.Metrics.Rows.{length-zeros, scan_times-longest, longest_of, shown-take}
use netobserv_cli.Text.{Bytes}

-- The values of a series, in the order of its samples.
abbrev pub values_of : Series → List Float
values_of s = map (λ (x : ℕ × Float). x.1) s.samples

set-append :
    (pre : List Float) (z v : Float) (zs : List Float)
    → set (pre ++ z ∷ zs) (length pre) v ≡ (pre ++ v ∷ []) ++ zs
set-append [] z v zs = refl
set-append (x ∷ pre) z v zs = ap (λ xs. x ∷ xs) (set-append pre z v zs)

-- The samples replace what stands behind the position.
fill_row-append :
    (pre : List Float) (samples : List (ℕ × Float)) (zs : List Float)
    → length zs ≡ length samples
    → fill_row (length pre) samples (pre ++ zs) ≡ pre ++ map (λ (x : ℕ × Float). x.1) samples
unfolding fill_row
fill_row-append pre [] [] e = refl
fill_row-append pre [] (z ∷ zs) e = absurd (omega (arith, e))
fill_row-append pre ((t, v) ∷ samples) [] e = absurd (omega (arith, e))
fill_row-append pre ((t, v) ∷ samples) (z ∷ zs) e =
    ap (fill_row (suc (length pre)) samples) (
      if_true {b = ltb (length pre) (length (pre ++ z ∷ zs))} _ _
        (ground (arith, length-append pre (z ∷ zs)))
      ∙ set-append pre z v zs)
    ∙ ap (λ n. fill_row n samples ((pre ++ v ∷ []) ++ zs))
        (omega (arith, length-append pre (v ∷ [])))
    ∙ fill_row-append (pre ++ v ∷ []) samples zs (omega (arith, e))
    ∙ append_assoc pre (v ∷ []) _

data_rows-values :
    (n : ℕ) (times : List ℕ) (matrix : List Series)
    → All (λ s. length s.samples ≡ n) matrix
    → data_rows n times matrix ≡ some (map values_of matrix)
unfolding data_rows cons_row
data_rows-values n times [] h = refl
data_rows-values n times (s ∷ matrix) (e, h) =
    if_false {b = ltb (length s.samples) n} _ _ (ground (arith, e))
    ∙ ap (λ row. cons_row row (data_rows n times matrix))
        (fill_row-append [] s.samples (zeros n) (length-zeros n ∙ sym e))
    ∙ ap (cons_row (values_of s)) (data_rows-values n times matrix h)

longest_of-same :
    (n : ℕ) (s : Series) (matrix : List Series)
    → All (λ s. length s.samples ≡ n) (s ∷ matrix)
    → longest_of (s ∷ matrix) ≡ n
unfolding longest_of
longest_of-same n s [] (e, h) = omega (arith, e)
longest_of-same n s (r ∷ matrix) (e, h) =
    let later : longest_of (r ∷ matrix) ≡ n = longest_of-same n r matrix h in
    omega (arith, e, later)

take-All :
    (n k : ℕ) (matrix : List Series)
    → All (λ s. length s.samples ≡ n) matrix
    → All (λ s. length s.samples ≡ n) (take k matrix)
take-All n zero matrix h = tt
take-All n (suc k) [] h = tt
take-All n (suc k) (s ∷ matrix) (e, h) = (e, take-All n k matrix h)

rows_of-values :
    (n : ℕ) (s : Series) (matrix : List Series)
    → 0 < n
    → All (λ s. length s.samples ≡ n) (s ∷ matrix)
    → rows_of (s ∷ matrix) (scan_times 0 [] (s ∷ matrix)) ≡ some (map values_of (s ∷ matrix))
unfolding rows_of
rows_of-values n s matrix p h =
    let scan = scan_times 0 [] (s ∷ matrix) in
    let same : scan.0 ≡ n =
      scan_times-longest 0 [] (s ∷ matrix) ∙ omega (arith, longest_of-same n s matrix h) in
    if_true {b = ltb 0 scan.0} _ _ (ground (arith, p, same))
    ∙ ap (λ longest. data_rows longest scan.1 (s ∷ matrix)) same
    ∙ data_rows-values n scan.1 (s ∷ matrix) h

module _ (sort_strings : List Bytes → List Bytes) where
  -- Where all series of an answer have as many samples, and at least one, the graph's rows are the
  -- values of the first 25 series, in the order of the samples, with the series' labels as legends.
  pub update_data-values :
      (n : ℕ) (s : Series) (matrix : List Series) (g : Graph)
      → 0 < n
      → All (λ s. length s.samples ≡ n) (s ∷ matrix)
      → (r : Graph) × (update_data sort_strings (s ∷ matrix) g ≡ some r)
        × (r.rows ≡ map values_of (take 25 (s ∷ matrix)))
        × (r.legends ≡ map (λ (s : Series). s.metric) (take 25 (s ∷ matrix)))
  unfolding update_data set_rows
  update_data-values n s matrix g p h = (
    _,
    ap (λ shown. set_rows sort_strings g shown (rows_of shown (scan_times 0 [] shown)))
          (shown-take (s ∷ matrix))
        ∙ ap (set_rows sort_strings g (take 25 (s ∷ matrix)))
            (rows_of-values n s (take 24 matrix) p (take-All n 25 (s ∷ matrix) h)),
    refl,
    refl,
  )
