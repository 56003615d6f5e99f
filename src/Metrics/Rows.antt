-- ===== src/Metrics/Rows.antt =====
-- What a graph can be drawn from: a color and a legend for each row, and rows of one length.
use Prim.Native.Nat.{max}
use netobserv_cli.Common.{
  ℕ, zero, suc, ◌≡◌, ◌≤◌, ◌<◌, ◌⊎◌, refl, sym, ap, subst, ◌++◌, Bool, true, false, List, [], ◌∷◌,
  map, Option, some, arith, ltb, ◌==◌, if◌then◌else◌, length, set, take, All, length-set,
  length-map, length-take, Bool-cases, inl, inr, if_true, if_false, ◌∙◌,
}
use netobserv_cli.GenericMap.{Float}
use netobserv_cli.Metrics.{
  Series, Graph, colors_count, zeros, fill_row, cons_row, short_rows, data_rows, rows_of,
  scan_times, times_of, set_rows, update_data, start_from,
}
use netobserv_cli.Text.{Bytes}

pub length-zeros : (n : ℕ) → length (zeros n) ≡ n
unfolding zeros
length-zeros zero = refl
length-zeros (suc n) = ap suc (length-zeros n)

length-fill_row :
    (i : ℕ) (samples : List (ℕ × Float)) (row : List Float)
    → length (fill_row i samples row) ≡ length row
unfolding fill_row
length-fill_row i [] row = refl
length-fill_row i ((t, v) ∷ samples) row =
    length-fill_row (suc i) samples _ ∙ by_test (ltb i (length row))
  where
    by_test : (b : Bool) → length (if b then set row i v else row) ≡ length row
    by_test true = length-set row i v
    by_test false = refl

-- A row has no value, or one for each time.
abbrev pub IsRow : ℕ → List Float → Type 0
IsRow longest row = (length row ≡ 0) ⊎ (length row ≡ longest)

-- Rows for all series.
record AreRows (longest : ℕ) (matrix : List Series) (rows : Option (List (List Float)))
    : Type 0 where
  result : List (List Float)
  returns : rows ≡ some result
  one_each : length result ≡ length matrix
  each : All (IsRow longest) result

abbrev pub HasSample : Series → Type 0
HasSample s = 0 < length s.samples

nil_rows :
    (longest : ℕ) (matrix : List Series) → All (IsRow longest) (map (λ (s : Series). []) matrix)
nil_rows longest [] = tt
nil_rows longest (s ∷ matrix) = (inl refl, nil_rows longest matrix)

cons_row-AreRows :
    (longest : ℕ) (s : Series) (matrix : List Series) (row : List Float)
    (further : Option (List (List Float)))
    → IsRow longest row
    → AreRows longest matrix further
    → AreRows longest (s ∷ matrix) (cons_row row further)
unfolding cons_row
cons_row-AreRows longest s matrix row further r h = record {
  result = row ∷ h.result;
  returns = ap (cons_row row) h.returns;
  one_each = ap suc h.one_each;
  each = (r, h.each);
}

fill-IsRow :
    (longest i : ℕ) (samples : List (ℕ × Float))
    → IsRow longest (fill_row i samples (zeros longest))
fill-IsRow longest i samples =
    inr (length-fill_row i samples (zeros longest) ∙ length-zeros longest)

short-AreRows :
    (longest : ℕ) (times : List ℕ) (s : Series) (matrix : List Series)
    (further : Option (List (List Float))) (samples : List (ℕ × Float))
    → 0 < length samples
    → AreRows longest matrix further
    → AreRows longest (s ∷ matrix) (short_rows longest times matrix further samples)
unfolding short_rows
short-AreRows longest times s matrix further [] n h = absurd (omega (arith, n))
short-AreRows longest times s matrix further ((t, v) ∷ samples) n h =
    elim (Bool-cases (start_from t 0 times == 0)) [
      | inl e ↦ subst (AreRows longest (s ∷ matrix)) (sym (if_true _ _ e)) (record {
        result = [] ∷ map (λ (x : Series). []) matrix;
        returns = refl;
        one_each = ap suc (length-map _ matrix);
        each = (inl refl, nil_rows longest matrix);
      })
      | inr e ↦ subst (AreRows longest (s ∷ matrix)) (sym (if_false _ _ e)) (
          cons_row-AreRows longest s matrix _ further
            (fill-IsRow longest (start_from t 0 times) ((t, v) ∷ samples)) h)
    ]

data-AreRows :
    (longest : ℕ) (times : List ℕ) (matrix : List Series)
    → All HasSample matrix
    → AreRows longest matrix (data_rows longest times matrix)
unfolding data_rows
data-AreRows longest times [] h = record { result = []; returns = refl; one_each = refl; each = tt }
data-AreRows longest times (s ∷ matrix) h =
    let rest = data-AreRows longest times matrix h.1 in
    elim (Bool-cases (ltb (length s.samples) longest)) [
      | inl e ↦
          subst (AreRows longest (s ∷ matrix)) (sym (if_true _ _ e))
            (short-AreRows longest times s matrix _ s.samples h.0 rest)
      | inr e ↦
          subst (AreRows longest (s ∷ matrix)) (sym (if_false _ _ e))
            (cons_row-AreRows longest s matrix _ _ (fill-IsRow longest 0 s.samples) rest)
    ]

rows_of-AreRows :
    (matrix : List Series) (scan : ℕ × List ℕ)
    → All HasSample matrix
    → AreRows scan.0 matrix (rows_of matrix scan)
unfolding rows_of
rows_of-AreRows matrix (longest, times) h = elim (Bool-cases (ltb 0 longest)) [
  | inl e ↦
      subst (AreRows longest matrix) (sym (if_true _ _ e)) (data-AreRows longest times matrix h)
  | inr e ↦ subst (AreRows longest matrix) (sym (if_false _ _ e)) (record {
    result = map (λ (s : Series). []) matrix;
    returns = refl;
    one_each = length-map _ matrix;
    each = nil_rows longest matrix;
  })
]

take-All :
    (P : Series → Type 0) (n : ℕ) (matrix : List Series) → All P matrix → All P (take n matrix)
take-All P zero matrix h = tt
take-All P (suc n) [] h = tt
take-All P (suc n) (s ∷ matrix) h = (h.0, take-All P n matrix h.1)

-- The largest number of samples.
unfoldable pub longest_of : List Series → ℕ
longest_of [] = 0
longest_of (s ∷ matrix) = max (length s.samples) (longest_of matrix)

pub scan_times-longest :
    (longest : ℕ) (times : List ℕ) (matrix : List Series)
    → (scan_times longest times matrix).0 ≡ max longest (longest_of matrix)
unfolding scan_times longest_of
scan_times-longest longest times [] = omega arith
scan_times-longest longest times (s ∷ matrix) = elim (Bool-cases (ltb longest (length s.samples))) [
  | inl e ↦
      ap (λ (x : ℕ × List ℕ). x.0) (if_true _ _ e)
      ∙ scan_times-longest (length s.samples) (times ++ times_of s) matrix
      ∙ ground (arith, e)
  | inr e ↦
      ap (λ (x : ℕ × List ℕ). x.0) (if_false _ _ e)
      ∙ scan_times-longest longest times matrix
      ∙ ground (arith, e)
]

take-all : (n : ℕ) (matrix : List Series) → length matrix ≤ n → take n matrix ≡ matrix
take-all zero [] h = refl
take-all zero (s ∷ matrix) h = absurd (omega (arith, h))
take-all (suc n) [] h = refl
take-all (suc n) (s ∷ matrix) h = ap (λ m. s ∷ m) (take-all n matrix (omega (arith, h)))

-- The series that there are colors for are the first 25.
pub shown-take :
    (matrix : List Series)
    → (if ltb colors_count (length matrix) then take colors_count matrix else matrix)
      ≡ take 25 matrix
shown-take matrix = elim (Bool-cases (ltb colors_count (length matrix))) [
  | inl e ↦ if_true _ _ e
  | inr e ↦ if_false _ _ e ∙ sym (take-all colors_count matrix (ground (arith, e)))
]

-- A graph that is drawn of a list of series.
pub record IsDrawable (matrix : List Series) (g : Graph) : Type 0 where
  pub has_colors : length g.rows ≤ 25
  pub one_row_each : length g.rows ≡ length matrix
  pub own_legends : g.legends ≡ map (λ (s : Series). s.metric) matrix
  pub same_length : All (IsRow (longest_of matrix)) g.rows

module _ (sort_strings : List Bytes → List Bytes) where
  set_rows-IsDrawable :
      (g : Graph) (matrix : List Series)
      → All HasSample matrix
      → length matrix ≤ 25
      → (r : Graph) × (set_rows sort_strings g matrix (rows_of matrix (scan_times 0 [] matrix))
          ≡ some r)
        × IsDrawable matrix r
  unfolding set_rows
  set_rows-IsDrawable g matrix h few =
      let x = rows_of-AreRows matrix (scan_times 0 [] matrix) h in
      (
        _,
        ap (set_rows sort_strings g matrix) x.returns,
        record {
          has_colors = omega (arith, few, x.one_each);
          one_row_each = x.one_each;
          own_legends = refl;
          same_length =
              subst (λ n. All (IsRow n) x.result) (scan_times-longest 0 [] matrix ∙ omega arith)
                x.each;
        },
      )

  -- An answer of which each series has a sample is turned into a row for each of its first 25
  -- series, with that series' labels as its legend; a row has no value, or as many as the longest of
  -- these series has samples.
  pub update_data-IsDrawable :
      (s : Series) (matrix : List Series) (g : Graph)
      → All HasSample (s ∷ matrix)
      → (r : Graph) × (update_data sort_strings (s ∷ matrix) g ≡ some r)
        × IsDrawable (take 25 (s ∷ matrix)) r
  unfolding update_data
  update_data-IsDrawable s matrix g h =
      let first = take 25 (s ∷ matrix) in
      let few : length first ≤ 25 = omega (arith, length-take 25 (s ∷ matrix)) in
      let (r, e, d) = set_rows-IsDrawable g first (take-All HasSample 25 (s ∷ matrix) h) few in
      (
        r,
        ap (λ shown. set_rows sort_strings g shown (rows_of shown (scan_times 0 [] shown)))
              (shown-take (s ∷ matrix))
            ∙ e,
        d,
      )
