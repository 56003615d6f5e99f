-- ===== src/Display/Columns/Laws.antt =====
-- What the choice of columns keeps, and the plaintext columns.
use netobserv_cli.Common.{
  ◌≡◌, refl, sym, ap, subst, Bool, true, false, ◌||◌, not, List, [], ◌∷◌, ◌++◌, Option, none, some,
  arith, if◌then◌else◌, if_true, if_false, Bool-cases, inl, inr, All, ◌∙◌, any, append-nil,
  append_assoc,
}
use netobserv_cli.Text.{Bytes, codes, eq_bytes}
use netobserv_cli.Text.Laws.{eq_bytes_iff, eq_bytes_refl}
use netobserv_cli.Format.Cells.{ColumnConfig}
use netobserv_cli.Display.Order.{Capture}
use netobserv_cli.Display.Flows.{is_packets}
use netobserv_cli.Display.Options.{OptionItem}
use netobserv_cli.Display.Columns.{
  contains_id, append_new, append_plaintext_columns, plaintext_capture_column_ids, base_cols,
  get_cols, remove_id, toggle,
}

-- No id stands twice.
abbrev pub IsUnique : List Bytes → Type 0
IsUnique [] = Unit
IsUnique (i ∷ ids) = (contains_id i ids ≡ false) × IsUnique ids

eq_bytes_comm : (a b : Bytes) → eq_bytes a b ≡ eq_bytes b a
eq_bytes_comm a b = ground (arith, eq_bytes_iff a b, eq_bytes_iff b a)

contains_id-append :
    (i : Bytes) (xs ys : List Bytes)
    → contains_id i (xs ++ ys) ≡ (contains_id i xs || contains_id i ys)
unfolding contains_id any
contains_id-append i [] ys = refl
contains_id-append i (x ∷ xs) ys = ground (arith, contains_id-append i xs ys)

contains_id-one : (i j : Bytes) → contains_id i (j ∷ []) ≡ eq_bytes j i
unfolding contains_id any
contains_id-one i j = ground arith

IsUnique-snoc :
    (ids : List Bytes) (i : Bytes)
    → contains_id i ids ≡ false
    → IsUnique ids
    → IsUnique (ids ++ i ∷ [])
unfolding contains_id any
IsUnique-snoc [] i h u = (refl, tt)
IsUnique-snoc (j ∷ ids) i h u =
    let apart : (eq_bytes j i ≡ false) × (contains_id i ids ≡ false) = ground (arith, h) in
    let other : eq_bytes i j ≡ false = eq_bytes_comm i j ∙ apart.0 in
    (
      ground (arith, contains_id-append j ids (i ∷ []), contains_id-one j i, u.0, other),
      IsUnique-snoc ids i apart.1 u.1,
    )

module _ (columns : List ColumnConfig) (capture : Capture) (tls : Bool) where
  add_new-cases :
      (P : List Bytes → Type 0) (cols : List Bytes) (i : Bytes)
      → (contains_id i cols ≡ true → P cols)
      → (contains_id i cols ≡ false → P (cols ++ i ∷ []))
      → P (if contains_id i cols then cols else cols ++ i ∷ [])
  add_new-cases P cols i there absent = elim (Bool-cases (contains_id i cols)) [
    | inl e ↦ subst P (sym (if_true _ _ e)) (there e)
    | inr e ↦ subst P (sym (if_false _ _ e)) (absent e)
  ]

  -- What is appended stands behind what was there.
  append_new-extends :
      (cols ids : List Bytes)
      → (added : List Bytes) × (append_new columns capture tls cols ids ≡ cols ++ added)
  unfolding append_new
  append_new-extends cols [] = ([], sym (append-nil cols))
  append_new-extends cols (i ∷ ids) =
      add_new-cases
        (λ cs. (added : List Bytes) × (append_new columns capture tls cs ids ≡ cols ++ added)) cols
        i (λ e. append_new-extends cols ids)
        (λ e.
          let (added, h) = append_new-extends (cols ++ i ∷ []) ids in
          (i ∷ added, h ∙ append_assoc cols (i ∷ []) added))

  append_new-IsUnique :
      (cols ids : List Bytes) → IsUnique cols → IsUnique (append_new columns capture tls cols ids)
  unfolding append_new
  append_new-IsUnique cols [] u = u
  append_new-IsUnique cols (i ∷ ids) u =
      append_new-IsUnique (if contains_id i cols then cols else cols ++ i ∷ []) ids
        (add_new-cases IsUnique cols i (λ e. u) (λ e. IsUnique-snoc cols i e u))

  append_new-keeps :
      (cols ids : List Bytes) (i : Bytes)
      → contains_id i cols ≡ true
      → contains_id i (append_new columns capture tls cols ids) ≡ true
  append_new-keeps cols ids i h =
      let (added, e) = append_new-extends cols ids in
      ap (contains_id i) e ∙ contains_id-append i cols added ∙ ap (λ b. b || contains_id i added) h

  append_new-All :
      (cols ids : List Bytes)
      → All (λ i. contains_id i (append_new columns capture tls cols ids) ≡ true) ids
  unfolding append_new
  append_new-All cols [] = tt
  append_new-All cols (i ∷ ids) = (
    append_new-keeps (if contains_id i cols then cols else cols ++ i ∷ []) ids i (
        add_new-cases (λ cs. contains_id i cs ≡ true) cols i (λ e. e)
          (λ e.
            contains_id-append i cols (i ∷ [])
            ∙ ap (λ b. contains_id i cols || b) (contains_id-one i i ∙ eq_bytes_refl i)
            ∙ or_true (contains_id i cols))),
    append_new-All (if contains_id i cols then cols else cols ++ i ∷ []) ids,
  )
    where
      or_true : (b : Bool) → (b || true) ≡ true
      or_true true = refl
      or_true false = refl

  -- In a packet capture with plaintext, where no columns were chosen: the columns of the display and
  -- the enrichment come first, the column of the record's type and every plaintext column are there,
  -- and none stands twice, if none of the
  -- first ones does.
  pub plaintext_columns_shown :
      (display enrichment : OptionItem)
      → is_packets capture ≡ true
      → tls ≡ true
      → IsUnique (base_cols columns capture tls [] display enrichment)
      → let base = base_cols columns capture tls [] display enrichment in
        let cols = get_cols columns capture tls [] display enrichment in
        ((added : List Bytes) × (cols ≡ base ++ added))
        × All
            (λ i. contains_id i cols ≡ true)
            (codes "RecordType" ∷ plaintext_capture_column_ids columns capture tls)
        × IsUnique cols
  unfolding get_cols append_plaintext_columns
  plaintext_columns_shown display enrichment packets on u =
      let base = base_cols columns capture tls [] display enrichment in
      let ids = codes "RecordType" ∷ plaintext_capture_column_ids columns capture tls in
      let off : (not (is_packets capture) || not tls) ≡ false =
        ap (λ b. not b || not tls) packets ∙ ap not on in
      let Shown = λ (cols : List Bytes).
        ((added : List Bytes) × (cols ≡ base ++ added))
        × All (λ i. contains_id i cols ≡ true) ids
        × IsUnique cols in
      subst Shown (sym (if_false _ _ off))
        (append_new-extends base ids, append_new-All base ids, append_new-IsUnique base ids u)

  remove_id-absent :
      (i : Bytes) (ids : List Bytes)
      → contains_id i ids ≡ false
      → (remove_id columns capture tls i ids ≡ none)
        × (remove_id columns capture tls i (ids ++ i ∷ []) ≡ some ids)
  unfolding remove_id contains_id any
  remove_id-absent i [] h = (refl, if_true _ _ (eq_bytes_refl i))
  remove_id-absent i (j ∷ ids) h =
      let apart : (eq_bytes j i ≡ false) × (contains_id i ids ≡ false) = ground (arith, h) in
      let ih = remove_id-absent i ids apart.1 in
      let Rest = λ (o : Option (List Bytes)). elim o as (λ _. Option (List Bytes)) [
        | none ↦ none
        | some rest ↦ some (j ∷ rest)
      ] in
      (if_false _ _ apart.0 ∙ ap Rest ih.0, if_false _ _ apart.0 ∙ ap Rest ih.1)

  -- A column that is not chosen is chosen by the first press, at the end, and let go by the second,
  -- which gives back the choice there was; if that has no column twice, it has none in between.
  pub toggle_twice :
      (i : Bytes) (selected : List Bytes)
      → contains_id i selected ≡ false
      → IsUnique selected
      → (toggle columns capture tls i (toggle columns capture tls i selected) ≡ selected)
        × IsUnique (toggle columns capture tls i selected)
  unfolding toggle
  toggle_twice i selected h u =
      let (absent, back) = remove_id-absent i selected h in
      let Toggled = λ (s : List Bytes) (o : Option (List Bytes)). elim o as (λ _. List Bytes) [
        | none ↦ s ++ i ∷ []
        | some rest ↦ rest
      ] in
      let first : toggle columns capture tls i selected ≡ selected ++ i ∷ [] =
        ap (Toggled selected) absent in
      (
        ap (toggle columns capture tls i) first ∙ ap (Toggled (selected ++ i ∷ [])) back,
        subst IsUnique (sym first) (IsUnique-snoc selected i h u),
      )
