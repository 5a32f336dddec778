-- ===== src/Hwh/Csv/Rows.antt =====
-- What `_csv_strings` does with the row width of 70: nothing is lost, rows fit, breaks are needed.
use aximux.Prelude.{
  ℕ, ◌+◌, ◌≤◌, ◌<◌, List, [], ◌∷◌, ◌++◌, lt→ltb, length, ◌≡◌, refl, ◌≢◌, ◌⊎◌, inl, inr, arith,
  concat, append_assoc, append-nil, All, ap, sym, ◌∙◌,
}
use aximux.Text.{Text}
use aximux.Hwh.Csv.{csv_rows}

-- The width that the loop counts for a row: two more than its length for each part.
abbrev pub row_width : List Text → ℕ
row_width [] = 0
row_width (p ∷ ps) = length p + 2 + row_width ps

-- A row is not empty, and it is at most 70 wide or has a single part.
abbrev pub RowFits : List Text → Type 0
RowFits row = (row ≢ []) × ((row_width row ≤ 70) ⊎ (length row ≡ 1))

-- The width of the part that begins the first row.
abbrev pub first_width : List (List Text) → ℕ
first_width [] = 0
first_width ([] ∷ rows) = 0
first_width ((p ∷ row) ∷ rows) = length p + 2

-- A row ends only where the next part does not fit.
abbrev pub BreaksNeeded : List (List Text) → Type 0
BreaksNeeded [] = Unit
BreaksNeeded (row ∷ []) = Unit
BreaksNeeded (row ∷ next ∷ rows) =
    (70 < row_width row + first_width (next ∷ rows)) × BreaksNeeded (next ∷ rows)

row_width-snoc :
    (row : List Text) (p : Text) → row_width (row ++ (p ∷ [])) ≡ row_width row + length p + 2
row_width-snoc [] p = omega arith
row_width-snoc (q ∷ row) p = omega (arith, row_width-snoc row p)

snoc-ne-nil : (row : List Text) (p : Text) → row ++ (p ∷ []) ≢ []
snoc-ne-nil [] p h = cc
snoc-ne-nil (q ∷ row) p h = cc

step_first :
    (p : Text) (ps : List Text) (rows : List (List Text)) (w : ℕ)
    → csv_rows (p ∷ ps) rows [] w ≡ csv_rows ps rows (p ∷ []) (w + length p + 2)
unfolding csv_rows
step_first p ps rows w = refl

step_room :
    (p q : Text) (ps row : List Text) (rows : List (List Text)) (w : ℕ)
    → w + length p + 2 ≤ 70
    → csv_rows (p ∷ ps) rows (q ∷ row) w
      ≡ csv_rows ps rows (q ∷ (row ++ (p ∷ []))) (w + length p + 2)
unfolding csv_rows
step_room p q ps row rows w h = ground arith

step_full :
    (p q : Text) (ps row : List Text) (rows : List (List Text)) (w : ℕ)
    → 70 < w + length p + 2
    → csv_rows (p ∷ ps) rows (q ∷ row) w
      ≡ csv_rows ps (rows ++ ((q ∷ row) ∷ [])) (p ∷ []) (length p + 2)
unfolding csv_rows
step_full p q ps row rows w h =
    rw (lt→ltb 70 (w + length p + 2) h)
      (ap (csv_rows ps (rows ++ ((q ∷ row) ∷ [])) (p ∷ [])) (omega arith))

le_or_lt : (a b : ℕ) → (a ≤ b) ⊎ (b < a)
le_or_lt a b = grind arith

-- The finished rows stand in front of what the rest of the loop makes.
csv_rows-append :
    (ps : List Text) (rows : List (List Text)) (row : List Text) (w : ℕ)
    → csv_rows ps rows row w ≡ rows ++ csv_rows ps [] row w
csv_rows-append [] rows [] w = unfold csv_rows in rw append-nil
csv_rows-append [] rows (q ∷ row) w = unfold csv_rows in refl
csv_rows-append (p ∷ ps) rows [] w =
    rw (step_first p ps rows w, step_first p ps [] w)
      (csv_rows-append ps rows (p ∷ []) (w + length p + 2))
csv_rows-append (p ∷ ps) rows (q ∷ row) w = elim (le_or_lt (w + length p + 2) 70) [
  | inl h ↦
      rw (step_room p q ps row rows w h, step_room p q ps row [] w h)
        (csv_rows-append ps rows (q ∷ (row ++ (p ∷ []))) (w + length p + 2))
  | inr h ↦
      rw (step_full p q ps row rows w h, step_full p q ps row [] w h)
        (csv_rows-append ps (rows ++ ((q ∷ row) ∷ [])) (p ∷ []) (length p + 2)
          ∙ rw append_assoc (
              ap (λ (t : List (List Text)). rows ++ t)
                (sym (csv_rows-append ps ((q ∷ row) ∷ []) (p ∷ []) (length p + 2)))))
]

csv_rows-full :
    (p q : Text) (ps row : List Text) (w : ℕ)
    → 70 < w + length p + 2
    → csv_rows (p ∷ ps) [] (q ∷ row) w ≡ (q ∷ row) ∷ csv_rows ps [] (p ∷ []) (length p + 2)
csv_rows-full p q ps row w h =
    step_full p q ps row [] w h ∙ csv_rows-append ps ((q ∷ row) ∷ []) (p ∷ []) (length p + 2)

concat-csv_rows : (ps row : List Text) (w : ℕ) → concat (csv_rows ps [] row w) ≡ row ++ ps
concat-csv_rows [] [] w = unfold csv_rows in refl
concat-csv_rows [] (q ∷ row) w = unfold csv_rows in refl
concat-csv_rows (p ∷ ps) [] w = rw step_first (concat-csv_rows ps (p ∷ []) (w + length p + 2))
concat-csv_rows (p ∷ ps) (q ∷ row) w = elim (le_or_lt (w + length p + 2) 70) [
  | inl h ↦
      rw (step_room p q ps row [] w h)
        (concat-csv_rows ps (q ∷ (row ++ (p ∷ []))) (w + length p + 2) ∙ rw append_assoc)
  | inr h ↦ rw (csv_rows-full p q ps row w h, concat-csv_rows ps (p ∷ []) (length p + 2))
]

first_width-csv_rows :
    (ps row : List Text) (q : Text) (w : ℕ)
    → first_width (csv_rows ps [] (q ∷ row) w) ≡ length q + 2
first_width-csv_rows [] row q w = unfold csv_rows in refl
first_width-csv_rows (p ∷ ps) row q w = elim (le_or_lt (w + length p + 2) 70) [
  | inl h ↦
      rw (step_room p q ps row [] w h)
        (first_width-csv_rows ps (row ++ (p ∷ [])) q (w + length p + 2))
  | inr h ↦ rw (csv_rows-full p q ps row w h)
]

-- a row in front of rows whose first part would not have fitted
BreaksNeeded-cons :
    (row : List Text) (rows : List (List Text))
    → 70 < row_width row + first_width rows
    → BreaksNeeded rows
    → BreaksNeeded (row ∷ rows)
BreaksNeeded-cons row [] h b = tt
BreaksNeeded-cons row (next ∷ rows) h b = (h, b)

fits_single : (p : Text) → RowFits (p ∷ [])
fits_single p = (λ e. cc, inr refl)

-- What the loop makes of a row that fits so far, with its width counted.
rows_good :
    (ps row : List Text) (q : Text) (w : ℕ)
    → row_width (q ∷ row) ≡ w
    → RowFits (q ∷ row)
    → All RowFits (csv_rows ps [] (q ∷ row) w) × BreaksNeeded (csv_rows ps [] (q ∷ row) w)
rows_good [] row q w e fits = unfold csv_rows in ((fits, tt), tt)
rows_good (p ∷ ps) row q w e fits = elim (le_or_lt (w + length p + 2) 70) [
  | inl h ↦ rw (step_room p q ps row [] w h) (
      rows_good ps (row ++ (p ∷ [])) q (w + length p + 2) (omega (arith, row_width-snoc row p))
        (λ k. cc, inl (omega (arith, row_width-snoc row p))))
  | inr h ↦
      let rest = rows_good ps [] p (length p + 2) (omega arith) (fits_single p) in
      rw (csv_rows-full p q ps row w h) (
        (fits, rest.0),
        BreaksNeeded-cons (q ∷ row) (csv_rows ps [] (p ∷ []) (length p + 2))
            (omega (arith, first_width-csv_rows ps [] p (length p + 2))) rest.1,
      )
]

-- For every list of parts, the rows that the loop makes of it hold its parts, all of them and in
-- their order; each row has a part, and is at most 70 wide (two more than its length counted for
-- each part) unless it has one part alone; and a row ends only where adding the next part would
-- pass the width of 70.
pub csv_rows_lem :
    (ps : List Text)
    → (concat (csv_rows ps [] [] 0) ≡ ps)
      × All RowFits (csv_rows ps [] [] 0)
      × BreaksNeeded (csv_rows ps [] [] 0)
csv_rows_lem [] = unfold csv_rows in (refl, tt, tt)
csv_rows_lem (p ∷ ps) =
    let good = rows_good ps [] p (0 + length p + 2) (omega arith) (fits_single p) in
    (
      concat-csv_rows (p ∷ ps) [] 0,
      rw (step_first p ps [] 0) good.0,
      rw (step_first p ps [] 0) good.1,
    )
