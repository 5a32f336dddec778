-- ===== src/Hwh/Csv.antt =====
-- `_csv_strings` of tools/hwh_aximux_dt.py: a list of strings, quoted and broken into rows.
pub mod Rows
use aximux.Prelude.{
  ℕ, ◌+◌, List, [], ◌∷◌, ◌++◌, Bool, ◌&&◌, true, false, ltb, map, length, if◌then◌else◌,
}
use aximux.Text.{Text, codes, join}

abbrev pub quoted : Text → Text
quoted x = codes "\"" ++ (x ++ codes "\"")

abbrev pub is_nonempty {ℓ} : {A : Type ℓ} → List A → Bool
is_nonempty [] = false
is_nonempty (x ∷ xs) = true

-- The loop over `parts`, with its variables `rows`, `row` and `width`.
unfoldable pub csv_rows : List Text → List (List Text) → List Text → ℕ → List (List Text)
csv_rows [] rows row width = if is_nonempty row then rows ++ (row ∷ []) else rows
csv_rows (p ∷ ps) rows row width =
    let full = is_nonempty row && ltb 70 (width + length p + 2) in
    csv_rows ps (if full then rows ++ (row ∷ []) else rows) ((if full then [] else row) ++ (p ∷ []))
      ((if full then 0 else width) + length p + 2)

unfoldable pub csv_strings : List Text → Text → Text
unfolding csv_rows join
csv_strings xs indent =
    join (codes ",\n" ++ indent) (map (join (codes ", ")) (csv_rows (map quoted xs) [] [] 0))
