-- ===== src/Hwh/Main/Result.antt =====
-- What `main` of tools/hwh_aximux_dt.py leaves behind on every document.
use aximux.Prelude.{
  List, [], ◌∷◌, ◌++◌, Option, none, some, Bool, true, false, ◌≡◌, refl, ◌∙◌, ap, arith, All,
  All-append, Bool-cases, ◌⊎◌, inl, inr, ℕ, append_assoc,
}
use aximux.Text.{Text, ends_with, strip_prefix}
use aximux.Hwh.Model.{Mux, Naming}
use aximux.Hwh.Naming.{Regex}
use aximux.Hwh.Xml.{Element}
use aximux.Hwh.Muxes.{parse_muxes}
use aximux.Hwh.Consumers.{emit_consumers}
use aximux.Hwh.Main.{
  Args, Effect, message, file, stdout, newline, with_newline, Run, and_then, ended, warnings,
  write_file, write_if, write_output, write_consumers, consumers_run, styled, after_style, main,
}

ends_with-append : (t : Text) → ends_with newline (t ++ newline) ≡ true
unfolding ends_with strip_prefix
ends_with-append [] = refl
ends_with-append (c ∷ t) = ground (arith, ends_with-append t)

ends_with-with_newline : (t : Text) → ends_with newline (with_newline t) ≡ true
unfolding with_newline
ends_with-with_newline t = elim (Bool-cases (ends_with newline t)) [
  | inl e ↦ rw (e) e
  | inr e ↦ rw (e) (ends_with-append t)
]

-- A text for a file or for stdout ends its last line.
abbrev pub EndsLine : Effect → Type 0
EndsLine (message t) = Unit
EndsLine (file path t) = ends_with newline t ≡ true
EndsLine (stdout t) = ends_with newline t ≡ true

-- The paths that are written, in order.
abbrev pub files : List Effect → List Text
files [] = []
files (message t ∷ es) = files es
files (file path t ∷ es) = path ∷ files es
files (stdout t ∷ es) = files es

abbrev pub path_if : Option Text → List Text
path_if none = []
path_if (some path) = path ∷ []

-- The files that are asked for.
abbrev pub asked : Args → List Text
asked args = path_if args.dump_json ++ (path_if args.output ++ path_if args.consumers)

files-append : (xs ys : List Effect) → files (xs ++ ys) ≡ files xs ++ files ys
files-append [] ys = refl
files-append (message t ∷ xs) ys = files-append xs ys
files-append (file path t ∷ xs) ys = ap (λ l. path ∷ l) (files-append xs ys)
files-append (stdout t ∷ xs) ys = files-append xs ys

-- A run with some files to write: it writes them all, or an exception ends it behind the first few.
abbrev Writes : List Text → Run → Type 0
Writes paths (es, true) = (files es ≡ paths) × All EndsLine es
Writes paths (es, false) = ((rest : List Text) × (paths ≡ files es ++ rest)) × All EndsLine es

Writes-and_then :
    (ps qs : List Text) (r s : Run) → Writes ps r → Writes qs s → Writes (ps ++ qs) (and_then r s)
Writes-and_then ps qs (es, true) (fs, true) (e, h) (e', k) =
    (files-append es fs ∙ rw (e, e'), All-append EndsLine es fs h k)
Writes-and_then ps qs (es, true) (fs, false) (e, h) ((rest, e'), k) =
    ((rest, rw (files-append es fs, e, e', append_assoc)), All-append EndsLine es fs h k)
Writes-and_then ps qs (es, false) s ((rest, e), h) k = ((rest ++ qs, rw (e, append_assoc)), h)

module _ (can_write : Text → Text → Bool) where
  Writes-write_file :
      (path t : Text)
      → ends_with newline t ≡ true
      → Writes (path ∷ []) (write_file can_write path t)
  Writes-write_file path t h = elim (Bool-cases (can_write path t)) [
    | inl e ↦ rw e (refl, (h, (tt, tt)))
    | inr e ↦ rw e ((path ∷ [], refl), tt)
  ]

  Writes-write_if :
      (o : Option Text) (t : Text)
      → ends_with newline t ≡ true
      → Writes (path_if o) (write_if can_write o t)
  Writes-write_if none t h = (refl, tt)
  Writes-write_if (some path) t h = Writes-write_file path t h

  Writes-write_output :
      (o : Option Text) (t : Text)
      → ends_with newline t ≡ true
      → Writes (path_if o) (write_output can_write o t)
  Writes-write_output none t h = (refl, (h, tt))
  Writes-write_output (some path) t h = Writes-write_file path t h

  Writes-warnings : (muxes : List Mux) → Writes [] (warnings muxes, true)
  Writes-warnings [] = (refl, (tt, tt))
  Writes-warnings (mux ∷ muxes) = (refl, tt)

-- How a run ends with some files to write: with code 0 and all of them, or with an exception and the
-- first few; each text that goes out ends in a newline.
abbrev pub EndsWith : List Text → List Effect × Option ℕ → Type 0
EndsWith paths (es, code) =
    (((code ≡ some 0) × (files es ≡ paths))
      ⊎ ((code ≡ none) × (rest : List Text) × (paths ≡ files es ++ rest)))
    × All EndsLine es

EndsWith-ended : (paths : List Text) (r : Run) → Writes paths r → EndsWith paths (ended r)
EndsWith-ended paths (es, true) (e, h) = (inl (refl, e), h)
EndsWith-ended paths (es, false) (e, h) = (inr (refl, e.0, e.1), h)

module _ (re : Regex) (dumps : List Mux → Text) (can_write : Text → Text → Bool) (args : Args)
    (naming : Naming) where
  Writes-write_consumers :
      (path : Text) (t : Option Text)
      → Writes (path ∷ []) (write_consumers re dumps can_write path t)
  Writes-write_consumers path none = ((path ∷ [], refl), tt)
  Writes-write_consumers path (some t) =
      Writes-write_file can_write path (with_newline t) (ends_with-with_newline t)

  Writes-consumers_run :
      (o : Option Text) (muxes : List Mux)
      → Writes (path_if o) (consumers_run re dumps can_write o naming muxes)
  unfolding consumers_run
  Writes-consumers_run none muxes = (refl, tt)
  Writes-consumers_run (some path) muxes =
      Writes-write_consumers path (emit_consumers re naming muxes)

  Writes-after_style :
      (muxes : List Mux) (t : Option Text)
      → Writes
          (path_if args.output ++ path_if args.consumers)
          (after_style re dumps can_write args naming muxes t)
  unfolding after_style
  Writes-after_style muxes none = ((_, refl), tt)
  Writes-after_style muxes (some t) =
      Writes-and_then (path_if args.output) (path_if args.consumers)
        (write_output can_write args.output (with_newline t))
        (consumers_run re dumps can_write args.consumers naming muxes)
        (Writes-write_output can_write args.output (with_newline t) (ends_with-with_newline t))
        (Writes-consumers_run args.consumers muxes)

  -- On every document, with any options and rules, whichever writes fail.
  pub main-EndsWith :
      (root : Element) → EndsWith (asked args) (main re dumps can_write args naming root)
  unfolding main
  main-EndsWith root =
      let muxes = parse_muxes root in
      let dumped = write_if can_write args.dump_json (dumps muxes ++ newline) in
      let rest =
        after_style re dumps can_write args naming muxes
          (styled re dumps can_write args.style naming muxes) in
      EndsWith-ended (asked args) (and_then (warnings muxes, true) (and_then dumped rest)) (
        Writes-and_then [] (asked args) (warnings muxes, true) (and_then dumped rest)
          (Writes-warnings can_write muxes)
          (Writes-and_then (path_if args.dump_json) (path_if args.output ++ path_if args.consumers)
            dumped rest
            (Writes-write_if can_write args.dump_json (dumps muxes ++ newline)
              (ends_with-append (dumps muxes)))
            (Writes-after_style muxes (styled re dumps can_write args.style naming muxes))))
