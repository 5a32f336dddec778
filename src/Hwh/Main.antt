-- ===== src/Hwh/Main.antt =====
-- `main` of tools/hwh_aximux_dt.py, from the parsed document and the naming on: the texts that it
-- writes and prints, in order, and its exit code. `none` for the code is an exception.
pub mod Result
pub mod Success
use aximux.Prelude.{
  ℕ, List, [], ◌∷◌, ◌++◌, Option, none, some, Bool, true, false, if◌then◌else◌, concat,
}
use aximux.Text.{Text, codes, ends_with}
use aximux.Hwh.Model.{Mux, Naming}
use aximux.Hwh.Naming.{Regex}
use aximux.Hwh.Xml.{Element}
use aximux.Hwh.Muxes.{parse_muxes}
use aximux.Hwh.Emit.Legacy.{emit_legacy}
use aximux.Hwh.Emit.Pinctrl2.{emit_pinctrl2}
use aximux.Hwh.Consumers.{emit_consumers}

-- The choices of `--style`.
pub data Style : Type 0 where
  legacy : Style
  pinctrl2 : Style
  json : Style

-- The command line, without the two files that are read.
pub record Args : Type 0 where
  pub output : Option Text
  pub style : Style
  pub consumers : Option Text
  pub dump_json : Option Text

-- A message on stderr, a file that is written out (its path and its text), and a text on stdout.
pub data Effect : Type 0 where
  message : Text → Effect
  file : Text → Text → Effect
  stdout : Text → Effect

abbrev pub newline : Text
newline = codes "\n"

-- `text if text.endswith("\n") else text + "\n"`
unfoldable pub with_newline : Text → Text
unfolding ends_with
with_newline t = if ends_with newline t then t else t ++ newline

abbrev pub wrote : Text → Effect
wrote path = message (codes "wrote " ++ path)

abbrev pub warnings : List Mux → List Effect
warnings [] = message (codes "warning: no axi_mux/aximux modules found") ∷ []
warnings (mux ∷ muxes) = []

-- The effects of a part of the run, and whether it comes to its end; `false` is an exception.
abbrev pub Run : Type 0
Run = List Effect × Bool

-- One part and then the other, which an exception in the first leaves out.
abbrev pub and_then : Run → Run → Run
and_then (es, true) (fs, b) = (es ++ fs, b)
and_then (es, false) r = (es, false)

abbrev pub ended : Run → List Effect × Option ℕ
ended (es, true) = (es, some 0)
ended (es, false) = (es, none)

-- `write_text` of a path, and the message that the file is written.
abbrev pub write_file : (Text → Text → Bool) → Text → Text → Run
write_file can_write path t =
    if can_write path t then (file path t ∷ wrote path ∷ [], true) else ([], false)

abbrev pub write_if : (Text → Text → Bool) → Option Text → Text → Run
write_if can_write none t = ([], true)
write_if can_write (some path) t = write_file can_write path t

abbrev pub write_output : (Text → Text → Bool) → Option Text → Text → Run
write_output can_write none t = (stdout t ∷ [], true)
write_output can_write (some path) t = write_file can_write path t

-- `dumps` is `json.dumps(…, indent=2)`, and `can_write` says of a path and a text whether `write_text`
-- succeeds.
module _ (re : Regex) (dumps : List Mux → Text) (can_write : Text → Text → Bool) where
  unfoldable pub styled : Style → Naming → List Mux → Option Text
  unfolding emit_legacy emit_pinctrl2
  styled legacy naming muxes = emit_legacy re naming muxes
  styled pinctrl2 naming muxes = emit_pinctrl2 re naming muxes
  styled json naming muxes = some (dumps muxes ++ newline)

  -- The last part, from the text of `emit_consumers` on.
  abbrev pub write_consumers : Text → Option Text → Run
  write_consumers path none = ([], false)
  write_consumers path (some t) = write_file can_write path (with_newline t)

  unfoldable pub consumers_run : Option Text → Naming → List Mux → Run
  unfolding emit_consumers with_newline
  consumers_run none naming muxes = ([], true)
  consumers_run (some path) naming muxes = write_consumers path (emit_consumers re naming muxes)

  -- From the text of the style on.
  unfoldable pub after_style : Args → Naming → List Mux → Option Text → Run
  unfolding with_newline consumers_run
  after_style args naming muxes none = ([], false)
  after_style args naming muxes (some text) =
      and_then (write_output can_write args.output (with_newline text))
        (consumers_run args.consumers naming muxes)

  unfoldable pub main : Args → Naming → Element → List Effect × Option ℕ
  unfolding parse_muxes styled after_style
  main args naming root =
      let muxes = parse_muxes root in
      ended (
        and_then (warnings muxes, true)
          (and_then (write_if can_write args.dump_json (dumps muxes ++ newline))
            (after_style args naming muxes (styled args.style naming muxes))))
