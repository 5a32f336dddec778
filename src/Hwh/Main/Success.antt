-- ===== src/Hwh/Main/Success.antt =====
-- `main` of tools/hwh_aximux_dt.py, where the naming rules are sound and the files can be written.
use aximux.Prelude.{
  any-false, any, text_eq, ◌==◌, ℕ, List, [], ◌∷◌, ◌++◌, Option, none, some, Bool, true, false, ◌≡◌,
  refl, ◌∙◌, All, if◌then◌else◌, inl, inr,
}
use aximux.Text.{Text}
use aximux.Hwh.Model.{Slot, Pin, Mux, Naming}
use aximux.Hwh.Naming.Sound.{IsSound, naming_quiet}
use aximux.Hwh.Naming.{Regex, unless, link_label}
use aximux.Hwh.Xml.{Element}
use aximux.Hwh.Muxes.{parse_muxes}
use aximux.Hwh.Functions.Own.{own_raises}
use aximux.Hwh.Emit.Names.{legacy_raises, emit_legacy_parsed}
use aximux.Hwh.Emit.Total.{emit_pinctrl2_total, raw_quiet}
use aximux.Hwh.Consumers.{consumer_raises, emit_consumers}
use aximux.Hwh.Main.{
  Style, legacy, pinctrl2, json, Args, newline, with_newline, Run, and_then, ended, warnings,
  write_file, write_if, write_output, consumers_run, styled, after_style, main,
}
use aximux.Hwh.Main.Result.{EndsLine, files, path_if, asked, main-EndsWith}

and_then-true : (r s : Run) → r.1 ≡ true → s.1 ≡ true → (and_then r s).1 ≡ true
and_then-true (es, true) s h k = k
and_then-true (es, false) s h k = absurd (cc h)

ended-code : (r : Run) → r.1 ≡ true → (ended r).1 ≡ some 0
ended-code (es, true) h = refl
ended-code (es, false) h = absurd (cc h)

-- Every text can be written to these paths.
abbrev pub Writable : (Text → Text → Bool) → List Text → Type 0
Writable can_write = All (λ path. (t : Text) → can_write path t ≡ true)

Writable-split :
    (can_write : Text → Text → Bool) (ps qs : List Text)
    → Writable can_write (ps ++ qs)
    → Writable can_write ps × Writable can_write qs
Writable-split can_write [] qs w = (tt, w)
Writable-split can_write (p ∷ ps) qs w =
    let (left, right) = Writable-split can_write ps qs w.1 in ((w.0, left), right)

module _ (can_write : Text → Text → Bool) where
  write_file-true :
      (path t : Text) → Writable can_write (path ∷ []) → (write_file can_write path t).1 ≡ true
  write_file-true path t w = rw (w.0 t)

  write_if-true :
      (o : Option Text) (t : Text)
      → Writable can_write (path_if o)
      → (write_if can_write o t).1 ≡ true
  write_if-true none t w = refl
  write_if-true (some path) t w = write_file-true path t w

  write_output-true :
      (o : Option Text) (t : Text)
      → Writable can_write (path_if o)
      → (write_output can_write o t).1 ≡ true
  write_output-true none t w = refl
  write_output-true (some path) t w = write_file-true path t w

module _ (re : Regex) (dumps : List Mux → Text) (can_write : Text → Text → Bool) (args : Args)
    (naming : Naming) where
  module _ (sound : All (IsSound re) naming.rules) where
    consumer_quiet : (s : Slot) → consumer_raises re naming s ≡ false
    unfolding consumer_raises
    consumer_quiet s =
        quiet (s.alt == 1)
          (raw_quiet re naming (naming_quiet re naming sound) (link_label s.incoming_link))
      where
        quiet : {x : Bool} (b : Bool) → x ≡ false → (if b then x else false) ≡ false
        quiet true h = h
        quiet false h = refl

    unless-false {ℓ} : {A : Type ℓ} (b : Bool) (a : A) → b ≡ false → unless b a ≡ some a
    unless-false b a h = rw h

    emit_consumers-some :
        (muxes : List Mux) → (t : Text) × (emit_consumers re naming muxes ≡ some t)
    unfolding emit_consumers
    emit_consumers-some muxes = (
      _,
      unless-false _ _ (
          any-false
            (λ (mux : Mux). any (λ (p : Pin). any (consumer_raises re naming) p.alts) mux.pins)
            muxes
            (λ mux.
              any-false (λ (p : Pin). any (consumer_raises re naming) p.alts) mux.pins
                (λ p. any-false (consumer_raises re naming) p.alts consumer_quiet))),
    )

    legacy_quiet : (mux : Mux) → legacy_raises re naming mux ≡ false
    legacy_quiet mux = rw (own 0, own 1)
      where
        own : (a : ℕ) → any (own_raises re naming a) mux.pins ≡ false
        own a = any-false (own_raises re naming a) mux.pins (λ p. naming_quiet re naming sound _)

    styled_total :
        (s : Style) (root : Element)
        → (t : Text) × (styled re dumps can_write s naming (parse_muxes root) ≡ some t)
    unfolding styled
    styled_total legacy root = (
      _,
      emit_legacy_parsed re naming root
          ∙ unless-false _ _ (any-false (legacy_raises re naming) (parse_muxes root) legacy_quiet),
    )
    styled_total pinctrl2 root =
        emit_pinctrl2_total re naming (naming_quiet re naming sound) (parse_muxes root)
    styled_total json root = (_, refl)

    consumers_run-true :
        (o : Option Text) (muxes : List Mux)
        → Writable can_write (path_if o)
        → (consumers_run re dumps can_write o naming muxes).1 ≡ true
    unfolding consumers_run
    consumers_run-true none muxes w = refl
    consumers_run-true (some path) muxes w =
        let (t, e) = emit_consumers-some muxes in
        rw e (write_file-true can_write path (with_newline t) w)

    after_style-true :
        (muxes : List Mux) (t : Text)
        → Writable can_write (path_if args.output ++ path_if args.consumers)
        → (after_style re dumps can_write args naming muxes (some t)).1 ≡ true
    unfolding after_style
    after_style-true muxes t w =
        let (left, right) =
          Writable-split can_write (path_if args.output) (path_if args.consumers) w in
        and_then-true (write_output can_write args.output (with_newline t))
          (consumers_run re dumps can_write args.consumers naming muxes)
          (write_output-true can_write args.output (with_newline t) left)
          (consumers_run-true args.consumers muxes right)

    main-code :
        (root : Element)
        → Writable can_write (asked args)
        → (main re dumps can_write args naming root).1 ≡ some 0
    unfolding main
    main-code root w =
        let (t, e) = styled_total args.style root in
        let (left, right) =
          Writable-split can_write (path_if args.dump_json)
            (path_if args.output ++ path_if args.consumers) w in
        let muxes = parse_muxes root in
        let dumped = write_if can_write args.dump_json (dumps muxes ++ newline) in
        let rest =
          after_style re dumps can_write args naming muxes
            (styled re dumps can_write args.style naming muxes) in
        ended-code (and_then (warnings muxes, true) (and_then dumped rest)) (
          and_then-true (warnings muxes, true) (and_then dumped rest) refl
            (and_then-true dumped rest
              (write_if-true can_write args.dump_json (dumps muxes ++ newline) left)
              (rw e (after_style-true muxes t right))))

  -- If the patterns of the rules compile, their replacements fit them, and every file that is asked
  -- for can be written, then on every document and for every style `main` raises nothing and returns
  -- 0; it writes the files that are asked for, the JSON dump, the output and the consumers, in this
  -- order and no others; and each text that it writes to a file or to stdout ends in a newline.
  pub main_lem :
      (root : Element)
      → All (IsSound re) naming.rules
      → Writable can_write (asked args)
      → ((main re dumps can_write args naming root).1 ≡ some 0)
        × (files (main re dumps can_write args naming root).0 ≡ asked args)
        × All EndsLine (main re dumps can_write args naming root).0
  main_lem root sound w =
      let code = main-code sound root w in
      let (either, ends) = main-EndsWith re dumps can_write args naming root in
      elim either [ inl h ↦ (code, h.1, ends) | inr h ↦ absurd (cc (code, h.0)) ]
