-- ===== src/Generator/Program/Result.antt =====
-- What generator/mux_gen.py prints.
use aximux.Prelude.{◌++◌, ltb, arith, All, map, Bool-cases, inl, inr}
use mathlib.Core.List.{Memᴰ}
use aximux.Generator.Arguments.{
  ℤ, pos, negsuc, check_arguments, InRange, max_signals, max_alt_signals,
}
use aximux.Generator.Ports.{Hdltools}
use aximux.Generator.Names.{name_of}
use aximux.Generator.Body.Declared.{signal_of}
use aximux.Generator.Body.Wired.{all_looked_up-IsDeclared}
use aximux.Generator.Program.{HdlModule, Program, failed, error, printed, aximux_generator, program}

-- Every name that the module's body looks up is declared by the module.
abbrev pub IsComplete : HdlModule → Type 0
IsComplete made =
    All (λ t. Memᴰ t (map name_of made.ports ++ map signal_of made.signals)) made.looked_up_names

abbrev pub Prints : ℤ → ℤ → Program → Type 0
Prints signals alts (failed t) = ¬ (InRange max_signals signals × InRange max_alt_signals alts)
Prints signals alts error = ⊥
Prints signals alts (printed made) =
    InRange max_signals signals × InRange max_alt_signals alts × IsComplete made

-- For every pair of numbers, the generator ends with a message where they are out of range, and
-- prints a module where they are not; the RuntimeError of `aximux_generator` is never raised; and
-- every name that the body of a printed module looks up is that of one of its ports or of its own
-- signals.
pub program-Prints :
    (hdl : Hdltools) (signals alts : ℤ) → Prints signals alts (program hdl signals alts)
unfolding program check_arguments aximux_generator
program-Prints hdl (pos m) (pos n) = elim (Bool-cases (ltb max_alt_signals n)) [
  | inl a ↦ rw (Prints, a) (λ r. ground arith)
  | inr a ↦ elim (Bool-cases (ltb max_signals m)) [
    | inl b ↦ rw (Prints, a, b) (λ r. ground arith)
    | inr b ↦ elim (Bool-cases (ltb m 1)) [
      | inl c ↦ rw (Prints, a, b, c) (λ r. ground arith)
      | inr c ↦ elim (Bool-cases (ltb n 1)) [
        | inl d ↦ rw (Prints, a, b, c, d) (λ r. ground arith)
        | inr d ↦
            rw (Prints, a, b, c, d)
              (rw (Prints, d)
                (
                  (ground arith, ground arith),
                  (ground arith, ground arith),
                  all_looked_up-IsDeclared hdl m n,
                ))
      ]
    ]
  ]
]
program-Prints hdl (pos m) (negsuc n) = elim (Bool-cases (ltb max_signals m)) [
  | inl b ↦ rw (Prints, b) (λ r. r.1)
  | inr b ↦ elim (Bool-cases (ltb m 1)) [
    | inl c ↦ rw (Prints, b, c) (λ r. r.1)
    | inr c ↦ rw (Prints, b, c) (λ r. r.1)
  ]
]
program-Prints hdl (negsuc m) (pos n) = elim (Bool-cases (ltb max_alt_signals n)) [
  | inl a ↦ rw (Prints, a) (λ r. r.0)
  | inr a ↦ rw (Prints, a) (λ r. r.0)
]
program-Prints hdl (negsuc m) (negsuc n) = λ r. r.0
