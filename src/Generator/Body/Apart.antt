-- ===== src/Generator/Body/Apart.antt =====
-- Names made of a word and a number: those of one word differ, and so do those of words that differ
-- somewhere.
use aximux.Prelude.{
  ℕ, zero, suc, ◌+◌, List, [], ◌∷◌, ◌++◌, Bool, true, false, ◌||◌, not, ◌==◌, if◌then◌else◌, ◌≡◌,
  sym, ap, ◌∙◌, ◌≢◌, arith, All, All-append, map, concat_map, range_from, range, all,
}
use mathlib.Core.Option.{some-injective}
use aximux.Prelude.Nodup.{Nodup, Nodup-append, All-map_range}
use aximux.Text.{Text, strip_prefix, strip_prefix-append}
use aximux.Text.Decimal.{str, str-injective}
use aximux.Generator.Body.{numbered}

-- The words differ at some place that both have.
abbrev pub differ : Text → Text → Bool
differ [] q = false
differ (c ∷ p) [] = false
differ (c ∷ p) (d ∷ q) = not (c == d) || differ p q

pub differ_sound : (p q s t : Text) → differ p q ≡ true → p ++ s ≢ q ++ t
differ_sound [] q s t h e = absurd (ground arith)
differ_sound (c ∷ p) [] s t h e = absurd (ground arith)
differ_sound (c ∷ p) (d ∷ q) s t h e =
    let later = differ_sound p q s t in
    let (same_head, same_rest) : (c ≡ d) × (p ++ s ≡ q ++ t) = (cc, cc) in
    ground (arith, later, same_head, same_rest)

pub numbered-injective : (kind : Text) (i j : ℕ) → numbered kind i ≡ numbered kind j → i ≡ j
unfolding numbered
numbered-injective kind i j e = str-injective i j (
    some-injective _ _ (
      sym (strip_prefix-append kind (str i))
      ∙ ap (strip_prefix kind) e
      ∙ strip_prefix-append kind (str j)))

pub numbered-differ : (p q : Text) (i j : ℕ) → differ p q ≡ true → numbered p i ≢ numbered q j
unfolding numbered
numbered-differ p q i j h = differ_sound p q (str i) (str j) h

abbrev pub family : ℕ → Text → List Text
family m kind = map (λ mux. numbered kind mux) (range m)

family-Nodup : (kind : Text) (i n : ℕ) → Nodup (map (λ mux. numbered kind mux) (range_from i n))
family-Nodup kind i zero = tt
family-Nodup kind i (suc n) = (
  All-map_range (λ t. numbered kind i ≢ t) (λ mux. numbered kind mux) (i + 1) n
      (λ j l e. let k = numbered-injective kind i j e in omega (arith, k, l)),
  family-Nodup kind (i + 1) n,
)

-- Each word differs from those after it.
abbrev pub all_differ : List Text → Bool
all_differ [] = true
all_differ (p ∷ ps) = if all (differ p) ps then all_differ ps else false

pub families-Nodup :
    (m : ℕ) (kinds : List Text) → all_differ kinds ≡ true → Nodup (concat_map (family m) kinds)
families-Nodup m [] h = tt
families-Nodup m (p ∷ ps) h =
    Nodup-append (family m p) (concat_map (family m) ps) (family-Nodup p 0 m)
      (families-Nodup m ps (ground arith))
      (All-map_range (λ t. All (λ u. t ≢ u) (concat_map (family m) ps)) (λ mux. numbered p mux) 0 m
        (λ i _. others i ps (ground arith)))
  where
    others :
        (i : ℕ) (qs : List Text)
        → all (differ p) qs ≡ true
        → All (λ u. numbered p i ≢ u) (concat_map (family m) qs)
    others i [] k = tt
    others i (q ∷ qs) k =
        All-append (λ u. numbered p i ≢ u) (family m q) (concat_map (family m) qs)
          (All-map_range (λ u. numbered p i ≢ u) (λ mux. numbered q mux) 0 m
            (λ j _. numbered-differ p q i j (ground arith)))
          (others i qs (ground arith))
