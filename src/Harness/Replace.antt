-- ===== src/Harness/Replace.antt =====
-- `sub in text` and `text.replace(old, new)`, with and without a count of 1.
use aximux.Prelude.{
  ℕ, zero, suc, ◌-◌, [], ◌∷◌, ◌++◌, Bool, true, false, not, ◌||◌, ◌&&◌, ◌==◌, if◌then◌else◌, ◌≡◌,
  refl, ap, arith, length, Bool-cases, inl, inr, none, some, ◌≢◌, ◌⊎◌, Option-cases,
}
use aximux.Text.{Text, starts_with, strip_prefix, strip_prefix_sound}

-- `sub in t`
unfoldable pub contains_text : Text → Text → Bool
unfolding strip_prefix
contains_text sub [] = starts_with sub []
contains_text sub (c ∷ t) = starts_with sub (c ∷ t) || contains_text sub t

-- `t.replace(old, new, 1)`, for an `old` that is not empty
unfoldable pub replace_first : Text → Text → Text → Text
unfolding strip_prefix
replace_first old new [] = []
replace_first old new (c ∷ t) =
    let rest = replace_first old new t in
    elim (strip_prefix old (c ∷ t)) [ some b ↦ new ++ b | none ↦ c ∷ rest ]

-- `t.replace(old, new)` likewise: after a match, the characters of `old` that are left are skipped.
unfoldable pub replace_from : ℕ → Text → Text → Text → Text
unfolding strip_prefix
replace_from skip old new [] = []
replace_from (suc skip) old new (c ∷ t) = replace_from skip old new t
replace_from zero old new (c ∷ t) =
    let kept = replace_from zero old new t in
    let next = replace_from (length old - 1) old new t in
    if starts_with old (c ∷ t) then new ++ next else c ∷ kept

abbrev pub replace_all : Text → Text → Text → Text
replace_all = replace_from 0

starts_with-append : (s t : Text) → starts_with s (s ++ t) ≡ true
unfolding strip_prefix
starts_with-append [] t = refl
starts_with-append (c ∷ s) t = ground (arith, starts_with-append s t)

contains_start : (s t : Text) → starts_with s t ≡ true → contains_text s t ≡ true
unfolding contains_text
contains_start s [] h = h
contains_start s (c ∷ t) h = rw h

pub contains-append_right :
    (s a t : Text) → contains_text s t ≡ true → contains_text s (a ++ t) ≡ true
contains-append_right s [] t h = h
contains-append_right s (c ∷ a) t h = step (contains-append_right s a t h)
  where
    step : contains_text s (a ++ t) ≡ true → contains_text s (c ∷ (a ++ t)) ≡ true
    step ih = unfold contains_text in ground arith

-- A text that is put in is there, and stays there whatever follows.
pub contains-middle : (s a b : Text) → contains_text s (a ++ (s ++ b)) ≡ true
contains-middle s a b =
    contains-append_right s a (s ++ b) (contains_start s (s ++ b) (starts_with-append s b))

replace_first_cons :
    (old new : Text) (c : ℕ) (t : Text)
    → replace_first old new (c ∷ t)
      ≡ elim (strip_prefix old (c ∷ t)) [ some b ↦ new ++ b | none ↦ c ∷ replace_first old new t ]
unfolding replace_first
replace_first_cons old new c t = refl

contains_cons :
    (s : Text) (c : ℕ) (t : Text)
    → contains_text s (c ∷ t) ≡ (starts_with s (c ∷ t) || contains_text s t)
unfolding contains_text
contains_cons s c t = refl

not_in_nothing : (s : Text) → contains_text s [] ≡ true → s ≡ []
unfolding contains_text
not_in_nothing [] h = refl
not_in_nothing (c ∷ s) h = cc

-- The first occurrence is replaced, and everything else stays.
pub replace_first_lem :
    (old new t : Text)
    → contains_text old t ≡ true
    → old ≢ []
    → (a : Text) × (b : Text) × (t ≡ a ++ (old ++ b)) × (replace_first old new t ≡ a ++ (new ++ b))
replace_first_lem old new [] h n = absurd (n (not_in_nothing old h))
replace_first_lem old new (c ∷ t) h n = elim (Option-cases (strip_prefix old (c ∷ t))) [
  | inr (b, e) ↦ ([], b, strip_prefix_sound old (c ∷ t) e, rw (replace_first_cons old new c t, e))
  | inl e ↦
      let later : contains_text old t ≡ true = rw (contains_cons old c t, e) at h in
      let (a, b, split, made) = replace_first_lem old new t later n in
      (
        c ∷ a,
        b,
        ap (λ (u : Text). c ∷ u) split,
        rw (replace_first_cons old new c t, e) (ap (λ (u : Text). c ∷ u) made),
      )
]

-- One text is a prefix of the other.
abbrev compatible : Text → Text → Bool
compatible [] t = true
compatible (a ∷ s) [] = true
compatible (a ∷ s) (b ∷ t) = (a == b) && compatible s t

-- No text that begins with `old` has a part of `s`, up to its end, where it begins.
abbrev pub clear : Text → Text → Bool
clear old [] = true
clear old (c ∷ s) = not (compatible (c ∷ s) old) && clear old s

abbrev pub tail_text : Text → Text
tail_text [] = []
tail_text (c ∷ s) = s

starts-compatible : (s old b : Text) → starts_with s (old ++ b) ≡ true → compatible s old ≡ true
unfolding strip_prefix
starts-compatible [] old b h = refl
starts-compatible (c ∷ s) [] b h = refl
starts-compatible (c ∷ s) (d ∷ old) b h = ground (arith, starts-compatible s old b)

starts_cons : (c d : ℕ) (s t : Text) → starts_with (c ∷ s) (d ∷ t) ≡ ((c == d) && starts_with s t)
unfolding strip_prefix
starts_cons c d s t = ground arith

-- An occurrence that begins before `old` ends before it too.
starts_before :
    (s a old b : Text)
    → clear old s ≡ true
    → starts_with s (a ++ (old ++ b)) ≡ true
    → (r : Text) → starts_with s (a ++ r) ≡ true
starts_before [] a old b k h r = unfold strip_prefix in refl
starts_before (c ∷ s) [] old b k h r = ground (arith, starts-compatible (c ∷ s) old b h)
starts_before (c ∷ s) (d ∷ a) old b k h r = ground (
  arith,
  starts_cons c d s (a ++ r),
  starts_cons c d s (a ++ (old ++ b)),
  starts_before s a old b (ground arith) (ground (arith, starts_cons c d s (a ++ (old ++ b)))) r,
)

starts_longer :
    (c d : ℕ) (s a ins old b : Text)
    → clear old s ≡ true
    → starts_with (c ∷ s) (d ∷ (a ++ (old ++ b))) ≡ true
    → starts_with (c ∷ s) (d ∷ (a ++ (ins ++ (old ++ b)))) ≡ true
starts_longer c d s a ins old b k h = ground (
  arith,
  starts_cons c d s (a ++ (ins ++ (old ++ b))),
  starts_cons c d s (a ++ (old ++ b)),
  starts_before s a old b k (ground (arith, starts_cons c d s (a ++ (old ++ b))))
      (ins ++ (old ++ b)),
)

-- Putting a text in front of `old` destroys no occurrence of a text that `old` cannot cut.
pub contains-insert :
    (s a ins old b : Text)
    → clear old (tail_text s) ≡ true
    → contains_text s (a ++ (old ++ b)) ≡ true
    → contains_text s (a ++ (ins ++ (old ++ b))) ≡ true
contains-insert s [] ins old b k h = contains-append_right s ins (old ++ b) h
contains-insert [] (d ∷ a) ins old b k h =
    contains_start [] (d ∷ (a ++ (ins ++ (old ++ b)))) (unfold strip_prefix in refl)
contains-insert (c ∷ s) (d ∷ a) ins old b k h =
    step (Bool-cases (starts_with (c ∷ s) (d ∷ (a ++ (old ++ b)))))
      (contains-insert (c ∷ s) a ins old b k)
  where
    step :
        (starts_with (c ∷ s) (d ∷ (a ++ (old ++ b))) ≡ true)
          ⊎ (starts_with (c ∷ s) (d ∷ (a ++ (old ++ b))) ≡ false)
        → (contains_text (c ∷ s) (a ++ (old ++ b)) ≡ true
            → contains_text (c ∷ s) (a ++ (ins ++ (old ++ b))) ≡ true)
        → contains_text (c ∷ s) (d ∷ (a ++ (ins ++ (old ++ b)))) ≡ true
    step (inl e) ih =
        contains_start (c ∷ s) (d ∷ (a ++ (ins ++ (old ++ b))))
          (starts_longer c d s a ins old b k e)
    step (inr e) ih = ground (
      arith,
      ih (ground (arith, contains_cons (c ∷ s) d (a ++ (old ++ b)))),
      contains_cons (c ∷ s) d (a ++ (ins ++ (old ++ b))),
    )

starts_left : (s t u : Text) → starts_with s t ≡ true → starts_with s (t ++ u) ≡ true
starts_left [] t u h = unfold strip_prefix in refl
starts_left (c ∷ s) [] u h = unfold strip_prefix in cc h
starts_left (c ∷ s) (d ∷ t) u h = ground (
  arith,
  starts_cons c d s t,
  starts_cons c d s (t ++ u),
  starts_left s t u (ground (arith, starts_cons c d s t)),
)

pub contains-append_left :
    (s t u : Text) → contains_text s t ≡ true → contains_text s (t ++ u) ≡ true
contains-append_left s [] u h =
    rw (not_in_nothing s h) (contains_start [] u (unfold strip_prefix in refl))
contains-append_left s (d ∷ t) u h = elim (Bool-cases (starts_with s (d ∷ t))) [
  | inl e ↦ contains_start s (d ∷ (t ++ u)) (starts_left s (d ∷ t) u e)
  | inr e ↦ rw (contains_cons s d (t ++ u)) (
      or_right (starts_with s (d ∷ (t ++ u)))
        (contains-append_left s t u (rw (contains_cons s d t, e) at h)))
]
  where
    or_right : (a : Bool) {b : Bool} → b ≡ true → (a || b) ≡ true
    or_right true h = refl
    or_right false h = h
