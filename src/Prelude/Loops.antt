-- ===== src/Prelude/Loops.antt =====
-- Loops over a list that append to what a view shows of their state.
use mathlib.Core.Path.{◌≡◌, ap, ◌∙◌}
use mathlib.Core.List.{List, [], ◌∷◌, ◌++◌, append-nil, append_assoc}
use aximux.Prelude.Lists.{concat_map}

-- A loop that appends a part in each round appends the parts in order.
pub loop_appends {ℓ κ μ} :
    {S : Type ℓ} {A : Type κ} {B : Type μ} (view : S → List B) (step : A → S → S)
    (part : A → List B) (loop : List A → S → S)
    → ((s : S) → loop [] s ≡ s)
    → ((x : A) (xs : List A) (s : S) → loop (x ∷ xs) s ≡ loop xs (step x s))
    → ((x : A) (s : S) → view (step x s) ≡ view s ++ part x)
    → (xs : List A) (s : S) → view (loop xs s) ≡ view s ++ concat_map part xs
loop_appends view step part loop done next round [] s = rw (done s, append-nil (view s))
loop_appends view step part loop done next round (x ∷ xs) s =
    ap view (next x xs s)
    ∙ loop_appends view step part loop done next round xs (step x s)
    ∙ ap (λ l. l ++ concat_map part xs) (round x s)
    ∙ append_assoc (view s) (part x) (concat_map part xs)
