-- ===== src/Hwh/Functions.antt =====
-- `fn_for` of tools/hwh_aximux_dt.py: the name of the function that a pin has at an alternate.
pub mod Own
use aximux.Prelude.{
  ℕ, List, [], ◌∷◌, Option, none, some, Bool, ◌>>=◌, ◌==◌, if◌then◌else◌, find_first, range_from,
}
use aximux.Text.{Text}
use aximux.Hwh.Model.{Slot, Pin, Mux, Naming}
use aximux.Hwh.Naming.{Regex, apply_naming, naming_raises, unless, slot_label}

-- `next((a for a in pin["alts"] if a["alt"] == alt), None)`
abbrev pub slot_at : ℕ → Pin → Option Slot
slot_at a pin = find_first (λ (s : Slot). s.alt == a) pin.alts

-- `next(p for p in mux["pins"] if p["index"] == pin_i)`: `none` is the exception `StopIteration`.
abbrev pub pin_at : ℕ → Mux → Option Pin
pin_at i mux = find_first (λ (p : Pin). p.index == i) mux.pins

-- A list comprehension whose elements may raise.
abbrev pub traverse {ℓ κ} : {A : Type ℓ} {B : Type κ} → (A → Option B) → List A → Option (List B)
traverse f [] = some []
traverse f (x ∷ xs) = do y ← f x; ys ← traverse f xs; some (y ∷ ys)

module _ (re : Regex) (naming : Naming) where
  unfoldable pub fn_for : Mux → ℕ → ℕ → Option Text
  unfolding apply_naming naming_raises slot_label
  fn_for mux pin_i a = do
    pin ← pin_at pin_i mux
    let label = slot_label (slot_at a pin)
    unless (naming_raises re label naming) (apply_naming re label pin_i a naming mux.inst)
