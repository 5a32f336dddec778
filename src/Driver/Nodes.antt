-- ===== src/Driver/Nodes.antt =====
-- The device tree as driver/aximux.c reads it, and what the driver keeps of it.
use aximux.Prelude.{ℕ, List, [], ◌∷◌, Option, none, some, leb, if◌then◌else◌, length, take}
use aximux.Prelude.Dict.{Dict}
use aximux.Text.{Text}
use aximux.Device.{zeros}
use aximux.Driver.{AximuxGroup, FunctionGroup, Code, enodata}

-- An available child of the controller's node: its name without the unit address, and its
-- properties, `none` where one is missing.
pub record Node : Type 0 where
  pub name : Text
  pub reg : Option ℕ
  pub pins : Option (List Text)
  pub mux : Option (List ℕ)
  pub function : Option Text
  pub function_names : Option (List Text)
  pub alternate_names : Option (List Text)

-- What a call yields, or the code with which it fails.
pub data Result {ℓ} (A : Type ℓ) : Type ℓ where
  ret : A → Result A
  err : Code → Result A

infixl 5 ◌>>=◌
abbrev pub ◌>>=◌ {ℓ κ} : {A : Type ℓ} {B : Type κ} → Result A → (A → Result B) → Result B
ret a >>= f = f a
err c >>= f = err c

pub record AximuxPin : Type 0 where
  pub number : ℕ
  pub name : Text
  pub func_names : List Text

-- The functions in the order in which they are added; a name is listed once.
abbrev pub Functions : Type 0
Functions = Dict Text (List FunctionGroup)

pub record Aximux : Type 0 where
  pub nalts : ℕ
  pub pins : List AximuxPin
  pub groups : List AximuxGroup
  pub functions : Functions

-- `of_property_count_strings` and `of_property_read_string_array`: an empty property has no data.
abbrev pub strings_of : List Text → Result (List Text)
strings_of [] = err enodata
strings_of (n ∷ ns) = ret (n ∷ ns)

-- `of_property_read_u32_array` of `n` cells into zeros: it fails where the property is missing or too
-- short.
abbrev pub cells_of : ℕ → Option (List ℕ) → List ℕ
cells_of n none = zeros n
cells_of n (some cells) = if leb n (length cells) then take n cells else zeros n

abbrev pub or_default {ℓ} : {A : Type ℓ} → A → Option A → A
or_default a none = a
or_default a (some b) = b
