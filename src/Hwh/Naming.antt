-- ===== src/Hwh/Naming.antt =====
-- Labels and their names: `is_noise`, `peer_info`, `gpio_name`, `apply_naming`, `slot_label`.
pub mod Peers
pub mod Names
pub mod Sound
use aximux.Prelude.{
  ℕ, ◌+◌, List, [], ◌∷◌, ◌++◌, Option, none, some, Bool, true, false, not, ◌&&◌, ◌||◌, ◌>>=◌, ◌>>◌,
  guard, ◌==◌, if◌then◌else◌, any, select, map, same, text_eq, ◌≡◌, refl,
}
use aximux.Prelude.Dict
use aximux.Text.{Text, codes, starts_with, strip_prefix, before_first}
use aximux.Text.Decimal.{str}
use aximux.Text.Patterns.{sub_tail, sub_suffix, sub_numbered, digits_then, at_end}
use aximux.Hwh.Model.{Peer, Link, Slot, Rule, Naming}

abbrev pub noise_prefixes : List Text
noise_prefixes =
    codes "xlconcat_"
    ∷ codes "xlslice_"
    ∷ codes "xlconstant_"
    ∷ codes "const_"
    ∷ codes "util_vector_logic_"
    ∷ codes "util_reduced_logic_"
    ∷ codes "explode"
    ∷ codes "ground_"
    ∷ codes "vcc_"
    ∷ []

unfoldable pub is_noise : Text → Bool
unfolding strip_prefix
is_noise inst = any (λ p. starts_with p inst) noise_prefixes

-- `label.split(".", 1)[0]`
abbrev pub inst_of : Text → Text
inst_of = before_first b'.'

direction : Text → Option Text
direction (c ∷ d ∷ r) =
    if (c == b'_') && (((d == b'i') || ((d == b'o') || ((d == b't') || (d == b'n')))) && at_end r)
    then some r
    else none
direction _ = none

-- `re.sub(r"_[iotn]$", "", port)`
unfoldable pub strip_direction : Text → Text
unfolding sub_tail direction
strip_direction = sub_tail direction

-- `a or b` on lists
abbrev pub or_list {ℓ} : {A : Type ℓ} → List A → List A → List A
or_list [] ys = ys
or_list (x ∷ xs) ys = x ∷ xs

-- Nothing, if an exception is raised.
abbrev pub unless {ℓ} : {A : Type ℓ} → Bool → A → Option A
unless b a = if b then none else some a

-- The peers that `peer_info` settles on: those of other instances, and not noise if it can.
unfoldable pub chosen_peers : List Peer → Text → List Peer
unfolding is_noise
chosen_peers peers mux_inst =
    let others = select (λ (p : Peer). not (same p.inst mux_inst)) peers in
    or_list (select (λ (p : Peer). not (is_noise p.inst)) others) others

abbrev pub peer_label : Peer → Text
peer_label p = p.inst ++ (codes "." ++ strip_direction p.port)

unfoldable pub label_of : List Peer → Option Text
label_of [] = none
label_of (p ∷ _) = some (peer_label p)

unfoldable pub peer_info : List Peer → Text → Option Text × List Peer
unfolding chosen_peers label_of strip_direction
peer_info peers mux_inst = let chosen = chosen_peers peers mux_inst in (label_of chosen, chosen)

unfoldable pub gpio_name : Text → ℕ → Naming → Text
unfolding Dict.lookup text_eq str
gpio_name mux_inst pin_i naming =
    elim naming.gpio_prefix [ none ↦ codes "gpio0" | some g ↦ g ]
    ++ (codes "." ++ str (Dict.get_or mux_inst 0 naming.gpio_bases + pin_i))

-- A label that is missing or empty is false.
abbrev pub truthy : Option Text → Option Text
truthy none = none
truthy (some []) = none
truthy (some (c ∷ t)) = some (c ∷ t)

abbrev pub unused_name : ℕ → ℕ → Text
unused_name pin_i alt = codes "unused" ++ (str pin_i ++ (codes "." ++ str alt))

capture : Text → Option Text
unfolding digits_then strip_prefix
capture t = do
  r ← strip_prefix (codes ".capturetrig") t
  (ds, rest) ← digits_then r
  guard (at_end rest)
  some (codes ".pwm_cap" ++ (ds ++ rest))

-- The chain of `re.sub` calls that ends `apply_naming`.
unfoldable pub default_rename : Text → Text
unfolding sub_numbered sub_suffix sub_tail capture
default_rename label =
    let out = sub_numbered (codes "axi_iic_") (codes "i2c") label in
    let out = sub_numbered (codes "axi_quad_spi_") (codes "spi") out in
    let out = sub_numbered (codes "axi_uart16550_") (codes "uart") out in
    let out = sub_numbered (codes "axi_timer_") (codes "tmr") out in
    let out = sub_numbered (codes "hwpulsecap_") (codes "pulsecap") out in
    let out = sub_tail capture out in
    let out = sub_suffix (codes ".sin") (codes ".rxd") out in
    sub_suffix (codes ".sout") (codes ".txd") out

-- Python's `re`, for the patterns that a naming file brings: `search` and `sub`, and whether they raise
-- `re.error` for a pattern, and for a replacement of a pattern. What they yield then is not used.
pub record Regex : Type 0 where
  pub search_in : Text → Text → Bool
  pub sub_in : Text → Text → Text → Text
  pub bad_pattern : Text → Bool
  pub bad_replacement : Text → Text → Bool

module _ (re : Regex) where
  -- The loop over the rules: the first that applies gives the name.
  unfoldable pub first_rule : List Rule → Text → Option Text
  first_rule [] label = none
  first_rule (r ∷ rs) label =
      let rest = first_rule rs label in
      elim (truthy r.pattern_text) [
        | none ↦ rest
        | some pat ↦ elim r.replacement [
          | none ↦ rest
          | some repl ↦ if re.search_in pat label then some (re.sub_in pat repl label) else rest
        ]
      ]

  -- The loop raises: at a bad pattern, or at the first rule that applies if its replacement is bad.
  unfoldable pub rules_raise : List Rule → Text → Bool
  rules_raise [] label = false
  rules_raise (r ∷ rs) label =
      let rest = rules_raise rs label in
      elim (truthy r.pattern_text) [
        | none ↦ rest
        | some pat ↦ elim r.replacement [
          | none ↦ rest
          | some repl ↦
              if re.bad_pattern pat
              then true
              else if re.search_in pat label
              then re.bad_replacement pat repl
              else rest
        ]
      ]

  -- `apply_naming` raises; it does not come to the rules without a label, or where the label has an
  -- override.
  unfoldable pub naming_raises : Option Text → Naming → Bool
  unfolding rules_raise Dict.lookup text_eq
  naming_raises label naming = elim (truthy label) [
    | none ↦ false
    | some l ↦ elim (Dict.lookup l naming.overrides) [
      | some name ↦ false
      | none ↦ rules_raise naming.rules l
    ]
  ]

  rename : Text → ℕ → ℕ → Naming → Text → Text
  unfolding first_rule gpio_name default_rename is_noise before_first Dict.lookup text_eq
  rename label pin_i alt naming mux_inst = elim (Dict.lookup label naming.overrides) [
    | some name ↦ name
    | none ↦ elim (first_rule naming.rules label) [
      | some name ↦ name
      | none ↦
          if (alt == 0) && is_noise (inst_of label)
          then gpio_name mux_inst pin_i naming
          else default_rename label
    ]
  ]

  -- The name, where nothing is raised.
  unfoldable pub apply_naming : Option Text → ℕ → ℕ → Naming → Text → Text
  unfolding rename gpio_name str
  apply_naming label pin_i alt naming mux_inst = elim (truthy label) [
    | none ↦ if alt == 0 then gpio_name mux_inst pin_i naming else unused_name pin_i alt
    | some l ↦ rename l pin_i alt naming mux_inst
  ]

-- `(slot.get(key) or {}).get("label")`
abbrev pub link_label : Option Link → Option Text
link_label none = none
link_label (some l) = truthy l.label

abbrev pub signal_label : Option Text → Option Text
signal_label none = none
signal_label (some l) = if is_noise (inst_of l) then none else some l

abbrev pub or_else : Option Text → Option Text → Option Text
or_else none b = b
or_else (some a) b = some a

-- The label of a slot: `incoming` before `outgoing`, and no noise if it can.
unfoldable pub label_of_links : Option Link → Option Link → Option Text
unfolding is_noise before_first
label_of_links i o =
    or_else (signal_label (link_label i))
      (or_else (signal_label (link_label o)) (or_else (link_label i) (link_label o)))

-- Its clause, with `is_noise` shut.
pub label_of_links_lem :
    (i o : Option Link)
    → label_of_links i o
      ≡ or_else
          (signal_label (link_label i))
          (or_else (signal_label (link_label o)) (or_else (link_label i) (link_label o)))
unfolding label_of_links
label_of_links_lem i o = refl

unfoldable pub slot_label : Option Slot → Option Text
unfolding label_of_links
slot_label none = none
slot_label (some s) = label_of_links s.incoming_link s.outgoing_link
