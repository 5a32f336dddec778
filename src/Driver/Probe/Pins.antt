-- ===== src/Driver/Probe/Pins.antt =====
-- What `aximux_parse_pins` of driver/aximux.c yields.
use aximux.Prelude.{
  ℕ, zero, suc, ◌+◌, ◌≤◌, ◌<◌, List, [], ◌∷◌, none, some, true, false, ◌≡◌, refl, sym, ◌∙◌, arith,
  ltb, ◌==◌, ◌||◌, if◌then◌else◌, length, map, range_from, range, All, Bool-cases, Option-cases,
  subst, inl, inr,
}
use aximux.Device.{max_pins}
use aximux.Driver.Nodes.{Node, Result, ret, err, ◌>>=◌, AximuxPin}
use aximux.Driver.Probe.{
  pin_name, hw_pins, alts_of, count_pins, default_pin, reg_of, parse_node, parse_nodes,
  aximux_parse_pins,
}

-- Inversion of a successful step.
pub >>=-eq-ret {ℓ κ} :
    {A : Type ℓ} {B : Type κ} (m : Result A) (f : A → Result B) {b : B}
    → (m >>= f) ≡ ret b
    → (a : A) × (m ≡ ret a) × (f a ≡ ret b)
>>=-eq-ret (ret a) f h = (a, refl, h)
>>=-eq-ret (err c) f h = cc

pub ret-injective {ℓ} : {A : Type ℓ} {a b : A} → ret a ≡ ret b → a ≡ b
ret-injective h = cc

-- A pin below the hardware's number, named after its number.
abbrev pub IsPin : ℕ → AximuxPin → Type 0
IsPin hw p = (p.number < hw) × (p.name ≡ pin_name p.number)

parse_node-IsPin :
    (hw : ℕ) (c : Node) (reg : ℕ) {p : AximuxPin} → parse_node hw c reg ≡ ret p → IsPin hw p
unfolding parse_node
parse_node-IsPin hw c reg h = ground arith

-- The two cases of a child.
parse_nodes-none :
    (hw : ℕ) (c : Node) (cs : List Node)
    → reg_of c ≡ none
    → parse_nodes hw (c ∷ cs) ≡ parse_nodes hw cs
unfolding parse_nodes
parse_nodes-none hw c cs e = rw (parse_nodes, e) refl

parse_nodes-some :
    (hw : ℕ) (c : Node) (cs : List Node) {reg : ℕ}
    → reg_of c ≡ some reg
    → parse_nodes hw (c ∷ cs)
      ≡ (parse_node hw c reg >>= λ p. parse_nodes hw cs >>= λ rest. ret (p ∷ rest))
unfolding parse_nodes
parse_nodes-some hw c cs e = rw (parse_nodes, e) refl

-- The pins that the second loop writes are as many as the first loop counted.
IsParsed : ℕ → List Node → List AximuxPin → Type 0
IsParsed hw cs pins = All (IsPin hw) pins × (length pins ≡ count_pins cs)

count_pins-some :
    (c : Node) (cs : List Node) {reg : ℕ}
    → reg_of c ≡ some reg
    → count_pins (c ∷ cs) ≡ count_pins cs + 1
count_pins-some c cs e = rw (count_pins, e) refl

count_pins-none :
    (c : Node) (cs : List Node) → reg_of c ≡ none → count_pins (c ∷ cs) ≡ count_pins cs
count_pins-none c cs e = rw (count_pins, e) refl

parse_nodes-IsParsed :
    (hw : ℕ) (cs : List Node) (pins : List AximuxPin)
    → parse_nodes hw cs ≡ ret pins
    → IsParsed hw cs pins
unfolding IsParsed
parse_nodes-IsParsed hw [] pins h =
    let done : ret [] ≡ ret pins = unfold parse_nodes in h in
    subst (IsParsed hw []) (ret-injective done) (tt, refl)
parse_nodes-IsParsed hw (c ∷ cs) pins h = elim (Option-cases (reg_of c)) [
  | inl e ↦
      let (good, long) = parse_nodes-IsParsed hw cs pins (sym (parse_nodes-none hw c cs e) ∙ h) in
      (good, long ∙ sym (count_pins-none c cs e))
  | inr (reg, e) ↦
      let (p, hp, h') =
        >>=-eq-ret (parse_node hw c reg) (λ p. parse_nodes hw cs >>= λ rest. ret (p ∷ rest))
          (sym (parse_nodes-some hw c cs e) ∙ h) in
      let (rest, hr, done) = >>=-eq-ret (parse_nodes hw cs) (λ rest. ret (p ∷ rest)) h' in
      let (good, long) = parse_nodes-IsParsed hw cs rest hr in
      subst (IsParsed hw (c ∷ cs)) (ret-injective done)
        ((parse_node-IsPin hw c reg hp, good), omega (arith, long, count_pins-some c cs e))
]

alts_of_bound : (info : ℕ) → (1 ≤ alts_of info) × (alts_of info ≤ 15)
alts_of_bound info = ground arith

length-map_range : {A : Type 0} (f : ℕ → A) (i n : ℕ) → length (map f (range_from i n)) ≡ n
length-map_range f i zero = refl
length-map_range f i (suc n) = omega (arith, length-map_range f (i + 1) n)

All-default : (hw i n : ℕ) → i + n ≤ hw → All (IsPin hw) (map default_pin (range_from i n))
All-default hw i zero h = tt
All-default hw i (suc n) h = ((omega arith, refl), All-default hw (i + 1) n (omega arith))

-- What holds of the number of alternates and of the pins.
abbrev pub Found : ℕ → List Node → ℕ × List AximuxPin → Type 0
Found info children (nalts, pins) =
    (1 ≤ hw_pins info)
    × (hw_pins info ≤ 32)
    × (1 ≤ nalts)
    × (nalts ≤ 15)
    × All (IsPin (hw_pins info)) pins
    × (length pins ≡ (if count_pins children == 0 then hw_pins info else count_pins children))
    × (length pins ≤ hw_pins info)
    × (nalts ≡ alts_of info)

Found-default :
    (info : ℕ) (children : List Node)
    → 1 ≤ hw_pins info
    → hw_pins info ≤ 32
    → (count_pins children == 0) ≡ true
    → Found info children (alts_of info, map default_pin (range (hw_pins info)))
Found-default info children low high z =
    let long = length-map_range default_pin 0 (hw_pins info) in
    (
      low,
      high,
      (alts_of_bound info).0,
      (alts_of_bound info).1,
      All-default (hw_pins info) 0 (hw_pins info) (omega arith),
      ground (arith, long),
      omega (arith, long),
      refl,
    )

Found-parsed :
    (info : ℕ) (children : List Node) (pins : List AximuxPin)
    → 1 ≤ hw_pins info
    → hw_pins info ≤ 32
    → (count_pins children == 0) ≡ false
    → count_pins children ≤ hw_pins info
    → IsParsed (hw_pins info) children pins
    → Found info children (alts_of info, pins)
unfolding IsParsed
Found-parsed info children pins low high z fits (good, long) = (
  low,
  high,
  (alts_of_bound info).0,
  (alts_of_bound info).1,
  good,
  ground (arith, long),
  omega (arith, long),
  refl,
)

-- Where `aximux_parse_pins` succeeds, the hardware has 1 to 32 pins; the driver's alternates are 1
-- to 15, as many as MUXINFO gives where that is in these bounds, and 15 otherwise; every pin is
-- below the number of the hardware's pins and is named after its number; and the pins are as many as
-- the children that describe one, or, where no child does, as the hardware's, so that no array is
-- written past its end.
pub aximux_parse_pins_lem :
    (info : ℕ) (children : List Node) (r : ℕ × List AximuxPin)
    → aximux_parse_pins info children ≡ ret r
    → Found info children r
unfolding aximux_parse_pins
aximux_parse_pins_lem info children r h =
    elim (Bool-cases ((hw_pins info == 0) || ltb max_pins (hw_pins info))) [
      | inl e ↦ absurd (ground arith)
      | inr e ↦
          let low : 1 ≤ hw_pins info = ground arith in
          let high : hw_pins info ≤ 32 = ground arith in
          elim (Bool-cases (count_pins children == 0)) [
            | inl z ↦
                let q : ret (alts_of info, map default_pin (range (hw_pins info))) ≡ ret r =
                  ground arith in
                subst (Found info children) (ret-injective q)
                  (Found-default info children low high z)
            | inr z ↦
                let q : ((parse_nodes (hw_pins info) children >>= λ pins. ret (alts_of info, pins))
                      ≡ ret r)
                    × (count_pins children ≤ hw_pins info) =
                  ground arith in
                let (pins, hp, done) =
                  >>=-eq-ret (parse_nodes (hw_pins info) children)
                    (λ pins. ret (alts_of info, pins)) q.0 in
                subst (Found info children) (ret-injective done) (
                  Found-parsed info children pins low high z q.1
                    (parse_nodes-IsParsed (hw_pins info) children pins hp))
          ]
    ]
