-- ===== src/Generator/Routing.antt =====
-- The logic of the generated module for one signal: the body of `axi_mux` of generator/mux_gen.py.
use aximux.Prelude.{
  ℕ, zero, suc, ◌+◌, ap, ◌∙◌, ◌&&◌, ◌<◌, List, [], ◌∷◌, some, Bool, true, false, ◌==◌,
  if◌then◌else◌, ◌≡◌, refl, arith, get_elem?, length, map, range_from, range,
}
use aximux.Generator.Ports.{Hdltools}

-- The fields of a signal's register, as the register block puts them out.
pub record Fields : Type 0 where
  pub srcsel : ℕ
  pub shortsel : Bool
  pub diren : Bool
  pub dirctl : Bool

-- What comes into the logic of one signal: the pin, and each source's direction and output.
pub record Inputs : Type 0 where
  pub sig_in : Bool
  pub ctl : List Bool
  pub outgoing : List Bool

pub record Outputs : Type 0 where
  pub sig_dir : Bool
  pub sig_out : Bool
  pub incoming : List Bool

-- `incoming_gen`
unfoldable pub incoming_gen : ℕ → Bool → Bool → ℕ → Bool
incoming_gen src_sel short_sel sig_in_bit index =
    if src_sel == index then sig_in_bit else if short_sel then sig_in_bit else false

abbrev pub bit : Bool → ℕ
bit true = 1
bit false = 0

module _ (hdl : Hdltools) where
  -- One round of the loop over the signals, with `alternate_signals + 1` sources.
  unfoldable pub route : ℕ → Fields → Inputs → Outputs
  unfolding incoming_gen
  route alternate_signals f x =
      let hw_dir_sig = hdl.multiplexer f.srcsel x.ctl in
      record {
        sig_dir = hdl.multiplexer (bit f.diren) (hw_dir_sig ∷ f.dirctl ∷ []);
        sig_out = hdl.multiplexer f.srcsel x.outgoing;
        incoming =
            map (λ idx. incoming_gen f.srcsel f.shortsel x.sig_in idx)
              (range (alternate_signals + 1));
      }

get_elem?-map_range :
    (f : ℕ → Bool) (n i k : ℕ) → i < n → get_elem? (map f (range_from k n)) i ≡ some (f (k + i))
get_elem?-map_range f zero i k h = absurd (omega arith)
get_elem?-map_range f (suc n) zero k h = ap (λ (j : ℕ). some (f j)) (omega arith)
get_elem?-map_range f (suc n) (suc i) k h =
    get_elem?-map_range f n i (k + 1) (omega arith) ∙ ap (λ (j : ℕ). some (f j)) (omega arith)

get_elem?-some : (xs : List Bool) (i : ℕ) → i < length xs → (b : Bool) × (get_elem? xs i ≡ some b)
get_elem?-some [] i h = absurd (omega arith)
get_elem?-some (x ∷ xs) zero h = (x, refl)
get_elem?-some (x ∷ xs) (suc i) h = get_elem?-some xs i (omega arith)

incoming_gen_lem :
    (f : Fields) (x : Inputs) (idx : ℕ)
    → incoming_gen f.srcsel f.shortsel x.sig_in idx
      ≡ (if idx == f.srcsel then x.sig_in else x.sig_in && f.shortsel)
unfolding incoming_gen
incoming_gen_lem f x idx = ground arith

-- With a multiplexer that puts out the input that its selector counts to, and one direction and one
-- output for each of the sources from 0 to `alternate_signals`: while a source is selected, the pin
-- is driven by that source's output; its direction is the source's own, or the register's DIRCTL
-- where DIREN is set; the source is given the pin's value; and any other source is given 0, or the
-- pin's value where SHORT is set.
pub route_lem :
    (hdl : Hdltools) (n : ℕ) (f : Fields) (x : Inputs) (idx : ℕ)
    → ((sel : ℕ) (inputs : List Bool) (b : Bool)
        → get_elem? inputs sel ≡ some b
        → hdl.multiplexer sel inputs ≡ b)
    → length x.ctl ≡ n + 1
    → length x.outgoing ≡ n + 1
    → f.srcsel < n + 1
    → idx < n + 1
    → (some (route hdl n f x).sig_out ≡ get_elem? x.outgoing f.srcsel)
      × (some (route hdl n f x).sig_dir
          ≡ (if f.diren then some f.dirctl else get_elem? x.ctl f.srcsel))
      × (get_elem? (route hdl n f x).incoming idx
          ≡ some (if idx == f.srcsel then x.sig_in else x.sig_in && f.shortsel))
unfolding route
route_lem hdl n f x idx selects lc lo hs hi = (out, dir f.diren, inc)
  where
    c : (b : Bool) × (get_elem? x.ctl f.srcsel ≡ some b)
    c = get_elem?-some x.ctl f.srcsel (omega arith)

    o : (b : Bool) × (get_elem? x.outgoing f.srcsel ≡ some b)
    o = get_elem?-some x.outgoing f.srcsel (omega arith)

    out : some (hdl.multiplexer f.srcsel x.outgoing) ≡ get_elem? x.outgoing f.srcsel
    out = rw (selects f.srcsel x.outgoing o.0 o.1, o.1)

    dir :
        (d : Bool)
        → some (hdl.multiplexer (bit d) (hdl.multiplexer f.srcsel x.ctl ∷ f.dirctl ∷ []))
          ≡ (if d then some f.dirctl else get_elem? x.ctl f.srcsel)
    dir true = ap some (selects 1 _ f.dirctl refl)
    dir false = rw (
      selects 0 (hdl.multiplexer f.srcsel x.ctl ∷ f.dirctl ∷ []) (hdl.multiplexer f.srcsel x.ctl)
          refl,
      selects f.srcsel x.ctl c.0 c.1,
      c.1,
    )

    inc :
        get_elem? (map (λ i. incoming_gen f.srcsel f.shortsel x.sig_in i) (range (n + 1))) idx
        ≡ some (if idx == f.srcsel then x.sig_in else x.sig_in && f.shortsel)
    inc =
        get_elem?-map_range (λ i. incoming_gen f.srcsel f.shortsel x.sig_in i) (n + 1) idx 0 hi
        ∙ ap (λ (j : ℕ). some (incoming_gen f.srcsel f.shortsel x.sig_in j)) (omega arith)
        ∙ ap some (incoming_gen_lem f x idx)
