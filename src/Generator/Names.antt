-- ===== src/Generator/Names.antt =====
-- The names of the generated module's ports differ: generator/mux_gen.py, `aximux_generator`.
use aximux.Prelude.{
  ℕ, ◌+◌, List, ◌∷◌, ◌++◌, none, some, true, false, ◌≡◌, refl, sym, ap, subst, ◌≢◌, arith, All,
  All-append, All-map, map, map-append, range, get_elem?, ◌∙◌,
}
use aximux.Text.{Text, codes, starts_with, is_some, strip_prefix, strip_prefix-append}
use aximux.Text.Decimal.{str}
use aximux.Hwh.Model.{incoming, outgoing, ctl}
use aximux.Hwh.Ports.{parse_port}
use aximux.Generator.Ports.{
  Port, Hdltools, dir_ports, incoming_ports, outgoing_ports, module_ports, required_addr_width,
  axi_data_width, signal_name, per_source, input_port, output_port,
}
use aximux.Generator.ReadBack.{sources, ports_read_back}
use aximux.Text.Patterns.{digits_then}
use aximux.Generator.Sources.{Source, all_sources, all_sources-Nodup, none_apart}
use aximux.Prelude.Nodup.{
  Nodup, Nodup-append, Nodup-of_map, All-of_map, All-to_map, All-map_range, All-concat_range,
  map-map,
}

abbrev pub name_of : Port → Text
name_of p = p.name

-- The ports of the sources, as the module has them.
abbrev pub source_ports : ℕ → ℕ → List Port
source_ports m n = dir_ports m n ++ (incoming_ports m n ++ outgoing_ports m n)

parse-source_ports : (m n : ℕ) → map parse_port (map name_of (source_ports m n)) ≡ all_sources m n
parse-source_ports m n =
    let g : Port → Source = λ p. parse_port p.name in
    map-map parse_port name_of (source_ports m n)
    ∙ map-append g (dir_ports m n) (incoming_ports m n ++ outgoing_ports m n)
    ∙ rw (
      map-append g (incoming_ports m n) (outgoing_ports m n),
      ports_read_back m n ctl,
      ports_read_back m n incoming,
      ports_read_back m n outgoing,
    )

-- A name that the pattern does not read is no source's.
pub unread_apart :
    (t : Text) (m n : ℕ) → parse_port t ≡ none → All (λ u. t ≢ u) (map name_of (source_ports m n))
unread_apart t m n h =
    All-map {Q = λ u. t ≢ u}
      (λ u (q : none ≢ parse_port u) (p : t ≡ u). q (sym h ∙ ap parse_port p))
      (map name_of (source_ports m n))
      (All-of_map (λ y. none ≢ y) parse_port (map name_of (source_ports m n))
        (subst (All (λ y. none ≢ y)) (sym (parse-source_ports m n)) (
          All-append (λ y. none ≢ y) (sources m n ctl)
            (sources m n incoming ++ sources m n outgoing) (none_apart m n ctl)
            (All-append (λ y. none ≢ y) (sources m n incoming) (sources m n outgoing)
              (none_apart m n incoming) (none_apart m n outgoing)))))

char_at : ℕ → Text → ℕ
char_at i t = elim (get_elem? t i) [ none ↦ 0 | some c ↦ c ]

texts_apart : (i : ℕ) (t u : Text) → char_at i t ≢ char_at i u → t ≢ u
texts_apart i t u n p = n (ap (char_at i) p)

-- The names of the ports that are not the AXI interface's.
abbrev pub own_names : ℕ → ℕ → List Text
own_names m n = codes "sig_in" ∷ codes "sig_out" ∷ codes "sig_dir" ∷ map name_of (source_ports m n)

pins_apart :
    (codes "sig_in" ≢ codes "sig_out")
    × (codes "sig_in" ≢ codes "sig_dir")
    × (codes "sig_out" ≢ codes "sig_dir")
unfolding char_at
pins_apart = (
  texts_apart 4 (codes "sig_in") (codes "sig_out") (λ e. omega arith),
  texts_apart 4 (codes "sig_in") (codes "sig_dir") (λ e. omega arith),
  texts_apart 4 (codes "sig_out") (codes "sig_dir") (λ e. omega arith),
)

pins_unread :
    (parse_port (codes "sig_in") ≡ none)
    × (parse_port (codes "sig_out") ≡ none)
    × (parse_port (codes "sig_dir") ≡ none)
unfolding parse_port strip_prefix digits_then
pins_unread = (refl, refl, refl)

own_names-Nodup : (m n : ℕ) → Nodup (own_names m n)
own_names-Nodup m n = (
  (pins_apart.0, (pins_apart.1, unread_apart (codes "sig_in") m n pins_unread.0)),
  (
    (pins_apart.2, unread_apart (codes "sig_out") m n pins_unread.1),
    (
      unread_apart (codes "sig_dir") m n pins_unread.2,
      Nodup-of_map parse_port (map name_of (source_ports m n))
          (subst Nodup (sym (parse-source_ports m n)) (all_sources-Nodup m n)),
    ),
  ),
)

pub module_names :
    (hdl : Hdltools) (m n : ℕ)
    → map name_of (module_ports hdl m n)
      ≡ map name_of (hdl.axi_ports axi_data_width (required_addr_width hdl m)) ++ own_names m n
unfolding module_ports
module_names hdl m n =
    map-append name_of (hdl.axi_ports axi_data_width (required_addr_width hdl m)) _

-- Names that begin with `sig` differ from names that do not.
prefix_apart :
    (xs ys : List Text)
    → All (λ x. starts_with (codes "sig") x ≡ false) xs
    → All (λ y. starts_with (codes "sig") y ≡ true) ys
    → All (λ x. All (λ y. x ≢ y) ys) xs
prefix_apart xs ys h k =
    All-map
      (λ x (a : starts_with (codes "sig") x ≡ false).
        All-map {Q = λ y. x ≢ y} (λ y (b : starts_with (codes "sig") y ≡ true) (p : x ≡ y). cc) ys
          k)
      xs h

abbrev BeginsSig : Port → Type 0
BeginsSig p = starts_with (codes "sig") p.name ≡ true

signal_name-prefix :
    (kind : Text) (sig a : ℕ) → starts_with (codes "sig") (signal_name kind sig a) ≡ true
unfolding signal_name
signal_name-prefix kind sig a =
    ap is_some (strip_prefix-append (codes "sig") (str sig ++ (kind ++ str a)))

per_source-prefix :
    (kind : Text) (mk : Text → ℕ → Port) (m n : ℕ)
    → ((t : Text) → (mk t 1).name ≡ t)
    → All BeginsSig (per_source m n (λ sig a. mk (signal_name kind sig a) 1))
per_source-prefix kind mk m n named =
    All-concat_range BeginsSig (λ sig. map (λ a. mk (signal_name kind sig a) 1) (range (n + 1))) 0 m
      (λ s _.
        All-map_range BeginsSig (λ a. mk (signal_name kind s a) 1) 0 (n + 1)
          (λ a _.
            ap (starts_with (codes "sig")) (named (signal_name kind s a))
            ∙ signal_name-prefix kind s a))

source_ports-prefix : (m n : ℕ) → All BeginsSig (source_ports m n)
unfolding dir_ports incoming_ports outgoing_ports
source_ports-prefix m n =
    All-append BeginsSig (dir_ports m n) (incoming_ports m n ++ outgoing_ports m n)
      (per_source-prefix (codes "ctl") input_port m n (λ t. refl))
      (All-append BeginsSig (incoming_ports m n) (outgoing_ports m n)
        (per_source-prefix (codes "incoming") output_port m n (λ t. refl))
        (per_source-prefix (codes "outgoing") input_port m n (λ t. refl)))

pub own_names-prefix : (m n : ℕ) → All (λ t. starts_with (codes "sig") t ≡ true) (own_names m n)
unfolding strip_prefix
own_names-prefix m n = (
  refl,
  (
    refl,
    (
      refl,
      All-to_map (λ t. starts_with (codes "sig") t ≡ true) name_of (source_ports m n)
          (source_ports-prefix m n),
    ),
  ),
)

-- Where the ports of the AXI interface have different names, none of which begins with `sig`, no two
-- ports of the generated module have the same name, whatever the number of signals and of sources.
pub module_ports-Nodup :
    (hdl : Hdltools) (m n : ℕ)
    → Nodup (map name_of (hdl.axi_ports axi_data_width (required_addr_width hdl m)))
    → All
        (λ t. starts_with (codes "sig") t ≡ false)
        (map name_of (hdl.axi_ports axi_data_width (required_addr_width hdl m)))
    → Nodup (map name_of (module_ports hdl m n))
module_ports-Nodup hdl m n u k =
    let axi = map name_of (hdl.axi_ports axi_data_width (required_addr_width hdl m)) in
    subst Nodup (sym (module_names hdl m n)) (
      Nodup-append axi (own_names m n) u (own_names-Nodup m n)
        (prefix_apart axi (own_names m n) k (own_names-prefix m n)))
