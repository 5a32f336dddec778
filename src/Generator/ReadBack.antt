-- ===== src/Generator/ReadBack.antt =====
-- The generator's port names, as tools/hwh_aximux_dt.py reads them from the hardware description.
use aximux.Prelude.{
  ℕ, ◌+◌, List, [], ◌∷◌, Option, some, ◌≡◌, refl, map, map-append, concat_map, range,
}
use aximux.Hwh.Model.{Kind, incoming, outgoing, ctl}
use aximux.Hwh.Ports.{parse_port}
use aximux.Hwh.Ports.RoundTrip.{kind_name, parse_port-port_name}
use aximux.Generator.Ports.{Direction, Port, signal_name, dir_ports, incoming_ports, outgoing_ports}

-- Whatever the numbers and the kind, the name that the generator gives to a port is matched by the
-- tool's pattern, which reads back the same pin number, kind and alternate number.
pub parse_port-signal_name :
    (sig : ℕ) (k : Kind) (a : ℕ) → parse_port (signal_name (kind_name k) sig a) ≡ some (sig, k, a)
unfolding signal_name
parse_port-signal_name sig k a = parse_port-port_name sig k a

-- Every signal with every source, in the generator's order.
abbrev pub sources : ℕ → ℕ → Kind → List (Option (ℕ × Kind × ℕ))
sources m n k = concat_map (λ sig. map (λ a. some (sig, k, a)) (range (n + 1))) (range m)

abbrev pub port_of : Kind → ℕ → ℕ → List Port
port_of incoming = incoming_ports
port_of outgoing = outgoing_ports
port_of ctl = dir_ports

module _ (port : ℕ → ℕ → Port) (k : Kind)
    (named : (sig a : ℕ) → parse_port (port sig a).name ≡ some (sig, k, a)) where
  parse_row :
      (sig : ℕ) (bs : List ℕ)
      → map (λ (p : Port). parse_port p.name) (map (port sig) bs) ≡ map (λ a. some (sig, k, a)) bs
  parse_row sig [] = refl
  parse_row sig (a ∷ bs) = rw (named sig a, parse_row sig bs)

  parse_rows :
      (n : ℕ) (sigs : List ℕ)
      → map
          (λ (p : Port). parse_port p.name)
          (concat_map (λ sig. map (port sig) (range (n + 1))) sigs)
        ≡ concat_map (λ sig. map (λ a. some (sig, k, a)) (range (n + 1))) sigs
  parse_rows n [] = refl
  parse_rows n (sig ∷ sigs) = rw (
    map-append (λ (p : Port). parse_port p.name) (map (port sig) (range (n + 1)))
        (concat_map (λ sig. map (port sig) (range (n + 1))) sigs),
    parse_row sig (range (n + 1)),
    parse_rows n sigs,
  )

-- The direction, incoming and outgoing ports of a generated module are read by the tool, in their
-- order, as every signal with every source from 0 to the number of alternates, once each, and as
-- ports of their kind.
pub ports_read_back :
    (m n : ℕ) (k : Kind) → map (λ (p : Port). parse_port p.name) (port_of k m n) ≡ sources m n k
ports_read_back m n incoming =
    unfold incoming_ports in
    parse_rows
      (λ sig a. record {
        direction = Direction.output;
        name = signal_name (kind_name incoming) sig a;
        size = 1;
      })
      incoming (λ sig a. parse_port-signal_name sig incoming a) n (range m)
ports_read_back m n outgoing =
    unfold outgoing_ports in
    parse_rows
      (λ sig a. record {
        direction = Direction.input;
        name = signal_name (kind_name outgoing) sig a;
        size = 1;
      })
      outgoing (λ sig a. parse_port-signal_name sig outgoing a) n (range m)
ports_read_back m n ctl =
    unfold dir_ports in
    parse_rows
      (λ sig a. record {
        direction = Direction.input;
        name = signal_name (kind_name ctl) sig a;
        size = 1;
      })
      ctl (λ sig a. parse_port-signal_name sig ctl a) n (range m)
