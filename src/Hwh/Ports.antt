-- ===== src/Hwh/Ports.antt =====
-- The names of a mux's ports: `PORT_RE` of tools/hwh_aximux_dt.py.
pub mod RoundTrip
use aximux.Prelude.{ℕ, List, [], ◌∷◌, ◌++◌, Option, none, some, ◌>>=◌, ◌>>◌, guard, Bool, ◌≡◌, refl}
use aximux.Text.{Text, codes, strip_prefix}
use aximux.Text.Decimal.{int, int_from}
use aximux.Text.Patterns.{digits_then, at_end}
use aximux.Hwh.Model.{Kind, incoming, outgoing, ctl}

-- `(incoming|outgoing|ctl)`: the alternatives in order.
unfoldable pub parse_kind : Text → Option (Kind × Text)
unfolding strip_prefix
parse_kind t = elim (strip_prefix (codes "incoming") t) [
  | some r ↦ some (incoming, r)
  | none ↦ elim (strip_prefix (codes "outgoing") t) [
    | some r ↦ some (outgoing, r)
    | none ↦ elim (strip_prefix (codes "ctl") t) [ some r ↦ some (ctl, r) | none ↦ none ]
  ]
]

-- `PORT_RE.match(name)`, with the numbers of its groups 1 and 3.
unfoldable pub parse_port : Text → Option (ℕ × Kind × ℕ)
parse_port name = do
  t ← strip_prefix (codes "sig") name
  (ds, t') ← digits_then t
  (kind, t'') ← parse_kind t'
  (es, rest) ← digits_then t''
  guard (at_end rest)
  some (int ds, kind, int es)

parse_port_runs : parse_port (codes "sig12outgoing3") ≡ some (12, outgoing, 3)
unfolding parse_port parse_kind digits_then strip_prefix int_from
parse_port_runs = refl

parse_port_rejects : parse_port (codes "sig1ctl") ≡ none
unfolding parse_port parse_kind digits_then strip_prefix int_from
parse_port_rejects = refl
