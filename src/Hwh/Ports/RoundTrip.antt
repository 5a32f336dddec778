-- ===== src/Hwh/Ports/RoundTrip.antt =====
-- The generator's port names are read back by the tool.
use aximux.Prelude.{ℕ, ◌++◌, [], ◌≡◌, refl, some, append-nil}
use aximux.Text.{Text, codes, strip_prefix-append}
use aximux.Text.Decimal.{str, int-str, str-ne-nil, all-is_digit-str}
use aximux.Text.Patterns.{digits_then, digits_then-append, NoDigitFirst}
use aximux.Hwh.Model.{Kind, incoming, outgoing, ctl}
use aximux.Hwh.Ports.{parse_port, parse_kind}

abbrev pub kind_name : Kind → Text
kind_name incoming = codes "incoming"
kind_name outgoing = codes "outgoing"
kind_name ctl = codes "ctl"

-- `f"sig{sig}{kind}{alt}"`
abbrev pub port_name : ℕ → Kind → ℕ → Text
port_name sig k a = codes "sig" ++ (str sig ++ (kind_name k ++ str a))

digits_then-str : (n : ℕ) → digits_then (str n) ≡ some (str n, [])
digits_then-str n =
    rw append-nil at (digits_then-append (str n) [] (str-ne-nil n) (all-is_digit-str n) tt)

NoDigitFirst-kind_name : (k : Kind) (t : Text) → NoDigitFirst (kind_name k ++ t)
NoDigitFirst-kind_name incoming t = refl
NoDigitFirst-kind_name outgoing t = refl
NoDigitFirst-kind_name ctl t = refl

parse_kind-append : (k : Kind) (t : Text) → parse_kind (kind_name k ++ t) ≡ some (k, t)
unfolding parse_kind
parse_kind-append incoming t = refl
parse_kind-append outgoing t = refl
parse_kind-append ctl t = refl

-- Whatever the numbers and the kind, the name that the generator gives to a port is matched by the
-- tool's pattern, which reads back the same pin number, kind and alternate number.
pub parse_port-port_name :
    (sig : ℕ) (k : Kind) (a : ℕ) → parse_port (port_name sig k a) ≡ some (sig, k, a)
unfolding parse_port
parse_port-port_name sig k a = rw (
  strip_prefix-append (codes "sig") (str sig ++ (kind_name k ++ str a)),
  digits_then-append (str sig) (kind_name k ++ str a) (str-ne-nil sig) (all-is_digit-str sig)
      (NoDigitFirst-kind_name k (str a)),
  parse_kind-append k (str a),
  digits_then-str a,
  int-str sig,
  int-str a,
)
