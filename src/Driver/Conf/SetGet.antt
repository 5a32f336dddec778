-- ===== src/Driver/Conf/SetGet.antt =====
-- `aximux_pinconf_get` after `aximux_pinconf_set`.
use aximux.Prelude.{
  ℕ, ◌/◌, ◌%◌, ◌^◌, ◌≤◌, ◌<◌, List, [], ◌∷◌, ◌++◌, none, some, ◌≡◌, refl, sym, ap, ◌∙◌, ◌≢◌, arith,
  All, if◌then◌else◌,
}
use aximux.Device.{AximuxState}
use aximux.Driver.{read_reg, write_reg, Code, ok, enotsupp}
use aximux.Driver.Registers.{
  IsSound, read-write_reg, write_reg-IsSound, write_reg-npins, is_pin_reg,
}
use aximux.Driver.Nodes.{ret}
use aximux.Driver.Conf.{
  Packing, Setting, get_bit, put_bit, setting_of, bit_of, aximux_pinconf_get, aximux_pinconf_set,
}
use aximux.Driver.Conf.Bits.{same_setting, get_bit-put_bit, put_bit_rest}

module _ (k : Packing) where
  -- The driver knows the configuration's parameter.
  abbrev pub IsSupported : ℕ → Type 0
  IsSupported c = (s : Setting) × (setting_of k (k.config_param c) ≡ some s)

  abbrev new_bit : Setting → ℕ → ℕ → ℕ
  new_bit t c old = elim (setting_of k (k.config_param c)) [
    | none ↦ old
    | some s ↦ if same_setting s t then bit_of k c else old
  ]

  -- The bit that a list of configurations leaves: the last one for the setting, if there is one.
  abbrev pub last_bit : Setting → List ℕ → ℕ → ℕ
  last_bit t [] old = old
  last_bit t (c ∷ cs) old = last_bit t cs (new_bit t c old)

  pub bit_of_bound : (c : ℕ) → bit_of k c ≤ 1
  bit_of_bound c = ground arith

  pub pinconf_set-cons :
      (pin c : ℕ) (cs : List ℕ) (regs : AximuxState) {s : Setting}
      → setting_of k (k.config_param c) ≡ some s
      → aximux_pinconf_set k pin (c ∷ cs) regs
        ≡ aximux_pinconf_set k pin cs
            (write_reg regs pin (put_bit s (bit_of k c) (read_reg regs pin)))
  unfolding aximux_pinconf_set
  pinconf_set-cons pin c cs regs e = rw (aximux_pinconf_set, e) refl

  -- What a supported list of configurations does to the registers.
  abbrev pub Configures : ℕ → List ℕ → AximuxState → AximuxState × Code → Type 0
  Configures pin cs regs (regs', code) =
      (code ≡ ok)
      × ((t : Setting)
          → get_bit t (read_reg regs' pin) ≡ last_bit t cs (get_bit t (read_reg regs pin)))
      × (read_reg regs' pin % 2 ^ 5 ≡ read_reg regs pin % 2 ^ 5)
      × (read_reg regs' pin / 2 ^ 8 ≡ read_reg regs pin / 2 ^ 8)
      × ((q : ℕ) → pin ≢ q → read_reg regs' q ≡ read_reg regs q)

  new_bit-supported :
      (t : Setting) (c old : ℕ) {s : Setting}
      → setting_of k (k.config_param c) ≡ some s
      → new_bit t c old ≡ (if same_setting s t then bit_of k c else old)
  new_bit-supported t c old e = rw (new_bit, e) refl

  -- On a sound device, for a pin of the device and configurations that the driver knows,
  -- `aximux_pinconf_set` returns 0; each of the three control bits of the pin is then as the last
  -- configuration for it says, or as it was if there is none; all other bits of the pin's register
  -- and the registers of all other pins stay.
  pub aximux_pinconf_set-Configures :
      (pin : ℕ) (cs : List ℕ) (regs : AximuxState)
      → IsSound regs
      → pin < regs.npins
      → All IsSupported cs
      → Configures pin cs regs (aximux_pinconf_set k pin cs regs)
  aximux_pinconf_set-Configures pin [] regs s below a =
      unfold aximux_pinconf_set in (refl, (λ t. refl), refl, refl, λ q n. refl)
  aximux_pinconf_set-Configures pin (c ∷ cs) regs s below ((st, e), a) =
      let val = read_reg regs pin in
      let next = write_reg regs pin (put_bit st (bit_of k c) val) in
      let (low, high, word) = put_bit_rest st (bit_of k c) val (bit_of_bound c) (s.1 pin) in
      let here : read_reg next pin ≡ put_bit st (bit_of k c) val =
        read-write_reg regs pin (put_bit st (bit_of k c) val) pin s word
        ∙ ground (arith, is_pin_reg regs pin s below) in
      let (code, bits, low', high', others) =
        aximux_pinconf_set-Configures pin cs next (write_reg-IsSound regs pin _ s word)
          (omega (arith, write_reg-npins regs pin (put_bit st (bit_of k c) val), below)) a in
      rw (pinconf_set-cons pin c cs regs e) (
        code,
        λ t.
            bits t
            ∙ ap (last_bit t cs) (
                ap (get_bit t) here
                ∙ get_bit-put_bit st t (bit_of k c) val (bit_of_bound c)
                ∙ sym (new_bit-supported t c (get_bit t val) e)),
        low' ∙ ap (λ v. v % 2 ^ 5) here ∙ low,
        high' ∙ ap (λ v. v / 2 ^ 8) here ∙ high,
        λ q n.
            others q n
            ∙ read-write_reg regs pin (put_bit st (bit_of k c) val) q s word
            ∙ ground arith,
      )

  aximux_pinconf_get_known :
      (regs : AximuxState) (pin config : ℕ) {t : Setting}
      → setting_of k (k.config_param config) ≡ some t
      → aximux_pinconf_get k regs pin config
        ≡ ret (k.config_packed (k.config_param config) (get_bit t (read_reg regs pin)))
  unfolding aximux_pinconf_get
  aximux_pinconf_get_known regs pin config e = rw (aximux_pinconf_get, e) refl

  -- After known configurations of a pin of a sound device, `aximux_pinconf_get` of any known
  -- parameter packs what the last of them for this parameter set, 0 or 1, or the bit that was there.
  pub aximux_pinconf_get-set :
      (pin config : ℕ) (cs : List ℕ) (regs : AximuxState) (t : Setting)
      → IsSound regs
      → pin < regs.npins
      → All IsSupported cs
      → setting_of k (k.config_param config) ≡ some t
      → aximux_pinconf_get k (aximux_pinconf_set k pin cs regs).0 pin config
        ≡ ret (
            k.config_packed (k.config_param config) (last_bit t cs (get_bit t (read_reg regs pin))))
  aximux_pinconf_get-set pin config cs regs t s below a e =
      aximux_pinconf_get_known (aximux_pinconf_set k pin cs regs).0 pin config e
      ∙ ap (λ b. ret (k.config_packed (k.config_param config) b))
          ((aximux_pinconf_set-Configures pin cs regs s below a).1 t)

  pub pinconf_set-unknown :
      (pin c : ℕ) (ys : List ℕ) (regs : AximuxState)
      → setting_of k (k.config_param c) ≡ none
      → aximux_pinconf_set k pin (c ∷ ys) regs ≡ (regs, enotsupp)
  unfolding aximux_pinconf_set
  pinconf_set-unknown pin c ys regs e = rw (aximux_pinconf_set, e) refl

  -- A configuration that the driver does not know ends the call with its error, whatever the
  -- registers are: what stands before it in the list stays applied, and nothing after it is.
  pub aximux_pinconf_set_stops :
      (pin c : ℕ) (xs ys : List ℕ) (regs : AximuxState)
      → All IsSupported xs
      → setting_of k (k.config_param c) ≡ none
      → aximux_pinconf_set k pin (xs ++ c ∷ ys) regs
        ≡ ((aximux_pinconf_set k pin xs regs).0, enotsupp)
  aximux_pinconf_set_stops pin c [] ys regs a e =
      unfold aximux_pinconf_set in pinconf_set-unknown pin c ys regs e
  aximux_pinconf_set_stops pin c (x ∷ xs) ys regs ((st, h), a) e =
      rw (pinconf_set-cons pin x (xs ++ c ∷ ys) regs h, pinconf_set-cons pin x xs regs h)
        (aximux_pinconf_set_stops pin c xs ys
          (write_reg regs pin (put_bit st (bit_of k x) (read_reg regs pin))) a e)
