-- ===== src/Driver/Conf/Tests.antt =====
-- Pin configuration over the device, with 8 bits for the parameter.
use aximux.Prelude.{ℕ, List, [], ◌∷◌, some, none, ◌≡◌, refl, arith, All}
use aximux.Driver.Tests.Design.{device, device-IsSound, packing}
use aximux.Driver.{enotsupp}
use aximux.Driver.Nodes.{ret}
use aximux.Driver.Conf.{short, dir_sw, dir_out, setting_of, aximux_pinconf_get, aximux_pinconf_set}
use aximux.Driver.Conf.SetGet.{
  IsSupported, Configures, aximux_pinconf_set-Configures, aximux_pinconf_get-set,
  aximux_pinconf_set_stops,
}

-- Direction by software, direction out, and direction in again.
abbrev configs : List ℕ
configs = 385 ∷ 386 ∷ 130 ∷ []

configs-IsSupported : All (IsSupported packing) configs
unfolding setting_of
configs-IsSupported = ((dir_sw, refl), ((dir_out, refl), ((dir_out, refl), tt)))

short-param : setting_of packing 128 ≡ some short
unfolding setting_of
short-param = refl

unknown-param : setting_of packing 5 ≡ none
unfolding setting_of
unknown-param = refl

direction-param : setting_of packing 129 ≡ some dir_sw
unfolding setting_of
direction-param = refl

aximux_pinconf_set-Configures_example :
    Configures packing 3 configs device (aximux_pinconf_set packing 3 configs device)
aximux_pinconf_set-Configures_example =
    aximux_pinconf_set-Configures packing 3 configs device device-IsSound (omega arith)
      configs-IsSupported

aximux_pinconf_get-set_example :
    aximux_pinconf_get packing (aximux_pinconf_set packing 3 configs device).0 3 129 ≡ ret 385
unfolding setting_of
aximux_pinconf_get-set_example =
    aximux_pinconf_get-set packing 3 129 configs device dir_sw device-IsSound (omega arith)
      configs-IsSupported direction-param

aximux_pinconf_set_stops_example :
    aximux_pinconf_set packing 3 (385 ∷ 5 ∷ 384 ∷ []) device
    ≡ ((aximux_pinconf_set packing 3 (385 ∷ []) device).0, enotsupp)
aximux_pinconf_set_stops_example =
    aximux_pinconf_set_stops packing 3 5 (385 ∷ []) (384 ∷ []) device
      ((dir_sw, direction-param), tt) unknown-param
