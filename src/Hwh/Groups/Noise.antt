-- ===== src/Hwh/Groups/Noise.antt =====
-- A slot whose incoming peer is noise: the name of its function and its group disagree.
use aximux.Prelude.{ℕ, Option, some, true, false, ◌==◌, ◌≡◌, refl, arith, Bool-cases, inl, inr}
use aximux.Text.{Text}
use aximux.Hwh.Model.{Link, Slot, Naming}
use aximux.Hwh.Naming.{
  Regex, is_noise, inst_of, link_label, slot_label, label_of_links, label_of_links_lem,
}
use aximux.Hwh.Groups.{Groups, add_slot}
use aximux.Hwh.Groups.Entries.{add_raw_lem, add_slot_lem}

label_of_links_outgoing :
    (i o : Option Link) (noise signal : Text)
    → link_label i ≡ some noise
    → is_noise (inst_of noise) ≡ true
    → link_label o ≡ some signal
    → is_noise (inst_of signal) ≡ false
    → label_of_links i o ≡ some signal
label_of_links_outgoing i o noise signal hi n ho m =
    rw (label_of_links_lem i o, hi, ho) (ground arith)

-- Where the incoming label of an alternate is noise and the outgoing one is not, `slot_label` takes
-- the outgoing label, so that the pin's function is named after it, but the slot is added to no
-- group.
pub slot_left_out :
    (re : Regex) (naming : Naming) (mux_inst : Text) (i : ℕ) (s : Slot) (noise signal : Text)
    (groups : Groups)
    → link_label s.incoming_link ≡ some noise
    → is_noise (inst_of noise) ≡ true
    → link_label s.outgoing_link ≡ some signal
    → is_noise (inst_of signal) ≡ false
    → (slot_label (some s) ≡ some signal) × (add_slot re naming mux_inst i s groups ≡ groups)
slot_left_out re naming mux_inst i s noise signal groups hi n ho m = (label, kept)
  where
    eq : slot_label (some s) ≡ label_of_links s.incoming_link s.outgoing_link
    eq = unfold slot_label in refl

    label : slot_label (some s) ≡ some signal
    label = rw eq (label_of_links_outgoing s.incoming_link s.outgoing_link noise signal hi n ho m)

    kept : add_slot re naming mux_inst i s groups ≡ groups
    kept = elim (Bool-cases (s.alt == 0)) [
      | inl e ↦ rw (add_slot_lem re naming mux_inst i s groups, e)
      | inr e ↦ rw (
        add_slot_lem re naming mux_inst i s groups,
        e,
        hi,
        add_raw_lem re naming mux_inst i s.alt noise groups,
        n,
      )
    ]
