-- ===== src/Hwh/Model.antt =====
-- The values that tools/hwh_aximux_dt.py passes around: its dicts and tuples as records.
use aximux.Prelude.{ℕ, List, [], Option, none}
use aximux.Prelude.Dict.{Dict}
use aximux.Text.{Text}

-- One end of a net: `(instance, modtype, port, dir)`, in the signal index and in the mux map.
pub record Peer : Type 0 where
  pub inst : Text
  pub modtype : Text
  pub port : Text
  pub dir : Text

-- The three kinds of port that a mux has for each pin and alternate.
pub data Kind : Type 0 where
  incoming outgoing ctl : Kind

-- `{"signame": …, "label": …, "peers": …}`
pub record Link : Type 0 where
  pub signame : Text
  pub label : Option Text
  pub peers : List Peer

-- `{"alt": …, "incoming": …, "outgoing": …, "ctl": …, "peers": …}`
pub record Slot : Type 0 where
  pub alt : ℕ
  pub incoming_link : Option Link
  pub outgoing_link : Option Link
  pub ctl_link : Option Link
  pub peers : List Peer

pub record Pin : Type 0 where
  pub index : ℕ
  pub alts : List Slot

pub record Mux : Type 0 where
  pub inst : Text
  pub modtype : Option Text
  pub pins : List Pin
  pub npins : ℕ

-- A rule of the naming file; a rule that lacks one of its keys is skipped.
pub record Rule : Type 0 where
  pub pattern_text : Option Text
  pub replacement : Option Text

-- The naming file. A key that is missing, or null, is an empty dict or list, as the code reads it; a
-- prefix that is null is the text `None`. The values have the types that the code expects, and the
-- bases are not negative.
pub record Naming : Type 0 where
  pub gpio_prefix : Option Text
  pub gpio_bases : Dict Text ℕ
  pub overrides : Dict Text Text
  pub rules : List Rule
  pub consumer_labels : Dict Text Text
  pub group_aliases : Dict Text Text
  pub skip_consumers : List Text

abbrev pub empty_slot : ℕ → Slot
empty_slot a = record {
  alt = a;
  incoming_link = none;
  outgoing_link = none;
  ctl_link = none;
  peers = [];
}
