-- ===== src/Hwh/Naming/Peers.antt =====
-- What `peer_info` and `slot_label` choose.
use aximux.Prelude.{
  List, [], ◌∷◌, Option, none, some, Bool, true, false, not, ◌≡◌, refl, sym, ◌⊎◌, ◌≢◌, arith, All,
  select, same, text_eq, Bool-cases, inl, inr,
}
use aximux.Text.{Text}
use aximux.Hwh.Model.{Peer, Slot}
use aximux.Hwh.Naming.{
  is_noise, inst_of, chosen_peers, peer_info, peer_label, link_label, slot_label, label_of_links,
  label_of_links_lem, or_list, label_of, or_else, signal_label,
}

abbrev pub is_other : Text → Peer → Bool
is_other mux_inst p = not (same p.inst mux_inst)

abbrev pub is_signal : Peer → Bool
is_signal p = not (is_noise p.inst)

All-select {ℓ} : {A : Type ℓ} (q : A → Bool) (xs : List A) → All (λ x. q x ≡ true) (select q xs)
All-select q [] = tt
All-select q (x ∷ xs) = elim (Bool-cases (q x)) [
  | inl e ↦ rw e (e, All-select q xs)
  | inr e ↦ rw e (All-select q xs)
]

any-select_nil {ℓ} :
    {A : Type ℓ} (q : A → Bool) (xs : List A) → select q xs ≡ [] → All (λ x. q x ≡ false) xs
any-select_nil q [] h = tt
any-select_nil q (x ∷ xs) h = elim (Bool-cases (q x)) [
  | inl e ↦ absurd (cons_ne (rw e at h))
  | inr e ↦ (e, any-select_nil q xs (rw e at h))
]
  where
    cons_ne : x ∷ select q xs ≡ [] → ⊥
    cons_ne p = cc

All-select_of {ℓ κ} :
    {A : Type ℓ} (P : A → Type κ) (q : A → Bool) (xs : List A) → All P xs → All P (select q xs)
All-select_of P q [] a = tt
All-select_of P q (x ∷ xs) a = elim (Bool-cases (q x)) [
  | inl e ↦ rw e (a.0, All-select_of P q xs a.1)
  | inr e ↦ rw e (All-select_of P q xs a.1)
]

-- The peers at the other instances.
abbrev pub others : List Peer → Text → List Peer
others peers mux_inst = select (is_other mux_inst) peers

abbrev pub head_label : List Peer → Option Text
head_label [] = none
head_label (p ∷ _) = some (peer_label p)

-- Either the signals among the others, at least one, or all the others, and those are noise.
abbrev pub Chosen : List Peer → List Peer → Type 0
Chosen os detail =
    ((detail ≢ []) × (detail ≡ select is_signal os))
    ⊎ ((detail ≡ os) × All (λ p. is_signal p ≡ false) os)

pick : (sig os : List Peer) → select is_signal os ≡ sig → Chosen os (or_list sig os)
pick [] os e = inr (refl, any-select_nil is_signal os e)
pick (p ∷ ps) os e = inl (λ h. cc, sym e)

All-or_list {κ} :
    (P : Peer → Type κ) (xs ys : List Peer) → All P xs → All P ys → All P (or_list xs ys)
All-or_list P [] ys a b = b
All-or_list P (x ∷ xs) ys a b = a

chosen_peers_lem :
    (peers : List Peer) (mux_inst : Text)
    → chosen_peers peers mux_inst
      ≡ or_list (select is_signal (others peers mux_inst)) (others peers mux_inst)
unfolding chosen_peers
chosen_peers_lem peers mux_inst = refl

label_of_eq : (ps : List Peer) → label_of ps ≡ head_label ps
unfolding label_of
label_of_eq [] = refl
label_of_eq (p ∷ ps) = refl

peer_info_eq :
    (peers : List Peer) (mux_inst : Text)
    → peer_info peers mux_inst
      ≡ (label_of (chosen_peers peers mux_inst), chosen_peers peers mux_inst)
unfolding peer_info
peer_info_eq peers mux_inst = refl

-- The detail of a net's peers never names the mux itself; it is the peers at other instances that
-- are not noise, or all peers at other instances where those are all noise; and the label is that of
-- the first peer of the detail, and missing exactly if the detail is empty.
pub peer_info_lem :
    (peers : List Peer) (mux_inst : Text)
    → All (λ p. is_other mux_inst p ≡ true) (peer_info peers mux_inst).1
      × Chosen (others peers mux_inst) (peer_info peers mux_inst).1
      × ((peer_info peers mux_inst).0 ≡ head_label (peer_info peers mux_inst).1)
peer_info_lem peers mux_inst =
    rw (peer_info_eq peers mux_inst, chosen_peers_lem peers mux_inst)
      (
        All-or_list (λ p. is_other mux_inst p ≡ true) (select is_signal os) os
            (All-select_of (λ p. is_other mux_inst p ≡ true) is_signal os all_others) all_others,
        pick (select is_signal os) os refl,
        label_of_eq (or_list (select is_signal os) os),
      )
  where
    os : List Peer
    os = others peers mux_inst

    all_others : All (λ p. is_other mux_inst p ≡ true) os
    all_others = All-select (is_other mux_inst) peers

-- No label, or that of noise.
abbrev pub IsSilent : Option Text → Type 0
IsSilent none = Unit
IsSilent (some n) = is_noise (inst_of n) ≡ true

-- `m` is the better of two labels: no noise, and the second only where the first is silent.
abbrev pub Better : Option Text → Option Text → Text → Type 0
Better a b m = (is_noise (inst_of m) ≡ false) × ((a ≡ some m) ⊎ ((b ≡ some m) × IsSilent a))

better :
    (a b : Option Text) (l : Text)
    → (a ≡ some l) ⊎ (b ≡ some l)
    → is_noise (inst_of l) ≡ false
    → (m : Text) × (or_else (signal_label a) (or_else (signal_label b) (or_else a b)) ≡ some m)
      × Better a b m
better none none l h n = absurd (ground arith)
better none (some y) l h n = (y, ground arith, (ground arith, inr (refl, tt)))
better (some x) none l h n = (x, ground arith, (ground arith, inl refl))
better (some x) (some y) l h n = elim (Bool-cases (is_noise (inst_of x))) [
  | inr e ↦ (x, rw e, (e, inl refl))
  | inl e ↦ (y, ground arith, (ground arith, inr (refl, e)))
]

-- A slot that has a label which is not noise, incoming or outgoing, gets a label that is not noise:
-- the incoming label, or the outgoing one where the incoming one is noise or missing.
pub slot_label_lem :
    (s : Slot) (l : Text)
    → (link_label s.incoming_link ≡ some l) ⊎ (link_label s.outgoing_link ≡ some l)
    → is_noise (inst_of l) ≡ false
    → (m : Text) × (slot_label (some s) ≡ some m)
      × Better (link_label s.incoming_link) (link_label s.outgoing_link) m
slot_label_lem s l h n =
    rw (slot_label_eq s, label_of_links_lem s.incoming_link s.outgoing_link)
      (better (link_label s.incoming_link) (link_label s.outgoing_link) l h n)
  where
    slot_label_eq :
        (s : Slot) → slot_label (some s) ≡ label_of_links s.incoming_link s.outgoing_link
    slot_label_eq s = unfold slot_label in refl
