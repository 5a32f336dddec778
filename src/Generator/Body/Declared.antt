-- ===== src/Generator/Body/Declared.antt =====
-- The names that the generated module declares: its ports and its own signals.
use aximux.Prelude.{
  ℕ, List, [], ◌∷◌, ◌++◌, none, true, false, ◌≡◌, refl, sym, ap, ◌∙◌, ◌≢◌, subst, All, All-append,
  All-map, map, map-append, concat_map, range, append-nil, Option-cases, inl, inr,
}
use aximux.Prelude.Nodup.{Nodup, Nodup-append, All-map_range, All-both, map-map}
use aximux.Text.{
  Text, codes, strip_prefix, strip_prefix-append, strip_prefix_sound, starts_with, is_some,
}
use aximux.Text.Decimal.{str}
use aximux.Text.Patterns.{digits_then}
use aximux.Hwh.Ports.{parse_port}
use aximux.Generator.Ports.{Hdltools, module_ports, required_addr_width, axi_data_width}
use aximux.Generator.Names.{
  name_of, module_ports-Nodup, module_names, own_names, own_names-prefix, source_ports,
  unread_apart,
}
use aximux.Generator.Body.{Signal, numbered, per_signal, internal_signals}
use aximux.Generator.Body.Apart.{differ, differ_sound, family, families-Nodup}

abbrev pub signal_of : Signal → Text
signal_of s = s.name

abbrev pub declared : Hdltools → ℕ → ℕ → List Text
declared hdl m n = map name_of (module_ports hdl m n) ++ map signal_of (internal_signals hdl m n)

-- The words of the internal signals; the last one begins as the ports do.
abbrev field_words : List Text
field_words =
    codes "srcsel" ∷ codes "shortsel" ∷ codes "diren" ∷ codes "dirctl" ∷ codes "hw_dir_sig" ∷ []

abbrev pub words : List Text
words = field_words ++ (codes "sig_in_bit" ∷ [])

map-per_signal : (kind : Text) (size m : ℕ) → map signal_of (per_signal kind size m) ≡ family m kind
unfolding per_signal
map-per_signal kind size m =
    map-map signal_of (λ mux. record { name = numbered kind mux; size = size }) (range m)

pub map-internal_signals :
    (hdl : Hdltools) (m n : ℕ)
    → map signal_of (internal_signals hdl m n) ≡ concat_map (family m) words
unfolding internal_signals
map-internal_signals hdl m n = simp (map-append, map-per_signal, append-nil) refl

-- A name that begins with no word of a signal.
abbrev pub IsForeign : Text → Type 0
IsForeign t = All (λ p. starts_with p t ≡ false) (codes "sig" ∷ field_words)

foreign_prefix : (p s t : Text) → starts_with p t ≡ false → t ≢ p ++ s
foreign_prefix p s t h e = cc (e, ap is_some (strip_prefix-append p s), h)

foreign_apart : (p t : Text) → starts_with p t ≡ false → (i : ℕ) → t ≢ numbered p i
unfolding numbered
foreign_apart p t h i = foreign_prefix p (str i) t h

apart_words :
    (m : ℕ) (t : Text) (kinds : List Text)
    → All (λ kind. (i : ℕ) → t ≢ numbered kind i) kinds
    → All (λ y. t ≢ y) (concat_map (family m) kinds)
apart_words m t [] h = tt
apart_words m t (k ∷ ks) h =
    All-append (λ y. t ≢ y) (family m k) (concat_map (family m) ks)
      (All-map_range (λ y. t ≢ y) (λ i. numbered k i) 0 m (λ i _. h.0 i)) (apart_words m t ks h.1)

-- A name that begins with `sig` is no field's.
begins_apart :
    (t kind : Text)
    → starts_with (codes "sig") t ≡ true
    → differ (codes "sig") kind ≡ true
    → (i : ℕ) → t ≢ numbered kind i
unfolding numbered
begins_apart t kind h d i e = elim (Option-cases (strip_prefix (codes "sig") t)) [
  | inl q ↦ absurd (cc (ap is_some q, h))
  | inr (r, q) ↦
      differ_sound (codes "sig") kind r (str i) d (sym (strip_prefix_sound (codes "sig") t q) ∙ e)
]

bit_unread : (i : ℕ) → parse_port (numbered (codes "sig_in_bit") i) ≡ none
unfolding parse_port strip_prefix digits_then numbered
bit_unread i = refl

All-forall :
    {A : Type 0} (P : ℕ → A → Type 0) (xs : List A)
    → ((i : ℕ) → All (P i) xs)
    → All (λ x. (i : ℕ) → P i x) xs
All-forall P [] h = tt
All-forall P (x ∷ xs) h = ((λ i. (h i).0), All-forall P xs (λ i. (h i).1))

own_bit_apart : (m n : ℕ) → All (λ t. (i : ℕ) → t ≢ numbered (codes "sig_in_bit") i) (own_names m n)
unfolding numbered
own_bit_apart m n =
    All-forall (λ i t. t ≢ numbered (codes "sig_in_bit") i) (own_names m n)
      (λ i. (
        (λ e. cc e),
        (
          differ_sound (codes "sig_out") (codes "sig_in_bit") [] (str i) refl,
          (
            differ_sound (codes "sig_dir") (codes "sig_in_bit") [] (str i) refl,
            All-map {P = λ u. numbered (codes "sig_in_bit") i ≢ u}
                {Q = λ u. u ≢ numbered (codes "sig_in_bit") i} (λ u q e. q (sym e))
                (map name_of (source_ports m n))
                (unread_apart (numbered (codes "sig_in_bit") i) m n (bit_unread i)),
          ),
        ),
      ))

own_apart : (m n : ℕ) → All (λ t. All (λ y. t ≢ y) (concat_map (family m) words)) (own_names m n)
own_apart m n =
    All-both {P = λ t. starts_with (codes "sig") t ≡ true}
      {Q = λ t. (i : ℕ) → t ≢ numbered (codes "sig_in_bit") i}
      (λ t h b. apart_words m t words (
        begins_apart t (codes "srcsel") h refl,
        (
          begins_apart t (codes "shortsel") h refl,
          (
            begins_apart t (codes "diren") h refl,
            (
              begins_apart t (codes "dirctl") h refl,
              (begins_apart t (codes "hw_dir_sig") h refl, (b, tt)),
            ),
          ),
        ),
      ))
      (own_names m n) (own_names-prefix m n) (own_bit_apart m n)

foreign_words : (m : ℕ) (t : Text) → IsForeign t → All (λ y. t ≢ y) (concat_map (family m) words)
unfolding numbered
foreign_words m t (s, (a, (b, (c, (d, (f, _)))))) = apart_words m t words (
  foreign_apart (codes "srcsel") t a,
  (
    foreign_apart (codes "shortsel") t b,
    (
      foreign_apart (codes "diren") t c,
      (
        foreign_apart (codes "dirctl") t d,
        (
          foreign_apart (codes "hw_dir_sig") t f,
          ((λ i. foreign_prefix (codes "sig") (codes "_in_bit" ++ str i) t s), tt),
        ),
      ),
    ),
  ),
)

-- Where the ports of the AXI interface have different names, none of which begins with `sig`,
-- `srcsel`, `shortsel`, `diren`, `dirctl` or `hw_dir_sig`, no two of the generated module's ports and
-- signals have the same name, whatever the numbers of signals and of sources.
pub declared-Nodup :
    (hdl : Hdltools) (m n : ℕ)
    → Nodup (map name_of (hdl.axi_ports axi_data_width (required_addr_width hdl m)))
    → All IsForeign (map name_of (hdl.axi_ports axi_data_width (required_addr_width hdl m)))
    → Nodup (declared hdl m n)
declared-Nodup hdl m n u k =
    let axi = map name_of (hdl.axi_ports axi_data_width (required_addr_width hdl m)) in
    let ports = map name_of (module_ports hdl m n) in
    rw (map-internal_signals hdl m n) (
      Nodup-append ports (concat_map (family m) words)
        (module_ports-Nodup hdl m n u (All-map {P = IsForeign} (λ t h. h.0) axi k))
        (families-Nodup m words refl)
        (subst (All (λ t. All (λ y. t ≢ y) (concat_map (family m) words)))
          (sym (module_names hdl m n))
          (All-append (λ t. All (λ y. t ≢ y) (concat_map (family m) words)) axi (own_names m n)
            (All-map {P = IsForeign} (λ t h. foreign_words m t h) axi k) (own_apart m n))))
