-- ===== src/Generator/Body/Wired.antt =====
-- The names that the body of `axi_mux` uses are declared: generator/mux_gen.py.
use aximux.Prelude.{ℕ, ◌+◌, ◌≡◌, refl, sym, subst, All, All-append, map, concat_map, range}
use mathlib.Core.List.{Memᴰ}
use mathlib.Core.List.Memᴰ
use aximux.Prelude.Members.{All-map_members, All-concat_map, mem-concat_map}
use aximux.Text.{Text, codes}
use aximux.Generator.Ports.{
  Port, Hdltools, signal_name, module_ports, dir_ports, incoming_ports, outgoing_ports, per_source,
  output_port, input_port,
}
use aximux.Generator.Names.{name_of, module_names, own_names, source_ports}
use aximux.Generator.Body.{numbered, looked_up, all_looked_up, internal_signals}
use aximux.Generator.Body.Apart.{family}
use aximux.Generator.Body.Declared.{signal_of, declared, words, map-internal_signals}

module _ (hdl : Hdltools) (m n : ℕ) where
  abbrev IsDeclared : Text → Type 0
  IsDeclared t = Memᴰ t (declared hdl m n)

  port-IsDeclared : (t : Text) → Memᴰ t (own_names m n) → IsDeclared t
  port-IsDeclared t k =
      Memᴰ.append_left (map signal_of (internal_signals hdl m n))
        (subst (Memᴰ t) (sym (module_names hdl m n)) (Memᴰ.append_right _ k))

  word-IsDeclared :
      (kind : Text) (mux : ℕ)
      → Memᴰ kind words
      → Memᴰ mux (range m)
      → IsDeclared (numbered kind mux)
  word-IsDeclared kind mux w k = Memᴰ.append_right (map name_of (module_ports hdl m n)) (
      subst (Memᴰ (numbered kind mux)) (sym (map-internal_signals hdl m n))
        (mem-concat_map (family m) words w (Memᴰ.map (numbered kind) k)))

  source-IsDeclared : (t : Text) → Memᴰ t (map name_of (source_ports m n)) → IsDeclared t
  source-IsDeclared t k = port-IsDeclared t (Memᴰ.tail (Memᴰ.tail (Memᴰ.tail k)))

  -- The names of one kind, for one signal, where the module has the ports of this kind.
  row-IsDeclared :
      (kind : Text) (port : Text → ℕ → Port) (mux : ℕ)
      → ((t : Text) → (port t 1).name ≡ t)
      → ((p : Port)
          → Memᴰ p (per_source m n (λ s b. port (signal_name kind s b) 1))
          → Memᴰ p (source_ports m n))
      → Memᴰ mux (range m)
      → All IsDeclared (map (λ a. signal_name kind mux a) (range (n + 1)))
  row-IsDeclared kind port mux named among k =
      All-map_members IsDeclared (λ a. signal_name kind mux a) (range (n + 1))
        (λ a l. source-IsDeclared (signal_name kind mux a) (
          subst (λ t. Memᴰ t (map name_of (source_ports m n))) (named (signal_name kind mux a))
            (Memᴰ.map name_of (
              among (port (signal_name kind mux a) 1) (
                mem-concat_map (λ s. map (λ b. port (signal_name kind s b) 1) (range (n + 1)))
                  (range m) k (Memᴰ.map (λ b. port (signal_name kind mux b) 1) l))))))

  ctl-IsDeclared :
      (mux : ℕ)
      → Memᴰ mux (range m)
      → All IsDeclared (map (λ a. signal_name (codes "ctl") mux a) (range (n + 1)))
  unfolding dir_ports
  ctl-IsDeclared mux k =
      row-IsDeclared (codes "ctl") input_port mux (λ t. refl) (λ p l. Memᴰ.append_left _ l) k

  outgoing-IsDeclared :
      (mux : ℕ)
      → Memᴰ mux (range m)
      → All IsDeclared (map (λ a. signal_name (codes "outgoing") mux a) (range (n + 1)))
  unfolding outgoing_ports
  outgoing-IsDeclared mux k =
      row-IsDeclared (codes "outgoing") input_port mux (λ t. refl)
        (λ p l. Memᴰ.append_right (dir_ports m n) (Memᴰ.append_right (incoming_ports m n) l)) k

  incoming-IsDeclared :
      (mux : ℕ)
      → Memᴰ mux (range m)
      → All IsDeclared (map (λ a. signal_name (codes "incoming") mux a) (range (n + 1)))
  unfolding incoming_ports
  incoming-IsDeclared mux k =
      row-IsDeclared (codes "incoming") output_port mux (λ t. refl)
        (λ p l. Memᴰ.append_right (dir_ports m n) (Memᴰ.append_left (outgoing_ports m n) l)) k

  bit-IsDeclared : (mux : ℕ) → Memᴰ mux (range m) → IsDeclared (numbered (codes "sig_in_bit") mux)
  bit-IsDeclared mux k =
      word-IsDeclared (codes "sig_in_bit") mux
        (Memᴰ.tail (Memᴰ.tail (Memᴰ.tail (Memᴰ.tail (Memᴰ.tail (Memᴰ.head refl)))))) k

  round-IsDeclared : (mux : ℕ) → Memᴰ mux (range m) → All IsDeclared (looked_up n mux)
  unfolding looked_up
  round-IsDeclared mux k = (
    port-IsDeclared (codes "sig_dir") (Memᴰ.tail (Memᴰ.tail (Memᴰ.head refl))),
    (
      port-IsDeclared (codes "sig_out") (Memᴰ.tail (Memᴰ.head refl)),
      (
        word-IsDeclared (codes "srcsel") mux (Memᴰ.head refl) k,
        (
          word-IsDeclared (codes "shortsel") mux (Memᴰ.tail (Memᴰ.head refl)) k,
          (
            word-IsDeclared (codes "diren") mux (Memᴰ.tail (Memᴰ.tail (Memᴰ.head refl))) k,
            (
              word-IsDeclared (codes "dirctl") mux
                  (Memᴰ.tail (Memᴰ.tail (Memᴰ.tail (Memᴰ.head refl)))) k,
              (
                word-IsDeclared (codes "hw_dir_sig") mux
                    (Memᴰ.tail (Memᴰ.tail (Memᴰ.tail (Memᴰ.tail (Memᴰ.head refl))))) k,
                All-append IsDeclared (map (λ a. signal_name (codes "ctl") mux a) (range (n + 1))) _
                    (ctl-IsDeclared mux k)
                    (All-append IsDeclared
                      (map (λ a. signal_name (codes "outgoing") mux a) (range (n + 1))) _
                      (outgoing-IsDeclared mux k)
                      (All-append IsDeclared
                        (map (λ a. signal_name (codes "incoming") mux a) (range (n + 1))) _
                        (incoming-IsDeclared mux k) (bit-IsDeclared mux k, tt))),
              ),
            ),
          ),
        ),
      ),
    ),
  )

  -- Every name that the body of the generated module looks up is that of one of the module's ports or
  -- of one of its own signals, whatever the numbers of signals and of sources.
  pub all_looked_up-IsDeclared : All IsDeclared (all_looked_up m n)
  unfolding all_looked_up
  all_looked_up-IsDeclared = (
    port-IsDeclared (codes "sig_in") (Memᴰ.head refl),
    All-append IsDeclared (map (λ mux. numbered (codes "sig_in_bit") mux) (range m))
        (concat_map (λ mux. looked_up n mux) (range m))
        (All-map_members IsDeclared (λ mux. numbered (codes "sig_in_bit") mux) (range m)
          bit-IsDeclared)
        (All-concat_map IsDeclared (λ mux. looked_up n mux) (range m) round-IsDeclared),
  )
