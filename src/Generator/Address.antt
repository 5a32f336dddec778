-- ===== src/Generator/Address.antt =====
-- The address space of the generated register block.
use aximux.Prelude.{ℕ, ◌+◌, ◌*◌, ◌^◌, ◌≤◌, ◌<◌, arith, max}
use aximux.Generator.Ports.{Hdltools, required_addr_width, muxinfo_addr}

-- The byte address of the register of a signal: registers are 32 bits wide.
abbrev pub srcsel_addr : ℕ → ℕ
srcsel_addr i = i * 4

-- Where `clog2 n` is a number of bits that suffices for n values, the address width that the
-- generator chooses suffices, for any number of signals, for every byte of the SRCSEL register of
-- each of them and of MUXINFO.
pub addresses_fit :
    (hdl : Hdltools) (m i : ℕ)
    → ((n : ℕ) → n ≤ 2 ^ hdl.clog2 n)
    → i < m
    → (srcsel_addr i + 4 ≤ 2 ^ required_addr_width hdl m)
      × (muxinfo_addr + 4 ≤ 2 ^ required_addr_width hdl m)
unfolding required_addr_width
addresses_fit hdl m i enough below =
    let fits = enough (max (m * 4) muxinfo_addr + 4) in (omega arith, omega arith)
