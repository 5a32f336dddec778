-- ===== src/Generator/Sources.antt =====
-- The sources of a generated module, as triples of signal, kind and number, differ.
use aximux.Prelude.{
  ℕ, zero, suc, ◌+◌, ◌<◌, List, ◌++◌, Option, none, some, ap, ◌≢◌, arith, All, All-append, map,
  concat_map, range_from, range,
}
use aximux.Hwh.Model.{Kind, incoming, outgoing, ctl}
use aximux.Generator.ReadBack.{sources}
use aximux.Prelude.Nodup.{Nodup, Nodup-append, All-both, All-map_range, All-concat_range}

abbrev pub Source : Type 0
Source = Option (ℕ × Kind × ℕ)

abbrev signal_of : Source → ℕ
signal_of none = 0
signal_of (some (sig, k, a)) = sig

abbrev source_of : Source → ℕ
source_of none = 0
source_of (some (sig, k, a)) = a

abbrev kind_number : Kind → ℕ
kind_number ctl = 1
kind_number incoming = 2
kind_number outgoing = 3

abbrev kind_code : Source → ℕ
kind_code none = 0
kind_code (some (sig, k, a)) = kind_number k

apart_by : (f : Source → ℕ) (x y : Source) → f x < f y → x ≢ y
apart_by f x y l p = let e = ap f p in omega arith

row-Nodup :
    (sig : ℕ) (k : Kind) (i n : ℕ)
    → Nodup {A = Source} (map (λ a. some (sig, k, a)) (range_from i n))
row-Nodup sig k i zero = tt
row-Nodup sig k i (suc n) = (
  All-map_range (λ y. some (sig, k, i) ≢ y) (λ a. some (sig, k, a)) (i + 1) n
      (λ j l. apart_by source_of (some (sig, k, i)) (some (sig, k, j)) (omega arith)),
  row-Nodup sig k (i + 1) n,
)

rows-Nodup :
    (k : Kind) (n i m : ℕ)
    → Nodup {A = Source}
        (concat_map (λ sig. map (λ a. some (sig, k, a)) (range (n + 1))) (range_from i m))
rows-Nodup k n i zero = tt
rows-Nodup k n i (suc m) =
    let row : ℕ → List Source = λ sig. map (λ a. some (sig, k, a)) (range (n + 1)) in
    Nodup-append (row i) (concat_map row (range_from (i + 1) m)) (row-Nodup i k 0 (n + 1))
      (rows-Nodup k n (i + 1) m)
      (All-map_range (λ x. All (λ y. x ≢ y) (concat_map row (range_from (i + 1) m)))
        (λ a. some (i, k, a)) 0 (n + 1)
        (λ a _.
          All-concat_range (λ y. some (i, k, a) ≢ y) row (i + 1) m
            (λ j l.
              All-map_range (λ y. some (i, k, a) ≢ y) (λ b. some (j, k, b)) 0 (n + 1)
                (λ b _. apart_by signal_of (some (i, k, a)) (some (j, k, b)) (omega arith)))))

-- The triples of one kind differ from those of another.
kinds_apart :
    (k k' : Kind) (m n : ℕ)
    → kind_number k < kind_number k'
    → All (λ x. All (λ y. x ≢ y) (sources m n k')) (sources m n k)
kinds_apart k k' m n l =
    All-concat_range (λ x. All (λ y. x ≢ y) (sources m n k'))
      (λ sig. map (λ a. some (sig, k, a)) (range (n + 1))) 0 m
      (λ s _.
        All-map_range (λ x. All (λ y. x ≢ y) (sources m n k')) (λ a. some (s, k, a)) 0 (n + 1)
          (λ a _.
            All-concat_range (λ y. some (s, k, a) ≢ y)
              (λ sig. map (λ b. some (sig, k', b)) (range (n + 1))) 0 m
              (λ s' _.
                All-map_range (λ y. some (s, k, a) ≢ y) (λ b. some (s', k', b)) 0 (n + 1)
                  (λ b _. apart_by kind_code (some (s, k, a)) (some (s', k', b)) l))))

abbrev pub all_sources : ℕ → ℕ → List Source
all_sources m n = sources m n ctl ++ (sources m n incoming ++ sources m n outgoing)

pub all_sources-Nodup : (m n : ℕ) → Nodup (all_sources m n)
all_sources-Nodup m n =
    Nodup-append (sources m n ctl) (sources m n incoming ++ sources m n outgoing)
      (rows-Nodup ctl n 0 m)
      (Nodup-append (sources m n incoming) (sources m n outgoing) (rows-Nodup incoming n 0 m)
        (rows-Nodup outgoing n 0 m) (kinds_apart incoming outgoing m n (omega arith)))
      (All-both {P = λ x. All (λ y. x ≢ y) (sources m n incoming)}
        {Q = λ x. All (λ y. x ≢ y) (sources m n outgoing)}
        (λ x h k. All-append (λ y. x ≢ y) (sources m n incoming) (sources m n outgoing) h k)
        (sources m n ctl) (kinds_apart ctl incoming m n (omega arith))
        (kinds_apart ctl outgoing m n (omega arith)))

pub none_apart : (m n : ℕ) (k : Kind) → All (λ y. none ≢ y) (sources m n k)
none_apart m n k =
    All-concat_range (λ y. none ≢ y) (λ sig. map (λ a. some (sig, k, a)) (range (n + 1))) 0 m
      (λ s _. All-map_range (λ y. none ≢ y) (λ a. some (s, k, a)) 0 (n + 1) (λ a _ p. cc))
