-- ===== src/Text/Decimal.antt =====
-- `str(n)` and `int(t)` on natural numbers.
use aximux.Prelude.{
  ℕ, zero, suc, ◌+◌, ◌-◌, ◌*◌, ◌/◌, ◌%◌, ◌<◌, Bool, true, ◌&&◌, List, [], ◌∷◌, ◌++◌, leb, ltb,
  if◌then◌else◌, ◌≡◌, refl, arith, all, all-append, ap, ◌≢◌, ◌≤◌, length, length-append, Bool-cases,
  inl, inr,
}

abbrev pub is_digit : ℕ → Bool
is_digit c = leb b'0' c && leb c b'9'

-- `int(t)` for a text of digits, from the value of what was read.
unfoldable pub int_from : ℕ → List ℕ → ℕ
int_from n [] = n
int_from n (c ∷ t) = int_from (n * 10 + (c - b'0')) t

abbrev pub int : List ℕ → ℕ
int = int_from 0

digits : ℕ → ℕ → List ℕ
digits zero n = []
digits (suc f) n =
    let rest = digits f (n / 10) in
    if ltb n 10 then (b'0' + n) ∷ [] else rest ++ ((b'0' + n % 10) ∷ [])

-- `str(n)`
unfoldable pub str : ℕ → List ℕ
unfolding digits
str n = digits (suc n) n

pub int_from-append : (n : ℕ) (s t : List ℕ) → int_from n (s ++ t) ≡ int_from (int_from n s) t
unfolding int_from
int_from-append n [] t = refl
int_from-append n (c ∷ s) t = int_from-append (n * 10 + (c - b'0')) s t

int-digits : (f n : ℕ) → n < f → int_from 0 (digits f n) ≡ n
unfolding digits int_from
int-digits zero n h = elim h [ ]
int-digits (suc f) n h =
    ground
      (arith, int-digits f (n / 10), int_from-append 0 (digits f (n / 10)) ((b'0' + n % 10) ∷ []))

all-is_digit-digits : (f n : ℕ) → all is_digit (digits f n) ≡ true
unfolding digits
all-is_digit-digits zero n = refl
all-is_digit-digits (suc f) n = ground (
  arith,
  all-is_digit-digits f (n / 10),
  all-append is_digit (digits f (n / 10)) ((b'0' + n % 10) ∷ []),
)

-- Reading a printed number gives the number.
pub int-str : (n : ℕ) → int (str n) ≡ n
unfolding str
int-str n = int-digits (suc n) n (omega arith)

pub all-is_digit-str : (n : ℕ) → all is_digit (str n) ≡ true
unfolding str
all-is_digit-str n = all-is_digit-digits (suc n) n

snoc-ne-nil : (s : List ℕ) (c : ℕ) → s ++ (c ∷ []) ≢ []
snoc-ne-nil [] c h = cc
snoc-ne-nil (d ∷ s) c h = cc

pub str-ne-nil : (n : ℕ) → str n ≢ []
unfolding str
str-ne-nil n h = ground (arith, snoc-ne-nil (digits n (n / 10)) (b'0' + n % 10))

pub str-injective : (m n : ℕ) → str m ≡ str n → m ≡ n
str-injective m n h = omega (arith, int-str m, int-str n, ap (λ (t : List ℕ). int t) h)

str_runs : str 1024 ≡ b'1' ∷ b'0' ∷ b'2' ∷ b'4' ∷ []
unfolding str
str_runs = refl

length-digits_one : (f n : ℕ) → n < 10 → 1 ≤ f → length (digits f n) ≡ 1
unfolding digits
length-digits_one zero n h k = absurd (omega arith)
length-digits_one (suc f) n h k = ground arith

-- A number below a hundred has at most two digits.
pub length-str : (n : ℕ) → n < 100 → length (str n) ≤ 2
unfolding str digits
length-str n h = elim (Bool-cases (ltb n 10)) [
  | inl e ↦ rw (e) (omega arith)
  | inr e ↦
      let low : (10 ≤ n) × (n / 10 < 10) = (ground arith, omega arith) in
      rw (e) (
        omega (
          arith,
          length-append (digits n (n / 10)) ((b'0' + n % 10) ∷ []),
          length-digits_one n (n / 10) low.1 (omega (arith, low.0)),
        ))
]
