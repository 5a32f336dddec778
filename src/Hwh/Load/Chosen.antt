-- ===== src/Hwh/Load/Chosen.antt =====
-- The member of an archive that `load_hwh` of tools/hwh_aximux_dt.py reads.
use aximux.Prelude.{
  List, [], ◌∷◌, ◌++◌, some, Bool, true, false, ◌≡◌, refl, sym, ap, ◌∙◌, subst, arith, All, All-map,
  ◌⊎◌, inl, inr, Bool-cases, List-cases, select, text_eq,
}
use mathlib.Core.List.{Memᴰ}
use aximux.Prelude.Sort.{sort_by-All, sort_by-All_of, sort_by-SortedBy, SortedBy}
use aximux.Text.{Text, codes, text_le, text_le-total, text_le_trans}
use aximux.Hwh.Load.{
  Files, exited, of_option, is_hwh, is_system, key_le, member_le, hwh_members, load_member,
  load_hwh, is_archive,
}

key_le-total :
    (s t x y : Bool) → (x ≡ false → y ≡ true) → key_le s t x ≡ false → key_le t s y ≡ true
key_le-total true true x y f h = f h
key_le-total true false x y f h = absurd (ground arith)
key_le-total false true x y f h = refl
key_le-total false false x y f h = f h

key_le_trans :
    (s t u x y z : Bool)
    → (x ≡ true → y ≡ true → z ≡ true)
    → key_le s t x ≡ true
    → key_le t u y ≡ true
    → key_le s u z ≡ true
key_le_trans true true true x y z f h k = f h k
key_le_trans true true false x y z f h k = refl
key_le_trans true false true x y z f h k = absurd (ground arith)
key_le_trans true false false x y z f h k = refl
key_le_trans false true u x y z f h k = absurd (ground arith)
key_le_trans false false true x y z f h k = absurd (ground arith)
key_le_trans false false false x y z f h k = f h k

member_le-total : (a b : Text) → member_le a b ≡ false → member_le b a ≡ true
unfolding member_le
member_le-total a b h =
    key_le-total (is_system a) (is_system b) (text_le a b) (text_le b a) (text_le-total a b) h

member_le_trans :
    (a b c : Text) → member_le a b ≡ true → member_le b c ≡ true → member_le a c ≡ true
unfolding member_le
member_le_trans a b c h k =
    key_le_trans (is_system a) (is_system b) (is_system c) (text_le a b) (text_le b c) (text_le a c)
      (text_le_trans a b c) h k

-- A member comes before another: a system's does, and of two alike the first by code points.
abbrev pub ComesFirst : Text → Text → Type 0
ComesFirst n m =
    (is_system m ≡ true → is_system n ≡ true) × (is_system n ≡ is_system m → text_le n m ≡ true)

member_le-ComesFirst : (n m : Text) → member_le n m ≡ true → ComesFirst n m
unfolding member_le
member_le-ComesFirst n m h = first (is_system n) (is_system m) h
  where
    first :
        (s t : Bool)
        → key_le s t (text_le n m) ≡ true
        → (t ≡ true → s ≡ true) × (s ≡ t → text_le n m ≡ true)
    first true true h = (λ e. refl, λ e. h)
    first true false h = (λ e. refl, λ e. absurd (ground arith))
    first false true h = absurd (ground arith)
    first false false h = (λ e. e, λ e. h)

text_le_refl : (t : Text) → text_le t t ≡ true
unfolding text_le
text_le_refl [] = refl
text_le_refl (c ∷ t) = ground (arith, text_le_refl t)

select_sound :
    (names : List Text) → All (λ m. Memᴰ m names × (is_hwh m ≡ true)) (select is_hwh names)
select_sound [] = tt
select_sound (n ∷ names) =
    let rest =
      All-map {P = λ m. Memᴰ m names × (is_hwh m ≡ true)}
        {Q = λ m. Memᴰ m (n ∷ names) × (is_hwh m ≡ true)} (λ m h. (Memᴰ.tail h.0, h.1))
        (select is_hwh names) (select_sound names) in
    elim (Bool-cases (is_hwh n)) [
      | inl e ↦ rw (e) ((Memᴰ.head refl, e), rest)
      | inr e ↦ rw (e) rest
    ]

-- What holds of the selected names holds of all names with the ending.
select_complete :
    (P : Text → Type 0) (names : List Text)
    → All P (select is_hwh names)
    → All (λ m. is_hwh m ≡ true → P m) names
select_complete P [] h = tt
select_complete P (n ∷ names) h = elim (Bool-cases (is_hwh n)) [
  | inl e ↦
      let h' : All P (n ∷ select is_hwh names) = rw (e) at h in
      (λ _. h'.0, select_complete P names h'.1)
  | inr e ↦
      let h' : All P (select is_hwh names) = rw (e) at h in
      (λ e'. absurd (cc (e, e')), select_complete P names h')
]

member_le_refl : (n : Text) → member_le n n ≡ true
unfolding member_le
member_le_refl n = self (is_system n) (text_le n n) (text_le_refl n)
  where
    self : (s x : Bool) → x ≡ true → key_le s s x ≡ true
    self true x h = h
    self false x h = h

-- What `load_hwh` does with an archive: it reads the first of the members that end in `.hwh`.
abbrev pub Reads : Files → Text → List Text → Type 0
Reads fs path names =
    ((n : Text) × Memᴰ n names
      × (is_hwh n ≡ true)
      × All (λ m. is_hwh m ≡ true → ComesFirst n m) names
      × (load_hwh fs path ≡ of_option (fs.read_member path n)))
    ⊎ (All (λ m. is_hwh m ≡ true → ⊥) names
        × (load_hwh fs path ≡ exited (codes "no .hwh inside " ++ path)))

load_hwh-archive :
    (fs : Files) (path : Text) (names : List Text)
    → is_archive fs path ≡ true
    → fs.namelist path ≡ some names
    → load_hwh fs path ≡ load_member fs path (hwh_members names)
unfolding load_hwh
load_hwh-archive fs path names h k = rw (load_hwh, h, k) refl

-- For a path that ends in `.xsa`, in any case, or that is a zip file: `load_hwh` reads a member
-- whose name ends in `.hwh`, in any case, and which comes before every other such member of the
-- archive, those in front that end in `system.hwh`, and alike ones by code points; and it exits with
-- its message exactly where there is no such member.
pub load_hwh_lem :
    (fs : Files) (path : Text) (names : List Text)
    → is_archive fs path ≡ true
    → fs.namelist path ≡ some names
    → Reads fs path names
unfolding hwh_members
load_hwh_lem fs path names h k =
    let sound =
      sort_by-All member_le (λ m. Memᴰ m names × (is_hwh m ≡ true)) (select is_hwh names)
        (select_sound names) in
    let sorted = sort_by-SortedBy member_le member_le-total member_le_trans (select is_hwh names) in
    elim (List-cases (hwh_members names)) [
      | inl e ↦ inr (
        select_complete (λ m. ⊥) names
            (sort_by-All_of member_le (λ m. ⊥) (select is_hwh names)
              (subst (All (λ m. ⊥)) (sym e) tt)),
        load_hwh-archive fs path names h k ∙ ap (load_member fs path) e,
      )
      | inr (n, ns, e) ↦
          let here = subst (All (λ m. Memᴰ m names × (is_hwh m ≡ true))) e sound in
          let order : SortedBy member_le (n ∷ ns) = subst (SortedBy member_le) e sorted in
          inl (
            n,
            here.0.0,
            here.0.1,
            select_complete (ComesFirst n) names (
                All-map (λ m l. member_le-ComesFirst n m l) (select is_hwh names)
                  (sort_by-All_of member_le (λ m. member_le n m ≡ true) (select is_hwh names)
                    (subst (All (λ m. member_le n m ≡ true)) (sym e) (member_le_refl n, order.0)))),
            load_hwh-archive fs path names h k ∙ ap (load_member fs path) e,
          )
    ]
