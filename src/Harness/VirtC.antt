-- ===== src/Harness/VirtC.antt =====
-- `patch_virt_c` leaves both of its marks in the text, and a text with both alone.
use aximux.Prelude.{[], ◌++◌, none, Bool, true, false, if◌then◌else◌, ◌≡◌, refl, ◌≢◌, append_assoc}
use aximux.Text.{Text, codes, strip_prefix}
use aximux.Harness.Replace.{
  contains_text, replace_first, contains-append_right, contains-append_left, contains-insert,
  replace_first_lem, clear, tail_text,
}
use aximux.Harness.Patch.{
  wrote, text_after, message, Step, done, exit, and_then, written, patch_virt_c, add_memmap,
  add_device, add_call, marker, create_fn, memmap_entry, memmap_line, needle, anchor, call_anchor,
  call_line,
}

-- What a step leaves, if it ends well.
abbrev Leaves : (Text → Type 0) → Step → Type 0
Leaves P (done t) = P t
Leaves P (exit m) = Unit

abbrev Has : Text → Text → Type 0
Has s t = contains_text s t ≡ true

-- An insertion in front of the first occurrence of `old`: the new text has what was put in, and
-- what the old text had, unless `old` could cut it.
insert-Has :
    (s ins old t : Text)
    → Has old t
    → old ≢ []
    → Has s ins
    → Has s (replace_first old (ins ++ old) t)
insert-Has s ins old t h n k =
    let (a, b, split, made) = replace_first_lem old (ins ++ old) t h n in
    rw (made, append_assoc ins old b)
      (contains-append_right s a (ins ++ (old ++ b)) (contains-append_left s ins (old ++ b) k))

insert_keeps :
    (s ins old t : Text)
    → Has old t
    → old ≢ []
    → clear old (tail_text s) ≡ true
    → Has s t
    → Has s (replace_first old (ins ++ old) t)
insert_keeps s ins old t h n c k =
    let (a, b, split, made) = replace_first_lem old (ins ++ old) t h n in
    rw (made, append_assoc ins old b) (contains-insert s a ins old b c (rw split at k))

add_memmap-Leaves : (t : Text) → Leaves (Has memmap_entry) (add_memmap t)
add_memmap-Leaves t = rw eq (step (contains_text memmap_entry t) (contains_text needle t) refl refl)
  where
    eq : add_memmap t ≡ (
        if contains_text memmap_entry t
        then done t
        else if contains_text needle t
        then done (replace_first needle (needle ++ memmap_line) t)
        else exit (codes "memmap ACPI_PCIHP entry not found"))
    eq = unfold add_memmap in refl

    made : Has needle t → Has memmap_entry (replace_first needle (needle ++ memmap_line) t)
    made h =
        let (a, b, split, e) = replace_first_lem needle (needle ++ memmap_line) t h (λ p. cc p) in
        rw e (
          contains-append_right memmap_entry a ((needle ++ memmap_line) ++ b) (
            contains-append_left memmap_entry (needle ++ memmap_line) b
              (unfold contains_text strip_prefix in refl)))

    step :
        (p q : Bool)
        → contains_text memmap_entry t ≡ p
        → contains_text needle t ≡ q
        → Leaves (Has memmap_entry) (
            if p
            then done t
            else if q
            then done (replace_first needle (needle ++ memmap_line) t)
            else exit (codes "memmap ACPI_PCIHP entry not found"))
    step true q hp hq = hp
    step false true hp hq = made hq
    step false false hp hq = tt

-- Both marks.
abbrev Both : Text → Type 0
Both t = Has memmap_entry t × Has marker t

add_call-Leaves : (t : Text) → Both t → Leaves Both (add_call t)
add_call-Leaves t (he, hm) = rw eq (step (contains_text call_anchor t) refl)
  where
    eq : add_call t ≡ (
        if contains_text call_anchor t
        then done (replace_first call_anchor (call_line ++ call_anchor) t)
        else exit (codes "create_virtio_devices call not found"))
    eq = unfold add_call in refl

    step :
        (p : Bool)
        → contains_text call_anchor t ≡ p
        → Leaves Both (
            if p
            then done (replace_first call_anchor (call_line ++ call_anchor) t)
            else exit (codes "create_virtio_devices call not found"))
    step true h = (
      insert_keeps memmap_entry call_line call_anchor t h (λ p. cc p) refl he,
      insert_keeps marker call_line call_anchor t h (λ p. cc p) refl hm,
    )
    step false h = tt

marker_in_function : Has marker create_fn
unfolding create_fn contains_text strip_prefix
marker_in_function = refl

add_device-Leaves : (t : Text) → Has memmap_entry t → Leaves Both (add_device t)
add_device-Leaves t he = rw eq (step (contains_text marker t) (contains_text anchor t) refl refl)
  where
    eq : add_device t ≡ (
        if contains_text marker t
        then done t
        else if contains_text anchor t
        then add_call (replace_first anchor (create_fn ++ anchor) t)
        else exit (codes "create_gpio_devices not found"))
    eq = unfold add_device in refl

    step :
        (p q : Bool)
        → contains_text marker t ≡ p
        → contains_text anchor t ≡ q
        → Leaves Both (
            if p
            then done t
            else if q
            then add_call (replace_first anchor (create_fn ++ anchor) t)
            else exit (codes "create_gpio_devices not found"))
    step true q hp hq = (he, hp)
    step false true hp hq = add_call-Leaves (replace_first anchor (create_fn ++ anchor) t) (
      insert_keeps memmap_entry create_fn anchor t hq (λ p. cc p) refl he,
      insert-Has marker create_fn anchor t hq (λ p. cc p) marker_in_function,
    )
    step false false hp hq = tt

-- A text with both marks is written back as it is.
Both-kept : (t : Text) → Both t → patch_virt_c t ≡ wrote t
Both-kept t (he, hm) = rw (eq, first, second)
  where
    eq : patch_virt_c t ≡ written (and_then (add_memmap t) add_device)
    eq = unfold patch_virt_c in refl

    first : add_memmap t ≡ done t
    first = unfold add_memmap in rw he

    second : add_device t ≡ done t
    second = unfold add_device in rw hm

Leaves-Both :
    (t : Text) (s : Step)
    → Leaves (Has memmap_entry) s
    → message (written (and_then s add_device)) ≡ none
    → Both (text_after t (written (and_then s add_device)))
Leaves-Both t (exit m) l g = cc
Leaves-Both t (done u) l g = step (add_device u) (add_device-Leaves u l) g
  where
    step : (s : Step) → Leaves Both s → message (written s) ≡ none → Both (text_after t (written s))
    step (done v) b g' = b
    step (exit m) b g' = cc

-- If `patch_virt_c` does not fail, the text that it leaves is written back unchanged by a second run.
pub patch_virt_c_again :
    (t : Text)
    → message (patch_virt_c t) ≡ none
    → let t' = text_after t (patch_virt_c t) in patch_virt_c t' ≡ wrote t'
patch_virt_c_again t g = Both-kept (text_after t (patch_virt_c t)) both
  where
    eq : patch_virt_c t ≡ written (and_then (add_memmap t) add_device)
    eq = unfold patch_virt_c in refl

    both : Both (text_after t (patch_virt_c t))
    both = rw eq (Leaves-Both t (add_memmap t) (add_memmap-Leaves t) (rw eq at g))
