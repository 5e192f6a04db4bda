-- ===== src/Storage/Numbers.antt =====
-- The number in the name of a new disk is read back from it.
use cloudify_vsphere_plugin.Common.{
  ℕ, zero, suc, ◌+◌, ◌-◌, ◌*◌, ◌/◌, ◌%◌, ◌<◌, ◌≡◌, refl, sym, ap, ◌∙◌, Text, text_eq, text_eq_iff,
  length, length-append, append_assoc, false, none, some, [], ◌∷◌, ◌++◌, ltb, Bool-cases, inl, inr,
  arith,
}
use cloudify_vsphere_plugin.Storage.Names.{
  dot_vmdk, stem, is_digit, read_from, read_digits, split_last, with_number, numbered_parts,
  numbered_stem, match_number, write_digits, numbered_name,
}

-- The digits of n alone.
abbrev pub digits_of : ℕ → Text
digits_of n = write_digits (suc n) n []

write_digits-append :
    (fuel n : ℕ) (t u : Text) → write_digits fuel n (t ++ u) ≡ write_digits fuel n t ++ u
unfolding write_digits
write_digits-append zero n t u = refl
write_digits-append (suc fuel) n t u = elim (Bool-cases (ltb n 10)) [
  | inl small ↦ rw small
  | inr large ↦ rw large (write_digits-append fuel (n / 10) ((b'0' + n % 10) ∷ t) u)
]

read_digit : (a d : ℕ) (t : Text) → d < 10 → read_from a ((b'0' + d) ∷ t) ≡ read_from (a * 10 + d) t
unfolding read_from
read_digit a d t h = ground arith

read_from-write_digits :
    (fuel n : ℕ) (t : Text) → n < fuel → read_from 0 (write_digits fuel n t) ≡ read_from n t
unfolding write_digits
read_from-write_digits zero n t h = absurd (omega (arith, h))
read_from-write_digits (suc fuel) n t h = elim (Bool-cases (ltb n 10)) [
  | inl small ↦
      rw small (read_digit 0 (n % 10) t (omega arith) ∙ ap (λ m. read_from m t) (ground arith))
  | inr large ↦ rw large (
      read_from-write_digits fuel (n / 10) ((b'0' + n % 10) ∷ t) (ground arith)
      ∙ read_digit (n / 10) (n % 10) t (omega arith)
      ∙ ap (λ m. read_from m t) (omega arith))
]

-- Digits hold no underscore.
read_no_underscore : (a : ℕ) (s : Text) {n : ℕ} → read_from a s ≡ some n → split_last s ≡ none
unfolding read_from split_last
read_no_underscore a [] e = refl
read_no_underscore a (c ∷ s) {n} e = elim (Bool-cases (is_digit c)) [
  | inl digit ↦ rw (read_no_underscore (a * 10 + (c - b'0')) s (rw digit at e)) (ground arith)
  | inr not_digit ↦ cc (rw not_digit at e)
]

split_last-append : (a b : Text) → split_last b ≡ none → split_last (a ++ b'_' ∷ b) ≡ some (a, b)
unfolding split_last
split_last-append [] b e = rw e
split_last-append (c ∷ a) b e = rw (split_last-append a b e)

longer : (c : ℕ) (s : Text) → text_eq (c ∷ s ++ dot_vmdk) dot_vmdk ≡ false
longer c s = elim (Bool-cases (text_eq (c ∷ s ++ dot_vmdk) dot_vmdk)) [
  | inr differs ↦ differs
  | inl same ↦ absurd (
      omega (
        arith,
        length-append s dot_vmdk,
        ap length ((text_eq_iff (c ∷ s ++ dot_vmdk) dot_vmdk).0 same),
      ))
]

stem-append : (s : Text) → stem (s ++ dot_vmdk) ≡ some s
unfolding stem
stem-append [] = refl
stem-append (c ∷ s) = rw (longer c s, stem-append s)

first_digit :
    (fuel n c : ℕ) (t : Text) → (d : ℕ) × (u : Text) × (write_digits fuel n (c ∷ t) ≡ d ∷ u)
unfolding write_digits
first_digit zero n c t = (c, t, refl)
first_digit (suc fuel) n c t = elim (Bool-cases (ltb n 10)) [
  | inl small ↦ (b'0' + n % 10, c ∷ t, rw small)
  | inr large ↦
      let (d, u, e) = first_digit fuel (n / 10) (b'0' + n % 10) (c ∷ t) in (d, u, rw large e)
]

digits_of-cons : (n : ℕ) → (d : ℕ) × (u : Text) × (digits_of n ≡ d ∷ u)
unfolding write_digits
digits_of-cons n = elim (Bool-cases (ltb n 10)) [
  | inl small ↦ (b'0' + n % 10, [], rw small)
  | inr large ↦ let (d, u, e) = first_digit n (n / 10) (b'0' + n % 10) [] in (d, u, rw large e)
]

read_from-digits_of : (n : ℕ) → read_from 0 (digits_of n) ≡ some n
unfolding read_from
read_from-digits_of n = read_from-write_digits (suc n) n [] (omega arith)

read_digits-digits_of : (n : ℕ) → read_digits (digits_of n) ≡ some n
read_digits-digits_of n =
    let (d, u, e) = digits_of-cons n in rw e (ap (read_from 0) (sym e) ∙ read_from-digits_of n)

match_number-parts :
    (name : Text) {s a b : Text} {n : ℕ}
    → stem name ≡ some s
    → split_last s ≡ some (a, b)
    → read_digits b ≡ some n
    → match_number name ≡ some (a, n)
unfolding match_number
match_number-parts name {a = a} stemmed parts read =
    ap numbered_stem stemmed ∙ ap numbered_parts parts ∙ ap (with_number a) read

numbered_name-parts :
    (base : Text) (n : ℕ) → numbered_name base n ≡ (base ++ b'_' ∷ digits_of n) ++ dot_vmdk
unfolding numbered_name
numbered_name-parts base n =
    ap (λ t. base ++ b'_' ∷ t) (write_digits-append (suc n) n [] dot_vmdk)
    ∙ sym (append_assoc base (b'_' ∷ digits_of n) dot_vmdk)

-- Printing a numbered file name and reading it give back the base and the number.
pub match_number-numbered_name :
    (base : Text) (n : ℕ) → match_number (numbered_name base n) ≡ some (base, n)
match_number-numbered_name base n =
    match_number-parts (numbered_name base n)
      (ap stem (numbered_name-parts base n) ∙ stem-append (base ++ b'_' ∷ digits_of n))
      (split_last-append base (digits_of n)
        (read_no_underscore 0 (digits_of n) (read_from-digits_of n)))
      (read_digits-digits_of n)
