-- ===== src/Devices/DeviceIds.antt =====
-- The id of a PCI device, as `hex(n % 2**16).lstrip` of the characters 0 and x writes it.
use cloudify_vsphere_plugin.Common.{
  ℕ, zero, suc, ◌+◌, ◌*◌, ◌/◌, ◌%◌, ◌<◌, ◌≡◌, refl, ap, ◌∙◌, Text, Option, none, some, [], ◌∷◌, ℤ,
  pos, negsuc, pos_part, neg_part, hex_digit, ◌==◌, false, ◌||◌, true, Bool, Bool-cases, inl, inr,
  ◌⊎◌, arith, if◌then◌else◌,
}
use cloudify_vsphere_plugin.Devices.Pci.{
  hex_char, hex_digits, hex, lstrip_0x, low_word, device_id_text,
}

-- The number that hexadecimal digits stand for, after one that was read before them.
abbrev read_hex : ℕ → Text → Option ℕ
read_hex n [] = some n
read_hex n (c ∷ s) = elim (hex_digit c) [ none ↦ none | some d ↦ read_hex (n * 16 + d) s ]

abbrev pow16 : ℕ → ℕ
pow16 zero = 1
pow16 (suc k) = 16 * pow16 k

hex_digit-hex_char : (d : ℕ) → d < 16 → hex_digit (hex_char d) ≡ some d
hex_digit-hex_char d h = ground arith

read_hex-step :
    (a c d : ℕ) (s : Text) → hex_digit c ≡ some d → read_hex a (c ∷ s) ≡ read_hex (a * 16 + d) s
read_hex-step a c d s h = ground arith

read_hex-char :
    (a d : ℕ) (s : Text) → d < 16 → read_hex a (hex_char d ∷ s) ≡ read_hex (a * 16 + d) s
read_hex-char a d s h = read_hex-step a (hex_char d) d s (hex_digit-hex_char d h)

hex_digits-zero : (fuel : ℕ) (out : Text) → hex_digits fuel 0 out ≡ out
unfolding hex_digits
hex_digits-zero zero out = refl
hex_digits-zero (suc fuel) out = refl

hex_digits-step :
    (fuel n : ℕ) (out : Text)
    → 0 < n
    → hex_digits (suc fuel) n out ≡ hex_digits fuel (n / 16) (hex_char (n % 16) ∷ out)
unfolding hex_digits
hex_digits-step fuel n out h = rw (differs)
  where
    differs : (n == 0) ≡ false
    differs = ground arith

read_hex-hex_digits :
    (fuel n : ℕ) (out : Text) → n < pow16 fuel → read_hex 0 (hex_digits fuel n out) ≡ read_hex n out
unfolding hex_digits
read_hex-hex_digits zero n out h = ap (λ m. read_hex m out) (omega arith)
read_hex-hex_digits (suc fuel) n out h = elim (Bool-cases (n == 0)) [
  | inl none_left ↦ rw none_left (ap (λ m. read_hex m out) (ground arith))
  | inr more ↦ rw more (
      read_hex-hex_digits fuel (n / 16) (hex_char (n % 16) ∷ out) (omega arith)
      ∙ read_hex-char (n / 16) (n % 16) out (omega arith)
      ∙ ap (λ m. read_hex m out) (omega arith))
]

lstrip-char : (d : ℕ) (s : Text) → 0 < d → d < 16 → lstrip_0x (hex_char d ∷ s) ≡ hex_char d ∷ s
unfolding lstrip_0x
lstrip-char d s pos_d small = rw (kept)
  where
    kept : (hex_char d == b'0' || hex_char d == b'x') ≡ false
    kept = ground arith

-- The first digit is not 0, and the digits of a positive number stay.
lstrip-hex_digits :
    (fuel n : ℕ) (out : Text)
    → 0 < n
    → n < pow16 fuel
    → lstrip_0x (hex_digits fuel n out) ≡ hex_digits fuel n out
lstrip-hex_digits zero n out p h = absurd (omega arith)
lstrip-hex_digits (suc fuel) n out p h = elim (Bool-cases (n / 16 == 0)) [
  | inl last ↦ rw (hex_digits-step fuel n out p) (one_digit (ground arith))
  | inr more ↦
      rw (hex_digits-step fuel n out p)
        (lstrip-hex_digits fuel (n / 16) (hex_char (n % 16) ∷ out) (ground arith) (omega arith))
]
  where
    one_digit :
        n / 16 ≡ 0
        → lstrip_0x (hex_digits fuel (n / 16) (hex_char (n % 16) ∷ out))
          ≡ hex_digits fuel (n / 16) (hex_char (n % 16) ∷ out)
    one_digit e =
        rw (e, hex_digits-zero fuel (hex_char (n % 16) ∷ out))
          (lstrip-char (n % 16) out (omega arith) (omega arith))

lstrip-prefix :
    (b : Bool) (s : Text)
    → b ≡ false
    → lstrip_0x (b'0' ∷ b'x' ∷ (if b then b'0' ∷ [] else s)) ≡ lstrip_0x s
unfolding lstrip_0x
lstrip-prefix false s h = refl
lstrip-prefix true s h = cc

lstrip-hex : (n : ℕ) → n < 65536 → read_hex 0 (lstrip_0x (hex n)) ≡ some n
unfolding hex lstrip_0x
lstrip-hex zero h = refl
lstrip-hex (suc n) h =
    ap (read_hex 0) (
      lstrip-prefix (suc n == 0) (hex_digits 4 (suc n) []) (ground arith)
      ∙ lstrip-hex_digits 4 (suc n) [] (omega arith) (omega arith))
    ∙ read_hex-hex_digits 4 (suc n) [] (omega arith)

low_word-small : (n : ℤ) → low_word n < 65536
low_word-small (pos n) = omega arith
low_word-small (negsuc n) = omega arith

low_word-part :
    (n : ℤ)
    → (q : ℤ) × (pos_part n + 65536 * neg_part q ≡ neg_part n + low_word n + 65536 * pos_part q)
low_word-part (pos n) = (pos (n / 65536), omega arith)
low_word-part (negsuc n) = (negsuc (n / 65536), omega arith)

-- A numeral has at least one digit.
abbrev pub read_number : Text → Option ℕ
read_number [] = none
read_number (c ∷ s) = read_hex 0 (c ∷ s)

read_number-positive :
    (t : Text) (k : ℕ) → read_hex 0 t ≡ some (suc k) → read_number t ≡ some (suc k)
read_number-positive [] k h = absurd (fails (some_inj h))
  where
    some_inj : some 0 ≡ some (suc k) → 0 ≡ suc k
    some_inj e = cc

    fails : 0 ≡ suc k → ⊥
    fails e = omega arith
read_number-positive (c ∷ s) k h = h

written :
    (m : ℕ)
    → m < 65536
    → ((m ≡ 0) × (lstrip_0x (hex m) ≡ [])) ⊎ ((0 < m) × (read_number (lstrip_0x (hex m)) ≡ some m))
unfolding hex lstrip_0x
written zero h = inl (refl, refl)
written (suc k) h =
    inr (omega arith, read_number-positive (lstrip_0x (hex (suc k))) k (lstrip-hex (suc k) h))

-- What is left of the signed id of a device, after some multiple of 2^16 is taken away, is a number
-- m of 16 bits. If m is 0, then the id that is written is the empty text; otherwise it is a
-- hexadecimal numeral, with at least one digit, of the value m.
pub device_id_text_read :
    (n : ℤ)
    → (m : ℕ) × (m < 65536)
      × (((m ≡ 0) × (device_id_text n ≡ []))
          ⊎ ((0 < m) × (read_number (device_id_text n) ≡ some m)))
      × (q : ℤ) × (pos_part n + 65536 * neg_part q ≡ neg_part n + m + 65536 * pos_part q)
unfolding device_id_text
device_id_text_read n =
    let (q, part) = low_word-part n in
    (low_word n, low_word-small n, written (low_word n) (low_word-small n), q, part)
