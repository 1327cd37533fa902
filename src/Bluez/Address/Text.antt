-- ===== src/Bluez/Address/Text.antt =====
-- Addresses come back from the strings that spell them.
use minipro.Base.{
  ℕ, ◌/◌, ◌%◌, ◌<◌, ◌≡◌, ◌⊎◌, inl, inr, Bool-cases, refl, true, false, List, [], ◌∷◌, arith,
}
use minipro.Base.Bytes.{IsByte}
use minipro.Bluez.Address.{
  Bdaddr, baswap, hex_digit, hex_byte, colon, ba2str, batostr, isxdigit, digit_value, strtol_hex,
  bachk_loop, bachk, str2ba, strtoba,
}

abbrev pub IsBdaddr : Bdaddr → Type 0
IsBdaddr a = IsByte a.b0 × IsByte a.b1 × IsByte a.b2 × IsByte a.b3 × IsByte a.b4 × IsByte a.b5

isxdigit-hex_digit : (n : ℕ) → n < 16 → isxdigit (hex_digit n) ≡ true
unfolding isxdigit hex_digit
isxdigit-hex_digit n h = ground arith

digit_value-hex_digit : (n : ℕ) → n < 16 → digit_value (hex_digit n) ≡ n
unfolding digit_value hex_digit
digit_value-hex_digit n h = ground arith

high : (b : ℕ) → b < 256 → isxdigit (hex_digit (b / 16)) ≡ true
high b h = isxdigit-hex_digit (b / 16) (omega arith)

low : (b : ℕ) → isxdigit (hex_digit (b % 16)) ≡ true
low b = isxdigit-hex_digit (b % 16) (omega arith)

-- the byte that two digits before a colon or the end spell
strtol_hex-byte :
    (b : ℕ) (rest : List ℕ)
    → b < 256
    → (strtol_hex 0 (hex_digit (b / 16) ∷ hex_digit (b % 16) ∷ (colon ∷ rest)) % 256 ≡ b)
      × (strtol_hex 0 (hex_digit (b / 16) ∷ hex_digit (b % 16) ∷ []) % 256 ≡ b)
unfolding strtol_hex
strtol_hex-byte b rest h =
    let stop : isxdigit colon ≡ false = (unfold isxdigit in refl) in
    let hv = digit_value-hex_digit (b / 16) (omega arith) in
    let lv = digit_value-hex_digit (b % 16) (omega arith) in
    (rw (high b h, low b, stop, hv, lv) (omega arith), rw (high b h, low b, hv, lv) (omega arith))

bachk-ba2str : (a : Bdaddr) → IsBdaddr a → bachk (ba2str a) ≡ true
unfolding bachk bachk_loop ba2str hex_byte
bachk-ba2str a is = rw (
  high a.b0 is.0,
  low a.b0,
  high a.b1 is.1,
  low a.b1,
  high a.b2 is.2,
  low a.b2,
  high a.b3 is.3,
  low a.b3,
  high a.b4 is.4,
  low a.b4,
  high a.b5 is.5,
  low a.b5,
)

read_back : (a : Bdaddr) → IsBdaddr a → str2ba (ba2str a) ≡ (true, a)
unfolding str2ba ba2str hex_byte
read_back a is = rw (
  str2ba,
  bachk-ba2str a is,
  (strtol_hex-byte a.b5 _ is.5).0,
  (strtol_hex-byte a.b4 _ is.4).0,
  (strtol_hex-byte a.b3 _ is.3).0,
  (strtol_hex-byte a.b2 _ is.2).0,
  (strtol_hex-byte a.b1 _ is.1).0,
  (strtol_hex-byte a.b0 [] is.0).1,
)

abbrev pub zero_address : Bdaddr
zero_address = record { b0 = 0; b1 = 0; b2 = 0; b3 = 0; b4 = 0; b5 = 0 }

accepted_or_not :
    (str : List ℕ)
    → ((bachk str ≡ true) × ((str2ba str).0 ≡ true))
      ⊎ ((bachk str ≡ false) × (str2ba str ≡ (false, zero_address)))
unfolding str2ba
accepted_or_not str = elim (Bool-cases (bachk str)) [
  | inl good ↦ inl (good, rw good)
  | inr bad ↦ inr (bad, rw bad)
]

-- Reading the string of an address gives the address back, in the order of `ba2str` as in that of
-- `batostr`; a string is read without an error exactly if `bachk` accepts it, and one that it refuses
-- gives the zero address.
pub str2ba-ba2str :
    (a : Bdaddr) (str : List ℕ)
    → IsBdaddr a
    → (str2ba (ba2str a) ≡ (true, a))
      × (strtoba (batostr a) ≡ a)
      × (((bachk str ≡ true) × ((str2ba str).0 ≡ true))
          ⊎ ((bachk str ≡ false) × (str2ba str ≡ (false, zero_address))))
unfolding batostr strtoba baswap
str2ba-ba2str a str is = (
  read_back a is,
  rw (read_back (baswap a) (is.5, is.4, is.3, is.2, is.1, is.0)),
  accepted_or_not str,
)
