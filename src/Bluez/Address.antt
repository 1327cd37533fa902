-- ===== src/Bluez/Address.antt =====
-- lib/bluez/bluetooth.c: device addresses and the strings that spell them.
pub mod Text
mod Tests
use minipro.Base.{
  ℕ, zero, suc, ◌+◌, ◌-◌, ◌*◌, ◌/◌, ◌%◌, ◌<◌, Bool, true, false, not, ◌&&◌, ◌||◌, List, [], ◌∷◌,
  ◌++◌, ◌==◌, leb, ltb, if◌then◌else◌, length, drop,
}

-- `bdaddr_t`, which is six bytes
pub record Bdaddr : Type 0 where
  pub b0 : ℕ
  pub b1 : ℕ
  pub b2 : ℕ
  pub b3 : ℕ
  pub b4 : ℕ
  pub b5 : ℕ

-- `baswap`
unfoldable pub baswap : Bdaddr → Bdaddr
baswap s = record { b0 = s.b5; b1 = s.b4; b2 = s.b3; b3 = s.b2; b4 = s.b1; b5 = s.b0 }

-- A string is the codes of its characters, without the closing 0. A digit of `%X`:
unfoldable pub hex_digit : ℕ → ℕ
hex_digit n = if ltb n 10 then n + 48 else n + 55

-- `%2.2X` of a byte
unfoldable pub hex_byte : ℕ → List ℕ
hex_byte b = hex_digit (b / 16) ∷ hex_digit (b % 16) ∷ []

abbrev pub colon : ℕ
colon = 58

-- `ba2str`
unfoldable pub ba2str : Bdaddr → List ℕ
unfolding hex_byte
ba2str ba =
    hex_byte ba.b5
    ++ (colon
        ∷ (hex_byte ba.b4
            ++ (colon
                ∷ (hex_byte ba.b3
                    ++ (colon
                        ∷ (hex_byte ba.b2
                            ++ (colon ∷ (hex_byte ba.b1 ++ (colon ∷ hex_byte ba.b0)))))))))

-- `batostr`, for which there is memory
unfoldable pub batostr : Bdaddr → List ℕ
batostr ba = ba2str (baswap ba)

-- `isxdigit`
unfoldable pub isxdigit : ℕ → Bool
isxdigit c = (leb 48 c && leb c 57) || ((leb 65 c && leb c 70) || (leb 97 c && leb c 102))

-- the value of a hexadecimal digit
unfoldable pub digit_value : ℕ → ℕ
digit_value c = if leb c 57 then c - 48 else if leb c 70 then c - 55 else c - 87

-- `strtol(str, NULL, 16)` of a string that begins with a digit, and not with 0x
unfoldable pub strtol_hex : ℕ → List ℕ → ℕ
strtol_hex n [] = n
strtol_hex n (c ∷ cs) =
    let more = strtol_hex (n * 16 + digit_value c) cs in if isxdigit c then more else n

-- the loop of `bachk`
unfoldable pub bachk_loop : List ℕ → Bool
bachk_loop [] = true
bachk_loop (a ∷ []) = false
bachk_loop (a ∷ b ∷ []) = isxdigit a && isxdigit b
bachk_loop (a ∷ b ∷ c ∷ str) =
    let rest = bachk_loop str in isxdigit a && (isxdigit b && ((c == colon) && rest))

-- `bachk(str) >= 0`
unfoldable pub bachk : List ℕ → Bool
bachk str = (length str == 17) && bachk_loop str

-- `str2ba`: whether it returns 0, and the address; a byte keeps the low bits of a number.
unfoldable pub str2ba : List ℕ → Bool × Bdaddr
str2ba str =
    let byte_at = λ (i : ℕ). strtol_hex 0 (drop (3 * i) str) % 256 in
    if bachk str
    then (
      true,
      record {
        b5 = byte_at 0;
        b4 = byte_at 1;
        b3 = byte_at 2;
        b2 = byte_at 3;
        b1 = byte_at 4;
        b0 = byte_at 5;
      },
    )
    else (false, record { b0 = 0; b1 = 0; b2 = 0; b3 = 0; b4 = 0; b5 = 0 })

-- `strtoba`, for which there is memory
unfoldable pub strtoba : List ℕ → Bdaddr
strtoba str = baswap (str2ba str).1
