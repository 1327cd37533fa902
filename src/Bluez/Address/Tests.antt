-- ===== src/Bluez/Address/Tests.antt =====
-- The address in the program's `main`, and the theorem applied to it.
use minipro.Base.{ℕ, ◌≡◌, ◌⊎◌, true, false, List, [], ◌∷◌, arith}
use minipro.Bluez.Address.{Bdaddr, ba2str, batostr, bachk, str2ba, strtoba}
use minipro.Bluez.Address.Text.{zero_address, str2ba-ba2str}

-- the device that the program connects to
abbrev the_minipro : Bdaddr
the_minipro = record { b5 = 0xf4; b4 = 0x02; b3 = 0x07; b2 = 0xc6; b1 = 0xc7; b0 = 0xb4 }

abbrev short_text : List ℕ
short_text = 70 ∷ 52 ∷ 58 ∷ []

str2ba-ba2str_example :
    (str2ba (ba2str the_minipro) ≡ (true, the_minipro))
    × (strtoba (batostr the_minipro) ≡ the_minipro)
    × (((bachk short_text ≡ true) × ((str2ba short_text).0 ≡ true))
        ⊎ ((bachk short_text ≡ false) × (str2ba short_text ≡ (false, zero_address))))
str2ba-ba2str_example = str2ba-ba2str the_minipro short_text (omega arith)
