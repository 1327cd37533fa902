-- ===== src/MiniPro/Packets/Frame.antt =====
-- What a receiver makes of the bytes of a packet.
use minipro.Base.{
  ℕ, ◌+◌, ◌-◌, ◌*◌, ◌/◌, ◌%◌, ◌^◌, ◌<◌, ◌≡◌, refl, ◌∙◌, ◌&&◌, Option, none, some, List, [], ◌∷◌,
  ◌++◌, arith, ◌==◌, leb, if◌then◌else◌, length, length-append,
}
use minipro.Base.Bytes.{le16, from_le16}
use minipro.Base.Words.{xor_bits-ones}
use minipro.MiniPro.Packets.{Packet, IsPacket, add_all, frame_length, checksum_of, get_bytes}

unfoldable pub sum_of : List ℕ → ℕ
sum_of [] = 0
sum_of (b ∷ bs) = b + sum_of bs

last_word : ℕ → List ℕ → Option (List ℕ × ℕ)
last_word a (b ∷ []) = some ([], from_le16 a b)
last_word a bs = none

-- A list of two bytes or more, cut before its last two, which make a little-endian word.
unfoldable pub cut_word : List ℕ → Option (List ℕ × ℕ)
unfolding last_word
cut_word [] = none
cut_word (a ∷ bs) = elim (cut_word bs) [
  | none ↦ last_word a bs
  | some (body, w) ↦ some (a ∷ body, w)
]

-- The frame of the protocol: 55 aa, the number of bytes behind the parameter, type, operation,
-- parameter, payload, and the complement of the 16-bit sum of all bytes between the 55 aa and itself.
unfoldable pub parse_frame : List ℕ → Option (ℕ × ℕ × ℕ × List ℕ)
parse_frame (h0 ∷ h1 ∷ len ∷ type ∷ operation ∷ parameter ∷ rest) = elim (cut_word rest) [
  | none ↦ none
  | some (payload, word) ↦
      if (h0 == 0x55 && h1 == 0xaa)
        && ((length rest == len)
            && ((sum_of (len ∷ type ∷ operation ∷ parameter ∷ payload) + word) % 2 ^ 16 == 0xffff))
      then some (type, operation, parameter, payload)
      else none
]
parse_frame bytes = none

cut_word-append :
    (payload : List ℕ) (w : ℕ) → w < 2 ^ 16 → cut_word (payload ++ le16 w) ≡ some (payload, w)
unfolding cut_word
cut_word-append [] w h = let same : w % 256 + 256 * (w / 256 % 256) ≡ w = omega arith in rw same
cut_word-append (b ∷ bs) w h = rw (cut_word-append bs w h)

add_all-sum_of : (s : ℕ) (vals : List ℕ) → s < 2 ^ 16 → add_all s vals ≡ (s + sum_of vals) % 2 ^ 16
unfolding add_all sum_of
add_all-sum_of s [] h = omega arith
add_all-sum_of s (v ∷ vals) h = omega (arith, add_all-sum_of ((s + v) % 2 ^ 16) vals)

checksum_lem :
    (p : Packet)
    → checksum_of p
      ≡ 2 ^ 16 - 1 - sum_of (p.len ∷ p.type ∷ p.operation ∷ p.parameter ∷ p.payload) % 2 ^ 16
unfolding checksum_of sum_of
checksum_lem p =
    let start = (p.len + p.type + p.operation + p.parameter) % 2 ^ 16 in
    let sum = add_all-sum_of start p.payload (omega arith) in
    xor_bits-ones 16 (add_all start p.payload) (omega (arith, sum)) ∙ omega (arith, sum)

-- A receiver accepts what `get_bytes` builds from any packet of bytes with a payload of 253 at most, and
-- reads back its fields; a longer payload does not fit the length, a `uint8_t`, and the frame is
-- refused. The packet that `get_bytes` leaves differs in `length_` at most.
pub parse_frame-get_bytes :
    (p : Packet)
    → IsPacket p
    → (parse_frame (get_bytes p).0 ≡ (
        if leb (length p.payload) 253
        then some (p.type, p.operation, p.parameter, p.payload)
        else none))
      × ((get_bytes p).1 ≡ record p { len = (length p.payload + 2) % 2 ^ 8 })
unfolding parse_frame get_bytes sum_of frame_length
parse_frame-get_bytes p is =
    let p' : Packet = record p { len = frame_length p.payload } in
    let sum = checksum_lem p' in
    let size = length-append {0} p.payload (le16 (checksum_of p')) in
    (
      rw (parse_frame, cut_word-append p.payload (checksum_of p') (omega (arith, sum)))
          (ground (arith, sum, size)),
      refl,
    )
