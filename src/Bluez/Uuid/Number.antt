-- ===== src/Bluez/Uuid/Number.antt =====
-- What the 128-bit expansion of a UUID stands for.
use Prim.Native.Nat.{compare}
use minipro.Base.{ℕ, suc, ◌+◌, ◌*◌, ◌≤◌, ◌<◌, ◌≡◌, refl, List, [], ◌∷◌, arith, length, All}
use minipro.Base.Bytes.{IsByte}
use minipro.Bluez.Uuid.{
  Uuid, unspec, uuid16, uuid32, uuid128, uuid_to_uuid128, u128_bytes, memcmp, IsUuid, number_from,
  uuid_number,
}

-- 256 ^ n, by the recursion that the proofs use
unfoldable pub weight : List ℕ → ℕ
weight [] = 1
weight (b ∷ bs) = 256 * weight bs

number_from_lem : (n : ℕ) (bs : List ℕ) → number_from n bs ≡ n * weight bs + number_from 0 bs
unfolding number_from weight
number_from_lem n [] = omega arith
number_from_lem n (b ∷ bs) =
    omega (arith, number_from_lem (n * 256 + b) bs, number_from_lem (0 * 256 + b) bs)

mul_mono : (a b w : ℕ) → a ≤ b → a * w ≤ b * w
mul_mono a b w h = grind arith

-- The most significant byte decides.
lex : (x y w m n : ℕ) → m < w → x < y → x * w + m < y * w + n
lex x y w m n h k = omega (arith, mul_mono (suc x) y w k)

number-lt-weight : (bs : List ℕ) → All IsByte bs → number_from 0 bs < weight bs
unfolding number_from weight
number-lt-weight [] h = omega arith
number-lt-weight (b ∷ bs) h = omega (
  arith,
  number_from_lem (0 * 256 + b) bs,
  number-lt-weight bs h.1,
  mul_mono b 255 (weight bs) (omega arith),
)

weight_eq : (xs ys : List ℕ) → length xs ≡ length ys → weight xs ≡ weight ys
unfolding weight
weight_eq [] [] h = refl
weight_eq [] (y ∷ ys) h = absurd (omega arith)
weight_eq (x ∷ xs) [] h = absurd (omega arith)
weight_eq (x ∷ xs) (y ∷ ys) h = omega (arith, weight_eq xs ys (omega arith))

-- `memcmp` orders buffers of one size as the numbers that they spell.
pub memcmp-compare :
    (xs ys : List ℕ)
    → length xs ≡ length ys
    → All IsByte xs
    → All IsByte ys
    → memcmp xs ys ≡ compare (number_from 0 xs) (number_from 0 ys)
unfolding memcmp number_from
memcmp-compare [] [] e hx hy = refl
memcmp-compare [] (y ∷ ys) e hx hy = absurd (omega arith)
memcmp-compare (x ∷ xs) [] e hx hy = absurd (omega arith)
memcmp-compare (x ∷ xs) (y ∷ ys) e hx hy = ground (
  arith,
  memcmp-compare xs ys (omega arith) hx.1 hy.1,
  number_from_lem (0 * 256 + x) xs,
  number_from_lem (0 * 256 + y) ys,
  weight_eq xs ys (omega arith),
  lex x y (weight xs) (number_from 0 xs) (number_from 0 ys) (number-lt-weight xs hx.1),
  lex y x (weight ys) (number_from 0 ys) (number_from 0 xs) (number-lt-weight ys hy.1),
)

-- The 128-bit expansion of a UUID spells its number.
pub expand-number :
    (u dst : Uuid) → IsUuid u → number_from 0 (u128_bytes (uuid_to_uuid128 u dst)) ≡ uuid_number u
unfolding uuid_to_uuid128 uuid_number
expand-number unspec dst h = absurd h
expand-number (uuid16 v) dst h = omega arith
expand-number (uuid32 v) dst h = omega arith
expand-number (uuid128 bs) dst h = refl
