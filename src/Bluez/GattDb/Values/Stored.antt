-- ===== src/Bluez/GattDb/Values/Stored.antt =====
-- Reading back what was written to a value that the database stores.
use minipro.Base.{
  ℕ, zero, suc, ◌+◌, ◌-◌, ◌^◌, ◌≤◌, ◌<◌, ◌≡◌, refl, ap, false, ◌||◌, List, [], ◌∷◌, ◌++◌,
  append-nil, arith, ◌==◌, ltb, leb, if◌then◌else◌, length, length-append, take, drop, replicate,
  drop-append, take-append, length-take, take-long, drop-long, Bool-cases, inl, inr,
}
use minipro.Bluez.GattDb.{Attribute, u16}
use minipro.Bluez.GattDb.Values.{read_stored, write_stored}

take-append_short : (n : ℕ) (xs ys : List ℕ) → n ≤ length xs → take n (xs ++ ys) ≡ take n xs
take-append_short zero xs ys le = refl
take-append_short (suc n) [] ys le = absurd (omega arith)
take-append_short (suc n) (x ∷ xs) ys le =
    ap (λ zs. x ∷ zs) (take-append_short n xs ys (omega arith))

length-replicate : (n : ℕ) → length {A = ℕ} (replicate n 0) ≡ n
length-replicate zero = refl
length-replicate (suc n) = omega (arith, length-replicate n)

-- what stands before the place that is written: the old bytes, and behind them zeros in a new value,
-- else whatever memory held
abbrev pub before : Attribute → (offset : ℕ) → (rest : List ℕ) → List ℕ
before a offset rest =
    take offset (a.value ++ (if length a.value == 0 then replicate offset 0 else rest))

length-before :
    (a : Attribute) (offset : ℕ) (rest : List ℕ)
    → offset ≤ length a.value + length rest
    → length (before a offset rest) ≡ offset
length-before a offset rest le = elim (Bool-cases (length a.value == 0)) [
  | inl hit ↦ rw hit (
      length-take offset (a.value ++ replicate offset 0)
        (omega (arith, length-append {0} a.value (replicate offset 0), length-replicate offset)))
  | inr miss ↦
      rw miss (length-take offset (a.value ++ rest) (omega (arith, length-append {0} a.value rest)))
]

before_inside :
    (a : Attribute) (offset : ℕ) (rest : List ℕ)
    → offset ≤ length a.value
    → before a offset rest ≡ take offset a.value
before_inside a offset rest le =
    take-append_short offset a.value (if length a.value == 0 then replicate offset 0 else rest) le

grown_lem :
    (a : Attribute) (offset : ℕ) (value rest : List ℕ)
    → length value + offset < 2 ^ 16
    → offset ≤ length a.value + length rest
    → length a.value ≤ offset + length value
    → take (u16 (length value + offset)) (before a offset rest ++ value)
      ≡ before a offset rest ++ (value ++ drop (offset + length value) a.value)
grown_lem a offset value rest small le beyond =
    rw (drop-long (offset + length value) a.value beyond, append-nil value)
      (take-long (u16 (length value + offset)) (before a offset rest ++ value) (
        omega
          (arith, length-append {0} (before a offset rest) value, length-before a offset rest le)))

-- the value after a write
write_stored_lem :
    (a : Attribute) (offset : ℕ) (value rest : List ℕ)
    → 0 < length value
    → length value + offset < 2 ^ 16
    → offset ≤ length a.value + length rest
    → (write_stored a offset value rest).value
      ≡ before a offset rest ++ (value ++ drop (offset + length value) a.value)
unfolding write_stored
write_stored_lem a offset value rest pos small le =
    let some_bytes : (length value == 0) ≡ false = ground arith in
    elim (Bool-cases (
      length a.value == 0
      || (leb (length a.value) offset || ltb (length a.value - offset) (length value)))) [
        | inl grows ↦ rw (some_bytes, grows) (grown_lem a offset value rest small le (ground arith))
        | inr inside ↦ rw (some_bytes, inside, before_inside a offset rest (ground arith)) refl
      ]

-- After a write of at least one byte that ends below 65536, a read at the same offset gives the bytes
-- that were written and then the old bytes behind them. What stands before the offset is as it was,
-- as far as the old value went; the rest of it is zero if the value was empty, and else whatever
-- memory held.
pub read_stored-write_stored :
    (a : Attribute) (offset : ℕ) (value rest : List ℕ)
    → 0 < length value
    → length value + offset < 2 ^ 16
    → offset ≤ length a.value + length rest
    → let b = write_stored a offset value rest in
      (read_stored b offset ≡ (0, value ++ drop (offset + length value) a.value))
      × (take offset b.value ≡ before a offset rest)
unfolding read_stored
read_stored-write_stored a offset value rest pos small le =
    let written = write_stored_lem a offset value rest pos small le in
    let behind' = value ++ drop (offset + length value) a.value in
    let size = length-before a offset rest le in
    let long : ltb (length (before a offset rest ++ behind')) offset ≡ false =
      ground (arith, length-append {0} (before a offset rest) behind') in
    rw (written, long, drop-append (before a offset rest) behind' offset size)
      (refl, take-append (before a offset rest) behind' offset size)
