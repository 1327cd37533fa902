-- ===== src/Bluez/Att/Signed.antt =====
-- Signed commands, as they are made and as they are received.
use minipro.Base.{
  ℕ, ◌+◌, ◌-◌, ◌≤◌, ◌≡◌, refl, sym, ap, ◌∙◌, false, not, ◌||◌, some, List, [], ◌∷◌, ◌++◌, arith,
  ltb, if_lem, option_lem, length, length-append, take-length, drop-length, take,
}
use minipro.Bluez.Att.{
  Att, Memory, Made, refused, overrun, made, signer, u16, signature_len, encode_pdu,
}
use minipro.Bluez.Att.Reader.{sign_again, handle_signed}

take_self {ℓ} : {A : Type ℓ} (xs : List A) → take (length xs) xs ≡ xs
take_self [] = refl
take_self (x ∷ xs) = ap (λ (l : List _). x ∷ l) (take_self xs)

split_lem :
    (body signature : List ℕ)
    → length signature ≡ 12
    → length (body ++ signature) - signature_len ≡ length body
split_lem body signature twelve = omega (arith, length-append body signature)

handle_signed-sign_again :
    (body signature : List ℕ) (att : Att)
    → 2 ≤ length body
    → length signature ≡ 12
    → handle_signed (body ++ signature) att ≡ sign_again body signature att
unfolding handle_signed
handle_signed-sign_again body signature att long twelve =
    let enough : ltb (length (body ++ signature)) (2 + signature_len) ≡ false =
      ground (arith, length-append body signature) in
    rw (
      enough,
      split_lem body signature twelve,
      take-length body signature,
      drop-length body signature,
    )

-- A signed command of two bytes at least is let through, or not, whatever the eight bytes of its
-- signature are that stand behind the counter: the signature is made again, and not compared with the
-- one that was received.
pub handle_signed_forged :
    (body : List ℕ) (c0 c1 c2 c3 : ℕ) (code forged : List ℕ) (att : Att)
    → 2 ≤ length body
    → length code ≡ 8
    → length forged ≡ 8
    → handle_signed (body ++ (c0 ∷ c1 ∷ c2 ∷ c3 ∷ code)) att
      ≡ handle_signed (body ++ (c0 ∷ c1 ∷ c2 ∷ c3 ∷ forged)) att
unfolding sign_again
handle_signed_forged body c0 c1 c2 c3 code forged att long eight eight' =
    handle_signed-sign_again body (c0 ∷ c1 ∷ c2 ∷ c3 ∷ code) att long (omega arith)
    ∙ sym (handle_signed-sign_again body (c0 ∷ c1 ∷ c2 ∷ c3 ∷ forged) att long (omega arith))

-- what may be said of a PDU that was encoded, or not
abbrev pub Encodes : Att → (opcode : ℕ) → List ℕ → Made (List ℕ) → Type 0
Encodes att opcode body refused = Unit {0}
Encodes att opcode body overrun = 65523 ≤ length body
Encodes att opcode body (made bytes) =
    (length bytes ≤ att.mtu) × (take (length (opcode ∷ body)) bytes ≡ opcode ∷ body)

-- When signatures are 12 bytes long, what `encode_pdu` makes fits into the MTU and begins with the opcode
-- and the body, and memory is only overrun by a body of 65523 bytes or more, whose length with what
-- is put around it does not fit the `uint16_t`.
pub encode_pdu_bounds :
    (att : Att) (opcode : ℕ) (body : List ℕ) (mem : Memory)
    → ((key message : List ℕ) (cnt : ℕ) (signature : List ℕ)
        → att.crypto key message cnt ≡ some signature
        → length signature ≡ 12)
    → Encodes att opcode body (encode_pdu att opcode body mem)
unfolding encode_pdu
encode_pdu_bounds att opcode body mem twelve =
    let P = Encodes att opcode body in
    option_lem P (signer att opcode)
      (λ _.
        if_lem P (ltb att.mtu (u16 (1 + length body)) || not mem.pdu_mem) (λ _. tt)
          λ fits.
            if_lem P (ltb (u16 (1 + length body)) (1 + length body)) (λ wraps. ground arith)
              λ whole. (ground arith, take_self (opcode ∷ body)))
      (λ sign _.
        let pdu_len = 1 + signature_len + length body in
        if_lem P (ltb att.mtu (u16 pdu_len) || not mem.pdu_mem) (λ _. tt)
          λ fits.
            if_lem P (ltb (u16 pdu_len) pdu_len) (λ wraps. ground arith)
              λ whole.
                option_lem P (sign.counter mem.sign_cnt) (λ _. tt)
                  λ cnt _.
                    option_lem P (att.crypto sign.key (opcode ∷ body) cnt) (λ _. tt)
                      λ signature e. (
                        ground (
                          arith,
                          twelve sign.key (opcode ∷ body) cnt signature e,
                          length-append body signature,
                        ),
                        take-length (opcode ∷ body) signature,
                      ))
