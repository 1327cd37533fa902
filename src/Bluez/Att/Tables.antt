-- ===== src/Bluez/Att/Tables.antt =====
-- The tables of opcodes agree.
use minipro.Base.{
  ℕ, zero, suc, ◌+◌, ◌<◌, ◌≡◌, ◌≢◌, refl, ap, Bool, true, false, not, ◌&&◌, ◌||◌, arith, ◌==◌,
}
use minipro.Bluez.Att.Opcodes.{OpType, response, is_request, get_op_type, get_req_opcode, error_rsp}

all_below : ℕ → (ℕ → Bool) → Bool
all_below zero p = true
all_below (suc n) p = p n && all_below n p

all_below_lem : (n : ℕ) (p : ℕ → Bool) (x : ℕ) → all_below n p ≡ true → x < n → p x ≡ true
unfolding all_below
all_below_lem zero p x h lt = absurd (omega arith)
all_below_lem (suc n) p x h lt = ground (arith, all_below_lem n p x)

abbrev pub is_response : OpType → Bool
is_response response = true
is_response _ = false

abbrev agree : ℕ → Bool
agree opcode =
    (not (is_request (get_op_type opcode))
      || (is_response (get_op_type (opcode + 1)) && (get_req_opcode (opcode + 1) == opcode)))
    && ((get_req_opcode opcode == 0)
        || (is_request (get_op_type (get_req_opcode opcode))
            && ((get_req_opcode opcode + 1 == opcode) && is_response (get_op_type opcode))))
    && (not (is_response (get_op_type opcode))
        || ((opcode == error_rsp) || not (get_req_opcode opcode == 0)))

table : all_below 256 agree ≡ true
unfolding all_below get_op_type get_req_opcode
table = refl

-- the parts of a row
both_lem : {a b : Bool} → (a && b) ≡ true → (a ≡ true) × (b ≡ true)
both_lem h = ground arith

or_lem : {a b : Bool} → a ≡ false → (a || b) ≡ true → b ≡ true
or_lem e h = ground arith

not_lem : {a : Bool} → a ≡ true → not a ≡ false
not_lem e = ap not e

equal_lem : {a b : ℕ} → (a == b) ≡ true → a ≡ b
equal_lem h = ground arith

unequal_lem : {a b : ℕ} → a ≢ b → (a == b) ≡ false
unequal_lem ne = ground arith

unmapped : {a : ℕ} → not (a == 0) ≡ true → a ≢ 0
unmapped h = ground arith

error_lem : is_response (get_op_type error_rsp) ≡ true
unfolding get_op_type
error_lem = refl

-- Of any opcode, a byte: if it is a request, then the next opcode is typed as a response, and is mapped back to it;
-- if it is mapped to a request, then that is the opcode before it, and is typed as a request; and an
-- opcode is typed as a response exactly if it is mapped to a request or is the error response.
pub request-response :
    (opcode : ℕ)
    → opcode < 256
    → (is_request (get_op_type opcode) ≡ true
        → (is_response (get_op_type (opcode + 1)) ≡ true) × (get_req_opcode (opcode + 1) ≡ opcode))
      × (get_req_opcode opcode ≢ 0
          → (is_request (get_op_type (get_req_opcode opcode)) ≡ true)
            × (get_req_opcode opcode + 1 ≡ opcode)
            × (is_response (get_op_type opcode) ≡ true))
      × (is_response (get_op_type opcode) ≡ true → opcode ≢ error_rsp → get_req_opcode opcode ≢ 0)
      × (is_response (get_op_type error_rsp) ≡ true)
request-response opcode byte =
    let row = both_lem (all_below_lem 256 agree opcode table byte) in
    let left = both_lem row.0 in
    (
      λ asks. let next = both_lem (or_lem (not_lem asks) left.0) in (next.0, equal_lem next.1),
      λ mapped.
          let known = both_lem (or_lem (unequal_lem mapped) left.1) in
          let before = both_lem known.1 in (known.0, equal_lem before.0, before.1),
      λ answers error.
          let known = or_lem (unequal_lem error) (or_lem (not_lem answers) row.1) in unmapped known,
      error_lem,
    )
