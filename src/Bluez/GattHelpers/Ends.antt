-- ===== src/Bluez/GattHelpers/Ends.antt =====
-- Discoveries end, or go on for ever.
use minipro.Base.{
  ℕ, zero, suc, ◌+◌, ◌-◌, ◌^◌, ◌≤◌, ◌<◌, ◌≡◌, refl, sym, subst, ◌∙◌, Bool, true, false, Option,
  none, some, List, [], ◌∷◌, ◌++◌, arith, if◌then◌else◌, length, drop,
}
use minipro.Base.Bytes.{le16}
use minipro.Bluez.GattHelpers.{Request, result_append, get_le16}
use minipro.Bluez.GattHelpers.Discover.{
  Next, asks, completes, faults, Luck, range_pdu, discovery_op_complete, read_by_grp_type_cb,
  find_by_type_val_cb, discover_chrcs_cb, discover,
}

-- A request that is sent begins further on, and in the range.
abbrev Advances : Request → Next × Request → Type 0
Advances op (asks opcode pdu, next) =
    (op.start_handle < next.start_handle)
    × (next.start_handle ≤ next.end_handle)
    × (next.end_handle ≡ op.end_handle)
Advances op (completes success ecode, next) = Unit {0}
Advances op (faults, next) = ⊥

complete-Advances :
    (success : Bool) (ecode : ℕ) (op next : Request)
    → Advances op (discovery_op_complete success ecode next)
unfolding discovery_op_complete
complete-Advances success ecode op next = tt

group-Advances :
    (luck : Luck) (opcode : ℕ) (pdu : List ℕ) (op : Request)
    → op.end_handle < 2 ^ 16
    → Advances op (read_by_grp_type_cb luck opcode pdu op)
unfolding read_by_grp_type_cb result_append discovery_op_complete
group-Advances luck opcode [] op small = tt
group-Advances luck opcode (data_length ∷ bytes) op small = ground arith

value-Advances :
    (luck : Luck) (opcode : ℕ) (pdu : List ℕ) (op : Request)
    → op.end_handle < 2 ^ 16
    → Advances op (find_by_type_val_cb luck opcode pdu op)
unfolding find_by_type_val_cb result_append discovery_op_complete
value-Advances luck opcode pdu op small = ground arith

abbrev Callback : Type 0
Callback = Luck → (opcode : ℕ) → List ℕ → Request → Next × Request

-- what is asked of a response
abbrev Answers : Type 1
Answers = (end opcode : ℕ) → List ℕ → Type 0

-- how a run of callbacks goes on after a callback that advances
go_on :
    (op : Request) (rounds : ℕ) (rec : (opcode : ℕ) → List ℕ → Request → Option (Next × Request))
    (r : Next × Request)
    → op.end_handle + 1 - op.start_handle < suc rounds
    → ((opcode : ℕ) (pdu : List ℕ) (next : Request)
        → next.end_handle ≡ op.end_handle
        → next.end_handle + 1 - next.start_handle < rounds
        → (success : Bool) × (ecode : ℕ) × (last : Request) × (rec opcode pdu next
            ≡ some (completes success ecode, last)))
    → Advances op r
    → (success : Bool) × (ecode : ℕ) × (last : Request) × (elim r.0 [
      | asks opcode pdu ↦ rec opcode pdu r.1
      | completes success' ecode' ↦ some (completes success' ecode', r.1)
      | faults ↦ some (faults, r.1)
    ]
        ≡ some (completes success ecode, last))
go_on op rounds rec (asks opcode pdu, next) short ih a = ih opcode pdu next a.2 (omega arith)
go_on op rounds rec (completes success ecode, next) short ih a = (success, ecode, next, refl)
go_on op rounds rec (faults, next) short ih a = elim a [ ]

-- A discovery whose callback advances when it is answered like this ends within as many rounds as there
-- are handles left, and one more.
discover_ends :
    (cb : Callback) (Fair : Answers)
    → ((luck : Luck) (opcode : ℕ) (pdu : List ℕ) (op : Request)
        → op.end_handle < 2 ^ 16
        → Fair op.end_handle opcode pdu
        → Advances op (cb luck opcode pdu op))
    → (rounds : ℕ) (luck : ℕ → Luck) (server : ℕ → (opcode : ℕ) → List ℕ → ℕ × List ℕ) (opcode : ℕ)
      (pdu : List ℕ) (end : ℕ) (op : Request)
    → op.end_handle ≡ end
    → end < 2 ^ 16
    → ((round o : ℕ) (p : List ℕ) → Fair end (server round o p).0 (server round o p).1)
    → op.end_handle + 1 - op.start_handle < rounds
    → (success : Bool) × (ecode : ℕ) × (last : Request) × (discover rounds cb luck server opcode pdu
          op
        ≡ some (completes success ecode, last))
unfolding discover
discover_ends cb Fair moves zero luck server opcode pdu end op e small fair short = elim short [ ]
discover_ends cb Fair moves (suc rounds) luck server opcode pdu end op e small fair short =
    let rsp = server rounds opcode pdu in
    go_on op rounds (discover rounds cb luck server) (cb (luck rounds) rsp.0 rsp.1 op) short
      (λ o p next e' short'.
        discover_ends cb Fair moves rounds luck server o p end next (e' ∙ e) small fair short')
      (moves (luck rounds) rsp.0 rsp.1 op (omega arith)
        (subst (λ (x : ℕ). Fair x rsp.0 rsp.1) (sym e) (fair rounds opcode pdu)))

-- Whatever a server answers, and whether or not there is memory or a request can be sent, the discovery
-- of services, of all or of those with a UUID, ends with a call of its callback: after as many
-- responses at most as there are handles from `start` to `end`, and one more.
pub service_discovery_ends :
    (by_uuid : Bool) (luck : ℕ → Luck) (server : ℕ → (opcode : ℕ) → List ℕ → ℕ × List ℕ)
    (opcode : ℕ) (pdu : List ℕ) (op : Request)
    → op.end_handle < 2 ^ 16
    → (success : Bool) × (ecode : ℕ) × (last : Request) × (discover
          (1 + (op.end_handle + 1 - op.start_handle))
          (if by_uuid then find_by_type_val_cb else read_by_grp_type_cb)
          luck
          server
          opcode
          pdu
          op
        ≡ some (completes success ecode, last))
service_discovery_ends true luck server opcode pdu op small =
    discover_ends find_by_type_val_cb (λ _ _ _. Unit {0})
      (λ l o p op' s _. value-Advances l o p op' s) (1 + (op.end_handle + 1 - op.start_handle)) luck
      server opcode pdu op.end_handle op refl small (λ _ _ _. tt) (omega arith)
service_discovery_ends false luck server opcode pdu op small =
    discover_ends read_by_grp_type_cb (λ _ _ _. Unit {0})
      (λ l o p op' s _. group-Advances l o p op' s) (1 + (op.end_handle + 1 - op.start_handle)) luck
      server opcode pdu op.end_handle op refl small (λ _ _ _. tt) (omega arith)

-- the handle of the last entry of a list of entries
abbrev last_handle : List ℕ → ℕ
last_handle [] = 0
last_handle (data_length ∷ bytes) = get_le16 (drop (length bytes - data_length) bytes)

-- A list of entries ends below the end of the range.
abbrev StaysBelow : Answers
StaysBelow end opcode pdu = opcode ≡ 0x09 → last_handle pdu ≤ end

chrcs-Advances :
    (luck : Luck) (opcode : ℕ) (pdu : List ℕ) (op : Request)
    → op.end_handle < 2 ^ 16
    → StaysBelow op.end_handle opcode pdu
    → Advances op (discover_chrcs_cb luck opcode pdu op)
unfolding discover_chrcs_cb result_append discovery_op_complete
chrcs-Advances luck opcode [] op small fair = tt
chrcs-Advances luck opcode (data_length ∷ bytes) op small fair = ground arith

-- The discovery of characteristics ends likewise with a server whose answers stay below the end of the
-- range.
pub characteristic_discovery_ends :
    (luck : ℕ → Luck) (server : ℕ → (opcode : ℕ) → List ℕ → ℕ × List ℕ) (opcode : ℕ) (pdu : List ℕ)
    (op : Request)
    → op.end_handle < 2 ^ 16
    → ((round o : ℕ) (p : List ℕ)
        → StaysBelow op.end_handle (server round o p).0 (server round o p).1)
    → (success : Bool) × (ecode : ℕ) × (last : Request) × (discover
          (1 + (op.end_handle + 1 - op.start_handle))
          discover_chrcs_cb
          luck
          server
          opcode
          pdu
          op
        ≡ some (completes success ecode, last))
characteristic_discovery_ends luck server opcode pdu op small fair =
    discover_ends discover_chrcs_cb StaysBelow chrcs-Advances
      (1 + (op.end_handle + 1 - op.start_handle)) luck server opcode pdu op.end_handle op refl small
      fair (omega arith)

-- a response with one characteristic at the last handle there is
abbrev pub last_of_all : List ℕ
last_of_all = 7 ∷ 0xff ∷ 0xff ∷ 0 ∷ 0 ∷ 0 ∷ 0 ∷ 0 ∷ []

-- As long as there is memory for every result and every request can be sent, and when `end` is not 0xffff, a
-- server that answers every request with a characteristic at handle 0xffff keeps the discovery of
-- characteristics going: no number of rounds completes it. The next request begins at handle 0, since the
-- handle wraps, and so the check against an infinite loop never fails.
pub characteristic_discovery_endless :
    (rounds : ℕ) (luck : ℕ → Luck) (opcode : ℕ) (pdu : List ℕ) (op : Request)
    → op.start_handle < 2 ^ 16
    → op.end_handle < 65535
    → ((round : ℕ) → ((luck round).mem ≡ true) × ((luck round).sends ≡ true))
    → discover rounds discover_chrcs_cb luck (λ _ _ _. (0x09, last_of_all)) opcode pdu op ≡ none
unfolding discover discover_chrcs_cb result_append
characteristic_discovery_endless zero luck opcode pdu op small before lucky = refl
characteristic_discovery_endless (suc rounds) luck opcode pdu op small before lucky =
    let next = record op {
      start_handle = 0;
      results =
          op.results
          ++ (record { opcode = 0x09; pdu = 0xff ∷ 0xff ∷ 0 ∷ 0 ∷ 0 ∷ 0 ∷ 0 ∷ []; data_len = 7 }
              ∷ []);
    } in
    let (m, s) = lucky rounds in
    let ih =
      characteristic_discovery_endless rounds luck 0x08 (range_pdu next ++ le16 0x2803) next
        (omega arith) before lucky in
    ground arith
