-- ===== src/Bluez/Att/Heard.antt =====
-- Who hears of a PDU that is received.
use minipro.Base.{
  ℕ, zero, suc, ◌<◌, ◌≡◌, ◌≢◌, refl, sym, ap, ◌∙◌, Bool, true, false, not, ◌&&◌, ◌||◌, Option, some,
  List, [], ◌∷◌, ◌++◌, append_assoc, arith, ◌==◌, if◌then◌else◌, length, All,
}
use minipro.Bluez.Att.{Notify, Event, notified, Att}
use minipro.Bluez.Att.Opcodes.{opcode_match}
use minipro.Bluez.Att.Calls.{is_empty}
use minipro.Bluez.Att.Life.{perform_all}
use minipro.Bluez.Att.Reader.{find_notify, first_id, next_notify, tell, notify_loop}

-- the handlers that are called, the latest first
abbrev pub heard : (opcode : ℕ) (pdu : List ℕ) → List Notify → List Event → List Event
heard opcode pdu [] log = log
heard opcode pdu (n ∷ ns) log = heard opcode pdu ns (
    if opcode_match n.opcode opcode && not (n.callback == 0)
    then notified n.callback opcode pdu n.user_data ∷ log
    else log)

-- whether one of the handlers is for the opcode
abbrev pub any_match : ℕ → List Notify → Bool
any_match opcode [] = false
any_match opcode (n ∷ ns) = opcode_match n.opcode opcode || any_match opcode ns

-- Ids differ from all that stand before them.
abbrev pub AreDistinct : List Notify → List Notify → Type 0
AreDistinct before [] = Unit {0}
AreDistinct before (n ∷ ns) =
    All (λ (m : Notify). m.id ≢ n.id) before × AreDistinct (before ++ (n ∷ [])) ns

find_lem :
    (before : List Notify) (n : Notify) (ns : List Notify)
    → All (λ (m : Notify). m.id ≢ n.id) before
    → (find_notify n.id (before ++ (n ∷ ns)) ≡ some n)
      × (next_notify n.id (before ++ (n ∷ ns)) ≡ first_id ns)
find_lem [] n ns d = ground arith
find_lem (m ∷ ms) n ns d = let rest = find_lem ms n ns d.1 in ground arith

not_empty :
    (before : List Notify) (n : Notify) (ns : List Notify) → is_empty (before ++ (n ∷ ns)) ≡ false
not_empty [] n ns = refl
not_empty (m ∷ ms) n ns = refl

-- the bearer with another log
abbrev with_log : Att → List Event → Att
with_log att log = record att { log = log }

-- a handler whose callback does nothing to the bearer
told_quietly :
    (opcode : ℕ) (pdu : List ℕ) (n : Notify) (att : Att)
    → (if opcode_match n.opcode opcode then tell opcode pdu n [] att else att)
      ≡ with_log att (
          if opcode_match n.opcode opcode && not (n.callback == 0)
          then notified n.callback opcode pdu n.user_data ∷ att.log
          else att.log)
unfolding tell perform_all
told_quietly opcode pdu n att = ground arith

or_swap : (a b c : Bool) → ((a || b) || c) ≡ (b || (a || c))
or_swap true true c = refl
or_swap true false c = refl
or_swap false true c = refl
or_swap false false c = refl

one_round :
    (n : Notify) (next : Option ℕ) (rounds opcode : ℕ) (pdu : List ℕ) (found : Bool) (att : Att)
    → find_notify n.id att.notify_list ≡ some n
    → next_notify n.id att.notify_list ≡ next
    → is_empty att.notify_list ≡ false
    → notify_loop (suc rounds) (some n.id) opcode pdu [] found att
      ≡ notify_loop rounds next opcode pdu [] (opcode_match n.opcode opcode || found) (
          with_log att (
            if opcode_match n.opcode opcode && not (n.callback == 0)
            then notified n.callback opcode pdu n.user_data ∷ att.log
            else att.log))
unfolding notify_loop tell perform_all
one_round n next rounds opcode pdu found att f x full = ground arith

quiet_loop :
    (before ns : List Notify) (rounds opcode : ℕ) (pdu : List ℕ) (found : Bool) (att : Att)
    → att.notify_list ≡ before ++ ns
    → AreDistinct before ns
    → length ns < rounds
    → notify_loop rounds (first_id ns) opcode pdu [] found att
      ≡ (found || any_match opcode ns, with_log att (heard opcode pdu ns att.log))
unfolding notify_loop
quiet_loop before ns zero opcode pdu found att whole d enough = elim enough [ ]
quiet_loop before [] (suc rounds) opcode pdu found att whole d enough = ground arith
quiet_loop before (n ∷ ns) (suc rounds) opcode pdu found att whole d enough =
    let (found', next') = find_lem before n ns d.0 in
    let find_eq : find_notify n.id att.notify_list ≡ some n =
      ap (find_notify n.id) whole ∙ found' in
    let next_eq : next_notify n.id att.notify_list ≡ first_id ns =
      ap (next_notify n.id) whole ∙ next' in
    let full : is_empty att.notify_list ≡ false = ap is_empty whole ∙ not_empty before n ns in
    let hit = opcode_match n.opcode opcode in
    let log =
      (if hit && not (n.callback == 0)
        then notified n.callback opcode pdu n.user_data ∷ att.log
        else att.log) in
    let whole' : att.notify_list ≡ (before ++ (n ∷ [])) ++ ns =
      whole ∙ sym (append_assoc before (n ∷ []) ns) in
    one_round n (first_id ns) rounds opcode pdu found att find_eq next_eq full
    ∙ quiet_loop (before ++ (n ∷ [])) ns rounds opcode pdu (hit || found) (with_log att log) whole'
        d.1 (omega arith)
    ∙ ap (λ (b : Bool). (b, with_log att (heard opcode pdu ns log)))
        (or_swap hit found (any_match opcode ns))

-- When every handler has its own id and the callbacks leave the bearer alone, the loop of
-- `handle_notify` ends by itself within its rounds, having called each handler for the opcode once, in
-- order, and it finds one exactly if there is one.
pub notify_loop-heard :
    (opcode : ℕ) (pdu : List ℕ) (att : Att) (rounds : ℕ)
    → AreDistinct [] att.notify_list
    → length att.notify_list < rounds
    → notify_loop rounds (first_id att.notify_list) opcode pdu [] false att ≡ (
      any_match opcode att.notify_list,
      record att { log = heard opcode pdu att.notify_list att.log },
    )
notify_loop-heard opcode pdu att rounds d enough =
    quiet_loop [] att.notify_list rounds opcode pdu false att refl d enough
