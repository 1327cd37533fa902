-- ===== src/Bluez/GattClient/Tests.antt =====
-- Long writes and long reads, and the theorems applied to them.
use minipro.Base.{
  ℕ, ◌+◌, ◌-◌, ◌≡◌, ◌≤◌, refl, Bool, true, false, some, List, [], ◌∷◌, ◌++◌, arith, ◌==◌,
  if◌then◌else◌, length, drop,
}
use minipro.Bluez.GattHelpers.{process_error}
use minipro.Bluez.GattHelpers.Discover.{completes}
use minipro.Bluez.GattClient.{LongWriteOp, Flight, prepares, executes, Client}
use minipro.Bluez.GattClient.LongWrite.{
  new_op, prep_pdu, taken, request_create, bt_gatt_client_write_long_value, respond_first, exchange,
  same,
}
use minipro.Bluez.GattClient.LongRead.{ReadLongOp, blob_pdu, read_long}
use minipro.Bluez.GattClient.Accepted.{calls_of}
use minipro.Bluez.GattClient.Called.{accepted, long_writes_answered}
use minipro.Bluez.GattClient.Server.{Server, write_at, serve_all, honest}
use minipro.Bluez.GattClient.Arrived.{always, Arrives, success}
use minipro.Bluez.GattClient.Delivered.{at_rest, long_write-delivers}
use minipro.Bluez.GattClient.Single.{IsSingle, Event, writes, responds, run, run-IsSingle}
use minipro.Bluez.GattClient.Short.{
  read_cb, multiple_ask, begin_request, bt_gatt_client_read_multiple,
}
use minipro.Bluez.GattClient.Collected.{lucky, serves, read_long_ends, read_long-collects}

abbrev fresh : Client
fresh = record {
  mtu = 23;
  next_request_id = 1;
  in_long_write = false;
  reliable_write_session_id = 0;
  long_write_queue = [];
  outstanding = [];
  attempts = 0;
  sent = [];
  told = [];
}

abbrev twenty : List ℕ
twenty =
    1 ∷ 2 ∷ 3 ∷ 4 ∷ 5 ∷ 6 ∷ 7 ∷ 8 ∷ 9 ∷ 10 ∷ 11 ∷ 12 ∷ 13 ∷ 14 ∷ 15 ∷ 16 ∷ 17 ∷ 18 ∷ 19 ∷ 20 ∷ []

-- one long write on its way, and another that waits
abbrev one_waits : Client
one_waits = record fresh {
  next_request_id = 3;
  in_long_write = true;
  long_write_queue = new_op true 5 0 twenty (record fresh { next_request_id = 2 }) ∷ [];
  outstanding = prepares (new_op false 3 0 twenty fresh) ∷ [];
  attempts = 1;
  sent = (record { opcode = 0x16; pdu = prep_pdu (new_op false 3 0 twenty fresh) }) ∷ [];
}

two_writes :
    (bt_gatt_client_write_long_value always true 5 0 twenty
      (bt_gatt_client_write_long_value always false 3 0 twenty fresh).1).1
    ≡ one_waits
unfolding bt_gatt_client_write_long_value taken request_create
two_writes = refl

-- a server that has no room for the second part
abbrev no_room : List Flight → ℕ × List ℕ
no_room (prepares op ∷ fs) =
    if op.index == 0 then (0x17, prep_pdu op) else (0x01, 0x16 ∷ 3 ∷ 0 ∷ 0x09 ∷ [])
no_room other = honest other

abbrev two_events : List Event
two_events = writes false 3 0 twenty ∷ writes true 5 0 twenty ∷ []

long_writes_answered_example :
    let r = exchange always no_room 50 (run always two_events (at_rest fresh)) in
    (length r.outstanding ≡ 0)
    × (length r.long_write_queue ≡ 0)
    × (calls_of 2 r.told ≡ 0 + accepted always 2 two_events (at_rest fresh))
unfolding run
long_writes_answered_example =
    long_writes_answered always two_events no_room 50 2 fresh (omega arith) (omega arith)
      (omega arith)

accepted_once : accepted always 2 two_events (at_rest fresh) ≡ 1
unfolding accepted
accepted_once = refl

-- The callbacks are told of the error, and the parts are dropped.
both_fail :
    (exchange always no_room 6 one_waits).told
    ≡ (record { id = 2; success = false; reliable_error = false; att_ecode = 9 })
      ∷ (record { id = 1; success = false; reliable_error = false; att_ecode = 9 })
      ∷ []
unfolding exchange honest same process_error
both_fail = refl

abbrev empty_server : Server
empty_server = record { value = 0 ∷ []; prepared = [] }

long_write-delivers_example : Arrives 3 empty_server (write_at 1 twenty (0 ∷ [])) (success 1 ∷ []) (
    exchange always honest 22
      (bt_gatt_client_write_long_value always true 3 1 twenty (at_rest fresh)).1)
unfolding serve_all
long_write-delivers_example =
    long_write-delivers true 3 1 twenty (0 ∷ []) empty_server fresh 22 (omega arith) (omega arith)
      (omega arith) (omega arith) (omega arith) refl (omega arith)

-- the value in two parts
abbrev first_op : LongWriteOp
first_op = new_op false 3 0 twenty fresh

-- When the MTU grows after the first part was sent, the first part is taken for the last one: the write ends
-- with success after 18 bytes of 20.
truncated :
    (respond_first always 0x17
      (prep_pdu first_op)
      (prepares first_op ∷ [])
      (record fresh { mtu = 64; in_long_write = true })).outstanding
    ≡ executes (record first_op { success = true }) ∷ []
unfolding respond_first
truncated = refl

abbrev read_op : ReadLongOp
read_op = record { value_handle = 3; offset = 2; value = [] }

read_long_ends_example :
    (success : Bool) × (ecode : ℕ) × (last : ReadLongOp) × (read_long 511 lucky 23
        (λ round pdu. (0x0D, twenty))
        (blob_pdu read_op)
        read_op
      ≡ some (completes success ecode, last))
    × (length last.value ≤ 0 + (512 - 2))
read_long_ends_example =
    read_long_ends 511 lucky 23 (λ round pdu. (0x0D, twenty)) (blob_pdu read_op) read_op
      (omega arith) (omega arith) (omega arith)

read_long-collects_example :
    (last : ReadLongOp) × (read_long 40 lucky 23
        (serves 23 (twenty ++ twenty))
        (blob_pdu read_op)
        read_op
      ≡ some (completes true 0, last))
    × (last.value ≡ drop 2 (twenty ++ twenty))
read_long-collects_example =
    read_long-collects 40 23 (twenty ++ twenty) read_op (omega arith) (omega arith) (omega arith)
      (omega arith)

-- Two long writes and the first two responses: the second one waits until the first has been executed.
run-IsSingle_example : IsSingle (
    run always
      (writes false 3 0 twenty ∷ writes true 5 0 twenty ∷ responds 0x17 [] ∷ responds 0x17 [] ∷ [])
      (at_rest fresh))
run-IsSingle_example =
    run-IsSingle always
      (writes false 3 0 twenty ∷ writes true 5 0 twenty ∷ responds 0x17 [] ∷ responds 0x17 [] ∷ [])
      fresh

-- Two handles are read together; one is not.
reads_two :
    (bt_gatt_client_read_multiple always (3 ∷ 0x0104 ∷ []) fresh).1.sent
    ≡ (record { opcode = 0x0E; pdu = 3 ∷ 0 ∷ 4 ∷ 1 ∷ [] }) ∷ []
unfolding bt_gatt_client_read_multiple begin_request multiple_ask request_create
reads_two = refl

reads_one : bt_gatt_client_read_multiple always (3 ∷ []) fresh ≡ (0, fresh)
unfolding bt_gatt_client_read_multiple multiple_ask
reads_one = refl

-- A read that fails gives no value, and the length of the error response for it.
wrong_length : (read_cb 0x01 (0x0A ∷ 3 ∷ 0 ∷ 0x02 ∷ [])).value_length ≡ 4
unfolding read_cb
wrong_length = refl
