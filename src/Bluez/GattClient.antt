-- ===== src/Bluez/GattClient.antt =====
-- lib/bluez/gatt-client.c: the reads and writes of a GATT client.
-- A client is its queue of long writes, the requests of those that the bearer has accepted and not
-- answered, and what it did. `sends` says of each call of `bt_att_send` whether the bearer takes the request, and an
-- operation stands for the request that refers to it.

pub mod LongWrite
pub mod LongRead
pub mod Collected
pub mod Short
pub mod Single
pub mod Accepted
pub mod Answered
pub mod Called
pub mod Server
pub mod Arrived
pub mod Delivered
mod Tests
use minipro.Base.{ℕ, Bool, Option, List}

-- `struct long_write_op`; `length` is the length of `value`.
pub record LongWriteOp : Type 0 where
  pub reliable : Bool
  pub success : Bool
  pub att_ecode : ℕ
  pub reliable_error : Bool
  pub value_handle : ℕ
  pub value : List ℕ
  pub offset : ℕ
  pub index : ℕ
  pub cur_length : ℕ
  pub id : ℕ

-- a request that awaits its response: a part of a value, or the end of a long write
pub data Flight : Type 0 where
  prepares : LongWriteOp → Flight
  executes : LongWriteOp → Flight

-- a PDU that the bearer took: its opcode and its bytes
pub record Sent : Type 0 where
  pub opcode : ℕ
  pub pdu : List ℕ

-- a call of the callback of a long write
pub record Told : Type 0 where
  pub id : ℕ
  pub success : Bool
  pub reliable_error : Bool
  pub att_ecode : ℕ

-- The last of `sent` and of `told` come first; `attempts` counts the calls of `bt_att_send`.
pub record Client : Type 0 where
  pub mtu : ℕ
  pub next_request_id : ℕ
  pub in_long_write : Bool
  pub reliable_write_session_id : ℕ
  pub long_write_queue : List LongWriteOp
  pub outstanding : List Flight
  pub attempts : ℕ
  pub sent : List Sent
  pub told : List Told
