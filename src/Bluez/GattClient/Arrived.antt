-- ===== src/Bluez/GattClient/Arrived.antt =====
-- The answers of a server that is honest, and the end of a long write.
use minipro.Base.{
  ℕ, zero, suc, ◌+◌, ◌^◌, ◌<◌, ◌≡◌, refl, sym, subst, Bool, true, false, List, [], ◌∷◌, arith,
  length, length-take, length-drop, drop,
}
use minipro.Bluez.GattClient.{LongWriteOp, Flight, executes, Told, Client}
use minipro.Bluez.GattClient.LongWrite.{
  prep_pdu, chunk, completed, same, echoes, start_next_long_write, start_queue, execute_write_cb,
  respond_to, respond_first, exchange, tell_written,
}
use minipro.Bluez.GattClient.Accepted.{IsInside}
use minipro.Bluez.GattClient.Server.{Server, serve_all, honest}

-- The bearer takes every request.
abbrev pub always : ℕ → Bool
always attempt = true

pub same_refl : (xs : List ℕ) → same xs xs ≡ true
unfolding same
same_refl [] = refl
same_refl (x ∷ xs) = let rest = same_refl xs in ground arith

-- the response of a server that is honest
pub echoes-prep_pdu :
    (op : LongWriteOp)
    → IsInside op
    → op.value_handle < 2 ^ 16
    → op.offset + length op.value < 2 ^ 16
    → echoes (prep_pdu op) op ≡ true
echoes-prep_pdu op inside handle offset =
    let sized : length (chunk op) ≡ op.cur_length =
      let rest = length-drop op.index op.value (omega arith) in
      length-take op.cur_length (drop op.index op.value) (omega arith) in
    let alike = same_refl (chunk op) in ground arith

-- The server has the value, no part is left, and this was said of the write.
pub record Arrives (handle : ℕ) (s : Server) (value : List ℕ) (told : List Told) (c : Client)
    : Type 0 where
  pub arrived : serve_all handle c.sent s ≡ record { value = value; prepared = [] }
  pub said : c.told ≡ told

-- a client that is done
pub exchange_idle :
    (sends : ℕ → Bool) (server : List Flight → ℕ × List ℕ) (rounds : ℕ) (c : Client)
    → exchange sends server rounds (record c { outstanding = [] }) ≡ record c { outstanding = [] }
unfolding exchange respond_first
exchange_idle sends server zero c = refl
exchange_idle sends server (suc rounds) c = exchange_idle sends server rounds c

-- the client in which this is the request that awaits its response
abbrev pub awaiting : Flight → Client → Client
awaiting f c = record c { outstanding = f ∷ []; long_write_queue = [] }

abbrev pub idle : Client → Client
idle c = record c { outstanding = []; long_write_queue = [] }

abbrev pub success : ℕ → Told
success id = record { id = id; success = true; reliable_error = false; att_ecode = 0 }

pub execute-Arrives :
    (handle : ℕ) (s : Server) (value : List ℕ) (rounds : ℕ) (op : LongWriteOp) (c : Client)
    → serve_all handle c.sent s ≡ record { value = value; prepared = [] }
    → Arrives handle s value
        (success op.id ∷ c.told)
        (exchange always honest (suc rounds) (awaiting (executes (completed op true 0 false)) c))
unfolding exchange respond_first respond_to execute_write_cb start_next_long_write start_queue
    tell_written honest
execute-Arrives handle s value rounds op c e =
    subst (Arrives handle s value (success op.id ∷ c.told))
      (sym (
        exchange_idle always honest rounds (record (tell_written op true false 0 c) {
          in_long_write = false;
          long_write_queue = [];
        })))
      (record { arrived = e; said = refl })
