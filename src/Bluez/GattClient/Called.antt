-- ===== src/Bluez/GattClient/Called.antt =====
-- Every long write that a client accepts is called back, once.
use minipro.Base.{
  ℕ, ◌+◌, ◌≤◌, ◌<◌, ◌≡◌, refl, ◌∙◌, inl, inr, Bool, ◌||◌, List, [], ◌∷◌, ◌++◌, ◌==◌, ltb, arith,
  if_lem, if◌then◌else◌, length, length-append, All-append,
}
use minipro.Bluez.GattClient.{LongWriteOp, Flight, prepares, Client}
use minipro.Bluez.GattClient.LongWrite.{
  new_op, request_create, taken, refused, bt_gatt_client_write_long_value, exchange,
}
use minipro.Bluez.GattClient.Accepted.{
  works, queue_work, calls_of, waiting_of, all_of, IsInside, IsInsideFlight, IsSound,
  sent_of-append,
}
use minipro.Bluez.GattClient.Answered.{round_lem, exchange_lem}
use minipro.Bluez.GattClient.Delivered.{at_rest}
use minipro.Bluez.GattClient.Single.{
  IsSingle, Event, writes, responds, happen, run, write-IsSingle, respond_first-IsSingle,
  run-IsSingle,
}

-- How often `bt_gatt_client_write_long_value` returned this id while these things happened.
unfoldable pub accepted : (sends : ℕ → Bool) (id : ℕ) → List Event → Client → ℕ
unfolding happen
accepted sends id [] c = 0
accepted sends id (writes reliable handle offset value ∷ events) c =
    (if (bt_gatt_client_write_long_value sends reliable handle offset value c).0 == id
      then 1
      else 0)
    + accepted sends id events (happen sends (writes reliable handle offset value) c)
accepted sends id (responds opcode pdu ∷ events) c =
    accepted sends id events (happen sends (responds opcode pdu) c)

module _ (id : ℕ) where
  waiting_of-append :
      (ops qs : List LongWriteOp) → waiting_of id (ops ++ qs) ≡ waiting_of id ops + waiting_of id qs
  waiting_of-append [] qs = omega arith
  waiting_of-append (op ∷ ops) qs = omega (arith, waiting_of-append ops qs)

  -- what a step does to a client: it stays sound, and has `n` more long writes with the id
  record Steps (n : ℕ) (c r : Client) : Type 0 where
    sound : IsSound r
    same : r.mtu ≡ c.mtu
    all : all_of id r ≡ all_of id c + n

  -- what is returned is counted, unless it is 0
  write-Steps :
      (sends : ℕ → Bool) (reliable : Bool) (handle offset : ℕ) (value : List ℕ) (c : Client)
      → 0 < id
      → IsSingle c
      → IsSound c
      → let r = bt_gatt_client_write_long_value sends reliable handle offset value c in
        Steps (if r.0 == id then 1 else 0) c r.1
  unfolding bt_gatt_client_write_long_value request_create taken refused
  write-Steps sends reliable handle offset value c pos single sound =
      let P : (ℕ × Client → Type 0) = λ r. Steps (if r.0 == id then 1 else 0) c r.1 in
      let op = new_op reliable handle offset value c in
      let refuse : P (0, c) = record { sound = sound; same = refl; all = ground arith } in
      if_lem P (ltb 65535 (length value + offset)) (λ _. refuse)
        (λ fits.
          if_lem P (length value == 0) (λ _. refuse)
            (λ some_bytes.
              let inside : IsInside op = (omega arith, ground arith) in
              if_lem P (c.in_long_write || ltb 0 c.reliable_write_session_id)
                (λ busy.
                  let more = waiting_of-append c.long_write_queue (op ∷ []) in
                  record {
                    sound = record {
                      flights = sound.flights;
                      queued =
                          All-append IsInside c.long_write_queue (op ∷ []) sound.queued
                            (inside, tt);
                      waits = λ none. elim single.single [
                        | inl (_, one) ↦ absurd (omega arith)
                        | inr (free, _, _) ↦ let session = single.session in absurd (ground arith)
                      ];
                    };
                    same = refl;
                    all = omega arith;
                  })
                (λ _.
                  if_lem P (sends c.attempts)
                    (λ _.
                      let more = sent_of-append id c.outstanding (prepares op ∷ []) in
                      let longer = length-append c.outstanding (prepares op ∷ []) in
                      record {
                        sound = record {
                          flights =
                              All-append IsInsideFlight c.outstanding (prepares op ∷ [])
                                sound.flights (inside, tt);
                          queued = sound.queued;
                          waits = λ none. absurd (omega arith);
                        };
                        same = refl;
                        all = omega arith;
                      })
                    (λ _. record {
                      sound = record {
                        flights = sound.flights;
                        queued = sound.queued;
                        waits = sound.waits;
                      };
                      same = refl;
                      all = ground arith;
                    }))))

  run-Steps :
      (sends : ℕ → Bool) (events : List Event) (c : Client)
      → 0 < id
      → 23 ≤ c.mtu
      → IsSingle c
      → IsSound c
      → Steps (accepted sends id events c) c (run sends events c)
  unfolding run happen accepted
  run-Steps sends [] c pos mtu single sound = record {
    sound = sound;
    same = refl;
    all = omega arith;
  }
  run-Steps sends (writes reliable handle offset value ∷ events) c pos mtu single sound =
      let first = write-Steps sends reliable handle offset value c pos single sound in
      let same = first.same in
      let rest =
        run-Steps sends events _ pos (omega arith)
          (write-IsSingle sends reliable handle offset value c single) first.sound in
      record {
        sound = rest.sound;
        same = rest.same ∙ first.same;
        all = let more = first.all in let later = rest.all in omega arith;
      }
  run-Steps sends (responds opcode pdu ∷ events) c pos mtu single sound =
      let first = round_lem id sends opcode pdu c.outstanding c mtu sound refl in
      let same = first.mtu_lem in
      let rest =
        run-Steps sends events _ pos (omega arith)
          (respond_first-IsSingle sends opcode pdu c.outstanding c refl single) first.sound in
      record {
        sound = rest.sound;
        same = rest.same ∙ first.mtu_lem;
        all = let more = first.all in let later = rest.all in omega arith;
      }

-- However long writes and responses follow each other at a client that was at rest, with no reliable write
-- session and an MTU that stays at 23 or more, and whichever requests the bearer refuses: if a server then goes on to
-- answer, whatever it answers, then after as many responses as there are bytes left to write, and two for
-- each long write that is left, no request is outstanding and no long write waits, and the callbacks have
-- been called for each id exactly as often as `bt_gatt_client_write_long_value` returned it (ids are not 0,
-- and repeat only when the 32-bit counter wraps), beyond what they had been before.
pub long_writes_answered :
    (sends : ℕ → Bool) (events : List Event) (server : List Flight → ℕ × List ℕ) (rounds id : ℕ)
    (c : Client)
    → 23 ≤ c.mtu
    → 0 < id
    → works (run sends events (at_rest c)).outstanding
        + queue_work (run sends events (at_rest c)).long_write_queue
      ≤ rounds
    → let r = exchange sends server rounds (run sends events (at_rest c)) in
      (length r.outstanding ≡ 0)
      × (length r.long_write_queue ≡ 0)
      × (calls_of id r.told ≡ calls_of id c.told + accepted sends id events (at_rest c))
unfolding run
long_writes_answered sends events server rounds id c mtu pos enough =
    let d = run sends events (at_rest c) in
    let steps =
      run-Steps id sends events (at_rest c) pos mtu (run-IsSingle sends [] c)
        (record { flights = tt; queued = tt; waits = λ none. refl }) in
    let same = steps.same in
    let all = steps.all in
    let (out, idle, called) =
      exchange_lem id sends server rounds d (omega arith) steps.sound enough in
    (out, idle, omega arith)
