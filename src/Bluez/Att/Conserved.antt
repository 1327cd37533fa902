-- ===== src/Bluez/Att/Conserved.antt =====
-- Registering, the settings and the end of a bearer keep the balance of destructors.
use minipro.Base.{
  ℕ, ◌+◌, ◌-◌, ◌%◌, ◌^◌, ◌≡◌, refl, Bool, not, ◌||◌, Option, none, some, List, [], ◌∷◌, arith, ◌==◌,
  if_lem,
}
use minipro.Bluez.Att.{SendOp, Notify, Disconn, Event, accepted, Att, logged, SignInfo}
use minipro.Bluez.Att.Calls.{
  bt_att_cancel_all, bt_att_register, bt_att_unregister, bt_att_register_disconnect,
  bt_att_unregister_disconnect, bt_att_unregister_all, destroy_notifies, this_id,
}
use minipro.Bluez.Att.Life.{
  granted_if, destroy_pending, bt_att_free, bt_att_ref, bt_att_unref, bt_att_set_timeout_cb,
  bt_att_set_mtu, bt_att_set_security, bt_att_set_local_key, bt_att_set_remote_key, Call, sends,
  cancels, cancels_all, unregisters_all, refs, unrefs, registers, unregisters, registers_disconnect,
  unregisters_disconnect, sets_timeout_cb, sets_mtu, sets_security, sets_local_key, sets_remote_key,
  perform, perform_all,
}
use minipro.Bluez.Att.Holds.{
  Holds, owed_ops, owed_pending, owed_notifies, owed_disconns, paid, granted, paid-destroy_op,
  paid-destroy_notifies, paid-destroy_disconns, paid-call_destroy, owed_notifies-append,
  owed_disconns-append, remove_notify-NotifyTaken, remove_disconn-DisconnTaken,
}
use minipro.Bluez.Att.Balance.{bt_att_cancel-Holds, bt_att_cancel_all-Holds}
use minipro.Bluez.Att.Sending.{bt_att_send-Holds, this_id_pos}

module _ (mine : ℕ → ℕ → Bool) where
  register-Holds :
      (n opcode callback user_data destroy : ℕ) (mem entry_mem : Bool) (att : Att)
      → Holds mine n att
      → Holds mine n (
          granted_if destroy user_data
            (bt_att_register opcode callback user_data destroy mem entry_mem att))
  unfolding bt_att_register
  register-Holds n opcode callback user_data destroy mem entry_mem att h =
      let P = λ (r : ℕ × Att). Holds mine n (granted_if destroy user_data r) in
      let new : Notify = record {
        id = this_id att.next_reg_id;
        opcode = opcode;
        callback = callback;
        destroy = destroy;
        user_data = user_data;
      } in
      if_lem P ((callback == 0 || not att.io) || not mem) (λ _. h)
        λ _.
          if_lem P entry_mem
            (λ _. rw (this_id_pos att.next_reg_id) (record {
              even = omega (arith, h.even, owed_notifies-append mine att.notify_list (new ∷ []));
              reqs = h.reqs;
              inds = h.inds;
              writes = h.writes;
              req = h.req;
              ind = h.ind;
            }))
            (λ _. record {
              even = h.even;
              reqs = h.reqs;
              inds = h.inds;
              writes = h.writes;
              req = h.req;
              ind = h.ind;
            })

  register_disconnect-Holds :
      (n callback user_data destroy : ℕ) (mem entry_mem : Bool) (att : Att)
      → Holds mine n att
      → Holds mine n (
          granted_if destroy user_data
            (bt_att_register_disconnect callback user_data destroy mem entry_mem att))
  unfolding bt_att_register_disconnect
  register_disconnect-Holds n callback user_data destroy mem entry_mem att h =
      let P = λ (r : ℕ × Att). Holds mine n (granted_if destroy user_data r) in
      let new : Disconn = record {
        id = this_id att.next_reg_id;
        callback = callback;
        destroy = destroy;
        user_data = user_data;
      } in
      if_lem P (not att.io || not mem) (λ _. h)
        λ _.
          if_lem P entry_mem
            (λ _. rw (this_id_pos att.next_reg_id) (record {
              even = omega (arith, h.even, owed_disconns-append mine att.disconn_list (new ∷ []));
              reqs = h.reqs;
              inds = h.inds;
              writes = h.writes;
              req = h.req;
              ind = h.ind;
            }))
            (λ _. record {
              even = h.even;
              reqs = h.reqs;
              inds = h.inds;
              writes = h.writes;
              req = h.req;
              ind = h.ind;
            })

  unregister-Holds :
      (n id : ℕ) (att : Att) → Holds mine n att → Holds mine n (bt_att_unregister id att).1
  unfolding bt_att_unregister
  unregister-Holds n id att h = ground (arith, remove_notify-NotifyTaken mine id att.notify_list)

  unregister_disconnect-Holds :
      (n id : ℕ) (att : Att)
      → Holds mine n att
      → Holds mine n (bt_att_unregister_disconnect id att).1
  unfolding bt_att_unregister_disconnect
  unregister_disconnect-Holds n id att h =
      ground (arith, remove_disconn-DisconnTaken mine id att.disconn_list)

  pub unregister_all-Holds :
      (n : ℕ) (att : Att) → Holds mine n att → Holds mine n (bt_att_unregister_all att)
  unfolding bt_att_unregister_all
  unregister_all-Holds n att h = record {
    even = omega (
      arith,
      h.even,
      paid-destroy_notifies mine att.notify_list att.log,
      paid-destroy_disconns mine att.disconn_list (destroy_notifies att.notify_list att.log),
    );
    reqs = h.reqs;
    inds = h.inds;
    writes = h.writes;
    req = h.req;
    ind = h.ind;
  }

  set_timeout_cb-Holds :
      (n callback user_data destroy : ℕ) (att : Att)
      → Holds mine n att
      → Holds mine n (
          logged
            (accepted destroy user_data)
            (bt_att_set_timeout_cb callback user_data destroy att))
  unfolding bt_att_set_timeout_cb
  set_timeout_cb-Holds n callback user_data destroy att h = ground arith

  set_mtu-Holds :
      (n mtu : ℕ) (mem : Bool) (att : Att)
      → Holds mine n att
      → Holds mine n (bt_att_set_mtu mtu mem att).1
  unfolding bt_att_set_mtu
  set_mtu-Holds n mtu mem att h = ground arith

  pub set_security-Holds :
      (n level : ℕ) (att : Att) → Holds mine n att → Holds mine n (bt_att_set_security level att).1
  unfolding bt_att_set_security
  set_security-Holds n level att h = ground arith

  pub bt_att_ref-Holds : (n : ℕ) (att : Att) → Holds mine n att → Holds mine n (bt_att_ref att)
  unfolding bt_att_ref
  bt_att_ref-Holds n att h = ground arith

  local_key-Holds :
      (n : ℕ) (sign : SignInfo) (att : Att)
      → Holds mine n att
      → Holds mine n (bt_att_set_local_key sign att)
  unfolding bt_att_set_local_key
  local_key-Holds n sign att h = ground arith

  remote_key-Holds :
      (n : ℕ) (sign : SignInfo) (att : Att)
      → Holds mine n att
      → Holds mine n (bt_att_set_remote_key sign att)
  unfolding bt_att_set_remote_key
  remote_key-Holds n sign att h = ground arith

  paid-destroy_pending :
      (o : Option SendOp) (log : List Event)
      → (paid mine (destroy_pending o log) ≡ owed_pending mine o + paid mine log)
        × (granted mine (destroy_pending o log) ≡ granted mine log)
  paid-destroy_pending none log = (omega arith, refl)
  paid-destroy_pending (some op) log = paid-destroy_op mine op log

  -- Freeing a bearer that has nothing queued or registered calls the destructors that are left.
  bt_att_free-Holds :
      (n : ℕ) (att : Att)
      → owed_ops mine att.req_queue + owed_ops mine att.ind_queue + owed_ops mine att.write_queue
        ≡ 0
      → owed_notifies mine att.notify_list + owed_disconns mine att.disconn_list ≡ 0
      → Holds mine n att
      → Holds mine n (bt_att_free att)
  unfolding bt_att_free
  bt_att_free-Holds n att e e' h =
      let l1 = destroy_pending att.pending_req att.log in
      let l2 = destroy_pending att.pending_ind l1 in
      record {
        even = omega (
          arith,
          h.even,
          paid-destroy_pending att.pending_req att.log,
          paid-destroy_pending att.pending_ind l1,
          paid-call_destroy mine att.timeout_destroy att.timeout_data l2,
        );
        reqs = tt;
        inds = tt;
        writes = tt;
        req = tt;
        ind = tt;
      }

  cancel_all_empty :
      (att : Att)
      → let left = bt_att_cancel_all att in
        owed_ops mine left.req_queue + owed_ops mine left.ind_queue + owed_ops mine left.write_queue
        ≡ 0
  unfolding bt_att_cancel_all
  cancel_all_empty att = ground arith

  unregistered_empty :
      (att : Att)
      → let left = bt_att_cancel_all (bt_att_unregister_all att) in
        owed_notifies mine left.notify_list + owed_disconns mine left.disconn_list ≡ 0
  unfolding bt_att_cancel_all bt_att_unregister_all
  unregistered_empty att = ground arith

  pub bt_att_unref-Holds : (n : ℕ) (att : Att) → Holds mine n att → Holds mine n (bt_att_unref att)
  unfolding bt_att_unref
  bt_att_unref-Holds n att h =
      let att' = record att { ref_count = (att.ref_count + (2 ^ 32 - 1)) % 2 ^ 32 } in
      let h' : Holds mine n att' = record {
        even = h.even;
        reqs = h.reqs;
        inds = h.inds;
        writes = h.writes;
        req = h.req;
        ind = h.ind;
      } in
      let swept = bt_att_unregister_all att' in
      let kept = bt_att_cancel_all-Holds mine n swept (unregister_all-Holds n att' h') in
      if_lem (Holds mine n) ((att.ref_count + (2 ^ 32 - 1)) % 2 ^ 32 == 0)
        (λ _. bt_att_free-Holds n _ (cancel_all_empty swept) (unregistered_empty att') kept)
        (λ _. h')

  pub perform-Holds :
      (n : ℕ) (c : Call) (att : Att) → Holds mine n att → Holds mine n (perform c att)
  unfolding perform
  perform-Holds n (sends s) att h = bt_att_send-Holds mine n s att h
  perform-Holds n (cancels id) att h = bt_att_cancel-Holds mine n id att h
  perform-Holds n cancels_all att h = bt_att_cancel_all-Holds mine n att h
  perform-Holds n unregisters_all att h = unregister_all-Holds n att h
  perform-Holds n refs att h = bt_att_ref-Holds n att h
  perform-Holds n unrefs att h = bt_att_unref-Holds n att h
  perform-Holds n (registers o c u d m e) att h = register-Holds n o c u d m e att h
  perform-Holds n (unregisters id) att h = unregister-Holds n id att h
  perform-Holds n (registers_disconnect c u d m e) att h =
      register_disconnect-Holds n c u d m e att h
  perform-Holds n (unregisters_disconnect id) att h = unregister_disconnect-Holds n id att h
  perform-Holds n (sets_timeout_cb c u d) att h = set_timeout_cb-Holds n c u d att h
  perform-Holds n (sets_mtu mtu mem) att h = set_mtu-Holds n mtu mem att h
  perform-Holds n (sets_security level) att h = set_security-Holds n level att h
  perform-Holds n (sets_local_key sign) att h = local_key-Holds n sign att h
  perform-Holds n (sets_remote_key sign) att h = remote_key-Holds n sign att h

  pub perform_all-Holds :
      (n : ℕ) (cs : List Call) (att : Att) → Holds mine n att → Holds mine n (perform_all cs att)
  unfolding perform_all
  perform_all-Holds n [] att h = h
  perform_all-Holds n (c ∷ cs) att h =
      perform_all-Holds n cs (perform c att) (perform-Holds n c att h)
