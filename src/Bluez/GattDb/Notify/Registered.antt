-- ===== src/Bluez/GattDb/Notify/Registered.antt =====
-- The ids of listeners: registering and giving an id back.
use minipro.Base.{
  ℕ, suc, ◌+◌, ◌%◌, ◌^◌, ◌≤◌, ◌<◌, ◌≡◌, ◌≢◌, refl, subst, Bool, true, false, not, ◌||◌, Option,
  none, some, List, [], ◌∷◌, ◌++◌, arith, ◌==◌, ltb, if_lem, option_lem, if◌then◌else◌, length, All,
  All-append,
}
use minipro.Bluez.GattDb.Notify.{
  Notify, Notifier, Call, up, gatt_db_register, remove_notify, notify_destroy, gatt_db_unregister,
}

-- the listeners of a database that `gatt_db_new` makes: no id has been given out
abbrev pub no_listeners : Notifier
no_listeners = record { ref_count = 1; next_notify_id = 0; notify_list = [] }

-- what the users of a database do: register with some of three callbacks, or give any id back
pub data Act : Type 0 where
  registers : (service_added service_removed destroy : Bool) → Act
  unregisters : (id : ℕ) → Act

unfoldable pub act : Act → Notifier → Notifier
unfolding gatt_db_register gatt_db_unregister
act (registers service_added service_removed destroy) db =
    (gatt_db_register db service_added service_removed destroy).1
act (unregisters id) db = (gatt_db_unregister db id).2

unfoldable pub act_all : List Act → Notifier → Notifier
unfolding act
act_all [] db = db
act_all (a ∷ acts) db = act_all acts (act a db)

-- The ids in use are not 0, and below the next one.
abbrev Below : ℕ → List Notify → Type 0
Below n ns = All (λ m. (0 < m.id) × (m.id < n)) ns

-- No more ids are given out than there were acts.
record IsNotifier (acts : ℕ) (db : Notifier) : Type 0 where
  below : Below db.next_notify_id db.notify_list
  few : db.next_notify_id ≤ acts + 1

Below-le : (n k : ℕ) (ns : List Notify) → n ≤ k → Below n ns → Below k ns
Below-le n k [] le all = tt
Below-le n k (m ∷ ns) le all = (omega arith, Below-le n k ns le all.1)

-- what is left when a listener is taken away
abbrev RestBelow : ℕ → Option (Notify × List Notify) → Type 0
RestBelow n none = Unit {0}
RestBelow n (some (m, rest)) = Below n rest

RestBelow-cons :
    (n : ℕ) (m : Notify) (o : Option (Notify × List Notify))
    → (0 < m.id) × (m.id < n)
    → RestBelow n o
    → RestBelow n (elim o [ none ↦ none | some (k, rest) ↦ some (k, m ∷ rest) ])
RestBelow-cons n m none ok rest = tt
RestBelow-cons n m (some (k, ns)) ok rest = (ok, rest)

remove_notify-RestBelow :
    (n id : ℕ) (ns : List Notify) → Below n ns → RestBelow n (remove_notify id ns)
unfolding remove_notify
remove_notify-RestBelow n id [] all = tt
remove_notify-RestBelow n id (m ∷ ns) all =
    if_lem (RestBelow n) (m.id == id) (λ _. all.1)
      (λ _. RestBelow-cons n m (remove_notify id ns) all.0 (remove_notify-RestBelow n id ns all.1))

-- the id that the next listener gets, and the listener
abbrev pub next_id : Notifier → ℕ
next_id db = if ltb db.next_notify_id 1 then 1 else db.next_notify_id

abbrev pub newcomer : Notifier → (service_added service_removed destroy : Bool) → Notify
newcomer db service_added service_removed destroy = record {
  id = next_id db;
  service_added = service_added;
  service_removed = service_removed;
  destroy = destroy;
}

register-IsNotifier :
    (n : ℕ) (db : Notifier) (service_added service_removed destroy : Bool)
    → n + 2 < 2 ^ 32
    → IsNotifier n db
    → IsNotifier (n + 1) (gatt_db_register db service_added service_removed destroy).1
unfolding gatt_db_register
register-IsNotifier n db service_added service_removed destroy room is =
    let few = is.few in
    if_lem (λ (r : ℕ × Notifier). IsNotifier (n + 1) r.1) (not (service_added || service_removed))
      (λ _. record { below = is.below; few = omega arith })
      (λ _.
        let next : db.next_notify_id ≤ next_id db = ground arith in
        let first : 0 < next_id db = ground arith in
        let bound : next_id db ≤ n + 1 = ground arith in
        let wraps : (next_id db + 1) % 2 ^ 32 ≡ next_id db + 1 = omega arith in
        let one = newcomer db service_added service_removed destroy in
        record {
          below =
              All-append (λ m. (0 < m.id) × (m.id < (next_id db + 1) % 2 ^ 32)) db.notify_list
                (one ∷ [])
                (Below-le db.next_notify_id ((next_id db + 1) % 2 ^ 32) db.notify_list (omega arith)
                  is.below)
                ((first, omega arith), tt);
          few = omega arith;
        })

unregister-IsNotifier :
    (n id : ℕ) (db : Notifier) → IsNotifier n db → IsNotifier (n + 1) (gatt_db_unregister db id).2
unfolding gatt_db_unregister
unregister-IsNotifier n id db is =
    let few = is.few in
    let P : (Bool × List Call × Notifier → Type 0) = λ r. IsNotifier (n + 1) r.2 in
    if_lem P (id == 0) (λ _. record { below = is.below; few = omega arith })
      (λ _.
        option_lem P (remove_notify id db.notify_list)
          (λ _. record { below = is.below; few = omega arith })
          (λ found e. record {
            below =
                subst (RestBelow db.next_notify_id) e
                  (remove_notify-RestBelow db.next_notify_id id db.notify_list is.below);
            few = omega arith;
          }))

more_acts :
    (n : ℕ) (acts : List Act) (db : Notifier)
    → IsNotifier (n + 1 + length acts) db
    → IsNotifier (n + suc (length acts)) db
more_acts n acts db is = record { below = is.below; few = let few = is.few in omega arith }

act_all-IsNotifier :
    (n : ℕ) (acts : List Act) (db : Notifier)
    → n + length acts + 1 < 2 ^ 32
    → IsNotifier n db
    → IsNotifier (n + length acts) (act_all acts db)
unfolding act_all act
act_all-IsNotifier n [] db room is = record {
  below = is.below;
  few = let few = is.few in omega arith;
}
act_all-IsNotifier n (registers service_added service_removed destroy ∷ acts) db room is =
    more_acts n acts _ (
      act_all-IsNotifier (n + 1) acts _ (omega arith)
        (register-IsNotifier n db service_added service_removed destroy (omega arith) is))
act_all-IsNotifier n (unregisters id ∷ acts) db room is =
    more_acts n acts _
      (act_all-IsNotifier (n + 1) acts _ (omega arith) (unregister-IsNotifier n id db is))

Below-others : (n : ℕ) (ns : List Notify) → Below n ns → All (λ m. m.id ≢ n) ns
Below-others n [] all = tt
Below-others n (m ∷ ns) all = (λ e. absurd (omega arith), Below-others n ns all.1)

-- the id that was given out last is found at the end
remove_notify-append :
    (n : Notify) (ns : List Notify)
    → Below n.id ns
    → remove_notify n.id (ns ++ (n ∷ [])) ≡ some (n, ns)
unfolding remove_notify
remove_notify-append n [] all = ground arith
remove_notify-append n (m ∷ ns) all =
    let other : (m.id == n.id) ≡ false = ground arith in rw (other, remove_notify-append n ns all.1)

-- the database with the newcomer
abbrev joined : Notifier → Notify → Notifier
joined db n = record db { next_notify_id = up n.id; notify_list = db.notify_list ++ (n ∷ []) }

register_lem :
    (db : Notifier) (service_added service_removed destroy : Bool)
    → (service_added || service_removed) ≡ true
    → let n = newcomer db service_added service_removed destroy in
      gatt_db_register db service_added service_removed destroy ≡ (n.id, joined db n)
unfolding gatt_db_register
register_lem db service_added service_removed destroy asked = rw asked refl

unregister_lem :
    (db : Notifier) (n : Notify) (ns : List Notify)
    → db.notify_list ≡ ns ++ (n ∷ [])
    → 0 < n.id
    → Below n.id ns
    → gatt_db_unregister db n.id ≡ (true, notify_destroy n, record db { notify_list = ns })
unfolding gatt_db_unregister
unregister_lem db n ns e first below =
    let given : (n.id == 0) ≡ false = ground arith in
    rw (given, e, remove_notify-append n ns below) refl

-- A listener with a callback for services that come or go, in a database whose users have registered
-- listeners and given back ids in any order, fewer than 2 ^ 32 - 2 times, also in one that is new: it goes behind the others and gets an id that is not 0 and that none of them has, and giving this
-- id back takes just this listener away again and makes the call that it is due.
pub gatt_db_unregister-register :
    (acts : List Act) (service_added service_removed destroy : Bool)
    → length acts + 2 < 2 ^ 32
    → (service_added || service_removed) ≡ true
    → let db = act_all acts no_listeners in
      let (id, joined) = gatt_db_register db service_added service_removed destroy in
      let n : Notify = record {
        id = id;
        service_added = service_added;
        service_removed = service_removed;
        destroy = destroy;
      } in
      (0 < id)
      × All (λ m. m.id ≢ id) db.notify_list
      × (joined.notify_list ≡ db.notify_list ++ (n ∷ []))
      × (gatt_db_unregister joined id
          ≡ (true, notify_destroy n, record joined { notify_list = db.notify_list }))
gatt_db_unregister-register acts service_added service_removed destroy room asked =
    let db = act_all acts no_listeners in
    let is =
      act_all-IsNotifier 0 acts no_listeners (omega arith)
        (record { below = tt; few = omega arith }) in
    let n = newcomer db service_added service_removed destroy in
    let next : db.next_notify_id ≤ next_id db = ground arith in
    let first : 0 < next_id db = ground arith in
    let below = Below-le db.next_notify_id (next_id db) db.notify_list next is.below in
    rw (register_lem db service_added service_removed destroy asked) (
      first,
      Below-others (next_id db) db.notify_list below,
      refl,
      unregister_lem (joined db n) n db.notify_list refl first below,
    )
