-- ===== src/Bluez/GattDb/Notify/Told.antt =====
-- What a listener is told.
use minipro.Base.{
  ℕ, ◌+◌, ◌≡◌, refl, Bool, true, false, Option, none, some, List, [], ◌∷◌, ◌++◌, arith, ◌==◌,
  if◌then◌else◌, All,
}
use minipro.Bluez.GattDb.{Service}
use minipro.Bluez.GattDb.Notify.{
  Notify, Notifier, Call, added, removed, destroyed, handle_notify, notify_all,
  notify_service_changed, gatt_db_service_set_active,
}

-- every listener has both callbacks
abbrev pub HasBoth : List Notify → Type 0
HasBoth ns = All (λ n. (n.service_added ≡ true) × (n.service_removed ≡ true)) ns

-- a service that is made active and inactive in turn: all calls, and what becomes of it
unfoldable pub activity : Notifier → List Bool → Service → Option (List Call × Service)
activity db [] s = some ([], s)
activity db (b ∷ bs) s = elim (gatt_db_service_set_active db s b) [
  | none ↦ none
  | some (cs, t) ↦ elim (activity db bs t) [ none ↦ none | some (ds, u) ↦ some (cs ++ ds, u) ]
]

module _ (id : ℕ) where
  abbrev pub added_calls : List Call → ℕ
  added_calls [] = 0
  added_calls (added i h ∷ cs) = (if i == id then 1 else 0) + added_calls cs
  added_calls (removed i h ∷ cs) = added_calls cs
  added_calls (destroyed i ∷ cs) = added_calls cs

  abbrev pub removed_calls : List Call → ℕ
  removed_calls [] = 0
  removed_calls (added i h ∷ cs) = removed_calls cs
  removed_calls (removed i h ∷ cs) = (if i == id then 1 else 0) + removed_calls cs
  removed_calls (destroyed i ∷ cs) = removed_calls cs

  -- the listeners with this id
  abbrev pub listeners : List Notify → ℕ
  listeners [] = 0
  listeners (n ∷ ns) = (if n.id == id then 1 else 0) + listeners ns

  added_calls-append :
      (xs ys : List Call) → added_calls (xs ++ ys) ≡ added_calls xs + added_calls ys
  added_calls-append [] ys = omega arith
  added_calls-append (added i h ∷ xs) ys = omega (arith, added_calls-append xs ys)
  added_calls-append (removed i h ∷ xs) ys = added_calls-append xs ys
  added_calls-append (destroyed i ∷ xs) ys = added_calls-append xs ys

  removed_calls-append :
      (xs ys : List Call) → removed_calls (xs ++ ys) ≡ removed_calls xs + removed_calls ys
  removed_calls-append [] ys = omega arith
  removed_calls-append (added i h ∷ xs) ys = removed_calls-append xs ys
  removed_calls-append (removed i h ∷ xs) ys = omega (arith, removed_calls-append xs ys)
  removed_calls-append (destroyed i ∷ xs) ys = removed_calls-append xs ys

  notify_all-true :
      (handle : ℕ) (ns : List Notify)
      → HasBoth ns
      → (cs : List Call) × (notify_all handle true ns ≡ some cs)
        × (added_calls cs ≡ listeners ns)
        × (removed_calls cs ≡ 0)
  unfolding notify_all handle_notify
  notify_all-true handle [] both = ([], refl, refl, refl)
  notify_all-true handle (n ∷ ns) both =
      let (cs, e, a, r) = notify_all-true handle ns both.1 in
      (added n.id handle ∷ cs, rw (both.0.0, e), omega arith, omega arith)

  notify_all-false :
      (handle : ℕ) (ns : List Notify)
      → HasBoth ns
      → (cs : List Call) × (notify_all handle false ns ≡ some cs)
        × (added_calls cs ≡ 0)
        × (removed_calls cs ≡ listeners ns)
  unfolding notify_all handle_notify
  notify_all-false handle [] both = ([], refl, refl, refl)
  notify_all-false handle (n ∷ ns) both =
      let (cs, e, a, r) = notify_all-false handle ns both.1 in
      (removed n.id handle ∷ cs, rw (both.0.1, e), omega arith, omega arith)

  -- what a listener knows: it has heard of the service once more than of its end, if it is active
  abbrev pub Knows : List Notify → (before after : Bool) → List Call → Type 0
  Knows ns before after cs =
      added_calls cs + (if before then listeners ns else 0)
      ≡ removed_calls cs + (if after then listeners ns else 0)

  set_active_lem :
      (db : Notifier) (s : Service) (before after : Bool)
      → s.active ≡ before
      → HasBoth db.notify_list
      → (cs : List Call) × (t : Service) × (gatt_db_service_set_active db s after ≡ some (cs, t))
        × (t.active ≡ after)
        × Knows db.notify_list before after cs
  unfolding gatt_db_service_set_active notify_service_changed
  set_active_lem db s true true e both = ([], s, rw e, e, omega arith)
  set_active_lem db s false false e both = ([], s, rw e, e, omega arith)
  set_active_lem db s false true e both =
      let (cs, told, a, r) = notify_all-true s.declaration.handle db.notify_list both in
      (cs, record s { active = true }, rw (e, told), refl, omega arith)
  set_active_lem db s true false e both =
      let (cs, told, a, r) = notify_all-false s.declaration.handle db.notify_list both in
      (cs, record s { active = false }, rw (e, told), refl, omega arith)

  -- However often a service is made active and inactive, when every listener has both callbacks no
  -- NULL is called, and a listener has heard of the service being added exactly as often as of its
  -- removal, and once more if the service is active now and was not at first, or once less if it was
  -- the other way round.
  pub activity-Knows :
      (db : Notifier) (bs : List Bool) (s : Service)
      → HasBoth db.notify_list
      → (cs : List Call) × (t : Service) × (activity db bs s ≡ some (cs, t))
        × Knows db.notify_list s.active t.active cs
  unfolding activity
  activity-Knows db [] s both = ([], s, refl, refl)
  activity-Knows db (b ∷ bs) s both =
      let (cs, t, e, now, knows) = set_active_lem db s s.active b refl both in
      let (ds, u, later, knows') = activity-Knows db bs t both in
      let first : Knows db.notify_list s.active t.active cs = rw now knows in
      (
        cs ++ ds,
        u,
        rw (activity, e, later),
        omega (arith, first, knows', added_calls-append cs ds, removed_calls-append cs ds),
      )
