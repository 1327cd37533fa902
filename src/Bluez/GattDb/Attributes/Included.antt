-- ===== src/Bluez/GattDb/Attributes/Included.antt =====
-- Including one service in another, and the handles that callers choose themselves.
use minipro.Base.{
  ℕ, suc, ◌+◌, ◌-◌, ◌%◌, ◌^◌, ◌/◌, ◌≤◌, ◌<◌, ◌≡◌, ◌⊎◌, inl, inr, lt-or-le, refl, sym, subst, Option,
  none, some, arith, length, get_elem?, set,
}
use minipro.Base.Bytes.{from_le16}
use minipro.Bluez.Uuid.{Uuid, IsUuid}
use minipro.Bluez.GattDb.{Attribute, Service, attributes, u16, new_attribute, included_service_uuid}
use minipro.Bluez.GattDb.Order.{Fits, past}
use minipro.Bluez.GattDb.Add.{uuid_equal-number}
use minipro.Bluez.GattDb.Attributes.{
  set_attribute, included_value, gatt_db_service_add_included, get_incl_data,
}
use minipro.Bluez.GattDb.Attributes.Dense.{IsDense, set_attribute-IsDense}
use minipro.Bluez.GattDb.Attributes.Added.{index_lem, index_full, some_index, last_handle}

-- Reading back an include declaration.
incl_data_lem :
    (h : ℕ) (t : Service)
    → Fits t
    → (length t.declaration.value ≡ 2) ⊎ (length t.declaration.value ≡ 16)
    → get_incl_data (new_attribute h included_service_uuid (included_value t))
      ≡ some (h, t.declaration.handle, past t - 1)
unfolding get_incl_data new_attribute included_value
incl_data_lem h t fits size =
    let type : IsUuid included_service_uuid = omega arith in
    let equal = uuid_equal-number included_service_uuid included_service_uuid type type refl in
    let start : from_le16 (t.declaration.handle % 256) (t.declaration.handle / 256 % 256)
        ≡ t.declaration.handle =
      omega (arith, fits.in_range, fits.some_handle) in
    let end = u16 (t.declaration.handle + t.num_handles + (2 ^ 16 - 1)) in
    let stop : from_le16 (end % 256) (end / 256 % 256) ≡ past t - 1 =
      omega (arith, fits.in_range, fits.some_handle, fits.positive) in
    rw (equal, start, stop) (ground arith)

-- the next handle of a service with its first k in use, for a declaration that reads back as that
-- handle with the first and the last handle of `t`
abbrev pub NextIncluded : Service → (k : ℕ) → (t : Service) → Option Attribute × Service → Type 0
NextIncluded s k t (out, s') =
    (a : Attribute) × (out ≡ some a)
    × IsDense s' (suc k)
    × (get_elem? (attributes s') k ≡ some (some a))
    × (get_incl_data a ≡ some (s.declaration.handle + k, t.declaration.handle, past t - 1))

module _ (s : Service) (k : ℕ) (dense : IsDense s k) (t : Service) where
  incl_added :
      k < s.num_handles
      → let a = new_attribute (s.declaration.handle + k) included_service_uuid (included_value t) in
        gatt_db_service_add_included s t ≡ (some a, set_attribute s k a)
  unfolding gatt_db_service_add_included
  incl_added room =
      let h = s.declaration.handle + k in
      let value : u16 (s.declaration.handle + (k - 1) + 1) ≡ h =
        omega (arith, dense.some_filled, dense.in_range) in
      rw (index_lem s k dense 0 (omega arith), some_index s k dense, last_handle s k dense, value)

  incl_refused : s.num_handles ≤ k → gatt_db_service_add_included s t ≡ (none, s)
  unfolding gatt_db_service_add_included
  incl_refused full = rw (index_full s k dense 0 (omega arith))

  -- Including a service in one whose k attributes fill its first handles takes the next handle, if one
  -- is left, and the declaration reads back as that handle with the first and the last handle of the
  -- included service. Else it is refused and the service stays as it is.
  pub add_included-IsDense :
      Fits t
      → (length t.declaration.value ≡ 2) ⊎ (length t.declaration.value ≡ 16)
      → ((k < s.num_handles) × NextIncluded s k t (gatt_db_service_add_included s t))
        ⊎ ((s.num_handles ≤ k) × (gatt_db_service_add_included s t ≡ (none, s)))
  add_included-IsDense fits size = elim (lt-or-le k s.num_handles) [
    | inl room ↦
        let a = new_attribute (s.declaration.handle + k) included_service_uuid (included_value t) in
        let (dense', there) =
          set_attribute-IsDense s k a dense room (unfold new_attribute in refl) in
        inl (
          room,
          subst (NextIncluded s k t) (sym (incl_added room))
              (a, refl, dense', there, incl_data_lem (s.declaration.handle + k) t fits size),
        )
    | inr full ↦ inr (full, incl_refused full)
  ]

-- the service with the descriptor in its next free slot
abbrev with_descriptor : Service → (k : ℕ) → Attribute → Service
with_descriptor s k a = record s { slots = set s.slots (k - 1) (some a) }
