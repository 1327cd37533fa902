-- ===== src/Bluez/GattDb/Attributes/Added.antt =====
-- Adding attributes to a service: the handles that they get, and what the declarations say.
use minipro.Base.{
  ℕ, suc, ◌+◌, ◌-◌, ◌%◌, ◌^◌, ◌/◌, ◌≤◌, ◌<◌, ◌≡◌, ◌⊎◌, inl, inr, lt-or-le, refl, sym, subst, ◌∙◌,
  false, Option, none, some, [], arith, ◌==◌, get_elem?,
}
use minipro.Base.Bytes.{from_le16}
use minipro.Bluez.Uuid.{Uuid, unspec, IsUuid, uuid_number}
use minipro.Bluez.Uuid.Wire.{le_to_uuid-uuid_to_le}
use minipro.Bluez.GattDb.{Attribute, Service, attributes, u16, new_attribute, characteristic_uuid}
use minipro.Bluez.GattDb.Add.{uuid_equal-number, length-uuid_to_le}
use minipro.Bluez.GattDb.Attributes.{
  get_attribute_index, get_handle_at_index, set_attribute, AttributeData, set_attribute_data,
  declaration_value, service_insert_characteristic, gatt_db_service_add_characteristic,
  service_insert_descriptor, gatt_db_service_add_descriptor, get_char_data,
}
use minipro.Bluez.GattDb.Attributes.Dense.{
  IsDense, get_attribute_index-IsDense, get_handle_at_index-IsDense, set_attribute-IsDense,
  set_attribute_below,
}

-- Reading back the declaration of a characteristic.
char_data_lem :
    (handle properties : ℕ) (uuid : Uuid)
    → handle + 1 < 2 ^ 16
    → IsUuid uuid
    → (v : Uuid) × (get_char_data (
          new_attribute handle characteristic_uuid (declaration_value properties (handle + 1) uuid))
        ≡ some (handle, handle + 1, properties, some v))
      × (uuid_number v ≡ uuid_number uuid)
unfolding get_char_data new_attribute
char_data_lem handle properties uuid below is =
    let (v, back, same, _, _) = le_to_uuid-uuid_to_le unspec uuid is in
    let type : IsUuid characteristic_uuid = omega arith in
    let equal = uuid_equal-number characteristic_uuid characteristic_uuid type type refl in
    let word : from_le16 ((handle + 1) % 256) ((handle + 1) / 256 % 256) ≡ handle + 1 =
      omega arith in
    (v, rw (equal, word, back) (ground (arith, length-uuid_to_le uuid is)), same)

-- what the two additions put into a service whose next handle is h
abbrev pub char_declaration : (h properties : ℕ) → Uuid → Attribute
char_declaration h properties uuid =
    new_attribute h characteristic_uuid (declaration_value properties (h + 1) uuid)

abbrev pub described : (h : ℕ) → Uuid → AttributeData → Attribute
described h uuid data' = set_attribute_data (new_attribute h uuid []) data'

-- what it is to get the next handle of a service that uses its first k: the attribute that is returned
-- has it and stands in its slot, and the handles are filled again
abbrev pub Next : Service → (k : ℕ) → Option Attribute × Service → Type 0
Next s k (out, s') =
    (a : Attribute) × (out ≡ some a)
    × (a.handle ≡ s.declaration.handle + k)
    × IsDense s' (suc k)
    × (get_elem? (attributes s') k ≡ some (some a))

-- the same of a characteristic, with its declaration before the value
abbrev pub NextTwo : Service → (k properties : ℕ) → Uuid → Option Attribute × Service → Type 0
NextTwo s k properties uuid (out, s') =
    let h = s.declaration.handle + k in
    (decl a : Attribute) × (v : Uuid) × (out ≡ some a)
    × (a.handle ≡ h + 1)
    × IsDense s' (suc (k + 1))
    × (get_elem? (attributes s') k ≡ some (some decl))
    × (get_elem? (attributes s') (k + 1) ≡ some (some a))
    × (get_char_data decl ≡ some (h, h + 1, properties, some v))
    × (uuid_number v ≡ uuid_number uuid)

module _ (s : Service) (k : ℕ) (dense : IsDense s k) where
  pub index_lem :
      (end_offset : ℕ) → k + end_offset < s.num_handles → get_attribute_index s end_offset ≡ k
  index_lem end_offset room = ground (arith, get_attribute_index-IsDense s k end_offset dense)

  pub index_full :
      (end_offset : ℕ) → s.num_handles ≤ k + end_offset → get_attribute_index s end_offset ≡ 0
  index_full end_offset full = ground (arith, get_attribute_index-IsDense s k end_offset dense)

  pub some_index : (k == 0) ≡ false
  some_index = ground (arith, dense.some_filled)

  pub last_handle : get_handle_at_index s (k - 1) ≡ s.declaration.handle + (k - 1)
  last_handle = get_handle_at_index-IsDense s k (k - 1) dense (omega (arith, dense.some_filled))

  char_added :
      (uuid : Uuid) (properties : ℕ) (data' : AttributeData)
      → k + 1 < s.num_handles
      → let h = s.declaration.handle + k in
        gatt_db_service_add_characteristic s uuid properties data' ≡ (
          some (described (h + 1) uuid data'),
          set_attribute
              (set_attribute s k (char_declaration h properties uuid))
              (k + 1)
              (described (h + 1) uuid data'),
        )
  unfolding gatt_db_service_add_characteristic service_insert_characteristic
  char_added uuid properties data' room =
      let h = s.declaration.handle + k in
      let value : u16 (s.declaration.handle + (k - 1) + 2) ≡ h + 1 =
        omega (arith, dense.some_filled, dense.in_range) in
      let decl : u16 (h + 1 + (2 ^ 16 - 1)) ≡ h = omega (arith, dense.in_range) in
      rw (index_lem 1 room, some_index, last_handle, value, decl)

  desc_added :
      (uuid : Uuid) (data' : AttributeData)
      → k < s.num_handles
      → let h = s.declaration.handle + k in
        gatt_db_service_add_descriptor s uuid data'
        ≡ (some (described h uuid data'), set_attribute s k (described h uuid data'))
  unfolding gatt_db_service_add_descriptor service_insert_descriptor
  desc_added uuid data' room =
      let h = s.declaration.handle + k in
      let value : u16 (s.declaration.handle + (k - 1) + 1) ≡ h =
        omega (arith, dense.some_filled, dense.in_range) in
      rw (index_lem 0 (omega arith), some_index, last_handle, value)

  char_refused :
      (uuid : Uuid) (properties : ℕ) (data' : AttributeData)
      → s.num_handles ≤ k + 1
      → gatt_db_service_add_characteristic s uuid properties data' ≡ (none, s)
  unfolding gatt_db_service_add_characteristic service_insert_characteristic
  char_refused uuid properties data' full = rw (index_full 1 full)

  desc_refused :
      (uuid : Uuid) (data' : AttributeData)
      → s.num_handles ≤ k
      → gatt_db_service_add_descriptor s uuid data' ≡ (none, s)
  unfolding gatt_db_service_add_descriptor service_insert_descriptor
  desc_refused uuid data' full = rw (index_full 0 (omega arith))

  described-IsDense :
      (uuid : Uuid) (data' : AttributeData)
      → k < s.num_handles
      → let a = described (s.declaration.handle + k) uuid data' in
        IsDense (set_attribute s k a) (suc k)
        × (get_elem? (attributes (set_attribute s k a)) k ≡ some (some a))
  unfolding set_attribute_data new_attribute
  described-IsDense uuid data' room =
      set_attribute-IsDense s k (described (s.declaration.handle + k) uuid data') dense room refl

  -- Adding a descriptor to a service whose k attributes fill its first handles takes the next handle,
  -- if one is left. Else it is refused and the service stays as it is.
  pub add_descriptor-IsDense :
      (uuid : Uuid) (data' : AttributeData)
      → ((k < s.num_handles) × Next s k (gatt_db_service_add_descriptor s uuid data'))
        ⊎ ((s.num_handles ≤ k) × (gatt_db_service_add_descriptor s uuid data' ≡ (none, s)))
  add_descriptor-IsDense uuid data' = elim (lt-or-le k s.num_handles) [
    | inl room ↦
        let (dense', there) = described-IsDense uuid data' room in
        let a = described (s.declaration.handle + k) uuid data' in
        inl (
          room,
          subst (Next s k) (sym (desc_added uuid data' room))
              (a, refl, (unfold set_attribute_data new_attribute in refl), dense', there),
        )
    | inr full ↦ inr (full, desc_refused uuid data' full)
  ]

  char_added-IsDense :
      (uuid : Uuid) (properties : ℕ) (data' : AttributeData)
      → IsUuid uuid
      → k + 1 < s.num_handles
      → let h = s.declaration.handle + k in
        NextTwo s k properties uuid (
          some (described (h + 1) uuid data'),
          set_attribute
              (set_attribute s k (char_declaration h properties uuid))
              (k + 1)
              (described (h + 1) uuid data'),
        )
  unfolding set_attribute set_attribute_data new_attribute
  char_added-IsDense uuid properties data' is room =
      let h = s.declaration.handle + k in
      let decl = char_declaration h properties uuid in
      let a = described (h + 1) uuid data' in
      let mid = set_attribute s k decl in
      let (v, read, same) = char_data_lem h properties uuid (omega (arith, dense.in_range)) is in
      let (half, there) = set_attribute-IsDense s k decl dense (omega arith) refl in
      let half' : IsDense mid (k + 1) = subst (IsDense mid) (omega arith) half in
      let (dense', there') =
        set_attribute-IsDense mid (k + 1) a half' (omega arith) (omega arith) in
      (
        decl,
        a,
        v,
        refl,
        refl,
        dense',
        set_attribute_below mid k (k + 1) a (omega arith) ∙ there,
        there',
        read,
        same,
      )

  -- Adding a characteristic to a service whose k attributes fill its first handles takes the next two
  -- handles, for the declaration and for the value, and returns the latter, if both are left; the
  -- two stand in their slots, the handles are filled again, and the declaration reads back as these
  -- handles, the properties and a UUID of the same number. Else it is refused and the service stays as
  -- it is.
  pub add_characteristic-IsDense :
      (uuid : Uuid) (properties : ℕ) (data' : AttributeData)
      → IsUuid uuid
      → ((k + 1 < s.num_handles)
          × NextTwo s k properties uuid
              (gatt_db_service_add_characteristic s uuid properties data'))
        ⊎ ((s.num_handles ≤ k + 1)
            × (gatt_db_service_add_characteristic s uuid properties data' ≡ (none, s)))
  add_characteristic-IsDense uuid properties data' is = elim (lt-or-le (k + 1) s.num_handles) [
    | inl room ↦ inl (
      room,
      subst (NextTwo s k properties uuid) (sym (char_added uuid properties data' room))
          (char_added-IsDense uuid properties data' is room),
    )
    | inr full ↦ inr (full, char_refused uuid properties data' full)
  ]
