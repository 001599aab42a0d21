-- ===== src/Addresses/Last.antt =====
-- The addresses that `ParseAddresses` reads (tools/pkg/support/support.go).
use sealed_auction_fce.Prelude.{
  ◌≡◌, refl, Bool-cases, inl, inr, List, [], ◌∷◌, String, str_eq, str_eq_iff, if◌then◌else◌,
  map_get, map_set,
}
use sealed_auction_fce.Extension.Types.{Address}
use sealed_auction_fce.Addresses.{
  Addresses, RawContract, Field, SupportLibrary, no_addresses, assign_field, field_map, field_loop,
  key_of, assign_all, addresses_in,
}

module _ (l : SupportLibrary) where
  -- The address of the last entry with the name, or the given one when there is none.
  abbrev pub last_named : String → List RawContract → Address → Address
  last_named name [] a = a
  last_named name (c ∷ raw) a =
      last_named name raw (if str_eq name c.name then l.hex_to_address c.address else a)

  abbrev pub LastOf : List RawContract → Addresses → Addresses → Type 0
  LastOf raw start addrs =
      (addrs.flare_system_manager ≡ last_named "FlareSystemsManager" raw start.flare_system_manager)
      × (addrs.fdc2_hub ≡ last_named "Fdc2Hub" raw start.fdc2_hub)
      × (addrs.flare_tee_manager ≡ last_named "FlareTeeManager" raw start.flare_tee_manager)

  assign_all-LastOf :
      (raw : List RawContract) (start : Addresses)
      → LastOf raw start (assign_all l field_map raw start)
  unfolding assign_all field_map field_loop map_set key_of map_get assign_field
  assign_all-LastOf [] start = (refl, refl, refl)
  assign_all-LastOf (c ∷ raw) start =
      let next =
        λ (f : Field). assign_all-LastOf raw (assign_field start f (l.hex_to_address c.address)) in
      elim (Bool-cases (str_eq "FlareSystemsManager" c.name)) [
        | inl same ↦
            rw (← (str_eq_iff "FlareSystemsManager" c.name).0 same)
              (next Field.flare_system_manager_field)
        | inr not_system ↦ elim (Bool-cases (str_eq "Fdc2Hub" c.name)) [
          | inl same ↦ rw (← (str_eq_iff "Fdc2Hub" c.name).0 same) (next Field.fdc2_hub_field)
          | inr not_hub ↦ elim (Bool-cases (str_eq "FlareTeeManager" c.name)) [
            | inl same ↦
                rw (← (str_eq_iff "FlareTeeManager" c.name).0 same)
                  (next Field.flare_tee_manager_field)
            | inr not_tee ↦
                rw (assign_all, map_get, not_system, not_hub, not_tee) (assign_all-LastOf raw start)
          ]
        ]
      ]

  -- `ParseAddresses` gives each of its three fields the address of the last entry of the file with
  -- the field's JSON name, or the zero address when there is none; other entries have no effect.
  pub addresses_in-LastOf : (raw : List RawContract) → LastOf raw no_addresses (addresses_in l raw)
  unfolding addresses_in
  addresses_in-LastOf raw = assign_all-LastOf raw no_addresses
