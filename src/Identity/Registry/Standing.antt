-- ===== src/Identity/Registry/Standing.antt =====
-- What the stores of src/depthfusion/identity keep of a principal and of a device.

use depthfusion.Authz.Principals.{Principal}
use depthfusion.Common.Dict.{lookup-del, lookup-put, del, put, lookup, Dict}
use depthfusion.Identity.Registry.{
  touch, PrincipalRow, revoke, register, row_to_principal, DeviceRecord, Devices, upsert_principal,
  get_device, get_principal,
}
use depthfusion.Common.{
  Option-cases, inr, eq_iff, refl, inl, ◌∙◌, Bool-cases, arith, true, ap, false, ◌≡◌, [], ◌==◌,
  none, if◌then◌else◌, some, ◌∷◌, List, Bool, Option, String, ℕ, String_eq,
}

lookup-replace {ℓ} :
    {V : Type ℓ} (k j : String) (v : V) (d : Dict String V)
    → lookup j (put k v (del k d)) ≡ (if k == j then some v else lookup j d)
lookup-replace k j v d = ground (arith, lookup-put k j v (del k d), lookup-del k j d)

-- What a look-up answers after a principal was stored: that principal without its device and its
-- tokens, which are not stored, and for every other id what it answered before.
pub get_principal-upsert_principal :
    (rows : Dict String PrincipalRow) (principal : Principal) (now : ℕ) (id : String)
    → get_principal (upsert_principal rows principal now) id ≡ (
        if principal.principal_id == id
        then some (record principal {
          device_id = none;
          access_token = none;
          id_token = none;
          expires_at = none;
        })
        else get_principal rows id)
unfolding get_principal upsert_principal row_to_principal
get_principal-upsert_principal rows principal now id =
    let row : PrincipalRow = record {
      upn = principal.upn;
      display_name = principal.display_name;
      groups = principal.groups;
      last_seen = now;
    } in
    let step = lookup-replace principal.principal_id id row rows in
    elim (Bool-cases (principal.principal_id == id)) [
      | inl same ↦ ground (arith, step, same, eq_iff principal.principal_id id)
      | inr other ↦ ground (arith, step, other)
    ]

-- A call of the registry
pub data DeviceCall : Type 0 where
  registers : String → String → String → ℕ → DeviceCall
  revokes : String → DeviceCall
  touches : String → ℕ → DeviceCall

module _ (sys_platform : String) where
  abbrev pub after_device_call : Devices → DeviceCall → Devices
  after_device_call devices (registers id owner platform now) =
      (register sys_platform devices id owner platform now).0
  after_device_call devices (revokes id) = (revoke devices id).0
  after_device_call devices (touches id now) = (touch devices id now).0

  abbrev pub after_device_calls : Devices → List DeviceCall → Devices
  after_device_calls devices [] = devices
  after_device_calls devices (call ∷ calls) =
      after_device_calls (after_device_call devices call) calls

  -- Whether the device is revoked, if it is there
  abbrev pub revocation : Option DeviceRecord → Option Bool
  revocation none = none
  revocation (some device) = some device.revoked

  -- The same by the calls: a registration lifts a revocation, which holds until then.
  abbrev pub standing_after : String → Option Bool → DeviceCall → Option Bool
  standing_after id known (registers other owner platform now) =
      if other == id then some false else known
  standing_after id known (revokes other) =
      if other == id then elim known [ none ↦ none | some revoked ↦ some true ] else known
  standing_after id known (touches other now) = known

  abbrev pub standing : String → Option Bool → List DeviceCall → Option Bool
  standing id known [] = known
  standing id known (call ∷ calls) = standing id (standing_after id known call) calls

  after_device_call-standing :
      (id : String) (devices : Devices) (call : DeviceCall)
      → revocation (get_device (after_device_call devices call) id)
        ≡ standing_after id (revocation (get_device devices id)) call
  unfolding get_device register revoke touch
  after_device_call-standing id devices (registers other owner platform now) =
      let device : DeviceRecord = record {
        device_id = other;
        owner_principal_id = owner;
        platform = if platform == "" then sys_platform else platform;
        last_sync = now;
        revoked = false;
      } in
      ap revocation (lookup-replace other id device devices) ∙ chosen (other == id) device
    where
      chosen :
          (b : Bool) (device : DeviceRecord)
          → revocation (if b then some device else lookup id devices)
            ≡ (if b then some device.revoked else revocation (lookup id devices))
      chosen true device = refl
      chosen false device = refl
  after_device_call-standing id devices (revokes other) =
      elim (Option-cases (lookup other devices)) [
        | inl missing ↦ elim (Bool-cases (other == id)) [
          | inl same ↦
              let gone = ap (λ (k : String). lookup k devices) ((eq_iff other id).0 same) in
              ground (arith, missing, same, gone)
          | inr apart ↦ ground (arith, missing, apart)
        ]
        | inr (device, at) ↦
            let next = lookup-put other id (record device { revoked = true }) devices in
            elim (Bool-cases (other == id)) [
              | inl same ↦
                  let here = ap (λ (k : String). lookup k devices) ((eq_iff other id).0 same) in
                  ground (arith, at, same, here, next)
              | inr apart ↦ ground (arith, at, apart, next)
            ]
      ]
  after_device_call-standing id devices (touches other now) =
      elim (Option-cases (lookup other devices)) [
        | inl missing ↦ ground (arith, missing)
        | inr (device, at) ↦
            let next = lookup-put other id (record device { last_sync = now }) devices in
            elim (Bool-cases (other == id)) [
              | inl same ↦
                  let here = ap (λ (k : String). lookup k devices) ((eq_iff other id).0 same) in
                  ground (arith, at, same, here, next)
              | inr apart ↦ ground (arith, at, apart, next)
            ]
      ]

  -- Whether a device is revoked follows from its calls alone, whatever is called for other devices
  -- in between: a registration lifts a revocation, a revocation of a registered device holds until
  -- the next registration, and a contact changes nothing.
  pub after_device_calls-standing :
      (id : String) (devices : Devices) (calls : List DeviceCall)
      → revocation (get_device (after_device_calls devices calls) id)
        ≡ standing id (revocation (get_device devices id)) calls
  after_device_calls-standing id devices [] = refl
  after_device_calls-standing id devices (call ∷ calls) =
      after_device_calls-standing id (after_device_call devices call) calls
      ∙ ap (λ (known : Option Bool). standing id known calls)
          (after_device_call-standing id devices call)
