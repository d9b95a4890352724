-- ===== src/Identity/Registry.antt =====
-- `PrincipalStore` of src/depthfusion/identity/principal_store.py and `DeviceRegistry` of
-- src/depthfusion/identity/device_registry.py: the rows of their tables by key, in the order in
-- which they were inserted; a replacement is a new row. Each read of the clock is an argument.

use depthfusion.Common.Sort.{sorted}
use depthfusion.Authz.Principals.{Principal}
use depthfusion.Common.Dict.{lookup, del, put, Dict}
use depthfusion.Common.{
  true, false, take, some, map, ◌==◌, leb, none, Bool, Option, if◌then◌else◌, List, String, ℕ,
  String_eq,
}
pub mod Standing

pub record PrincipalRow : Type 0 where
  pub upn : String
  pub display_name : String
  pub groups : List String
  pub last_seen : ℕ

-- `INSERT OR REPLACE`
abbrev replace {ℓ} : {V : Type ℓ} → String → V → Dict String V → Dict String V
replace key row rows = put key row (del key rows)

unfoldable pub upsert_principal :
    Dict String PrincipalRow → Principal → ℕ → Dict String PrincipalRow
upsert_principal rows principal now =
    replace principal.principal_id
      (record {
        upn = principal.upn;
        display_name = principal.display_name;
        groups = principal.groups;
        last_seen = now;
      })
      rows

unfoldable pub row_to_principal : String → PrincipalRow → Principal
row_to_principal principal_id row = record {
  principal_id = principal_id;
  upn = row.upn;
  display_name = row.display_name;
  groups = row.groups;
  device_id = none;
  access_token = none;
  id_token = none;
  expires_at = none;
}

unfoldable pub get_principal : Dict String PrincipalRow → String → Option Principal
get_principal rows principal_id = elim (lookup principal_id rows) [
  | none ↦ none
  | some row ↦ some (row_to_principal principal_id row)
]

unfoldable pub list_principals : Dict String PrincipalRow → ℕ → List Principal
list_principals rows limit =
    map (λ (item : String × PrincipalRow). row_to_principal item.0 item.1)
      (take limit (
        sorted
          (λ (a : String × PrincipalRow) (b : String × PrincipalRow).
            leb b.1.last_seen a.1.last_seen)
          rows))

pub record DeviceRecord : Type 0 where
  pub device_id : String
  pub owner_principal_id : String
  pub platform : String
  pub last_sync : ℕ
  pub revoked : Bool

abbrev pub Devices : Type 0
Devices = Dict String DeviceRecord

-- `sys_platform` stands for `sys.platform`, which takes the place of an empty text.
unfoldable pub register : String → Devices → String → String → String → ℕ → Devices × DeviceRecord
register sys_platform devices device_id owner platform now =
    let device : DeviceRecord = record {
      device_id = device_id;
      owner_principal_id = owner;
      platform = if platform == "" then sys_platform else platform;
      last_sync = now;
      revoked = false;
    } in
    (replace device_id device devices, device)

unfoldable pub get_device : Devices → String → Option DeviceRecord
get_device devices device_id = lookup device_id devices

unfoldable pub list_all : Devices → List DeviceRecord
list_all devices =
    sorted (λ (a : DeviceRecord) (b : DeviceRecord). leb b.last_sync a.last_sync)
      (map (λ item. item.1) devices)

unfoldable pub revoke : Devices → String → Devices × Bool
revoke devices device_id = elim (lookup device_id devices) [
  | none ↦ (devices, false)
  | some device ↦ (put device_id (record device { revoked = true }) devices, true)
]

unfoldable pub touch : Devices → String → ℕ → Devices × Bool
touch devices device_id now = elim (lookup device_id devices) [
  | none ↦ (devices, false)
  | some device ↦ (put device_id (record device { last_sync = now }) devices, true)
]
