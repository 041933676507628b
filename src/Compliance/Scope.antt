-- ===== src/Compliance/Scope.antt =====
-- Which devices a policy covers: `scoped_device_ids` of src/kiroku/compliance.py.
use bmu.Prelude.{add_new, add_new-Distinct, In-add_new, ℕ, ◌↔◌, List, [], ◌∷◌, arith, map}
use bmu.Prelude.{Some, In, Distinct, nat_eq, inl, inr, ◌⊎◌}
use bmu.Models.Device.{Device, DeviceGroup}
use bmu.Models.Compliance.{CompliancePolicy}
use bmu.Compliance.{add_unseen, add_groups, scoped_device_ids}

-- The ids of devices, in order.
abbrev pub ids : List Device → List ℕ
ids ds = map (λ d. d.id) ds

add_unseen-Distinct :
    (result : List ℕ) (ds : List Device) → Distinct result → Distinct (add_unseen result ds)
unfolding add_unseen
add_unseen-Distinct result [] h = h
add_unseen-Distinct result (d ∷ ds) h =
    add_unseen-Distinct (add_new d.id result) ds (add_new-Distinct d.id result h)

In-add_unseen :
    (a : ℕ) (result : List ℕ) (ds : List Device)
    → In a (add_unseen result ds) ↔ (In a result ⊎ In a (ids ds))
unfolding add_unseen
In-add_unseen a result [] = (λ h. inl h, elim [ inl h ↦ h | inr h ↦ absurd h ])
In-add_unseen a result (d ∷ ds) =
    ground (arith, In-add_unseen a (add_new d.id result) ds, In-add_new a d.id result)

-- The id is that of a device of one of the groups.
abbrev pub InGroups : ℕ → List DeviceGroup → Type 0
InGroups a gs = Some (λ g. In a (ids g.devices)) gs

add_groups-Distinct :
    (result : List ℕ) (gs : List DeviceGroup) → Distinct result → Distinct (add_groups result gs)
unfolding add_groups
add_groups-Distinct result [] h = h
add_groups-Distinct result (g ∷ gs) h =
    add_groups-Distinct (add_unseen result g.devices) gs (add_unseen-Distinct result g.devices h)

In-add_groups :
    (a : ℕ) (result : List ℕ) (gs : List DeviceGroup)
    → In a (add_groups result gs) ↔ (In a result ⊎ InGroups a gs)
unfolding add_groups
In-add_groups a result [] = (λ h. inl h, elim [ inl h ↦ h | inr h ↦ absurd h ])
In-add_groups a result (g ∷ gs) =
    ground
      (arith, In-add_groups a (add_unseen result g.devices) gs, In-add_unseen a result g.devices)

-- The devices in scope are listed once each, and they are exactly the devices of the policy's
-- groups and its own devices.
pub scoped_device_ids-In :
    (policy : CompliancePolicy) (a : ℕ)
    → Distinct (scoped_device_ids policy)
      × (In a (scoped_device_ids policy)
          ↔ (InGroups a policy.device_groups ⊎ In a (ids policy.devices)))
unfolding scoped_device_ids
scoped_device_ids-In policy a = (
  add_unseen-Distinct _ policy.devices (add_groups-Distinct [] policy.device_groups tt),
  ground (
    arith,
    In-add_unseen a (add_groups [] policy.device_groups) policy.devices,
    In-add_groups a [] policy.device_groups,
  ),
)
