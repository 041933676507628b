-- ===== src/Dispatch/Targets.antt =====
-- Which devices a job runs on, and through which group: the loops of `fire_job`.
use bmu.Prelude.{
  iff_chain, add_new, add_new-Distinct, In-add_new, ℕ, ◌≡◌, ◌↔◌, refl, ap, true, ◌&&◌, not, List,
  [], ◌∷◌, ◌++◌, arith,
}
use bmu.Prelude.{Option, none, some, All, Some, In, Distinct, contains, if◌then◌else◌, nat_eq}
use bmu.Prelude.{inl, inr, ◌⊎◌, Bool-cases, All-append}
use bmu.Models.Device.{Device, DeviceGroup}
use bmu.Models.Job.{Job}
use bmu.Dispatch.Specs.{Target, target_ids, add_targets, add_group_targets, device_group_pairs}

-- The id is that of an enabled device of the list.
abbrev pub Listed : ℕ → List Device → Type 0
Listed a ds = Some (λ d. (d.enabled ≡ true) × (a ≡ d.id)) ds

abbrev pub ListedInGroups : ℕ → List DeviceGroup → Type 0
ListedInGroups a gs = Some (λ g. Listed a g.devices) gs

module _ (group : Option DeviceGroup) where
  abbrev next : List Target → Device → List Target
  next pairs d =
      if d.enabled && not (contains d.id (target_ids pairs))
      then pairs ++ (d, group) ∷ []
      else pairs

  target_ids-snoc :
      (pairs : List Target) (d : Device)
      → target_ids (pairs ++ (d, group) ∷ []) ≡ target_ids pairs ++ d.id ∷ []
  target_ids-snoc [] d = refl
  target_ids-snoc (p ∷ ps) d = ap (λ l. p.0.id ∷ l) (target_ids-snoc ps d)

  abbrev next_ids : List ℕ → Device → List ℕ
  next_ids ids d = if d.enabled then add_new d.id ids else ids

  target_ids-next :
      (pairs : List Target) (d : Device) → target_ids (next pairs d) ≡ next_ids (target_ids pairs) d
  target_ids-next pairs d = ground (arith, target_ids-snoc pairs d)

  next_ids-Distinct : (ids : List ℕ) (d : Device) → Distinct ids → Distinct (next_ids ids d)
  next_ids-Distinct ids d h = elim (Bool-cases d.enabled) [
    | inl on ↦ rw on (add_new-Distinct d.id ids h)
    | inr off ↦ rw off h
  ]

  In-next_ids :
      (a : ℕ) (ids : List ℕ) (d : Device)
      → In a (next_ids ids d) ↔ (In a ids ⊎ ((d.enabled ≡ true) × (a ≡ d.id)))
  In-next_ids a ids d = elim (Bool-cases d.enabled) [
    | inl on ↦ rw on (ground (arith, In-add_new a d.id ids))
    | inr off ↦ rw off ((λ m. inl m), elim [ inl m ↦ m | inr h ↦ absurd (cc (h.0)) ])
  ]

  add_targets-Distinct :
      (pairs : List Target) (ds : List Device)
      → Distinct (target_ids pairs)
      → Distinct (target_ids (add_targets group pairs ds))
  unfolding add_targets
  add_targets-Distinct pairs [] h = h
  add_targets-Distinct pairs (d ∷ ds) h =
      add_targets-Distinct (next pairs d) ds
        (rw target_ids-next (next_ids-Distinct (target_ids pairs) d h))

  In-add_targets :
      (a : ℕ) (pairs : List Target) (ds : List Device)
      → In a (target_ids (add_targets group pairs ds)) ↔ (In a (target_ids pairs) ⊎ Listed a ds)
  unfolding add_targets
  In-add_targets a pairs [] = (λ m. inl m, elim [ inl m ↦ m | inr m ↦ absurd m ])
  In-add_targets a pairs (d ∷ ds) =
      iff_chain (In-add_targets a (next pairs d) ds)
        (rw target_ids-next (In-next_ids a (target_ids pairs) d))

add_group_targets-Distinct :
    (pairs : List Target) (gs : List DeviceGroup)
    → Distinct (target_ids pairs)
    → Distinct (target_ids (add_group_targets pairs gs))
unfolding add_group_targets
add_group_targets-Distinct pairs [] h = h
add_group_targets-Distinct pairs (g ∷ gs) h =
    add_group_targets-Distinct (add_targets (some g) pairs g.devices) gs
      (add_targets-Distinct (some g) pairs g.devices h)

In-add_group_targets :
    (a : ℕ) (pairs : List Target) (gs : List DeviceGroup)
    → In a (target_ids (add_group_targets pairs gs))
      ↔ (In a (target_ids pairs) ⊎ ListedInGroups a gs)
unfolding add_group_targets
In-add_group_targets a pairs [] = (λ m. inl m, elim [ inl m ↦ m | inr m ↦ absurd m ])
In-add_group_targets a pairs (g ∷ gs) =
    iff_chain (In-add_group_targets a (add_targets (some g) pairs g.devices) gs)
      (In-add_targets (some g) a pairs g.devices)

-- A job runs on each device at most once, and on exactly the enabled devices of its groups and
-- its own enabled devices.
pub device_group_pairs-In :
    (job : Job) (a : ℕ)
    → Distinct (target_ids (device_group_pairs job))
      × (In a (target_ids (device_group_pairs job))
          ↔ (ListedInGroups a job.device_groups ⊎ Listed a job.devices))
unfolding device_group_pairs
device_group_pairs-In job a =
    let grouped = add_group_targets [] job.device_groups in
    (
      add_targets-Distinct none grouped job.devices
          (add_group_targets-Distinct [] job.device_groups tt),
      ground (
        arith,
        In-add_targets none a grouped job.devices,
        In-add_group_targets a [] job.device_groups,
      ),
    )

-- How a target came in: through a group that it belongs to, or as a device of the job itself. It
-- is enabled.
abbrev pub Through : Job → Target → Type 0
Through job (d, none) = (d.enabled ≡ true) × In d job.devices
Through job (d, some g) = (d.enabled ≡ true) × In d g.devices × In g job.device_groups

module _ (job : Job) (group : Option DeviceGroup) where
  add_targets-Through :
      (pairs : List Target) (ds : List Device)
      → ((d : Device) → In d ds → d.enabled ≡ true → Through job (d, group))
      → All (Through job) pairs
      → All (Through job) (add_targets group pairs ds)
  unfolding add_targets
  add_targets-Through pairs [] f h = h
  add_targets-Through pairs (d ∷ ds) f h =
      add_targets-Through (next group pairs d) ds (λ x m. f x (inr m))
        (elim (Bool-cases d.enabled) [
          | inr off ↦ rw off h
          | inl on ↦ elim (Bool-cases (contains d.id (target_ids pairs))) [
            | inl old ↦ rw (on, old) h
            | inr new ↦
                simp (on, new)
                  (All-append (Through job) pairs ((d, group) ∷ []) h (f d (inl refl) on, tt))
          ]
        ])

add_group_targets-Through :
    (job : Job) (pairs : List Target) (gs : List DeviceGroup)
    → ((g : DeviceGroup) → In g gs → In g job.device_groups)
    → All (Through job) pairs
    → All (Through job) (add_group_targets pairs gs)
unfolding add_group_targets
add_group_targets-Through job pairs [] f h = h
add_group_targets-Through job pairs (g ∷ gs) f h =
    add_group_targets-Through job (add_targets (some g) pairs g.devices) gs (λ x m. f x (inr m))
      (add_targets-Through job (some g) pairs g.devices (λ d m on. (on, m, f g (inl refl))) h)

-- Each target is enabled, and is paired with one of the job's groups that it belongs to, or with
-- no group and then is a device of the job itself.
pub device_group_pairs-Through : (job : Job) → All (Through job) (device_group_pairs job)
unfolding device_group_pairs
device_group_pairs-Through job =
    add_targets-Through job none (add_group_targets [] job.device_groups) job.devices
      (λ d m on. (on, m)) (add_group_targets-Through job [] job.device_groups (λ g m. m) tt)
