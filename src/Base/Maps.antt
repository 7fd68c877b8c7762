-- ===== src/Base/Maps.antt =====
-- A Python dict of which neither the order nor the size is observed, as a function.
use mathlib.Core.Option.{Option, none, some}
use b8mon.Base.Tests.{Eq, ◌==◌, if◌then◌else◌}

abbrev pub Map {ℓ κ} : Type ℓ → Type κ → Type (ℓ ⊔ κ)
Map K V = K → Option V

-- `{}`
abbrev pub no_entries {ℓ κ} : {K : Type ℓ} {V : Type κ} → Map K V
no_entries k = none

module _ {ℓ κ} {K : Type ℓ} {V : Type κ} ⦃e : Eq K⦄ where
  -- `m[k] = v`
  abbrev pub assign : K → V → Map K V → Map K V
  assign k v m j = if k == j then some v else m j

  -- `m.pop(k, None)`
  abbrev pub discard : K → Map K V → Map K V
  discard k m j = if k == j then none else m j
