-- ===== src/Common/Dict.antt =====
-- Go maps as association lists with at most one entry for a key, over any key type with a test
-- for equality. Iteration is `entries`, in an order that no theorem depends on.
use mathlib.Core.Path.{◌≡◌, refl}
use mathlib.Core.Logic.{◌↔◌}
use mathlib.Core.Bool.{Bool, true}
use mathlib.Core.Option.{Option, none, some}
use mathlib.Core.List.{List, [], ◌∷◌}
use native.Mathlib.Omega.{arith}
use Prim.Native.Nat.{ℕ}
use meshtastic_go.Common.Tests.{◌==◌, ==_iff, if◌then◌else◌}
use meshtastic_go.Common.ByteStrings.{Bytes, bytes_eq, bytes_eq_iff}

pub record Eq {ℓ} (K : Type ℓ) : Type ℓ where
  pub eqb : K → K → Bool
  pub eqb_iff : (a b : K) → (eqb a b ≡ true) ↔ (a ≡ b)

instance abbrev pub nat_eq : Eq ℕ
nat_eq = record { eqb = ◌==◌; eqb_iff = ==_iff }

instance abbrev pub bytes_key : Eq Bytes
bytes_key = record { eqb = bytes_eq; eqb_iff = bytes_eq_iff }

abbrev pub Dict {ℓ κ} : Type ℓ → Type κ → Type (ℓ ⊔ κ)
Dict K V = List (K × V)

abbrev pub unless {κ} : {V : Type κ} → (V → Bool) → Option V → Option V
unless p none = none
unless p (some v) = if p v then none else some v

module _ {ℓ κ} {K : Type ℓ} {V : Type κ} ⦃e : Eq K⦄ where
  unfoldable pub lookup : K → Dict K V → Option V
  lookup k [] = none
  lookup k ((j, v) ∷ m) = let rest = lookup k m in if e.eqb j k then some v else rest

  unfoldable pub delete : K → Dict K V → Dict K V
  delete k [] = []
  delete k ((j, v) ∷ m) = let rest = delete k m in if e.eqb j k then rest else (j, v) ∷ rest

  unfoldable pub insert : K → V → Dict K V → Dict K V
  unfolding delete
  insert k v m = (k, v) ∷ delete k m

  -- `for k, v := range m { if drop(v) { delete(m, k) } }`
  unfoldable pub delete_if : (V → Bool) → Dict K V → Dict K V
  unfolding delete
  delete_if p [] = []
  delete_if p ((j, v) ∷ m) =
      let rest = delete_if p m in if p v then delete j rest else (j, v) ∷ rest

  pub lookup-delete :
      (k j : K) (m : Dict K V) → lookup j (delete k m) ≡ (if e.eqb k j then none else lookup j m)
  unfolding lookup delete
  lookup-delete k j [] = ground arith
  lookup-delete k j ((i, v) ∷ m) =
      ground (arith, lookup-delete k j m, e.eqb_iff i k, e.eqb_iff i j, e.eqb_iff k j)

  pub lookup-insert :
      (k j : K) (v : V) (m : Dict K V)
      → lookup j (insert k v m) ≡ (if e.eqb k j then some v else lookup j m)
  unfolding insert lookup
  lookup-insert k j v m = ground (arith, lookup-delete k j m)

  pub lookup-delete_if :
      (p : V → Bool) (k : K) (m : Dict K V) → lookup k (delete_if p m) ≡ unless p (lookup k m)
  unfolding lookup delete_if
  lookup-delete_if p k [] = refl
  lookup-delete_if p k ((j, v) ∷ m) =
      ground (arith, lookup-delete_if p k m, e.eqb_iff j k, lookup-delete j k (delete_if p m))
