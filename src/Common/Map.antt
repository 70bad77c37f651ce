-- ===== src/Common/Map.antt =====
-- A Go map, or a sync.Map, as an association list: the laws below are all that is used of it.
use mathlib.Core.Path.{◌≡◌, ap}
use mathlib.Core.Logic.{◌↔◌}
use mathlib.Core.Bool.{Bool, true, ◌&&◌}
use mathlib.Core.Option.{Option, none, some}
use mathlib.Core.List.{List, [], ◌∷◌}
use Prim.Native.Nat.{ℕ, ◌≤◌}
use native.Mathlib.Omega.{arith}
use pantau.Common.Tests.{◌==◌, ==_iff, &&_iff, if◌then◌else◌}
use pantau.Common.Lists.{length}
use pantau.Common.Text.{Text, teq, teq_iff}

-- Keys with a test that decides equality.
pub record Key {ℓ} (K : Type ℓ) : Type ℓ where
  pub same : K → K → Bool
  pub same_iff : (a b : K) → (same a b ≡ true) ↔ (a ≡ b)

instance abbrev pub number_key : Key ℕ
number_key = record { same = λ a b. a == b; same_iff = ==_iff }

instance abbrev pub text_key : Key Text
text_key = record { same = teq; same_iff = teq_iff }

abbrev pub Map {ℓ κ} : Type ℓ → Type κ → Type (ℓ ⊔ κ)
Map K V = List (K × V)

module _ {ℓ κ} {K : Type ℓ} {V : Type κ} ⦃e : Key K⦄ where
  unfoldable pub lookup : K → Map K V → Option V
  lookup k [] = none
  lookup k ((j, v) ∷ m) = if e.same j k then some v else lookup k m

  unfoldable pub delete : K → Map K V → Map K V
  delete k [] = []
  delete k ((j, v) ∷ m) = let rest = delete k m in if e.same j k then rest else (j, v) ∷ rest

  unfoldable pub store : K → V → Map K V → Map K V
  unfolding delete
  store k v m = (k, v) ∷ delete k m

  pub lookup-delete :
      (k j : K) (m : Map K V) → lookup j (delete k m) ≡ (if e.same k j then none else lookup j m)
  unfolding lookup delete
  lookup-delete k j [] = ground arith
  lookup-delete k j ((i, v) ∷ m) =
      ground (arith, lookup-delete k j m, e.same_iff i k, e.same_iff i j, e.same_iff k j)

  pub lookup-store :
      (k j : K) (v : V) (m : Map K V)
      → lookup j (store k v m) ≡ (if e.same k j then some v else lookup j m)
  unfolding lookup store
  lookup-store k j v m = ground (arith, lookup-delete k j m)

  pub lookup-delete_self : (k : K) (m : Map K V) → lookup k (delete k m) ≡ none
  lookup-delete_self k m = ground (arith, lookup-delete k k m, e.same_iff k k)

  pub lookup-store_self : (k : K) (v : V) (m : Map K V) → lookup k (store k v m) ≡ some v
  lookup-store_self k v m = ground (arith, lookup-store k k v m, e.same_iff k k)

  pub length-delete : (k : K) (m : Map K V) → length (delete k m) ≤ length m
  unfolding delete
  length-delete k [] = omega arith
  length-delete k ((j, v) ∷ m) = ground (arith, length-delete k m)

-- Keys of several columns.
module _ {ℓ κ} {A : Type ℓ} {B : Type κ} ⦃a : Key A⦄ ⦃b : Key B⦄ where
  abbrev pub same_pair : A × B → A × B → Bool
  same_pair p q = a.same p.0 q.0 && b.same p.1 q.1

  same_parts : (p q : A × B) → p.0 ≡ q.0 → p.1 ≡ q.1 → p ≡ q
  same_parts p q e f = λ i. (e i, f i)

  pub same_pair_iff : (p q : A × B) → (same_pair p q ≡ true) ↔ (p ≡ q)
  same_pair_iff p q = (
    λ h.
        let both = (&&_iff (a.same p.0 q.0) (b.same p.1 q.1)).0 h in
        same_parts p q ((a.same_iff p.0 q.0).0 both.0) ((b.same_iff p.1 q.1).0 both.1),
    λ e.
        (&&_iff (a.same p.0 q.0) (b.same p.1 q.1)).1
          ((a.same_iff p.0 q.0).1 (ap (λ r. r.0) e), (b.same_iff p.1 q.1).1 (ap (λ r. r.1) e)),
  )

  instance abbrev pub pair_key : Key (A × B)
  pair_key = record { same = same_pair; same_iff = same_pair_iff }
