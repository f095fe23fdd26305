-- ===== src/Common/Objects.antt =====
-- JavaScript objects and Maps with string keys: entries in insertion order, a write to a present
-- key keeps its place.
use Prim.Native.String.{String}
use mathlib.Core.Path.{◌≡◌, refl, sym, subst, subst₂, ◌∙◌}
use mathlib.Core.Logic.{inl, inr}
use mathlib.Core.Bool.{Bool}
use mathlib.Core.List.{List, [], ◌∷◌}
use mathlib.Core.Option.{Option, none, some}
use native.Mathlib.Omega.{arith}
use text.Mathlib.Text.{◌==◌ as str_eq}
use text.Mathlib.TextEquality.{eq_iff}
use text.Mathlib.TextPositions.{eq_refl}
use platform_for_sudies.Common.Lists.{All, All-impl}
use platform_for_sudies.Common.Tests.{
  if◌then◌else◌, is_some, and_then, Bool-cases, str_eq→eq, str_eq→ne, ne→str_eq,
}

abbrev pub Dict {ℓ} : Type ℓ → Type ℓ
Dict V = List (String × V)

module _ {ℓ} {V : Type ℓ} where
  -- `m[k]`, `m.get(k)`
  unfoldable pub lookup : String → Dict V → Option V
  lookup k [] = none
  lookup k ((j, v) ∷ m) = if str_eq j k then some v else lookup k m

  -- `m[k] = v`, `m.set(k, v)`
  unfoldable pub insert : String → V → Dict V → Dict V
  insert k v [] = (k, v) ∷ []
  insert k v ((j, w) ∷ m) = if str_eq j k then (k, v) ∷ m else (j, w) ∷ insert k v m

  -- `Object.entries(m).filter(([k, v]) => p(k, v))`, as an object again
  unfoldable pub select : (String → V → Bool) → Dict V → Dict V
  select p [] = []
  select p ((j, v) ∷ m) = if p j v then (j, v) ∷ select p m else select p m

  -- `delete m[k]`
  unfoldable pub remove : String → Dict V → Dict V
  remove k [] = []
  remove k ((j, v) ∷ m) = if str_eq j k then remove k m else (j, v) ∷ remove k m

  -- `k in m`, `m.has(k)`
  abbrev pub has : String → Dict V → Bool
  has k m = is_some (lookup k m)

  -- `Object.values(m)`
  abbrev pub values : Dict V → List V
  values [] = []
  values ((j, v) ∷ m) = v ∷ values m

  -- `Object.keys(m)`
  abbrev pub keys : Dict V → List String
  keys [] = []
  keys ((j, v) ∷ m) = j ∷ keys m

  pub lookup-insert :
      (written read : String) (v : V) (m : Dict V)
      → lookup read (insert written v m) ≡ (if str_eq written read then some v else lookup read m)
  unfolding lookup insert
  lookup-insert written read v [] = refl
  lookup-insert written read v ((head, old) ∷ rest) = ground (
    arith,
    lookup-insert written read v rest,
    eq_iff head written,
    eq_iff head read,
    eq_iff written read,
  )

  pub lookup-remove :
      (k j : String) (m : Dict V)
      → lookup j (remove k m) ≡ (if str_eq k j then none else lookup j m)
  unfolding lookup remove
  lookup-remove k j [] = ground arith
  lookup-remove k j ((i, w) ∷ m) =
      ground (arith, eq_iff k j, eq_iff i k, eq_iff i j, lookup-remove k j m)

-- No key twice, and every entry satisfies `P`: the shape of an object.
module _ {ℓ κ} {V : Type ℓ} (P : String → V → Type κ) where
  abbrev pub IsDict : Dict V → Type (ℓ ⊔ κ)
  IsDict [] = Unit
  IsDict ((k, v) ∷ m) = (lookup k m ≡ none) × P k v × IsDict m

  pub lookup-IsDict : (k : String) (m : Dict V) (v : V) → IsDict m → lookup k m ≡ some v → P k v
  unfolding lookup
  lookup-IsDict k [] v d e = cc
  lookup-IsDict k ((j, w) ∷ m) v d e = elim (Bool-cases (str_eq j k)) [
    | inl same ↦
        let found : some w ≡ some v = rw same at e in subst₂ P (str_eq→eq j k same) (cc found) d.1
    | inr other ↦ lookup-IsDict k m v d.2 (rw other at e)
  ]

  pub IsDict-insert : (k : String) (v : V) (m : Dict V) → P k v → IsDict m → IsDict (insert k v m)
  unfolding lookup insert
  IsDict-insert k v [] p d = (refl, p, tt)
  IsDict-insert k v ((j, w) ∷ m) p d = elim (Bool-cases (str_eq j k)) [
    | inl same ↦ rw (same, insert) (subst (λ i. lookup i m ≡ none) (str_eq→eq j k same) d.0, p, d.2)
    | inr other ↦
        rw (other, insert)
          (
            lookup-insert k j v m ∙ rw (ne→str_eq k j (λ e. str_eq→ne j k other (sym e))) d.0,
            d.1,
            IsDict-insert k v m p d.2,
          )
  ]

  pub IsDict-remove : (k : String) (m : Dict V) → IsDict m → IsDict (remove k m)
  unfolding lookup remove
  IsDict-remove k [] d = tt
  IsDict-remove k ((j, w) ∷ m) d = elim (Bool-cases (str_eq j k)) [
    | inl same ↦ rw (same, remove) (IsDict-remove k m d.2)
    | inr other ↦
        rw (other, remove)
          (
            lookup-remove k j m ∙ rw (ne→str_eq k j (λ e. str_eq→ne j k other (sym e))) d.0,
            d.1,
            IsDict-remove k m d.2,
          )
  ]

  pub lookup-select-none :
      (p : String → V → Bool) (k : String) (m : Dict V)
      → lookup k m ≡ none
      → lookup k (select p m) ≡ none
  unfolding lookup select
  lookup-select-none p k [] e = refl
  lookup-select-none p k ((j, v) ∷ m) e = ground (arith, lookup-select-none p k m)

  pub IsDict-select : (p : String → V → Bool) (m : Dict V) → IsDict m → IsDict (select p m)
  unfolding lookup select
  IsDict-select p [] d = tt
  IsDict-select p ((j, v) ∷ m) d = elim (Bool-cases (p j v)) [
    | inl kept ↦ rw (kept, select) (lookup-select-none p j m d.0, d.1, IsDict-select p m d.2)
    | inr gone ↦ rw (gone, select) (IsDict-select p m d.2)
  ]

  -- A filtered object holds the entries that pass, and no others.
  pub lookup-select :
      (p : String → V → Bool) (k : String) (m : Dict V)
      → IsDict m
      → lookup k (select p m) ≡ and_then (lookup k m) (λ v. if p k v then some v else none)
  unfolding lookup select
  lookup-select p k [] d = refl
  lookup-select p k ((j, v) ∷ m) d =
      ground (arith, eq_iff j k, lookup-select p k m d.2, lookup-select-none p k m)

  -- The entry that a value of the object stands in.
  abbrev pub HasEntry : Dict V → V → Type (ℓ ⊔ κ)
  HasEntry m v = (k : String) × (lookup k m ≡ some v) × P k v

  HasEntry-cons :
      (j : String) (w : V) (m : Dict V) (v : V)
      → lookup j m ≡ none
      → HasEntry m v
      → HasEntry ((j, w) ∷ m) v
  unfolding lookup
  HasEntry-cons j w m v fresh (k, e, p) = (k, ground (arith, eq_iff j k), p)

  pub All-values : (m : Dict V) → IsDict m → All (HasEntry m) (values m)
  unfolding lookup
  All-values [] d = tt
  All-values ((j, w) ∷ m) d = (
    (j, rw (eq_refl j), d.1),
    All-impl (λ v. HasEntry-cons j w m v d.0) (values m) (All-values m d.2),
  )
