-- ===== src/ControlRoom/Laws.antt =====
-- The life of an event and the order of lists in web/src/features/control-room/lib.ts.
use mathlib.Core.List.Perm
use mathlib.Core.List.{Perm}
use platform_for_sudies.Common.{
  ℕ, zero, suc, ◌+◌, ◌<◌, true, false, Option, none, some, List, [], ◌∷◌, ◌≡◌, refl, inl, inr, ◌⊎◌,
  All, arith, length, get_elem?, leb, if-elim, subst, sym,
}
use platform_for_sudies.Api.{EventStatus, draft, judging, locked, finalized, published}
use platform_for_sudies.ControlRoom.{
  LifecycleAction, lifecycle, Delta, target, insert_at, remove_at, put_back, moved, move_item,
}

-- The place of a status in the life of an event.
abbrev pub stage_of : EventStatus → ℕ
stage_of draft = 0
stage_of judging = 1
stage_of locked = 2
stage_of finalized = 3
stage_of published = 4

abbrev pub IsNeighbour : EventStatus → LifecycleAction → Type 0
IsNeighbour from a =
    ((stage_of a.to ≡ stage_of from + 1) × (a.primary ≡ true) × (a.reason_required ≡ false))
    ⊎ ((stage_of from ≡ stage_of a.to + 1) × (a.primary ≡ false))

-- Every action of the life cycle leads one stage on, as the main action and without a reason, or
-- one stage back, as a minor one.
pub lifecycle-IsNeighbour : (from : EventStatus) → All (IsNeighbour from) (lifecycle from)
unfolding lifecycle
lifecycle-IsNeighbour draft = (inl (refl, refl, refl), tt)
lifecycle-IsNeighbour judging = (inl (refl, refl, refl), tt)
lifecycle-IsNeighbour locked = (inl (refl, refl, refl), (inr (refl, refl), tt))
lifecycle-IsNeighbour finalized = (inl (refl, refl, refl), (inr (refl, refl), tt))
lifecycle-IsNeighbour published = (inr (refl, refl), tt)

module _ {ℓ} {A : Type ℓ} where
  insert_at-perm : (n : ℕ) (x : A) (xs : List A) → Perm (insert_at n x xs) (x ∷ xs)
  insert_at-perm zero x xs = Perm.refl _
  insert_at-perm (suc n) x [] = Perm.refl _
  insert_at-perm (suc n) x (y ∷ xs) =
      Perm.trans (Perm.cons y (insert_at-perm n x xs)) (Perm.swap x y xs)

  remove_at-perm :
      (i : ℕ) (xs : List A) (x : A) → get_elem? xs i ≡ some x → Perm (x ∷ remove_at i xs) xs
  remove_at-perm i [] x e = absurd (ground arith)
  remove_at-perm zero (y ∷ xs) x e =
      let same : y ≡ x = ground arith in subst (λ z. Perm (z ∷ xs) (y ∷ xs)) same (Perm.refl _)
  remove_at-perm (suc i) (y ∷ xs) x e =
      Perm.trans (Perm.swap y x (remove_at i xs)) (Perm.cons y (remove_at-perm i xs x e))

  get_elem?-some : (i : ℕ) (xs : List A) → i < length xs → (x : A) × (get_elem? xs i ≡ some x)
  get_elem?-some i [] h = absurd (omega arith)
  get_elem?-some zero (x ∷ xs) h = (x, refl)
  get_elem?-some (suc i) (x ∷ xs) h = get_elem?-some i xs (omega arith)

  moved-perm :
      (items : List A) (index : ℕ) (to : Option ℕ)
      → index < length items
      → Perm (moved items index to) items
  moved-perm items index none h = Perm.refl items
  moved-perm items index (some to) h =
      let (item, e) = get_elem?-some index items h in
      if-elim (λ xs. Perm xs items) (leb (length items) to) _ _ (Perm.refl items)
        (subst (λ o. Perm (put_back o to (remove_at index items)) items) (sym e)
          (Perm.trans (insert_at-perm to item (remove_at index items))
            (remove_at-perm index items item e)))

  -- Moving an item of a list keeps the items: none is lost, none is doubled, whatever the target.
  pub move_item-perm :
      (items : List A) (index : ℕ) (delta : Delta)
      → index < length items
      → Perm (move_item items index delta) items
  unfolding move_item
  move_item-perm items index delta h = moved-perm items index (target index delta) h
