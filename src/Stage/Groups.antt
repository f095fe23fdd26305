-- ===== src/Stage/Groups.antt =====
-- The groups of web/src/features/stage/lib.ts while they are collected: one for each rank, with the
-- rows of that rank so far, in their order.
use mathlib.Core.List.{append_assoc, append-nil}
use platform_for_sudies.Common.{
  ℕ, Bool, false, Option, none, some, List, [], ◌∷◌, ◌++◌, ◌≡◌, ◌≢◌, refl, sym, ◌∙◌, subst, inl,
  inr, Bool-cases, All, filter, if-elim, if-elim_known, ◌==◌, arith, if◌then◌else◌,
}
use platform_for_sudies.Api.{RankingRow}
use platform_for_sudies.Stage.{RankGroup, add_to_group, group_row, group_rows}

-- No group has this rank.
abbrev IsNew : ℕ → List RankGroup → Type 0
IsNew n groups = All (λ (h : RankGroup). n ≢ h.rank) groups

-- No two groups have the same rank.
abbrev pub IsDistinct : List RankGroup → Type 0
IsDistinct [] = Unit
IsDistinct (g ∷ groups) = All (λ h. g.rank ≢ h.rank) groups × IsDistinct groups

add_to_group-All :
    (P : ℕ → Type 0) (rank : ℕ) (row : RankingRow) (groups : List RankGroup)
    → P rank
    → All (λ g. P g.rank) groups
    → All (λ g. P g.rank) (add_to_group rank row groups)
unfolding add_to_group
add_to_group-All P rank row [] p h = (p, tt)
add_to_group-All P rank row (g ∷ groups) p (q, h) =
    if-elim (All (λ x. P x.rank)) (g.rank == rank) _ _ (q, h)
      (q, add_to_group-All P rank row groups p h)

add_to_group-IsDistinct :
    (rank : ℕ) (row : RankingRow) (groups : List RankGroup)
    → IsDistinct groups
    → IsDistinct (add_to_group rank row groups)
unfolding add_to_group
add_to_group-IsDistinct rank row [] h = (tt, tt)
add_to_group-IsDistinct rank row (g ∷ groups) (apart, h) = elim (Bool-cases (g.rank == rank)) [
  | inl same ↦ rw (same, add_to_group) (apart, h)
  | inr other ↦
      let ne : g.rank ≢ rank = λ e. absurd (ground arith) in
      rw (other, add_to_group)
        (
          add_to_group-All (λ n. g.rank ≢ n) rank row groups ne apart,
          add_to_group-IsDistinct rank row groups h,
        )
]

abbrev is_rank : Option ℕ → ℕ → Bool
is_rank none n = false
is_rank (some rank) n = rank == n

abbrev pub has_rank : ℕ → RankingRow → Bool
has_rank n row = is_rank row.rank n

-- The group holds the rows of its rank, all of them and in their order.
abbrev pub IsWhole : List RankingRow → RankGroup → Type 0
IsWhole rows g = g.rows ≡ filter (has_rank g.rank) rows

filter-append :
    (p : RankingRow → Bool) (xs ys : List RankingRow)
    → filter p (xs ++ ys) ≡ filter p xs ++ filter p ys
filter-append p [] ys = refl
filter-append p (x ∷ xs) ys = ground (arith, filter-append p xs ys)

filter-more :
    (n : ℕ) (pre : List RankingRow) (row : RankingRow)
    → filter (has_rank n) (pre ++ row ∷ [])
      ≡ filter (has_rank n) pre ++ (if has_rank n row then row ∷ [] else [])
filter-more n pre row = ground (arith, filter-append (has_rank n) pre (row ∷ []))

-- The row is of another rank than all of these groups.
others-IsWhole :
    (rank : ℕ) (row : RankingRow) (pre : List RankingRow) (groups : List RankGroup)
    → row.rank ≡ some rank
    → All (λ h. rank ≢ h.rank) groups
    → All (IsWhole pre) groups
    → All (IsWhole (pre ++ row ∷ [])) groups
others-IsWhole rank row pre [] e a h = tt
others-IsWhole rank row pre (g ∷ groups) e (p, a) (w, h) = (
  ground (arith, filter-more g.rank pre row, append-nil (filter (has_rank g.rank) pre), w, e, p),
  others-IsWhole rank row pre groups e a h,
)

add_to_group-IsWhole :
    (rank : ℕ) (row : RankingRow) (pre : List RankingRow) (groups : List RankGroup)
    → row.rank ≡ some rank
    → IsDistinct groups
    → (All (λ h. rank ≢ h.rank) groups → filter (has_rank rank) pre ≡ [])
    → All (IsWhole pre) groups
    → All (IsWhole (pre ++ row ∷ [])) (add_to_group rank row groups)
unfolding add_to_group
add_to_group-IsWhole rank row pre [] e d new h =
    (ground (arith, filter-more rank pre row, new tt, e), tt)
add_to_group-IsWhole rank row pre (g ∷ groups) e (apart, d) new (w, h) =
    elim (Bool-cases (g.rank == rank)) [
      | inl same ↦
          let r : g.rank ≡ rank = ground arith in
          rw (same, add_to_group)
            (
              ground (arith, filter-more g.rank pre row, w, e, r),
              others-IsWhole rank row pre groups e
                  (subst (λ n. All (λ h. n ≢ h.rank) groups) r apart) h,
            )
      | inr other ↦
          let ne : rank ≢ g.rank = λ q. absurd (ground arith) in
          rw (other, add_to_group)
            (
              ground (
                arith,
                filter-more g.rank pre row,
                append-nil (filter (has_rank g.rank) pre),
                w,
                e,
              ),
              add_to_group-IsWhole rank row pre groups e d (λ a. new (ne, a)) h,
            )
    ]

-- A rank that no group has after a row is added is not the row's, and no group had it before.
add_to_group-others :
    (n rank : ℕ) (row : RankingRow) (groups : List RankGroup)
    → All (λ h. n ≢ h.rank) (add_to_group rank row groups)
    → (n ≢ rank) × All (λ h. n ≢ h.rank) groups
unfolding add_to_group
add_to_group-others n rank row [] (p, a) = (p, tt)
add_to_group-others n rank row (g ∷ groups) a =
    if-elim_known (λ gs. IsNew n gs → (n ≢ rank) × IsNew n (g ∷ groups)) (g.rank == rank) _ _
      (λ same (b : (n ≢ g.rank) × IsNew n groups).
        let r : g.rank ≡ rank = ground arith in ((λ q. b.0 (q ∙ sym r)), b))
      (λ (b : (n ≢ g.rank) × IsNew n (add_to_group rank row groups)).
        let (x, y) = add_to_group-others n rank row groups b.1 in (x, (b.0, y)))
      a

unranked :
    (row : RankingRow) (pre : List RankingRow) (groups : List RankGroup)
    → row.rank ≡ none
    → All (IsWhole pre) groups
    → All (IsWhole (pre ++ row ∷ [])) groups
unranked row pre [] e h = tt
unranked row pre (g ∷ groups) e (w, h) = (
  ground (arith, filter-more g.rank pre row, append-nil (filter (has_rank g.rank) pre), w, e),
  unranked row pre groups e h,
)

-- Groups that were collected from the rows so far.
record IsCollected (pre : List RankingRow) (groups : List RankGroup) : Type 0 where
  distinct : IsDistinct groups
  whole : All (IsWhole pre) groups
  absent : (n : ℕ) → All (λ h. n ≢ h.rank) groups → filter (has_rank n) pre ≡ []

group_row-IsCollected :
    (rank : Option ℕ) (row : RankingRow) (pre : List RankingRow) (groups : List RankGroup)
    → row.rank ≡ rank
    → IsCollected pre groups
    → IsCollected (pre ++ row ∷ []) (group_row rank row groups)
group_row-IsCollected none row pre groups e h = record {
  distinct = h.distinct;
  whole = unranked row pre groups e h.whole;
  absent = λ n a. ground (arith, filter-more n pre row, h.absent n a, e);
}
group_row-IsCollected (some rank) row pre groups e h = record {
  distinct = add_to_group-IsDistinct rank row groups h.distinct;
  whole = add_to_group-IsWhole rank row pre groups e h.distinct (h.absent rank) h.whole;
  absent = λ n a.
      let (ne, before) = add_to_group-others n rank row groups a in
      ground (arith, filter-more n pre row, h.absent n before, e, λ (q : rank ≡ n). ne (sym q));
}

group_rows-IsCollected :
    (rows pre : List RankingRow) (groups : List RankGroup)
    → IsCollected pre groups
    → IsCollected (pre ++ rows) (group_rows rows groups)
unfolding group_rows
group_rows-IsCollected [] pre groups h =
    subst (λ xs. IsCollected xs groups) (sym (append-nil pre)) h
group_rows-IsCollected (row ∷ rows) pre groups h =
    subst (λ xs. IsCollected xs (group_rows rows (group_row row.rank row groups)))
      (append_assoc pre (row ∷ []) rows)
      (group_rows-IsCollected rows (pre ++ row ∷ []) (group_row row.rank row groups)
        (group_row-IsCollected row.rank row pre groups refl h))

pub group_rows-IsWhole : (rows : List RankingRow) → All (IsWhole rows) (group_rows rows [])
group_rows-IsWhole rows =
    (group_rows-IsCollected rows [] []
      (record { distinct = tt; whole = tt; absent = λ n a. refl })).whole

pub group_rows-IsDistinct : (rows : List RankingRow) → IsDistinct (group_rows rows [])
group_rows-IsDistinct rows =
    (group_rows-IsCollected rows [] []
      (record { distinct = tt; whole = tt; absent = λ n a. refl })).distinct
