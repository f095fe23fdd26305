-- ===== src/Tracks/Partition.antt =====
-- The groups of `groupByTrack` (web/src/lib/tracks.ts): a partition of the rows.
use mathlib.Core.Bool.{cond}
use mathlib.Core.List.Perm
use mathlib.Core.List.{Perm, perm_middle, append_assoc, append-nil}
use platform_for_sudies.Common.{
  String, Bool, true, false, not, ◌&&◌, Option, none, some, List, [], ◌∷◌, ◌++◌, map, filter,
  flat_map, is_nil, ◌≡◌, refl, ap, sym, ◌∙◌, subst, str_eq, eq_iff, arith,
}
use platform_for_sudies.Api.{Track}
use platform_for_sudies.Tracks.Distinct.{IsDistinct}
use platform_for_sudies.Tracks.{
  opt_eq, contains, TrackGroup, track_group, is_trackless, group_by_track,
}

module _ {ℓ} {A : Type ℓ} where
  -- What passes a test, followed by what does not, is all there is.
  filter-perm : (p : A → Bool) (xs : List A) → Perm (filter p xs ++ filter (λ x. not (p x)) xs) xs
  filter-perm p [] = Perm.refl []
  filter-perm p (x ∷ xs) = go (p x) (filter-perm p xs)
    where
      go :
          (b : Bool)
          → Perm (filter p xs ++ filter (λ y. not (p y)) xs) xs
          → Perm
              (cond b (x ∷ filter p xs) (filter p xs)
                ++ cond (not b) (x ∷ filter (λ y. not (p y)) xs) (filter (λ y. not (p y)) xs))
              (x ∷ xs)
      go true rest = Perm.cons x rest
      go false rest =
          Perm.trans (perm_middle (filter p xs) (filter (λ y. not (p y)) xs)) (Perm.cons x rest)

  -- A filter that comes first and drops only what the second drops too.
  filter-filter :
      (p q r : A → Bool)
      → ((x : A) → r x ≡ (q x && p x))
      → (xs : List A) → filter p (filter q xs) ≡ filter r xs
  filter-filter p q r h [] = refl
  filter-filter p q r h (x ∷ xs) = ground (arith, h x, filter-filter p q r h xs)

module _ {ℓ} {R : Type ℓ} (track_id : R → Option String) where
  abbrev is_of : Track → R → Bool
  is_of t r = opt_eq (track_id r) (some t.id)

  abbrev others : Track → List R → List R
  others t rows = filter (λ r. not (is_of t r)) rows

  abbrev in_tracks : List R → List Track → List R
  in_tracks rows tracks = flat_map (λ t. filter (is_of t) rows) tracks

  abbrev trackless : List R → List Track → List R
  trackless rows tracks = filter (is_trackless track_id tracks) rows

  -- A row of one track is not of another.
  other_track :
      (t u : Track) (r : R) → str_eq u.id t.id ≡ false → is_of u r ≡ (not (is_of t r) && is_of u r)
  other_track t u r h = go (track_id r)
    where
      go :
          (o : Option String)
          → opt_eq o (some u.id) ≡ (not (opt_eq o (some t.id)) && opt_eq o (some u.id))
      go none = refl
      go (some i) = ground (arith, h, eq_iff i t.id, eq_iff i u.id, eq_iff u.id t.id)

  in_tracks-others :
      (rows : List R) (t : Track) (us : List Track)
      → contains t.id (map (λ u. u.id) us) ≡ false
      → in_tracks (others t rows) us ≡ in_tracks rows us
  in_tracks-others rows t [] h = refl
  in_tracks-others rows t (u ∷ us) h =
      let apart : str_eq u.id t.id ≡ false = ground arith in
      rw
        (
          filter-filter (is_of u) (λ r. not (is_of t r)) (is_of u) (λ r. other_track t u r apart)
              rows,
          in_tracks-others rows t us (ground arith),
        )
        refl

  abbrev is_unknown : List Track → Option String → Bool
  is_unknown tracks o = elim o [
    | none ↦ true
    | some id ↦ not (contains id (map (λ t. t.id) tracks))
  ]

  unknown_step :
      (t : Track) (us : List Track) (o : Option String)
      → is_unknown (t ∷ us) o ≡ (not (opt_eq o (some t.id)) && is_unknown us o)
  unknown_step t us none = refl
  unknown_step t us (some i) = ground (arith, eq_iff i t.id, eq_iff t.id i)

  trackless-others :
      (rows : List R) (t : Track) (us : List Track)
      → trackless (others t rows) us ≡ trackless rows (t ∷ us)
  unfolding is_trackless
  trackless-others rows t us =
      filter-filter (is_trackless track_id us) (λ r. not (is_of t r))
        (is_trackless track_id (t ∷ us)) (λ r. unknown_step t us (track_id r)) rows

  trackless_all : (rows : List R) → trackless rows [] ≡ rows
  unfolding is_trackless
  trackless_all [] = refl
  trackless_all (r ∷ rs) = go (track_id r) (trackless_all rs)
    where
      go :
          (o : Option String)
          → trackless rs [] ≡ rs
          → cond (is_unknown [] o) (r ∷ trackless rs []) (trackless rs []) ≡ r ∷ rs
      go none e = ap (◌∷◌ r) e
      go (some i) e = ap (◌∷◌ r) e

  split_rows :
      (tracks : List Track) (rows : List R)
      → IsDistinct (map (λ t. t.id) tracks)
      → Perm (in_tracks rows tracks ++ trackless rows tracks) rows
  split_rows [] rows d = subst (λ xs. Perm xs rows) (sym (trackless_all rows)) (Perm.refl rows)
  split_rows (t ∷ us) rows d =
      let own = filter (is_of t) rows in
      let rest = others t rows in
      let same : in_tracks rest us ++ trackless rest us
          ≡ in_tracks rows us ++ trackless rows (t ∷ us) =
        rw (in_tracks-others rows t us d.0, trackless-others rows t us) refl in
      subst (λ xs. Perm xs rows)
        (ap (λ xs. own ++ xs) same
          ∙ sym (append_assoc own (in_tracks rows us) (trackless rows (t ∷ us))))
        (Perm.trans (Perm.append_left own (split_rows us rest d.1)) (filter-perm (is_of t) rows))

  -- The rows of the groups, one after the other.
  abbrev pub rows_of : List (TrackGroup R) → List R
  rows_of gs = flat_map (λ g. g.rows) gs

  rows_of-nonempty :
      (gs : List (TrackGroup R)) → rows_of (filter (λ g. not (is_nil g.rows)) gs) ≡ rows_of gs
  rows_of-nonempty [] = refl
  rows_of-nonempty (g ∷ gs) = go g.rows (rows_of-nonempty gs)
    where
      go :
          (rs : List R)
          → rows_of (filter (λ g. not (is_nil g.rows)) gs) ≡ rows_of gs
          → rows_of (
              cond
                (not (is_nil rs))
                (record { track = g.track; rows = rs } ∷ filter (λ g. not (is_nil g.rows)) gs)
                (filter (λ g. not (is_nil g.rows)) gs))
            ≡ rs ++ rows_of gs
      go [] e = e
      go (r ∷ rs) e = ap (λ xs. (r ∷ rs) ++ xs) e

  rows_of-append :
      (gs : List (TrackGroup R)) (g : TrackGroup R) → rows_of (gs ++ g ∷ []) ≡ rows_of gs ++ g.rows
  rows_of-append [] g = append-nil g.rows
  rows_of-append (h ∷ hs) g =
      ap (λ xs. h.rows ++ xs) (rows_of-append hs g) ∙ sym (append_assoc h.rows (rows_of hs) g.rows)

  rows_of-map :
      (rows : List R) (tracks : List Track)
      → rows_of (map (track_group track_id rows) tracks) ≡ in_tracks rows tracks
  unfolding track_group
  rows_of-map rows [] = refl
  rows_of-map rows (t ∷ us) = ap (λ xs. filter (is_of t) rows ++ xs) (rows_of-map rows us)

  -- Grouping by tracks keeps the rows: each row is in exactly one of the groups, as often as it
  -- was in the list, if the tracks have distinct identifiers.
  pub group_by_track-perm :
      (rows : List R) (tracks : List Track)
      → IsDistinct (map (λ t. t.id) tracks)
      → Perm (rows_of (group_by_track track_id rows tracks)) rows
  unfolding group_by_track
  group_by_track-perm rows tracks d =
      let named = map (track_group track_id rows) tracks in
      let unnamed : TrackGroup R = record { track = none; rows = trackless rows tracks } in
      subst (λ xs. Perm xs rows)
        (sym (
          rows_of-nonempty (named ++ unnamed ∷ [])
          ∙ rows_of-append named unnamed
          ∙ ap (λ xs. xs ++ trackless rows tracks) (rows_of-map rows tracks)))
        (split_rows tracks rows d)
