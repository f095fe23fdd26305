-- ===== src/Screen/Navigation/Laws.antt =====
-- The way through the queue in web/src/features/judge/desk.tsx.
use mathlib.Core.List.{Perm}
use platform_for_sudies.Common.{
  ℕ, zero, suc, String, true, none, some, List, [], ◌∷◌, map, get_elem?, ◌≡◌, ap, arith, eq_iff,
}
use platform_for_sudies.Api.{JudgeSession}
use platform_for_sudies.Tracks.{contains}
use platform_for_sudies.Tracks.Distinct.{IsDistinct}
use platform_for_sudies.Tracks.Partition.{group_by_track-perm}
use platform_for_sudies.Screen.Hotkeys.{Delta, previous, next}
use platform_for_sudies.Screen.Navigation.{
  Item, Place, raw_items, queue_items, queue_ids, mode_of, index_of, current_index, at_delta,
  current_item, arrive, go_item,
}

-- The queue has every item, and each once.
pub queue_items-perm :
    (s : JudgeSession)
    → IsDistinct (map (λ t. t.id) s.tracks)
    → Perm (queue_items s) (raw_items (mode_of s) s.teams s.criteria)
unfolding queue_items
queue_items-perm s d =
    group_by_track-perm (λ (i : Item). i.track_id) (raw_items (mode_of s) s.teams s.criteria)
      s.tracks d

get_elem?-contains :
    (xs : List String) (i : ℕ) (x : String) → get_elem? xs i ≡ some x → contains x xs ≡ true
get_elem?-contains [] i x e = absurd (ground arith)
get_elem?-contains (y ∷ ys) zero x e = ground (arith, eq_iff y x)
get_elem?-contains (y ∷ ys) (suc i) x e = ground (arith, get_elem?-contains ys i x e)

-- Where no identifier comes twice, an item is found at its place.
index_of-get_elem? :
    (xs : List String) (i : ℕ) (x : String)
    → IsDistinct xs
    → get_elem? xs i ≡ some x
    → index_of x xs ≡ some i
unfolding index_of
index_of-get_elem? [] i x d e = absurd (ground arith)
index_of-get_elem? (y ∷ ys) zero x d e = ground (arith, eq_iff y x)
index_of-get_elem? (y ∷ ys) (suc i) x d e =
    ground (arith, index_of-get_elem? ys i x d.1 e, get_elem?-contains ys i x e, d.0, eq_iff y x)

abbrev pub opposite : Delta → Delta
opposite previous = next
opposite next = previous

-- The item to which a key leads, seen from there: the other key leads back.
way_back :
    (ids : List String) (i : ℕ) (x id : String) (delta : Delta)
    → IsDistinct ids
    → get_elem? ids i ≡ some x
    → at_delta ids i delta ≡ some id
    → at_delta ids (current_index (some id) ids) (opposite delta) ≡ some x
unfolding at_delta current_index
way_back ids zero x id previous d e at = absurd (ground arith)
way_back ids (suc i) x id previous d e at = rw (index_of-get_elem? ids i id d at) e
way_back ids i x id next d e at = rw (index_of-get_elem? ids (suc i) id d at) e

-- Where a known item is current.
current_known :
    (ids : List String) (i : ℕ) (x : String)
    → IsDistinct ids
    → get_elem? ids i ≡ some x
    → get_elem? ids (current_index (some x) ids) ≡ some x
unfolding current_index
current_known ids i x d e = rw (index_of-get_elem? ids i x d e) e

at_other :
    (ids : List String) (i : ℕ) (id : String) (delta : Delta)
    → IsDistinct ids
    → at_delta ids i delta ≡ some id
    → get_elem? ids (current_index (some id) ids) ≡ some id
unfolding at_delta
at_other ids zero id previous d at = absurd (ground arith)
at_other ids (suc i) id previous d at = current_known ids i id d at
at_other ids i id next d at = current_known ids (suc i) id d at

go_item_there :
    (s : JudgeSession) (p : Place) (delta : Delta) (id : String)
    → at_delta (queue_ids s) (current_index p.item_id (queue_ids s)) delta ≡ some id
    → go_item s delta p ≡ record { item_id = some id; line_id = none }
unfolding go_item
go_item_there s p delta id at = ap (λ o. arrive o p) at

-- If the queue's items are distinct, a step through the queue that leads to an item shows that
-- item, and the opposite step shows the first one again.
pub go_item_back :
    (s : JudgeSession) (p : Place) (delta : Delta) (item other : String)
    → IsDistinct (queue_ids s)
    → current_item s p ≡ some item
    → at_delta (queue_ids s) (current_index p.item_id (queue_ids s)) delta ≡ some other
    → (current_item s (go_item s delta p) ≡ some other)
      × (current_item s (go_item s (opposite delta) (go_item s delta p)) ≡ some item)
unfolding current_item
go_item_back s p delta item other d here at =
    let ids = queue_ids s in
    let i = current_index p.item_id ids in
    let there : Place = record { item_id = some other; line_id = none } in
    let back =
      go_item_there s there (opposite delta) item (way_back ids i item other delta d here at) in
    rw (go_item_there s p delta other at, back)
      (at_other ids i other delta d at, current_known ids i item d here)
