-- ===== src/ControlRoom/Distribution/RoundTrip.antt =====
-- The editor of web/src/features/control-room/distribution.tsx over its clicks: what it shows, and
-- what it shows again once its pairs are saved.
use platform_for_sudies.Common.{
  String, Bool, true, false, not, ◌&&◌, ◌||◌, some, List, [], ◌∷◌, map, all, is_nil, ◌≡◌, refl,
  arith, eq_refl, sym, ◌∙◌, Bool-cases, inl, inr, if-elim,
}
use platform_for_sudies.Api.{EventFull, Team, JudgeSummary, JudgeTeamPair}
use platform_for_sudies.Tracks.{contains, pair_key, pair_set, in_judge_set}
use platform_for_sudies.ControlRoom.{assignment_pairs}
use platform_for_sudies.ControlRoom.Distribution.{
  judge_ids, grid_keys, assignments_on, initial_assigned, Editor, open_editor, pairs, is_all_off,
  is_everyone, in_set, toggle_assigned, toggle_conflict, assign_everyone, revert, is_dirty,
  is_frozen,
}
use platform_for_sudies.ControlRoom.Distribution.Grid.{
  contains-pairs, marked_grid, IsWithin, contains-IsWithin, itself-IsWithin, toggle-IsWithin,
}

-- The clicks on an editor that was opened on an event.
pub data Reached (full : EventFull) : Editor → Type 0 where
  opened : Reached full (open_editor full)
  assigned_clicked :
      {e : Editor} (key : String)
      → contains key (grid_keys full) ≡ true
      → Reached full e
      → Reached full (toggle_assigned full key e)
  conflict_clicked :
      {e : Editor} (key : String)
      → contains key (grid_keys full) ≡ true
      → Reached full e
      → Reached full (toggle_conflict full key e)
  everyone_clicked : {e : Editor} → Reached full e → Reached full (assign_everyone full e)
  revert_clicked : {e : Editor} → Reached full e → Reached full (revert full e)

-- The server's rows are of the judges and teams of the event.
abbrev pub HasOwnRows : EventFull → Type 0
HasOwnRows full = IsWithin (grid_keys full) (pair_set full.assignments)

abbrev IsOnGrid : EventFull → Editor → Type 0
IsOnGrid full e = IsWithin (grid_keys full) e.assigned

opened-IsOnGrid : (full : EventFull) → HasOwnRows full → IsOnGrid full (open_editor full)
unfolding open_editor initial_assigned
opened-IsOnGrid full own =
    if-elim (IsWithin (grid_keys full)) (not (assignments_on full)) _ _
      (itself-IsWithin (grid_keys full)) own

Reached-IsOnGrid :
    (full : EventFull) {e : Editor} → HasOwnRows full → Reached full e → IsOnGrid full e
unfolding toggle_assigned toggle_conflict assign_everyone revert
Reached-IsOnGrid full own opened = opened-IsOnGrid full own
Reached-IsOnGrid full own (assigned_clicked {e} key h r) =
    let w = Reached-IsOnGrid full own r in
    if-elim (IsOnGrid full) (is_frozen full.event.status) e _ w
      (toggle-IsWithin (grid_keys full) e.assigned key h w)
Reached-IsOnGrid full own (conflict_clicked {e} key h r) =
    let w = Reached-IsOnGrid full own r in
    if-elim (IsOnGrid full) (is_frozen full.event.status) e _ w w
Reached-IsOnGrid full own (everyone_clicked {e} r) =
    if-elim (IsOnGrid full) (is_frozen full.event.status || is_everyone full e) e _
      (Reached-IsOnGrid full own r) (itself-IsWithin (grid_keys full))
Reached-IsOnGrid full own (revert_clicked {e} r) =
    if-elim (IsOnGrid full) (is_dirty full e) (open_editor full) e (opened-IsOnGrid full own)
      (Reached-IsOnGrid full own r)

-- Every box of the grid is marked.
abbrev is_full : EventFull → Editor → Bool
is_full full e =
    all (λ j. all (λ t. contains (pair_key j t.id) e.assigned) full.teams) (judge_ids full)

full_pairs : (full : EventFull) (e : Editor) → is_full full e ≡ true → pairs full e ≡ []
unfolding pairs assignment_pairs
full_pairs full e h = rw h refl

full_contains :
    (full : EventFull) (e : Editor) (k : String)
    → is_full full e ≡ true
    → contains k (grid_keys full) ≡ true
    → contains k e.assigned ≡ true
unfolding grid_keys
full_contains full e k h = marked_grid e.assigned full.teams k (judge_ids full) h

partial_pairs :
    (full : EventFull) (e : Editor) (k : String)
    → IsOnGrid full e
    → is_full full e ≡ false
    → contains k (pair_set (pairs full e)) ≡ contains k e.assigned
unfolding pairs assignment_pairs grid_keys
partial_pairs full e k w h = rw h (
    contains-pairs e.assigned full.teams k (judge_ids full)
    ∙ ground (arith, contains-IsWithin (grid_keys full) e.assigned k w))

same_members-is_nil :
    (xs ys : List String) → ((k : String) → contains k xs ≡ contains k ys) → is_nil xs ≡ is_nil ys
same_members-is_nil [] [] h = refl
same_members-is_nil [] (y ∷ ys) h = absurd (ground (arith, h y, eq_refl y))
same_members-is_nil (x ∷ xs) [] h = absurd (ground (arith, h x, eq_refl x))
same_members-is_nil (x ∷ xs) (y ∷ ys) h = refl

is_nil-pair_set : (ps : List JudgeTeamPair) → is_nil (pair_set ps) ≡ is_nil ps
unfolding pair_set
is_nil-pair_set [] = refl
is_nil-pair_set (p ∷ ps) = refl

no_teams :
    (set : List String) (js : List String)
    → all (λ j. all (λ (t : Team). contains (pair_key j t.id) set) []) js ≡ true
no_teams set [] = refl
no_teams set (j ∷ js) = no_teams set js

partial_nonempty :
    (set : List String) (teams : List Team) (js : List JudgeSummary)
    → all
        (λ j. all (λ t. contains (pair_key j t.id) set) teams)
        (map (λ (j : JudgeSummary). j.id) js)
      ≡ false
    → (is_nil js ≡ false) × (is_nil teams ≡ false)
partial_nonempty set teams [] h = absurd (ground arith)
partial_nonempty set [] (j ∷ js) h =
    absurd (ground (arith, no_teams set (map (λ (i : JudgeSummary). i.id) (j ∷ js))))
partial_nonempty set (t ∷ ts) (j ∷ js) h = (refl, refl)

-- A grid that is not fully marked, and yet gives no pairs, has no mark at all.
partial_nil :
    (full : EventFull) (e : Editor)
    → IsOnGrid full e
    → is_full full e ≡ false
    → is_nil (pairs full e) ≡ is_nil e.assigned
partial_nil full e w h =
    sym (is_nil-pair_set (pairs full e))
    ∙ same_members-is_nil (pair_set (pairs full e)) e.assigned (λ k. partial_pairs full e k w h)

partial_all_off :
    (full : EventFull) (e : Editor)
    → IsOnGrid full e
    → is_full full e ≡ false
    → is_all_off full e ≡ is_nil (pairs full e)
unfolding is_all_off
partial_all_off full e w h =
    let (js, ts) = partial_nonempty e.assigned full.teams full.judges h in
    ground (arith, js, ts, partial_nil full e w h)

-- The event as it is read after the assignments are replaced: SPEC, `PUT …/assignments`.
pub record IsStored (full : EventFull) (e : Editor) (next : EventFull) : Type 0 where
  pub teams : next.teams ≡ full.teams
  pub judges : next.judges ≡ full.judges
  pub assignments : next.assignments ≡ pairs full e
  pub mode : next.event.assignments_enabled ≡ some (not (is_nil (pairs full e)))

same_grid :
    (full next : EventFull) (e : Editor) → IsStored full e next → grid_keys next ≡ grid_keys full
unfolding grid_keys
same_grid full next e stored = rw (stored.teams, stored.judges) refl

stored_on :
    (full next : EventFull) (e : Editor)
    → IsStored full e next
    → assignments_on next ≡ not (is_nil (pairs full e))
unfolding assignments_on
stored_on full next e stored = rw stored.mode refl

-- If the server's assignments are of the event's judges and teams, then after any clicks that
-- do not leave everything off, the editor that is opened on the stored pairs has exactly the
-- assignments that were shown when they were saved.
pub contains-open_editor-pairs :
    (full next : EventFull) {e : Editor} (key : String)
    → HasOwnRows full
    → Reached full e
    → is_all_off full e ≡ false
    → IsStored full e next
    → contains key (open_editor next).assigned ≡ contains key e.assigned
unfolding open_editor initial_assigned
contains-open_editor-pairs full next {e} key own r on stored =
    let w = Reached-IsOnGrid full own r in
    elim (Bool-cases (is_full full e)) [
      | inl marked ↦
          rw (stored_on full next e stored, full_pairs full e marked, same_grid full next e stored)
            (ground (
              arith,
              full_contains full e key marked,
              contains-IsWithin (grid_keys full) e.assigned key w,
            ))
      | inr some_off ↦
          rw
            (
              stored_on full next e stored,
              sym (partial_all_off full e w some_off),
              on,
              stored.assignments,
            )
            (partial_pairs full e key w some_off)
    ]

member-is_nil : (k : String) (set : List String) → contains k set ≡ true → is_nil set ≡ false
member-is_nil k [] h = absurd (ground arith)
member-is_nil k (x ∷ xs) h = refl

full_all_off :
    (full : EventFull) (e : Editor) → is_nil e.assigned ≡ false → is_all_off full e ≡ false
unfolding is_all_off
full_all_off full e h = ground (arith, h)

-- If the server's assignments are of the event's judges and teams, then after any clicks a
-- judge works on a team, as the rule with its mode for everyone says, exactly if the cell is
-- marked and not in conflict.
pub in_set_lem :
    (full : EventFull) {e : Editor} (judge_id team_id : String)
    → HasOwnRows full
    → Reached full e
    → contains (pair_key judge_id team_id) (grid_keys full) ≡ true
    → in_set full e judge_id team_id ≡ (
        not (contains (pair_key judge_id team_id) e.conflicts)
        && contains (pair_key judge_id team_id) e.assigned)
unfolding in_set in_judge_set is_everyone
in_set_lem full {e} judge_id team_id own r h =
    let w = Reached-IsOnGrid full own r in
    elim (Bool-cases (is_full full e)) [
      | inl marked ↦
          let has = full_contains full e (pair_key judge_id team_id) marked h in
          rw
            (
              full_pairs full e marked,
              full_all_off full e (member-is_nil (pair_key judge_id team_id) e.assigned has),
              has,
            )
            (ground arith)
      | inr some_off ↦ ground (arith, partial_all_off full e w some_off)
    ]
