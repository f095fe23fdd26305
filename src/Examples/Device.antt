-- ===== src/Examples/Device.antt =====
-- A store of the device as a log of writes, and what writes leave in it.
use platform_for_sudies.Common.{
  ◌<◌, ◌⊎◌, ap, String, Bool, true, false, ◌&&◌, Option, none, some, List, [], ◌∷◌, ◌≡◌, ◌≢◌, refl,
  inl, inr, lookup, if◌then◌else◌, arith, str_eq, Bool-cases, str_eq→eq, eq_refl,
}
use platform_for_sudies.Scoring.Rows.{LocalRow, Rows, cell_key}
use platform_for_sudies.Scoring.Guards.{diff_rows}
use platform_for_sudies.Pairwise.{LocalComparison}
use platform_for_sudies.Storage.{Table, RowKey, PairKey}
use platform_for_sudies.Storage.Pairs.{pair_key, write_comparisons, write_comparisons_keeps_newer}
use platform_for_sudies.Storage.Adoption.{SavedSession, Stores, Held, adopt_orphans}
use platform_for_sudies.Storage.Adoption.Laws.{adopt_orphans_keeps_newer}
use platform_for_sudies.Storage.Guarded.{write_rows_keeps_newer}
use platform_for_sudies.Storage.Rows.{row_key, write_rows}
use platform_for_sudies.Storage.Mirror.{write_rows-diff_rows}
use platform_for_sudies.Examples.Data.{first_pair, second_pair, session, unsent_row, two_rows}

-- The first entry of a key counts; `none` stands for a key that was deleted.
module _ {K Row : Type 0} (same : K → K → Bool) (token_of : K → String) where
  unfoldable entry : K → List (K × Option Row) → Option Row
  entry key [] = none
  entry key ((k, row) ∷ log) = if same k key then row else entry key log

  unfoldable all_of : String → List (K × Option Row) → List Row
  all_of token [] = []
  all_of token ((k, none) ∷ log) = all_of token log
  all_of token ((k, some row) ∷ log) =
      let rest = all_of token log in if str_eq (token_of k) token then row ∷ rest else rest

  unfoldable clear : String → List (K × Option Row) → List (K × Option Row)
  clear token [] = []
  clear token (e ∷ log) =
      let rest = clear token log in if str_eq (token_of e.0) token then rest else e ∷ rest

  entry_self :
      (key : K) (row : Option Row) (log : List (K × Option Row))
      → same key key ≡ true
      → entry key ((key, row) ∷ log) ≡ row
  unfolding entry
  entry_self key row log e = rw e refl

  entry_ne :
      (key other : K) (row : Option Row) (log : List (K × Option Row))
      → (same key other ≡ true → key ≡ other)
      → key ≢ other
      → entry other ((key, row) ∷ log) ≡ entry other log
  unfolding entry
  entry_ne key other row log sound h = elim (Bool-cases (same key other)) [
    | inl e ↦ absurd (h (sound e))
    | inr e ↦ rw e refl
  ]

  entry-clear :
      (token : String) (key : K) (log : List (K × Option Row))
      → ((k : K) → same k key ≡ true → token_of k ≡ token_of key)
      → token ≢ token_of key
      → entry key (clear token log) ≡ entry key log
  unfolding entry clear
  entry-clear token key [] agree h = refl
  entry-clear token key ((k, row) ∷ log) agree h =
      ground (arith, entry-clear token key log agree h, agree k, str_eq→eq (token_of k) token)

  abbrev log_of : ((k : K) → same k k ≡ true) → ((k j : K) → same k j ≡ true → k ≡ j) → Table K Row
  log_of self sound = record {
    Store = List (K × Option Row);
    get = entry;
    put = λ key row log. (key, some row) ∷ log;
    delete = λ key log. (key, none) ∷ log;
    get_all = all_of;
    get_put_self = λ key row log. entry_self key (some row) log (self key);
    get_put_ne = λ key other row log h. entry_ne key other (some row) log (sound key other) h;
    get_delete_self = λ key log. entry_self key none log (self key);
    get_delete_ne = λ key other log h. entry_ne key other none log (sound key other) h;
  }

abbrev Log : Type 0
Log = List (RowKey × Option LocalRow)

abbrev is_key : RowKey → RowKey → Bool
is_key a b = str_eq a.k b.k && str_eq a.team_id b.team_id && str_eq a.criterion_id b.criterion_id

is_key_self : (key : RowKey) → is_key key key ≡ true
is_key_self key = ground (arith, eq_refl key.k, eq_refl key.team_id, eq_refl key.criterion_id)

is_key→eq : (a b : RowKey) → is_key a b ≡ true → a ≡ b
is_key→eq a b h =
    let k : a.k ≡ b.k = ground (arith, str_eq→eq a.k b.k) in
    let team : a.team_id ≡ b.team_id = ground (arith, str_eq→eq a.team_id b.team_id) in
    let criterion : a.criterion_id ≡ b.criterion_id =
      ground (arith, str_eq→eq a.criterion_id b.criterion_id) in
    cc (k, team, criterion)

abbrev log_table : Table RowKey LocalRow
log_table = log_of is_key (λ key. key.k) is_key_self is_key→eq

abbrev is_pair : PairKey → PairKey → Bool
is_pair a b = str_eq a.k b.k && str_eq a.id b.id

is_pair_self : (key : PairKey) → is_pair key key ≡ true
is_pair_self key = ground (arith, eq_refl key.k, eq_refl key.id)

is_pair→eq : (a b : PairKey) → is_pair a b ≡ true → a ≡ b
is_pair→eq a b h =
    let k : a.k ≡ b.k = ground (arith, str_eq→eq a.k b.k) in
    let id : a.id ≡ b.id = ground (arith, str_eq→eq a.id b.id) in cc (k, id)

abbrev pair_table : Table PairKey LocalComparison
pair_table = log_of is_pair (λ key. key.k) is_pair_self is_pair→eq

abbrev session_table : Table String SavedSession
session_table = log_of str_eq (λ key. key) eq_refl str_eq→eq

abbrev saved_of : List (String × Option SavedSession) → List SavedSession
saved_of [] = []
saved_of ((k, none) ∷ log) = saved_of log
saved_of ((k, some s) ∷ log) = s ∷ saved_of log

abbrev stores : Stores
stores = record {
  rows = log_table;
  comparisons = pair_table;
  sessions = session_table;
  all_sessions = saved_of;
  clear_rows = clear is_key (λ key. key.k);
  clear_comparisons = clear is_pair (λ key. key.k);
  clear_rows_other = λ old k t c s h.
      entry-clear is_key (λ key. key.k) old (row_key k t c) s
        (λ j e. ap (λ (x : RowKey). x.k) (is_key→eq j (row_key k t c) e)) h;
}

-- What another tab stored.
abbrev stored_row : LocalRow
stored_row = record unsent_row { edited_at = 30 }

abbrev device : Log
device = (row_key "token" "t1" "c1", some stored_row) ∷ []

write_rows_keeps_newer_example :
    log_table.get
      (row_key "token" "t1" "c1")
      (write_rows log_table "token" (unsent_row ∷ []) [] device)
    ≡ some stored_row
unfolding entry
write_rows_keeps_newer_example =
    write_rows_keeps_newer log_table "token" (row_key "token" "t1" "c1") stored_row refl
      (unsent_row ∷ []) [] device (λ e. omega arith, tt) tt refl

abbrev never_same : LocalRow → LocalRow → Bool
never_same a b = false

-- The row of the second team is gone, the first team's is edited.
abbrev next_rows : Rows
next_rows = ("t1:c1", stored_row) ∷ []

write_rows-diff_rows_example :
    log_table.get (row_key "token" "t1" "c1") (
      write_rows log_table "token"
        (diff_rows never_same two_rows next_rows).upserts
        (diff_rows never_same two_rows next_rows).deletes
        ((row_key "token" "t1" "c1", some unsent_row) ∷ []))
    ≡ lookup (cell_key "t1" "c1") next_rows
unfolding entry lookup cell_key
write_rows-diff_rows_example =
    write_rows-diff_rows log_table "token" "t1" "c1" (λ e. ground arith, (λ e. ground arith, tt))
      never_same (λ a b h. ground arith) two_rows next_rows
      ((row_key "token" "t1" "c1", some unsent_row) ∷ [])
      (
        refl,
        (refl, (λ e. ground arith, (λ e. ground arith, tt))),
        (refl, (refl, (λ e. ground arith, (λ e. ground arith, tt))), tt),
      )
      (refl, (refl, (λ e. ground arith, (λ e. ground arith, tt))), tt) refl
      (λ old row o e d. ground arith)

-- What another tab stored of the first pair.
abbrev stored_pair : LocalComparison
stored_pair = record first_pair { edited_at = some 30 }

write_comparisons_keeps_newer_example :
    pair_table.get (pair_key "token" "p1") (
      write_comparisons pair_table "token"
        (first_pair ∷ second_pair ∷ [])
        []
        ((pair_key "token" "p1", some stored_pair) ∷ []))
    ≡ some stored_pair
unfolding entry
write_comparisons_keeps_newer_example =
    write_comparisons_keeps_newer pair_table "token" (pair_key "token" "p1") stored_pair refl
      (first_pair ∷ second_pair ∷ []) [] ((pair_key "token" "p1", some stored_pair) ∷ [])
      (λ e. omega arith, (λ e. omega arith, tt)) tt refl

-- The device of a judge who has got a new token.
abbrev held : Held stores
held = record {
  rows_held =
      (row_key "new" "t1" "c1", some unsent_row) ∷ (row_key "old" "t1" "c1", some stored_row) ∷ [];
  comparisons_held = [];
  sessions_held = ("old", some (record { k = "old"; session = session; saved_at = 1 })) ∷ [];
}

adopt_orphans_keeps_newer_example :
    (log_table.get
        (row_key "new" "t1" "c1")
        (adopt_orphans stores "new" session held).held.rows_held
      ≡ some unsent_row)
    ⊎ ((row : LocalRow) × (log_table.get
            (row_key "new" "t1" "c1")
            (adopt_orphans stores "new" session held).held.rows_held
          ≡ some row)
        × (10 < row.edited_at))
unfolding entry
adopt_orphans_keeps_newer_example =
    adopt_orphans_keeps_newer stores "new" "t1" "c1" session held unsent_row refl
