-- ===== src/Storage/Pairs.antt =====
-- `writeComparisons` of web/src/features/judge/storage.ts, one read-compare-write transaction.
use platform_for_sudies.Common.{
  ℕ, ◌<◌, String, true, Option, some, List, [], ◌∷◌, ◌≡◌, ap, arith, if◌then◌else◌, All,
  String-discrete, or_else,
}
use platform_for_sudies.Pairwise.{LocalComparison, can_overwrite_comparison}
use platform_for_sudies.Pairwise.Outbox.{ComparisonRef}
use platform_for_sudies.Storage.{Table, PairKey}

abbrev pub pair_key : String → String → PairKey
pair_key k id = record { k = k; id = id }

pub PairKey-discrete : Discrete PairKey
PairKey-discrete = hlevel String-discrete

module _ (db : Table PairKey LocalComparison) (k : String) where
  open db use {Store, get, put, delete, get_put_self, get_put_ne, get_delete_self, get_delete_ne}

  unfoldable pub write_comparison : LocalComparison → Store → Store
  write_comparison c s =
      if can_overwrite_comparison (get (pair_key k c.id) s) c.edited_at
      then put (pair_key k c.id) c s
      else s

  unfoldable pub delete_comparison : ComparisonRef → Store → Store
  delete_comparison r s =
      if can_overwrite_comparison (get (pair_key k r.id) s) r.edited_at
      then delete (pair_key k r.id) s
      else s

  unfoldable pub write_upserts : List LocalComparison → Store → Store
  write_upserts [] s = s
  write_upserts (c ∷ cs) s = write_upserts cs (write_comparison c s)

  unfoldable pub write_deletes : List ComparisonRef → Store → Store
  write_deletes [] s = s
  write_deletes (r ∷ rs) s = write_deletes rs (delete_comparison r s)

  unfoldable pub write_comparisons : List LocalComparison → List ComparisonRef → Store → Store
  unfolding write_upserts write_deletes
  write_comparisons upserts deletes s = write_deletes deletes (write_upserts upserts s)

  module _ (key : PairKey) (stored : LocalComparison) (unsent : stored.dirty ≡ true) where
    -- A write to the pair is older than what is stored there.
    abbrev pub IsOlderPair : String → Option ℕ → Type 0
    IsOlderPair id edited_at =
        pair_key k id ≡ key → or_else edited_at 0 < or_else stored.edited_at 0

    abbrev pub IsOlderUpsert : LocalComparison → Type 0
    IsOlderUpsert c = IsOlderPair c.id c.edited_at

    abbrev pub IsOlderRef : ComparisonRef → Type 0
    IsOlderRef r = IsOlderPair r.id r.edited_at

    write_comparison_keeps :
        (c : LocalComparison) (s : Store)
        → IsOlderUpsert c
        → get key s ≡ some stored
        → get key (write_comparison c s) ≡ some stored
    unfolding write_comparison can_overwrite_comparison
    write_comparison_keeps c s older e = elim (PairKey-discrete (pair_key k c.id) key) [
      | yes p ↦ ground (arith, older p, ap (λ x. get x s) p)
      | no p ↦ ground (arith, get_put_ne (pair_key k c.id) key c s p)
    ]

    delete_comparison_keeps :
        (r : ComparisonRef) (s : Store)
        → IsOlderRef r
        → get key s ≡ some stored
        → get key (delete_comparison r s) ≡ some stored
    unfolding delete_comparison can_overwrite_comparison
    delete_comparison_keeps r s older e = elim (PairKey-discrete (pair_key k r.id) key) [
      | yes p ↦ ground (arith, older p, ap (λ x. get x s) p)
      | no p ↦ ground (arith, get_delete_ne (pair_key k r.id) key s p)
    ]

    write_upserts_keeps :
        (cs : List LocalComparison) (s : Store)
        → All IsOlderUpsert cs
        → get key s ≡ some stored
        → get key (write_upserts cs s) ≡ some stored
    unfolding write_upserts
    write_upserts_keeps [] s older e = e
    write_upserts_keeps (c ∷ cs) s (o, older) e =
        write_upserts_keeps cs (write_comparison c s) older (write_comparison_keeps c s o e)

    write_deletes_keeps :
        (rs : List ComparisonRef) (s : Store)
        → All IsOlderRef rs
        → get key s ≡ some stored
        → get key (write_deletes rs s) ≡ some stored
    unfolding write_deletes
    write_deletes_keeps [] s older e = e
    write_deletes_keeps (r ∷ rs) s (o, older) e =
        write_deletes_keeps rs (delete_comparison r s) older (delete_comparison_keeps r s o e)

    -- An unsent decision that another tab stored survives every write of this tab, as long as
    -- it is newer than the versions that this tab writes to its pair or removes from it.
    pub write_comparisons_keeps_newer :
        (upserts : List LocalComparison) (deletes : List ComparisonRef) (s : Store)
        → All IsOlderUpsert upserts
        → All IsOlderRef deletes
        → get key s ≡ some stored
        → get key (write_comparisons upserts deletes s) ≡ some stored
    unfolding write_comparisons
    write_comparisons_keeps_newer upserts deletes s older_rows older_refs e =
        write_deletes_keeps deletes (write_upserts upserts s) older_refs
          (write_upserts_keeps upserts s older_rows e)
