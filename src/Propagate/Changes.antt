-- ===== src/Propagate/Changes.antt =====
-- What `diffStoreKeys` of src/domain/propagate.go returns.
use previewctl.Base.{
  false, ◌&&◌, not, none, some, List, [], ◌∷◌, ◌++◌, ◌≡◌, refl, arith, Text, eq_iff, Map, lookup,
  HasUniqueKeys, is_some, elem, IsSorted, elem-sort, elem-append, sort-IsSorted,
}
use previewctl.Propagate.{differs, changed_values, removed_keys, diff_store_keys}

elem-changed_values :
    (before after : Map Text) (k : Text)
    → HasUniqueKeys after
    → elem k (changed_values before after)
      ≡ elim (lookup k after) [ none ↦ false | some v ↦ differs before k v ]
unfolding elem changed_values lookup
elem-changed_values before [] k u = refl
elem-changed_values before ((j, v) ∷ after) k u =
    ground (arith, eq_iff j k, elem-changed_values before after k u.1, u.0)

elem-removed_keys :
    (after : Map Text) (seen : List Text) (before : Map Text) (k : Text)
    → elem k (removed_keys after seen before)
      ≡ (is_some (lookup k before) && (not (is_some (lookup k after)) && not (elem k seen)))
unfolding elem removed_keys lookup
elem-removed_keys after seen [] k = refl
elem-removed_keys after seen ((j, v) ∷ before) k =
    ground (arith, eq_iff j k, elem-removed_keys after seen before k)

-- Let no key occur twice in `after`. A key is in the result exactly when it is in `after` with another
-- value than the one it has in `before`, where a missing key counts as the empty text, or in `before`
-- and not in `after`. The result is sorted.
pub diff_store_keys-elem :
    (before after : Map Text) (k : Text)
    → HasUniqueKeys after
    → (elem k (diff_store_keys before after)
        ≡ elim (lookup k after) [ none ↦ is_some (lookup k before) | some v ↦ differs before k v ])
      × IsSorted (diff_store_keys before after)
unfolding diff_store_keys
diff_store_keys-elem before after k u =
    let changed = changed_values before after in
    (
      ground (
        arith,
        elem-sort k (changed ++ removed_keys after changed before),
        elem-append k changed (removed_keys after changed before),
        elem-changed_values before after k u,
        elem-removed_keys after changed before k,
      ),
      sort-IsSorted (changed ++ removed_keys after changed before),
    )
