-- ===== src/Examples/Merging.antt =====
-- Merging two locks of which one reaches further.
use liss.Common.{◌≡◌, refl, true, List, [], ◌∷◌, some, Memᴰ}
use liss.Synthesis.Synchronisation.{Lock}
use liss.Synthesis.Merging.{merge_locks, check_overlap}
use liss.Synthesis.Merging.Covered.{IsCovered, merge_locks-IsCovered}
use liss.Examples.Locking.{at_0, at_1, at_2, at_3}

abbrev small : Lock
small = record {
  name = 1;
  locations = record { start = at_0; end = at_0 } ∷ record { start = at_1; end = at_3 } ∷ [];
}

abbrev large : Lock
large = record {
  name = 2;
  locations = record { start = at_0; end = at_2 } ∷ record { start = at_1; end = at_3 } ∷ [];
}

merges : merge_locks (small ∷ large ∷ []) ≡ some (record large { name = 1 } ∷ [])
unfolding merge_locks
merges = refl

merge_locks-IsCovered_example :
    (out : List Lock) × (merge_locks (small ∷ large ∷ []) ≡ some out)
    × ((j : Lock) → Memᴰ j (small ∷ large ∷ []) → IsCovered out j)
merge_locks-IsCovered_example = merge_locks-IsCovered (small ∷ large ∷ []) (
  ((record { start = at_0; end = at_0 }, record { start = at_1; end = at_3 }), refl, (refl, refl)),
  (
    (
      (record { start = at_0; end = at_2 }, record { start = at_1; end = at_3 }),
      refl,
      (refl, refl),
    ),
    tt,
  ),
)

-- Two regions of one thread that share no location count as overlapping.
apart_overlap :
    check_overlap (record { start = at_0; end = at_0 }) (record { start = at_2; end = at_2 }) ≡ true
unfolding check_overlap
apart_overlap = refl
