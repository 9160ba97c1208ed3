-- ===== src/MutableState/Patches/Merges.antt =====
-- The merges of mutablestate.ts: the patches of a batch as one upsert of their table.
use memoturn.MutableState.StateColumns.{trace_cols, obs_cols, score_cols}
use memoturn.Prelude.{ℕ, true, false, List, [], String, or_else, is_some, map}
use memoturn.MutableState.Upsert.{StateUpsert, Table, upsert_state}
use memoturn.MutableState.Patches.{TracePatch, Patch}

module _ {V : Type 0} where
  unfoldable pub trace_upsert : TracePatch V → StateUpsert V
  trace_upsert p = record {
    id = p.id;
    version = p.merge_version;
    scalars = p.scalars;
    array_provided = is_some p.tags;
    array_value = or_else p.tags [];
  }

  unfoldable pub patch_upsert : Patch V → StateUpsert V
  patch_upsert p = record {
    id = p.id;
    version = p.merge_version;
    scalars = p.scalars;
    array_provided = false;
    array_value = [];
  }

  module _ (now : ℕ) (project_id : String) where
    unfoldable pub merge_trace_states : List (TracePatch V) → Table V → Table V
    unfolding trace_upsert
    merge_trace_states patches =
        upsert_state trace_cols true now project_id (map trace_upsert patches)

    unfoldable pub merge_observation_states : List (Patch V) → Table V → Table V
    unfolding patch_upsert
    merge_observation_states patches =
        upsert_state obs_cols false now project_id (map patch_upsert patches)

    unfoldable pub merge_score_states : List (Patch V) → Table V → Table V
    unfolding patch_upsert
    merge_score_states patches =
        upsert_state score_cols false now project_id (map patch_upsert patches)
