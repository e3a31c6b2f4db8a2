-- ===== src/Failover/Tests.antt =====
-- Runs of the failover table, and the theorems at concrete tables.
use ep_engine.Base.{ℕ, ◌≤◌, ◌≡◌, refl, ◌↔◌, ◌⊎◌, none, some, List, [], ◌∷◌, arith}
use ep_engine.Failover.CachedJson.{array}
use ep_engine.Failover.{
  Entry, FailoverTable, done, json_items, cache_table_json, adjust_snapshot_range, find_upper,
  needs_rollback, new_entry, create_entry, blank_table, new_table, prune_entries,
  get_last_seqno_for_uuid, add_failover_log, replace_failover_log,
}
use ep_engine.Failover.Rollback.{Shared, needs_rollback_iff, needs_rollback-bound, rollback_settles}
use ep_engine.Failover.Entries.{Descending, create_entry_lem, create_entry_keeps_diverged}
use ep_engine.Failover.Inv.{creates, prunes, step, run, IsConsistent, run-new_table-IsConsistent}
use ep_engine.Failover.Log.{encode_log, replace-add}

abbrev newest : Entry
newest = record { vb_uuid = 30; by_seqno = 120 }

abbrev middle : Entry
middle = record { vb_uuid = 20; by_seqno = 80 }

abbrev oldest : Entry
oldest = record { vb_uuid = 10; by_seqno = 0 }

abbrev three : FailoverTable
three = record {
  table = newest ∷ middle ∷ oldest ∷ [];
  max_entries = 25;
  latest_uuid = 30;
  cached_json = some (array (json_items (newest ∷ middle ∷ oldest ∷ [])));
}

abbrev pruned : FailoverTable
pruned = record {
  table = middle ∷ oldest ∷ [];
  max_entries = 25;
  latest_uuid = 20;
  cached_json = some (array (json_items (middle ∷ oldest ∷ [])));
}

prune_run : prune_entries 100 three ≡ done pruned
unfolding prune_entries
prune_run = refl

-- A client of the branch 20 that went on to 130 goes back to 120, where the branch ended.
rollback_run : needs_rollback 130 150 20 130 130 0 three ≡ some 120
unfolding needs_rollback find_upper
rollback_run = ground arith

needs_rollback_iff_example :
    (needs_rollback 90 150 20 80 100 0 three ≡ none)
    ↔ ((0 ≤ 80) × ((upper : ℕ) × Shared 20 150 three.table upper × (100 ≤ upper)))
unfolding adjust_snapshot_range
needs_rollback_iff_example = needs_rollback_iff 90 150 20 80 100 0 three (omega arith)

needs_rollback-bound_example :
    (120 ≤ 130)
    × ((◌≡◌ {A = ℕ} 120 0) ⊎ ((upper : ℕ) × Shared 20 150 three.table upper × (120 ≤ upper)))
unfolding adjust_snapshot_range
needs_rollback-bound_example = needs_rollback-bound 130 150 20 130 130 0 three 120 rollback_run

rollback_settles_example :
    (needs_rollback 120 160 20 120 120 0 three ≡ none)
    × (needs_rollback 0 160 20 0 0 0 three ≡ none)
rollback_settles_example =
    rollback_settles 130 150 20 130 130 0 three 120 160 rollback_run (omega arith)

create_entry_lem_example :
    create_entry 0x280000 100 three
    ≡ done (
        cache_table_json (record three {
          table = record { vb_uuid = 40; by_seqno = 100 } ∷ middle ∷ oldest ∷ [];
          latest_uuid = 40;
        }))
create_entry_lem_example =
    create_entry_lem 0x280000 100 three newest middle (oldest ∷ []) refl (omega arith)

abbrev diverged : FailoverTable
diverged = record {
  table = record { vb_uuid = 40; by_seqno = 50 } ∷ middle ∷ oldest ∷ [];
  max_entries = 25;
  latest_uuid = 40;
  cached_json =
      some (array (json_items (record { vb_uuid = 40; by_seqno = 50 } ∷ middle ∷ oldest ∷ [])));
}

diverged_run : create_entry 0x280000 50 three ≡ done diverged
unfolding create_entry
diverged_run = refl

create_entry_keeps_diverged_example :
    ((rest : List Entry) × (diverged.table
        ≡ record { vb_uuid = 40; by_seqno = 50 } ∷ middle ∷ rest))
    × ¬ Descending diverged.table
create_entry_keeps_diverged_example =
    create_entry_keeps_diverged 0x280000 50 three diverged newest middle (oldest ∷ []) refl
      (omega arith) (omega arith) (omega arith) diverged_run

last_run : get_last_seqno_for_uuid 20 three ≡ done (some 120)
unfolding get_last_seqno_for_uuid
last_run = refl

first_table : FailoverTable
first_table =
    cache_table_json (record (blank_table 25) { table = new_entry 0x70000 0 ∷ []; latest_uuid = 7 })

new_run : new_table 0x70000 25 ≡ done first_table
unfolding new_table first_table
new_run = refl

second_table : FailoverTable
second_table = cache_table_json (record (blank_table 25) {
  table = new_entry 0x90000 60 ∷ new_entry 0x70000 0 ∷ [];
  latest_uuid = 9;
})

calls_run :
    run (creates 0x80000 40 ∷ prunes 20 ∷ creates 0x90000 60 ∷ []) first_table ≡ done second_table
unfolding run step first_table second_table create_entry prune_entries
calls_run = refl

run-new_table-IsConsistent_example : IsConsistent second_table
run-new_table-IsConsistent_example =
    run-new_table-IsConsistent 0x70000 25 (creates 0x80000 40 ∷ prunes 20 ∷ creates 0x90000 60 ∷ [])
      first_table second_table (omega arith) new_run calls_run

replace-add_example :
    replace_failover_log (encode_log (add_failover_log three).0) pruned
    ≡ done (cache_table_json (record pruned { table = three.table; latest_uuid = 30 }))
replace-add_example = replace-add three pruned newest (middle ∷ oldest ∷ []) refl (omega arith)
