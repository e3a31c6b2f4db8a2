-- ===== src/Conflict/Tests.antt =====
-- The theorems on the resolution of conflicts at concrete documents.
use ep_engine.Base.{◌≡◌, refl, ◌↔◌, ◌⊎◌, true, false}
use ep_engine.Conflict.{
  revision_seqno, last_write_wins, StoredValue, is_temp_non_existent, resolve, resolve_rev_seqno,
}
use ep_engine.Conflict.Order.{Precedes, ranking, by_cas, settled, resolve_iff, settled_agree}

abbrev local : StoredValue
local = record {
  meta = record { cas = 100; rev_seqno = 3; flags = 0; exptime = 0 };
  by_seqno = 7;
  mode = last_write_wins;
}

abbrev remote : StoredValue
remote = record {
  meta = record { cas = 90; rev_seqno = 4; flags = 0; exptime = 0 };
  by_seqno = 8;
  mode = revision_seqno;
}

-- The cas would decide for the local document, but the remote one is not in last-write-wins mode.
local_run : resolve true local remote.meta false remote.mode ≡ true
unfolding resolve resolve_rev_seqno
local_run = refl

resolve_iff_example : (resolve true local remote.meta false revision_seqno ≡ true) ↔ (
    (is_temp_non_existent local ≡ true)
    ⊎ Precedes
        (ranking (by_cas true local revision_seqno) false local.meta)
        (ranking (by_cas true local revision_seqno) false remote.meta))
resolve_iff_example = resolve_iff true local remote.meta false revision_seqno

settled_agree_example : settled true local remote ≡ settled true remote local
unfolding is_temp_non_existent
settled_agree_example = settled_agree true local remote refl refl
