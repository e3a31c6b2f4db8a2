-- ===== src/Conflict.antt =====
-- src/conflict_resolution.cc: whether a document that arrives with meta data replaces the local one.
pub mod Order
mod Tests
use ep_engine.Base.{ℕ, ◌-◌, ◌^◌, Bool, true, false, not, ◌&&◌, ◌||◌, ltb, leb, ◌==◌, if◌then◌else◌}

-- `ItemMetaData`, its integers as the numbers of their bits.
pub record MetaData : Type 0 where
  pub cas : ℕ
  pub rev_seqno : ℕ
  pub flags : ℕ
  pub exptime : ℕ

-- `conflict_resolution_mode`
pub data Mode : Type 0 where
  revision_seqno last_write_wins : Mode

unfoldable pub is_lww : Mode → Bool
is_lww revision_seqno = false
is_lww last_write_wins = true

-- What is read of a `StoredValue`; `by_seqno` is the bit pattern of its signed number.
pub record StoredValue : Type 0 where
  pub meta : MetaData
  pub by_seqno : ℕ
  pub mode : Mode

-- `StoredValue::state_non_existent_key`, which is -4.
abbrev state_non_existent_key : ℕ
state_non_existent_key = 2 ^ 64 - 4

-- `isTempNonExistentItem`
unfoldable pub is_temp_non_existent : StoredValue → Bool
is_temp_non_existent v = v.by_seqno == state_non_existent_key

-- `resolve_lww`
unfoldable pub resolve_lww : StoredValue → MetaData → Bool → Bool
unfolding is_temp_non_existent
resolve_lww v meta deletion =
    if not (is_temp_non_existent v)
    then (if ltb meta.cas v.meta.cas
        then false
        else (if v.meta.cas == meta.cas
            then (if ltb meta.rev_seqno v.meta.rev_seqno
                then false
                else (if v.meta.rev_seqno == meta.rev_seqno
                    then (if deletion || ltb meta.exptime v.meta.exptime
                        then false
                        else (if v.meta.exptime == meta.exptime
                            then not (leb meta.flags v.meta.flags)
                            else true))
                    else true))
            else true))
    else true

-- `resolve_rev_seqno`
unfoldable pub resolve_rev_seqno : StoredValue → MetaData → Bool → Bool
unfolding is_temp_non_existent
resolve_rev_seqno v meta deletion =
    if not (is_temp_non_existent v)
    then (if ltb meta.rev_seqno v.meta.rev_seqno
        then false
        else (if v.meta.rev_seqno == meta.rev_seqno
            then (if ltb meta.cas v.meta.cas
                then false
                else (if v.meta.cas == meta.cas
                    then (if deletion || ltb meta.exptime v.meta.exptime
                        then false
                        else (if v.meta.exptime == meta.exptime
                            then not (leb meta.flags v.meta.flags)
                            else true))
                    else true))
            else true))
    else true

-- `resolve`; the log message for a mixed pair of modes is left out. `time_sync` is the vbucket's.
unfoldable pub resolve : Bool → StoredValue → MetaData → Bool → Mode → Bool
unfolding is_lww
resolve time_sync v meta deletion mode =
    if time_sync && is_lww v.mode && is_lww mode
    then resolve_lww v meta deletion
    else resolve_rev_seqno v meta deletion
