-- ===== src/BackfillManager/Buffer.antt =====
-- `BackfillManager::bytesRead` and `bytesSent` of src/dcp/backfill-manager.cc.
use ep_engine.Base.{ℕ, ◌+◌, ◌^◌, ◌≤◌, ◌<◌, ◌≡◌, ◌↔◌, ◌⊎◌, true, false, arith, if◌then◌else◌}
use ep_engine.BackfillManager.{Manager, bytes_read}

-- There is room in the scan buffer, and in the buffer of the connection.
abbrev pub ScanFits : ℕ → Manager → Type 0
ScanFits bytes m =
    (m.scan_items < m.scan_max_items)
    × ((m.scan_bytes ≡ 0) ⊎ (m.scan_bytes + bytes ≤ m.scan_max_bytes))

abbrev pub BufferFits : ℕ → Manager → Type 0
BufferFits bytes m = (m.buffer_bytes ≡ 0) ⊎ (m.buffer_bytes + bytes ≤ m.buffer_max_bytes)

-- If no sum wraps around, an item is accepted exactly if it fits in the scan buffer and in the buffer,
-- where an empty one takes any item; and then both grow by its bytes.
bytes_read_iff :
    (bytes : ℕ) (m : Manager)
    → m.scan_bytes + bytes < 2 ^ 32
    → m.buffer_bytes + bytes < 2 ^ 32
    → ((bytes_read bytes m).1 ≡ true) ↔ (ScanFits bytes m × BufferFits bytes m)
unfolding bytes_read
bytes_read_iff bytes m h i = ground arith

-- If no sum wraps around, the bytes in the buffer after `bytesRead` are those before it, and the item's
-- if it was accepted. A refused item leaves the counts as they were, and marks the buffer as full
-- exactly if it was not full and the scan buffer had room for it.
bytes_read-counts :
    (bytes : ℕ) (m : Manager)
    → m.scan_bytes + bytes < 2 ^ 32
    → m.buffer_bytes + bytes < 2 ^ 32
    → let (m', accepted) = bytes_read bytes m in
      (m'.buffer_bytes ≡ (if accepted then m.buffer_bytes + bytes else m.buffer_bytes))
      × (m'.scan_bytes ≡ (if accepted then m.scan_bytes + bytes else m.scan_bytes))
      × ((m'.full ≡ true) ↔ ((m.full ≡ true) ⊎ ((accepted ≡ false) × ScanFits bytes m)))
unfolding bytes_read
bytes_read-counts bytes m h i = (ground arith, ground arith, ground arith)
