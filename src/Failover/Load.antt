-- ===== src/Failover/Load.antt =====
-- `FailoverTable::loadFromJSON` of src/failover-table.cc and the constructor that calls it, and that
-- a table survives being printed and loaded.
use ep_engine.Base.{ℕ, ◌^◌, ◌<◌, ◌≡◌, refl, Option, none, some, List, [], ◌∷◌, arith}
use ep_engine.Failover.{
  Entry, FailoverTable, Outcome, done, invalid_argument, json_items, cache_table_json,
}
use ep_engine.Failover.CachedJson.{
  number, JsonItem, object, Json, array, not_array, to_double_exact,
}

-- The body of the loop; the tests of "id" come before those of "seq".
pub load_item : JsonItem → Option Entry
load_item (object (number id) (number seq)) = some (record { vb_uuid = id; by_seqno = seq })
load_item _ = none

pub load_items : List JsonItem → Option (List Entry)
load_items [] = some []
load_items (j ∷ js) =
    let rest = load_items js in
    elim (load_item j) [
      | none ↦ none
      | some e ↦ elim rest [ none ↦ none | some es ↦ some (e ∷ es) ]
    ]

-- `loadFromJSON(cJSON*)`: `none` is the result false, which leaves the table alone.
pub load_from_json : Json → FailoverTable → Option FailoverTable
unfolding load_item load_items
load_from_json not_array t = none
load_from_json (array js) t = elim (load_items js) [
  | none ↦ none
  | some [] ↦ none
  | some (e ∷ es) ↦ some (record t { table = e ∷ es; latest_uuid = e.vb_uuid })
]

-- The constructor from a text, with `loadFromJSON(const std::string&)`. `parsed` is what
-- `cJSON_Parse` returns; `uninitialised` is what `latest_uuid` holds before any store.
pub table_of_json : ℕ → Option Json → ℕ → Outcome FailoverTable
unfolding load_from_json
table_of_json uninitialised none capacity =
    done (record {
      table = [];
      max_entries = capacity;
      latest_uuid = uninitialised;
      cached_json = none;
    })
table_of_json uninitialised (some json) capacity =
    elim (load_from_json json (record {
      table = [];
      max_entries = capacity;
      latest_uuid = uninitialised;
      cached_json = none;
    })) [ none ↦ invalid_argument | some t ↦ done (record t { cached_json = some json }) ]

-- Every number of the table is one that a `double` holds exactly.
abbrev pub Exact : List Entry → Type 0
Exact [] = Unit {0}
Exact (e ∷ es) = (e.vb_uuid < 2 ^ 53) × (e.by_seqno < 2 ^ 53) × Exact es

load_items-json_items : (es : List Entry) → Exact es → load_items (json_items es) ≡ some es
unfolding load_items load_item json_items
load_items-json_items [] h = refl
load_items-json_items (e ∷ es) h = ground (
  arith,
  load_items-json_items es h.2,
  to_double_exact e.vb_uuid h.0,
  to_double_exact e.by_seqno h.1,
)

module _ {Text : Type 0} (print : Json → Text) (parse : Text → Option Json) where
  -- The text that a table with at least one entry caches, if cJSON parses what it prints and no
  -- number of the table exceeds the 53 bits of a double, makes the constructor build a table with
  -- the same entries in the same order, whose latest uuid is that of the first entry, and which
  -- caches the text again.
  load-cache :
      (u capacity : ℕ) (t : FailoverTable) (e : Entry) (es : List Entry)
      → ((j : Json) → parse (print j) ≡ some j)
      → t.table ≡ e ∷ es
      → Exact (e ∷ es)
      → table_of_json u (parse (print (array (json_items t.table)))) capacity
        ≡ done (record {
          table = e ∷ es;
          max_entries = capacity;
          latest_uuid = e.vb_uuid;
          cached_json = (cache_table_json t).cached_json;
        })
  unfolding table_of_json cache_table_json
  load-cache u capacity t e es inverse same exact =
      ground (arith, inverse (array (json_items t.table)), load_items-json_items (e ∷ es) exact)
