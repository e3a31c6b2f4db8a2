-- ===== src/Checkpoint/Sound.antt =====
-- `Checkpoint::queueDirty` of src/checkpoint.cc keeps the queue and `keyIndex` in step.
use mathlib.Core.Path.{subst}
use mathlib.Core.List.{append-nil}
use Prim.Native.String.{len}
use ep_engine.Base.{
  ℕ, ◌≡◌, refl, sym, ◌∙◌, ◌≢◌, inl, inr, List, [], ◌∷◌, ◌++◌, String, str_eq, eq_iff, arith,
  if◌then◌else◌, Bool-cases,
}
use ep_engine.Checkpoint.Nodes.{Item, is_meta, Node}
use ep_engine.Checkpoint.NodeLaws.{IsFresh, Distinct, Distinct-append}
use ep_engine.Checkpoint.Index.{
  mutates, with_key, drop_key, with_key-append, with_key-drop_key, with_key-drop_key_ne, Agrees,
  find_entry-put_entry,
}
use ep_engine.Checkpoint.{find_entry, put_entry, Checkpoint, Cursor, index_item, queue_open}
use ep_engine.Checkpoint.Expected.{IsSound, expected, queue_open-expected}

IsFresh-drop_key : (k : String) (a : ℕ) (ns : List Node) → IsFresh a ns → IsFresh a (drop_key k ns)
unfolding drop_key
IsFresh-drop_key k a [] f = tt
IsFresh-drop_key k a (n ∷ ns) f = elim (Bool-cases (mutates k n)) [
  | inl e ↦ rw (e, drop_key) (IsFresh-drop_key k a ns f.1)
  | inr e ↦ rw (e, drop_key) (f.0, IsFresh-drop_key k a ns f.1)
]

Distinct-drop_key : (k : String) (ns : List Node) → Distinct ns → Distinct (drop_key k ns)
unfolding drop_key
Distinct-drop_key k [] d = tt
Distinct-drop_key k (n ∷ ns) d = elim (Bool-cases (mutates k n)) [
  | inl e ↦ rw (e, drop_key) (Distinct-drop_key k ns d.1)
  | inr e ↦ rw (e, drop_key) (IsFresh-drop_key k n.addr ns d.0, Distinct-drop_key k ns d.1)
]

module _ (addr : ℕ) (qi : Item) (chk : Checkpoint) (sound : IsSound chk) where
  node : Node
  node = record { addr = addr; item = qi }

  expected-Distinct : IsFresh addr chk.to_write → Distinct (expected qi addr chk.to_write)
  expected-Distinct f = elim (Bool-cases (is_meta qi)) [
    | inl m ↦ rw m (Distinct-append chk.to_write _ sound.distinct f)
    | inr m ↦ rw m (
        Distinct-append (drop_key qi.key chk.to_write) _
          (Distinct-drop_key qi.key chk.to_write sound.distinct)
          (IsFresh-drop_key qi.key addr chk.to_write f))
  ]

  expected-shape : (rest : List Node) × (expected qi addr chk.to_write ≡ sound.head ∷ rest)
  unfolding drop_key
  expected-shape = (
    (if is_meta qi then sound.rest else drop_key qi.key sound.rest)
        ++ record { addr = addr; item = qi } ∷ [],
    ground (arith, sound.shape, sound.dummy),
  )

  key_index-queue_open :
      (cs : List Cursor)
      → len qi.key ≢ 0
      → (queue_open addr qi chk cs).0.key_index ≡ (
          if is_meta qi
          then chk.key_index
          else put_entry qi.key
              (record { position = addr; mutation_id = qi.by_seqno })
              chk.key_index)
  unfolding queue_open index_item
  key_index-queue_open cs h = ground arith

  -- The nodes of a key afterwards.
  with_key-expected :
      (k : String)
      → with_key k (expected qi addr chk.to_write) ≡ (
          if is_meta qi
          then with_key k chk.to_write
          else (if str_eq qi.key k
              then record { addr = addr; item = qi } ∷ []
              else with_key k chk.to_write))
  unfolding with_key
  with_key-expected k = ground (
    arith,
    eq_iff qi.key k,
    with_key-append k chk.to_write (record { addr = addr; item = qi } ∷ []),
    with_key-append k (drop_key qi.key chk.to_write) (record { addr = addr; item = qi } ∷ []),
    with_key-drop_key k chk.to_write,
    with_key-drop_key_ne k qi.key chk.to_write,
    append-nil (with_key k chk.to_write),
  )

  expected-Agrees :
      (k : String)
      → Agrees
          (find_entry k (
            if is_meta qi
            then chk.key_index
            else put_entry qi.key
                (record { position = addr; mutation_id = qi.by_seqno })
                chk.key_index))
          (with_key k (expected qi addr chk.to_write))
  expected-Agrees k = elim (Bool-cases (is_meta qi)) [
    | inl m ↦ rw (with_key-expected k, m) (sound.indexed k)
    | inr m ↦ elim (Bool-cases (str_eq qi.key k)) [
      | inl e ↦ rw (with_key-expected k, m, find_entry-put_entry k qi.key, e) (refl, refl)
      | inr e ↦ rw (with_key-expected k, m, find_entry-put_entry k qi.key, e) (sound.indexed k)
    ]
  ]

  -- Queueing an item whose key is not empty, at a new address, keeps the checkpoint sound: its nodes
  -- have their own addresses, no key is mutated twice, and the index points at each key's mutation
  -- and knows its sequence number.
  pub queue_open-IsSound :
      (cs : List Cursor)
      → IsFresh addr chk.to_write
      → len qi.key ≢ 0
      → IsSound (queue_open addr qi chk cs).0
  queue_open-IsSound cs f h = record {
    head = sound.head;
    rest = expected-shape.0;
    shape = queue_open-expected addr qi chk sound cs ∙ expected-shape.1;
    dummy = sound.dummy;
    distinct =
        subst Distinct (sym (queue_open-expected addr qi chk sound cs)) (expected-Distinct f);
    indexed = λ k.
        rw (queue_open-expected addr qi chk sound cs, key_index-queue_open cs h)
          (expected-Agrees k);
  }
