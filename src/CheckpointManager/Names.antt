-- ===== src/CheckpointManager/Names.antt =====
-- A walking cursor of src/checkpoint.cc keeps its name, and is found by it.
use ep_engine.Base.{
  ℕ, zero, suc, ◌≡◌, refl, ◌∙◌, Bool, true, false, Option, none, some, List, [], ◌∷◌, String,
  str_eq, eq_iff, arith, if◌then◌else◌, length,
}
use ep_engine.Checkpoint.Nodes.{Item, Node, node_at, next_addr}
use ep_engine.Checkpoint.{Checkpoint, Cursor}
use ep_engine.CheckpointManager.{
  Frame, frames, from_frame, queue_at, next_place, move_to_next, incr_cursor, after_item, collect,
  find_cursor, put_cursor,
}

name-next_place :
    (c : Cursor) (fs : List Frame) (c' : Cursor) → next_place c fs ≡ some c' → c'.name ≡ c.name
unfolding next_place
name-next_place c [] c' h = cc
name-next_place c (f ∷ []) c' h = cc
name-next_place c (f ∷ g ∷ fs) c' h = ground arith

name-move_to_next :
    (c : Cursor) (ks : List Checkpoint) (c' : Cursor) (ks' : List Checkpoint)
    → move_to_next c ks ≡ some (c', ks')
    → c'.name ≡ c.name
unfolding move_to_next
name-move_to_next c ks c' ks' h =
    ground (arith, name-next_place c (from_frame c.checkpoint (frames ks)) c')

pub name-incr_cursor :
    (fuel : ℕ) (c : Cursor) (ks : List Checkpoint) → (incr_cursor fuel c ks).0.name ≡ c.name
unfolding incr_cursor
name-incr_cursor zero c ks = refl
name-incr_cursor (suc fuel) c ks =
    go (next_addr c.pos (queue_at c.checkpoint (frames ks))) refl (move_to_next c ks) refl
      (λ d ls. name-incr_cursor fuel d ls)
  where
    go :
        (o : Option ℕ)
        → next_addr c.pos (queue_at c.checkpoint (frames ks)) ≡ o
        → (p : Option (Cursor × List Checkpoint)) → move_to_next c ks ≡ p
        → ((d : Cursor) (ls : List Checkpoint) → (incr_cursor fuel d ls).0.name ≡ d.name)
        → (incr_cursor (suc fuel) c ks).0.name ≡ c.name
    go (some a) e p e' ih = ground arith
    go none e none e' ih = ground arith
    go none e (some (d, ls)) e' ih = ground (arith, ih d ls, name-move_to_next c ks d ls e')

name-after_item :
    (qi : Item) (c : Cursor) (ks : List Checkpoint) → (after_item qi c ks).0.name ≡ c.name
unfolding after_item
name-after_item qi c ks = go (move_to_next c ks) refl
  where
    go :
        (p : Option (Cursor × List Checkpoint))
        → move_to_next c ks ≡ p
        → (after_item qi c ks).0.name ≡ c.name
    go none e = ground arith
    go (some (d, ls)) e = ground (arith, name-move_to_next c ks d ls e)

pub name-collect :
    (fuel : ℕ) (c : Cursor) (ks : List Checkpoint) (c' : Cursor) (ks' : List Checkpoint)
    (items : List Item) (last : ℕ)
    → collect fuel c ks ≡ some (c', ks', items, last)
    → c'.name ≡ c.name
unfolding collect
name-collect zero c ks c' ks' items last h = cc
name-collect (suc fuel) c ks c' ks' items last h =
    go (out.2) refl (node_at out.0.pos (queue_at out.0.checkpoint (frames out.1))) refl
      (λ d ls xs. name-collect fuel d ls c' ks' xs last)
  where
    out : Cursor × List Checkpoint × Bool
    out = incr_cursor (suc (length ks)) c ks

    rest :
        (n : Node)
        → out.2 ≡ true
        → node_at out.0.pos (queue_at out.0.checkpoint (frames out.1)) ≡ some n
        → ((d : Cursor) (ls : List Checkpoint) (xs : List Item)
            → collect fuel d ls ≡ some (c', ks', xs, last)
            → c'.name ≡ d.name)
        → (q : Option (Cursor × List Checkpoint × List Item × ℕ))
        → collect fuel (after_item n.item out.0 out.1).0 (after_item n.item out.0 out.1).1 ≡ q
        → c'.name ≡ c.name
    rest n e e' ih none e'' = absurd (ground arith)
    rest n e e' ih (some (d, ls, xs, l)) e'' =
        ih (after_item n.item out.0 out.1).0 (after_item n.item out.0 out.1).1 xs (ground arith)
        ∙ name-after_item n.item out.0 out.1
        ∙ name-incr_cursor (suc (length ks)) c ks

    go :
        (b : Bool)
        → out.2 ≡ b
        → (o : Option Node) → node_at out.0.pos (queue_at out.0.checkpoint (frames out.1)) ≡ o
        → ((d : Cursor) (ls : List Checkpoint) (xs : List Item)
            → collect fuel d ls ≡ some (c', ks', xs, last)
            → c'.name ≡ d.name)
        → c'.name ≡ c.name
    go false e o e' ih = ground (arith, name-incr_cursor (suc (length ks)) c ks)
    go true e none e' ih = absurd (ground arith)
    go true e (some n) e' ih =
        rest n e e' ih
          (collect fuel (after_item n.item out.0 out.1).0 (after_item n.item out.0 out.1).1) refl

pub find_cursor-name :
    (s : String) (cs : List Cursor) (c : Cursor) → find_cursor s cs ≡ some c → c.name ≡ s
unfolding find_cursor
find_cursor-name s [] c h = cc
find_cursor-name s (d ∷ cs) c h = ground (arith, find_cursor-name s cs c, eq_iff d.name s)

pub find_cursor-put_cursor :
    (s : String) (cs : List Cursor) (c : Cursor)
    → find_cursor s (put_cursor c cs) ≡ (if str_eq c.name s then some c else find_cursor s cs)
unfolding find_cursor put_cursor
find_cursor-put_cursor s [] c = refl
find_cursor-put_cursor s (d ∷ cs) c =
    ground
      (arith, find_cursor-put_cursor s cs c, eq_iff c.name s, eq_iff d.name s, eq_iff d.name c.name)
