-- ===== src/CheckpointManager/Walk.antt =====
-- `incrCursor` and the loop of `getAllItemsForCursor` of src/checkpoint.cc: a cursor gets every item
-- ahead of it, in order, and ends with nothing ahead.
use mathlib.Core.Path.{subst, subst₂}
use ep_engine.Base.{
  ℕ, zero, suc, ◌+◌, ◌<◌, ◌≡◌, refl, sym, ◌∙◌, ap, ◌⊎◌, inl, inr, Bool, true, false, none, some,
  List, [], ◌∷◌, ◌++◌, arith, length, drop,
}
use ep_engine.Checkpoint.Nodes.{Node, is_end, node_at, after, next_addr}
use ep_engine.Checkpoint.NodeLaws.{HasAddr, Distinct}
use ep_engine.Checkpoint.{Checkpoint, is_open, Cursor}
use ep_engine.CheckpointManager.{
  Frame, frames, from_frame, queue_at, begin_addr, next_place, move_to_next, incr_cursor,
}
use ep_engine.CheckpointManager.WalkLaws.{
  EndIsLast, NonEmpty, Chain, OwnAddresses, move_to_next-some, move_to_next-none, from_frame-next,
  after-StandsAt, after-end,
}

-- The items of later checkpoints, without the dummy item at the front of each.
abbrev pub later_nodes : List Frame → List Node
later_nodes [] = []
later_nodes (f ∷ fs) = drop 1 f.queue ++ later_nodes fs

-- A cursor that stands on a node of the checkpoint `here`, with `later` behind that.
pub record Stands (c : Cursor) (fs : List Frame) (here : Frame) (later : List Frame) : Type 0 where
  pub position : from_frame c.checkpoint fs ≡ here ∷ later
  pub placed : HasAddr c.pos here.queue
  pub chain : Chain here later
  pub own : OwnAddresses fs

-- What is ahead of it.
abbrev pub ahead : Cursor → Frame → List Frame → List Node
ahead c here later = after c.pos here.queue ++ later_nodes later

Chain-Distinct : (f : Frame) (fs : List Frame) → Chain f fs → Distinct f.queue × EndIsLast f.queue
Chain-Distinct f [] c = c
Chain-Distinct f (g ∷ gs) c = (c.0, c.1)

after-begin :
    (ns : List Node)
    → NonEmpty ns
    → (after (begin_addr ns) ns ≡ drop 1 ns) × HasAddr (begin_addr ns) ns
unfolding after begin_addr
after-begin [] h = absurd h
after-begin (n ∷ ns) h = (ground arith, inl refl)

-- The cursor after a move to the checkpoint `g`.
abbrev pub moved : Cursor → Frame → Cursor
moved c g = record c { checkpoint = g.self; pos = begin_addr g.queue }

pub Stands-moved :
    (c : Cursor) (fs : List Frame) (f g : Frame) (gs : List Frame)
    → Stands c fs f (g ∷ gs)
    → Stands (moved c g) fs g gs × (after (moved c g).pos g.queue ≡ drop 1 g.queue)
Stands-moved c fs f g gs s = (
  record {
    position = from_frame-next c.checkpoint fs f g gs s.own s.position;
    placed = (after-begin g.queue s.chain.3).1;
    chain = s.chain.4;
    own = s.own;
  },
  (after-begin g.queue s.chain.3).0,
)

next_place-moved :
    (c : Cursor) (fs : List Frame) (f g : Frame) (gs : List Frame)
    → Stands c fs f (g ∷ gs)
    → next_place c (from_frame c.checkpoint fs) ≡ some (moved c g)
unfolding next_place is_open
next_place-moved c fs f g gs s = rw s.position (ground (arith, s.chain.2))

next_place-last :
    (c : Cursor) (fs : List Frame) (f : Frame)
    → Stands c fs f []
    → next_place c (from_frame c.checkpoint fs) ≡ none
unfolding next_place
next_place-last c fs f s = rw s.position refl

pub queue_at-Stands :
    (c : Cursor) (fs : List Frame) (f : Frame) (gs : List Frame)
    → Stands c fs f gs
    → queue_at c.checkpoint fs ≡ f.queue
unfolding queue_at
queue_at-Stands c fs f gs s = ground arith

next_addr-after :
    (a : ℕ) (ns : List Node)
    → (next_addr a ns ≡ none) × (after a ns ≡ [])
      ⊎ ((m : Node) × (l : List Node) × (next_addr a ns ≡ some m.addr) × (after a ns ≡ m ∷ l))
unfolding next_addr
next_addr-after a ns = go (after a ns) refl
  where
    go :
        (l : List Node)
        → after a ns ≡ l
        → (next_addr a ns ≡ none) × (after a ns ≡ [])
          ⊎ ((m : Node) × (l : List Node) × (next_addr a ns ≡ some m.addr) × (after a ns ≡ m ∷ l))
    go [] e = inl (ground arith, e)
    go (m ∷ l) e = inr (m, l, ground arith, e)

incr_cursor-in :
    (fuel a : ℕ) (c : Cursor) (ks : List Checkpoint)
    → next_addr c.pos (queue_at c.checkpoint (frames ks)) ≡ some a
    → incr_cursor (suc fuel) c ks ≡ (record c { pos = a; offset = c.offset + 1 }, ks, true)
unfolding incr_cursor
incr_cursor-in fuel a c ks h = ground arith

incr_cursor-on :
    (fuel : ℕ) (c c' : Cursor) (ks ks' : List Checkpoint)
    → next_addr c.pos (queue_at c.checkpoint (frames ks)) ≡ none
    → move_to_next c ks ≡ some (c', ks')
    → incr_cursor (suc fuel) c ks ≡ incr_cursor fuel c' ks'
unfolding incr_cursor
incr_cursor-on fuel c c' ks ks' h m = ground arith

incr_cursor-stop :
    (fuel : ℕ) (c : Cursor) (ks : List Checkpoint)
    → next_addr c.pos (queue_at c.checkpoint (frames ks)) ≡ none
    → move_to_next c ks ≡ none
    → incr_cursor (suc fuel) c ks ≡ (c, ks, false)
unfolding incr_cursor
incr_cursor-stop fuel c ks h m = ground arith

-- A step onto the next item, with `r` ahead of it.
pub record Advanced (n : Node) (r : List Node) (fs : List Frame)
    (out : Cursor × List Checkpoint × Bool) : Type 0 where
  pub here : Frame
  pub later : List Frame
  pub more : out.2 ≡ true
  pub same : frames out.1 ≡ fs
  pub stands : Stands out.0 fs here later
  pub current : node_at out.0.pos here.queue ≡ some n
  pub behind : after out.0.pos here.queue ++ later_nodes later ≡ r
  pub ended : is_end n.item.operation ≡ true → after out.0.pos here.queue ≡ []

-- A step that finds nothing.
pub record Stopped (fs : List Frame) (out : Cursor × List Checkpoint × Bool) : Type 0 where
  pub here : Frame
  pub later : List Frame
  pub more : out.2 ≡ false
  pub same : frames out.1 ≡ fs
  pub stands : Stands out.0 fs here later
  pub rest : ahead out.0 here later ≡ []

advance_in :
    (c : Cursor) (ks : List Checkpoint) (fs : List Frame) (f : Frame) (later : List Frame)
    (m : Node) (l : List Node)
    → Stands c fs f later
    → frames ks ≡ fs
    → after c.pos f.queue ≡ m ∷ l
    → Advanced m
        (l ++ later_nodes later)
        fs
        (record c { pos = m.addr; offset = c.offset + 1 }, ks, true)
advance_in c ks fs f later m l s same e =
    let (a, i, n) = after-StandsAt c.pos f.queue m l (Chain-Distinct f later s.chain).0 e in
    record {
      here = f;
      later = later;
      more = refl;
      same = same;
      stands = record { position = s.position; placed = i; chain = s.chain; own = s.own };
      current = n;
      behind = ap (λ z. z ++ later_nodes later) a;
      ended = λ w. a ∙ after-end c.pos f.queue m l (Chain-Distinct f later s.chain).1 e w;
    }

advance_at :
    (c : Cursor) (ks : List Checkpoint) (fs : List Frame) (f : Frame) (later : List Frame)
    (m : Node) (l : List Node) (n : Node) (r : List Node)
    → Stands c fs f later
    → frames ks ≡ fs
    → after c.pos f.queue ≡ m ∷ l
    → m ∷ (l ++ later_nodes later) ≡ n ∷ r
    → Advanced n r fs (record c { pos = m.addr; offset = c.offset + 1 }, ks, true)
advance_at c ks fs f later m l n r s same e q =
    subst₂ (λ x y. Advanced x y fs (record c { pos = m.addr; offset = c.offset + 1 }, ks, true))
      (head_eq q) (tail_eq q) (advance_in c ks fs f later m l s same e)
  where
    head_eq : m ∷ (l ++ later_nodes later) ≡ n ∷ r → m ≡ n
    head_eq q = cc

    tail_eq : m ∷ (l ++ later_nodes later) ≡ n ∷ r → l ++ later_nodes later ≡ r
    tail_eq q = cc

next_at :
    (c : Cursor) (ks : List Checkpoint) (fs : List Frame) (f : Frame) (later : List Frame)
    → Stands c fs f later
    → frames ks ≡ fs
    → next_addr c.pos (queue_at c.checkpoint (frames ks)) ≡ next_addr c.pos f.queue
next_at c ks fs f later s same =
    ap (λ z. next_addr c.pos (queue_at c.checkpoint z)) same
    ∙ ap (next_addr c.pos) (queue_at-Stands c fs f later s)

-- A move from a checkpoint with another behind it.
pub move_on :
    (c : Cursor) (ks : List Checkpoint) (fs : List Frame) (f g : Frame) (gs : List Frame)
    → Stands c fs f (g ∷ gs)
    → frames ks ≡ fs
    → (ks' : List Checkpoint) × (move_to_next c ks ≡ some (moved c g, ks')) × (frames ks' ≡ fs)
move_on c ks fs f g gs s same =
    let (ks', m, e) =
      move_to_next-some c (moved c g) ks (
        ap (λ z. next_place c (from_frame c.checkpoint z)) same ∙ next_place-moved c fs f g gs s) in
    (ks', m, e ∙ same)

pub move_off :
    (c : Cursor) (ks : List Checkpoint) (fs : List Frame) (f : Frame)
    → Stands c fs f []
    → frames ks ≡ fs
    → move_to_next c ks ≡ none
move_off c ks fs f s same =
    move_to_next-none c ks
      (ap (λ z. next_place c (from_frame c.checkpoint z)) same ∙ next_place-last c fs f s)

-- With fuel for each checkpoint behind the cursor's, `incrCursor` goes to the next item if there is
-- one ahead, moving over checkpoints that have none, and else stops.
pub incr_cursor-Advanced :
    (fuel : ℕ) (later : List Frame) (c : Cursor) (ks : List Checkpoint) (fs : List Frame)
    (f : Frame) (n : Node) (r : List Node)
    → Stands c fs f later
    → frames ks ≡ fs
    → length later < fuel
    → ahead c f later ≡ n ∷ r
    → Advanced n r fs (incr_cursor fuel c ks)
incr_cursor-Advanced zero later c ks fs f n r s same h e = elim h [ ]
incr_cursor-Advanced (suc fuel) [] c ks fs f n r s same h e = elim (next_addr-after c.pos f.queue) [
  | inl (w, a) ↦ absurd (ground arith)
  | inr (m, l, w, a) ↦
      subst (Advanced n r fs)
        (sym (incr_cursor-in fuel m.addr c ks (next_at c ks fs f [] s same ∙ w)))
        (advance_at c ks fs f [] m l n r s same a (sym (ap (λ z. z ++ []) a) ∙ e))
]
incr_cursor-Advanced (suc fuel) (g ∷ gs) c ks fs f n r s same h e =
    elim (next_addr-after c.pos f.queue) [
      | inl (w, a) ↦
          let (ks', mv, same') = move_on c ks fs f g gs s same in
          let (s', b) = Stands-moved c fs f g gs s in
          subst (Advanced n r fs)
            (sym
              (incr_cursor-on fuel c (moved c g) ks ks' (next_at c ks fs f (g ∷ gs) s same ∙ w) mv))
            (incr_cursor-Advanced fuel gs (moved c g) ks' fs g n r s' same' (omega arith)
              (ap (λ z. z ++ later_nodes gs) b ∙ sym (ap (λ z. z ++ later_nodes (g ∷ gs)) a) ∙ e))
      | inr (m, l, w, a) ↦
          subst (Advanced n r fs)
            (sym (incr_cursor-in fuel m.addr c ks (next_at c ks fs f (g ∷ gs) s same ∙ w)))
            (advance_at c ks fs f (g ∷ gs) m l n r s same a
              (sym (ap (λ z. z ++ later_nodes (g ∷ gs)) a) ∙ e))
    ]

-- Without an item ahead it stops, where the last checkpoint ends.
pub incr_cursor-Stopped :
    (fuel : ℕ) (later : List Frame) (c : Cursor) (ks : List Checkpoint) (fs : List Frame)
    (f : Frame)
    → Stands c fs f later
    → frames ks ≡ fs
    → length later < fuel
    → ahead c f later ≡ []
    → Stopped fs (incr_cursor fuel c ks)
incr_cursor-Stopped zero later c ks fs f s same h e = elim h [ ]
incr_cursor-Stopped (suc fuel) [] c ks fs f s same h e = elim (next_addr-after c.pos f.queue) [
  | inl (w, a) ↦
      subst (Stopped fs)
        (sym (
          incr_cursor-stop fuel c ks (next_at c ks fs f [] s same ∙ w) (move_off c ks fs f s same)))
        (record { here = f; later = []; more = refl; same = same; stands = s; rest = e })
  | inr (m, l, w, a) ↦ absurd (ground arith)
]
incr_cursor-Stopped (suc fuel) (g ∷ gs) c ks fs f s same h e =
    elim (next_addr-after c.pos f.queue) [
      | inl (w, a) ↦
          let (ks', mv, same') = move_on c ks fs f g gs s same in
          let (s', b) = Stands-moved c fs f g gs s in
          subst (Stopped fs)
            (sym
              (incr_cursor-on fuel c (moved c g) ks ks' (next_at c ks fs f (g ∷ gs) s same ∙ w) mv))
            (incr_cursor-Stopped fuel gs (moved c g) ks' fs g s' same' (omega arith)
              (ap (λ z. z ++ later_nodes gs) b ∙ sym (ap (λ z. z ++ later_nodes (g ∷ gs)) a) ∙ e))
      | inr (m, l, w, a) ↦ absurd (ground arith)
    ]
