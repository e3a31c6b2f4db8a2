-- ===== src/RingBuffer/Tests.antt =====
-- A run of the ring buffer, and the theorem at a buffer of three elements.
use ep_engine.Base.{ℕ, ◌≡◌, refl, [], ◌∷◌, arith}
use ep_engine.RingBuffer.{new_buffer, size, reset, contents, add_all}
use ep_engine.RingBuffer.Recent.{contents-add_all}

five :
    contents {A = ℕ} (add_all (1 ∷ 2 ∷ 3 ∷ 4 ∷ 5 ∷ []) (new_buffer 3 (0 ∷ 0 ∷ 0 ∷ [])))
    ≡ 3 ∷ 4 ∷ 5 ∷ []
unfolding contents add_all new_buffer
five = refl

contents-add_all_example :
    (contents {A = ℕ} (add_all (1 ∷ 2 ∷ 3 ∷ 4 ∷ 5 ∷ []) (new_buffer 3 (0 ∷ 0 ∷ 0 ∷ [])))
      ≡ 3 ∷ 4 ∷ 5 ∷ [])
    × (size {A = ℕ} (add_all (1 ∷ 2 ∷ 3 ∷ 4 ∷ 5 ∷ []) (new_buffer 3 (0 ∷ 0 ∷ 0 ∷ []))) ≡ 3)
    × (contents {A = ℕ} (
          add_all
            (6 ∷ [])
            (reset (add_all (1 ∷ 2 ∷ 3 ∷ 4 ∷ 5 ∷ []) (new_buffer 3 (0 ∷ 0 ∷ 0 ∷ [])))))
        ≡ 6 ∷ [])
contents-add_all_example =
    contents-add_all 3 (0 ∷ 0 ∷ 0 ∷ []) (1 ∷ 2 ∷ 3 ∷ 4 ∷ 5 ∷ []) (6 ∷ []) (omega arith) refl
