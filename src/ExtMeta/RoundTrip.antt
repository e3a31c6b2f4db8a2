-- ===== src/ExtMeta/RoundTrip.antt =====
-- `encodeMeta` of src/ext_meta_parser.cc and its reader.
use ep_engine.Base.{
  ℕ, ◌<◌, ◌^◌, ◌≡◌, ◌⊎◌, refl, sym, ◌∙◌, ap, Bool, true, false, List, [], ◌∷◌, arith, if◌then◌else◌,
  length, le_bytes, be_bytes, be_value, be_from, be_value-be_bytes, length-be_bytes,
  length-le_bytes,
}
use ep_engine.ExtMeta.{
  version_one, cmd_meta_adjusted_time, cmd_meta_conflict_res_mode, success, Parsed, parsed, overrun,
  overlay, read_field, and_then, no_meta, decode_meta, encode_meta,
}
use ep_engine.ExtMeta.Fields.{Field, write_fields, Fit, read_fields, decode-fields}

-- The fields that `encodeMeta` writes.
abbrev time_field : ℕ → Field
time_field t = record { type = cmd_meta_adjusted_time; payload = be_bytes 8 t }

abbrev mode_field : ℕ → Field
mode_field m = record { type = cmd_meta_conflict_res_mode; payload = m ∷ [] }

abbrev fields : Bool → ℕ → ℕ → List Field
fields set_time t m = if set_time then time_field t ∷ mode_field m ∷ [] else mode_field m ∷ []

encode_meta-fields :
    (set_time : Bool) (t m : ℕ)
    → encode_meta set_time t m ≡ version_one ∷ write_fields (fields set_time t m)
unfolding encode_meta be_bytes
encode_meta-fields true t m = refl
encode_meta-fields false t m = refl

overlay_whole : (xs ys : List ℕ) → length ys ≡ length xs → overlay xs ys ≡ xs
unfolding overlay
overlay_whole [] [] h = refl
overlay_whole [] (y ∷ ys) h = absurd (omega arith)
overlay_whole (x ∷ xs) [] h = absurd (omega arith)
overlay_whole (x ∷ xs) (y ∷ ys) h = ap (λ l. x ∷ l) (overlay_whole xs ys (omega arith))

read-time :
    (t : ℕ) (p : Parsed)
    → t < 2 ^ 64
    → read_field cmd_meta_adjusted_time (be_bytes 8 t) p ≡ parsed (record p { adjusted_time = t })
unfolding read_field
read-time t p h = ground (
  arith,
  length-be_bytes 8 t,
  overlay_whole (be_bytes 8 t) (le_bytes 8 p.adjusted_time)
      (length-le_bytes 8 p.adjusted_time ∙ sym (length-be_bytes 8 t)),
  be_value-be_bytes 8 t (omega arith),
)

read-mode :
    (m : ℕ) (p : Parsed)
    → read_field cmd_meta_conflict_res_mode (m ∷ []) p ≡ parsed (record p { conflict_res_mode = m })
unfolding read_field overlay be_value be_from
read-mode m p = ground arith

-- What `encodeMeta` writes is read back, with and without an adjusted time, which is 0 if it is not
-- set: for a time of 64 bits, the constructor that reads succeeds with the same time and the same
-- conflict resolution mode.
pub decode-encode :
    (set_time : Bool) (t m : ℕ)
    → t < 2 ^ 64
    → decode_meta (encode_meta set_time t m)
      ≡ parsed (record {
        adjusted_time = if set_time then t else 0;
        conflict_res_mode = m;
        ret = success;
      })
unfolding and_then
decode-encode true t m h =
    ap decode_meta (encode_meta-fields true t m)
    ∙ decode-fields (fields true t m) (omega (arith, length-be_bytes 8 t), (omega arith, tt))
    ∙ ap (λ o. and_then o (read_fields (mode_field m ∷ []))) (read-time t no_meta h)
    ∙ ap (λ o. and_then o (read_fields [])) (read-mode m (record no_meta { adjusted_time = t }))
decode-encode false t m h =
    ap decode_meta (encode_meta-fields false t m)
    ∙ decode-fields (fields false t m) (omega arith, tt)
    ∙ ap (λ o. and_then o (read_fields [])) (read-mode m no_meta)

-- A field for the adjusted time of more than 8 bytes, or one for the mode of more than one, is copied
-- past the end of the member, if it is the first and all of it is there.
pub decode-overrun :
    (f : Field) (fs : List Field)
    → Fit (f ∷ fs)
    → ((f.type ≡ cmd_meta_adjusted_time) × (8 < length f.payload))
      ⊎ ((f.type ≡ cmd_meta_conflict_res_mode) × (1 < length f.payload))
    → decode_meta (version_one ∷ write_fields (f ∷ fs)) ≡ overrun
unfolding and_then read_field
decode-overrun f fs fit h =
    decode-fields (f ∷ fs) fit ∙ ap (λ o. and_then o (read_fields fs)) {y = overrun} (ground arith)
