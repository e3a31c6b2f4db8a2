-- ===== src/ExtMeta/Tests.antt =====
-- Runs of the extended meta data, and the theorems at concrete bytes.
use ep_engine.Base.{◌≡◌, inl, refl, true, [], ◌∷◌, arith, replicate, be_bytes, be_value}
use ep_engine.ExtMeta.{
  version_one, parsed, overrun, success, einval, no_meta, decode_loop, decode_meta, encode_meta,
}
use ep_engine.ExtMeta.Fields.{Field, write_fields, read_fields, decode-fields}
use ep_engine.ExtMeta.RoundTrip.{decode-encode, decode-overrun}

encode_run :
    encode_meta true 258 1 ≡ 1 ∷ 1 ∷ 0 ∷ 8 ∷ 0 ∷ 0 ∷ 0 ∷ 0 ∷ 0 ∷ 0 ∷ 1 ∷ 2 ∷ 2 ∷ 0 ∷ 1 ∷ 1 ∷ []
unfolding encode_meta be_bytes
encode_run = refl

-- A length that promises more bytes than there are.
short_run : decode_meta (1 ∷ 2 ∷ 0 ∷ 9 ∷ 1 ∷ []) ≡ parsed (record no_meta { ret = einval })
unfolding decode_meta decode_loop be_value
short_run = refl

decode-encode_example :
    decode_meta (encode_meta true 258 1)
    ≡ parsed (record { adjusted_time = 258; conflict_res_mode = 1; ret = success })
decode-encode_example = decode-encode true 258 1 (omega arith)

abbrev long_field : Field
long_field = record { type = 1; payload = replicate 9 7 }

abbrev mode_one : Field
mode_one = record { type = 2; payload = 1 ∷ [] }

decode-fields_example :
    decode_meta (version_one ∷ write_fields (mode_one ∷ mode_one ∷ []))
    ≡ read_fields (mode_one ∷ mode_one ∷ []) no_meta
decode-fields_example = decode-fields (mode_one ∷ mode_one ∷ []) (omega arith, (omega arith, tt))

decode-overrun_example : decode_meta (version_one ∷ write_fields (long_field ∷ [])) ≡ overrun
decode-overrun_example = decode-overrun long_field [] (omega arith, tt) (inl (refl, omega arith))
