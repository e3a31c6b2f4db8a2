-- ===== src/ExtMeta.antt =====
-- src/ext_meta_parser.h and src/ext_meta_parser.cc: the extended meta data of a mutation, read from
-- and written to bytes.
pub mod Fields
pub mod RoundTrip
mod Tests
use ep_engine.Base.{
  ℕ, zero, suc, ◌+◌, Bool, true, false, List, [], ◌∷◌, ◌++◌, ltb, ◌==◌, if◌then◌else◌, length, take,
  drop, le_bytes, be_bytes, be_value,
}

-- `META_EXT_VERSION_ONE`, and the types of the fields.
abbrev pub version_one : ℕ
version_one = 1

abbrev pub cmd_meta_adjusted_time : ℕ
cmd_meta_adjusted_time = 1

abbrev pub cmd_meta_conflict_res_mode : ℕ
cmd_meta_conflict_res_mode = 2

-- `ENGINE_SUCCESS` and `ENGINE_EINVAL`
pub data Status : Type 0 where
  success einval : Status

-- The fields of `ExtendedMetaData` that the getters read; the time as its 64 bits.
pub record Parsed : Type 0 where
  pub adjusted_time : ℕ
  pub conflict_res_mode : ℕ
  pub ret : Status

-- `overrun` stands for a `memcpy` past the end of a member, which is undefined.
pub data Outcome : Type 0 where
  parsed : Parsed → Outcome
  overrun : Outcome
  out_of_fuel : Outcome

-- What `memcpy` leaves in a member whose bytes are `memory`.
unfoldable pub overlay : List ℕ → List ℕ → List ℕ
overlay bytes memory = bytes ++ drop (length bytes) memory

-- The `switch` on the type of a field.
unfoldable pub read_field : ℕ → List ℕ → Parsed → Outcome
unfolding overlay
read_field type payload p =
    if type == cmd_meta_adjusted_time
    then (if ltb 8 (length payload)
        then overrun
        else parsed
            (record p { adjusted_time = be_value (overlay payload (le_bytes 8 p.adjusted_time)) }))
    else (if type == cmd_meta_conflict_res_mode
        then (if ltb 1 (length payload)
            then overrun
            else parsed (record p {
              conflict_res_mode = be_value (overlay payload (p.conflict_res_mode ∷ []));
            }))
        else parsed (record p { ret = einval }))

-- The rest of the loop, after a field: it ends when the status is ENGINE_EINVAL.
unfoldable pub and_then : Outcome → (Parsed → Outcome) → Outcome
and_then overrun next = overrun
and_then out_of_fuel next = out_of_fuel
and_then (parsed p) next = elim p.ret [ einval ↦ parsed p | success ↦ next p ]

-- The loop of `decodeMeta` on the bytes that are left.
unfoldable pub decode_loop : ℕ → List ℕ → Parsed → Outcome
unfolding read_field and_then
decode_loop zero bytes p = out_of_fuel
decode_loop (suc fuel) [] p = parsed p
decode_loop (suc fuel) (type ∷ hi ∷ lo ∷ rest) p =
    let size = be_value (hi ∷ lo ∷ []) in
    if ltb (length rest) size
    then parsed (record p { ret = einval })
    else and_then (read_field type (take size rest) p) (decode_loop fuel (drop size rest))
decode_loop (suc fuel) (type ∷ hi ∷ []) p = parsed (record p { ret = einval })
decode_loop (suc fuel) (type ∷ []) p = parsed (record p { ret = einval })

abbrev pub no_meta : Parsed
no_meta = record { adjusted_time = 0; conflict_res_mode = 0; ret = success }

-- The constructor that reads: `decodeMeta` on the bytes of the message, fewer than 2 ^ 16.
unfoldable pub decode_meta : List ℕ → Outcome
decode_meta [] = parsed (record no_meta { ret = einval })
decode_meta (version ∷ bytes) =
    if version == version_one
    then decode_loop (suc (length bytes)) bytes no_meta
    else parsed (record no_meta { ret = einval })

-- `encodeMeta`; the flag is `adjustedTimeSet`.
unfoldable pub encode_meta : Bool → ℕ → ℕ → List ℕ
encode_meta set_time adjusted_time conflict_res_mode =
    version_one
      ∷ (if set_time then cmd_meta_adjusted_time ∷ be_bytes 2 8 ++ be_bytes 8 adjusted_time else [])
    ++ cmd_meta_conflict_res_mode ∷ be_bytes 2 1
    ++ conflict_res_mode ∷ []
