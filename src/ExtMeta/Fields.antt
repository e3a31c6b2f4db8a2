-- ===== src/ExtMeta/Fields.antt =====
-- `decodeMeta` of src/ext_meta_parser.cc reads a list of fields in order, and ends on any bytes.
use ep_engine.Base.{
  ℕ, zero, suc, ◌/◌, ◌%◌, ◌<◌, ◌≡◌, ◌≢◌, ◌⊎◌, refl, ◌∙◌, ap, false, List, [], ◌∷◌, ◌++◌, arith, ltb,
  if◌then◌else◌, length, length-append, length-drop, take, drop, be_bytes, be_value, be_from,
  take_of_append, drop_of_append, Bool-cases, inl, inr,
}
use ep_engine.ExtMeta.{
  version_one, Status, success, einval, Parsed, Outcome, parsed, overrun, out_of_fuel, read_field,
  and_then, decode_loop, no_meta, decode_meta,
}

-- A field of the extended meta data.
pub record Field : Type 0 where
  pub type : ℕ
  pub payload : List ℕ

-- | Type (1B) | Length (2B) | Field |
abbrev pub write_fields : List Field → List ℕ
write_fields [] = []
write_fields (f ∷ fs) = f.type ∷ be_bytes 2 (length f.payload) ++ f.payload ++ write_fields fs

abbrev pub Fit : List Field → Type 0
Fit [] = Unit {0}
Fit (f ∷ fs) = (length f.payload < 65536) × Fit fs

-- The fields read one after another, up to the first of an unknown type.
abbrev pub read_fields : List Field → Parsed → Outcome
read_fields [] p = parsed p
read_fields (f ∷ fs) p = and_then (read_field f.type f.payload p) (read_fields fs)

size_of_bytes : (n : ℕ) → n < 65536 → be_value ((n / 256 % 256) ∷ (n % 256) ∷ []) ≡ n
unfolding be_value be_from
size_of_bytes n h = omega arith

-- One round of the loop on a whole field.
decode_loop-field :
    (fuel : ℕ) (f : Field) (rest : List ℕ) (p : Parsed)
    → length f.payload < 65536
    → decode_loop (suc fuel) (f.type ∷ be_bytes 2 (length f.payload) ++ f.payload ++ rest) p
      ≡ and_then (read_field f.type f.payload p) (decode_loop fuel rest)
unfolding decode_loop be_bytes
decode_loop-field fuel f rest p h =
    ap
      (λ n.
        if ltb (length (f.payload ++ rest)) n
        then parsed (record p { ret = einval })
        else and_then (read_field f.type (take n (f.payload ++ rest)) p)
            (decode_loop fuel (drop n (f.payload ++ rest))))
      (size_of_bytes (length f.payload) h)
    ∙ ap
        (λ b.
          if b
          then parsed (record p { ret = einval })
          else and_then (read_field f.type (take (length f.payload) (f.payload ++ rest)) p)
              (decode_loop fuel (drop (length f.payload) (f.payload ++ rest))))
        fits
    ∙ ap
        (λ l.
          and_then (read_field f.type l p)
            (decode_loop fuel (drop (length f.payload) (f.payload ++ rest))))
        (take_of_append f.payload rest)
    ∙ ap (λ l. and_then (read_field f.type f.payload p) (decode_loop fuel l))
        (drop_of_append f.payload rest)
  where
    fits : ltb (length (f.payload ++ rest)) (length f.payload) ≡ false
    fits = ground (arith, length-append f.payload rest)

ret_cases : (p : Parsed) → (p.ret ≡ success) ⊎ (p.ret ≡ einval)
ret_cases p = go p.ret
  where
    go : (r : Status) → (r ≡ success) ⊎ (r ≡ einval)
    go success = inl refl
    go einval = inr refl

and_then-cong :
    (o : Outcome) (f g : Parsed → Outcome)
    → ((q : Parsed) → f q ≡ g q)
    → and_then o f ≡ and_then o g
unfolding and_then
and_then-cong overrun f g h = refl
and_then-cong out_of_fuel f g h = refl
and_then-cong (parsed p) f g h = elim (ret_cases p) [ inl e ↦ rw e (h p) | inr e ↦ rw e refl ]

decode_loop-fields :
    (fs : List Field) (fuel : ℕ) (p : Parsed)
    → Fit fs
    → length (write_fields fs) < fuel
    → decode_loop fuel (write_fields fs) p ≡ read_fields fs p
unfolding decode_loop
decode_loop-fields fs zero p f h = elim h [ ]
decode_loop-fields [] (suc fuel) p f h = refl
decode_loop-fields (x ∷ fs) (suc fuel) p f h =
    decode_loop-field fuel x (write_fields fs) p f.0
    ∙ and_then-cong (read_field x.type x.payload p) (decode_loop fuel (write_fields fs))
        (read_fields fs)
        (λ q. decode_loop-fields fs fuel q f.1 (
          omega (
            arith,
            length-append (be_bytes 2 (length x.payload) ++ x.payload) (write_fields fs),
            length-append (be_bytes 2 (length x.payload)) x.payload,
          )))

-- The extended meta data that holds fields of fewer than 2 ^ 16 bytes each is read field by field, in
-- their order.
pub decode-fields :
    (fs : List Field)
    → Fit fs
    → decode_meta (version_one ∷ write_fields fs) ≡ read_fields fs no_meta
unfolding decode_meta
decode-fields fs f = decode_loop-fields fs (suc (length (write_fields fs))) no_meta f (omega arith)

read_field-ends :
    (type : ℕ) (payload : List ℕ) (p : Parsed) → read_field type payload p ≢ out_of_fuel
unfolding read_field
read_field-ends type payload p e = ground arith

and_then-ends :
    (o : Outcome) (f : Parsed → Outcome)
    → o ≢ out_of_fuel
    → ((q : Parsed) → f q ≢ out_of_fuel)
    → and_then o f ≢ out_of_fuel
unfolding and_then
and_then-ends overrun f a h = a
and_then-ends out_of_fuel f a h = a
and_then-ends (parsed p) f a h = elim (ret_cases p) [
  | inl e ↦ rw e (h p)
  | inr e ↦ rw e (λ w. a (ground arith))
]

decode_loop-ends :
    (fuel : ℕ) (bytes : List ℕ) (p : Parsed)
    → length bytes < fuel
    → decode_loop fuel bytes p ≢ out_of_fuel
unfolding decode_loop
decode_loop-ends zero bytes p h = elim h [ ]
decode_loop-ends (suc fuel) [] p h = λ e. ground arith
decode_loop-ends (suc fuel) (t ∷ []) p h = λ e. ground arith
decode_loop-ends (suc fuel) (t ∷ a ∷ []) p h = λ e. ground arith
decode_loop-ends (suc fuel) (t ∷ a ∷ b ∷ rest) p h =
    elim (Bool-cases (ltb (length rest) (be_value (a ∷ b ∷ [])))) [
      | inl e ↦ λ w. ground arith
      | inr e ↦ rw e (
          and_then-ends (read_field t (take (be_value (a ∷ b ∷ [])) rest) p) _
            (read_field-ends t (take (be_value (a ∷ b ∷ [])) rest) p)
            (λ q.
              decode_loop-ends fuel (drop (be_value (a ∷ b ∷ [])) rest) q
                (omega (arith, length-drop (be_value (a ∷ b ∷ [])) rest))))
    ]

-- Reading ends on every sequence of bytes.
decode_meta-ends : (bytes : List ℕ) → decode_meta bytes ≢ out_of_fuel
unfolding decode_meta
decode_meta-ends [] e = ground arith
decode_meta-ends (v ∷ bytes) e =
    ground (arith, decode_loop-ends (suc (length bytes)) bytes no_meta (omega arith))
