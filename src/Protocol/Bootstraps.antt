-- ===== src/Protocol/Bootstraps.antt =====
-- internal/supervisor/process/protocol.go: decoding gives back what was written, and a reader of more
-- than a record is refused.
use kanedias.Base.{
  take, ltb-false, take-all, take-short, ℕ, suc, ◌≤◌, ◌≡◌, inl, inr, refl, sym, ap, ◌∙◌, Bool, List,
  [], All, All-map, Option, none, some, arith, Result, ok, err, bind_ok, fail_if_ok, String, length,
  ltb, Option-cases,
}
use mathlib.Core.Path.{subst}
use kanedias.Contract.{Error}
use kanedias.Protocol.{
  max_record_bytes, MessageError, Bootstrap, ChildMessage, validate_message, validate_bootstrap,
}
use kanedias.Protocol.Wire.{
  Reader, Codec, end_of_input, read_limited, strict_decode, decode_child_message, decode_bootstrap,
  encode_bootstrap, wrap_invalid, wrap_marshal, written, NextValue, another_value, next_failed,
  expect_end, record_too_large, wrap_read, wrap_json, wrap_valid, too_large,
}
use kanedias.Protocol.Reports.{Step, run, start, run-IsTranscript}

-- encoding/json reads back what it has written, all of it.
abbrev pub RoundTrips : {Byte A : Type 0} → Codec Byte A → Type 0
RoundTrips {Byte = Byte} {A = A} codec =
    (x : A) (bytes : List Byte)
    → codec.marshal x ≡ ok bytes
    → (codec.decode bytes ≡ ok (x, [])) × (codec.decode_next [] ≡ end_of_input)

-- A reader that yields some bytes and then ends.
abbrev pub reader_of : {Byte : Type 0} → List Byte → Reader Byte
reader_of bytes = record { bytes = bytes; failure = none }

module _ {Byte : Type 0} where
  module _ {A V : Type 0} (codec : Codec Byte A) (law : RoundTrips codec) where
    strict_decode-marshal :
        (x : A) (bytes : List Byte)
        → codec.marshal x ≡ ok bytes
        → length bytes ≤ max_record_bytes
        → strict_decode {V = V} codec (reader_of bytes) ≡ ok x
    unfolding strict_decode read_limited
    strict_decode-marshal x bytes encoded short =
        rw
          (
            take-all (suc max_record_bytes) bytes (omega (arith, short)),
            (law x bytes encoded).0,
            (law x bytes encoded).1,
          )
          (ground (arith, short))

  -- Reading up to one byte more than the limit shows that a text is within the limit.
  read_limited_ok :
      (n : ℕ) (reader : Reader Byte) (data_read : List Byte)
      → read_limited (suc n) reader ≡ ok data_read
      → length data_read ≤ n
      → (length reader.bytes ≤ n) × ((reader.failure ≡ none) × (data_read ≡ reader.bytes))
  unfolding read_limited
  read_limited_ok n reader data_read h short = elim (Option-cases reader.failure) [
    | inl whole ↦
        let taken : data_read ≡ take (suc n) reader.bytes = ground (arith, h, whole) in
        let fits = take-short n reader.bytes (subst (λ d. length d ≤ n) taken short) in
        (fits, (whole, taken ∙ take-all (suc n) reader.bytes (omega (arith, fits))))
    | inr (e, failed) ↦
        let taken : data_read ≡ take (suc n) reader.bytes = ground (arith, h, failed) in
        let fits = take-short n reader.bytes (subst (λ d. length d ≤ n) taken short) in
        absurd (ground (arith, h, failed, fits))
  ]

  module _ {A : Type 0} (codec : Codec Byte A) where
    -- What a reader has to yield for a value: its bytes in a record, without an error.
    abbrev pub Yields : Reader Byte → A → Type 0
    Yields reader x =
        (length reader.bytes ≤ max_record_bytes)
        × ((reader.failure ≡ none)
            × ((rest : List Byte) × ((codec.decode reader.bytes ≡ ok (x, rest))
                  × (codec.decode_next rest ≡ end_of_input))))

  module _ {A V : Type 0} (codec : Codec Byte A) where
    wrap_read_ok :
        {B : Type 0} (r : Result String B) (b : B) → wrap_read {V = V} codec r ≡ ok b → r ≡ ok b
    wrap_read_ok (ok c) b h = cc
    wrap_read_ok (err e) b h = cc

    wrap_json_ok :
        {B : Type 0} (r : Result String B) (b : B) → wrap_json {V = V} codec r ≡ ok b → r ≡ ok b
    wrap_json_ok (ok c) b h = cc
    wrap_json_ok (err e) b h = cc

    expect_end_ok :
        (n : NextValue) (value x : A)
        → expect_end {V = V} codec n value ≡ ok x
        → (n ≡ end_of_input) × (value ≡ x)
    expect_end_ok end_of_input value x h = (refl, cc)
    expect_end_ok another_value value x h = cc
    expect_end_ok (next_failed e) value x h = cc

    strict_decode_ok :
        (reader : Reader Byte) (x : A)
        → strict_decode {V = V} codec reader ≡ ok x
        → Yields codec reader x
    unfolding strict_decode
    strict_decode_ok reader x h =
        let first = bind_ok (wrap_read codec (read_limited (suc max_record_bytes) reader)) _ x h in
        let second =
          fail_if_ok (ltb max_record_bytes (length first.0)) record_too_large _ x first.1.1 in
        let third = bind_ok (wrap_json codec (codec.decode first.0)) _ x second.1 in
        let last = expect_end_ok (codec.decode_next third.0.1) third.0.0 x third.1.1 in
        let whole =
          read_limited_ok max_record_bytes reader first.0 (wrap_read_ok _ first.0 first.1.0)
            (ltb-false _ _ second.0) in
        (
          whole.0,
          (
            whole.1.0,
            (
              third.0.1,
              (
                ap codec.decode (sym whole.1.1)
                    ∙ wrap_json_ok (codec.decode first.0) third.0 third.1.0
                    ∙ ap (λ v. ok (v, third.0.1)) last.1,
                last.0,
              ),
            ),
          ),
        )

  module _ {A V : Type 0} (codec : Codec Byte A) where
    wrap_valid_ok :
        (r : Result V (Unit {0})) (value x : A)
        → wrap_valid codec r value ≡ ok x
        → (r ≡ ok tt) × (value ≡ x)
    wrap_valid_ok (ok u) value x h = (refl, cc)
    wrap_valid_ok (err e) value x h = cc

    wrap_invalid_ok :
        (r : Result V (Unit {0})) (u : Unit {0}) → wrap_invalid codec r ≡ ok u → r ≡ ok tt
    wrap_invalid_ok (ok u) v h = refl
    wrap_invalid_ok (err e) v h = cc

    wrap_marshal_ok :
        (r : Result String (List Byte)) (bytes : List Byte)
        → wrap_marshal {V = V} codec r ≡ ok bytes
        → r ≡ ok bytes
    wrap_marshal_ok (ok data_written) bytes h = cc
    wrap_marshal_ok (err e) bytes h = cc

    written_ok :
        (failure : Option String) (sent bytes : List Byte)
        → written {V = V} failure sent ≡ ok bytes
        → sent ≡ bytes
    written_ok none sent bytes h = cc
    written_ok (some e) sent bytes h = cc

  module _ (is_clean : String → Bool) where
    -- A message is decoded only from a reader that yields at most a record of bytes and no error, of
    -- which it is the only value, and only if it is valid.
    pub decode_child_message_ok :
        (codec : Codec Byte ChildMessage) (reader : Reader Byte) (m : ChildMessage)
        → decode_child_message is_clean codec reader ≡ ok m
        → Yields codec reader m × (validate_message is_clean m ≡ ok tt)
    unfolding decode_child_message
    decode_child_message_ok codec reader m h =
        let first = bind_ok (strict_decode codec reader) _ m h in
        let valid = wrap_valid_ok codec (validate_message is_clean first.0) first.0 m first.1.1 in
        (
          subst (Yields codec reader) valid.1 (strict_decode_ok codec reader first.0 first.1.0),
          ap (validate_message is_clean) (sym valid.1) ∙ valid.0,
        )

    -- Whatever a reporter has written, in whatever order its calls ran, is decoded to the same
    -- message, if the codec reads back what it writes.
    pub decode_child_message-run :
        (codec : Codec Byte ChildMessage)
        → RoundTrips codec
        → (session_id : String) (ts : List Step)
        → All
            (λ m.
              (bytes : List Byte) × ((codec.marshal m ≡ ok bytes)
                × (decode_child_message is_clean codec (reader_of bytes) ≡ ok m)))
            (run is_clean codec ts (start is_clean codec session_id)).reporter.records
    unfolding decode_child_message
    decode_child_message-run codec law session_id ts =
        All-map
          (λ m sound. (
            sound.1.0,
            (
              sound.1.1.0,
              rw
                  (
                    strict_decode-marshal {V = MessageError} codec law m sound.1.0 sound.1.1.0
                        (omega (arith, sound.1.1.1)),
                    sound.0,
                  )
                  refl,
            ),
          ))
          _ (run-IsTranscript is_clean codec session_id ts).1

    -- A bootstrap that is written is at most a record long and is decoded to the same bootstrap, if
    -- the codec reads back what it writes.
    pub encode_bootstrap-decode_bootstrap :
        (codec : Codec Byte Bootstrap)
        → RoundTrips codec
        → (failure : Option String) (bootstrap : Bootstrap) (bytes : List Byte)
        → encode_bootstrap is_clean codec failure bootstrap ≡ ok bytes
        → (length bytes ≤ max_record_bytes)
          × (decode_bootstrap is_clean codec (reader_of bytes) ≡ ok bootstrap)
    unfolding decode_bootstrap encode_bootstrap
    encode_bootstrap-decode_bootstrap codec law failure bootstrap bytes h =
        let valid =
          bind_ok (wrap_invalid codec (validate_bootstrap is_clean bootstrap)) _ bytes h in
        let encoded = bind_ok (wrap_marshal codec (codec.marshal bootstrap)) _ bytes valid.1.1 in
        let fits =
          fail_if_ok (ltb max_record_bytes (length encoded.0)) too_large _ bytes encoded.1.1 in
        let sent = written_ok codec failure encoded.0 bytes fits.1 in
        let marshalled =
          wrap_marshal_ok {V = Error} codec (codec.marshal bootstrap) encoded.0 encoded.1.0
          ∙ ap ok sent in
        let short = subst (λ b. length b ≤ max_record_bytes) sent (ltb-false _ _ fits.0) in
        (
          short,
          rw
              (
                strict_decode-marshal {V = Error} codec law bootstrap bytes marshalled short,
                wrap_invalid_ok codec (validate_bootstrap is_clean bootstrap) _ valid.1.0,
              )
              refl,
        )
