-- ===== src/Protocol/Wire.antt =====
-- internal/supervisor/process/protocol.go: encoding and strict decoding. encoding/json is a parameter,
-- and so is the type of a byte: a codec has `marshal`, and `decode` for the first value of a text with
-- what follows it, and `decode_next` for the second call of Decode.
use kanedias.Base.{
  take, ℕ, suc, Bool, List, Option, none, some, Result, ok, err, ◌>>=◌, ◌>>◌, fail_if,
  if◌then◌else◌, length, ltb, leb, String,
}
use kanedias.Contract.{Error}
use kanedias.Protocol.{
  max_record_bytes, Bootstrap, ChildMessage, MessageError, validate_message, validate_bootstrap,
}

-- What a reader yields: some bytes, then the end of the input or an error.
pub record Reader (Byte : Type 0) : Type 0 where
  pub bytes : List Byte
  pub failure : Option String

pub data DecodeError (V : Type 0) : Type 0 where
  read_failed json_failed trailing_json : String → DecodeError V
  record_too_large multiple_values : DecodeError V
  invalid_record : V → DecodeError V

pub data EncodeError (V : Type 0) : Type 0 where
  not_valid : V → EncodeError V
  marshal_failed write_failed : String → EncodeError V
  too_large : EncodeError V

-- The second call of Decode, on an empty interface.
pub data NextValue : Type 0 where
  end_of_input another_value : NextValue
  next_failed : String → NextValue

pub record Codec (Byte : Type 0) (A : Type 0) : Type 0 where
  pub marshal : A → Result String (List Byte)
  pub decode : List Byte → Result String (A × List Byte)
  pub decode_next : List Byte → NextValue

module _ {Byte : Type 0} where
  -- io.ReadAll(io.LimitReader(reader, n)): an error after the limit is not met.
  unfoldable pub read_limited : ℕ → Reader Byte → Result String (List Byte)
  read_limited n reader = elim reader.failure [
    | none ↦ ok (take n reader.bytes)
    | some e ↦ if leb n (length reader.bytes) then ok (take n reader.bytes) else err e
  ]

  module _ {A V : Type 0} (codec : Codec Byte A) where
    abbrev pub wrap_read : {B : Type 0} → Result String B → Result (DecodeError V) B
    wrap_read (ok data_read) = ok data_read
    wrap_read (err e) = err (read_failed e)

    abbrev pub wrap_json : {B : Type 0} → Result String B → Result (DecodeError V) B
    wrap_json (ok value) = ok value
    wrap_json (err e) = err (json_failed e)

    -- err != io.EOF
    abbrev pub expect_end : NextValue → A → Result (DecodeError V) A
    expect_end end_of_input value = ok value
    expect_end another_value value = err multiple_values
    expect_end (next_failed e) value = err (trailing_json e)

    unfoldable pub strict_decode : Reader Byte → Result (DecodeError V) A
    unfolding read_limited
    strict_decode reader = do
      data_read ← wrap_read (read_limited (suc max_record_bytes) reader)
      fail_if (ltb max_record_bytes (length data_read)) record_too_large
      decoded ← wrap_json (codec.decode data_read)
      expect_end (codec.decode_next decoded.1) decoded.0

    abbrev pub wrap_valid : Result V (Unit {0}) → A → Result (DecodeError V) A
    wrap_valid (ok u) value = ok value
    wrap_valid (err e) value = err (invalid_record e)

    abbrev pub wrap_marshal : Result String (List Byte) → Result (EncodeError V) (List Byte)
    wrap_marshal (ok data_written) = ok data_written
    wrap_marshal (err e) = err (marshal_failed e)

    abbrev pub wrap_invalid : Result V (Unit {0}) → Result (EncodeError V) (Unit {0})
    wrap_invalid (ok u) = ok tt
    wrap_invalid (err e) = err (not_valid e)

-- if _, err := writer.Write(data); err != nil
abbrev pub written : {V B : Type 0} → Option String → B → Result (EncodeError V) B
written none data_written = ok data_written
written (some e) data_written = err (write_failed e)

module _ {Byte : Type 0} (is_clean : String → Bool) where
  unfoldable pub decode_child_message :
      Codec Byte ChildMessage → Reader Byte → Result (DecodeError MessageError) ChildMessage
  unfolding strict_decode
  decode_child_message codec reader = do
    message ← strict_decode codec reader
    wrap_valid codec (validate_message is_clean message) message

  unfoldable pub decode_bootstrap :
      Codec Byte Bootstrap → Reader Byte → Result (DecodeError Error) Bootstrap
  unfolding strict_decode
  decode_bootstrap codec reader = do
    bootstrap ← strict_decode codec reader
    wrap_valid codec (validate_bootstrap is_clean bootstrap) bootstrap

  -- The bytes that are written; `failure` is the error of the writer.
  unfoldable pub encode_bootstrap :
      Codec Byte Bootstrap → Option String → Bootstrap → Result (EncodeError Error) (List Byte)
  encode_bootstrap codec failure bootstrap = do
    wrap_invalid codec (validate_bootstrap is_clean bootstrap)
    data_written ← wrap_marshal codec (codec.marshal bootstrap)
    fail_if (ltb max_record_bytes (length data_written)) too_large
    written failure data_written
