-- ===== src/Messages.antt =====
-- internal/server/messages.go: the upload of a message with its images.
pub mod Steps
pub mod Uploads
mod Tests
use kanedias.Base.{
  ℕ, suc, ◌+◌, Bool, true, false, not, ◌&&◌, ◌||◌, ◌==◌, ltb, leb, List, [], ◌∷◌, ◌++◌, take,
  Option, none, some, String, Result, ok, err, ◌>>=◌, ◌>>◌, fail_if, if◌then◌else◌, length, str_eq,
  is_blank,
}
use kanedias.Attachments.{
  Image, AttachmentError, max_images, max_image_bytes, max_total_bytes, max_message_bytes,
  new_image,
}

abbrev pub neutral_image_message : String
neutral_image_message = "Please inspect the attached image(s)."

abbrev pub max_message_multipart_bytes : ℕ
max_message_multipart_bytes = max_total_bytes + max_message_bytes + 131072

-- The errors by the message that the client is shown; each has one status.
pub data MessageError : Type 0 where
  invalid_message_upload image_limits_exceeded directive_too_large unsupported_image : MessageError

unfoldable pub status : MessageError → ℕ
status invalid_message_upload = 400
status image_limits_exceeded = 413
status directive_too_large = 413
status unsupported_image = 415

-- An error of reading: http.MaxBytesError or another.
pub data ReadError : Type 0 where
  max_bytes_error other_error : ReadError

unfoldable pub classify_multipart_read_error : ReadError → MessageError
classify_multipart_read_error max_bytes_error = image_limits_exceeded
classify_multipart_read_error other_error = invalid_message_upload

-- A part: its field, the name of its file, its bytes, and the error that reading or closing it gives.
pub record Part : Type 0 where
  pub form_name : String
  pub file_name : String
  pub content : List ℕ
  pub read_error : Option ReadError

-- What the reader of parts gives: the end, with the error of draining the body, an error, or a part.
pub data Parts : Type 0 where
  finished : Option ReadError → Parts
  broken : ReadError → Parts
  next : Part → Parts → Parts

pub record MessageRequest : Type 0 where
  pub message : String
  pub images : List Image

-- The variables of the loop.
pub record Decoding : Type 0 where
  pub request : MessageRequest
  pub seen_message : Bool
  pub total_image_bytes : ℕ

abbrev pub start : Decoding
start = record {
  request = record { message = ""; images = [] };
  seen_message = false;
  total_image_bytes = 0;
}

abbrev pub fail_read : Option ReadError → Result MessageError (Unit {0})
fail_read none = ok tt
fail_read (some e) = err (classify_multipart_read_error e)

abbrev pub made : Result AttachmentError Image → Result MessageError Image
made (ok image) = ok image
made (err e) = err unsupported_image

-- The end of the function, after the loop.
unfoldable pub finish : Decoding → Result MessageError MessageRequest
unfolding is_blank
finish d = do
  fail_if (not d.seen_message) invalid_message_upload
  ok (record (d.request) {
    message =
        if not (length d.request.images == 0) && is_blank d.request.message
        then neutral_image_message
        else d.request.message;
  })

-- `text` makes a string of bytes, `detect_content_type` is http.DetectContentType.
module _ (text : List ℕ → String) (detect_content_type : List ℕ → String) where
  -- The case of a field "message".
  unfoldable pub read_message : Part → Decoding → Result MessageError Decoding
  read_message part d = do
    fail_if (d.seen_message || not (str_eq part.file_name "")) invalid_message_upload
    fail_read part.read_error
    let bytes : List ℕ = take (suc max_message_bytes) part.content
    fail_if (ltb max_message_bytes (length bytes)) directive_too_large
    ok (record d { seen_message = true; request = record (d.request) { message = text bytes } })

  -- The case of a field "image".
  unfoldable pub read_image : Part → Decoding → Result MessageError Decoding
  read_image part d = do
    fail_if (str_eq part.file_name "") invalid_message_upload
    fail_if (leb max_images (length d.request.images)) image_limits_exceeded
    fail_read part.read_error
    let bytes : List ℕ = take (suc max_image_bytes) part.content
    fail_if (ltb max_image_bytes (length bytes)) image_limits_exceeded
    fail_if (ltb max_total_bytes (d.total_image_bytes + length bytes)) image_limits_exceeded
    image ← made (new_image detect_content_type bytes)
    ok (record d {
      total_image_bytes = d.total_image_bytes + length bytes;
      request = record (d.request) { images = d.request.images ++ (image ∷ []) };
    })

  unfoldable pub read_part : Part → Decoding → Result MessageError Decoding
  read_part part d =
      if str_eq part.form_name "message"
      then read_message part d
      else if str_eq part.form_name "image"
      then read_image part d
      else err invalid_message_upload

  unfoldable pub decode_parts : Parts → Decoding → Result MessageError MessageRequest
  decode_parts (finished drained) d = do fail_read drained; finish d
  decode_parts (broken e) d = err (classify_multipart_read_error e)
  decode_parts (next part parts) d = do following ← read_part part d; decode_parts parts following

  -- `none` where the request is not a multipart request. A negative length means that it is not known,
  -- and is 0 here.
  abbrev pub decode_reader : Option Parts → Result MessageError MessageRequest
  decode_reader none = err invalid_message_upload
  decode_reader (some parts) = decode_parts parts start

  unfoldable pub decode_message_request : ℕ → Option Parts → Result MessageError MessageRequest
  unfolding decode_parts
  decode_message_request content_length reader = do
    fail_if (ltb max_message_multipart_bytes content_length)
        (classify_multipart_read_error max_bytes_error)
    decode_reader reader

-- What the manager answers to a message that is sent.
pub data SendResult : Type 0 where
  sent image_input_unsupported send_failed : SendResult

-- The status of the response, whether the message is accepted, and the error that is shown.
pub record MessageResponse : Type 0 where
  pub code : ℕ
  pub accepted : Bool
  pub error : String

unfoldable pub error_text : MessageError → String
error_text invalid_message_upload = "The message upload was not valid."
error_text image_limits_exceeded = "The image attachment limits were exceeded."
error_text directive_too_large = "The directive must be 64 KiB or smaller."
error_text unsupported_image = "Only PNG, JPEG, GIF, and WebP images are supported."

abbrev pub respond_sent : SendResult → MessageResponse
respond_sent sent = record { code = 202; accepted = true; error = "" }
respond_sent image_input_unsupported = record {
  code = 409;
  accepted = false;
  error = "The selected model does not support image input.";
}
respond_sent send_failed = record {
  code = 503;
  accepted = false;
  error = "The message could not be sent.";
}

-- `makeMessageHandler`: the response, and the message that is sent, if there is one.
unfoldable pub handle_message :
    (MessageRequest → SendResult)
    → Result MessageError MessageRequest
    → MessageResponse × List MessageRequest
unfolding status error_text
handle_message send (err e) =
    (record { code = status e; accepted = false; error = error_text e }, [])
handle_message send (ok request) = (respond_sent (send request), request ∷ [])
