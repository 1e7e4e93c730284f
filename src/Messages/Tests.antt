-- ===== src/Messages/Tests.antt =====
-- internal/server/messages.go: uploads that are accepted and refused.
use kanedias.Base.{
  ℕ, ◌≡◌, refl, false, List, [], ◌∷◌, none, some, ok, err, String, is_blank, if◌then◌else◌, ◌==◌,
}
use kanedias.Attachments.{
  detect_mime_type, is_webp, normalize_mime_type, new_image, validate, validate_images,
}
use kanedias.Messages.{
  Part, Parts, finished, broken, next, MessageRequest, decode_message_request, max_bytes_error,
  invalid_message_upload, image_limits_exceeded, classify_multipart_read_error, read_part,
  read_message, read_image, finish, handle_message, image_input_unsupported,
}
use kanedias.Messages.Uploads.{IsUpload, decode_message_request-IsUpload}

-- Bytes as text, and the type of what starts like a PNG.
abbrev text : List ℕ → String
text [] = ""
text (b ∷ bytes) = "hello"

abbrev sniff : List ℕ → String
sniff [] = "text/plain"
sniff (b ∷ bytes) = if b == 137 then "image/png" else "text/plain"

abbrev message_part : List ℕ → Part
message_part bytes = record {
  form_name = "message";
  file_name = "";
  content = bytes;
  read_error = none;
}

abbrev image_part : Part
image_part = record {
  form_name = "image";
  file_name = "a.png";
  content = 137 ∷ 80 ∷ [];
  read_error = none;
}

abbrev upload : Parts
upload = next image_part (next (message_part []) (finished none))

abbrev request : MessageRequest
request = record {
  message = "Please inspect the attached image(s).";
  images = record { mime_type = "image/png"; bytes = 137 ∷ 80 ∷ [] } ∷ [];
}

decoded : decode_message_request text sniff 100 (some upload) ≡ ok request
unfolding decode_message_request read_part read_message read_image finish new_image detect_mime_type
    is_webp normalize_mime_type validate validate_images is_blank
decoded = refl

decode_message_request-IsUpload_example : IsUpload text sniff upload request
decode_message_request-IsUpload_example =
    decode_message_request-IsUpload text sniff 100 upload request decoded

twice_test :
    decode_message_request text sniff 9
      (some (next (message_part []) (next (message_part []) (finished none))))
    ≡ err invalid_message_upload
unfolding decode_message_request read_part read_message finish
twice_test = refl

too_long_test :
    decode_message_request text sniff 9 (some (next (message_part []) (broken max_bytes_error)))
    ≡ err image_limits_exceeded
unfolding decode_message_request read_part read_message classify_multipart_read_error
too_long_test = refl

response_test : handle_message (λ r. image_input_unsupported) (ok request) ≡ (
  record {
    code = 409;
    accepted = false;
    error = "The selected model does not support image input.";
  },
  request ∷ [],
)
unfolding handle_message
response_test = refl
