-- ===== src/Attachments.antt =====
-- internal/attachments/image.go: the images of a message and their limits.
pub mod Validity
mod Tests
use kanedias.Base.{
  ℕ, ◌+◌, Bool, true, false, not, ◌&&◌, ◌||◌, ◌==◌, ltb, leb, List, [], ◌∷◌, String, Result, ok,
  err, ◌>>=◌, ◌>>◌, fail_if, if◌then◌else◌, length, str_eq, contains_str,
}

abbrev pub max_images : ℕ
max_images = 4

abbrev pub max_image_bytes : ℕ
max_image_bytes = 3145728

abbrev pub max_total_bytes : ℕ
max_total_bytes = 8388608

abbrev pub max_message_bytes : ℕ
max_message_bytes = 65536

pub data AttachmentError : Type 0 where
  empty_image unsupported_format too_many_images image_too_large images_too_large : AttachmentError

pub record Image : Type 0 where
  pub mime_type : String
  pub bytes : List ℕ

unfoldable pub normalize_mime_type : String → String
normalize_mime_type mime_type = if str_eq mime_type "image/jpg" then "image/jpeg" else mime_type

-- "RIFF", four bytes, and "WEBP".
unfoldable pub is_webp : List ℕ → Bool
is_webp (a ∷ b ∷ c ∷ d ∷ _ ∷ _ ∷ _ ∷ _ ∷ w ∷ x ∷ y ∷ z ∷ rest) =
    (a == 82 && b == 73 && c == 70 && d == 70) && (w == 87 && x == 69 && y == 66 && z == 80)
is_webp _ = false

abbrev pub image_types : List String
image_types = "image/png" ∷ "image/jpeg" ∷ "image/gif" ∷ "image/webp" ∷ []

-- `detect_content_type` stands for http.DetectContentType.
module _ (detect_content_type : List ℕ → String) where
  unfoldable pub detect_mime_type : List ℕ → Result AttachmentError String
  unfolding normalize_mime_type is_webp
  detect_mime_type bytes = do
    fail_if (length bytes == 0) empty_image
    let mime_type : String = normalize_mime_type (detect_content_type bytes)
    if is_webp bytes
        then ok "image/webp"
        else (if contains_str image_types mime_type then ok mime_type else err unsupported_format)

  -- The loop of `Validate`, with the bytes of the images before.
  unfoldable pub validate_images : ℕ → List Image → Result AttachmentError (Unit {0})
  unfolding normalize_mime_type
  validate_images total [] = ok tt
  validate_images total (image ∷ images) = do
    fail_if (length image.bytes == 0) empty_image
    fail_if (ltb max_image_bytes (length image.bytes)) image_too_large
    fail_if (ltb max_total_bytes (total + length image.bytes)) images_too_large
    detected ← detect_mime_type image.bytes
    fail_if (not (str_eq detected (normalize_mime_type image.mime_type))) unsupported_format
    validate_images (total + length image.bytes) images

  unfoldable pub validate : List Image → Result AttachmentError (Unit {0})
  validate images = do
    fail_if (ltb max_images (length images)) too_many_images
    validate_images 0 images

  unfoldable pub new_image : List ℕ → Result AttachmentError Image
  new_image bytes = do
    mime_type ← detect_mime_type bytes
    validate (record { mime_type = mime_type; bytes = bytes } ∷ [])
    ok (record { mime_type = mime_type; bytes = bytes })
