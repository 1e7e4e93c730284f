-- ===== src/Attachments/Tests.antt =====
-- internal/attachments/image.go: runs on small images.
use kanedias.Base.{◌≡◌, refl, true, [], ◌∷◌, ok, err}
use kanedias.Attachments.{
  detect_mime_type, is_webp, normalize_mime_type, validate, validate_images, empty_image, new_image,
  unsupported_format,
}
use kanedias.Attachments.Validity.{total_bytes}

webp_test : is_webp (82 ∷ 73 ∷ 70 ∷ 70 ∷ 0 ∷ 0 ∷ 0 ∷ 0 ∷ 87 ∷ 69 ∷ 66 ∷ 80 ∷ []) ≡ true
unfolding is_webp
webp_test = refl

jpg_test :
    validate (λ bytes. "image/jpeg") (record { mime_type = "image/jpg"; bytes = 255 ∷ [] } ∷ [])
    ≡ ok tt
unfolding validate validate_images detect_mime_type is_webp normalize_mime_type
jpg_test = refl

empty_test : new_image (λ bytes. "image/png") [] ≡ err empty_image
unfolding new_image detect_mime_type
empty_test = refl

text_test : new_image (λ bytes. "text/plain") (65 ∷ []) ≡ err unsupported_format
unfolding new_image detect_mime_type is_webp normalize_mime_type
text_test = refl

total_test : total_bytes (record { mime_type = ""; bytes = 1 ∷ 2 ∷ [] } ∷ []) ≡ 2
total_test = refl
