-- ===== src/Attachments/Validity.antt =====
-- internal/attachments/image.go: which images are valid, and that images that are made are.
use kanedias.Base.{
  ℕ, ◌+◌, ◌≤◌, ◌≡◌, ◌≢◌, ◌↔◌, refl, true, not, ◌==◌, ltb, List, [], ◌∷◌, String, ok, length, All,
  str_eq, str_eq_iff, bind_ok, fail_if_ok, fail_if-ok, ap, ◌∙◌, arith,
}
use kanedias.Attachments.{
  Image, max_images, max_image_bytes, max_total_bytes, normalize_mime_type, detect_mime_type,
  validate_images, validate, new_image,
}

abbrev pub total_bytes : List Image → ℕ
total_bytes [] = 0
total_bytes (image ∷ images) = length image.bytes + total_bytes images

module _ (detect_content_type : List ℕ → String) where
  -- An image that is not empty, is within the limit, and has the type that its bytes show.
  pub record IsImage (image : Image) : Type 0 where
    pub is_not_empty : length image.bytes ≢ 0
    pub is_small : length image.bytes ≤ max_image_bytes
    pub shows_type :
        detect_mime_type detect_content_type image.bytes ≡ ok (normalize_mime_type image.mime_type)

  validate_images-ok_iff :
      (total : ℕ) (images : List Image)
      → total ≤ max_total_bytes
      → (validate_images detect_content_type total images ≡ ok tt)
        ↔ (All IsImage images × (total + total_bytes images ≤ max_total_bytes))
  unfolding validate_images
  validate_images-ok_iff total [] small = (λ h. (tt, omega (arith, small)), λ h. refl)
  validate_images-ok_iff total (image ∷ images) small = (
    λ h.
        let (some_byte, h1) = fail_if_ok (length image.bytes == 0) _ _ tt h in
        let (fits, h2) = fail_if_ok (ltb max_image_bytes (length image.bytes)) _ _ tt h1 in
        let (all_fit, h3) =
          fail_if_ok (ltb max_total_bytes (total + length image.bytes)) _ _ tt h2 in
        let (mime, (detected, h4)) =
          bind_ok (detect_mime_type detect_content_type image.bytes) _ tt h3 in
        let (same, h5) =
          fail_if_ok (not (str_eq mime (normalize_mime_type image.mime_type))) _ _ tt h4 in
        let rest =
          (validate_images-ok_iff (total + length image.bytes) images (ground (arith, all_fit))).0
            h5 in
        let is_same : str_eq mime (normalize_mime_type image.mime_type) ≡ true =
          ground (arith, same) in
        (
          (
            record {
              is_not_empty = λ e. absurd (ground (arith, some_byte, e));
              is_small = ground (arith, fits);
              shows_type =
                  detected
                  ∙ ap ok ((str_eq_iff mime (normalize_mime_type image.mime_type)).0 is_same);
            },
            rest.0,
          ),
          omega (arith, rest.1),
        ),
    λ h.
        let (image_is, rest) = h.0 in
        let rest_ok =
          (validate_images-ok_iff (total + length image.bytes) images (omega (arith, h.1))).1
            (rest, omega (arith, h.1)) in
        fail_if-ok (length image.bytes == 0) _ _ tt (ground (arith, image_is.is_not_empty)) (
          fail_if-ok (ltb max_image_bytes (length image.bytes)) _ _ tt
            (ground (arith, image_is.is_small))
            (fail_if-ok (ltb max_total_bytes (total + length image.bytes)) _ _ tt
              (ground (arith, h.1))
              (rw (image_is.shows_type) (
                fail_if-ok _ _ _ tt
                  (ground (arith, (str_eq_iff (normalize_mime_type image.mime_type) _).1 refl))
                  rest_ok)))),
  )

  -- `Validate` accepts a list exactly if it has at most 4 images, each with at least one and at most 3 MiB
  -- bytes and of the type that its bytes show, and together at most 8 MiB.
  pub validate-ok_iff :
      (images : List Image)
      → (validate detect_content_type images ≡ ok tt) ↔ (
          (length images ≤ max_images)
          × All IsImage images
          × (total_bytes images ≤ max_total_bytes))
  unfolding validate
  validate-ok_iff images =
      let each = validate_images-ok_iff 0 images (omega arith) in
      (
        λ h.
            let (few, rest) = fail_if_ok (ltb max_images (length images)) _ _ tt h in
            let (all, total) = each.0 rest in (ground (arith, few), all, omega (arith, total)),
        λ h.
            let (few, all, total) = h in
            fail_if-ok (ltb max_images (length images)) _ _ tt (ground (arith, few))
              (each.1 (all, omega (arith, total))),
      )

  -- A new image has the bytes that it is made of.
  pub new_image_lem :
      (bytes : List ℕ) (image : Image)
      → new_image detect_content_type bytes ≡ ok image
      → (image.bytes ≡ bytes) × IsImage image
  unfolding new_image
  new_image_lem bytes image h =
      let (mime, (_, h1)) = bind_ok (detect_mime_type detect_content_type bytes) _ image h in
      let (u, (valid, h2)) =
        bind_ok (validate detect_content_type (record { mime_type = mime; bytes = bytes } ∷ [])) _
          image h1 in
      let made : record { mime_type = mime; bytes = bytes } ≡ image = cc in
      let (_, all, _) =
        (validate-ok_iff (record { mime_type = mime; bytes = bytes } ∷ [])).0 valid in
      rw⁻¹ made (refl, all.0)
