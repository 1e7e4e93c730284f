-- ===== src/Messages/Steps.antt =====
-- internal/server/messages.go: what is decoded after each part of an upload.
use kanedias.Base.{
  ℕ, suc, ◌+◌, ◌≤◌, ◌≡◌, refl, sym, ap, ◌∙◌, Bool, true, false, not, ◌&&◌, ◌||◌, ◌==◌, ltb, leb,
  List, [], ◌∷◌, ◌++◌, map, append-nil, take, take-all, take-short, String, ok, err, if◌then◌else◌,
  length, length-append, All, All-append, str_eq, str_eq_iff, is_blank, bind_ok, fail_if_ok,
  ltb-false, leb-false, false_or, arith,
}
use kanedias.Attachments.{
  Image, max_images, max_image_bytes, max_total_bytes, max_message_bytes, new_image,
}
use kanedias.Attachments.Validity.{IsImage, total_bytes, new_image_lem}
use kanedias.Messages.{
  Part, Parts, finished, broken, next, Decoding, fail_read, made, neutral_image_message,
  read_message, read_image, read_part, invalid_message_upload,
}

abbrev pub bytes_of : List Image → List (List ℕ)
bytes_of = map (λ image. image.bytes)

-- The content of a part, if its field has a name.
abbrev pub named : String → Part → List (List ℕ)
named name part = if str_eq part.form_name name then part.content ∷ [] else []

-- The contents of the parts with a name.
unfoldable pub contents : String → Parts → List (List ℕ)
contents name (finished drained) = []
contents name (broken e) = []
contents name (next part parts) = named name part ++ contents name parts

-- The message that is sent for a text.
abbrev pub final : List Image → String → String
final images message =
    if not (length images == 0) && is_blank message then neutral_image_message else message

made_ok : (o : _) (image : Image) → made o ≡ ok image → o ≡ ok image
made_ok (ok other) image h = cc
made_ok (err e) image h = cc

total_bytes-append : (xs ys : List Image) → total_bytes (xs ++ ys) ≡ total_bytes xs + total_bytes ys
total_bytes-append [] ys = omega arith
total_bytes-append (x ∷ xs) ys = omega (arith, total_bytes-append xs ys)

bytes_of-append : (xs ys : List Image) → bytes_of (xs ++ ys) ≡ bytes_of xs ++ bytes_of ys
bytes_of-append [] ys = refl
bytes_of-append (x ∷ xs) ys = ap (λ rest. x.bytes ∷ rest) (bytes_of-append xs ys)

module _ (text : List ℕ → String) (detect_content_type : List ℕ → String) where
  -- The message is the text of the only part that was read for it, which is within the limit.
  abbrev pub Told : Bool → String → List (List ℕ) → Type 0
  Told false message messages = messages ≡ []
  Told true message messages =
      (content : List ℕ) × ((messages ≡ content ∷ [])
        × ((length content ≤ max_message_bytes) × (message ≡ text content)))

  -- What is decoded of the messages and the images of the parts that were read.
  pub record Decoded (d : Decoding) (messages images : List (List ℕ)) : Type 0 where
    pub few : length d.request.images ≤ max_images
    pub each : All (IsImage detect_content_type) d.request.images
    pub total : d.total_image_bytes ≡ total_bytes d.request.images
    pub small : total_bytes d.request.images ≤ max_total_bytes
    pub same_images : bytes_of d.request.images ≡ images
    pub told : Told d.seen_message d.request.message messages

  Told-unseen :
      (seen : Bool) (message : String) (messages : List (List ℕ))
      → seen ≡ false
      → Told seen message messages
      → messages ≡ []
  Told-unseen false message messages h told = told
  Told-unseen true message messages h told = cc

  pub Told-seen :
      (seen : Bool) (message : String) (messages : List (List ℕ))
      → seen ≡ true
      → Told seen message messages
      → Told true message messages
  Told-seen false message messages h told = cc
  Told-seen true message messages h told = told

  read_message-Decoded :
      (part : Part) (d e : Decoding) (messages images : List (List ℕ))
      → read_message text detect_content_type part d ≡ ok e
      → Decoded d messages images
      → Decoded e (messages ++ (part.content ∷ [])) (images ++ [])
  unfolding read_message
  read_message-Decoded part d e messages images h before =
      let (first, h1) = fail_if_ok (d.seen_message || not (str_eq part.file_name "")) _ _ e h in
      let (u, (_, h2)) = bind_ok (fail_read part.read_error) _ e h1 in
      let (fits, h3) =
        fail_if_ok (ltb max_message_bytes (length (take (suc max_message_bytes) part.content))) _ _
          e h2 in
      let short = take-short max_message_bytes part.content (ltb-false max_message_bytes _ fits) in
      let whole = take-all (suc max_message_bytes) part.content (omega (arith, short)) in
      let result : record d {
        seen_message = true;
        request = record (d.request) { message = text (take (suc max_message_bytes) part.content) };
      }
          ≡ e =
        cc in
      let unseen : d.seen_message ≡ false = (false_or d.seen_message _ first).0 in
      let none_before : messages ≡ [] =
        Told-unseen d.seen_message d.request.message messages unseen before.told in
      rw⁻¹ result (record {
        few = before.few;
        each = before.each;
        total = before.total;
        small = before.small;
        same_images = before.same_images ∙ sym (append-nil images);
        told = (
          part.content,
          (ap (λ ms. ms ++ (part.content ∷ [])) none_before, (short, ap text whole)),
        );
      })

  read_image-Decoded :
      (part : Part) (d e : Decoding) (messages images : List (List ℕ))
      → read_image text detect_content_type part d ≡ ok e
      → Decoded d messages images
      → Decoded e (messages ++ []) (images ++ (part.content ∷ []))
  unfolding read_image
  read_image-Decoded part d e messages images h before =
      let bytes = take (suc max_image_bytes) part.content in
      let (_, h1) = fail_if_ok (str_eq part.file_name "") _ _ e h in
      let (room, h2) = fail_if_ok (leb max_images (length d.request.images)) _ _ e h1 in
      let (u, (_, h3)) = bind_ok (fail_read part.read_error) _ e h2 in
      let (fits, h4) = fail_if_ok (ltb max_image_bytes (length bytes)) _ _ e h3 in
      let (all_fit, h5) =
        fail_if_ok (ltb max_total_bytes (d.total_image_bytes + length bytes)) _ _ e h4 in
      let (image, (built, h6)) = bind_ok (made (new_image detect_content_type bytes)) _ e h5 in
      let (same, valid) = new_image_lem detect_content_type bytes image (made_ok _ image built) in
      let short = take-short max_image_bytes part.content (ltb-false max_image_bytes _ fits) in
      let whole = take-all (suc max_image_bytes) part.content (omega (arith, short)) in
      let result : record d {
        total_image_bytes = d.total_image_bytes + length bytes;
        request = record (d.request) { images = d.request.images ++ (image ∷ []) };
      }
          ≡ e =
        cc in
      let sum : total_bytes (d.request.images ++ (image ∷ []))
          ≡ d.total_image_bytes + length bytes =
        omega
          (arith, total_bytes-append d.request.images (image ∷ []), before.total, ap length same) in
      rw⁻¹ result (record {
        few =
            omega (arith, leb-false max_images _ room, length-append d.request.images (image ∷ []));
        each =
            All-append (IsImage detect_content_type) d.request.images (image ∷ []) before.each
              (valid, tt);
        total = sym sum;
        small = omega (arith, ltb-false max_total_bytes _ all_fit, sum);
        same_images =
            bytes_of-append d.request.images (image ∷ [])
            ∙ ap (λ before. before ++ (image.bytes ∷ [])) before.same_images
            ∙ ap (λ last. images ++ (last ∷ [])) (same ∙ whole);
        told = rw (append-nil messages) before.told;
      })

  by_name :
      (part : Part) (d e : Decoding) (messages images : List (List ℕ)) (is_message is_image : Bool)
      → (is_message ≡ true → is_image ≡ false)
      → (if is_message
          then read_message text detect_content_type part d
          else if is_image
          then read_image text detect_content_type part d
          else err invalid_message_upload)
        ≡ ok e
      → Decoded d messages images
      → Decoded e
          (messages ++ (if is_message then part.content ∷ [] else []))
          (images ++ (if is_image then part.content ∷ [] else []))
  by_name part d e messages images true true one h before = absurd (ground (arith, one refl))
  by_name part d e messages images true false one h before =
      read_message-Decoded part d e messages images h before
  by_name part d e messages images false true one h before =
      read_image-Decoded part d e messages images h before
  by_name part d e messages images false false one h before = cc

  name_is_one : (name : String) → str_eq name "message" ≡ true → str_eq name "image" ≡ false
  name_is_one name h = ap (λ s. str_eq s "image") ((str_eq_iff name "message").0 h)

  pub read_part-Decoded :
      (part : Part) (d e : Decoding) (messages images : List (List ℕ))
      → read_part text detect_content_type part d ≡ ok e
      → Decoded d messages images
      → Decoded e (messages ++ named "message" part) (images ++ named "image" part)
  unfolding read_part
  read_part-Decoded part d e messages images h before =
      by_name part d e messages images (str_eq part.form_name "message")
        (str_eq part.form_name "image") (name_is_one part.form_name) h before
