-- ===== src/Messages/Uploads.antt =====
-- internal/server/messages.go: what an upload that is accepted holds.
use kanedias.Base.{
  ℕ, ◌≤◌, ◌≡◌, refl, ap, not, ltb, List, [], ◌∷◌, ◌++◌, append-nil, append_assoc, some, String, ok,
  length, bind_ok, fail_if_ok, not-false, arith,
}
use kanedias.Attachments.{max_message_bytes, validate}
use kanedias.Attachments.Validity.{validate-ok_iff}
use kanedias.Messages.{
  Parts, finished, broken, next, MessageRequest, Decoding, start, fail_read, finish, read_part,
  decode_parts, decode_message_request, max_message_multipart_bytes,
}
use kanedias.Messages.Steps.{
  bytes_of, named, contents, Decoded, Told-seen, final, read_part-Decoded,
}

module _ (text : List ℕ → String) (detect_content_type : List ℕ → String) where
  -- The loop ends with what is decoded of all parts.
  decode_parts-Decoded :
      (parts : Parts) (d : Decoding) (r : MessageRequest) (messages images : List (List ℕ))
      → decode_parts text detect_content_type parts d ≡ ok r
      → Decoded text detect_content_type d messages images
      → (e : Decoding) × (Decoded text detect_content_type e
            (messages ++ contents "message" parts)
            (images ++ contents "image" parts)
          × (finish e ≡ ok r))
  unfolding decode_parts contents
  decode_parts-Decoded (finished drained) d r messages images h before =
      let (u, (_, last)) = bind_ok (fail_read drained) _ r h in
      (d, (rw (append-nil messages, append-nil images) before, last))
  decode_parts-Decoded (broken e) d r messages images h before = cc
  decode_parts-Decoded (next part parts) d r messages images h before =
      let (e, (read, rest)) = bind_ok (read_part text detect_content_type part d) _ r h in
      let after = read_part-Decoded text detect_content_type part d e messages images read before in
      let (last, (all, done)) =
        decode_parts-Decoded parts e r (messages ++ named "message" part)
          (images ++ named "image" part) rest after in
      (
        last,
        (
          rw⁻¹
              (
                append_assoc messages (named "message" part) (contents "message" parts),
                append_assoc images (named "image" part) (contents "image" parts),
              )
              all,
          done,
        ),
      )

  -- An upload with one part for the message, within its limit, whose text or, if that is blank and there
  -- are images, the neutral message is sent; and with the images of all its other parts, which are valid.
  pub record IsUpload (parts : Parts) (r : MessageRequest) : Type 0 where
    pub message_content : List ℕ
    pub one_message : contents "message" parts ≡ message_content ∷ []
    pub message_is_short : length message_content ≤ max_message_bytes
    pub message_is_told : r.message ≡ final r.images (text message_content)
    pub all_images : bytes_of r.images ≡ contents "image" parts
    pub images_are_valid : validate detect_content_type r.images ≡ ok tt

  finish-IsUpload :
      (parts : Parts) (e : Decoding) (r : MessageRequest)
      → Decoded text detect_content_type e (contents "message" parts) (contents "image" parts)
      → finish e ≡ ok r
      → IsUpload parts r
  unfolding finish
  finish-IsUpload parts e r all h =
      let (seen, h1) = fail_if_ok (not e.seen_message) _ _ r h in
      let (content, (one, (short, told))) =
        Told-seen text detect_content_type e.seen_message e.request.message _
          (not-false e.seen_message seen) all.told in
      let result : record (e.request) { message = final e.request.images e.request.message } ≡ r =
        cc in
      rw⁻¹ result (record {
        message_content = content;
        one_message = one;
        message_is_short = short;
        message_is_told = ap (final e.request.images) told;
        all_images = all.same_images;
        images_are_valid =
            (validate-ok_iff detect_content_type e.request.images).1 (all.few, all.each, all.small);
      })

  -- An upload that is accepted has exactly one part for the message, of at most 64 KiB; the request has
  -- the images of its image parts in their order, which are valid together, and the text of the message,
  -- or the neutral message if the text is blank and there are images.
  pub decode_message_request-IsUpload :
      (content_length : ℕ) (parts : Parts) (r : MessageRequest)
      → decode_message_request text detect_content_type content_length (some parts) ≡ ok r
      → IsUpload parts r
  unfolding decode_message_request
  decode_message_request-IsUpload content_length parts r h =
      let (_, h1) = fail_if_ok (ltb max_message_multipart_bytes content_length) _ _ r h in
      let (e, (all, done)) = decode_parts-Decoded parts start r [] [] h1 (record {
        few = omega arith;
        each = tt;
        total = refl;
        small = omega arith;
        same_images = refl;
        told = refl;
      }) in
      finish-IsUpload parts e r all done
