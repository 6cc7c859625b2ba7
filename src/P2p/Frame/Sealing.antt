-- ===== src/P2p/Frame/Sealing.antt =====
-- app/src/app_radio_p2p.c: what twr_open accepts is exactly what twr_seal makes.
use sticker_firmware.Base.{
  ℕ, ◌+◌, ◌-◌, ◌≤◌, ◌≡◌, ◌↔◌, refl, ap, ◌∙◌, arith, false, List, [], ◌++◌, append_assoc, ltb,
  length, take, drop, IsBytes, ok, Result, done, err, Bool-cases, inl, inr, length-append,
  length-take, length-drop,
}
use mathlib.Core.Path.{subst}
use sticker_firmware.Ccm.{encrypt_and_tag}
use sticker_firmware.Ccm.Auth.{auth_decrypt_iff, length-encrypt_and_tag}
use sticker_firmware.P2p.Frame.{
  Hdr, hdr_put, hdr_get, nonce, seal, unseal, unseal_with, open_frame, seal_result, open_result,
  frame_max, payload_max,
}
use sticker_firmware.P2p.Frame.Header.{
  IsHdr, hdr_get-append, hdr_put-hdr_get, open_result_parts, seal_result_parts, three_pieces,
  length-hdr_put, pieces-append,
}

module _ (encrypt_block : List ℕ → List ℕ → List ℕ) (key : List ℕ) where
  open_frame_header :
      (frame : List ℕ) (h' h : Hdr) (pt : List ℕ)
      → open_frame encrypt_block key frame payload_max h' ≡ done (h, pt)
      → h' ≡ h
  unfolding open_frame
  open_frame_header frame h' h pt u = elim (Bool-cases (ltb payload_max (length frame - 14 - 8))) [
    | inl over ↦ absurd (cc)
    | inr fits ↦ (open_result_parts h' h _ pt (rw fits at u)).0
  ]

  unseal_parts :
      (frame : List ℕ) (r : Result Hdr) (h : Hdr) (pt : List ℕ)
      → unseal_with encrypt_block key frame payload_max r ≡ done (h, pt)
      → (r ≡ done h) × (open_frame encrypt_block key frame payload_max h ≡ done (h, pt))
  unfolding unseal_with
  unseal_parts frame (err n) h pt u = absurd (cc)
  unseal_parts frame (done h') h pt u =
      let same = open_frame_header frame h' h pt u in
      (
        ap done same,
        subst (λ g. open_frame encrypt_block key frame payload_max g ≡ done (h, pt)) same u,
      )

  pub unseal-hdr_get :
      (frame : List ℕ) (h : Hdr) (pt : List ℕ)
      → unseal encrypt_block key frame payload_max ≡ done (h, pt)
      → hdr_get frame ≡ done h
  unfolding unseal
  unseal-hdr_get frame h pt u = (unseal_parts frame (hdr_get frame) h pt u).0

module _ (encrypt_block : List ℕ → List ℕ → List ℕ) (key : List ℕ)
    (block_size : (b : List ℕ) → length (encrypt_block key b) ≡ 16) where
  open_frame_iff :
      (h : Hdr) (pt frame : List ℕ)
      → hdr_put h ≡ take 14 frame
      → 22 ≤ length frame
      → length frame ≤ 96
      → (open_frame encrypt_block key frame payload_max h ≡ done (h, pt)) ↔ (
          encrypt_and_tag encrypt_block key (nonce h.src h.counter) (hdr_put h) pt 8 [] []
          ≡ (ok, take (length frame - 14 - 8) (drop 14 frame), drop (length frame - 8) frame))
  unfolding open_frame open_result
  open_frame_iff h pt frame head low high =
      let size : length (drop (length frame - 8) frame) ≡ 8 =
        omega (arith, length-drop (length frame - 8) frame) in
      let fits : ltb payload_max (length frame - 14 - 8) ≡ false = ground arith in
      let i = rw size at (
        auth_decrypt_iff encrypt_block key block_size (nonce h.src h.counter) (take 14 frame)
          (take (length frame - 14 - 8) (drop 14 frame)) (drop (length frame - 8) frame) [] pt []
          []) in
      (
        λ u. rw head (i.0 (open_result_parts h h _ pt (rw fits at u)).1),
        λ c. rw (fits, i.1 (rw head at c)) refl,
      )

  seal_of_unseal :
      (h : Hdr) (pt frame : List ℕ)
      → IsBytes frame
      → unseal encrypt_block key frame payload_max ≡ done (h, pt)
      → seal encrypt_block key h pt frame_max ≡ done frame
  unfolding unseal seal seal_result
  seal_of_unseal h pt frame bytes u =
      let (header, opened) = unseal_parts encrypt_block key frame (hdr_get frame) h pt u in
      let (head, low, high) = hdr_put-hdr_get frame h bytes header in
      let sealed = (open_frame_iff h pt frame head low high).0 opened in
      let size = (length-encrypt_and_tag encrypt_block key block_size _ _ pt _ _ 8 sealed).0 in
      let fits : ltb frame_max (14 + length pt + 8) ≡ false =
        ground (
          arith,
          size,
          length-take (length frame - 14 - 8) (drop 14 frame),
          length-drop 14 frame,
        ) in
      rw (fits, sealed, head) (ap done (three_pieces frame low))

  unseal-append :
      (h : Hdr) (pt ct tag : List ℕ)
      → IsHdr h
      → length pt ≤ payload_max
      → encrypt_and_tag encrypt_block key (nonce h.src h.counter) (hdr_put h) pt 8 [] []
        ≡ (ok, ct, tag)
      → unseal encrypt_block key (hdr_put h ++ (ct ++ tag)) payload_max ≡ done (h, pt)
  unfolding unseal unseal_with
  unseal-append h pt ct tag v fits e =
      let (same, eight) = length-encrypt_and_tag encrypt_block key block_size _ _ pt ct tag 8 e in
      let (head, body, tail) = pieces-append h ct tag eight in
      let size = length-append (hdr_put h) (ct ++ tag) in
      rw
        (hdr_get-append h (ct ++ tag) v (omega (arith, length-append ct tag))
          (omega (arith, length-append ct tag)))
        ((open_frame_iff h pt (hdr_put h ++ (ct ++ tag)) head
            (omega (arith, size, length-append ct tag, length-hdr_put h))
            (omega (arith, size, length-append ct tag, length-hdr_put h))).1
          (rw (body, tail) e))

  unseal_of_seal :
      (h : Hdr) (pt frame : List ℕ)
      → IsHdr h
      → seal encrypt_block key h pt frame_max ≡ done frame
      → unseal encrypt_block key frame payload_max ≡ done (h, pt)
  unfolding seal
  unseal_of_seal h pt frame v s = elim (Bool-cases (ltb frame_max (14 + length pt + 8))) [
    | inl over ↦ absurd (ground (arith, over))
    | inr fits ↦
        let r = encrypt_and_tag encrypt_block key (nonce h.src h.counter) (hdr_put h) pt 8 [] [] in
        let (enc, whole) = seal_result_parts (hdr_put h) r frame (rw fits at s) in
        rw (whole ∙ append_assoc (hdr_put h) r.1 r.2)
          (unseal-append h pt r.1 r.2 v (ground arith) enc)
  ]

  -- For a header within its widths and a frame of bytes, twr_open gives the header and the
  -- plaintext exactly when twr_seal makes the frame of them.
  pub unseal_iff :
      (h : Hdr) (pt frame : List ℕ)
      → IsHdr h
      → IsBytes frame
      → (unseal encrypt_block key frame payload_max ≡ done (h, pt))
        ↔ (seal encrypt_block key h pt frame_max ≡ done frame)
  unseal_iff h pt frame v bytes = (seal_of_unseal h pt frame bytes, unseal_of_seal h pt frame v)
