-- ===== src/P2p/Frame/Header.antt =====
-- app/src/app_radio_p2p.c: the header of a frame, and the pieces of a sealed one.
use sticker_firmware.Base.{
  ℕ, zero, suc, ◌+◌, ◌-◌, ◌*◌, ◌/◌, ◌%◌, ◌^◌, ◌<◌, ◌≤◌, ◌≡◌, refl, sym, ap, ◌∙◌, arith, List, [],
  ◌∷◌, ◌++◌, append_assoc, length, get_or, take, drop, u8, put_le32, get_le32, bit_or,
  bit_or_disjoint, IsBytes, get_or-lt, Ret, ok, fail, Result, done, err, length-append, take-append,
  drop-append, drop-drop, take-append-drop,
}
use sticker_firmware.P2p.Frame.{Hdr, hdr_put, hdr_get, seal_result, open_result}

-- The fields fit their widths, and the type its five bits.
pub record IsHdr (h : Hdr) : Type 0 where
  pub type : h.type < 2 ^ 5
  pub flags : h.flags < 2 ^ 8
  pub src : h.src < 2 ^ 32
  pub dest : h.dest < 2 ^ 32
  pub counter : h.counter < 2 ^ 32

pub get-put_le32 : (v : ℕ) → v < 2 ^ 32 → get_le32 (put_le32 v) 0 ≡ v
get-put_le32 v h = omega arith

pub put-get_le32 :
    (a b c d : ℕ)
    → a < 256
    → b < 256
    → c < 256
    → d < 256
    → put_le32 (a + b * 2 ^ 8 + c * 2 ^ 16 + d * 2 ^ 24) ≡ a ∷ b ∷ c ∷ d ∷ []
put-get_le32 a b c d ha hb hc hd =
    let e0 : u8 (a + b * 2 ^ 8 + c * 2 ^ 16 + d * 2 ^ 24) ≡ a = omega arith in
    let e1 : u8 ((a + b * 2 ^ 8 + c * 2 ^ 16 + d * 2 ^ 24) / 2 ^ 8) ≡ b = omega arith in
    let e2 : u8 ((a + b * 2 ^ 8 + c * 2 ^ 16 + d * 2 ^ 24) / 2 ^ 16) ≡ c = omega arith in
    let e3 : u8 ((a + b * 2 ^ 8 + c * 2 ^ 16 + d * 2 ^ 24) / 2 ^ 24) ≡ d = omega arith in cc

-- n bytes from i on
abbrev pub reads : ℕ → ℕ → List ℕ → List ℕ
reads zero i b = []
reads (suc n) i b = get_or b i 0 ∷ reads n (suc i) b

pub reads-cons : (n i x : ℕ) (b : List ℕ) → reads n (suc i) (x ∷ b) ≡ reads n i b
reads-cons zero i x b = refl
reads-cons (suc n) i x b = ap (λ t. get_or b i 0 ∷ t) (reads-cons n (suc i) x b)

pub take-reads : (n : ℕ) (b : List ℕ) → n ≤ length b → take n b ≡ reads n 0 b
take-reads zero b h = refl
take-reads (suc n) [] h = absurd (omega arith)
take-reads (suc n) (x ∷ b) h =
    ap (λ t. x ∷ t) (take-reads n b (omega arith) ∙ sym (reads-cons n 0 x b))

pub first_byte : (t : ℕ) → t < 2 ^ 5 → u8 (bit_or (1 * 2 ^ 5) (t % 2 ^ 5)) ≡ 32 + t
first_byte t h = rw (bit_or_disjoint 5 1 (t % 2 ^ 5) (omega arith)) (omega arith)

pub hdr_get-append :
    (h : Hdr) (rest : List ℕ)
    → IsHdr h
    → 8 ≤ length rest
    → length rest ≤ 82
    → hdr_get (hdr_put h ++ rest) ≡ done h
unfolding hdr_get hdr_put
hdr_get-append h rest v low high =
    rw
      (
        first_byte h.type v.type,
        get-put_le32 h.src v.src,
        get-put_le32 h.dest v.dest,
        get-put_le32 h.counter v.counter,
      )
      (ground (arith, v.type))

abbrev pub fields : List ℕ → Hdr
fields frame = record {
  type = get_or frame 0 0 % 2 ^ 5;
  flags = get_or frame 1 0;
  src = get_le32 frame 2;
  dest = get_le32 frame 6;
  counter = get_le32 frame 10;
}

pub hdr_get-fields :
    (frame : List ℕ) (h : Hdr)
    → hdr_get frame ≡ done h
    → (h ≡ fields frame)
      × (22 ≤ length frame)
      × (length frame ≤ 96)
      × (get_or frame 0 0 / 2 ^ 5 ≡ 1)
unfolding hdr_get
hdr_get-fields frame h e = ground arith

pub hdr_put-fields :
    (frame : List ℕ)
    → IsBytes frame
    → get_or frame 0 0 / 2 ^ 5 ≡ 1
    → hdr_put (fields frame) ≡ reads 14 0 frame
unfolding hdr_put
hdr_put-fields frame bytes version =
    let at = λ (i : ℕ). get_or-lt frame i bytes in
    let e : u8 (bit_or (1 * 2 ^ 5) (get_or frame 0 0 % 2 ^ 5 % 2 ^ 5)) ≡ get_or frame 0 0 =
      ap (λ (t : ℕ). u8 (bit_or (1 * 2 ^ 5) t)) (omega arith)
      ∙ first_byte (get_or frame 0 0 % 2 ^ 5) (omega arith)
      ∙ omega arith in
    let src =
      put-get_le32 (get_or frame 2 0) (get_or frame 3 0) (get_or frame 4 0) (get_or frame 5 0)
        (at 2) (at 3) (at 4) (at 5) in
    let dest =
      put-get_le32 (get_or frame 6 0) (get_or frame 7 0) (get_or frame 8 0) (get_or frame 9 0)
        (at 6) (at 7) (at 8) (at 9) in
    let counter =
      put-get_le32 (get_or frame 10 0) (get_or frame 11 0) (get_or frame 12 0) (get_or frame 13 0)
        (at 10) (at 11) (at 12) (at 13) in
    cc

pub hdr_put-hdr_get :
    (frame : List ℕ) (h : Hdr)
    → IsBytes frame
    → hdr_get frame ≡ done h
    → (hdr_put h ≡ take 14 frame) × (22 ≤ length frame) × (length frame ≤ 96)
hdr_put-hdr_get frame h bytes e =
    let (same, low, high, version) = hdr_get-fields frame h e in
    (
      rw same (hdr_put-fields frame bytes version ∙ sym (take-reads 14 frame (omega arith))),
      low,
      high,
    )

pub open_result_parts :
    (h' h : Hdr) (r : Ret × List ℕ) (pt : List ℕ)
    → open_result h' r ≡ done (h, pt)
    → (h' ≡ h) × (r ≡ (ok, pt))
unfolding open_result
open_result_parts h' h (ok, m) pt e = (ap (λ x. header x) e, cc)
  where
    header : Result (Hdr × List ℕ) → Hdr
    header (done (g, _)) = g
    header (err _) = h'
open_result_parts h' h (fail n, m) pt e = absurd (cc)

pub seal_result_parts :
    (hdr : List ℕ) (r : Ret × List ℕ × List ℕ) (frame : List ℕ)
    → seal_result hdr r ≡ done frame
    → (r ≡ (ok, r.1, r.2)) × (frame ≡ hdr ++ r.1 ++ r.2)
unfolding seal_result
seal_result_parts hdr (ok, ct, tag) frame e = (refl, cc)
seal_result_parts hdr (fail n, ct, tag) frame e = absurd (cc)

pub three_pieces :
    (frame : List ℕ)
    → 22 ≤ length frame
    → take 14 frame ++ take (length frame - 14 - 8) (drop 14 frame) ++ drop (length frame - 8) frame
      ≡ frame
three_pieces frame low =
    let k : ℕ = length frame - 14 - 8 in
    let at : 14 + k ≡ length frame - 8 = omega arith in
    let last : drop (length frame - 8) frame ≡ drop k (drop 14 frame) =
      sym (drop-drop 14 k frame ∙ ap (λ n. drop n frame) at) in
    rw last (
      append_assoc (take 14 frame) (take k (drop 14 frame)) (drop k (drop 14 frame))
      ∙ rw (take-append-drop k (drop 14 frame)) (take-append-drop 14 frame))

pub length-hdr_put : (h : Hdr) → length (hdr_put h) ≡ 14
unfolding hdr_put
length-hdr_put h = refl

pub pieces-append :
    (h : Hdr) (ct tag : List ℕ)
    → length tag ≡ 8
    → let frame = hdr_put h ++ (ct ++ tag) in
      (hdr_put h ≡ take 14 frame)
      × (take (length frame - 14 - 8) (drop 14 frame) ≡ ct)
      × (drop (length frame - 8) frame ≡ tag)
unfolding hdr_put
pieces-append h ct tag e =
    let frame = hdr_put h ++ (ct ++ tag) in
    let n : length frame - 14 - 8 ≡ length ct = omega (arith, length-append ct tag) in
    let m : length frame - 8 ≡ 14 + length ct = omega (arith, length-append ct tag) in
    (
      refl,
      ap (λ k. take k (ct ++ tag)) n ∙ take-append ct tag,
      ap (λ k. drop k frame) m ∙ sym (drop-drop 14 (length ct) frame) ∙ drop-append ct tag,
    )
