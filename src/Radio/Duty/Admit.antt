-- ===== src/Radio/Duty/Admit.antt =====
-- app/src/app_radio.c: what a wait of 0 says of the air that the ledger holds.
use sticker_firmware.Base.{
  ℕ, ◌+◌, ◌-◌, ◌^◌, ◌<◌, ◌≤◌, ◌≡◌, refl, sym, ◌∙◌, arith, false, List, [], ◌∷◌, leb, ◌==◌, u32,
  Bool-cases, inl, inr,
}
use sticker_firmware.Radio.Duty.{
  Entry, window_ms, in_window, expire, freeing_end, used_ms, is_empty, wait_entries,
}
use sticker_firmware.Radio.Duty.Window.{recent, EndBy, Ordered, Ordered-tail, total, used_ms-recent}

-- Every end is inside the window.
abbrev pub Inside : ℕ → List Entry → Type 0
Inside now [] = Unit {0}
Inside now (e ∷ es) = (now < e.end_ms + window_ms) × Inside now es

Ordered-Inside :
    (now : ℕ) (e : Entry) (es : List Entry)
    → Ordered (e ∷ es)
    → now < e.end_ms + window_ms
    → Inside now (e ∷ es)
Ordered-Inside now e [] o h = (h, tt)
Ordered-Inside now e (f ∷ es) (p, o) h = (h, Ordered-Inside now f es o (omega arith))

pub expire-Inside :
    (now : ℕ) (es : List Entry)
    → now < 2 ^ 32
    → EndBy now es
    → Ordered es
    → Inside now (expire now es)
unfolding expire
expire-Inside now [] h b o = tt
expire-Inside now (e ∷ es) h (a, b) o = elim (Bool-cases (in_window now e)) [
  | inl inside ↦ rw inside (Ordered-Inside now e es o (ground (arith, inside)))
  | inr out ↦ rw out (expire-Inside now es h b (Ordered-tail e es o))
]

pub total-recent : (now : ℕ) (es : List Entry) → Inside now es → total es ≡ recent now es
total-recent now [] i = refl
total-recent now (e ∷ es) (a, i) = ground (arith, total-recent now es i)

-- The end of an entry.
freeing_end-Inside :
    (now over freed : ℕ) (es : List Entry)
    → EndBy now es
    → Inside now es
    → is_empty es ≡ false
    → (freeing_end over freed es ≤ now) × (now < freeing_end over freed es + window_ms)
unfolding freeing_end
freeing_end-Inside now over freed [] b i h = absurd (cc)
freeing_end-Inside now over freed (e ∷ []) (a, b) (c, i) h = (a, c)
freeing_end-Inside now over freed (e ∷ f ∷ es) (a, b) (c, i) h =
    let later = freeing_end-Inside now over (u32 (freed + e.air_ms)) (f ∷ es) b i refl in
    elim (Bool-cases (leb over (u32 (freed + e.air_ms)))) [
      | inl enough ↦ rw enough (a, c)
      | inr less ↦ rw less later
    ]

-- A frame that may go finds room for its air.
pub admitted :
    (budget now air : ℕ) (es : List Entry)
    → now < 2 ^ 32
    → EndBy now es
    → Inside now es
    → total es ≤ budget
    → 0 < budget
    → budget < 2 ^ 31
    → air ≤ budget
    → wait_entries budget now air es ≡ 0
    → total es + air ≤ budget
unfolding wait_entries
admitted budget now air [] h b i t pos small le w = omega arith
admitted budget now air (e ∷ es) h b i t pos small le w =
    let used : used_ms now (e ∷ es) ≡ total (e ∷ es) =
      used_ms-recent now (e ∷ es) h b (omega arith) ∙ sym (total-recent now (e ∷ es) i) in
    elim (Bool-cases (leb (u32 (used_ms now (e ∷ es) + air)) budget)) [
      | inl room ↦ ground (arith, room, used)
      | inr over ↦
          let (low, high) =
            freeing_end-Inside now (u32 (used_ms now (e ∷ es) + air) - budget) 0 (e ∷ es) b i
              refl in
          let limited : (budget == 0) ≡ false = ground arith in
          absurd (ground (arith, rw (limited, over) at w, low, high))
    ]
