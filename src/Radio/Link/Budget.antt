-- ===== src/Radio/Link/Budget.antt =====
-- app/src/app_radio.c: what a rejoin costs.
use sticker_firmware.Base.{
  ℕ, ◌+◌, ◌^◌, ◌<◌, ◌≤◌, ◌≡◌, refl, sym, ◌∙◌, arith, Bool, true, false, ◌||◌, List, [], ◌∷◌, ltb,
  leb, if◌then◌else◌, length, u32, Ret, ok, fail, Bool-cases, inl, inr,
}
use sticker_firmware.Radio.Link.{
  Link, Call, warning_threshold, link_clear, link_up, budget_of, failed_healthy, lost,
  failed_warning, failed, link_result,
}

-- A result with the answers of the backend, or a new session.
pub data Event : Type 0 where
  result : Bool → Bool → Bool → Ret → Event
  up : Event

unfoldable pub after : ℕ → Link → Event → Link × List Call
after cfg l (Event.result healthy good stepped rejoined) =
    link_result cfg l healthy good stepped rejoined
after cfg l Event.up = (link_up l, [])

-- The link behind the events, newest first.
unfoldable pub link_after : ℕ → Link → List Event → Link
link_after cfg l [] = l
link_after cfg l (e ∷ es) = (after cfg (link_after cfg l es) e).0

-- The failed results in a row, of a HEALTHY link, at the end of the events.
abbrev pub row : List Event → ℕ
row [] = 0
row (Event.result false good stepped rejoined ∷ es) = row es
row (Event.result true true stepped rejoined ∷ es) = 0
row (Event.result true false stepped rejoined ∷ es) = 1 + row es
row (Event.up ∷ es) = 0

abbrev pub rejoins : List Call → Bool
rejoins [] = false
rejoins (Call.step ∷ cs) = rejoins cs
rejoins (Call.rejoin ∷ cs) = true

record IsCounted (k : ℕ) (l : Link) : Type 0 where
  streak : l.fail_streak ≡ k
  fails : l.warning ≡ true → 3 + l.warning_fails ≤ k

row-le : (es : List Event) → row es ≤ length es
row-le [] = omega arith
row-le (Event.result false good stepped rejoined ∷ es) = omega (arith, row-le es)
row-le (Event.result true true stepped rejoined ∷ es) = omega arith
row-le (Event.result true false stepped rejoined ∷ es) = omega (arith, row-le es)
row-le (Event.up ∷ es) = omega arith

-- What a failed result leaves, and that a rejoin has its price.
abbrev Failed : ℕ → ℕ → Link × List Call → Type 0
Failed cfg k r = IsCounted k r.0 × (rejoins r.1 ≡ true → 3 + budget_of cfg ≤ k)

if-Failed :
    (b : Bool) (cfg k : ℕ) (p q : Link × List Call)
    → Failed cfg k p
    → Failed cfg k q
    → Failed cfg k (if b then p else q)
if-Failed true cfg k p q x y = x
if-Failed false cfg k p q x y = y

no_rejoin : {A : Type 0} → ◌≡◌ {A = Bool} false true → A
no_rejoin e = absurd (cc)

failed_healthy-Failed :
    (cfg k : ℕ) (l : Link) → l.fail_streak ≡ k → l.warning ≡ false → Failed cfg k (failed_healthy l)
unfolding failed_healthy
failed_healthy-Failed cfg k l s w = elim (Bool-cases (leb warning_threshold l.fail_streak)) [
  | inl reached ↦
      rw reached (record { streak = s; fails = λ _. ground (arith, reached, s) }, λ e. no_rejoin e)
  | inr below ↦
      rw below (record { streak = s; fails = λ e. no_rejoin (sym w ∙ e) }, λ e. no_rejoin e)
]

lost-IsCounted : (r : Ret) (k : ℕ) (l : Link) → IsCounted k l → IsCounted k (lost r l)
unfolding lost
lost-IsCounted ok k l c = c
lost-IsCounted (fail e) k l c = record { streak = c.streak; fails = λ w. omega (arith, c.fails w) }

failed_warning-Failed :
    (cfg k : ℕ) (stepped : Bool) (rejoined : Ret) (l : Link)
    → l.fail_streak ≡ k
    → 3 + l.warning_fails + 1 ≤ k
    → k < 2 ^ 32
    → Failed cfg k (failed_warning cfg stepped rejoined l)
unfolding failed_warning
failed_warning-Failed cfg k stepped rejoined l s f h =
    let fails = u32 (l.warning_fails + 1) in
    let counted : IsCounted k (record l { warning_fails = fails }) = record {
      streak = s;
      fails = λ _. omega arith;
    } in
    elim (Bool-cases (stepped || ltb fails (budget_of cfg))) [
      | inl stays ↦ rw stays (counted, λ e. no_rejoin e)
      | inr spent ↦ rw spent (lost-IsCounted rejoined k _ counted, λ _. ground (arith, spent, f))
    ]

by_warning-Failed :
    (cfg k : ℕ) (stepped : Bool) (rejoined : Ret) (l : Link) (w : Bool)
    → l.warning ≡ w
    → l.fail_streak ≡ k
    → (w ≡ true → 3 + l.warning_fails + 1 ≤ k)
    → k < 2 ^ 32
    → Failed cfg k (if w then failed_warning cfg stepped rejoined l else failed_healthy l)
by_warning-Failed cfg k stepped rejoined l true w s f h =
    failed_warning-Failed cfg k stepped rejoined l s (f refl) h
by_warning-Failed cfg k stepped rejoined l false w s f h = failed_healthy-Failed cfg k l s w

after-Failed :
    (cfg : ℕ) (l : Link) (e : Event) (es : List Event)
    → IsCounted (row es) l
    → row es + 1 < 2 ^ 32
    → Failed cfg (row (e ∷ es)) (after cfg l e)
unfolding after link_result link_up link_clear failed
after-Failed cfg l Event.up es c h =
    (record { streak = refl; fails = λ e. no_rejoin e }, λ e. no_rejoin e)
after-Failed cfg l (Event.result false good stepped rejoined) es c h = (c, λ e. no_rejoin e)
after-Failed cfg l (Event.result true true stepped rejoined) es c h =
    (record { streak = refl; fails = λ e. no_rejoin e }, λ e. no_rejoin e)
after-Failed cfg l (Event.result true false stepped rejoined) es c h =
    let l' = record l { fail_streak = u32 (l.fail_streak + 1) } in
    let streak : u32 (l.fail_streak + 1) ≡ 1 + row es = omega (arith, c.streak) in
    by_warning-Failed cfg (1 + row es) stepped rejoined l' l.warning refl streak
      (λ w. omega (arith, c.fails w)) (omega arith)

link_after-IsCounted :
    (cfg : ℕ) (l : Link) (es : List Event)
    → IsCounted 0 l
    → length es < 2 ^ 32
    → IsCounted (row es) (link_after cfg l es)
unfolding link_after
link_after-IsCounted cfg l [] c h = c
link_after-IsCounted cfg l (e ∷ es) c h =
    (after-Failed cfg (link_after cfg l es) e es (link_after-IsCounted cfg l es c (omega arith))
      (omega (arith, row-le es))).0

-- A rejoin has its price: over fewer than 2 ^ 32 results and new sessions from a cleared link, in
-- which the results while the backend is not HEALTHY do not count, the rejoin is asked for only when
-- the last 3 results and then as many as radio-link-check-fail-rejoin says, at least one, were all
-- failures in a row.
pub rejoin_price :
    (cfg : ℕ) (l : Link) (e : Event) (es : List Event)
    → length es + 1 < 2 ^ 32
    → rejoins (after cfg (link_after cfg (link_up l) es) e).1 ≡ true
    → 3 + budget_of cfg ≤ row (e ∷ es)
unfolding link_up link_clear
rejoin_price cfg l e es h asked =
    let start : IsCounted 0 (link_up l) = record { streak = refl; fails = λ x. no_rejoin x } in
    (after-Failed cfg (link_after cfg (link_up l) es) e es
        (link_after-IsCounted cfg (link_up l) es start (omega arith)) (omega (arith, row-le es))).1
      asked
