-- ===== src/Radio/Duty/Limit.antt =====
-- app/src/app_radio.c: the frames that the ledger admits, over a run of the radio.
use sticker_firmware.Base.{
  ℕ, ◌+◌, ◌^◌, ◌<◌, ◌≤◌, ◌≡◌, refl, arith, ◌&&◌, List, [], ◌∷◌, leb, ltb, ◌==◌, if◌then◌else◌, u32,
  Bool-cases, inl, inr,
}
use sticker_firmware.Radio.Duty.{
  Entry, Ledger, window_ms, expire, ledger_init, charge, wait_entries, wait_ms,
}
use sticker_firmware.Radio.Duty.Window.{
  recent, EndBy, Ordered, total, recent-le-total, expire_facts, recent-expire, EndBy-later,
  charge-Charged,
}
use sticker_firmware.Radio.Duty.Admit.{Inside, expire-Inside, admitted}

-- A frame that asks for the air some time after the last event: idle ms later, and ending flight ms
-- after that, if it may go.
pub record Attempt : Type 0 where
  pub idle : ℕ
  pub flight : ℕ
  pub air : ℕ

-- The log has the frames that went out, newest first.
pub record Radio : Type 0 where
  pub ledger : Ledger
  pub log : List Entry
  pub now : ℕ

unfoldable pub transmit : Radio → Attempt → Radio
transmit r a =
    let start = r.now + a.idle in
    let (wait, ledger) = wait_ms r.ledger start a.air in
    let end = start + a.flight in
    if wait == 0
    then record {
      ledger = charge ledger end a.air;
      log = record { end_ms = end; air_ms = a.air } ∷ r.log;
      now = end;
    }
    else record r { ledger = ledger; now = start }

unfoldable pub transmit_all : Radio → List Attempt → Radio
transmit_all r [] = r
transmit_all r (a ∷ as') = transmit_all (transmit r a) as'

-- The air of the frames that ended within the hour before t, t included.
abbrev pub hour_before : ℕ → List Entry → ℕ
hour_before t [] = 0
hour_before t (e ∷ es) =
    (if leb e.end_ms t && ltb t (e.end_ms + window_ms) then e.air_ms else 0) + hour_before t es

hour_before-le-recent : (t : ℕ) (es : List Entry) → hour_before t es ≤ recent t es
hour_before-le-recent t [] = omega arith
hour_before-le-recent t (e ∷ es) = ground (arith, hour_before-le-recent t es)

recent-later : (s t : ℕ) (es : List Entry) → s ≤ t → recent t es ≤ recent s es
recent-later s t [] h = omega arith
recent-later s t (e ∷ es) h = ground (arith, recent-later s t es h)

record IsValid (r : Radio) : Type 0 where
  by : EndBy r.now r.ledger.entries
  ordered : Ordered r.ledger.entries
  total : total r.ledger.entries ≤ r.ledger.budget_ms
  counts : (t : ℕ) → r.now ≤ t → recent t r.log ≤ recent t r.ledger.entries
  limit : (t : ℕ) → hour_before t r.log ≤ r.ledger.budget_ms

-- The ledger after an expiry at start, under the log of before.
record Ready (start : ℕ) (d : Ledger) (es : List Entry) (log : List Entry) : Type 0 where
  by : EndBy start es
  ordered : Ordered es
  inside : Inside start es
  total : total es ≤ d.budget_ms
  counts : (t : ℕ) → start ≤ t → recent t log ≤ recent t es

valid-Ready :
    (r : Radio) (start : ℕ)
    → IsValid r
    → r.now ≤ start
    → start < 2 ^ 32
    → Ready start r.ledger (expire start r.ledger.entries) r.log
valid-Ready r start v le h =
    let by = EndBy-later r.now start r.ledger.entries le v.by in
    let (b, o, s) = expire_facts start r.ledger.entries h by v.ordered in
    record {
      by = b;
      ordered = o;
      inside = expire-Inside start r.ledger.entries h by v.ordered;
      total = omega (arith, s, v.total);
      counts = λ t later.
          omega
            (arith, recent-expire start t r.ledger.entries h later by, v.counts t (omega arith));
    }

-- The hour before t, with a frame that ended at end and was let go at start.
hour_before-sent :
    (start end air budget t : ℕ) (log es : List Entry)
    → start ≤ end
    → recent start log ≤ total es
    → total es + air ≤ budget
    → hour_before t log ≤ budget
    → hour_before t (record { end_ms = end; air_ms = air } ∷ log) ≤ budget
hour_before-sent start end air budget t log es le held room before = elim (Bool-cases (leb end t)) [
  | inl past ↦
      let later : start ≤ t = ground (arith, past) in
      ground (arith, hour_before-le-recent t log, recent-later start t log later)
  | inr future ↦ ground (arith, future)
]

sent-IsValid :
    (d : Ledger) (log es : List Entry) (start end air : ℕ)
    → Ready start d es log
    → start ≤ end
    → end < 2 ^ 32
    → d.budget_ms < 2 ^ 31
    → total es + air ≤ d.budget_ms
    → ((t : ℕ) → hour_before t log ≤ d.budget_ms)
    → IsValid record {
      ledger = charge (record d { entries = es }) end air;
      log = record { end_ms = end; air_ms = air } ∷ log;
      now = end;
    }
unfolding charge
sent-IsValid d log es start end air v le h small room before =
    let c =
      charge-Charged (record d { entries = es }) end air h (EndBy-later start end es le v.by)
        v.ordered (omega arith) in
    record {
      by = c.by;
      ordered = c.ordered;
      total = omega (arith, c.total);
      counts = λ t later. omega (arith, c.counts t later, v.counts t (omega arith));
      limit = λ t.
          hour_before-sent start end air d.budget_ms t log es le
            (omega (arith, v.counts start (omega arith), recent-le-total start es)) room (before t);
    }

held-IsValid :
    (d : Ledger) (log es : List Entry) (start : ℕ)
    → Ready start d es log
    → ((t : ℕ) → hour_before t log ≤ d.budget_ms)
    → IsValid record { ledger = record d { entries = es }; log = log; now = start }
held-IsValid d log es start v before = record {
  by = v.by;
  ordered = v.ordered;
  total = v.total;
  counts = v.counts;
  limit = before;
}

transmit-IsValid :
    (r : Radio) (a : Attempt)
    → IsValid r
    → 0 < r.ledger.budget_ms
    → r.ledger.budget_ms < 2 ^ 31
    → a.air ≤ r.ledger.budget_ms
    → r.now + a.idle + a.flight < 2 ^ 32
    → IsValid (transmit r a)
      × ((transmit r a).ledger.budget_ms ≡ r.ledger.budget_ms)
      × ((transmit r a).now ≤ r.now + a.idle + a.flight)
unfolding transmit wait_ms charge
transmit-IsValid r a v pos small le h =
    let start = r.now + a.idle in
    let es = expire start r.ledger.entries in
    let cut : u32 start ≡ start = omega arith in
    let ready = valid-Ready r start v (omega arith) (omega arith) in
    elim (Bool-cases (wait_entries r.ledger.budget_ms start a.air es == 0)) [
      | inl go ↦
          let room =
            admitted r.ledger.budget_ms start a.air es (omega arith) ready.by ready.inside
              ready.total pos small le (ground (arith, go)) in
          rw (cut, go)
            (
              sent-IsValid r.ledger r.log es start (start + a.flight) a.air ready (omega arith) h
                  small room v.limit,
              refl,
              omega arith,
            )
      | inr held ↦
          rw (cut, held) (held-IsValid r.ledger r.log es start ready v.limit, refl, omega arith)
    ]

-- The longest that the attempts take.
abbrev pub span : List Attempt → ℕ
span [] = 0
span (a ∷ as') = a.idle + a.flight + span as'

-- No frame is longer than the allowance.
abbrev pub Fits : ℕ → List Attempt → Type 0
Fits budget [] = Unit {0}
Fits budget (a ∷ as') = (a.air ≤ budget) × Fits budget as'

transmit_all-limit :
    (r : Radio) (as' : List Attempt)
    → IsValid r
    → 0 < r.ledger.budget_ms
    → r.ledger.budget_ms < 2 ^ 31
    → Fits r.ledger.budget_ms as'
    → r.now + span as' < 2 ^ 32
    → (t : ℕ) → hour_before t (transmit_all r as').log ≤ r.ledger.budget_ms
unfolding transmit_all
transmit_all-limit r [] v pos small fits h t = v.limit t
transmit_all-limit r (a ∷ as') v pos small (le, fits) h t =
    let (v', same, by) = transmit-IsValid r a v pos small le (omega arith) in
    let later =
      transmit_all-limit (transmit r a) as' v' (omega (arith, same)) (omega (arith, same))
        (rw same fits) (omega (arith, by)) t in
    omega (arith, later, same)

abbrev pub new_radio : ℕ → Radio
new_radio budget = record { ledger = ledger_init budget; log = []; now = 0 }

-- For an allowance above 0 and below 2 ^ 31 ms, whatever frames ask for the air, none longer than the
-- allowance, and whenever they end, up to an uptime of 2 ^ 32 ms: if each goes only when
-- app_radio_ledger_wait_ms answers 0, and is charged at its end, then the frames that end within any
-- hour have at most the allowance of air together.
pub duty_limit :
    (budget : ℕ) (as' : List Attempt) (t : ℕ)
    → 0 < budget
    → budget < 2 ^ 31
    → Fits budget as'
    → span as' < 2 ^ 32
    → hour_before t (transmit_all (new_radio budget) as').log ≤ budget
unfolding ledger_init
duty_limit budget as' t pos small fits h =
    transmit_all-limit (new_radio budget) as'
      (record {
        by = tt;
        ordered = tt;
        total = omega arith;
        counts = λ s le. omega arith;
        limit = λ s. omega arith;
      })
      pos small fits (omega arith) t
