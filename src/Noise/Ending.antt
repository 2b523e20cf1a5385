-- ===== src/Noise/Ending.antt =====
-- The ping-pong ends.
use mpi_rma.Base.{
  List, some, ℕ, suc, ◌+◌, ◌≤◌, ◌<◌, ◌≡◌, ◌≢◌, refl, sym, ◌∙◌, ap, arith, Bool, true, false, [],
  ◌∷◌, ◌⊎◌, inl, inr,
}
use mathlib.Core.Option.{some-injective}
use mathlib.Core.Path.{subst}
use mpi_rma.Noise.{
  Lower, deciding, sending, awaiting, stopping, stopped, Higher, listening, answering, replying,
  left, Packet, send_returns, Pair, partner, take_tagged, noise_packet, stop_packet, lower_turn,
  higher_turn, heard, Turn, lower_moves, higher_moves, Event, turns, flagged, Events, nothing,
  then_event, Turns, none_yet, then_turn, first_state, IsOver,
}

-- The ranks pair off: a partner's partner is the rank itself, and is another rank.
pub partner_pairs :
    (first rank : ℕ)
    → first ≤ rank
    → (first ≤ partner first rank)
      × (partner first (partner first rank) ≡ rank)
      × (partner first rank ≢ rank)
unfolding partner
partner_pairs first rank h = (ground arith, ground arith, λ e. ground (arith, e))

-- All that a pair goes through. A flag says that the lower, or the higher, rank is still in its
-- send.
data Phase : Type 0 where
  resting : (h : Bool) → Phase
  called : (l h : Bool) → Phase
  answered : (l : Bool) → Phase
  returning : (l h : Bool) → Phase
  ending : (l h : Bool) → Phase
  over : (l : Bool) → Phase

abbrev calls : Bool → Lower
calls true = sending
calls false = awaiting

abbrev quits : Bool → Lower
quits true = stopping
quits false = stopped

abbrev listens : Bool → Higher
listens true = replying
listens false = listening

abbrev lower_at : Phase → Lower
lower_at (resting h) = deciding
lower_at (called l h) = calls l
lower_at (answered l) = calls l
lower_at (returning l h) = calls l
lower_at (ending l h) = quits l
lower_at (over l) = quits l

abbrev higher_at : Phase → Higher
higher_at (resting h) = listens h
higher_at (called l h) = listens h
higher_at (answered l) = answering
higher_at (returning l h) = listens h
higher_at (ending l h) = listens h
higher_at (over l) = left

abbrev bit : Bool → ℕ
bit true = 1
bit false = 0

-- The turns to the end, once the flag is set.
abbrev to_go : Phase → ℕ
to_go (called l h) = 7 + bit l + bit h
to_go (answered l) = 6 + bit l
to_go (returning l h) = 4 + bit l + bit h
to_go (resting h) = 3 + bit h
to_go (ending l h) = 1 + bit l + bit h
to_go (over l) = bit l

bit-le : (b : Bool) → bit b ≤ 1
bit-le true = omega arith
bit-le false = omega arith

to_go-le : (p : Phase) → to_go p ≤ 9
to_go-le (called l h) = omega (arith, bit-le l, bit-le h)
to_go-le (answered l) = omega (arith, bit-le l)
to_go-le (returning l h) = omega (arith, bit-le l, bit-le h)
to_go-le (resting h) = omega (arith, bit-le h)
to_go-le (ending l h) = omega (arith, bit-le l, bit-le h)
to_go-le (over l) = omega (arith, bit-le l)

-- A send that returns changes nothing else.
send_returns-inv :
    (early : Bool) (queue : List Packet) (s t : Pair) → send_returns early queue s ≡ some t → s ≡ t
unfolding send_returns
send_returns-inv early [] s t e = some-injective s t e
send_returns-inv true (p ∷ ps) s t e = some-injective s t e
send_returns-inv false (p ∷ ps) s t e = cc

module _ (kib : ℕ) (lower_early higher_early : Pair → Bool) where
  abbrev called_noise : Packet
  called_noise = noise_packet kib lower_early higher_early

  abbrev to_higher_at : Phase → List Packet
  to_higher_at (resting h) = []
  to_higher_at (called l h) = called_noise ∷ []
  to_higher_at (answered l) = []
  to_higher_at (returning l h) = []
  to_higher_at (ending l h) = stop_packet kib lower_early higher_early ∷ []
  to_higher_at (over l) = []

  abbrev to_lower_at : Phase → List Packet
  to_lower_at (resting h) = []
  to_lower_at (called l h) = []
  to_lower_at (answered l) = []
  to_lower_at (returning l h) = called_noise ∷ []
  to_lower_at (ending l h) = []
  to_lower_at (over l) = []

  abbrev phase_state : Phase → Bool → Pair
  phase_state p b = record {
    lower = lower_at p;
    higher = higher_at p;
    to_higher = to_higher_at p;
    to_lower = to_lower_at p;
    stop = b;
  }

  abbrev Moves : Pair → Pair → Type 0
  Moves = Turn kib lower_early higher_early

  -- A turn of a pair whose flag is set comes closer to the end.
  Comes : Phase → Bool → Pair → Type 0
  Comes p b t = (q : Phase) × (phase_state q b ≡ t) × (b ≡ true → to_go q < to_go p)

  turn_phase : (p : Phase) (b : Bool) (t : Pair) → Moves (phase_state p b) t → Comes p b t
  unfolding lower_turn higher_turn heard take_tagged send_returns Comes
  turn_phase (resting h) true t (lower_moves e) =
      (ending true h, some-injective _ t e, λ _. omega arith)
  turn_phase (resting h) false t (lower_moves e) =
      (called true h, some-injective _ t e, λ x. absurd cc)
  turn_phase (resting true) b t (higher_moves e) =
      (resting false, some-injective _ t e, λ _. omega arith)
  turn_phase (resting false) b t (higher_moves e) = cc
  turn_phase (called true h) b t (lower_moves e) =
      (called false h, send_returns-inv _ (called_noise ∷ []) _ t e, λ _. omega arith)
  turn_phase (called false h) b t (lower_moves e) = cc
  turn_phase (called l true) b t (higher_moves e) =
      (called l false, some-injective _ t e, λ _. omega arith)
  turn_phase (called l false) b t (higher_moves e) =
      (answered l, some-injective _ t e, λ _. omega arith)
  turn_phase (answered true) b t (lower_moves e) =
      (answered false, some-injective _ t e, λ _. omega arith)
  turn_phase (answered false) b t (lower_moves e) = cc
  turn_phase (answered l) b t (higher_moves e) =
      (returning l true, some-injective _ t e, λ _. omega arith)
  turn_phase (returning true h) b t (lower_moves e) =
      (returning false h, some-injective _ t e, λ _. omega arith)
  turn_phase (returning false h) b t (lower_moves e) =
      (resting h, some-injective _ t e, λ _. omega arith)
  turn_phase (returning l true) b t (higher_moves e) =
      (returning l false, send_returns-inv _ (called_noise ∷ []) _ t e, λ _. omega arith)
  turn_phase (returning l false) b t (higher_moves e) = cc
  turn_phase (ending true h) b t (lower_moves e) = (
    ending false h,
    send_returns-inv _ (stop_packet kib lower_early higher_early ∷ []) _ t e,
    λ _. omega arith,
  )
  turn_phase (ending false h) b t (lower_moves e) = cc
  turn_phase (ending l true) b t (higher_moves e) =
      (ending l false, some-injective _ t e, λ _. omega arith)
  turn_phase (ending l false) b t (higher_moves e) =
      (over l, some-injective _ t e, λ _. omega arith)
  turn_phase (over true) b t (lower_moves e) = (over false, some-injective _ t e, λ _. omega arith)
  turn_phase (over false) b t (lower_moves e) = cc
  turn_phase (over l) b t (higher_moves e) = cc

  -- A pair that is not over has a turn.
  goes_on :
      (p : Phase) (b : Bool) → IsOver (phase_state p b) ⊎ ((t : Pair) × Moves (phase_state p b) t)
  unfolding lower_turn higher_turn heard take_tagged send_returns
  goes_on (resting h) true = inr (_, lower_moves refl)
  goes_on (resting h) false = inr (_, lower_moves refl)
  goes_on (called l true) b = inr (_, higher_moves refl)
  goes_on (called l false) b = inr (_, higher_moves refl)
  goes_on (answered l) b = inr (_, higher_moves refl)
  goes_on (returning true h) b = inr (_, lower_moves refl)
  goes_on (returning false h) b = inr (_, lower_moves refl)
  goes_on (ending l true) b = inr (_, higher_moves refl)
  goes_on (ending l false) b = inr (_, higher_moves refl)
  goes_on (over true) b = inr (_, lower_moves refl)
  goes_on (over false) b = inl (refl, refl, refl, refl)

  Known : Pair → Type 0
  Known s = (p : Phase) × (b : Bool) × (phase_state p b ≡ s)

  Event-Known : {s t : Pair} → Known s → Event kib lower_early higher_early s t → Known t
  unfolding Known Comes
  Event-Known {s} {t} (p, b, e) (turns w) =
      let (q, same, _) = turn_phase p b t (subst (λ x. Moves x t) (sym e) w) in (q, b, same)
  Event-Known {s} {t} (p, b, e) (flagged f) =
      (p, true, ap {A = Pair} (λ x. record x { stop = true }) e ∙ sym f)

  Events-Known : {s : Pair} → Events kib lower_early higher_early first_state s → Known s
  unfolding Known
  Events-Known nothing = (resting false, false, refl)
  Events-Known (then_event r e) = Event-Known (Events-Known r) e

  Within : Phase → ℕ → Pair → Type 0
  Within p n t = (q : Phase) × (phase_state q true ≡ t) × (n + to_go q ≤ to_go p)

  Turns-Within :
      (p : Phase) {s : Pair} {n : ℕ} {t : Pair}
      → phase_state p true ≡ s
      → Turns kib lower_early higher_early s n t
      → Within p n t
  unfolding Within Comes
  Turns-Within p e none_yet = (p, e, omega arith)
  Turns-Within p {n = suc n} {t = t} e (then_turn r w) =
      let (q, at, near) = Turns-Within p e r in
      let (q', same, closer) = turn_phase q true t (subst (λ x. Moves x t) (sym at) w) in
      (q', same, omega (arith, near, closer refl))

  -- Whatever the two ranks of a pair have done since they started, and whenever between its start
  -- and the receive of its message each of their sends returns: once the flag is set they take nine
  -- turns at most, and until both have returned, with no message left unreceived, one of them can
  -- take its turn.
  pub noise_ends :
      {s t : Pair} {n : ℕ}
      → Events kib lower_early higher_early first_state s
      → s.stop ≡ true
      → Turns kib lower_early higher_early s n t
      → (n ≤ 9) × (IsOver t ⊎ ((u : Pair) × Turn kib lower_early higher_early t u))
  unfolding Known Within
  noise_ends {s} {t} {n} run set moved =
      let (p, b, e) = Events-Known run in
      let on : b ≡ true = ap (λ x. x.stop) e ∙ set in
      let (q, at, near) = Turns-Within p (ap (phase_state p) (sym on) ∙ e) moved in
      (
        omega (arith, near, to_go-le p),
        subst (λ x. IsOver x ⊎ ((u : Pair) × Moves x u)) at (goes_on q true),
      )
