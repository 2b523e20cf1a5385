-- ===== src/Compare/Acts.antt =====
-- `ring_stream` on a safe lane: what the sender's work keeps.
use mpi_rma.Base.{
  Bool, false, ◌⊎◌, length-append, ℕ, ◌+◌, ◌≤◌, ◌<◌, ◌≡◌, refl, sym, ◌∙◌, ap, arith, true, List, [],
  ◌∷◌, length, word_mod, if◌then◌else◌, Bool-cases, inl, inr,
}
use mathlib.Core.Path.{subst}
use mpi_rma.Error.{Result, ok, err, panic}
use mpi_rma.Ring.Send.{Sending}
use mpi_rma.Mpi.{Mpi, Laws, Reliable}
use mpi_rma.Crc.{Crc}
use mpi_rma.Protocol.{Link, IsLink, Flow, sent_to, call_send, after_send}
use mpi_rma.Protocol.Invariant.{Inv}
use mpi_rma.Protocol.SendStep.{send-Inv}
use mpi_rma.Compare.Duo.{Act, sends, stops, Duo, Work, act, acts}

sent_seen :
    (m : Mpi) (c : Crc) (k : Link) (f : Flow m) (bytes : List ℕ) (r : Result ℕ × Sending m)
    → ((sent_to m c k f bytes r).seen ≡ f.seen)
      × (length f.history ≤ length (sent_to m c k f bytes r).history)
      × (length (sent_to m c k f bytes r).history ≤ length f.history + 1)
sent_seen m c k f bytes (ok n, s) =
    let grown = length-append f.history (bytes ∷ []) in
    (refl, omega (arith, grown), omega (arith, grown))
sent_seen m c k f bytes (err e, s) = (refl, omega arith, omega arith)
sent_seen m c k f bytes (panic, s) = (refl, omega arith, omega arith)

-- The payloads fit the lane.
abbrev pub FitActs : Link → List Act → Type 0
FitActs k [] = Unit {0}
FitActs k (sends bytes ∷ rest) = (length bytes ≤ k.lane.capacity) × FitActs k rest
FitActs k (stops ∷ rest) = FitActs k rest

abbrev pub FitWork : Link → Work → Type 0
FitWork k t = FitActs k t.polled × FitActs k t.acked × FitActs k t.probed

abbrev pub FitTurns : Link → List Work → Type 0
FitTurns k [] = Unit {0}
FitTurns k (t ∷ ts) = FitWork k t × FitTurns k ts

abbrev pub count_work : Work → ℕ
count_work t = length t.polled + length t.acked + length t.probed

abbrev pub count_acts : List Work → ℕ
count_acts [] = 0
count_acts (t ∷ ts) = count_work t + count_acts ts

abbrev pub any_stop : List Act → Bool
any_stop [] = false
any_stop (sends bytes ∷ rest) = any_stop rest
any_stop (stops ∷ rest) = true

-- The sender reports in this turn that it has stopped.
abbrev pub Stops : Work → Type 0
Stops t = (any_stop t.polled ≡ true) ⊎ ((any_stop t.acked ≡ true) ⊎ (any_stop t.probed ≡ true))

-- A receiver that knows of it; before that, the sender has stopped exactly if its last message
-- waits.
abbrev pub Known : (stopping stopped waiting : Bool) → Type 0
Known true stopped waiting = stopped ≡ true
Known false stopped waiting = stopped ≡ waiting

Known-both : (stopping : Bool) → Known stopping true true
Known-both true = refl
Known-both false = refl

module _ (m : Mpi) (laws : Laws m) (reliable : Reliable m) (c : Crc) {k : Link}
    (link : IsLink k) where
  act_stopped : (a : Act) (d : Duo m) → d.stopped ≡ true → act m c k a d ≡ d
  act_stopped (sends bytes) d e = rw e refl
  act_stopped stops d e = rw e refl

  pub acts_stopped : (t : List Act) (d : Duo m) → d.stopped ≡ true → acts m c k t d ≡ d
  acts_stopped [] d e = refl
  acts_stopped (a ∷ rest) d e = ap (acts m c k rest) (act_stopped a d e) ∙ acts_stopped rest d e

  stops_stopped : (d : Duo m) → (act m c k stops d).stopped ≡ true
  stops_stopped d = elim (Bool-cases d.stopped) [
    | inl over ↦ ap (λ e. e.stopped) (act_stopped stops d over) ∙ over
    | inr on ↦
        let e : Duo m = record d { stopped = true; waiting = true } in
        ap {A = Bool} (λ b. (if b then d else e).stopped) on
  ]

  pub acts_stop : (t : List Act) (d : Duo m) → any_stop t ≡ true → (acts m c k t d).stopped ≡ true
  acts_stop [] d e = cc
  acts_stop (sends bytes ∷ rest) d e = acts_stop rest (act m c k (sends bytes) d) e
  acts_stop (stops ∷ rest) d e =
      let over = stops_stopped d in
      ap (λ x. x.stopped) (acts_stopped rest (act m c k stops d) over) ∙ over

  pub record Sound (stopping : Bool) (d : Duo m) : Type 0 where
    pub inv : Inv m c k d.flow
    pub known : Known stopping d.stopped d.waiting

  pub record Advances (stopping : Bool) (d e : Duo m) (n : ℕ) : Type 0 where
    pub sound : Sound stopping e
    pub seen : e.flow.seen ≡ d.flow.seen
    pub grown : length e.flow.history ≤ length d.flow.history + n

  unmoved :
      {stopping : Bool} {d : Duo m} (e : Duo m) → e ≡ d → Sound stopping d → Advances stopping d e 1
  unmoved {stopping} {d} e same s =
      subst (λ x. Advances stopping d x 1) (sym same)
        (record { sound = s; seen = refl; grown = omega arith })

  act-Advances :
      (stopping : Bool) (a : Act) (d : Duo m)
      → FitActs k (a ∷ [])
      → length d.flow.history + 2 < word_mod
      → Sound stopping d
      → Advances stopping d (act m c k a d) 1
  act-Advances stopping (sends bytes) d fits room s = elim (Bool-cases d.stopped) [
    | inl over ↦ unmoved (act m c k (sends bytes) d) (act_stopped (sends bytes) d over) s
    | inr on ↦
        let (seen, _, grown) = sent_seen m c k d.flow bytes (call_send m c k bytes d.flow) in
        let e : Duo m = record d { flow = after_send m c k bytes d.flow } in
        subst (λ x. Advances stopping d x 1) (sym (ap (λ b. if b then d else e) on))
          (record {
            sound = record {
              inv = send-Inv m laws reliable c link s.inv bytes fits.0 room;
              known = s.known;
            };
            seen = seen;
            grown = grown;
          })
  ]
  act-Advances stopping stops d fits room s = elim (Bool-cases d.stopped) [
    | inl over ↦ unmoved (act m c k stops d) (act_stopped stops d over) s
    | inr on ↦
        let e : Duo m = record d { stopped = true; waiting = true } in
        subst (λ x. Advances stopping d x 1) (sym (ap (λ b. if b then d else e) on))
          (record {
            sound = record { inv = s.inv; known = Known-both stopping };
            seen = refl;
            grown = omega arith;
          })
  ]

  FitActs-first :
      (a : Act) (rest : List Act) → FitActs k (a ∷ rest) → FitActs k (a ∷ []) × FitActs k rest
  FitActs-first (sends bytes) rest h = ((h.0, tt), h.1)
  FitActs-first stops rest h = (tt, h)

  pub acts-Advances :
      (stopping : Bool) (t : List Act) (d : Duo m)
      → FitActs k t
      → length d.flow.history + length t + 1 < word_mod
      → Sound stopping d
      → Advances stopping d (acts m c k t d) (length t)
  acts-Advances stopping [] d fits room s = record { sound = s; seen = refl; grown = omega arith }
  acts-Advances stopping (a ∷ rest) d fits room s =
      let (first, others) = FitActs-first a rest fits in
      let one = act-Advances stopping a d first (omega arith) s in
      let more =
        acts-Advances stopping rest (act m c k a d) others (omega (arith, one.grown)) one.sound in
      record {
        sound = more.sound;
        seen = more.seen ∙ one.seen;
        grown = omega (arith, one.grown, more.grown);
      }
