-- ===== src/Noise.antt =====
-- `noise` of examples/soak.rs and of examples/compare.rs: the background ping-pong of two ranks on
-- tagged messages. The two functions differ in the rank that the pairs are counted from. A message
-- that was sent waits in a queue of its direction, and messages of one direction arrive in the
-- order sent. MPI leaves open when a standard send returns: at any time from then until its message
-- is received. The model takes every such choice. One turn is a send's start, its return, or a
-- receive.
pub mod Ending
use mpi_rma.Base.{
  ℕ, zero, suc, ◌+◌, ◌-◌, ◌*◌, ◌%◌, ◌≤◌, ◌<◌, ◌≡◌, Bool, true, false, Option, none, some, List, [],
  ◌∷◌, ◌++◌, replicate, ltb, ◌==◌, if◌then◌else◌,
}

abbrev pub tag_noise : ℕ
tag_noise = 11

-- `TAG_STOP` of the one and `TAG_QUIT` of the other.
abbrev pub tag_stop : ℕ
tag_stop = 12

pub record Packet : Type 0 where
  pub tag : ℕ
  pub bytes : List ℕ

-- The partner of a rank, where the pairs are (first, first + 1), (first + 2, first + 3), ...
unfoldable pub partner : (first rank : ℕ) → ℕ
partner first rank = if (rank - first) % 2 == 0 then rank + 1 else rank - 1

-- `partner >= world.size()`: this rank is the last of an odd number.
unfoldable pub has_partner : (first rank size : ℕ) → Bool
unfolding partner
has_partner first rank size = ltb (partner first rank) size

-- Where the lower rank is: before it reads the flag, in its send, at its receive, in its last send,
-- or returned.
pub data Lower : Type 0 where
  deciding sending awaiting stopping stopped : Lower

-- The higher rank: at its receive, before its answer, in its send of it, or returned.
pub data Higher : Type 0 where
  listening answering replying left : Higher

pub record Pair : Type 0 where
  pub lower : Lower
  pub higher : Higher
  pub to_higher : List Packet
  pub to_lower : List Packet
  pub stop : Bool

-- `receive_vec_with_tag`: the first message with the tag.
unfoldable pub take_tagged : ℕ → List Packet → Option (List Packet)
take_tagged tag [] = none
take_tagged tag (p ∷ ps) = elim (p.tag == tag) [
  | true ↦ some ps
  | false ↦ elim (take_tagged tag ps) [ none ↦ none | some rest ↦ some (p ∷ rest) ]
]

-- A send that has put its message in the queue: it returns once the message was received, and
-- before that if the library lets it (`early`).
unfoldable pub send_returns : (early : Bool) → (queue : List Packet) → Pair → Option Pair
send_returns early [] s = some s
send_returns early (p ∷ ps) s = if early then some s else none

module _ (kib : ℕ) (lower_early higher_early : Pair → Bool) where
  abbrev pub noise_packet : Packet
  noise_packet = record { tag = tag_noise; bytes = replicate (kib * 1024) 0xA5 }

  abbrev pub stop_packet : Packet
  stop_packet = record { tag = tag_stop; bytes = 0 ∷ [] }

  -- `none` is a rank that waits for a message, or for its send, or has returned.
  unfoldable pub lower_turn : Lower → Pair → Option Pair
  unfolding take_tagged send_returns
  lower_turn deciding s =
      if s.stop
      then some (record s { lower = stopping; to_higher = s.to_higher ++ stop_packet ∷ [] })
      else some (record s { lower = sending; to_higher = s.to_higher ++ noise_packet ∷ [] })
  lower_turn sending s = send_returns (lower_early s) s.to_higher (record s { lower = awaiting })
  lower_turn awaiting s = elim (take_tagged tag_noise s.to_lower) [
    | none ↦ none
    | some rest ↦ some (record s { lower = deciding; to_lower = rest })
  ]
  lower_turn stopping s = send_returns (lower_early s) s.to_higher (record s { lower = stopped })
  lower_turn stopped s = none

  unfoldable pub heard : List Packet → Pair → Option Pair
  heard [] s = none
  heard (p ∷ ps) s =
      if p.tag == tag_stop
      then some (record s { higher = left; to_higher = ps })
      else some (record s { higher = answering; to_higher = ps })

  unfoldable pub higher_turn : Higher → Pair → Option Pair
  unfolding heard send_returns
  higher_turn listening s = heard s.to_higher s
  higher_turn answering s =
      some (record s { higher = replying; to_lower = s.to_lower ++ noise_packet ∷ [] })
  higher_turn replying s =
      send_returns (higher_early s) s.to_lower (record s { higher = listening })
  higher_turn left s = none

  -- A turn of one of them.
  pub data Turn (s t : Pair) : Type 0 where
    lower_moves : lower_turn s.lower s ≡ some t → Turn s t
    higher_moves : higher_turn s.higher s ≡ some t → Turn s t

  -- What happens to a pair: turns, and the flag that another thread sets.
  pub data Event (s t : Pair) : Type 0 where
    turns : Turn s t → Event s t
    flagged : t ≡ record s { stop = true } → Event s t

  pub data Events (s : Pair) : Pair → Type 0 where
    nothing : Events s s
    then_event : {t u : Pair} → Events s t → Event t u → Events s u

  -- `n` turns.
  pub data Turns (s : Pair) : ℕ → Pair → Type 0 where
    none_yet : Turns s 0 s
    then_turn : {n : ℕ} {t u : Pair} → Turns s n t → Turn t u → Turns s (suc n) u

abbrev pub first_state : Pair
first_state = record {
  lower = deciding;
  higher = listening;
  to_higher = [];
  to_lower = [];
  stop = false;
}

-- Both have returned, and no message is left behind.
abbrev pub IsOver : Pair → Type 0
IsOver s = (s.lower ≡ stopped) × (s.higher ≡ left) × (s.to_higher ≡ []) × (s.to_lower ≡ [])
