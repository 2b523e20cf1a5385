-- ===== src/Ring/Construct.antt =====
-- src/ring.rs: `new` and `agree`, the accessors of a lane, and `close`.
pub mod Rows
pub mod Agreed
use mpi_rma.Base.{
  ℕ, zero, suc, Bool, true, false, not, ◌&&◌, ◌||◌, Option, none, some, List, [], ◌∷◌, ℤ, as_usize,
}
use mpi_rma.Base.{length, get_elem?, take, drop, replicate, ltb, ◌==◌, if◌then◌else◌}
use mpi_rma.Error.{Error, Result, ok, err, panic, guard, ring, or_panic, intercommunicator}
use mpi_rma.Action.{Action, and_then, pure, lift, ◌>>=◌, ◌>>◌}
use mpi_rma.Mpi.{Mpi, Comm}
use mpi_rma.Window
use mpi_rma.Window.{Window, MemoryModel, unified, separate, drop_window}
use mpi_rma.Window.Allocate.{byte, long, to_usize, allocate}
use mpi_rma.Ring.Types.{Outgoing, Mutex, Ring}
use mpi_rma.Ring.Send.{peer}
use mpi_rma.Ring.Layout.{Tables, layout, origins_of}
use mpi_rma.Ring.Layout.Sorting.{Spec, sort_specs, sort_ranks}

abbrev pub is_unified : MemoryModel → Bool
is_unified unified = true
is_unified separate = false

-- `a == b` of two slices.
unfoldable pub same_words : List ℕ → List ℕ → Bool
same_words [] [] = true
same_words [] (y ∷ ys) = false
same_words (x ∷ xs) [] = false
same_words (x ∷ xs) (y ∷ ys) = x == y && same_words xs ys

unfoldable pub any_other : ℕ → List ℕ → Bool
any_other n [] = false
any_other n (c ∷ cs) = not (c == n) || any_other n cs

-- `chunks_exact` over at most `left` rows: one that differs from this rank's own. A gathering has a
-- row for each rank.
unfoldable pub any_row_other : (left : ℕ) → List ℕ → List ℕ → Bool
unfolding same_words
any_row_other zero local all = false
any_row_other (suc left) local all =
    if ltb (length all) (length local)
    then false
    else not (same_words (take (length local) all) local)
      || any_row_other left local (drop (length local) all)

-- A lane list as the words that `agree` compares.
unfoldable pub words_of : List Spec → List ℕ
words_of [] = []
words_of (s ∷ rest) =
    as_usize s.source ∷ as_usize s.destination ∷ s.depth ∷ s.capacity ∷ words_of rest

abbrev pub flag : Bool → ℕ
flag true = 1
flag false = 0

abbrev pub fresh_sender : Mutex Outgoing
fresh_sender = record { poisoned = false; value = record { sent = 0; acked = 0; image = [] } }

unfoldable pub depth : Ring → ℤ → Option ℕ
unfolding peer
depth r destination = elim (peer r destination) [
  | ok i ↦ elim (get_elem? r.to i) [
    | some (some lane) ↦ some lane.depth
    | some none ↦ none
    | none ↦ none
  ]
  | err e ↦ none
  | panic ↦ none
]

unfoldable pub capacity : Ring → ℤ → Option ℕ
unfolding peer
capacity r destination = elim (peer r destination) [
  | ok i ↦ elim (get_elem? r.to i) [
    | some (some lane) ↦ some lane.capacity
    | some none ↦ none
    | none ↦ none
  ]
  | err e ↦ none
  | panic ↦ none
]

module _ (m : Mpi) where
  open m use {World}

  abbrev pub gather : Comm → List ℕ → Action World (List ℕ)
  gather comm xs w = let r = m.all_gather comm xs w in (ok r.0, r.1)

  unfoldable pub agree : Comm → Bool → List Spec → Action World (Unit {0})
  unfolding any_other any_row_other words_of
  agree comm safe config = do
    ranks ← lift (to_usize comm.size)
    counts ← gather comm (length config ∷ [])
    lift (
        guard (not (any_other (length config) counts)) (ring "configuration differs between ranks"))
    let local = flag safe ∷ words_of config
    all ← gather comm local
    lift (guard (not (any_row_other ranks local all)) (ring "configuration differs between ranks"))

  -- A constructor that fails drops the windows that it holds.
  abbrev pub or_drop {ℓ} : {A : Type ℓ} → Window → Result A × World → Result A × World
  or_drop s (ok a, w) = (ok a, w)
  or_drop s (err e, w) = (err e, drop_window m s w)
  or_drop s (panic, w) = (panic, drop_window m s w)

  -- The counter window of a safe ring.
  abbrev pub counters : Comm → Bool → Option ℕ → Action World (Option Window)
  unfolding allocate
  counters comm true len =
      lift (or_panic len) >>= λ n. allocate m comm long n >>= λ s. pure (some s)
  counters comm false len = pure none

  abbrev pub all_unified : Window → Option Window → Bool
  all_unified slots none = is_unified slots.model
  all_unified slots (some acks) = is_unified slots.model && is_unified acks.model

  unfoldable pub has_zero : List ℕ → Bool
  has_zero [] = false
  has_zero (x ∷ xs) = x == 0 || has_zero xs

  -- The gathering of the memory models; a refusal drops the counters.
  abbrev pub models_agree : Comm → Window → Option Window → Action World (Unit {0})
  unfolding has_zero
  models_agree comm slots acks w =
      and_then (gather comm (flag (all_unified slots acks) ∷ []) w) (λ models w'.
        if has_zero models
        then (
          err (Error.window "local ring access requires unified memory"),
          elim acks [ none ↦ w' | some a ↦ drop_window m a w' ],
        )
        else (ok tt, w'))

  abbrev ready : Comm → ℕ → List Spec → Tables → Window → Option Window → Ring
  ready comm ranks config t slots acks = record {
    slots = slots;
    acks = acks;
    ranks = ranks;
    to = t.to;
    from = t.from;
    incoming = sort_ranks (origins_of comm.rank config);
    sent = replicate ranks fresh_sender;
    seen = record { poisoned = false; value = replicate ranks 0 };
    acked = record { poisoned = false; value = replicate ranks 0 };
    lost = 0;
    corrupt = 0;
    max_lag = 0;
    full = 0;
  }

  -- `new` once the slots are allocated.
  unfoldable pub finish_ring :
      Comm → (ranks me : ℕ) → Bool → List Spec → Tables → Window → Action World Ring
  finish_ring comm ranks me safe config t slots w = or_drop slots (
      and_then (counters comm safe (get_elem? t.ack_lengths me) w) (λ acks w1.
        and_then (models_agree comm slots acks w1)
          (λ _ w2. (ok (ready comm ranks config t slots acks), w2))))

  unfoldable pub new : Comm → List Spec → Bool → Action World Ring
  unfolding agree layout allocate finish_ring sort_specs
  new comm rings safe = do
    lift (guard (not comm.inter) intercommunicator)
    ranks ← lift (to_usize comm.size)
    me ← lift (to_usize comm.rank)
    let config = sort_specs rings
    agree comm safe config
    t ← lift (layout ranks me config)
    len ← lift (or_panic (get_elem? t.lengths me))
    slots ← allocate m comm byte len
    finish_ring comm ranks me safe config t slots

  abbrev both : Result (Unit {0}) → Result (Unit {0}) × World → Result (Unit {0}) × World
  both (ok _) (second, w) = (second, w)
  both (err e) (second, w) = (err e, w)
  both panic (second, w) = (panic, w)

  -- Both windows are closed, whatever the first close returns; the first error is the result.
  unfoldable pub close : Ring → World → Result (Unit {0}) × World
  close r w =
      let first = Window.close m r.slots w in
      both first.0
        (elim r.acks [ none ↦ (ok tt, first.1) | some acks ↦ Window.close m acks first.1 ])
