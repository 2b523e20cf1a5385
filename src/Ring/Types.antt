-- ===== src/Ring/Types.antt =====
-- src/ring.rs: the constants, the message, the lane, the sender's state and the ring itself. The
-- atomics and the fields behind a mutex are plain fields; a mutex also says if it is poisoned.
use mpi_rma.Base.{ℕ, ◌+◌, ◌*◌, Bool, true, false, Option, none, some, List, ℤ}
use mpi_rma.Error.{Result, ok, err, Error, is_panic}
use mpi_rma.Window.{Window}

abbrev pub word : ℕ
word = 8

abbrev pub checksum_size : ℕ
checksum_size = 4

abbrev pub header : ℕ
header = 2 * word + checksum_size

pub record Message : Type 0 where
  pub origin : ℤ
  pub sequence : ℕ
  pub bytes : List ℕ

pub record Lane : Type 0 where
  pub offset : ℕ
  pub depth : ℕ
  pub capacity : ℕ
  pub slot : ℕ
  pub ack : ℕ

pub record Frame : Type 0 where
  pub sequence : ℕ
  pub bytes : List ℕ

pub record Outgoing : Type 0 where
  pub sent : ℕ
  pub acked : ℕ
  pub image : List ℕ

pub record Mutex {ℓ} (A : Type ℓ) : Type ℓ where
  pub poisoned : Bool
  pub value : A

-- `lock().map_err(…)?`
abbrev pub lock {ℓ} : {A : Type ℓ} → Mutex A → Error → Result A
lock m e = elim m.poisoned [ true ↦ err e | false ↦ ok m.value ]

-- The mutex after a call that held it, from the call's result and what it left behind.
abbrev pub unlock {ℓ κ} : {A : Type ℓ} {B : Type κ} → Result B → A → Mutex A
unlock res a = record { poisoned = is_panic res; value = a }

pub record Ring : Type 0 where
  pub slots : Window
  pub acks : Option Window
  pub ranks : ℕ
  pub to : List (Option Lane)
  pub from : List (Option Lane)
  pub incoming : List ℤ
  pub sent : List (Mutex Outgoing)
  pub seen : Mutex (List ℕ)
  pub acked : Mutex (List ℕ)
  pub lost : ℕ
  pub corrupt : ℕ
  pub max_lag : ℕ
  pub full : ℕ

abbrev pub is_some {ℓ} : {A : Type ℓ} → Option A → Bool
is_some none = false
is_some (some a) = true

unfoldable pub is_safe : Ring → Bool
is_safe r = is_some r.acks
