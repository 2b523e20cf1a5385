-- ===== src/Tests/Layouts.antt =====
-- A ring of two ranks with a lane each way.
use mpi_rma.Base.{◌<◌, none, some, get_elem?, arith, refl, ◌≡◌, List, [], ◌∷◌, pos}
use mpi_rma.Error.{ok, err, ring}
use mpi_rma.Ring.Layout.{Tables, layout, place, measure, has_repeat, check_specs, check_spec}
use mpi_rma.Ring.Types.{Lane}
use mpi_rma.Ring.Regions.{IsPlaced}
use mpi_rma.Ring.Layout.Placement.{LaidOut, layout-LaidOut}
use mpi_rma.Ring.Layout.Linked.{layout_links}
use mpi_rma.Ring.Layout.Sorting.{Spec, sort_specs}
use mpi_rma.Ring.Layout.Agreement.{InStep, layout-InStep}

abbrev pub config : List Spec
config =
    record { source = pos 1; destination = pos 0; depth = 2; capacity = 4 }
    ∷ record { source = pos 0; destination = pos 1; depth = 3; capacity = 8 }
    ∷ []

layout-InStep_example :
    InStep 2 0 1 (layout 2 0 (sort_specs config)) (layout 2 1 (sort_specs config))
layout-InStep_example = layout-InStep 2 0 1 (omega arith) (omega arith) (sort_specs config)

config_refused :
    layout 2 0 (record { source = pos 1; destination = pos 1; depth = 2; capacity = 4 } ∷ [])
    ≡ err (ring "self lanes are not transport")
unfolding layout has_repeat check_specs check_spec
config_refused = refl

abbrev pub forth : Lane
forth = record { offset = 0; depth = 3; capacity = 8; slot = 36; ack = 0 }

abbrev pub back : Lane
back = record { offset = 0; depth = 2; capacity = 4; slot = 32; ack = 0 }

abbrev pub sender : Tables
sender = record {
  lengths = 64 ∷ 108 ∷ [];
  ack_lengths = 1 ∷ 1 ∷ [];
  to = none ∷ some forth ∷ [];
  from = none ∷ some back ∷ [];
}

abbrev pub receiver : Tables
receiver = record {
  lengths = 64 ∷ 108 ∷ [];
  ack_lengths = 1 ∷ 1 ∷ [];
  to = some back ∷ none ∷ [];
  from = some forth ∷ none ∷ [];
}

pub sender_accepted : layout 2 0 (sort_specs config) ≡ ok sender
unfolding layout sort_specs place measure
sender_accepted = refl

pub receiver_accepted : layout 2 1 (sort_specs config) ≡ ok receiver
unfolding layout sort_specs place measure
receiver_accepted = refl

layout-LaidOut_example : LaidOut 0 sender
layout-LaidOut_example = layout-LaidOut 2 0 (sort_specs config) sender (omega arith) sender_accepted

layout_links_example :
    (get_elem? receiver.from 0 ≡ some (some forth)) × IsPlaced forth 108 × (forth.ack < 1)
layout_links_example =
    layout_links 2 0 1 (omega arith) (omega arith) (sort_specs config) sender receiver
      sender_accepted receiver_accepted forth 108 1 refl refl refl (omega arith)
