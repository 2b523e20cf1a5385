-- ===== src/Tests/Segments.antt =====
-- A system with room for one object, and the life of a segment on it.
use mpi_rma.Base.{
  ℕ, ◌≢◌, ◌≡◌, ◌⊎◌, refl, arith, Bool, true, false, some, none, List, [], ◌∷◌, pos, negsuc,
  replicate, overwrite, length, le_bytes, from_le, if◌then◌else◌,
}
use mpi_rma.Segment.Io.{Os, Outcome, done, refused, os}
use mpi_rma.Segment.{
  Segment, recognise, publish, create, object_size, fill, reserve, map_object, open_segment,
  measured, confirm, payload, detach, retire,
}
use mpi_rma.Segment.Names.{NameLaws, Ends, create_name}
use mpi_rma.Segment.Lifecycle.{Unmapped, retire_settles}

-- Whether the object exists, and its bytes.
record Shelf : Type 0 where
  taken : Bool
  bytes : List ℕ

abbrev shelf : Os
shelf = record {
  World = Shelf;
  create_object =
      λ name w. if w.taken then (negsuc 0, w) else (pos 3, record { taken = true; bytes = [] });
  open_object = λ name w. if w.taken then (pos 3, w) else (negsuc 0, w);
  ftruncate = λ fd size w. (pos 0, record w { bytes = replicate size 0 });
  posix_fallocate = λ fd size w. (pos 0, w);
  fstat = λ fd w. (pos 0, pos (length w.bytes), w);
  mmap = λ writable fd size w. (some 4096, w);
  munmap = λ base size w. (pos 0, w);
  close = λ fd w. (pos 0, w);
  shm_unlink = λ name w. (pos 0, record w { taken = false });
  errno = λ w. pos 17;
  mapped = λ base w. w.bytes;
  store = λ base at xs w. record w { bytes = overwrite w.bytes at xs };
  present = λ name w. w.taken;
}

shelf-NameLaws : NameLaws shelf "/a"
shelf-NameLaws = record {
  created = λ w e. ground arith;
  not_created = λ w e. ground arith;
  unlinked = λ w e. refl;
  truncate_keeps = λ fd n w. refl;
  reserve_keeps = λ fd n w. refl;
  map_keeps = λ writable fd n w. refl;
  unmap_keeps = λ base n w. refl;
  close_keeps = λ fd w. refl;
  store_keeps = λ base at xs w. refl;
}

abbrev empty : Shelf
empty = record { taken = false; bytes = [] }

create_name_example :
    Ends shelf {A = Segment}
      (λ w'. (false ≡ false) × (w'.taken ≡ true))
      (λ w'. w'.taken ≡ false)
      (create shelf "/a" 5 (7 ∷ 8 ∷ []) empty)
create_name_example = create_name shelf "/a" shelf-NameLaws 5 (7 ∷ 8 ∷ []) empty

-- A created segment's payload, read by another process.
abbrev made : Outcome Segment × Shelf
made = create shelf "/a" 5 (7 ∷ 8 ∷ []) empty

abbrev mapping : ℕ → Bool → Segment
mapping size owner = record {
  base = some 4096;
  size = size;
  name = "/a";
  owner = owner;
  failed = none;
}

made_ok : made.0 ≡ done (mapping 66 true)
unfolding create object_size fill reserve map_object
made_ok = refl

opened_ok : (open_segment shelf "/a" 5 2 made.1).0 ≡ done (mapping 66 false)
unfolding create object_size fill reserve map_object open_segment measured confirm publish le_bytes
    recognise from_le
opened_ok = refl

opened_payload : payload shelf (mapping 66 false) made.1 ≡ done (7 ∷ 8 ∷ [])
unfolding create object_size fill reserve map_object publish le_bytes payload
opened_payload = refl

-- The name is taken.
made_again : (create shelf "/a" 6 [] made.1).0 ≡ refused (os (pos 17))
unfolding create object_size fill reserve map_object publish
made_again = refl

abbrev owned : Segment
owned = mapping 66 true

abbrev full_shelf : Shelf
full_shelf = record { taken = true; bytes = replicate 66 0 }

owned_retired : (retire shelf owned full_shelf).0 ≡ done tt
unfolding retire detach
owned_retired = refl

retire_settles_example :
    let r = retire shelf owned full_shelf in
    ((w1 : Shelf) × Unmapped shelf (some 4096) 66 full_shelf w1
      × ((shelf.shm_unlink "/a" w1).0 ≡ pos 0)
      × (r.2 ≡ (shelf.shm_unlink "/a" w1).1)
      × (r.2.taken ≡ false)
      × (r.0 ≡ done tt)
      × (r.1 ≡ record owned { base = none; owner = false }))
    ⊎ (((b : ℕ) × (owned.base ≡ some b)
          × ((shelf.munmap b 66 full_shelf).0 ≢ pos 0)
          × (r.2 ≡ (shelf.munmap b 66 full_shelf).1)
          × (r.2.taken ≡ true)
          × (r.0 ≡ refused (os (shelf.errno r.2)))
          × (r.1 ≡ record owned { failed = some ("munmap", shelf.errno r.2) }))
        ⊎ ((w1 : Shelf) × Unmapped shelf (some 4096) 66 full_shelf w1
            × ((shelf.shm_unlink "/a" w1).0 ≢ pos 0)
            × (r.2 ≡ (shelf.shm_unlink "/a" w1).1)
            × (r.0 ≡ refused (os (shelf.errno r.2)))
            × (r.1 ≡ record owned { base = none; failed = some ("shm_unlink", shelf.errno r.2) })))
retire_settles_example = retire_settles shelf owned full_shelf shelf-NameLaws refl refl

abbrev broken_one : Segment
broken_one = record owned { failed = some ("munmap", pos 22) }
