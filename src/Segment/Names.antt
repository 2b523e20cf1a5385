-- ===== src/Segment/Names.antt =====
-- `create` and the name of its object, by a contract on every step: what holds after a step that
-- returned, and what holds after one that was refused and cleaned up.
use mpi_rma.Base.{
  ℕ, ◌≡◌, refl, sym, ◌∙◌, Bool, true, false, List, String, ℤ, pos, eqb_ℤ, eqb_ℤ→eq, ltb_ℤ, length,
  Bool-cases, Option-cases, inl, inr, le_bytes,
}
use mpi_rma.Segment.Io.{
  Os, Io, Outcome, done, refused, aborted, panicked, chain, bind, or_abort, or_clean, descriptor,
}
use mpi_rma.Segment.{
  object_size, discard, reserve, map_object, publish, fill, create, header_size, magic,
}

-- The documented effect of the calls on a name. `O_EXCL` refuses a name that exists.
pub record NameLaws (o : Os) (name : String) : Type 0 where
  pub created :
      (w : o.World)
      → ltb_ℤ (o.create_object name w).0 (pos 0) ≡ false
      → (o.present name w ≡ false) × (o.present name (o.create_object name w).1 ≡ true)
  pub not_created :
      (w : o.World)
      → ltb_ℤ (o.create_object name w).0 (pos 0) ≡ true
      → o.present name (o.create_object name w).1 ≡ o.present name w
  pub unlinked :
      (w : o.World)
      → (o.shm_unlink name w).0 ≡ pos 0
      → o.present name (o.shm_unlink name w).1 ≡ false
  pub truncate_keeps :
      (fd : ℤ) (n : ℕ) (w : o.World) → o.present name (o.ftruncate fd n w).1 ≡ o.present name w
  pub reserve_keeps :
      (fd : ℤ) (n : ℕ) (w : o.World)
      → o.present name (o.posix_fallocate fd n w).1 ≡ o.present name w
  pub map_keeps :
      (writable : Bool) (fd : ℤ) (n : ℕ) (w : o.World)
      → o.present name (o.mmap writable fd n w).1 ≡ o.present name w
  pub unmap_keeps :
      (base n : ℕ) (w : o.World) → o.present name (o.munmap base n w).1 ≡ o.present name w
  pub close_keeps : (fd : ℤ) (w : o.World) → o.present name (o.close fd w).1 ≡ o.present name w
  pub store_keeps :
      (base at : ℕ) (xs : List ℕ) (w : o.World)
      → o.present name (o.store base at xs w) ≡ o.present name w

module _ (o : Os) where
  open o use {World}

  -- `P` after a return, `Q` after a refusal. An aborted process promises nothing.
  abbrev pub Ends : {A : Type 0} → (P Q : World → Type 0) → Outcome A × World → Type 0
  Ends P Q (done a, w) = P w
  Ends P Q (refused e, w) = Q w
  Ends P Q (aborted, w) = Unit
  Ends P Q (panicked, w) = Unit

  chain-Ends :
      {A B : Type 0} (P R Q : World → Type 0) (r : Outcome A × World) (k : A → Io o B)
      → Ends P Q r
      → ((a : A) (w : World) → P w → Ends R Q (k a w))
      → Ends R Q (chain o r k)
  chain-Ends P R Q (done a, w) k h step = step a w h
  chain-Ends P R Q (refused e, w) k h step = h
  chain-Ends P R Q (aborted, w) k h step = tt
  chain-Ends P R Q (panicked, w) k h step = tt

  map-Ends :
      {A : Type 0} (P P' Q Q' : World → Type 0) (r : Outcome A × World)
      → ((w : World) → P w → P' w)
      → ((w : World) → Q w → Q' w)
      → Ends P Q r
      → Ends P' Q' r
  map-Ends P P' Q Q' (done a, w) f g h = f w h
  map-Ends P P' Q Q' (refused e, w) f g h = g w h
  map-Ends P P' Q Q' (aborted, w) f g h = tt
  map-Ends P P' Q Q' (panicked, w) f g h = tt

  give-Ends :
      {A : Type 0} (P Q : World → Type 0) (r : Outcome A) (w : World) → P w → Q w → Ends P Q (r, w)
  give-Ends P Q (done a) w p q = p
  give-Ends P Q (refused e) w p q = q
  give-Ends P Q aborted w p q = tt
  give-Ends P Q panicked w p q = tt

  -- A call that keeps `P` keeps it under `or_abort`.
  or_abort-Ends :
      (P Q : World → Type 0) (call : World → ℤ × World) (w : World)
      → (eqb_ℤ (call w).0 (pos 0) ≡ true → P (call w).1)
      → Ends P Q (or_abort o call w)
  or_abort-Ends P Q call w h = elim (Bool-cases (eqb_ℤ (call w).0 (pos 0))) [
    | inl good ↦ rw good (h good)
    | inr bad ↦ rw bad tt
  ]

  or_clean-Ends :
      (P Q : World → Type 0) (call : World → ℤ × World) (cleanup : Io o (Unit {0})) (w : World)
      → P (call w).1
      → ((w' : World) → P w' → Ends Q Q (cleanup w'))
      → Ends P Q (or_clean o call cleanup w)
  or_clean-Ends P Q call cleanup w h clean = elim (Bool-cases (eqb_ℤ (call w).0 (pos 0))) [
    | inl good ↦ rw good h
    | inr bad ↦ rw bad (chain-Ends Q P Q (cleanup (call w).1) _ (clean (call w).1 h) (λ a w' q. q))
  ]

  module _ (name : String) (laws : NameLaws o name) where
    abbrev Here : World → Type 0
    Here w = o.present name w ≡ true

    abbrev Gone : World → Type 0
    Gone w = o.present name w ≡ false

    unlink-Ends : (w : World) → Ends Gone Gone (or_abort o (o.shm_unlink name) w)
    unlink-Ends w =
        or_abort-Ends Gone Gone (o.shm_unlink name) w
          (λ e. laws.unlinked w (eqb_ℤ→eq (o.shm_unlink name w).0 (pos 0) e))

    discard-Ends : (fd : ℤ) (w : World) → Here w → Ends Gone Gone (discard o name fd w)
    discard-Ends fd w h =
        chain-Ends Here Gone Gone (or_abort o (o.close fd) w) _
          (or_abort-Ends Here Gone (o.close fd) w (λ e. laws.close_keeps fd w ∙ h))
          (λ a w' h'. unlink-Ends w')

    reserve-Ends : (fd : ℤ) (n : ℕ) (w : World) → Here w → Ends Here Gone (reserve o name fd n w)
    unfolding reserve
    reserve-Ends fd n w h =
        let after = (o.posix_fallocate fd n w).1 in
        let h' = laws.reserve_keeps fd n w ∙ h in
        elim (Bool-cases (eqb_ℤ (o.posix_fallocate fd n w).0 (pos 0))) [
          | inl good ↦ rw good h'
          | inr bad ↦ rw bad (
              chain-Ends Gone Here Gone (discard o name fd after) _ (discard-Ends fd after h')
                (λ a w' q. q))
        ]

    object-Ends :
        (fd : ℤ) (n : ℕ) (w : World)
        → Here w
        → Ends Here Gone (map_object o true fd n (discard o name fd) w)
    unfolding map_object
    object-Ends fd n w h =
        let after = (o.mmap true fd n w).1 in
        let h' = laws.map_keeps true fd n w ∙ h in
        elim (Option-cases (o.mmap true fd n w).0) [
          | inl missing ↦
              rw (missing, map_object)
                (chain-Ends Gone Here Gone (discard o name fd after) _ (discard-Ends fd after h')
                  (λ a w' q. q))
          | inr (base, found) ↦ rw (found, map_object) h'
        ]

    unmap-Ends :
        (base n : ℕ) (w : World)
        → Here w
        → Ends Gone Gone
            (bind o (or_abort o (o.munmap base n)) (λ _. or_abort o (o.shm_unlink name)) w)
    unmap-Ends base n w h =
        chain-Ends Here Gone Gone (or_abort o (o.munmap base n) w) _
          (or_abort-Ends Here Gone (o.munmap base n) w (λ e. laws.unmap_keeps base n w ∙ h))
          (λ a w' h'. unlink-Ends w')

    publish-Here :
        (base revision : ℕ) (payload : List ℕ) (w : World)
        → Here w
        → Here (publish o base revision payload w)
    unfolding publish
    publish-Here base revision payload w h =
        laws.store_keeps base 16 (le_bytes 8 revision) _
        ∙ (laws.store_keeps base header_size payload _
            ∙ (laws.store_keeps base 8 (le_bytes 8 (length payload)) _
                ∙ (laws.store_keeps base 0 magic w ∙ h)))

    fill-Ends :
        (fd : ℤ) (n revision : ℕ) (payload : List ℕ) (w : World)
        → Here w
        → Ends Here Gone (fill o name fd n revision payload w)
    unfolding fill
    fill-Ends fd n revision payload w h =
        chain-Ends Here Here Gone _ _
          (or_clean-Ends Here Gone (o.ftruncate fd n) (discard o name fd) w
            (laws.truncate_keeps fd n w ∙ h) (discard-Ends fd))
          (λ _ w1 h1. chain-Ends Here Here Gone _ _ (reserve-Ends fd n w1 h1) (λ _ w2 h2.
            chain-Ends Here Here Gone _ _ (object-Ends fd n w2 h2) (λ base w3 h3.
              chain-Ends Here Here Gone _ _
                (or_clean-Ends Here Gone (o.close fd) _ w3 (laws.close_keeps fd w3 ∙ h3)
                  (unmap-Ends base n))
                (λ _ w4 h4. publish-Here base revision payload w4 h4))))

    opened-Ends :
        (w0 w : World)
        → o.present name w ≡ o.present name w0
        → Ends
            (λ w'. (o.present name w0 ≡ false) × Here w')
            (λ w'. o.present name w' ≡ o.present name w0)
            (descriptor o (o.create_object name) w)
    opened-Ends w0 w same = elim (Bool-cases (ltb_ℤ (o.create_object name w).0 (pos 0))) [
      | inl failed ↦ rw failed (laws.not_created w failed ∙ same)
      | inr fine ↦ let (fresh, made) = laws.created w fine in rw fine (sym same ∙ fresh, made)
    ]

    -- A create that returns `Ok` has made a name that did not exist, and one that is refused, at
    -- whatever call, leaves the name as it was: it removes the object that it made, and no other.
    pub create_name :
        (revision : ℕ) (payload : List ℕ) (w : World)
        → Ends
            (λ w'. (o.present name w ≡ false) × (o.present name w' ≡ true))
            (λ w'. o.present name w' ≡ o.present name w)
            (create o name revision payload w)
    unfolding create object_size
    create_name revision payload w =
        let Same : World → Type 0 = λ w'. o.present name w' ≡ o.present name w in
        let Made : World → Type 0 = λ w'. (o.present name w ≡ false) × Here w' in
        chain-Ends Same Made Same (object_size (length payload), w) _
          (give-Ends Same Same (object_size (length payload)) w refl refl)
          (λ size w1 same.
            chain-Ends Made Made Same (descriptor o (o.create_object name) w1) _
              (opened-Ends w w1 same)
              (λ fd w2 made.
                map-Ends Here Made Gone Same (fill o name fd size revision payload w2)
                  (λ w' here. (made.0, here)) (λ w' gone. gone ∙ sym made.0)
                  (fill-Ends fd size revision payload w2 made.1)))
