-- ===== src/Segment/Opened.antt =====
-- `open` of what another process created.
use mpi_rma.Base.{
  ℕ, ◌+◌, ◌≤◌, ◌<◌, ◌≡◌, sym, ◌∙◌, ap, arith, Bool, true, some, List, String, ℤ, pos, eqb_ℤ, length,
  slice, length-overwrite, le_bytes, word_mod, Bool-cases, inl, inr, i64_max,
}
use mathlib.Core.Path.{subst}
use mpi_rma.Segment.Io.{Os, Io, Outcome, done, refused, bind, or_abort, or_clean}
use mpi_rma.Segment.{
  Segment, header_size, discard, reserve, publish, fill, create, recognise, published,
}
use mpi_rma.Segment.Contents.{StoreLaws, layered, mapped-publish, recognise-publish}
use mpi_rma.Segment.Shared.{
  SharedLaws, object_size-inv, chain-inv, or_clean-inv, descriptor-inv, map_object-inv,
}

module _ (o : Os) (name : String) (stores : StoreLaws o) (laws : SharedLaws o name) where
  open laws use {object, holds, backs}

  -- The object is what `create` publishes under a revision for a payload.
  pub record Publishes (revision : ℕ) (bytes : List ℕ) (w : o.World) : Type 0 where
    pub room : header_size + length bytes ≤ i64_max
    pub size : length (object w) ≡ header_size + length bytes
    pub recognised : recognise revision (length bytes) (object w) ≡ done tt
    pub content : slice header_size (length bytes) (object w) ≡ bytes

  reserve-inv :
      (fd : ℤ) (size : ℕ) (w w' : o.World)
      → reserve o name fd size w ≡ (done tt, w')
      → w' ≡ (o.posix_fallocate fd size w).1
  unfolding reserve
  reserve-inv fd size w w' e =
      let after = (o.posix_fallocate fd size w).1 in
      elim (Bool-cases (eqb_ℤ (o.posix_fallocate fd size w).0 (pos 0))) [
        | inl good ↦ sym (ap (λ t. t.1) (rw good at e))
        | inr bad ↦
            let (u, w1, _, last) = chain-inv o (discard o name fd after) _ tt w' (rw bad at e) in
            let no : ◌≡◌ {A = Outcome (Unit {0})} (refused _) (done tt) = ap (λ t. t.0) last in cc
      ]

  length-layered :
      (bytes : List ℕ) (revision : ℕ) (content : List ℕ)
      → length (layered bytes revision content) ≡ length bytes
  length-layered bytes revision content =
      length-overwrite _ 16 (le_bytes 8 revision)
      ∙ length-overwrite _ header_size content
      ∙ length-overwrite _ 8 (le_bytes 8 (length content))
      ∙ length-overwrite bytes 0 _

  publish-backs :
      (base revision : ℕ) (content : List ℕ) (w : o.World)
      → backs base w
      → backs base (publish o base revision content w)
  unfolding publish
  publish-backs base revision content w h = laws.store_backs base 16 _ _ (
      laws.store_backs base header_size content _
        (laws.store_backs base 8 _ _ (laws.store_backs base 0 _ w h)))

  -- The stores through a mapping of an object of the right size.
  publish-Publishes :
      (base revision : ℕ) (content : List ℕ) (w : o.World)
      → backs base w
      → length (object w) ≡ header_size + length content
      → revision < word_mod
      → header_size + length content ≤ i64_max
      → Publishes revision content (publish o base revision content w)
  publish-Publishes base revision content w there whole small room =
      let shown = laws.shows base w there in
      let whole' = ap length shown ∙ whole in
      let now = laws.shows base _ (publish-backs base revision content w there) in
      let (known, kept) =
        recognise-publish o stores base revision content w whole' small (omega arith) in
      let sized =
        ap length (mapped-publish o stores base revision content w whole')
        ∙ length-layered (o.mapped base w) revision content
        ∙ whole' in
      record {
        room = room;
        size = rw now at sized;
        recognised = rw now at known;
        content = rw now at kept;
      }

  -- The mapping of the whole object.
  pub mapped_whole :
      (writable : Bool) (fd : ℤ) (size base : ℕ) (w w' : o.World)
      → holds fd w
      → length (object w) ≡ size
      → (o.mmap writable fd size w).0 ≡ some base
      → w' ≡ (o.mmap writable fd size w).1
      → backs base w' × (object w' ≡ object w)
  mapped_whole writable fd size base w w' held long found same =
      let (there, kept) =
        laws.mapped_to writable fd base w held
          (ap (λ n. (o.mmap writable fd n w).0) long ∙ found) in
      let after = ap (λ n. (o.mmap writable fd n w).1) long ∙ sym same in
      (subst (backs base) after there, ap object (sym after) ∙ kept)

  module _ (revision : ℕ) (bytes : List ℕ) (small : revision < word_mod)
      (room : header_size + length bytes ≤ i64_max) where
    fill-Publishes :
        (fd : ℤ) (size : ℕ) (w w' : o.World) (s : Segment)
        → holds fd w
        → size ≡ header_size + length bytes
        → fill o name fd size revision bytes w ≡ (done s, w')
        → Publishes revision bytes w'
    unfolding fill
    fill-Publishes fd size w w' s held sized e =
        let (u1, w1, cut, e1) = chain-inv o _ _ s w' e in
        let (zero1, same1) = or_clean-inv o (o.ftruncate fd size) (discard o name fd) w w1 cut in
        let (held1, long1) = laws.truncated fd size w held zero1 in
        let (u2, w2, kept, e2) = chain-inv o _ _ s w' e1 in
        let same2 = reserve-inv fd size w1 w2 kept in
        let (held2, same_bytes) = laws.reserved fd size w1 (subst (holds fd) (sym same1) held1) in
        let long2 : length (object w2) ≡ size =
          ap (λ x. length (object x)) same2
          ∙ ap length same_bytes
          ∙ ap (λ x. length (object x)) same1
          ∙ long1 in
        let (base, w3, mapping, e3) = chain-inv o _ _ s w' e2 in
        let (found, same3) = map_object-inv o true fd size base (discard o name fd) w2 w3 mapping in
        let (there3, bytes3) =
          mapped_whole true fd size base w2 w3 (subst (holds fd) (sym same2) held2) long2 found
            same3 in
        let undo : Io o (Unit {0}) =
          bind o (or_abort o (o.munmap base size)) (λ _. or_abort o (o.shm_unlink name)) in
        let (u4, w4, shut, e4) =
          chain-inv o (or_clean o (o.close fd) undo w3)
            (λ _. published o name size base revision bytes) s w' e3 in
        let (zero4, same4) = or_clean-inv o (o.close fd) undo w3 w4 shut in
        let (there4, bytes4) = laws.closed fd base w3 there3 in
        let long4 : length (object w4) ≡ header_size + length bytes =
          ap (λ x. length (object x)) same4 ∙ ap length (bytes4 ∙ bytes3) ∙ long2 ∙ sized in
        subst (Publishes revision bytes) (ap (λ t. t.1) e4) (
          publish-Publishes base revision bytes w4 (subst (backs base) (sym same4) there4) long4
            small room)

  -- A create that returns `Ok` leaves an object with the header of its revision and the payload.
  pub create-Publishes :
      (revision : ℕ) (bytes : List ℕ) (w w' : o.World) (s : Segment)
      → revision < word_mod
      → create o name revision bytes w ≡ (done s, w')
      → Publishes revision bytes w'
  unfolding create
  create-Publishes revision bytes w w' s small e =
      let (size, w1, fits, e1) = chain-inv o _ _ s w' e in
      let (sized, room) = object_size-inv (length bytes) size (ap (λ t. t.0) fits) in
      let (fd, w2, got, e2) = chain-inv o _ _ s w' e1 in
      let (fine, same_fd, same2) = descriptor-inv o (o.create_object name) fd w1 w2 got in
      let held : holds fd w2 = rw (same_fd, same2) (laws.created w1 fine) in
      fill-Publishes revision bytes small (omega arith) fd size w2 w' s held sized e2
