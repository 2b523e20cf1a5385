-- ===== src/Segment/Reader.antt =====
-- `open`, call by call: what it found if it returned `Ok`, and that it does.
use mpi_rma.Base.{
  ℕ, ◌+◌, ◌-◌, ◌≡◌, refl, sym, ◌∙◌, ap, ap₂, arith, true, false, none, some, String, ℤ, pos, eqb_ℤ,
  eqb_ℤ→eq, eqb_ℤ-refl, length, slice, Bool-cases, inl, inr, ◌⊎◌,
}
use mathlib.Core.Path.{subst}
use mpi_rma.Segment.Io.{
  Os, IoError, Outcome, done, refused, aborted, panicked, bind, pure, or_abort, or_clean,
}
use mpi_rma.Segment.{Segment, header_size, recognise, measured, confirm, open_segment, payload}
use mpi_rma.Segment.Contents.{StoreLaws}
use mpi_rma.Segment.Shared.{
  SharedLaws, object_size-inv, chain-inv, or_clean-inv, descriptor-inv, map_object-inv,
}
use mpi_rma.Segment.Opened.{mapped_whole}

Outcome-cases :
    {A : Type 0} (r : Outcome A)
    → ((a : A) × (r ≡ done a))
      ⊎ (((x : IoError) × (r ≡ refused x)) ⊎ ((r ≡ aborted) ⊎ (r ≡ panicked)))
Outcome-cases (done a) = inl (a, refl)
Outcome-cases (refused x) = inr (inl (x, refl))
Outcome-cases aborted = inr (inr (inl refl))
Outcome-cases panicked = inr (inr (inr refl))

done-injective : {A : Type 0} (a b : A) → ◌≡◌ {A = Outcome A} (done a) (done b) → a ≡ b
done-injective a b e = cc

pos-injective : (a b : ℕ) → pos a ≡ pos b → a ≡ b
pos-injective a b e = cc

module _ (o : Os) where
  measured-inv :
      (fd : ℤ) (size : ℕ) (w w' : o.World)
      → measured o fd size w ≡ (done tt, w')
      → ((o.fstat fd w).0 ≡ pos 0) × ((o.fstat fd w).1 ≡ pos size) × (w' ≡ (o.fstat fd w).2)
  unfolding measured
  measured-inv fd size w w' e = elim (Bool-cases (eqb_ℤ (o.fstat fd w).0 (pos 0))) [
    | inr bad ↦
        let (u, w1, _, last) =
          chain-inv o (or_abort o (o.close fd) (o.fstat fd w).2) _ tt w'
            (rw (measured, bad) at e) in
        let no : ◌≡◌ {A = Outcome (Unit {0})} (refused _) (done tt) = ap (λ t. t.0) last in cc
    | inl good ↦ elim (Bool-cases (eqb_ℤ (o.fstat fd w).1 (pos size))) [
      | inr other ↦
          let (u, w1, _, last) =
            chain-inv o (or_abort o (o.close fd) (o.fstat fd w).2) _ tt w'
              (rw (measured, good, other) at e) in
          let no : ◌≡◌ {A = Outcome (Unit {0})} (refused _) (done tt) = ap (λ t. t.0) last in cc
      | inl same ↦ (
        eqb_ℤ→eq (o.fstat fd w).0 (pos 0) good,
        eqb_ℤ→eq (o.fstat fd w).1 (pos size) same,
        sym (ap (λ t. t.1) (rw (measured, good, same) at e)),
      )
    ]
  ]

  pub measured-done :
      (fd : ℤ) (size : ℕ) (w : o.World)
      → (o.fstat fd w).0 ≡ pos 0
      → (o.fstat fd w).1 ≡ pos size
      → measured o fd size w ≡ (done tt, (o.fstat fd w).2)
  unfolding measured
  measured-done fd size w zero_code sized =
      let good : eqb_ℤ (o.fstat fd w).0 (pos 0) ≡ true =
        ap (λ x. eqb_ℤ x (pos 0)) zero_code ∙ eqb_ℤ-refl (pos 0) in
      let same : eqb_ℤ (o.fstat fd w).1 (pos size) ≡ true =
        ap (λ x. eqb_ℤ x (pos size)) sized ∙ eqb_ℤ-refl (pos size) in
      rw (measured, good, same) refl

  confirm-inv :
      (base size revision len : ℕ) (w w' : o.World)
      → confirm o base size revision len w ≡ (done tt, w')
      → (recognise revision len (o.mapped base w) ≡ done tt) × (w' ≡ w)
  unfolding confirm
  confirm-inv base size revision len w w' e =
      elim (Outcome-cases (recognise revision len (o.mapped base w))) [
        | inl (u, known) ↦ (known, sym (ap (λ t. t.1) (rw (confirm, known) at e)))
        | inr (inl (x, bad)) ↦
            let (u, w1, _, last) =
              chain-inv o (or_abort o (o.munmap base size) w) _ tt w' (rw (confirm, bad) at e) in
            let no : ◌≡◌ {A = Outcome (Unit {0})} (refused _) (done tt) = ap (λ t. t.0) last in cc
        | inr (inr (inl bad)) ↦
            let no : ◌≡◌ {A = Outcome (Unit {0})} aborted (done tt) =
              ap (λ t. t.0) (rw (confirm, bad) at e) in
            cc
        | inr (inr (inr bad)) ↦
            let no : ◌≡◌ {A = Outcome (Unit {0})} panicked (done tt) =
              ap (λ t. t.0) (rw (confirm, bad) at e) in
            cc
      ]

  pub confirm-done :
      (base size revision len : ℕ) (w : o.World)
      → recognise revision len (o.mapped base w) ≡ done tt
      → confirm o base size revision len w ≡ (done tt, w)
  unfolding confirm
  confirm-done base size revision len w known = rw (confirm, known) refl

module _ (o : Os) (name : String) (stores : StoreLaws o) (laws : SharedLaws o name) where
  open laws use {object, holds, backs}

  -- What a reader that was let through has.
  pub record Reads (revision len : ℕ) (w w' : o.World) (s : Segment) : Type 0 where
    pub size : length (object w) ≡ header_size + len
    pub known : recognise revision len (object w) ≡ done tt
    pub same : object w' ≡ object w
    pub content : payload o s w' ≡ done (slice header_size len (object w))

  -- The handle of a reader.
  abbrev pub reader : (base size : ℕ) → Segment
  reader base size = record {
    base = some base;
    size = size;
    name = name;
    owner = false;
    failed = none;
  }

  pub open-Reads :
      (revision len : ℕ) (w w' : o.World) (s : Segment)
      → open_segment o name revision len w ≡ (done s, w')
      → Reads revision len w w' s
  unfolding open_segment payload
  open-Reads revision len w w' s e =
      let (size, w0, fits, e0) = chain-inv o _ _ s w' e in
      let (sized, room) = object_size-inv len size (ap (λ t. t.0) fits) in
      let start : w ≡ w0 = ap (λ t. t.1) fits in
      let (fd, w1, got, e1) = chain-inv o _ _ s w' e0 in
      let (fine, same_fd, same1) = descriptor-inv o (o.open_object name) fd w0 w1 got in
      let (held0, bytes0) = laws.opened w0 fine in
      let held1 : holds fd w1 = rw (same_fd, same1) held0 in
      let bytes1 : object w1 ≡ object w = ap object same1 ∙ bytes0 ∙ ap object (sym start) in
      let (u2, w2, checked, e2) = chain-inv o _ _ s w' e1 in
      let (code2, size2, same2) = measured-inv o fd size w1 w2 checked in
      let (long, held2, bytes2) = laws.sized fd w1 held1 code2 in
      let whole = pos-injective (length (object w1)) size (sym long ∙ size2) in
      let bytes2' : object w2 ≡ object w1 = ap object same2 ∙ bytes2 in
      let (base, w3, mapping, e3) = chain-inv o _ _ s w' e2 in
      let (found, same3) =
        map_object-inv o false fd size base (or_abort o (o.close fd)) w2 w3 mapping in
      let (there3, bytes3) =
        mapped_whole o name stores laws false fd size base w2 w3
          (subst (holds fd) (sym same2) held2) (ap length bytes2' ∙ whole) found same3 in
      let (u4, w4, shut, e4) =
        chain-inv o (or_clean o (o.close fd) (or_abort o (o.munmap base size)) w3)
          (λ _. bind o (confirm o base size revision len) (λ _. pure o (reader base size))) s w'
          e3 in
      let (zero4, same4) =
        or_clean-inv o (o.close fd) (or_abort o (o.munmap base size)) w3 w4 shut in
      let (there4', bytes4) = laws.closed fd base w3 there3 in
      let there4 : backs base w4 = subst (backs base) (sym same4) there4' in
      let bytes4' : object w4 ≡ object w = ap object same4 ∙ bytes4 ∙ bytes3 ∙ bytes2' ∙ bytes1 in
      let (u5, w5, seen, e5) =
        chain-inv o (confirm o base size revision len w4) (λ _. pure o (reader base size)) s w'
          e4 in
      let (known, same5) = confirm-inv o base size revision len w4 w5 seen in
      let shown = laws.shows base w4 there4 in
      let final : w4 ≡ w' = sym same5 ∙ ap (λ t. t.1) e5 in
      let mine : reader base size ≡ s = done-injective (reader base size) s (ap (λ t. t.0) e5) in
      let rest : size - header_size ≡ len = omega arith in
      record {
        size = ap length (sym bytes1) ∙ whole ∙ sized;
        known = rw (shown ∙ bytes4') at known;
        same = ap object (sym final) ∙ bytes4';
        content =
            ap (λ t. payload o t w') (sym mine)
            ∙ ap (payload o (reader base size)) (sym final)
            ∙ ap₂ (λ n xs. done (slice header_size n xs)) rest (shown ∙ bytes4');
      }
