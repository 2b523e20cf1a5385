-- ===== src/Segment/Shared.antt =====
-- The object behind a name, which its creator writes through one mapping and which a reader sees
-- through another.
use mpi_rma.Base.{
  ℕ, ◌+◌, ◌≤◌, ◌≡◌, refl, sym, ◌∙◌, ap, arith, Bool, false, some, List, String, ℤ, pos, eqb_ℤ,
  eqb_ℤ→eq, ltb_ℤ, length, i64_max, Bool-cases, Option-cases, inl, inr,
}
use mpi_rma.Segment.Io.{
  Os, Io, Outcome, done, refused, aborted, panicked, chain, or_clean, descriptor,
}
use mpi_rma.Segment.{header_size, object_size, map_object}

-- The documented effect of the calls on the bytes of the object. `holds` says that a descriptor is
-- open on it, and `backs` that a mapping of all of it stands at a base.
pub record SharedLaws (o : Os) (name : String) : Type 1 where
  pub object : o.World → List ℕ
  pub holds : ℤ → o.World → Type 0
  pub backs : ℕ → o.World → Type 0
  pub created :
      (w : o.World)
      → ltb_ℤ (o.create_object name w).0 (pos 0) ≡ false
      → holds (o.create_object name w).0 (o.create_object name w).1
  pub opened :
      (w : o.World)
      → ltb_ℤ (o.open_object name w).0 (pos 0) ≡ false
      → holds (o.open_object name w).0 (o.open_object name w).1
        × (object (o.open_object name w).1 ≡ object w)
  pub truncated :
      (fd : ℤ) (n : ℕ) (w : o.World)
      → holds fd w
      → (o.ftruncate fd n w).0 ≡ pos 0
      → holds fd (o.ftruncate fd n w).1 × (length (object (o.ftruncate fd n w).1) ≡ n)
  pub reserved :
      (fd : ℤ) (n : ℕ) (w : o.World)
      → holds fd w
      → holds fd (o.posix_fallocate fd n w).1 × (object (o.posix_fallocate fd n w).1 ≡ object w)
  pub sized :
      (fd : ℤ) (w : o.World)
      → holds fd w
      → (o.fstat fd w).0 ≡ pos 0
      → ((o.fstat fd w).1 ≡ pos (length (object w)))
        × holds fd (o.fstat fd w).2
        × (object (o.fstat fd w).2 ≡ object w)
  pub mapped_to :
      (writable : Bool) (fd : ℤ) (base : ℕ) (w : o.World)
      → holds fd w
      → (o.mmap writable fd (length (object w)) w).0 ≡ some base
      → backs base (o.mmap writable fd (length (object w)) w).1
        × (object (o.mmap writable fd (length (object w)) w).1 ≡ object w)
  pub shows : (base : ℕ) (w : o.World) → backs base w → o.mapped base w ≡ object w
  pub closed :
      (fd : ℤ) (base : ℕ) (w : o.World)
      → backs base w
      → backs base (o.close fd w).1 × (object (o.close fd w).1 ≡ object w)
  pub store_backs :
      (base at : ℕ) (xs : List ℕ) (w : o.World) → backs base w → backs base (o.store base at xs w)

-- What an accepted size is.
pub object_size-inv :
    (len size : ℕ) → object_size len ≡ done size → (size ≡ header_size + len) × (size ≤ i64_max)
unfolding object_size
object_size-inv len size e = ground (arith, e)

module _ (o : Os) where
  -- A chain that ends well went through each of its parts.
  pub chain-inv :
      {A B : Type 0} (r : Outcome A × o.World) (k : A → Io o B) (b : B) (w' : o.World)
      → chain o r k ≡ (done b, w')
      → (a : A) × (w1 : o.World) × (r ≡ (done a, w1)) × (k a w1 ≡ (done b, w'))
  chain-inv (done a, w) k b w' e = (a, w, refl, e)
  chain-inv {A} {B} (refused x, w) k b w' e =
      let bad : ◌≡◌ {A = Outcome B} (refused x) (done b) = ap (λ t. t.0) e in cc
  chain-inv {A} {B} (aborted, w) k b w' e =
      let bad : ◌≡◌ {A = Outcome B} aborted (done b) = ap (λ t. t.0) e in cc
  chain-inv {A} {B} (panicked, w) k b w' e =
      let bad : ◌≡◌ {A = Outcome B} panicked (done b) = ap (λ t. t.0) e in cc

  -- A call that cleans up after its failure, or gives a descriptor.
  pub or_clean-inv :
      (call : o.World → ℤ × o.World) (cleanup : Io o (Unit {0})) (w w' : o.World)
      → or_clean o call cleanup w ≡ (done tt, w')
      → ((call w).0 ≡ pos 0) × (w' ≡ (call w).1)
  or_clean-inv call cleanup w w' e = elim (Bool-cases (eqb_ℤ (call w).0 (pos 0))) [
    | inl good ↦ (eqb_ℤ→eq (call w).0 (pos 0) good, sym (ap (λ t. t.1) (rw good at e)))
    | inr bad ↦
        let (u, w1, _, last) = chain-inv (cleanup (call w).1) _ tt w' (rw bad at e) in
        let no : ◌≡◌ {A = Outcome (Unit {0})} (refused _) (done tt) = ap (λ t. t.0) last in cc
  ]

  pub descriptor-inv :
      (call : o.World → ℤ × o.World) (fd : ℤ) (w w' : o.World)
      → descriptor o call w ≡ (done fd, w')
      → (ltb_ℤ (call w).0 (pos 0) ≡ false) × (fd ≡ (call w).0) × (w' ≡ (call w).1)
  descriptor-inv call fd w w' e = elim (Bool-cases (ltb_ℤ (call w).0 (pos 0))) [
    | inl bad ↦
        let no : ◌≡◌ {A = Outcome ℤ} (refused _) (done fd) = ap (λ t. t.0) (rw bad at e) in cc
    | inr good ↦
        let same : ◌≡◌ {A = Outcome ℤ} (done (call w).0) (done fd) = ap (λ t. t.0) (rw good at e) in
        (good, cc, sym (ap (λ t. t.1) (rw good at e)))
  ]

  pub map_object-inv :
      (writable : Bool) (fd : ℤ) (size base : ℕ) (cleanup : Io o (Unit {0})) (w w' : o.World)
      → map_object o writable fd size cleanup w ≡ (done base, w')
      → ((o.mmap writable fd size w).0 ≡ some base) × (w' ≡ (o.mmap writable fd size w).1)
  unfolding map_object
  map_object-inv writable fd size base cleanup w w' e =
      elim (Option-cases (o.mmap writable fd size w).0) [
        | inl missing ↦
            let (u, w1, _, last) =
              chain-inv (cleanup (o.mmap writable fd size w).1) _ base w'
                (rw (missing, map_object) at e) in
            let no : ◌≡◌ {A = Outcome ℕ} (refused _) (done base) = ap (λ t. t.0) last in cc
        | inr (there, found) ↦
            let both = rw (found, map_object) at e in
            let same : ◌≡◌ {A = Outcome ℕ} (done there) (done base) = ap (λ t. t.0) both in
            (found ∙ ap some (cc), sym (ap (λ t. t.1) both))
      ]

  pub chain-done :
      {A B : Type 0} (r : Outcome A × o.World) (k : A → Io o B) (a : A) (b : B) (w w' : o.World)
      → r ≡ (done a, w)
      → k a w ≡ (done b, w')
      → chain o r k ≡ (done b, w')
  chain-done r k a b w w' e f = ap (λ t. chain o t k) e ∙ f
