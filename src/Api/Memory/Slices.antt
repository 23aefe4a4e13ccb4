-- ===== src/Api/Memory/Slices.antt =====
-- Copies of slices are deep, where the copies of what they point to are.
use mathlib.Core.Path.{subst}
use turtles_etcd_restore.Base.{
  ℕ, suc, ◌≤◌, ◌<◌, ◌≡◌, refl, sym, ap, ◌∙◌, arith, Option, none, some, List, [], ◌∷◌, ◌++◌, length,
  map, All, length-append,
}
use turtles_etcd_restore.Api.Memory.Cells.{
  Slice, Kind, Agree, Agree-append, Agree-trans, load, load-Agree, load-append,
}
use turtles_etcd_restore.Api.Memory.Copy.{
  DeepCopyInto, zeros, copy_array, copy_loaded, copy_slice, Shape, Copied, IsDeep,
}
use turtles_etcd_restore.Api.Memory.Loop.{fill, frame-All, widen-All}

module _ {Cell A : Type 0} (kind : Kind Cell A) (shape : Shape Cell A) where
  abbrev pub shown : List Cell → Option (List A) → List shape.View
  shown m none = []
  shown m (some xs) = map (shape.view m) xs

  abbrev pub slice_view : List Cell → Slice → Option (List shape.View)
  slice_view m none = none
  slice_view m (some p) = some (shown m (load kind m p))

  -- An array at an address in the range, whose elements point into the range.
  pub record ArrayWithin (lo hi : ℕ) (m : List Cell) (p : ℕ) : Type 0 where
    pub xs : List A
    pub above : lo ≤ p
    pub below : p < hi
    pub loads : load kind m p ≡ some xs
    pub elements : All (shape.Within lo hi m) xs

  abbrev pub SliceWithin : ℕ → ℕ → List Cell → Slice → Type 0
  SliceWithin lo hi m none = Unit
  SliceWithin lo hi m (some p) = ArrayWithin lo hi m p

  -- A slice shows nil, or the list of what its elements show.
  abbrev pub slice_shape : Shape Cell Slice
  slice_shape = record { View = Option (List shape.View); view = slice_view; Within = SliceWithin }

module _ {Cell A : Type 0} (kind : Kind Cell A) {copy : DeepCopyInto Cell A} {shape : Shape Cell A}
    (deep : IsDeep shape copy) where
  widen_slice :
      {lo hi lo' hi' : ℕ} (m : List Cell) (a : Slice)
      → lo' ≤ lo
      → hi ≤ hi'
      → SliceWithin kind shape lo hi m a
      → SliceWithin kind shape lo' hi' m a
  widen_slice m none h k w = tt
  widen_slice m (some p) h k w = record {
    xs = w.xs;
    above = omega (arith, w.above);
    below = omega (arith, w.below);
    loads = w.loads;
    elements = widen-All kind deep m w.xs h k w.elements;
  }

  frame_slice :
      {lo hi : ℕ} (m k : List Cell) (a : Slice)
      → Agree lo hi m k
      → SliceWithin kind shape lo hi m a
      → (slice_view kind shape k a ≡ slice_view kind shape m a) × SliceWithin kind shape lo hi k a
  frame_slice m k none agree w = (refl, tt)
  frame_slice {lo} {hi} m k (some p) agree w =
      let loaded = load-Agree kind m k lo hi p agree w.above w.below ∙ w.loads in
      let (same, within) = frame-All kind deep m k w.xs agree w.elements in
      (
        ap (λ o. some (shown kind shape k o)) loaded
            ∙ ap (λ l. some l) same
            ∙ sym (ap (λ o. some (shown kind shape m o)) w.loads),
        record { xs = w.xs; above = w.above; below = w.below; loads = loaded; elements = within },
      )

  -- What `copy_array` leaves: a new array of values that show what the elements show.
  pub record NewArray (m : List Cell) (xs : List A) : Type 0 where
    pub all : List A
    pub grows : suc (length m) ≤ length (copy_array kind copy xs m).1
    pub keeps : Agree 0 (length m) m (copy_array kind copy xs m).1
    pub loads : load kind (copy_array kind copy xs m).1 (length m) ≡ some all
    pub shows : map (shape.view (copy_array kind copy xs m).1) all ≡ map (shape.view m) xs
    pub within :
        All
          (shape.Within
            (length m)
            (length (copy_array kind copy xs m).1)
            (copy_array kind copy xs m).1)
          all

  pub new_array :
      (m : List Cell) (xs : List A) → All (shape.Within 0 (length m) m) xs → NewArray m xs
  unfolding copy_array
  new_array m xs h =
      let out = length m in
      let made = m ++ (kind.array (zeros kind xs) ∷ []) in
      let size = length-append m (kind.array (zeros kind xs) ∷ []) in
      let (same, old) = frame-All kind deep m made xs (Agree-append m _) h in
      let f =
        fill kind deep out 0 xs [] made refl (omega (arith, size))
          (load-append kind m (zeros kind xs)) tt old in
      record {
        all = f.all;
        grows = omega (arith, f.grows, size);
        keeps = Agree-trans (Agree-append m _) f.keeps;
        loads = f.loads;
        shows = f.shows ∙ same;
        within =
            widen-All kind deep (copy_array kind copy xs m).1 f.all (omega arith) (omega arith)
              f.within;
      }

  copied_array :
      (m : List Cell) (p : ℕ) (w : ArrayWithin kind shape 0 (length m) m p)
      → Copied (slice_shape kind shape) m (some p) (copy_loaded kind copy (some w.xs) m)
  unfolding copy_array
  copied_array m p w =
      let f = new_array m w.xs w.elements in
      let k = (copy_loaded kind copy (some w.xs) m).1 in
      record {
        grows = omega (arith, f.grows);
        keeps = f.keeps;
        shows =
            ap (λ o. some (shown kind shape k o)) f.loads
            ∙ ap (λ l. some l) f.shows
            ∙ sym (ap (λ o. some (shown kind shape m o)) w.loads);
        new = record {
          xs = f.all;
          above = omega arith;
          below = omega (arith, f.grows);
          loads = f.loads;
          elements = f.within;
        };
      }

  copied_slice :
      (m : List Cell) (a : Slice)
      → SliceWithin kind shape 0 (length m) m a
      → Copied (slice_shape kind shape) m a (copy_slice kind copy a m)
  unfolding copy_slice
  copied_slice m none w = record {
    grows = omega arith;
    keeps = record { same = λ p h k. refl };
    shows = refl;
    new = tt;
  }
  copied_slice m (some p) w =
      subst (λ o. Copied (slice_shape kind shape) m (some p) (copy_loaded kind copy o m))
        (sym w.loads) (copied_array m p w)

  pub slice-IsDeep : IsDeep (slice_shape kind shape) (copy_slice kind copy)
  slice-IsDeep = record {
    widen = λ h k w. widen_slice _ _ h k w;
    frame = λ agree w. frame_slice _ _ _ agree w;
    copied = copied_slice;
  }
