-- ===== src/Api/Memory/Pointers.antt =====
-- Copies of what pointers lead to are deep, where the `DeepCopyInto` of the type is.
use mathlib.Core.Path.{subst}
use turtles_etcd_restore.Base.{
  ℕ, ◌≤◌, ◌<◌, ◌≡◌, refl, sym, ap, ◌∙◌, arith, Option, none, some, List, [], ◌∷◌, length, map,
  get_elem?, All,
}
use turtles_etcd_restore.Api.Memory.Cells.{
  Pointer, Kind, Agree, load_at, load_at-Agree, load_at-first,
}
use turtles_etcd_restore.Api.Memory.Copy.{
  DeepCopyInto, copy_array, copy_found, copy_pointer, Shape, Copied, IsDeep,
}
use turtles_etcd_restore.Api.Memory.Slices.{new_array}

module _ {Cell A : Type 0} (kind : Kind Cell A) (shape : Shape Cell A) where
  abbrev pub shown_at : List Cell → Option A → Option shape.View
  shown_at m none = none
  shown_at m (some x) = some (shape.view m x)

  abbrev pub pointer_view : List Cell → Pointer → Option (Option shape.View)
  pointer_view m none = none
  pointer_view m (some (p, i)) = some (shown_at m (load_at kind m p i))

  -- An element of an array at an address in the range, which points into the range.
  pub record ElementWithin (lo hi : ℕ) (m : List Cell) (p i : ℕ) : Type 0 where
    pub x : A
    pub above : lo ≤ p
    pub below : p < hi
    pub loads : load_at kind m p i ≡ some x
    pub element : shape.Within lo hi m x

  abbrev pub PointerWithin : ℕ → ℕ → List Cell → Pointer → Type 0
  PointerWithin lo hi m none = Unit
  PointerWithin lo hi m (some (p, i)) = ElementWithin lo hi m p i

  -- A pointer shows nil, or what the variable that it leads to shows.
  abbrev pub pointer_shape : Shape Cell Pointer
  pointer_shape = record {
    View = Option (Option shape.View);
    view = pointer_view;
    Within = PointerWithin;
  }

-- A list that shows one thing has a first element that shows it.
only_element :
    {A V : Type 0} (f : A → V) (P : A → Type 0) (l : List A) (v : V)
    → map f l ≡ v ∷ []
    → All P l
    → (y : A) × (get_elem? l 0 ≡ some y) × (f y ≡ v) × P y
only_element f P [] v e h = cc
only_element f P (y ∷ ys) v e h = (y, refl, cc, h.0)

module _ {Cell A : Type 0} (kind : Kind Cell A) {copy : DeepCopyInto Cell A} {shape : Shape Cell A}
    (deep : IsDeep shape copy) where
  widen_pointer :
      {lo hi lo' hi' : ℕ} (m : List Cell) (a : Pointer)
      → lo' ≤ lo
      → hi ≤ hi'
      → PointerWithin kind shape lo hi m a
      → PointerWithin kind shape lo' hi' m a
  widen_pointer m none h k w = tt
  widen_pointer m (some (p, i)) h k w = record {
    x = w.x;
    above = omega (arith, w.above);
    below = omega (arith, w.below);
    loads = w.loads;
    element = deep.widen h k w.element;
  }

  frame_pointer :
      {lo hi : ℕ} (m k : List Cell) (a : Pointer)
      → Agree lo hi m k
      → PointerWithin kind shape lo hi m a
      → (pointer_view kind shape k a ≡ pointer_view kind shape m a)
        × PointerWithin kind shape lo hi k a
  frame_pointer m k none agree w = (refl, tt)
  frame_pointer {lo} {hi} m k (some (p, i)) agree w =
      let loaded = load_at-Agree kind m k lo hi p i agree w.above w.below ∙ w.loads in
      let (same, within) = deep.frame agree w.element in
      (
        ap (λ o. some (shown_at kind shape k o)) loaded
            ∙ ap (λ v. some (some v)) same
            ∙ sym (ap (λ o. some (shown_at kind shape m o)) w.loads),
        record { x = w.x; above = w.above; below = w.below; loads = loaded; element = within },
      )

  copied_element :
      (m : List Cell) (p i : ℕ) (w : ElementWithin kind shape 0 (length m) m p i)
      → Copied (pointer_shape kind shape) m (some (p, i)) (copy_found kind copy (some w.x) m)
  unfolding copy_array
  copied_element m p i w =
      let f = new_array kind deep m (w.x ∷ []) (w.element, tt) in
      let k = (copy_found kind copy (some w.x) m).1 in
      let (y, first, shows_y, within_y) = only_element _ _ f.all _ f.shows f.within in
      let loaded = load_at-first kind k (length m) f.all f.loads ∙ first in
      record {
        grows = omega (arith, f.grows);
        keeps = f.keeps;
        shows =
            ap (λ o. some (shown_at kind shape k o)) loaded
            ∙ ap (λ v. some (some v)) shows_y
            ∙ sym (ap (λ o. some (shown_at kind shape m o)) w.loads);
        new = record {
          x = y;
          above = omega arith;
          below = omega (arith, f.grows);
          loads = loaded;
          element = within_y;
        };
      }

  copied_pointer :
      (m : List Cell) (a : Pointer)
      → PointerWithin kind shape 0 (length m) m a
      → Copied (pointer_shape kind shape) m a (copy_pointer kind copy a m)
  unfolding copy_pointer
  copied_pointer m none w = record {
    grows = omega arith;
    keeps = record { same = λ p h k. refl };
    shows = refl;
    new = tt;
  }
  copied_pointer m (some (p, i)) w =
      subst (λ o. Copied (pointer_shape kind shape) m (some (p, i)) (copy_found kind copy o m))
        (sym w.loads) (copied_element m p i w)

  pub pointer-IsDeep : IsDeep (pointer_shape kind shape) (copy_pointer kind copy)
  pointer-IsDeep = record {
    widen = λ h k w. widen_pointer _ _ h k w;
    frame = λ agree w. frame_pointer _ _ _ agree w;
    copied = copied_pointer;
  }
