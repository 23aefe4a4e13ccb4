-- ===== src/Api/Memory/Copy.antt =====
-- Deep copies: of a value, whatever it points to, and of an array of such values.
use turtles_etcd_restore.Base.{ℕ, suc, ◌≤◌, ◌≡◌, Option, none, some, List, [], ◌∷◌, ◌++◌, length}
use turtles_etcd_restore.Api.Memory.Cells.{Slice, Pointer, Kind, Agree, load, load_at, store}

-- A `DeepCopyInto` of a type: from `*in` it makes what it leaves in `*out`, which does not depend
-- on what `*out` was, since it begins with `*out = *in`.
abbrev pub DeepCopyInto : Type 0 → Type 0 → Type 0
DeepCopyInto Cell A = A → List Cell → A × List Cell

-- The elements of `make(T, len(*in))`.
abbrev pub zeros : {Cell A : Type 0} → Kind Cell A → List A → List A
zeros kind [] = []
zeros kind (x ∷ xs) = kind.zero_value ∷ zeros kind xs

module _ {Cell A : Type 0} (kind : Kind Cell A) (copy : DeepCopyInto Cell A) where
  -- `for i := range *in { (*in)[i].DeepCopyInto(&(*out)[i]) }` from index `i` on, over the elements
  -- of `*in` that are left.
  unfoldable pub copy_elements : ℕ → ℕ → List A → List Cell → List Cell
  copy_elements out i [] m = m
  copy_elements out i (x ∷ xs) m =
      let (y, k) = copy x m in copy_elements out (suc i) xs (store kind k out i y)

  -- `*out = make(T, len(*in))` with the loop after it.
  unfoldable pub copy_array : List A → List Cell → ℕ × List Cell
  unfolding copy_elements
  copy_array xs m =
      (length m, copy_elements (length m) 0 xs (m ++ (kind.array (zeros kind xs) ∷ [])))

  -- `if *in != nil { ... }`. An address where there is no such array, which Go does not have, is
  -- copied as nil.
  abbrev pub copy_loaded : Option (List A) → List Cell → Slice × List Cell
  copy_loaded none m = (none, m)
  copy_loaded (some xs) m = let (out, k) = copy_array xs m in (some out, k)

  unfoldable pub copy_slice : DeepCopyInto Cell Slice
  unfolding copy_array
  copy_slice none m = (none, m)
  copy_slice (some p) m = copy_loaded (load kind m p) m

  -- `out := new(T)` with `in.DeepCopyInto(out)` and `return out`: a variable is an array of one.
  abbrev pub copy_found : Option A → List Cell → Pointer × List Cell
  copy_found none m = (none, m)
  copy_found (some x) m = let (out, k) = copy_array (x ∷ []) m in (some (out, 0), k)

  -- A `DeepCopy`, with its `if in == nil { return nil }`.
  unfoldable pub copy_pointer : DeepCopyInto Cell Pointer
  unfolding copy_array
  copy_pointer none m = (none, m)
  copy_pointer (some (p, i)) m = copy_found (load_at kind m p i) m

-- What it takes to say that a copy is deep: what a value shows in a memory, following its pointers,
-- and that all it points to lies in the cells from `lo` on below `hi`.
pub record Shape (Cell A : Type 0) : Type 1 where
  pub View : Type 0
  pub view : List Cell → A → View
  pub Within : ℕ → ℕ → List Cell → A → Type 0

-- What a deep copy leaves: nothing that was there is changed, the copy shows the same as the
-- original, and all it points to is new.
pub record Copied {Cell A : Type 0} (shape : Shape Cell A) (m : List Cell) (a : A)
    (r : A × List Cell) : Type 0 where
  pub grows : length m ≤ length r.1
  pub keeps : Agree 0 (length m) m r.1
  pub shows : shape.view r.1 r.0 ≡ shape.view m a
  pub new : shape.Within (length m) (length r.1) r.1 r.0

-- A type whose copies are deep.
pub record IsDeep {Cell A : Type 0} (shape : Shape Cell A) (copy : DeepCopyInto Cell A)
    : Type 0 where
  pub widen :
      {lo hi lo' hi' : ℕ} {m : List Cell} {a : A}
      → lo' ≤ lo
      → hi ≤ hi'
      → shape.Within lo hi m a
      → shape.Within lo' hi' m a
  pub frame :
      {lo hi : ℕ} {m k : List Cell} {a : A}
      → Agree lo hi m k
      → shape.Within lo hi m a
      → (shape.view k a ≡ shape.view m a) × shape.Within lo hi k a
  pub copied : (m : List Cell) (a : A) → shape.Within 0 (length m) m a → Copied shape m a (copy a m)
