-- ===== src/Api/Memory/Cells.antt =====
-- Cells, allocation and writes. Nothing is ever freed.
use turtles_etcd_restore.Base.{
  ℕ, ◌≤◌, ◌<◌, ◌≡◌, ◌≢◌, ap, ◌∙◌, arith, Option, none, some, List, [], ◌∷◌, ◌++◌, length, get_elem?,
  set, length-set, get_elem?-append_left, get_elem?-append_last, get_elem?-set_self,
  get_elem?-set_other,
}

-- A slice: nil, or the address of a cell. The length of a slice is that of its array.
abbrev pub Slice : Type 0
Slice = Option ℕ

-- A pointer: nil, or the address of a cell with an index into its array.
abbrev pub Pointer : Type 0
Pointer = Option (ℕ × ℕ)

-- How arrays of `A` are stored in cells, and the zero value that `make` and `new` fill in.
pub record Kind (Cell A : Type 0) : Type 0 where
  pub array : List A → Cell
  pub elements : Cell → Option (List A)
  pub elements-array : (xs : List A) → elements (array xs) ≡ some xs
  pub zero_value : A

-- The cells from `lo` on, below `hi`, are the same in both memories.
pub record Agree {Cell : Type 0} (lo hi : ℕ) (m k : List Cell) : Type 0 where
  pub same : (p : ℕ) → lo ≤ p → p < hi → get_elem? k p ≡ get_elem? m p

module _ {Cell : Type 0} where
  pub Agree-append : (m l : List Cell) → Agree 0 (length m) m (m ++ l)
  Agree-append m l = record { same = λ p h k. get_elem?-append_left m l p k }

  pub Agree-trans :
      {lo hi : ℕ} {m k l : List Cell} → Agree lo hi m k → Agree lo hi k l → Agree lo hi m l
  Agree-trans f g = record { same = λ p a b. g.same p a b ∙ f.same p a b }

  pub Agree-narrow :
      {lo hi lo' hi' : ℕ} {m k : List Cell}
      → lo ≤ lo'
      → hi' ≤ hi
      → Agree lo hi m k
      → Agree lo' hi' m k
  Agree-narrow h h' f = record { same = λ p a b. f.same p (omega arith) (omega arith) }

module _ {Cell A : Type 0} (kind : Kind Cell A) where
  abbrev read_cell : Option Cell → Option (List A)
  read_cell none = none
  read_cell (some cell) = kind.elements cell

  -- The elements of the array at an address.
  abbrev pub load : List Cell → ℕ → Option (List A)
  load m p = read_cell (get_elem? m p)

  abbrev at_index : Option (List A) → ℕ → Option A
  at_index none i = none
  at_index (some xs) i = get_elem? xs i

  -- What a pointer that is not nil leads to.
  abbrev pub load_at : List Cell → ℕ → ℕ → Option A
  load_at m p i = at_index (load m p) i

  -- `(*out)[i] = a`
  abbrev pub store_in : List Cell → ℕ → ℕ → A → Option (List A) → List Cell
  store_in m p i a none = m
  store_in m p i a (some xs) = set m p (kind.array (set xs i a))

  unfoldable pub store : List Cell → ℕ → ℕ → A → List Cell
  store m p i a = store_in m p i a (load m p)

  pub load-Agree :
      (m k : List Cell) (lo hi p : ℕ) → Agree lo hi m k → lo ≤ p → p < hi → load k p ≡ load m p
  load-Agree m k lo hi p agree h l = ap read_cell (agree.same p h l)

  pub load_at-Agree :
      (m k : List Cell) (lo hi p i : ℕ)
      → Agree lo hi m k
      → lo ≤ p
      → p < hi
      → load_at k p i ≡ load_at m p i
  load_at-Agree m k lo hi p i agree h l = ap (λ o. at_index o i) (load-Agree m k lo hi p agree h l)

  -- The first element of an array.
  pub load_at-first :
      (m : List Cell) (p : ℕ) (xs : List A) → load m p ≡ some xs → load_at m p 0 ≡ get_elem? xs 0
  load_at-first m p xs e = ap (λ o. at_index o 0) e

  pub load-append :
      (m : List Cell) (xs : List A) → load (m ++ (kind.array xs ∷ [])) (length m) ≡ some xs
  load-append m xs = ap read_cell (get_elem?-append_last m (kind.array xs)) ∙ kind.elements-array xs

  store-eq :
      (m : List Cell) (p i : ℕ) (a : A) (xs : List A)
      → load m p ≡ some xs
      → store m p i a ≡ set m p (kind.array (set xs i a))
  unfolding store
  store-eq m p i a xs e = ap (store_in m p i a) e

  pub load-store :
      (m : List Cell) (p i : ℕ) (a : A) (xs : List A)
      → load m p ≡ some xs
      → p < length m
      → load (store m p i a) p ≡ some (set xs i a)
  load-store m p i a xs e h =
      ap (λ k. load k p) (store-eq m p i a xs e)
      ∙ ap read_cell (get_elem?-set_self m p (kind.array (set xs i a)) h)
      ∙ kind.elements-array (set xs i a)

  pub length-store :
      (m : List Cell) (p i : ℕ) (a : A) (xs : List A)
      → load m p ≡ some xs
      → length (store m p i a) ≡ length m
  length-store m p i a xs e =
      ap (λ (k : List Cell). length k) (store-eq m p i a xs e)
      ∙ length-set m p (kind.array (set xs i a))

  -- A write changes one cell.
  pub get_elem?-store :
      (m : List Cell) (p i q : ℕ) (a : A) (xs : List A)
      → load m p ≡ some xs
      → p ≢ q
      → get_elem? (store m p i a) q ≡ get_elem? m q
  get_elem?-store m p i q a xs e h =
      ap (λ (k : List Cell). get_elem? k q) (store-eq m p i a xs e)
      ∙ get_elem?-set_other m p q (kind.array (set xs i a)) h
