-- ===== src/Api/Memory/Loop.antt =====
-- The loop of a deep copy over an array fills the new array with deep copies of the elements.
use mathlib.Core.List.{map-append, append-nil, append_assoc}
use turtles_etcd_restore.Base.{
  ℕ, suc, ◌≤◌, ◌<◌, ◌≡◌, ◌⊎◌, inl, inr, refl, sym, ap, ◌∙◌, arith, some, List, [], ◌∷◌, ◌++◌,
  length, set, map, All, All-map, All-append, length-append, set-append,
}
use turtles_etcd_restore.Api.Memory.Cells.{
  Kind, Agree, Agree-trans, Agree-narrow, load, store, load-Agree, load-store, length-store,
  get_elem?-store,
}
use turtles_etcd_restore.Api.Memory.Copy.{DeepCopyInto, copy_elements, zeros, Shape, IsDeep}

module _ {Cell A : Type 0} (kind : Kind Cell A) {copy : DeepCopyInto Cell A} {shape : Shape Cell A}
    (deep : IsDeep shape copy) where
  pub frame-All :
      {lo hi : ℕ} (m k : List Cell) (l : List A)
      → Agree lo hi m k
      → All (shape.Within lo hi m) l
      → (map (shape.view k) l ≡ map (shape.view m) l) × All (shape.Within lo hi k) l
  frame-All m k [] agree h = (refl, tt)
  frame-All m k (x ∷ xs) agree (h, hs) =
      let (e, w) = deep.frame agree h in
      let (es, ws) = frame-All m k xs agree hs in (cc (e, es), (w, ws))

  pub widen-All :
      {lo hi lo' hi' : ℕ} (m : List Cell) (l : List A)
      → lo' ≤ lo
      → hi ≤ hi'
      → All (shape.Within lo hi m) l
      → All (shape.Within lo' hi' m) l
  widen-All m l a b = All-map (λ x. deep.widen a b) l

  -- The array at `out` holds values that show what is expected, and point behind it.
  pub record Filled (out : ℕ) (m k : List Cell) (expected : List shape.View) : Type 0 where
    pub all : List A
    pub grows : length m ≤ length k
    pub keeps : Agree 0 out m k
    pub loads : load kind k out ≡ some all
    pub within : All (shape.Within (suc out) (length k) k) all
    pub shows : map (shape.view k) all ≡ expected

  store-Agree :
      {lo hi : ℕ} (m : List Cell) (p i : ℕ) (a : A) (xs : List A)
      → load kind m p ≡ some xs
      → (hi ≤ p) ⊎ (p < lo)
      → Agree lo hi m (store kind m p i a)
  store-Agree m p i a xs e (inl above) = record {
    same = λ q h k. get_elem?-store kind m p i q a xs e (λ same. absurd (omega (arith, same)));
  }
  store-Agree m p i a xs e (inr below) = record {
    same = λ q h k. get_elem?-store kind m p i q a xs e (λ same. absurd (omega (arith, same)));
  }

  -- One round: the element is copied and stored in the new array.
  record Round (out : ℕ) (m k : List Cell) (x y : A) (loaded : List A) : Type 0 where
    grows : length m ≤ length k
    before : Agree 0 out m k
    behind : Agree (suc out) (length m) m k
    loads : load kind k out ≡ some loaded
    shows : shape.view k y ≡ shape.view m x
    new : shape.Within (suc out) (length k) k y

  round :
      (out i : ℕ) (x : A) (m : List Cell) (cells : List A)
      → out < length m
      → load kind m out ≡ some cells
      → shape.Within 0 out m x
      → Round out m
          (store kind (copy x m).1 out i (copy x m).0)
          x
          (copy x m).0
          (set cells i (copy x m).0)
  round out i x m cells h loads w =
      let y = (copy x m).0 in
      let k = (copy x m).1 in
      let c = deep.copied m x (deep.widen (omega arith) (omega arith) w) in
      let grown = c.grows in
      let loaded = load-Agree kind m k 0 (length m) out c.keeps (omega arith) h ∙ loads in
      let length_k = length-store kind k out i y cells loaded in
      let behind : Agree (suc out) (length k) k (store kind k out i y) =
        store-Agree k out i y cells loaded (inr (omega arith)) in
      let (shown, within) = deep.frame behind (deep.widen (omega arith) (omega arith) c.new) in
      record {
        grows = omega arith;
        before =
            Agree-trans (Agree-narrow (omega arith) (omega arith) c.keeps)
              (store-Agree k out i y cells loaded (inl (omega arith)));
        behind =
            Agree-trans (Agree-narrow (omega arith) (omega arith) c.keeps)
              (store-Agree k out i y cells loaded (inr (omega arith)));
        loads = load-store kind k out i y cells loaded (omega arith);
        shows = shown ∙ c.shows;
        new = deep.widen (omega arith) (omega arith) within;
      }

  pub fill :
      (out i : ℕ) (xs filled : List A) (m : List Cell)
      → i ≡ length filled
      → out < length m
      → load kind m out ≡ some (filled ++ zeros kind xs)
      → All (shape.Within (suc out) (length m) m) filled
      → All (shape.Within 0 out m) xs
      → Filled out m
          (copy_elements kind copy out i xs m)
          (map (shape.view m) filled ++ map (shape.view m) xs)
  unfolding copy_elements
  fill out i [] filled m e h loads old rest = record {
    all = filled;
    grows = omega arith;
    keeps = record { same = λ p a b. refl };
    loads = loads ∙ ap (λ l. some l) (append-nil filled);
    within = old;
    shows = sym (append-nil (map (shape.view m) filled));
  }
  fill out i (x ∷ xs) filled m e h loads old (w, rest) =
      let y = (copy x m).0 in
      let k = store kind (copy x m).1 out i y in
      let r = round out i x m (filled ++ zeros kind (x ∷ xs)) h loads w in
      let (old_shown, old_within) = frame-All m k filled r.behind old in
      let (rest_shown, rest_within) = frame-All m k xs r.before rest in
      let loaded =
        r.loads
        ∙ ap (λ (n : ℕ). some (set (filled ++ zeros kind (x ∷ xs)) n y)) e
        ∙ ap (λ (l : List A). some l) (set-append filled (zeros kind xs) kind.zero_value y) in
      let f =
        fill out (suc i) xs (filled ++ (y ∷ [])) k (omega (arith, length-append filled (y ∷ [])))
          (omega (arith, r.grows)) loaded
          (All-append (shape.Within (suc out) (length k) k) filled (y ∷ [])
            (widen-All k filled (omega arith) r.grows old_within) (r.new, tt))
          rest_within in
      record {
        all = f.all;
        grows = omega (arith, f.grows, r.grows);
        keeps = Agree-trans r.before f.keeps;
        loads = f.loads;
        within = f.within;
        shows =
            f.shows
            ∙ simp (
              map-append (shape.view k) filled (y ∷ []),
              append_assoc,
              old_shown,
              rest_shown,
              r.shows,
            );
      }
