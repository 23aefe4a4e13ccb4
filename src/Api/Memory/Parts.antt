-- ===== src/Api/Memory/Parts.antt =====
-- Deep copies of structs, from those of their parts.
use turtles_etcd_restore.Base.{◌≡◌, refl, sym, ap, ◌∙◌, arith, List, length}
use mathlib.Core.Path.{subst}
use turtles_etcd_restore.Api.Memory.Cells.{Agree, Agree-trans, Agree-narrow}
use turtles_etcd_restore.Api.Memory.Copy.{DeepCopyInto, Shape, Copied, IsDeep}

-- `*out = *in`, of a type that has no pointers.
abbrev pub copy_plain : {Cell A : Type 0} → DeepCopyInto Cell A
copy_plain a m = (a, m)

abbrev pub plain_shape : (Cell A : Type 0) → Shape Cell A
plain_shape Cell A = record { View = A; view = λ m a. a; Within = λ lo hi m a. Unit }

pub plain-IsDeep : {Cell A : Type 0} → IsDeep (plain_shape Cell A) copy_plain
plain-IsDeep = record {
  widen = λ h k w. tt;
  frame = λ agree w. (refl, tt);
  copied = λ m a w. record {
    grows = omega arith;
    keeps = record { same = λ p h k. refl };
    shows = refl;
    new = tt;
  };
}

-- One part, then another.
abbrev pub copy_both :
    {Cell A B : Type 0} → DeepCopyInto Cell A → DeepCopyInto Cell B → DeepCopyInto Cell (A × B)
copy_both f g (a, b) m = let (a', k) = f a m in let (b', l) = g b k in ((a', b'), l)

abbrev pub both_shape : {Cell A B : Type 0} → Shape Cell A → Shape Cell B → Shape Cell (A × B)
both_shape s t = record {
  View = s.View × t.View;
  view = λ m p. (s.view m p.0, t.view m p.1);
  Within = λ lo hi m p. s.Within lo hi m p.0 × t.Within lo hi m p.1;
}

module _ {Cell A B : Type 0} {f : DeepCopyInto Cell A} {g : DeepCopyInto Cell B} {s : Shape Cell A}
    {t : Shape Cell B} (deep_f : IsDeep s f) (deep_g : IsDeep t g) where
  copied_both :
      (m : List Cell) (p : A × B)
      → (both_shape s t).Within 0 (length m) m p
      → Copied (both_shape s t) m p (copy_both f g p m)
  copied_both m (a, b) (u, v) =
      let k = (f a m).1 in
      let c = deep_f.copied m a u in
      let (b_shown, b_within) = deep_g.frame c.keeps v in
      let d = deep_g.copied k b (deep_g.widen (omega arith) c.grows b_within) in
      let (a_shown, a_within) =
        deep_f.frame (Agree-narrow (omega arith) (omega arith) d.keeps) c.new in
      record {
        grows = omega (arith, c.grows, d.grows);
        keeps = Agree-trans c.keeps (Agree-narrow (omega arith) c.grows d.keeps);
        shows = λ i. ((a_shown ∙ c.shows) i, (d.shows ∙ b_shown) i);
        new =
            (deep_f.widen (omega arith) d.grows a_within, deep_g.widen c.grows (omega arith) d.new);
      }

  pub both-IsDeep : IsDeep (both_shape s t) (copy_both f g)
  both-IsDeep = record {
    widen = λ h k w. (deep_f.widen h k w.0, deep_g.widen h k w.1);
    frame = λ agree w.
        let (e, x) = deep_f.frame agree w.0 in
        let (e', x') = deep_g.frame agree w.1 in (λ i. (e i, e' i), (x, x'));
    copied = copied_both;
  }

-- A struct `B` with a part that has pointers, and the rest, which is copied by `*out = *in`.
pub record Struct (B P R : Type 0) : Type 0 where
  pub part : B → P
  pub put : B → P → B
  pub rest : B → R
  pub part-put : (b : B) (p : P) → part (put b p) ≡ p
  pub rest-put : (b : B) (p : P) → rest (put b p) ≡ rest b

abbrev pub copy_struct :
    {Cell B P R : Type 0} → Struct B P R → DeepCopyInto Cell P → DeepCopyInto Cell B
copy_struct struct f b m = let (p, k) = f (struct.part b) m in (struct.put b p, k)

abbrev pub struct_shape : {Cell B P R : Type 0} → Struct B P R → Shape Cell P → Shape Cell B
struct_shape {R} struct s = record {
  View = R × s.View;
  view = λ m b. (struct.rest b, s.view m (struct.part b));
  Within = λ lo hi m b. s.Within lo hi m (struct.part b);
}

module _ {Cell B P R : Type 0} (struct : Struct B P R) {f : DeepCopyInto Cell P} {s : Shape Cell P}
    (deep : IsDeep s f) where
  copied_struct :
      (m : List Cell) (b : B)
      → (struct_shape struct s).Within 0 (length m) m b
      → Copied (struct_shape struct s) m b (copy_struct struct f b m)
  copied_struct m b w =
      let p = (f (struct.part b) m).0 in
      let k = (f (struct.part b) m).1 in
      let c = deep.copied m (struct.part b) w in
      record {
        grows = c.grows;
        keeps = c.keeps;
        shows = λ i. (struct.rest-put b p i, (ap (s.view k) (struct.part-put b p) ∙ c.shows) i);
        new = subst (s.Within (length m) (length k) k) (sym (struct.part-put b p)) c.new;
      }

  pub struct-IsDeep : IsDeep (struct_shape struct s) (copy_struct struct f)
  struct-IsDeep = record {
    widen = λ h k w. deep.widen h k w;
    frame = λ {a = b} agree w. let (e, x) = deep.frame agree w in (λ i. (struct.rest b, e i), x);
    copied = copied_struct;
  }

-- The copy shows what the original shows, also after writes to whatever was there before; and the
-- original shows what it did, also after writes to whatever the copy has made.
pub copy_apart :
    {Cell A : Type 0} {f : DeepCopyInto Cell A} {s : Shape Cell A}
    → IsDeep s f
    → (m l k : List Cell) (a : A) → s.Within 0 (length m) m a
    → Agree (length m) (length (f a m).1) (f a m).1 l
    → Agree 0 (length m) (f a m).1 k
    → (s.view l (f a m).0 ≡ s.view m a) × (s.view k a ≡ s.view m a)
copy_apart deep m l k a w after before =
    let c = deep.copied m a w in
    ((deep.frame after c.new).0 ∙ c.shows, (deep.frame (Agree-trans c.keeps before) w).0)
