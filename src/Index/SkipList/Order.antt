-- ===== src/Index/SkipList/Order.antt =====
-- The order of src/index/skiplist.cpp: by score, then by member.
use fast_graph.Prelude.{
  ◌≡◌, refl, sym, ap, ◌∙◌, ◌↔◌, inl, inr, Bool, true, false, not, ◌&&◌, ◌||◌, [], ◌∷◌, arith,
  Bool-cases, ◌==◌, nat_eq, int_eq, text_eq, Text,
}
use fast_graph.Index.SkipList.{ScoreOps, text_less}

pub text_less_irrefl : (a : Text) → text_less a a ≡ false
unfolding text_less
text_less_irrefl [] = refl
text_less_irrefl (x ∷ xs) = ground (arith, text_less_irrefl xs)

text_less_nil : (b : Text) → text_less b [] ≡ false
unfolding text_less
text_less_nil [] = refl
text_less_nil (y ∷ ys) = refl

pub text_less_trans :
    (a b c : Text) → text_less a b ≡ true → text_less b c ≡ true → text_less a c ≡ true
unfolding text_less
text_less_trans a b [] h h' = absurd (ground (arith, h', text_less_nil b))
text_less_trans [] b (z ∷ zs) h h' = refl
text_less_trans (x ∷ xs) [] (z ∷ zs) h h' = cc
text_less_trans (x ∷ xs) (y ∷ ys) (z ∷ zs) h h' = elim (Bool-cases (x == y && y == z)) [
  | inl e ↦
      let r = text_less_trans xs ys zs (ground (arith, h, e)) (ground (arith, h', e)) in
      ground (arith, e, r)
  | inr e ↦ ground (arith, h, h', e)
]

pub text_less_total : (a b : Text) → text_less a b ≡ false → text_less b a ≡ false → a ≡ b
unfolding text_less
text_less_total [] [] h h' = refl
text_less_total [] (y ∷ ys) h h' = cc
text_less_total (x ∷ xs) [] h h' = cc
text_less_total (x ∷ xs) (y ∷ ys) h h' =
    let e : x ≡ y = ground (arith, h, h') in
    let r = text_less_total xs ys (ground (arith, h, e)) (ground (arith, h', e)) in rw (e, r) refl

-- What the skip list relies on of `double`, with no NaN among the scores; equal scores are one score.
pub record ScoreLaws {Dbl : Type 0} (o : ScoreOps Dbl) : Type 0 where
  pub equal_iff : (a b : Dbl) → (o.equal a b ≡ true) ↔ (a ≡ b)
  pub less_irrefl : (a : Dbl) → o.less a a ≡ false
  pub less_trans : (a b c : Dbl) → o.less a b ≡ true → o.less b c ≡ true → o.less a c ≡ true
  pub less_total : (a b : Dbl) → o.less a b ≡ false → o.less b a ≡ false → a ≡ b
  pub leq_iff : (a b : Dbl) → o.leq a b ≡ not (o.less b a)

module _ {Dbl : Type 0} (o : ScoreOps Dbl) where
  abbrev pub before : Dbl × Text → Dbl × Text → Bool
  before a b = o.less a.0 b.0 || (o.equal a.0 b.0 && text_less a.1 b.1)

module _ {Dbl : Type 0} (o : ScoreOps Dbl) (laws : ScoreLaws o) where
  pub before_irrefl : (a : Dbl × Text) → before o a a ≡ false
  before_irrefl a = ground (arith, laws.less_irrefl a.0, text_less_irrefl a.1)

  pub before_trans :
      (a b c : Dbl × Text) → before o a b ≡ true → before o b c ≡ true → before o a c ≡ true
  before_trans (a, k) (b, l) (c, m) h h' = elim (Bool-cases (o.equal a b)) [
    | inl e ↦ elim (Bool-cases (o.equal b c)) [
      | inl e' ↦
          let p = (laws.equal_iff a b).0 e in
          let q = (laws.equal_iff b c).0 e' in
          let r = (laws.equal_iff a c).1 (p ∙ q) in
          elim (Bool-cases (o.less a c)) [
            | inl s ↦ rw s refl
            | inr s ↦
                let h1 : text_less k l ≡ true = ground (arith, h, ap (o.less a) q, s) in
                let h2 : text_less l m ≡ true = ground (arith, h', ap (λ x. o.less x c) p, s) in
                let t = text_less_trans k l m h1 h2 in ground (arith, r, t)
          ]
      | inr e' ↦ let p = (laws.equal_iff a b).0 e in ground (arith, ap (λ x. o.less x c) p, h', e')
    ]
    | inr e ↦ elim (Bool-cases (o.equal b c)) [
      | inl e' ↦ let q = (laws.equal_iff b c).0 e' in ground (arith, ap (o.less a) q, h, e)
      | inr e' ↦
          let t = laws.less_trans a b c (ground (arith, h, e)) (ground (arith, h', e')) in
          ground (arith, t)
    ]
  ]

  pub before_total : (a b : Dbl × Text) → before o a b ≡ false → before o b a ≡ false → a ≡ b
  before_total (a, k) (b, l) h h' =
      let e = laws.less_total a b (ground (arith, h)) (ground (arith, h')) in
      let q = (laws.equal_iff a b).1 e in
      let q' = (laws.equal_iff b a).1 (sym e) in
      let f = text_less_total k l (ground (arith, h, q)) (ground (arith, h', q')) in rw (e, f) refl
