-- ===== src/Index/SkipList/Linking.antt =====
-- The loops of src/index/skiplist.cpp that put a node in, and take one out, level by level.
use fast_graph.Prelude.{
  ℕ, zero, suc, ◌+◌, ◌≤◌, ◌<◌, ◌≡◌, refl, sym, ap, subst, ◌∙◌, inl, inr, false, ◌&&◌, some, List,
  arith, ltb, leb, if◌then◌else◌, Bool-cases, Option-cases, length, get_or, ◌==◌, nat_eq, int_eq,
  text_eq, eq_refl, eq_true,
}
use fast_graph.Index.SkipList.{ScoreOps, SkipNode, node_at, set_next, link, unlink}
use fast_graph.Index.SkipList.Descent.{nx}
use fast_graph.Index.SkipList.Writes.{
  Rewired, unchanged, then-Rewired, set_next-Rewired, nx-set_next,
}

module _ {Dbl : Type 0} (o : ScoreOps Dbl) where
  -- A pointer that a loop may write.
  pub record Writable (nodes : List (SkipNode Dbl)) (l p : ℕ) : Type 0 where
    pub inside : p < length nodes
    pub wide : l < length (node_at o nodes p).forward

  Rewired-Writable :
      (a b : List (SkipNode Dbl)) (l p : ℕ) → Rewired o a b → Writable a l p → Writable b l p
  Rewired-Writable a b l p r w = record {
    inside = let c = r.count in let h = w.inside in omega arith;
    wide = let c = r.widths p in let h = w.wide in omega arith;
  }

  -- One level of `link`.
  module _ (i u n : ℕ) (nodes : List (SkipNode Dbl)) (wn : Writable nodes i n)
      (wu : Writable nodes i u) where
    abbrev once : List (SkipNode Dbl)
    once = set_next o n i (nx o nodes i u) nodes

    abbrev twice : List (SkipNode Dbl)
    twice = set_next o u i (some n) once

    once-Rewired : Rewired o nodes once
    once-Rewired = set_next-Rewired o n i (nx o nodes i u) nodes wn.inside

    wu' : Writable once i u
    wu' = Rewired-Writable nodes once i u once-Rewired wu

    twice-Rewired : Rewired o nodes twice
    twice-Rewired =
        then-Rewired o nodes once twice once-Rewired
          (set_next-Rewired o u i (some n) once wu'.inside)

    nx-twice :
        (l p : ℕ)
        → nx o twice l p ≡ (
            if i == l
            then if u == p then some n else if n == p then nx o nodes i u else nx o nodes l p
            else nx o nodes l p)
    nx-twice l p =
        let e = nx-set_next o u i (some n) once wu'.inside l p wu'.wide in
        let f = nx-set_next o n i (nx o nodes i u) nodes wn.inside l p wn.wide in
        ground (arith, e, f)

  -- The pointers after `link`.
  abbrev pub Linked : List (SkipNode Dbl) → List (SkipNode Dbl) → List ℕ → ℕ → ℕ → ℕ → Type 0
  Linked nodes nodes' update n lo hi =
      (l p : ℕ)
      → nx o nodes' l p ≡ (
          if leb lo l && ltb l hi
          then if get_or update l 0 == p
            then some n
            else if n == p
            then nx o nodes l (get_or update l 0)
            else nx o nodes l p
          else nx o nodes l p)

  pub link_lem :
      (k i : ℕ) (update : List ℕ) (n : ℕ) (nodes : List (SkipNode Dbl))
      → ((j : ℕ) → j < i + k → Writable nodes j n)
      → ((j : ℕ) → j < i + k → Writable nodes j (get_or update j 0))
      → Rewired o nodes (link o k i update n nodes)
        × Linked nodes (link o k i update n nodes) update n i (i + k)
  unfolding link
  link_lem zero i update n nodes wn wu = (unchanged o nodes, λ l p. ground arith)
  link_lem (suc k) i update n nodes wn wu =
      let u = get_or update i 0 in
      let wn₀ = wn i (omega arith) in
      let wu₀ = wu i (omega arith) in
      let nodes₂ = twice i u n nodes wn₀ wu₀ in
      let r₂ = twice-Rewired i u n nodes wn₀ wu₀ in
      let (r, linked) =
        link_lem k (i + 1) update n nodes₂
          (λ j h. Rewired-Writable nodes nodes₂ j n r₂ (wn j (omega arith)))
          (λ j h. Rewired-Writable nodes nodes₂ j (get_or update j 0) r₂ (wu j (omega arith))) in
      (
        then-Rewired o nodes nodes₂ (link o k (i + 1) update n nodes₂) r₂ r,
        λ l p.
            let at = nx-twice i u n nodes wn₀ wu₀ l in
            elim (Bool-cases (i == l)) [
              | inl h ↦
                  let e = linked l p in
                  let s = eq_true i l h in
                  ground (
                    arith,
                    e,
                    at p,
                    h,
                    s,
                    ap (λ x. get_or update x 0) s,
                    ap (λ x. nx o nodes x u) s,
                  )
              | inr h ↦ let e = linked l p in ground (arith, e, at p, at (get_or update l 0), h)
            ],
      )

  -- The pointers after `unlink`, where `lvl` is the level of the target.
  abbrev pub Unlinked : List (SkipNode Dbl) → List (SkipNode Dbl) → List ℕ → ℕ → ℕ → ℕ → ℕ → Type 0
  Unlinked nodes nodes' update target lvl lo hi =
      (l p : ℕ)
      → nx o nodes' l p ≡ (
          if leb lo l && ltb l hi && ltb l lvl && get_or update l 0 == p
          then nx o nodes l target
          else nx o nodes l p)

  -- The levels of the target are those whose search ended in front of it.
  pub record Ahead (nodes : List (SkipNode Dbl)) (update : List ℕ) (target lvl j : ℕ) : Type 0 where
    pub writable : Writable nodes j (get_or update j 0)
    pub points : j < lvl → nx o nodes j (get_or update j 0) ≡ some target
    pub passes :
        lvl ≤ j → (q : ℕ) → nx o nodes j (get_or update j 0) ≡ some q → (q == target) ≡ false

  unlink_go :
      (k i : ℕ) (update : List ℕ) (target : ℕ) (nodes : List (SkipNode Dbl))
      → nx o nodes i (get_or update i 0) ≡ some target
      → unlink o (suc k) i update target nodes
        ≡ unlink o k
            (i + 1)
            update
            target
            (set_next o (get_or update i 0) i (nx o nodes i target) nodes)
  unfolding unlink
  unlink_go k i update target nodes e = rw (e, unlink) (rw (eq_refl target) refl)

  unlink_stop :
      (k i : ℕ) (update : List ℕ) (target : ℕ) (nodes : List (SkipNode Dbl))
      → ((q : ℕ) → nx o nodes i (get_or update i 0) ≡ some q → (q == target) ≡ false)
      → unlink o (suc k) i update target nodes ≡ nodes
  unfolding unlink
  unlink_stop k i update target nodes other =
      elim (Option-cases (nx o nodes i (get_or update i 0))) [
        | inl e ↦ rw (e, unlink) refl
        | inr (q, e) ↦ rw (e, unlink) (rw (other q e) refl)
      ]

  -- The result of the loop.
  abbrev Unlinks : List (SkipNode Dbl) → List (SkipNode Dbl) → List ℕ → ℕ → ℕ → ℕ → ℕ → Type 0
  Unlinks nodes nodes' update target lvl lo hi =
      Rewired o nodes nodes' × Unlinked nodes nodes' update target lvl lo hi

  pub unlink_lem :
      (k i : ℕ) (update : List ℕ) (target lvl : ℕ) (nodes : List (SkipNode Dbl))
      → ((j : ℕ) → j < i + k → i ≤ j → Ahead nodes update target lvl j)
      → Rewired o nodes (unlink o k i update target nodes)
        × Unlinked nodes (unlink o k i update target nodes) update target lvl i (i + k)
  unfolding unlink
  unlink_lem zero i update target lvl nodes a = (unchanged o nodes, λ l p. ground arith)
  unlink_lem (suc k) i update target lvl nodes a =
      let u = get_or update i 0 in
      let here = a i (omega arith) (omega arith) in
      elim (Bool-cases (ltb i lvl)) [
        | inl low ↦
            let w = here.writable in
            let q = nx o nodes i target in
            let nodes₁ = set_next o u i q nodes in
            let r₁ = set_next-Rewired o u i q nodes w.inside in
            let at = λ (l p : ℕ). nx-set_next o u i q nodes w.inside l p w.wide in
            let (r, unlinked) = unlink_lem k (i + 1) update target lvl nodes₁ (λ j h h'.
              let b = a j (omega arith) (omega arith) in
              let apart : (i == j) ≡ false = ground arith in
              let same : nx o nodes₁ j (get_or update j 0) ≡ nx o nodes j (get_or update j 0) =
                ground (arith, at j (get_or update j 0), apart) in
              record {
                writable = Rewired-Writable nodes nodes₁ j (get_or update j 0) r₁ b.writable;
                points = λ g. same ∙ b.points g;
                passes = λ g x e. b.passes g x (sym same ∙ e);
              }) in
            subst (λ nodes'. Unlinks nodes nodes' update target lvl i (i + suc k))
              (sym (unlink_go k i update target nodes (here.points (ground arith))))
              (
                then-Rewired o nodes nodes₁ (unlink o k (i + 1) update target nodes₁) r₁ r,
                λ l p. elim (Bool-cases (i == l)) [
                  | inl h ↦
                      let s = eq_true i l h in
                      ground (
                        arith,
                        unlinked l p,
                        at l p,
                        h,
                        s,
                        low,
                        ap (λ x. get_or update x 0) s,
                        ap (λ x. nx o nodes x target) s,
                      )
                  | inr h ↦ ground (arith, unlinked l p, at l p, at l target, h)
                ],
              )
        | inr high ↦
            subst (λ nodes'. Unlinks nodes nodes' update target lvl i (i + suc k))
              (sym (unlink_stop k i update target nodes (here.passes (ground arith))))
              (unchanged o nodes, λ l p. ground (arith, high))
      ]
