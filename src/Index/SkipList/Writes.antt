-- ===== src/Index/SkipList/Writes.antt =====
-- The writes to the pointers of src/index/skiplist.cpp.
use fast_graph.Prelude.{
  ℕ, ◌<◌, ◌≡◌, refl, ap, ◌∙◌, inl, inr, ◌&&◌, Option, none, List, if◌then◌else◌, Bool-cases, length,
  set, length-set, ◌==◌, nat_eq, int_eq, text_eq, eq_true, get_or-set,
}
use fast_graph.Index.SkipList.{ScoreOps, SkipNode, no_node, node_at, set_next}
use fast_graph.Index.SkipList.Descent.{nx}

module _ {Dbl : Type 0} (o : ScoreOps Dbl) where
  -- The nodes of `nodes'` are those of `nodes`, but for their pointers.
  pub record Rewired (nodes nodes' : List (SkipNode Dbl)) : Type 0 where
    pub scores : (p : ℕ) → (node_at o nodes' p).score ≡ (node_at o nodes p).score
    pub members : (p : ℕ) → (node_at o nodes' p).member ≡ (node_at o nodes p).member
    pub levels : (p : ℕ) → (node_at o nodes' p).level ≡ (node_at o nodes p).level
    pub widths : (p : ℕ) → length (node_at o nodes' p).forward ≡ length (node_at o nodes p).forward
    pub count : length nodes' ≡ length nodes

  pub unchanged : (nodes : List (SkipNode Dbl)) → Rewired nodes nodes
  unchanged nodes = record {
    scores = λ p. refl;
    members = λ p. refl;
    levels = λ p. refl;
    widths = λ p. refl;
    count = refl;
  }

  pub then-Rewired : (a b c : List (SkipNode Dbl)) → Rewired a b → Rewired b c → Rewired a c
  then-Rewired a b c r r' = record {
    scores = λ p. r'.scores p ∙ r.scores p;
    members = λ p. r'.members p ∙ r.members p;
    levels = λ p. r'.levels p ∙ r.levels p;
    widths = λ p. r'.widths p ∙ r.widths p;
    count = r'.count ∙ r.count;
  }

  module _ (p i : ℕ) (q : Option ℕ) (nodes : List (SkipNode Dbl)) (inside : p < length nodes) where
    abbrev changed : SkipNode Dbl
    changed = record (node_at o nodes p) { forward = set (node_at o nodes p).forward i q }

    node_at-set_next :
        (j : ℕ)
        → node_at o (set_next o p i q nodes) j ≡ (if p == j then changed else node_at o nodes j)
    unfolding set_next
    node_at-set_next j = get_or-set nodes p j changed (no_node o) inside

    node_at-set_next_same :
        {B : Type 0} (f : SkipNode Dbl → B)
        → f changed ≡ f (node_at o nodes p)
        → (j : ℕ) → f (node_at o (set_next o p i q nodes) j) ≡ f (node_at o nodes j)
    node_at-set_next_same f e j = elim (Bool-cases (p == j)) [
      | inl h ↦
          ap f (node_at-set_next j ∙ rw h refl)
          ∙ e
          ∙ ap (λ x. f (node_at o nodes x)) (eq_true p j h)
      | inr h ↦ ap f (node_at-set_next j ∙ rw h refl)
    ]

    pub set_next-Rewired : Rewired nodes (set_next o p i q nodes)
    unfolding set_next
    set_next-Rewired = record {
      scores = node_at-set_next_same (λ n. n.score) refl;
      members = node_at-set_next_same (λ n. n.member) refl;
      levels = node_at-set_next_same (λ n. n.level) refl;
      widths =
          node_at-set_next_same (λ n. length n.forward)
            (length-set (node_at o nodes p).forward i q);
      count = length-set nodes p changed;
    }

    pub nx-set_next :
        (k j : ℕ)
        → i < length (node_at o nodes p).forward
        → nx o (set_next o p i q nodes) k j ≡ (if p == j && i == k then q else nx o nodes k j)
    nx-set_next k j hi =
        let e = node_at-set_next j in
        elim (Bool-cases (p == j)) [
          | inl h ↦
              let e' : node_at o (set_next o p i q nodes) j ≡ changed = e ∙ rw h refl in
              let f = get_or-set (node_at o nodes p).forward i k q none hi in
              rw (e', h) (f ∙ rw (eq_true p j h) refl)
          | inr h ↦
              let e' : node_at o (set_next o p i q nodes) j ≡ node_at o nodes j = e ∙ rw h refl in
              rw (e', h) refl
        ]
