-- ===== src/Index/SkipList/Chain.antt =====
-- One level of the skip list of src/index/skiplist.cpp: the nodes that its pointers lead to, in turn.
use fast_graph.Prelude.{
  ℕ, ◌≤◌, ◌≡◌, refl, sym, ap, subst, ◌∙◌, inl, inr, Bool, true, false, not, ◌&&◌, ◌||◌, Option,
  none, some, List, [], ◌∷◌, ◌++◌, arith, if◌then◌else◌, Bool-cases, length, ◌==◌, nat_eq, int_eq,
  text_eq, eq_refl, eq_true, eq_symm,
}

abbrev pub mem : ℕ → List ℕ → Bool
mem p [] = false
mem p (x ∷ xs) = x == p || mem p xs

abbrev pub distinct : List ℕ → Bool
distinct [] = true
distinct (x ∷ xs) = not (mem x xs) && distinct xs

abbrev pub all {ℓ} : {A : Type ℓ} → (A → Bool) → List A → Bool
all test [] = true
all test (x ∷ xs) = test x && all test xs

-- The elements that pass.
abbrev pub keep : (ℕ → Bool) → List ℕ → List ℕ
keep test [] = []
keep test (x ∷ xs) = if test x then x ∷ keep test xs else keep test xs

-- The last of `c ∷ xs`.
abbrev pub last : ℕ → List ℕ → ℕ
last c [] = c
last c (x ∷ xs) = last x xs

-- From `c` the pointers lead to `xs`, and then nowhere.
abbrev pub Chain : (ℕ → Option ℕ) → ℕ → List ℕ → Type 0
Chain nx c [] = nx c ≡ none
Chain nx c (x ∷ xs) = (nx c ≡ some x) × Chain nx x xs

pub mem-append : (p : ℕ) (xs ys : List ℕ) → mem p (xs ++ ys) ≡ (mem p xs || mem p ys)
mem-append p [] ys = refl
mem-append p (x ∷ xs) ys = ground (arith, mem-append p xs ys)

pub mem-keep :
    (p : ℕ) (test : ℕ → Bool) (xs : List ℕ) → mem p (keep test xs) ≡ true → mem p xs ≡ true
mem-keep p test [] h = h
mem-keep p test (x ∷ xs) h = elim (Bool-cases (test x)) [
  | inl e ↦ elim (Bool-cases (x == p)) [
    | inl same ↦ rw same refl
    | inr other ↦ rw other (mem-keep p test xs (ground (arith, h, e, other)))
  ]
  | inr e ↦ let r = mem-keep p test xs (ground (arith, h, e)) in ground (arith, r)
]

pub mem-keep_test :
    (p : ℕ) (test : ℕ → Bool) (xs : List ℕ) → mem p (keep test xs) ≡ true → test p ≡ true
mem-keep_test p test [] h = cc
mem-keep_test p test (x ∷ xs) h = elim (Bool-cases (test x)) [
  | inl e ↦ elim (Bool-cases (x == p)) [
    | inl same ↦ subst (λ y. test y ≡ true) (eq_true x p same) e
    | inr other ↦ mem-keep_test p test xs (ground (arith, h, e, other))
  ]
  | inr e ↦ mem-keep_test p test xs (ground (arith, h, e))
]

pub distinct-keep :
    (test : ℕ → Bool) (xs : List ℕ) → distinct xs ≡ true → distinct (keep test xs) ≡ true
distinct-keep test [] h = h
distinct-keep test (x ∷ xs) h =
    let r = distinct-keep test xs (ground (arith, h)) in
    elim (Bool-cases (test x)) [
      | inl e ↦ elim (Bool-cases (mem x (keep test xs))) [
        | inl m ↦ let q = mem-keep x test xs m in absurd (ground (arith, q, h))
        | inr m ↦ ground (arith, e, m, r)
      ]
      | inr e ↦ ground (arith, e, r)
    ]

pub keep-append :
    (test : ℕ → Bool) (xs ys : List ℕ) → keep test (xs ++ ys) ≡ keep test xs ++ keep test ys
keep-append test [] ys = refl
keep-append test (x ∷ xs) ys = elim (Bool-cases (test x)) [
  | inl e ↦ rw e (ap (λ l. x ∷ l) (keep-append test xs ys))
  | inr e ↦ rw e (keep-append test xs ys)
]

pub all-append {ℓ} :
    {A : Type ℓ} (test : A → Bool) (xs ys : List A)
    → all test (xs ++ ys) ≡ (all test xs && all test ys)
all-append test [] ys = refl
all-append test (x ∷ xs) ys = ground (arith, all-append test xs ys)

pub all-keep :
    (test keeps : ℕ → Bool) (xs : List ℕ) → all test xs ≡ true → all test (keep keeps xs) ≡ true
all-keep test keeps [] h = h
all-keep test keeps (x ∷ xs) h =
    let r = all-keep test keeps xs (ground (arith, h)) in ground (arith, r, h)

pub all-mem :
    (test : ℕ → Bool) (xs : List ℕ) (p : ℕ) → all test xs ≡ true → mem p xs ≡ true → test p ≡ true
all-mem test [] p h m = cc
all-mem test (x ∷ xs) p h m = elim (Bool-cases (x == p)) [
  | inl same ↦ subst (λ y. test y ≡ true) (eq_true x p same) (ground (arith, h))
  | inr other ↦ all-mem test xs p (ground (arith, h)) (ground (arith, m, other))
]

pub last-mem : (c : ℕ) (xs : List ℕ) → mem (last c xs) (c ∷ xs) ≡ true
last-mem c [] = rw (eq_refl c) refl
last-mem c (x ∷ xs) = let r = last-mem x xs in ground (arith, r)

pub Chain-last :
    (nx : ℕ → Option ℕ) (c : ℕ) (xs ys : List ℕ) → Chain nx c (xs ++ ys) → Chain nx (last c xs) ys
Chain-last nx c [] ys h = h
Chain-last nx c (x ∷ xs) ys (e, h) = Chain-last nx x xs ys h

pub Chain-congr :
    (nx nx' : ℕ → Option ℕ) (c : ℕ) (xs : List ℕ)
    → Chain nx c xs
    → ((p : ℕ) → mem p (c ∷ xs) ≡ true → nx' p ≡ nx p)
    → Chain nx' c xs
Chain-congr nx nx' c [] h same = same c (rw (eq_refl c) refl) ∙ h
Chain-congr nx nx' c (x ∷ xs) (e, h) same = (
  same c (rw (eq_refl c) refl) ∙ e,
  Chain-congr nx nx' x xs h (λ p m. same p (ground (arith, m))),
)

pub mem-ne : (p x : ℕ) (xs : List ℕ) → mem p xs ≡ true → mem x xs ≡ false → (x == p) ≡ false
mem-ne p x xs m f = elim (Bool-cases (x == p)) [
  | inl same ↦ absurd (ground (arith, m, f, eq_true x p same))
  | inr other ↦ other
]

-- The first of a list is not the last of a later part of it.
pub last-ne :
    (c x : ℕ) (xs ys : List ℕ) → distinct (c ∷ x ∷ xs ++ ys) ≡ true → (last x xs == c) ≡ false
last-ne c x xs ys d =
    let m = last-mem x xs in
    let part = mem-append (last x xs) (x ∷ xs) ys in
    rw (eq_symm (last x xs) c)
      (mem-ne (last x xs) c (x ∷ xs ++ ys) (ground (arith, part, m)) (ground (arith, d)))

-- A new node behind the last of `xs`.
pub Chain-splice :
    (nx nx' : ℕ → Option ℕ) (c n : ℕ) (xs ys : List ℕ)
    → Chain nx c (xs ++ ys)
    → distinct (c ∷ xs ++ ys) ≡ true
    → mem n (c ∷ xs ++ ys) ≡ false
    → nx' (last c xs) ≡ some n
    → nx' n ≡ nx (last c xs)
    → ((p : ℕ) → (last c xs == p) ≡ false → (n == p) ≡ false → nx' p ≡ nx p)
    → Chain nx' c (xs ++ n ∷ ys)
Chain-splice nx nx' c n [] [] h d new to from same = (to, from ∙ h)
Chain-splice nx nx' c n [] (y ∷ ys) (e, h) d new to from same = (
  to,
  (
    from ∙ e,
    Chain-congr nx nx' y ys h (λ p m.
        same p (mem-ne p c (y ∷ ys) m (ground (arith, d)))
          (mem-ne p n (y ∷ ys) m (ground (arith, new, eq_symm n c)))),
  ),
)
Chain-splice nx nx' c n (x ∷ xs) ys (e, h) d new to from same = (
  same c (last-ne c x xs ys d) (ground (arith, new, eq_symm n c)) ∙ e,
  Chain-splice nx nx' x n xs ys h (ground (arith, d)) (ground (arith, new)) to from same,
)

-- The node behind the last of `xs` is taken out.
pub Chain-cut :
    (nx nx' : ℕ → Option ℕ) (c t : ℕ) (xs ys : List ℕ)
    → Chain nx c (xs ++ t ∷ ys)
    → distinct (c ∷ xs ++ t ∷ ys) ≡ true
    → nx' (last c xs) ≡ nx t
    → ((p : ℕ) → (last c xs == p) ≡ false → nx' p ≡ nx p)
    → Chain nx' c (xs ++ ys)
Chain-cut nx nx' c t [] [] (e, h) d to same = to ∙ h
Chain-cut nx nx' c t [] (y ∷ ys) (e, (e', h)) d to same =
    (to ∙ e', Chain-congr nx nx' y ys h (λ p m. same p (mem-ne p c (y ∷ ys) m (ground (arith, d)))))
Chain-cut nx nx' c t (x ∷ xs) ys (e, h) d to same = (
  same c (last-ne c x xs (t ∷ ys) d) ∙ e,
  Chain-cut nx nx' x t xs ys h (ground (arith, d)) to same,
)

pub keep-in :
    (test : ℕ → Bool) (x : ℕ) (xs : List ℕ) → test x ≡ true → keep test (x ∷ xs) ≡ x ∷ keep test xs
keep-in test x xs e = rw e refl

pub keep-out :
    (test : ℕ → Bool) (x : ℕ) (xs : List ℕ) → test x ≡ false → keep test (x ∷ xs) ≡ keep test xs
keep-out test x xs e = rw e refl

-- What a search at a lower level goes over, where it starts at the last of `high`: the rest of `low`.
abbrev pub Resumes : (ℕ → Option ℕ) → ℕ → List ℕ → List ℕ → List ℕ → List ℕ → Type 0
Resumes nx c high low xs ys =
    (more : List ℕ) × Chain nx (last c high) (more ++ ys)
    × (last (last c high) more ≡ last c low)
    × ((test : ℕ → Bool) → all test xs ≡ true → all test more ≡ true)
    × (length more ≤ length xs)

resume_skip :
    (nx : ℕ → Option ℕ) (c x : ℕ) (high low xs ys : List ℕ)
    → nx c ≡ some x
    → Resumes nx x high low xs ys
    → Resumes nx c high (x ∷ low) (x ∷ xs) ys
resume_skip nx c x [] low xs ys e (more, chain, ends, passes, short) = (
  x ∷ more,
  (e, chain),
  ends,
  λ test q. let r = passes test (ground (arith, q)) in ground (arith, q, r),
  omega arith,
)
resume_skip nx c x (y ∷ high) low xs ys e (more, chain, ends, passes, short) =
    (more, chain, ends, λ test q. passes test (ground (arith, q)), omega arith)

pub resume :
    (nx : ℕ → Option ℕ) (tall taller : ℕ → Bool) (c : ℕ) (xs ys : List ℕ)
    → ((p : ℕ) → taller p ≡ true → tall p ≡ true)
    → Chain nx c (keep tall xs ++ ys)
    → Resumes nx c (keep taller xs) (keep tall xs) xs ys
resume nx tall taller c [] ys up h = ([], h, refl, λ test e. refl, omega arith)
resume nx tall taller c (x ∷ xs) ys up h = elim (Bool-cases (tall x)) [
  | inl e ↦
      let (first, behind) = subst (λ l. Chain nx c (l ++ ys)) (keep-in tall x xs e) h in
      let r = resume nx tall taller x xs ys up behind in
      subst (λ l. Resumes nx c (keep taller (x ∷ xs)) l (x ∷ xs) ys) (sym (keep-in tall x xs e))
        (elim (Bool-cases (taller x)) [
          | inl e' ↦
              let (more, chain, ends, passes, short) = r in
              subst (λ l. Resumes nx c l (x ∷ keep tall xs) (x ∷ xs) ys)
                (sym (keep-in taller x xs e'))
                (more, chain, ends, λ test q. passes test (ground (arith, q)), omega arith)
          | inr e' ↦
              subst (λ l. Resumes nx c l (x ∷ keep tall xs) (x ∷ xs) ys)
                (sym (keep-out taller x xs e'))
                (resume_skip nx c x (keep taller xs) (keep tall xs) xs ys first r)
        ])
  | inr e ↦
      let e' : taller x ≡ false = elim (Bool-cases (taller x)) [
        | inl q ↦ absurd (ground (arith, up x q, e))
        | inr q ↦ q
      ] in
      let (more, chain, ends, passes, short) =
        resume nx tall taller c xs ys up
          (subst (λ l. Chain nx c (l ++ ys)) (keep-out tall x xs e) h) in
      subst (λ l. Resumes nx c (keep taller (x ∷ xs)) l (x ∷ xs) ys) (sym (keep-out tall x xs e))
        (subst (λ l. Resumes nx c l (keep tall xs) (x ∷ xs) ys) (sym (keep-out taller x xs e'))
          (more, chain, ends, λ test q. passes test (ground (arith, q)), omega arith))
]
