-- ===== src/Kv/Ttl/Expiry.antt =====
-- `set_expiry`, `remove_expiry` and `get_expiry` of src/kv/ttl.cpp, by the deadlines of the keys.
use fast_graph.Prelude.{
  get_or-set, ℕ, ◌-◌, ◌<◌, ◌≡◌, ◌∙◌, inl, inr, false, Option, none, some, [], ◌∷◌, arith,
  if◌then◌else◌, Bool-cases, Option-cases, length, set, length-append, length-set, length-take,
  get_or-append, get_or-take, ℤ, negsuc, ◌+ℤ◌, ◌==◌, nat_eq, int_eq, text_eq, Text, eq_refl,
  eq_true,
}
use fast_graph.Prelude.Dict.{find, erase, find-put, find-erase}
use fast_graph.Kv.Ttl.{
  TtlEntry, TtlManager, no_entry, entry_at, set_deadline, push, set_expiry, replace_by_last,
  drop_last, remove_expiry, get_expiry,
}
use fast_graph.Kv.Ttl.Index.{IsIndexed, Rearranges, deadline}
use fast_graph.Kv.Ttl.Sift.{sift_up-Rearranges, sift-Rearranges}

-- `t'` is valid and has the deadline `d` for `key`, and for any other key that of `t`.
pub record Updates (t t' : TtlManager) (key : Text) (d : Option ℤ) : Type 0 where
  pub indexed : IsIndexed t'
  pub deadlines : (k : Text) → deadline t' k ≡ (if key == k then d else deadline t k)

then_sifted :
    (t t' t'' : TtlManager) (key : Text) (d : Option ℤ)
    → Updates t t' key d
    → Rearranges t' t''
    → Updates t t'' key d
then_sifted t t' t'' key d u r = record {
  indexed = r.indexed;
  deadlines = λ k. r.same k ∙ u.deadlines k;
}

pub set_deadline-Updates :
    (t : TtlManager) (key : Text) (i : ℕ) (d : ℤ)
    → IsIndexed t
    → find key t.index ≡ some i
    → Updates t (set_deadline i d t) key (some d)
unfolding set_deadline deadline
set_deadline-Updates t key i d v f =
    let e = record (entry_at t.heap i) { expires_at = d } in
    let (h, same) = v.placed key i f in
    let size = length-set t.heap i e in
    let at = λ (j : ℕ). get_or-set t.heap i j e no_entry h in
    record {
      indexed = record {
        placed = λ k j g. ground (arith, v.placed k j g, size, at j);
        listed = λ j g. ground (arith, v.listed j (omega (arith, size)), at j);
      };
      deadlines = λ k. elim (Option-cases (find k t.index)) [
        | inl n ↦ ground (arith, n, f, text_eq.beq_iff key k)
        | inr (j, n) ↦ ground (arith, n, f, at j, v.placed k j n, same, text_eq.beq_iff key k)
      ];
    }

pub push-Updates :
    (t : TtlManager) (key : Text) (d : ℤ)
    → IsIndexed t
    → find key t.index ≡ none
    → Updates t (push key d t) key (some d)
unfolding push deadline
push-Updates t key d v f =
    let n = length t.heap in
    let e : TtlEntry = record { expires_at = d; key = key; heap_idx = n } in
    let size = length-append t.heap (e ∷ []) in
    let at = λ (j : ℕ). get_or-append t.heap e j no_entry in
    let found = λ (k : Text). find-put key k n t.index in
    record {
      indexed = record {
        placed = λ k j g. ground (arith, v.placed k j, found k, size, at j, text_eq.beq_iff key k);
        listed = λ j g. ground (
          arith,
          v.listed j,
          f,
          size,
          at j,
          found key,
          eq_refl key,
          found (entry_at t.heap j).key,
          text_eq.beq_iff key (entry_at t.heap j).key,
        );
      };
      deadlines = λ k. elim (Option-cases (find k t.index)) [
        | inl e' ↦ ground (arith, e', at n, found k)
        | inr (j, e') ↦ ground (arith, e', at n, at j, found k, v.placed k j e')
      ];
    }

pub length-push : (t : TtlManager) (key : Text) (d : ℤ) → length t.heap < length (push key d t).heap
unfolding push
length-push t key d = omega (
  arith,
  length-append t.heap (record { expires_at = d; key = key; heap_idx = length t.heap } ∷ []),
)

pub length-set_deadline :
    (t : TtlManager) (i : ℕ) (d : ℤ) → i < length t.heap → i < length (set_deadline i d t).heap
unfolding set_deadline
length-set_deadline t i d h =
    omega (arith, length-set t.heap i (record (entry_at t.heap i) { expires_at = d }))

missing-Updates :
    (t : TtlManager) (key : Text) → IsIndexed t → find key t.index ≡ none → Updates t t key none
unfolding deadline
missing-Updates t key v e = record {
  indexed = v;
  deadlines = λ k. ground (arith, e, text_eq.beq_iff key k);
}

drop_last-Updates :
    (t : TtlManager) (key : Text) (i : ℕ)
    → IsIndexed t
    → find key t.index ≡ some i
    → i ≡ length t.heap - 1
    → Updates t (drop_last key t) key none
unfolding drop_last deadline
drop_last-Updates t key i v f e =
    let n = length t.heap - 1 in
    let (h, own) = v.placed key i f in
    let size = length-take n t.heap in
    let at = λ (j : ℕ). get_or-take n t.heap j no_entry in
    let found = λ (k : Text). find-erase key k t.index in
    record {
      indexed = record {
        placed = λ k j g.
            ground (arith, v.placed k j, found k, size, at j, f, own, e, text_eq.beq_iff key k);
        listed = λ j g. ground (
          arith,
          v.listed j,
          size,
          at j,
          f,
          own,
          e,
          found (entry_at t.heap j).key,
          text_eq.beq_iff key (entry_at t.heap j).key,
        );
      };
      deadlines = λ k. elim (Option-cases (find k t.index)) [
        | inl e' ↦ ground (arith, e', found k, text_eq.beq_iff key k)
        | inr (j, e') ↦
            ground (arith, e', f, e, own, at j, found k, v.placed k j e', text_eq.beq_iff key k)
      ];
    }

pub replace_by_last-Updates :
    (t : TtlManager) (key : Text) (i : ℕ)
    → IsIndexed t
    → find key t.index ≡ some i
    → (i == length t.heap - 1) ≡ false
    → Updates t (replace_by_last i key t) key none × (i < length (replace_by_last i key t).heap)
unfolding replace_by_last deadline
replace_by_last-Updates t key i v f other =
    let n = length t.heap - 1 in
    let (h, own) = v.placed key i f in
    let last = entry_at t.heap n in
    let moved : TtlEntry = record last { heap_idx = i } in
    let heap' = set t.heap i moved in
    let same = length-set t.heap i moved in
    let size = length-take (length heap' - 1) heap' in
    let at = λ (j : ℕ). get_or-take (length heap' - 1) heap' j no_entry in
    let before = λ (j : ℕ). get_or-set t.heap i j moved no_entry h in
    let found = λ (k : Text). find-put last.key k i (erase key t.index) in
    let gone = λ (k : Text). find-erase key k t.index in
    let at_last = v.listed n (omega arith) in
    (
      record {
        indexed = record {
          placed = λ k j g. ground (
            arith,
            v.placed k j,
            found k,
            gone k,
            same,
            size,
            at j,
            before j,
            f,
            own,
            other,
            at_last,
            text_eq.beq_iff key k,
            text_eq.beq_iff last.key k,
            int_eq.beq_iff,
          );
          listed = λ j g. ground (
            arith,
            v.listed j,
            same,
            size,
            at j,
            before j,
            f,
            own,
            other,
            at_last,
            found last.key,
            found (entry_at t.heap j).key,
            gone (entry_at t.heap j).key,
            eq_refl last.key,
            text_eq.beq_iff key (entry_at t.heap j).key,
            text_eq.beq_iff last.key (entry_at t.heap j).key,
          );
        };
        deadlines = λ k. elim (Option-cases (find k t.index)) [
          | inl e' ↦ ground (
            arith,
            e',
            f,
            at_last,
            found k,
            gone k,
            text_eq.beq_iff key k,
            text_eq.beq_iff last.key k,
          )
          | inr (j, e') ↦ ground (
            arith,
            e',
            f,
            own,
            other,
            at_last,
            found k,
            gone k,
            same,
            at i,
            at j,
            before i,
            before j,
            v.placed k j e',
            text_eq.beq_iff key k,
            text_eq.beq_iff last.key k,
          )
        ];
      },
      ground (arith, size, same, other),
    )

-- Giving a valid manager an expiry for a key, which may have one already, keeps it valid, sets the
-- deadline of the key to the sum, and leaves all other keys their deadlines.
pub set_expiry-Updates :
    (t : TtlManager) (now : ℤ) (key : Text) (ttl_ms : ℤ)
    → IsIndexed t
    → Updates t (set_expiry t now key ttl_ms) key (some (now +ℤ ttl_ms))
unfolding set_expiry
set_expiry-Updates t now key ttl_ms v = elim (Option-cases (find key t.index)) [
  | inl e ↦
      let u = push-Updates t key (now +ℤ ttl_ms) v e in
      let n = length t.heap in
      rw (e, set_expiry)
        (then_sifted t (push key (now +ℤ ttl_ms) t) _ key _ u (
          sift_up-Rearranges n n (push key (now +ℤ ttl_ms) t) u.indexed
            (length-push t key (now +ℤ ttl_ms))))
  | inr (i, e) ↦
      let t' = set_deadline i (now +ℤ ttl_ms) t in
      let u = set_deadline-Updates t key i (now +ℤ ttl_ms) v e in
      rw (e, set_expiry)
        (then_sifted t t' _ key _ u (
          sift-Rearranges i t' u.indexed
            (length-set_deadline t i (now +ℤ ttl_ms) (v.placed key i e).0)))
]

-- Removing the expiry of a key from a valid manager keeps it valid, takes the deadline of the key
-- away, if it had one, and leaves all other keys theirs.
pub remove_expiry-Updates :
    (t : TtlManager) (key : Text) → IsIndexed t → Updates t (remove_expiry t key) key none
unfolding remove_expiry
remove_expiry-Updates t key v = elim (Option-cases (find key t.index)) [
  | inl e ↦ rw (e, remove_expiry) (missing-Updates t key v e)
  | inr (i, e) ↦ elim (Bool-cases (i == length t.heap - 1)) [
    | inl last ↦ rw (e, remove_expiry) (rw last (drop_last-Updates t key i v e (eq_true i _ last)))
    | inr other ↦
        let t' = replace_by_last i key t in
        let (u, h) = replace_by_last-Updates t key i v e other in
        rw (e, remove_expiry)
          (rw other (then_sifted t t' _ key none u (sift-Rearranges i t' u.indexed h)))
  ]
]

-- `get_expiry` reads the deadline, or -1.
pub get_expiry_lem :
    (t : TtlManager) (key : Text)
    → get_expiry t key ≡ elim (deadline t key) [ none ↦ negsuc 0 | some d ↦ d ]
unfolding get_expiry deadline
get_expiry_lem t key = ground arith
