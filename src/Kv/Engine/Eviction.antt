-- ===== src/Kv/Engine/Eviction.antt =====
-- `tick` of src/kv/kv_engine.cpp, with `evict_expired` of src/kv/ttl.cpp, by what a client sees.
use fast_graph.Prelude.{
  ℕ, zero, suc, ◌<◌, ◌≡◌, refl, sym, ap, subst, ◌∙◌, inl, inr, Bool, true, false, not, ◌&&◌, none,
  some, List, [], ◌∷◌, ◌++◌, append-nil, append_assoc, arith, if◌then◌else◌, Bool-cases, length, ℤ,
  pos, ◌≤ℤ◌, leb_ℤ, ◌==◌, nat_eq, int_eq, text_eq, Text, eq_true,
}
use fast_graph.Kv.Ttl.{TtlManager, entry_at, remove_expiry, evict_loop, evict_expired}
use fast_graph.Kv.Ttl.Index.{IsIndexed, deadline}
use fast_graph.Kv.Ttl.Expiry.{Updates, remove_expiry-Updates}
use fast_graph.Kv.Engine.{MapOps, KvEngine, del_all, tick}
use fast_graph.Kv.Engine.Visible.{MapLaws, IsEngine, visible}

-- Whether a key is in a list.
abbrev pub has : Text → List Text → Bool
has k [] = false
has k (x ∷ xs) = if x == k then true else has k xs

-- The keys are out of `t'`, and their time in `t` was over.
pub record Evicts (t : TtlManager) (now : ℤ) (keys : List Text) (t' : TtlManager) : Type 0 where
  pub indexed : IsIndexed t'
  pub deadlines : (k : Text) → deadline t' k ≡ (if has k keys then none else deadline t k)
  pub over : (k : Text) → has k keys ≡ true → (d : ℤ) × (deadline t k ≡ some d) × (d ≤ℤ now)

evict_none : (t : TtlManager) (now : ℤ) → IsIndexed t → Evicts t now [] t
evict_none t now v = record { indexed = v; deadlines = λ k. refl; over = λ k h. cc }

first_deadline :
    (t : TtlManager)
    → IsIndexed t
    → 0 < length t.heap
    → deadline t (entry_at t.heap 0).key ≡ some (entry_at t.heap 0).expires_at
unfolding deadline
first_deadline t v h = let e = v.listed 0 h in rw (e, deadline) refl

evict_one :
    (t t' t'' : TtlManager) (now : ℤ) (key : Text) (d : ℤ) (keys : List Text)
    → deadline t key ≡ some d
    → d ≤ℤ now
    → Updates t t' key none
    → Evicts t' now keys t''
    → Evicts t now (key ∷ keys) t''
evict_one t t' t'' now key d keys e h u r = record {
  indexed = r.indexed;
  deadlines = λ k. ground (arith, r.deadlines k, u.deadlines k);
  over = λ k m. elim (Bool-cases (key == k)) [
    | inl same ↦ (d, subst (λ x. deadline t x ≡ some d) (eq_true key k same) e, h)
    | inr other ↦
        let (d', f, h') = r.over k (ground (arith, m, other)) in
        (d', ground (arith, f, u.deadlines k, other), h')
  ];
}

pub evict_loop_lem :
    (fuel : ℕ) (now : ℤ) (t : TtlManager) (acc : List Text)
    → IsIndexed t
    → (keys : List Text) × (t' : TtlManager) × (evict_loop fuel now t acc ≡ (acc ++ keys, t'))
      × Evicts t now keys t'
unfolding evict_loop
evict_loop_lem zero now t acc v =
    ([], t, ap (λ x. (x, t)) (sym (append-nil acc)), evict_none t now v)
evict_loop_lem (suc fuel) now t acc v =
    let first = entry_at t.heap 0 in
    elim (Bool-cases (not (length t.heap == 0) && leb_ℤ first.expires_at now)) [
      | inl over ↦
          let u = remove_expiry-Updates t first.key v in
          let (keys, t'', ends, r) =
            evict_loop_lem fuel now (remove_expiry t first.key) (acc ++ first.key ∷ []) u.indexed in
          (
            first.key ∷ keys,
            t'',
            rw (over, evict_loop)
                (ends ∙ ap (λ x. (x, t'')) (append_assoc acc (first.key ∷ []) keys)),
            evict_one t (remove_expiry t first.key) t'' now first.key first.expires_at keys
                (first_deadline t v (ground (arith, over))) (ground (arith, over)) u r,
          )
      | inr rest ↦ (
        [],
        t,
        rw (rest, evict_loop) (ap (λ x. (x, t)) (sym (append-nil acc))),
        evict_none t now v,
      )
    ]

module _ {M : Type 0} (o : MapOps M) (IsMap HasRoom : M → Type 0)
    (laws : MapLaws o IsMap HasRoom) where
  del_all_lem :
      (keys : List Text) (m : M)
      → IsMap m
      → IsMap (del_all o keys m)
        × ((j : Text)
            → o.map_get (del_all o keys m) j ≡ (if has j keys then none else o.map_get m j))
  unfolding del_all
  del_all_lem [] m v = (v, λ j. refl)
  del_all_lem (key ∷ keys) m v =
      let (v', gets) = del_all_lem keys (o.map_del m key).1 (laws.del-IsMap m key v) in
      (v', λ j. ground (arith, gets j, laws.get-del m key j v))

  evicted_visible :
      (e : KvEngine M) (m : M) (t : TtlManager) (keys : List Text) (now later : ℤ) (j : Text)
      → Evicts e.ttl now keys t
      → o.map_get m j ≡ (if has j keys then none else o.map_get e.map j)
      → ((k : Text) (d : ℤ) → deadline e.ttl k ≡ some d → pos 0 ≤ℤ d)
      → now ≤ℤ later
      → visible o (record { map = m; ttl = t }) later j ≡ visible o e later j
  evicted_visible e m t keys now later j r gets nonneg after = elim (Bool-cases (has j keys)) [
    | inl gone ↦
        let (d, f, h) = r.over j gone in
        let low = nonneg j d f in ground (arith, gets, r.deadlines j, gone, f)
    | inr stays ↦ ground (arith, gets, r.deadlines j, stays)
  ]

  -- On a valid engine over a map that obeys the laws, where no deadline is negative, `tick` keeps the
  -- engine valid and changes nothing that is seen under any key from that time on.
  pub tick-visible :
      (e : KvEngine M) (now : ℤ)
      → IsEngine IsMap e
      → ((k : Text) (d : ℤ) → deadline e.ttl k ≡ some d → pos 0 ≤ℤ d)
      → IsEngine IsMap (tick o e now)
        × ((later : ℤ) (j : Text)
            → now ≤ℤ later
            → visible o (tick o e now) later j ≡ visible o e later j)
  unfolding tick evict_expired
  tick-visible e now v nonneg =
      let (keys, t, ends, r) = evict_loop_lem (length e.ttl.heap) now e.ttl [] v.deadlines in
      let (valid, gets) = del_all_lem keys e.map v.values in
      rw ends (
        record { values = valid; deadlines = r.indexed },
        λ later j after.
            evicted_visible e (del_all o keys e.map) t keys now later j r (gets j) nonneg after,
      )
