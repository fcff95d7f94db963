-- ===== src/Kv/Engine/Visible.antt =====
-- src/kv/kv_engine.cpp by what a client sees under a key at a time.
use fast_graph.Prelude.{
  ◌≡◌, refl, inl, inr, Bool, true, false, ◌&&◌, Option, none, some, arith, if◌then◌else◌,
  Bool-cases, Option-cases, ℤ, pos, ◌+ℤ◌, ◌≤ℤ◌, ltb_ℤ, leb_ℤ, ◌==◌, nat_eq, int_eq, text_eq, Text,
}
use fast_graph.Kv.Ttl.{TtlManager, get_expiry}
use fast_graph.Kv.Ttl.Index.{IsIndexed, deadline}
use fast_graph.Kv.Ttl.Expiry.{set_expiry-Updates, remove_expiry-Updates, get_expiry_lem}
use fast_graph.Kv.Engine.{MapOps, KvEngine, set, get, del}

-- What the engine relies on: a map from keys to values, on the states that its operations keep.
-- `HasRoom` is what `set` asks for.
pub record MapLaws {M : Type 0} (o : MapOps M) (IsMap HasRoom : M → Type 0) : Type 0 where
  pub set-IsMap : (m : M) (k v : Text) → IsMap m → HasRoom m → IsMap (o.map_set m k v).1
  pub del-IsMap : (m : M) (k : Text) → IsMap m → IsMap (o.map_del m k).1
  pub get-set :
      (m : M) (k v j : Text)
      → IsMap m
      → HasRoom m
      → o.map_get (o.map_set m k v).1 j ≡ (if k == j then some v else o.map_get m j)
  pub get-del :
      (m : M) (k j : Text)
      → IsMap m
      → o.map_get (o.map_del m k).1 j ≡ (if k == j then none else o.map_get m j)

-- A deadline is over from its time on; a negative one never counts.
abbrev pub expired : Option ℤ → ℤ → Bool
expired none now = false
expired (some d) now = leb_ℤ (pos 0) d && leb_ℤ d now

abbrev pub unless_expired : Option ℤ → ℤ → Option Text → Option Text
unless_expired d now v = if expired d now then none else v

-- What the client sees under a key at a time.
abbrev pub visible : {M : Type 0} → MapOps M → KvEngine M → ℤ → Text → Option Text
visible o e now key = unless_expired (deadline e.ttl key) now (o.map_get e.map key)

pub record IsEngine {M : Type 0} (IsMap : M → Type 0) (e : KvEngine M) : Type 0 where
  pub values : IsMap e.map
  pub deadlines : IsIndexed e.ttl

pub get_expiry-expired :
    (t : TtlManager) (key : Text) (now : ℤ)
    → (leb_ℤ (pos 0) (get_expiry t key) && leb_ℤ (get_expiry t key) now)
      ≡ expired (deadline t key) now
get_expiry-expired t key now = elim (Option-cases (deadline t key)) [
  | inl e ↦ rw (get_expiry_lem t key, e) refl
  | inr (d, e) ↦ rw (get_expiry_lem t key, e) refl
]

expired_later :
    (d : Option ℤ) (now later : ℤ) → now ≤ℤ later → expired d now ≡ true → expired d later ≡ true
expired_later none now later h e = e
expired_later (some d) now later h e = ground arith

module _ {M : Type 0} (o : MapOps M) (IsMap HasRoom : M → Type 0)
    (laws : MapLaws o IsMap HasRoom) where
  -- On a valid engine whose map obeys the laws and has room, `set` keeps the engine valid. From then
  -- on its value is seen under the key, until the deadline where a positive time to live is given;
  -- what is seen under other keys is as before.
  pub set-visible :
      (e : KvEngine M) (now : ℤ) (key val : Text) (ttl_ms : ℤ)
      → IsEngine IsMap e
      → HasRoom e.map
      → IsEngine IsMap (set o e now key val ttl_ms).1
        × ((later : ℤ) (j : Text)
            → visible o (set o e now key val ttl_ms).1 later j ≡ (
                if key == j
                then unless_expired
                    (if ltb_ℤ (pos 0) ttl_ms then some (now +ℤ ttl_ms) else none)
                    later
                    (some val)
                else visible o e later j))
  unfolding set
  set-visible e now key val ttl_ms v roomy =
      let stored = laws.get-set e.map key val in
      let valid = laws.set-IsMap e.map key val v.values roomy in
      elim (Bool-cases (ltb_ℤ (pos 0) ttl_ms)) [
        | inl p ↦
            let u = set_expiry-Updates e.ttl now key ttl_ms v.deadlines in
            rw p (
              record { values = valid; deadlines = u.indexed },
              λ later j. ground (arith, stored j v.values roomy, u.deadlines j),
            )
        | inr p ↦
            let u = remove_expiry-Updates e.ttl key v.deadlines in
            rw p (
              record { values = valid; deadlines = u.indexed },
              λ later j. ground (arith, stored j v.values roomy, u.deadlines j),
            )
      ]

  -- After `del` nothing is seen under the key, at any time, and other keys are as before.
  pub del-visible :
      (e : KvEngine M) (key : Text)
      → IsEngine IsMap e
      → IsEngine IsMap (del o e key).1
        × ((later : ℤ) (j : Text)
            → visible o (del o e key).1 later j ≡ (if key == j then none else visible o e later j))
  unfolding del
  del-visible e key v =
      let u = remove_expiry-Updates e.ttl key v.deadlines in
      (
        record { values = laws.del-IsMap e.map key v.values; deadlines = u.indexed },
        λ later j. ground (arith, laws.get-del e.map key j v.values, u.deadlines j),
      )

  -- `get` returns what is seen under the key at that time, and although it removes an expired key,
  -- what is seen under any key is the same from that time on.
  pub get-visible :
      (e : KvEngine M) (now : ℤ) (key : Text)
      → IsEngine IsMap e
      → ((get o e now key).0 ≡ visible o e now key)
        × IsEngine IsMap (get o e now key).1
        × ((later : ℤ) (j : Text)
            → now ≤ℤ later
            → visible o (get o e now key).1 later j ≡ visible o e later j)
  unfolding get
  get-visible e now key v = elim (Bool-cases (expired (deadline e.ttl key) now)) [
    | inl p ↦
        let u = remove_expiry-Updates e.ttl key v.deadlines in
        rw (get_expiry-expired e.ttl key now, p)
          (
            refl,
            record { values = laws.del-IsMap e.map key v.values; deadlines = u.indexed },
            λ later j after. ground (
              arith,
              laws.get-del e.map key j v.values,
              u.deadlines j,
              text_eq.beq_iff key j,
              expired_later (deadline e.ttl key) now later after p,
            ),
          )
    | inr p ↦ rw (get_expiry-expired e.ttl key now, p) (refl, v, λ later j after. refl)
  ]
