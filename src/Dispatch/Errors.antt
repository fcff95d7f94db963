-- ===== src/Dispatch/Errors.antt =====
-- The snapshot commands and the exceptions of src/dispatch/dispatcher.cpp.
use fast_graph.Prelude.{
  ◌≡◌, refl, ◌≢◌, ◌⊎◌, inl, inr, List, [], ◌∷◌, ◌++◌, arith, length, drop, ℤ, negsuc, nat_eq,
  int_eq, text_eq, Text, leb-true, list_beq,
}
use fast_graph.Protocol.Encoder
use fast_graph.Dispatch.Exceptions.{Throws, ok, thrown, ◌>>=◌, codes, to_upper, convert, stoll}
use fast_graph.Dispatch.Interface.{Engines, Floats}
use fast_graph.Dispatch.Kv.{arg_at, set_option, set_options, handle_kv, kv_expiry, kv_info}
use fast_graph.Dispatch.{dispatch}

stoll_thrown : (s w : Text) → stoll s ≡ thrown w → w ≡ codes "stoll"
unfolding stoll convert
stoll_thrown s w h = ground arith

set_option_thrown :
    (name value : Text) (ttl : ℤ) (w : Text)
    → set_option name value ttl ≡ thrown w
    → w ≡ codes "stoll"
unfolding set_option
set_option_thrown name value ttl w h = ground (arith, stoll_thrown value w)

>>=-eq-thrown {ℓ κ} :
    {A : Type ℓ} {B : Type κ} (m : Throws A) (f : A → Throws B) (w : Text)
    → (m >>= f) ≡ thrown w
    → (m ≡ thrown w) ⊎ ((a : A) × (m ≡ ok a) × (f a ≡ thrown w))
>>=-eq-thrown (ok a) f w h = inr (a, refl, h)
>>=-eq-thrown (thrown v) f w h = inl (ground arith)

set_options_thrown :
    (words : List Text) (ttl : ℤ) (w : Text) → set_options words ttl ≡ thrown w → w ≡ codes "stoll"
unfolding set_options
set_options_thrown [] ttl w h = cc
set_options_thrown (name ∷ []) ttl w h = cc
set_options_thrown (name ∷ value ∷ rest) ttl w h =
    elim (>>=-eq-thrown (set_option name value ttl) (set_options (value ∷ rest)) w h) [
      | inl e ↦ set_option_thrown name value ttl w e
      | inr (ttl', _, e) ↦ set_options_thrown (value ∷ rest) ttl' w e
    ]

-- The commands whose arguments `handle_kv` converts.
abbrev pub Converts : Text → Type 0
Converts cmd = (cmd ≡ codes "SET") ⊎ (cmd ≡ codes "EXPIRE") ⊎ (cmd ≡ codes "PEXPIRE")

-- The commands for snapshots.
abbrev pub IsSnapshot : Text → Type 0
IsSnapshot cmd = (cmd ≡ codes "SAVE") ⊎ (cmd ≡ codes "BGSAVE") ⊎ (cmd ≡ codes "BGRESTORE")

module _ {Flt Dbl S : Type 0} (f : Floats Flt Dbl) (e : Engines Flt Dbl S) where
  kv_info-ne-thrown :
      (cmd : Text) (args : List Text) (s : S) (w : Text) → kv_info e cmd args s ≢ thrown w
  unfolding kv_info
  kv_info-ne-thrown cmd args s w = ground arith

  kv_expiry_thrown :
      (cmd : Text) (args : List Text) (s : S) (w : Text)
      → kv_expiry e cmd args s ≡ thrown w
      → Converts cmd × (w ≡ codes "stoll")
  unfolding kv_expiry
  kv_expiry_thrown cmd args s w h = ground (
    arith,
    kv_info-ne-thrown cmd args s w,
    stoll_thrown (arg_at args 2) w,
    text_eq.beq_iff cmd (codes "EXPIRE"),
    text_eq.beq_iff cmd (codes "PEXPIRE"),
  )

  handle_kv_thrown :
      (cmd : Text) (args : List Text) (s : S) (w : Text)
      → handle_kv e cmd args s ≡ thrown w
      → Converts cmd × (w ≡ codes "stoll")
  unfolding handle_kv
  handle_kv_thrown cmd args s w h = ground (
    arith,
    kv_expiry_thrown cmd args s w,
    set_options_thrown (drop 3 args) (negsuc 0) w,
    text_eq.beq_iff cmd (codes "SET"),
  )

  -- The snapshot commands never reach `Persistence`: whatever their arguments, the reply is that the
  -- command is unknown, and no engine changes.
  pub dispatch_snapshot :
      (arg : Text) (args : List Text) (s : S)
      → IsSnapshot (to_upper arg)
      → dispatch f e (arg ∷ args) s
        ≡ ok (Encoder.error (codes "unknown command '" ++ (arg ++ codes "'")), s)
  unfolding dispatch handle_kv list_beq
  dispatch_snapshot arg args s (inl h) = rw h
  dispatch_snapshot arg args s (inr (inl h)) = rw h
  dispatch_snapshot arg args s (inr (inr h)) = rw h

  -- A call of `dispatch` throws only for SET, EXPIRE or PEXPIRE, and only what `stoll` throws: graph
  -- and sorted-set commands always reply.
  pub dispatch_thrown :
      (arg : Text) (args : List Text) (s : S) (w : Text)
      → dispatch f e (arg ∷ args) s ≡ thrown w
      → Converts (to_upper arg) × (w ≡ codes "stoll")
  unfolding dispatch
  dispatch_thrown arg args s w h = ground (arith, handle_kv_thrown (to_upper arg) (arg ∷ args) s w)

  -- An EXPIRE or PEXPIRE whose time is no number throws out of `dispatch`.
  pub dispatch_expire_thrown :
      (arg key time : Text) (rest : List Text) (s : S) (w : Text)
      → (to_upper arg ≡ codes "EXPIRE") ⊎ (to_upper arg ≡ codes "PEXPIRE")
      → stoll time ≡ thrown w
      → dispatch f e (arg ∷ key ∷ time ∷ rest) s ≡ thrown w
  unfolding dispatch handle_kv list_beq
  dispatch_expire_thrown arg key time rest s w (inl h) bad =
      rw h (rw (leb-true 3 (length (arg ∷ key ∷ time ∷ rest)) (omega arith), bad))
  dispatch_expire_thrown arg key time rest s w (inr h) bad =
      rw h (rw (leb-true 3 (length (arg ∷ key ∷ time ∷ rest)) (omega arith), bad))
