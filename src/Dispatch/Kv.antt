-- ===== src/Dispatch/Kv.antt =====
-- `Dispatcher::handle_kv` of src/dispatch/dispatcher.cpp. No `try` block surrounds it: what a conversion throws leaves the handler.
-- The products and sums on `long long` are kept exact.
use fast_graph.Prelude.{
  ℕ, ◌+◌, ◌/◌, Bool, ◌&&◌, Option, none, some, List, [], ◌∷◌, ◌++◌, leb, if◌then◌else◌, length,
  get_or, drop, ℤ, pos, negsuc, pos_part, ◌==◌, nat_eq, int_eq, text_eq, Text, ◌*ℤ◌,
}
use fast_graph.Protocol.Encoder.{simple_string, bulk_string, null_bulk, integer}
use fast_graph.Protocol.Encoder
use fast_graph.Dispatch.Exceptions.{Throws, ok, ◌>>=◌, answer, codes, to_upper, stoll}
use fast_graph.Dispatch.Interface.{Engines}

abbrev pub arg_at : List Text → ℕ → Text
arg_at args i = get_or args i []

abbrev pub flag : Bool → ℤ
flag b = if b then pos 1 else pos 0

abbrev pub bool_integer : Bool → Text
bool_integer b = integer (flag b)

abbrev pub bulk_or_null : Option Text → Text
bulk_or_null none = null_bulk
bulk_or_null (some t) = bulk_string t

-- One round of the option loop at `args[i]` and `args[i + 1]`.
unfoldable pub set_option : Text → Text → ℤ → Throws ℤ
set_option name value ttl_ms = do
  ttl ← if to_upper name == codes "EX" then stoll value >>= (λ n. ok (n *ℤ pos 1000)) else ok ttl_ms
  (if to_upper name == codes "PX" then stoll value else ok ttl)

-- The loop from `i = 3`, over what follows: each word but the last may be an option.
unfoldable pub set_options : List Text → ℤ → Throws ℤ
unfolding set_option
set_options [] ttl_ms = ok ttl_ms
set_options (name ∷ []) ttl_ms = ok ttl_ms
set_options (name ∷ value ∷ rest) ttl_ms =
    set_option name value ttl_ms >>= set_options (value ∷ rest)

-- `(ms + 999) / 1000`: division rounds to zero, and a remaining time is no less than 0.
unfoldable pub ttl_seconds : ℤ → ℤ
ttl_seconds ms =
    if ms == negsuc 1
    then negsuc 1
    else if ms == negsuc 0
    then negsuc 0
    else pos ((pos_part ms + 999) / 1000)

abbrev pub unknown : {S : Type 0} → List Text → S → Throws (Text × S)
unknown args s = ok (Encoder.error (codes "unknown command '" ++ (arg_at args 0 ++ codes "'")), s)

module _ {Flt Dbl S : Type 0} (e : Engines Flt Dbl S) where
  -- The last branches.
  unfoldable pub kv_info : Text → List Text → S → Throws (Text × S)
  kv_info cmd args s =
      if cmd == codes "DBSIZE"
      then ok (integer (pos (e.kv_size s)), s)
      else if cmd == codes "COMMAND"
      then ok (simple_string (codes "OK"), s)
      else unknown args s

  -- The branches on expiry times.
  unfoldable pub kv_expiry : Text → List Text → S → Throws (Text × S)
  unfolding kv_info ttl_seconds
  kv_expiry cmd args s =
      let n = length args in
      let key = arg_at args 1 in
      if cmd == codes "EXPIRE" && leb 3 n
      then stoll (arg_at args 2) >>= (λ t. answer bool_integer (e.kv_expire s key (t *ℤ pos 1000)))
      else if cmd == codes "PEXPIRE" && leb 3 n
      then stoll (arg_at args 2) >>= (λ t. answer bool_integer (e.kv_expire s key t))
      else if cmd == codes "TTL" && leb 2 n
      then ok (integer (ttl_seconds (e.kv_ttl s key)), s)
      else if cmd == codes "PTTL" && leb 2 n
      then ok (integer (e.kv_ttl s key), s)
      else if cmd == codes "PERSIST" && leb 2 n
      then answer bool_integer (e.kv_persist s key)
      else kv_info cmd args s

  unfoldable pub handle_kv : Text → List Text → S → Throws (Text × S)
  unfolding set_options kv_expiry
  handle_kv cmd args s =
      let n = length args in
      let key = arg_at args 1 in
      if cmd == codes "PING"
      then ok (simple_string (if leb 2 n then key else codes "PONG"), s)
      else if cmd == codes "SET" && leb 3 n
      then set_options (drop 3 args) (negsuc 0)
        >>= (λ ttl_ms. ok (simple_string (codes "OK"), e.kv_set s key (arg_at args 2) ttl_ms))
      else if cmd == codes "GET" && leb 2 n
      then answer bulk_or_null (e.kv_get s key)
      else if cmd == codes "DEL" && leb 2 n
      then answer bool_integer (e.kv_del s key)
      else if cmd == codes "EXISTS" && leb 2 n
      then answer bool_integer (e.kv_exists s key)
      else kv_expiry cmd args s
