-- ===== src/Protocol/Resp.antt =====
-- src/protocol/resp.cpp. `size_t` wraps at 2 ^ 64; what `find_crlf` and `atoi` return is an `int`.
pub mod Scan
pub mod RoundTrip
use fast_graph.Prelude.{
  ℕ, zero, suc, ◌+◌, ◌-◌, ◌%◌, ◌^◌, Bool, true, false, not, ◌&&◌, Option, none, some, List, [], ◌∷◌,
  ◌++◌, ltb, leb, Text, ◌==◌, nat_eq, ℤ, pos, negsuc, leb_ℤ, if◌then◌else◌, length, get_or, take,
  drop,
}
use mathlib.Core.Option
use fast_graph.Protocol.Decimal.{to_int, atoi}

-- `ParseResult` with what the call leaves behind: the arguments in `out` and the bytes that stay in
-- the buffer. An incomplete parse leaves both as they were, and an error leaves `out`.
pub data ParseResult : Type 0 where
  complete : List Text → Text → ParseResult
  incomplete : ParseResult
  error : Text → ParseResult

-- The offset of the first CR LF pair.
unfoldable pub scan_crlf : Text → Option ℕ
scan_crlf [] = none
scan_crlf (a ∷ []) = none
scan_crlf (a ∷ b ∷ rest) =
    if a == b'\r' && b == b'\n' then some 0 else Option.map suc (scan_crlf (b ∷ rest))

unfoldable pub find_crlf : Text → ℕ → ℤ
unfolding scan_crlf to_int
find_crlf buf start = elim (scan_crlf (drop start buf)) [
  | none ↦ negsuc 0
  | some i ↦ to_int (pos (start + i))
]

-- `(size_t)len`
abbrev pub to_size : ℤ → ℕ
to_size (pos n) = n % 2 ^ 64
to_size (negsuc n) = 2 ^ 64 - 1 - n % 2 ^ 64

-- `buf.substr(pos, n)`
abbrev pub substr : Text → ℕ → ℕ → Text
substr buf at n = take n (drop at buf)

-- One round of the loop of `parse_array` at position `at`: the argument and the next position. The
-- sums `len_crlf + 2` and `len + 2` of the source leave `int`, which is undefined, only where the
-- buffer has 2 ^ 31 bytes or more.
pub data Round : Type 0 where
  argument : Text → ℕ → Round
  stop : ParseResult → Round

unfoldable pub parse_bulk : Text → ℕ → Round
unfolding find_crlf
parse_bulk buf at =
    if leb (length buf) at
    then stop incomplete
    else if not (get_or buf at 0 == b'$')
    then stop (error buf)
    else elim (find_crlf buf at) [
      | negsuc _ ↦ stop incomplete
      | pos len_crlf ↦
          let len = to_size (atoi (drop (at + 1) buf)) in
          let start = len_crlf + 2 in
          let next = (start + len + 2) % 2 ^ 64 in
          if ltb (length buf) next then stop incomplete else argument (substr buf start len) next
    ]

unfoldable pub parse_bulks : ℕ → Text → ℕ → List Text → ParseResult
unfolding parse_bulk
parse_bulks zero buf at args = complete args (drop at buf)
parse_bulks (suc count) buf at args = elim (parse_bulk buf at) [
  | stop r ↦ r
  | argument arg next ↦ parse_bulks count buf next (args ++ arg ∷ [])
]

unfoldable pub parse_array : Text → ParseResult
unfolding parse_bulks find_crlf
parse_array buf = elim (find_crlf buf 0) [
  | negsuc _ ↦ incomplete
  | pos crlf ↦ elim (atoi (drop 1 buf)) [
    | pos (suc count) ↦ parse_bulks (suc count) buf (crlf + 2) []
    | _ ↦ error buf
  ]
]

-- `line.find(' ', start)`, or `line.size()`
unfoldable pub find_space : Text → ℕ
find_space [] = 0
find_space (c ∷ cs) = if c == b' ' then 0 else suc (find_space cs)

unfoldable pub inline_args : ℕ → Text → ℕ → List Text → List Text
unfolding find_space
inline_args zero line start args = args
inline_args (suc fuel) line start args = elim (ltb start (length line)) [
  | false ↦ args
  | true ↦
      let end = start + find_space (drop start line) in
      inline_args fuel line (end + 1)
        (if ltb start end then args ++ substr line start (end - start) ∷ [] else args)
]

-- The loop moves on by a byte at least, so the length of the line is fuel enough.
unfoldable pub parse_inline : Text → ParseResult
unfolding inline_args find_crlf
parse_inline buf = elim (find_crlf buf 0) [
  | negsuc _ ↦ incomplete
  | pos crlf ↦
      let line = substr buf 0 crlf in
      let rest = drop (crlf + 2) buf in
      elim (inline_args (length line) line 0 []) [
        | [] ↦ error rest
        | arg ∷ args ↦ complete (arg ∷ args) rest
      ]
]

unfoldable pub parse : Text → ParseResult
unfolding parse_array parse_inline
parse [] = incomplete
parse (c ∷ cs) = if c == b'*' then parse_array (c ∷ cs) else parse_inline (c ∷ cs)
