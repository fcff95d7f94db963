-- ===== src/Net/Server/Stream.antt =====
-- The bytes that `Server::do_write` of src/net/server.cpp sends, and those it leaves.
use fast_graph.Prelude.{
  ℕ, suc, ◌+◌, ◌≤◌, ◌<◌, min, ◌≡◌, ap, ◌∙◌, inl, inr, true, List, [], ◌∷◌, ◌++◌, append-nil,
  append_assoc, arith, ltb, Bool-cases, length, take, drop, length-drop, ◌==◌, nat_eq, int_eq,
  text_eq, Text, eq_true, drop-drop, take_all, take-append-drop,
}
use fast_graph.Net.Server.{
  Conn, WriteResult, room, write_again, write_failed, advance, back_to_reading, do_write,
}

abbrev pub pending : Conn → Text
pending c = drop c.write_offset c.write_buf

ltb_of_true : (a b : ℕ) → ltb a b ≡ true → a < b
ltb_of_true a b e = ground arith

pending-advance :
    (c : Conn) (n : ℕ)
    → c.write_offset < length c.write_buf
    → n ≤ length (pending c)
    → take n (pending c) ++ pending (advance c n) ≡ pending c
unfolding advance
pending-advance c n more h =
    let left = length-drop c.write_offset c.write_buf in
    elim (Bool-cases (c.write_offset + n == length c.write_buf)) [
      | inl e ↦
          let whole =
            take_all n (pending c)
              (omega (arith, left, eq_true (c.write_offset + n) (length c.write_buf) e)) in
          rw (e, advance) (append-nil (take n (pending c)) ∙ whole)
      | inr e ↦
          rw (e, advance)
            (rw (drop-drop c.write_offset n c.write_buf) (take-append-drop n (pending c)))
    ]

pending-back_to_reading : (c : Conn) → pending (back_to_reading c) ≡ pending c
unfolding back_to_reading
pending-back_to_reading c = ground arith

-- Whatever the socket does, the bytes that went out and the bytes still pending are, in this order,
-- the bytes that were pending.
pub do_write-pending :
    (rs : List WriteResult) (c : Conn) → (do_write rs c).1 ++ pending (do_write rs c).0 ≡ pending c
unfolding do_write
do_write-pending [] c = ground (arith, pending-back_to_reading c)
do_write-pending (write_again ∷ rs) c = ground (arith, pending-back_to_reading c)
do_write-pending (write_failed ∷ rs) c = ground (arith, pending-back_to_reading c)
do_write-pending (room k ∷ rs) c =
    let n = min (suc k) (length (pending c)) in
    elim (Bool-cases (ltb c.write_offset (length c.write_buf))) [
      | inl e ↦
          rw (e, do_write)
            (append_assoc (take n (pending c)) _ _
              ∙ ap (λ t. take n (pending c) ++ t) (do_write-pending rs (advance c n))
              ∙ pending-advance c n (ltb_of_true _ _ e) (omega arith))
      | inr e ↦ rw (e, do_write) (pending-back_to_reading c)
    ]
