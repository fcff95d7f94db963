-- ===== src/Protocol/Decimal/RoundTrip.antt =====
-- `std::atoi` on what `std::to_string` prints.
use fast_graph.Prelude.{
  ℕ, zero, suc, ◌+◌, ◌/◌, ◌%◌, ◌^◌, ◌<◌, ◌≡◌, refl, true, [], ◌∷◌, ◌++◌, append_assoc, ltb, Text,
  Bool-cases, inl, inr, arith, pos, false, ap, sym, ◌∙◌, ◌*◌, ◌-◌,
}
use fast_graph.Protocol.Decimal.{dec_digits, to_string, is_digit, read_digits, to_int, atoi}

abbrev pub AreDigits : Text → Type 0
AreDigits [] = Unit
AreDigits (c ∷ cs) = (is_digit c ≡ true) × AreDigits cs

AreDigits-append : (xs ys : Text) → AreDigits xs → AreDigits ys → AreDigits (xs ++ ys)
AreDigits-append [] ys h k = k
AreDigits-append (x ∷ xs) ys h k = (h.0, AreDigits-append xs ys h.1 k)

dec_digits-AreDigits : (f n : ℕ) → AreDigits (dec_digits f n)
unfolding dec_digits
dec_digits-AreDigits zero n = tt
dec_digits-AreDigits (suc f) n = elim (Bool-cases (ltb n 10)) [
  | inl low ↦ rw (low, dec_digits) (ground arith, tt)
  | inr high ↦
      rw (high, dec_digits)
        (AreDigits-append (dec_digits f (n / 10)) _ (dec_digits-AreDigits f (n / 10))
          (ground arith, tt))
]

pub to_string-AreDigits : (n : ℕ) → AreDigits (to_string n)
unfolding to_string
to_string-AreDigits n = dec_digits-AreDigits (suc n) n

read_digits_step :
    (acc d n : ℕ) (rest : Text)
    → d < 10
    → acc * 10 + d ≡ n
    → read_digits acc ((48 + d) ∷ rest) ≡ read_digits n rest
unfolding read_digits
read_digits_step acc d n rest h e =
    let digit : is_digit (48 + d) ≡ true = ground arith in
    let value : acc * 10 + (48 + d - 48) ≡ n = omega arith in
    rw (digit, read_digits) (ap (λ (k : ℕ). read_digits k rest) value)

read_digits-dec_digits :
    (f n : ℕ) (rest : Text) → n < f → read_digits 0 (dec_digits f n ++ rest) ≡ read_digits n rest
unfolding dec_digits
read_digits-dec_digits zero n rest h = absurd (omega arith)
read_digits-dec_digits (suc f) n rest h = elim (Bool-cases (ltb n 10)) [
  | inl low ↦ rw (low, dec_digits) (read_digits_step 0 n n rest (ground arith) (omega arith))
  | inr high ↦
      rw (high, dec_digits, append_assoc, read_digits-dec_digits f (n / 10) _ (ground arith))
        (read_digits_step (n / 10) (n % 10) n rest (omega arith) (omega arith))
]

snoc_head : (xs : Text) (y : ℕ) → (c : ℕ) × (cs : Text) × (xs ++ y ∷ [] ≡ c ∷ cs)
snoc_head [] y = (y, [], refl)
snoc_head (x ∷ xs) y = (x, xs ++ y ∷ [], refl)

pub to_string_head : (n : ℕ) → (c : ℕ) × (cs : Text) × (to_string n ≡ c ∷ cs)
unfolding to_string dec_digits
to_string_head n = elim (Bool-cases (ltb n 10)) [
  | inl low ↦ rw (low, dec_digits) (48 + n, [], refl)
  | inr high ↦ rw (high, dec_digits) (snoc_head (dec_digits n (n / 10)) _)
]

pub to_int-pos : (n : ℕ) → n < 2 ^ 31 → to_int (pos n) ≡ pos n
unfolding to_int
to_int-pos n h = let m : n % 2 ^ 32 ≡ n = omega arith in rw m (ground arith)

atoi_digit :
    (d : ℕ) (ds : Text) → is_digit d ≡ true → atoi (d ∷ ds) ≡ to_int (pos (read_digits 0 (d ∷ ds)))
unfolding atoi
atoi_digit d ds h = ground arith

-- A printed number below 2 ^ 31 is read back, whatever follows that is no digit.
pub atoi-to_string :
    (n c : ℕ) (rest : Text)
    → n < 2 ^ 31
    → is_digit c ≡ false
    → atoi (to_string n ++ c ∷ rest) ≡ pos n
unfolding to_string read_digits
atoi-to_string n c rest small h =
    let (d, ds, e) = to_string_head n in
    let digit = (rw e at (to_string-AreDigits n)).0 in
    rw
      (
        e,
        atoi_digit d (ds ++ c ∷ rest) digit,
        ap (λ (t : Text). read_digits 0 (t ++ c ∷ rest)) (sym e),
      )
      (ap (λ k. to_int (pos k)) (read_digits-dec_digits (suc n) n (c ∷ rest) (omega arith) ∙ stop)
        ∙ to_int-pos n small)
  where
    stop : read_digits n (c ∷ rest) ≡ n
    stop = rw (h, read_digits)
