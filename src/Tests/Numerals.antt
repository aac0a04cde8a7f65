-- ===== src/Tests/Numerals.antt =====
-- Numbers written in unary: a sign, and a 1 for each unit.
use mitum_data_blocksign.Prelude.{
  ℕ, zero, suc, ℤ, pos, negsuc, Bytes, length, ltb, if◌then◌else◌, ◌==◌, true, false, [], ◌∷◌, ok,
  err, ◌≡◌, refl, ap, All, arith,
}
use mitum_data_blocksign.Error.{external}
use mitum_data_blocksign.Mitum.{Outcome}
use mitum_data_blocksign.Digest.Offsets.{Numbers, NumbersLaws, comma}

abbrev pub ones : ℕ → Bytes
ones zero = []
ones (suc n) = 49 ∷ ones n

abbrev pub sign_text : ℤ → Bytes
sign_text (pos n) = 43 ∷ ones n
sign_text (negsuc n) = 45 ∷ ones n

abbrev pub read_sign : Bytes → Outcome ℤ
read_sign [] = err (external [])
read_sign (c ∷ s) = if c == 43 then ok (pos (length s)) else ok (negsuc (length s))

abbrev pub unary_numbers : Numbers
unary_numbers = record {
  height_text = sign_text;
  new_height_from_string = read_sign;
  uint_text = ones;
  parse_uint = λ s. ok (length s);
}

length-ones : (n : ℕ) → length (ones n) ≡ n
length-ones zero = refl
length-ones (suc n) = ap suc (length-ones n)

ones_digits : (n : ℕ) → All (λ c. (c == comma) ≡ false) (ones n)
ones_digits zero = tt
ones_digits (suc n) = (refl, ones_digits n)

sign_read : (h : ℤ) → read_sign (sign_text h) ≡ ok h
sign_read (pos n) = ap (λ k. ok (pos k)) (length-ones n)
sign_read (negsuc n) = ap (λ k. ok (negsuc k)) (length-ones n)

sign_digits : (h : ℤ) → All (λ c. (c == comma) ≡ false) (sign_text h)
sign_digits (pos n) = (refl, ones_digits n)
sign_digits (negsuc n) = (refl, ones_digits n)

sign_nonempty : (h : ℤ) → ltb 0 (length (sign_text h)) ≡ true
sign_nonempty (pos n) = ground arith
sign_nonempty (negsuc n) = ground arith

pub unary_laws : NumbersLaws unary_numbers
unary_laws = record {
  read_height = sign_read;
  read_uint = λ u l. ap ok (length-ones u);
  height_digits = sign_digits;
  height_nonempty = sign_nonempty;
}
