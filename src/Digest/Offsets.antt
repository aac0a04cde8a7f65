-- ===== src/Digest/Offsets.antt =====
-- The offsets of digest/database.go: texts of a height, and of a height with an index or a text.
use mitum_data_blocksign.Prelude.{
  ℕ, ℤ, Bytes, ltb, length, ◌==◌, true, false, Option, none, some, [], ◌∷◌, ◌++◌, if◌then◌else◌, ok,
  err, ◌>>=◌, map_err, ◌≡◌, refl, All,
}
use mitum_data_blocksign.Error.{wrapped, invalid_offset}
use mitum_data_blocksign.Mitum.{Outcome}

-- Numbers as texts: `fmt.Sprintf("%d", …)`, `base.NewHeightFromString` and `strconv.ParseUint`.
pub record Numbers : Type 0 where
  pub height_text : ℤ → Bytes
  pub new_height_from_string : Bytes → Outcome ℤ
  pub uint_text : ℕ → Bytes
  pub parse_uint : Bytes → Outcome ℕ

abbrev pub comma : ℕ
comma = 44

-- The text of a number is read back where the number has 64 bits, and a height has no comma.
pub record NumbersLaws (n : Numbers) : Type 0 where
  pub read_height : (h : ℤ) → n.new_height_from_string (n.height_text h) ≡ ok h
  pub read_uint : (u : ℕ) → ltb u 18446744073709551616 ≡ true → n.parse_uint (n.uint_text u) ≡ ok u
  pub height_digits : (h : ℤ) → All (λ c. (c == comma) ≡ false) (n.height_text h)
  pub height_nonempty : (h : ℤ) → ltb 0 (length (n.height_text h)) ≡ true

-- `strings.SplitN(s, ",", 2)`: one text, or two
unfoldable pub split_comma : Bytes → Bytes × Option Bytes
split_comma [] = ([], none)
split_comma (c ∷ s) = let (a, b) = split_comma s in if c == comma then ([], some s) else (c ∷ a, b)

-- `len(n) < 2` is refused.
unfoldable pub two_texts : Bytes × Option Bytes → Outcome (Bytes × Bytes)
two_texts (a, none) = err invalid_offset
two_texts (a, some b) = ok (a, b)

module _ (n : Numbers) where
  unfoldable pub parse_offset_by_string : Bytes → Outcome (ℤ × Bytes)
  parse_offset_by_string s = do
    (a, b) ← two_texts (split_comma s)
    h ← map_err wrapped (n.new_height_from_string a)
    ok (h, b)

  unfoldable pub build_offset_by_string : ℤ → Bytes → Bytes
  build_offset_by_string height s = n.height_text height ++ comma ∷ s

  unfoldable pub parse_offset : Bytes → Outcome (ℤ × ℕ)
  parse_offset s = do
    (a, b) ← two_texts (split_comma s)
    h ← map_err wrapped (n.new_height_from_string a)
    u ← map_err wrapped (n.parse_uint b)
    ok (h, u)

  unfoldable pub build_offset : ℤ → ℕ → Bytes
  build_offset height index = n.height_text height ++ comma ∷ n.uint_text index

  -- The length is never negative, so the first branch is never taken.
  unfoldable pub parse_offset_height : Bytes → Outcome ℤ
  parse_offset_height s = map_err wrapped (n.new_height_from_string s)

  unfoldable pub build_offset_height : ℤ → Bytes
  build_offset_height height = n.height_text height

split-comma :
    (a b : Bytes) → All (λ c. (c == comma) ≡ false) a → split_comma (a ++ comma ∷ b) ≡ (a, some b)
unfolding split_comma
split-comma [] b h = refl
split-comma (c ∷ a) b h = rw (h.0, split-comma a b h.1) refl

module _ (n : Numbers) (laws : NumbersLaws n) where
  -- An offset is read back: a height with an index of 64 bits, a height with any text, and a height.
  pub parse_offset-build :
      (h : ℤ) (u : ℕ) (s : Bytes)
      → ltb u 18446744073709551616 ≡ true
      → (parse_offset n (build_offset n h u) ≡ ok (h, u))
        × (parse_offset_by_string n (build_offset_by_string n h s) ≡ ok (h, s))
        × (parse_offset_height n (build_offset_height n h) ≡ ok h)
  unfolding two_texts parse_offset build_offset parse_offset_by_string build_offset_by_string
      parse_offset_height build_offset_height
  parse_offset-build h u s l = (
    rw
        (
          split-comma (n.height_text h) (n.uint_text u) (laws.height_digits h),
          laws.read_height h,
          laws.read_uint u l,
        )
        refl,
    rw (split-comma (n.height_text h) s (laws.height_digits h), laws.read_height h) refl,
    rw (laws.read_height h) refl,
  )
