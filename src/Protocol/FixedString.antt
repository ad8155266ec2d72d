-- ===== src/Protocol/FixedString.antt =====
-- `fixed_string< fc::uint128 >` (libraries/protocol/include/bmchain/protocol/fixed_string.hpp): up to
-- sixteen bytes of text in a 128 bit number, the first byte the most significant one.
use bmchain_core.Prelude.{
  false, ℕ, zero, suc, List, if◌then◌else◌, ◌<◌, ◌+◌, ◌*◌, ◌/◌, ◌∷◌, [], ◌%◌, ◌≡◌, All, ◌==◌, arith,
  ◌++◌, length, refl, ap, ◌≤◌, ◌∙◌, false, Bool-cases, inl, inr, ltb,
}

-- the storage: the bytes that are copied, then NULs; `n` holds the bytes so far
unfoldable pub pack : ℕ → List ℕ → ℕ → ℕ
pack zero str n = n
pack (suc k) [] n = pack k [] (n * 256)
pack (suc k) (c ∷ rest) n = pack k rest (n * 256 + c)

-- the last `k` bytes of a storage, before `bytes`
unfoldable pub unpack : ℕ → ℕ → List ℕ → List ℕ
unpack zero n bytes = bytes
unpack (suc k) n bytes = unpack k (n / 256) (n % 256 ∷ bytes)

-- `strnlen`
unfoldable pub until_nul : List ℕ → List ℕ
until_nul [] = []
until_nul (c ∷ rest) = let others = until_nul rest in if c == 0 then [] else c ∷ others

-- `fixed_string( std::string )`
unfoldable pub fixed_string : List ℕ → ℕ
fixed_string str = pack 16 str 0

-- `operator std::string`: all the bytes when the last one is set
unfoldable pub text : ℕ → List ℕ
text name = let bytes = unpack 16 name [] in if name % 256 == 0 then until_nul bytes else bytes

-- `size`
unfoldable pub size : ℕ → ℕ
size name = if name % 256 == 0 then length (until_nul (unpack 16 name [])) else 16

-- the bytes of a string, and NULs up to `k`
abbrev padded : ℕ → List ℕ → List ℕ
padded zero str = []
padded (suc k) [] = 0 ∷ padded k []
padded (suc k) (c ∷ rest) = c ∷ padded k rest

-- a character of a string without NULs
abbrev pub IsChar : ℕ → Type 0
IsChar c = (0 < c) × (c < 256)

add_suc : (k j : ℕ) → suc k + j ≡ k + suc j
add_suc k j = omega arith

unpack_byte :
    (j n c : ℕ) (bytes : List ℕ) (m : ℕ)
    → m / 256 ≡ n
    → m % 256 ≡ c
    → unpack (suc j) m bytes ≡ unpack j n (c ∷ bytes)
unfolding unpack
unpack_byte j n c bytes m e h = rw (e, h) refl

unpack-pack :
    (k j : ℕ) (str : List ℕ) (n : ℕ) (bytes : List ℕ)
    → All IsChar str
    → unpack (k + j) (pack k str n) bytes ≡ unpack j n (padded k str ++ bytes)
unfolding pack unpack
unpack-pack zero j str n bytes h = ap (λ m. unpack m n bytes) {x = 0 + j} {y = j} (omega arith)
unpack-pack (suc k) j [] n bytes h =
    ap (λ m. unpack m (pack k [] (n * 256)) bytes) (add_suc k j)
    ∙ unpack-pack k (suc j) [] (n * 256) bytes tt
    ∙ unpack_byte j n 0 (padded k [] ++ bytes) (n * 256) (omega arith) (omega arith)
unpack-pack (suc k) j (c ∷ rest) n bytes h =
    ap (λ m. unpack m (pack k rest (n * 256 + c)) bytes) (add_suc k j)
    ∙ unpack-pack k (suc j) rest (n * 256 + c) bytes h.1
    ∙ unpack_byte j n c (padded k rest ++ bytes) (n * 256 + c) (omega (arith, h.0.1))
        (omega (arith, h.0.1))

until_nul-padded :
    (k : ℕ) (str : List ℕ) → All IsChar str → length str ≤ k → until_nul (padded k str) ≡ str
unfolding until_nul
until_nul-padded zero [] h fits = refl
until_nul-padded zero (c ∷ rest) h fits = absurd (omega (arith, fits))
until_nul-padded (suc k) [] h fits = refl
until_nul-padded (suc k) (c ∷ rest) h fits =
    let set : (c == 0) ≡ false = ground (arith, h.0.0) in
    rw (set, until_nul-padded k rest h.1 (omega (arith, fits))) refl

append_nil : (xs : List ℕ) → xs ++ [] ≡ xs
append_nil [] = refl
append_nil (x ∷ xs) = ap (λ l. x ∷ l) (append_nil xs)

-- the last byte is set exactly when the text has all the bytes
full-padded : (k : ℕ) (str : List ℕ) → length str ≡ k → padded k str ≡ str
full-padded zero [] h = refl
full-padded zero (c ∷ rest) h = cc
full-padded (suc k) [] h = cc
full-padded (suc k) (c ∷ rest) h = ap (λ l. c ∷ l) (full-padded k rest (omega (arith, h)))

bytes_of : (str : List ℕ) → All IsChar str → unpack 16 (fixed_string str) [] ≡ padded 16 str
unfolding fixed_string unpack
bytes_of str h = unpack-pack 16 0 str 0 [] h ∙ append_nil (padded 16 str)

pack-nil : (k n : ℕ) → pack (suc k) [] n % 256 ≡ 0
unfolding pack
pack-nil zero n = omega arith
pack-nil (suc k) n = pack-nil k (n * 256)

pack_short : (k : ℕ) (str : List ℕ) (n : ℕ) → length str < k → pack k str n % 256 ≡ 0
unfolding pack
pack_short zero str n h = absurd (omega (arith, h))
pack_short (suc k) [] n h = pack-nil k n
pack_short (suc k) (c ∷ rest) n h = pack_short k rest (n * 256 + c) (omega (arith, h))

-- Every string of at most sixteen characters, none of them NUL, comes back from its fixed string.
pub text-fixed_string :
    (str : List ℕ) → All IsChar str → length str ≤ 16 → text (fixed_string str) ≡ str
unfolding text fixed_string
text-fixed_string str h fits = elim (Bool-cases (fixed_string str % 256 == 0)) [
  | inl open_end ↦ rw (open_end, bytes_of str h) (until_nul-padded 16 str h fits)
  | inr full ↦
      let long : length str ≡ 16 = elim (Bool-cases (ltb (length str) 16)) [
        | inl short ↦ let zero_end = pack_short 16 str 0 (ground arith) in absurd (ground arith)
        | inr enough ↦ ground arith
      ] in
      rw (full, bytes_of str h) (full-padded 16 str long)
]
