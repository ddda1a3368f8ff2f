-- ===== src/Super/Words.antt =====
-- include/fs.h: words of 32 and of 16 bits, as bytes and back.
use rxd_os.Prelude.{
  ℕ, suc, ◌*◌, ◌<◌, ◌≡◌, refl, ◌∙◌, ap, List, [], ◌∷◌, ◌++◌, arith, length, get_or,
}
use rxd_os.Super.{word32, word16, word32s, half_at, word_at, words_from}

-- Every word of the list has 32 bits.
abbrev pub AreWords : List ℕ → Type 0
AreWords vs = (k : ℕ) → get_or vs k 0 < 4294967296

pub word_at-word32 : (v : ℕ) (rest : List ℕ) → v < 4294967296 → word_at (word32 v ++ rest) 0 ≡ v
unfolding word_at half_at word32
word_at-word32 v rest h = omega (arith, h)

pub half_at-word16 : (v : ℕ) (rest : List ℕ) → v < 65536 → half_at (word16 v ++ rest) 0 ≡ v
unfolding half_at word16
half_at-word16 v rest h = omega (arith, h)

pub length-word32s : (vs : List ℕ) → length (word32s vs) ≡ 4 * length vs
unfolding word32s word32
length-word32s [] = refl
length-word32s (v ∷ vs) = omega (arith, length-word32s vs)

pub words_from-word32s :
    (vs rest : List ℕ) → AreWords vs → words_from (length vs) (word32s vs ++ rest) ≡ vs
unfolding words_from word32s word32 word_at half_at
words_from-word32s [] rest are = refl
words_from-word32s (v ∷ vs) rest are =
    let first = word_at-word32 v (word32s vs ++ rest) (are 0) in
    ap (λ w. w ∷ words_from (length vs) (word32s vs ++ rest))
      (unfold word_at half_at word32 in first)
    ∙ ap (λ ws. v ∷ ws) (words_from-word32s vs rest (λ k. are (suc k)))
