-- ===== src/Super/Tests.antt =====
-- fs/fs.c: a super block as words and back.
use rxd_os.Prelude.{◌≡◌, refl}
use rxd_os.Super.{word32s, word32, words_from, word_at, half_at, super_words, super_of, made_super}

made_super_back : super_of (words_from 9 (word32s (super_words made_super))) ≡ made_super
unfolding word32s word32 words_from word_at half_at super_words super_of
made_super_back = refl
