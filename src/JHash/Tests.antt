-- ===== src/JHash/Tests.antt =====
-- The theorem about the hash functions at four words.
use misc_c.Base.{ℕ, ◌*◌, ◌≡◌, refl, List, [], ◌∷◌, arith, length}
use misc_c.JHash.{jhash, jhash2}
use misc_c.JHash.Words.{bytes, jhash-jhash2}

abbrev four_words : List ℕ
four_words = 1 ∷ 4294967295 ∷ 258 ∷ 3735928559 ∷ []

jhash-jhash2_example :
    jhash (bytes four_words) (4 * length four_words) 7 ≡ jhash2 four_words (length four_words) 7
jhash-jhash2_example = jhash-jhash2 four_words 7 refl (omega arith)
