-- ===== src/Http/Pieces.antt =====
-- The searches for a byte and for a line end in mgnt/web/http.c.
use misc_c.Base.{
  ℕ, ◌≡◌, ◌≢◌, refl, ◌∙◌, ap, sym, Bool, Bool-cases, inl, inr, true, false, not, ◌&&◌, ◌⊎◌, Option,
  none, some, [], ◌∷◌, ◌++◌, ◌==◌, arith,
}
use misc_c.Http.{Text, cr, lf, put_before, find_crlf, cut_byte}

-- No byte is `b`.
abbrev pub lacks : ℕ → Text → Bool
lacks b [] = true
lacks b (c ∷ s) = not (c == b) && lacks b s

pub lacks-append :
    (b : ℕ) (s t : Text) → lacks b s ≡ true → lacks b t ≡ true → lacks b (s ++ t) ≡ true
lacks-append b [] t p q = q
lacks-append b (c ∷ s) t p q = ground (arith, p, lacks-append b s t (ground (arith, p)) q)

-- More bytes behind what is found.
abbrev pub longer : Text → Option (Text × Text) → Option (Text × Text)
longer t none = none
longer t (some (a, b)) = some (a, b ++ t)

longer-put_before :
    (t : Text) (c : ℕ) (o : Option (Text × Text))
    → longer t (put_before c o) ≡ put_before c (longer t o)
longer-put_before t c none = refl
longer-put_before t c (some (a, b)) = refl

pub find_crlf-lacks :
    (line rest : Text)
    → lacks cr line ≡ true
    → find_crlf (line ++ cr ∷ lf ∷ rest) ≡ some (line, rest)
unfolding find_crlf
find_crlf-lacks [] rest h = refl
find_crlf-lacks (c ∷ []) rest h =
    let other : (c == cr) ≡ false = ground (arith, h) in rw (find_crlf, other) refl
find_crlf-lacks (c ∷ d ∷ line) rest h =
    let other : (c == cr) ≡ false = ground (arith, h) in
    rw (find_crlf, other) (ap (put_before c) (find_crlf-lacks (d ∷ line) rest (ground (arith, h))))

pub cut_byte-lacks :
    (b : ℕ) (s rest : Text) → lacks b s ≡ true → cut_byte b (s ++ b ∷ rest) ≡ some (s, rest)
unfolding cut_byte
cut_byte-lacks b [] rest h = let same : (b == b) ≡ true = ground arith in rw (cut_byte, same) refl
cut_byte-lacks b (c ∷ s) rest h =
    let other : (c == b) ≡ false = ground (arith, h) in
    rw (cut_byte, other) (ap (put_before c) (cut_byte-lacks b s rest (ground (arith, h))))

-- A line end that is found is found in a longer buffer too.
pub find_crlf-append :
    (s t : Text) → find_crlf s ≢ none → find_crlf (s ++ t) ≡ longer t (find_crlf s)
unfolding find_crlf
find_crlf-append [] t h = absurd (h refl)
find_crlf-append (c ∷ []) t h = absurd (h refl)
find_crlf-append (c ∷ d ∷ s) t h = elim (Bool-cases (c == cr && d == lf)) [
  | inl e ↦ rw (find_crlf, e) refl
  | inr e ↦
      let deeper : find_crlf (d ∷ s) ≢ none = λ n. h (rw (find_crlf, e, n) refl) in
      rw (find_crlf, e)
        (ap (put_before c) (find_crlf-append (d ∷ s) t deeper)
          ∙ sym (longer-put_before t c (find_crlf (d ∷ s))))
]

-- What the search for a line end gives, by the cases of the loops.
pub find_crlf-cases :
    (s : Text)
    → (find_crlf s ≡ none)
      ⊎ (((rest : Text) × (find_crlf s ≡ some ([], rest)))
          ⊎ ((c : ℕ) × (line : Text) × (rest : Text) × (find_crlf s ≡ some (c ∷ line, rest))))
find_crlf-cases s = split (find_crlf s)
  where
    split :
        (o : Option (Text × Text))
        → (o ≡ none)
          ⊎ (((rest : Text) × (o ≡ some ([], rest)))
              ⊎ ((c : ℕ) × (line : Text) × (rest : Text) × (o ≡ some (c ∷ line, rest))))
    split none = inl refl
    split (some ([], rest)) = inr (inl (rest, refl))
    split (some (c ∷ line, rest)) = inr (inr (c, line, rest, refl))
