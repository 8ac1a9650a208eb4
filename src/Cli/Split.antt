-- ===== src/Cli/Split.antt =====
-- What `_cmd_split` of mgnt/cli/cli_trie.c gives: the words of the line.
use misc_c.Base.{
  ℕ, zero, suc, ◌+◌, ◌-◌, ◌≤◌, ◌<◌, ◌≡◌, refl, inl, inr, ap, sym, ◌∙◌, false, List, [], ◌∷◌, ◌++◌,
  append-nil, append_assoc, length, get_or, take, drop, length-append, length-drop, Bool-cases,
  ◌&&◌, ltb, leb, ◌==◌, if◌then◌else◌, arith,
}
use misc_c.Cli.{
  Text, space, u8, skip_spaces, find_space, Items, overrun, store_item, to_items, split_loop,
  cmd_split, item_count_max,
}

-- A word that has been read, unless it is empty.
abbrev pub flush : Text → List Text → List Text
flush [] ws = ws
flush (c ∷ cs) ws = (c ∷ cs) ∷ ws

-- The words of a text, after the part of a word that has been read.
abbrev pub words_after : Text → Text → List Text
words_after word [] = flush word []
words_after word (c ∷ cs) =
    if c == space then flush word (words_after [] cs) else words_after (word ++ c ∷ []) cs

abbrev pub words : Text → List Text
words = words_after []

-- The array holds 64 items and a NULL.
abbrev pub packed : List Text → Items
packed ws = if leb (length ws) item_count_max then to_items ws else overrun

drop-suc :
    (cmd : Text) (i n : ℕ)
    → i < n
    → n ≤ length cmd
    → drop i (take n cmd) ≡ get_or cmd i 0 ∷ drop (suc i) (take n cmd)
drop-suc [] i n h b = absurd (omega arith)
drop-suc (c ∷ cmd) i zero h b = absurd (omega arith)
drop-suc (c ∷ cmd) zero (suc n) h b = refl
drop-suc (c ∷ cmd) (suc i) (suc n) h b = drop-suc cmd i n (omega arith) (omega arith)

drop-end : (cmd : Text) (i n : ℕ) → n ≤ i → drop i (take n cmd) ≡ []
drop-end cmd zero zero h = refl
drop-end cmd zero (suc n) h = absurd (omega arith)
drop-end cmd (suc i) zero h = refl
drop-end [] (suc i) (suc n) h = refl
drop-end (c ∷ cmd) (suc i) (suc n) h = drop-end cmd i n (omega arith)

take-suc :
    (cmd : Text) (i : ℕ) → i < length cmd → take (suc i) cmd ≡ take i cmd ++ get_or cmd i 0 ∷ []
take-suc [] i h = absurd (omega arith)
take-suc (c ∷ cmd) zero h = refl
take-suc (c ∷ cmd) (suc i) h = ap (λ t. c ∷ t) (take-suc cmd i (omega arith))

get_or-drop_add : (cmd : Text) (l i : ℕ) → get_or (drop l cmd) i 0 ≡ get_or cmd (l + i) 0
get_or-drop_add cmd zero i = let e : i ≡ 0 + i = omega arith in ap (λ j. get_or cmd j 0) e
get_or-drop_add [] (suc l) i = refl
get_or-drop_add (c ∷ cmd) (suc l) i =
    let e : suc (l + i) ≡ suc l + i = omega arith in
    get_or-drop_add cmd l i ∙ ap (λ j. get_or (c ∷ cmd) j 0) e

-- One more byte of a slice.
slice-suc :
    (cmd : Text) (l i : ℕ)
    → l ≤ i
    → i < length cmd
    → take (i + 1 - l) (drop l cmd) ≡ take (i - l) (drop l cmd) ++ get_or cmd i 0 ∷ []
slice-suc cmd l i h b =
    let more : i + 1 - l ≡ suc (i - l) = omega arith in
    let place : l + (i - l) ≡ i = omega arith in
    ap (λ k. take k (drop l cmd)) more
    ∙ take-suc (drop l cmd) (i - l) (omega (arith, length-drop l cmd))
    ∙ ap (λ c. take (i - l) (drop l cmd) ++ c ∷ [])
        (get_or-drop_add cmd l (i - l) ∙ ap (λ j. get_or cmd j 0) place)

-- What the loop over the spaces reaches.
record Skipped (cmd : Text) (left l n : ℕ) : Type 0 where
  ge : left ≤ l
  le : l ≤ n
  stops : l < n → (get_or cmd l 0 == space) ≡ false
  words_same : words (drop left (take n cmd)) ≡ words (drop l (take n cmd))

skip_spaces-Skipped :
    (k : ℕ) (cmd : Text) (left n : ℕ)
    → n ≤ length cmd
    → n < 256
    → left ≤ n
    → n ≤ left + k
    → Skipped cmd left (skip_spaces k cmd left n) n
unfolding skip_spaces
skip_spaces-Skipped zero cmd left n b w h f = record {
  ge = omega arith;
  le = h;
  stops = λ p. absurd (omega arith);
  words_same = refl;
}
skip_spaces-Skipped (suc k) cmd left n b w h f =
    elim (Bool-cases (ltb left n && get_or cmd left 0 == space)) [
      | inl e ↦
          let below : left < n = ground (arith, e) in
          let wrapped : u8 (left + 1) ≡ suc left = omega arith in
          let more = skip_spaces-Skipped k cmd (suc left) n b w (omega arith) (omega arith) in
          rw (skip_spaces, e, wrapped)
            (record {
              ge = omega (arith, more.ge);
              le = more.le;
              stops = more.stops;
              words_same =
                  ap words (drop-suc cmd left n below b) ∙ ground (arith, e) ∙ more.words_same;
            })
      | inr e ↦
          rw (skip_spaces, e)
            (record { ge = omega arith; le = h; stops = λ p. ground (arith, e); words_same = refl })
    ]

record Found (cmd : Text) (l right r n : ℕ) : Type 0 where
  ge : right ≤ r
  le : r ≤ n
  words_are :
      words_after (take (right - l) (drop l cmd)) (drop right (take n cmd))
      ≡ flush (take (r - l) (drop l cmd)) (words (drop (suc r) (take n cmd)))

Found-end : (cmd : Text) (l n : ℕ) → Found cmd l n n n
Found-end cmd l n = record {
  ge = omega arith;
  le = omega arith;
  words_are =
      ap (words_after (take (n - l) (drop l cmd))) (drop-end cmd n n (omega arith))
      ∙ sym (
          ap (λ t. flush (take (n - l) (drop l cmd)) (words t))
            (drop-end cmd (suc n) n (omega arith)));
}

find_space-Found :
    (k : ℕ) (cmd : Text) (l right n : ℕ)
    → n ≤ length cmd
    → n < 256
    → l ≤ right
    → right ≤ n
    → n ≤ right + k
    → Found cmd l right (find_space k cmd right n) n
unfolding find_space
find_space-Found zero cmd l right n b w lr h f =
    let e : right ≡ n = omega arith in rw (find_space, e) (Found-end cmd l n)
find_space-Found (suc k) cmd l right n b w lr h f = elim (Bool-cases (ltb right n)) [
  | inr e ↦ let q : right ≡ n = ground (arith, e) in rw (find_space, e) (rw q (Found-end cmd l n))
  | inl e ↦
      let below : right < n = ground (arith, e) in
      let split = drop-suc cmd right n below b in
      elim (Bool-cases (get_or cmd right 0 == space)) [
        | inl s ↦
            rw (find_space, e, s)
              (record {
                ge = omega arith;
                le = h;
                words_are =
                    ap (words_after (take (right - l) (drop l cmd))) split ∙ ground (arith, s);
              })
        | inr s ↦
            let wrapped : u8 (right + 1) ≡ suc right = omega arith in
            let more =
              find_space-Found k cmd l (suc right) n b w (omega arith) (omega arith)
                (omega arith) in
            let slice = slice-suc cmd l right lr (omega arith) in
            rw (find_space, e, s, wrapped)
              (record {
                ge = omega (arith, more.ge);
                le = more.le;
                words_are =
                    ap (words_after (take (right - l) (drop l cmd))) split
                    ∙ ground (arith, s, slice, more.words_are);
              })
      ]
]

-- What the loop has still to find, with the items it has stored: nothing once `right` is at the end.
record Remaining (cmd : Text) (left right n : ℕ) (rest : List Text) : Type 0 where
  inside : right < n → (left ≤ n) × (rest ≡ words (drop left (take n cmd)))
  outside : n ≤ right → rest ≡ []

flush-slice :
    (cmd : Text) (l r : ℕ) (ws : List Text)
    → l < r
    → l < length cmd
    → flush (take (r - l) (drop l cmd)) ws ≡ take (r - l) (drop l cmd) ∷ ws
flush-slice cmd l zero ws h b = absurd (omega arith)
flush-slice [] l (suc r) ws h b = absurd (omega arith)
flush-slice (c ∷ cmd) zero (suc r) ws h b = let e : suc r - 0 ≡ suc r = omega arith in rw e refl
flush-slice (c ∷ cmd) (suc l) (suc r) ws h b =
    let e : suc r - suc l ≡ r - l = omega arith in
    rw e (flush-slice cmd l r ws (omega arith) (omega arith))

-- The words from a place that is no space: the item there, then those after it.
words-item :
    (cmd : Text) (l r n : ℕ)
    → n ≤ length cmd
    → l < n
    → (get_or cmd l 0 == space) ≡ false
    → Found cmd l (l + 1) r n
    → words (drop l (take n cmd)) ≡ take (r - l) (drop l cmd) ∷ words (drop (suc r) (take n cmd))
words-item cmd l r n b h s found =
    let e : l + 1 ≡ suc l = omega arith in
    let none_read : l - l ≡ 0 = omega arith in
    let slice : take (l + 1 - l) (drop l cmd) ≡ get_or cmd l 0 ∷ [] =
      slice-suc cmd l l (omega arith) (omega arith) ∙ rw none_read refl in
    let first : words (drop l (take n cmd))
        ≡ words_after (get_or cmd l 0 ∷ []) (drop (suc l) (take n cmd)) =
      ap words (drop-suc cmd l n h b) ∙ ground (arith, s) in
    first
    ∙ rw (sym slice) (rw (sym e) found.words_are)
    ∙ flush-slice cmd l r _ (omega (arith, found.ge)) (omega arith)

ended :
    (items rest : List Text)
    → length items ≤ item_count_max
    → rest ≡ []
    → to_items items ≡ packed (items ++ rest)
ended items rest c e = rw (e, append-nil items) (ground (arith, c))

overrun-packed :
    (items rest : List Text) (w : Text) (ws : List Text)
    → rest ≡ w ∷ ws
    → ltb (length items) item_count_max ≡ false
    → packed (items ++ rest) ≡ overrun
overrun-packed items rest w ws e full = rw e (ground (arith, full, length-append items (w ∷ ws)))

split_loop-packed :
    (k : ℕ) (cmd : Text) (left right n : ℕ) (items rest : List Text)
    → n ≤ length cmd
    → n < 256
    → (right < n → n < left + k)
    → length items ≤ item_count_max
    → Remaining cmd left right n rest
    → split_loop k cmd left right n items ≡ packed (items ++ rest)
unfolding split_loop store_item
split_loop-packed zero cmd left right n items rest b w f c m =
    let out : n ≤ right = ground (arith, f, m.inside) in ended items rest c (m.outside out)
split_loop-packed (suc k) cmd left right n items rest b w f c m = elim (Bool-cases (ltb right n)) [
  | inr e ↦ rw (split_loop, e) (ended items rest c (m.outside (ground (arith, e))))
  | inl e ↦
      let below : right < n = ground (arith, e) in
      let at = m.inside below in
      let l : ℕ = skip_spaces n cmd left n in
      let skipped = skip_spaces-Skipped n cmd left n b w at.0 (omega arith) in
      elim (Bool-cases (leb n l)) [
        | inl q ↦
            rw (split_loop, e, q)
              (ended items rest c
                (at.1 ∙ skipped.words_same ∙ ap words (drop-end cmd l n (ground (arith, q)))))
        | inr q ↦
            let inside : l < n = ground (arith, q) in
            let wrapped : u8 (l + 1) ≡ l + 1 = omega arith in
            let r : ℕ = find_space n cmd (u8 (l + 1)) n in
            let found : Found cmd l (l + 1) r n =
              rw wrapped (
                find_space-Found n cmd l (l + 1) n b w (omega arith) (omega arith) (omega arith)) in
            let size : u8 (r - l) ≡ r - l = omega (arith, found.le) in
            let after : List Text = words (drop (suc r) (take n cmd)) in
            let rest_is : rest ≡ take (r - l) (drop l cmd) ∷ after =
              at.1
              ∙ skipped.words_same
              ∙ words-item cmd l r n b inside (skipped.stops inside) found in
            let left_items : Remaining cmd (u8 (r + 1)) r n after = record {
              inside = λ p.
                  let e : u8 (r + 1) ≡ suc r = omega arith in
                  (omega (arith, e), ap (λ j. words (drop j (take n cmd))) (sym e));
              outside = λ p. ap words (drop-end cmd (suc r) n (omega arith));
            } in
            elim (Bool-cases (ltb (length items) item_count_max)) [
              | inr full ↦
                  rw (split_loop, e, q, size, full)
                    (sym (overrun-packed items rest _ _ rest_is full))
              | inl room ↦
                  rw (split_loop, e, q, size, room)
                    (split_loop-packed k cmd (u8 (r + 1)) r n _ after b w
                        (λ p. omega (arith, f below, skipped.ge, found.ge))
                        (ground (arith, room, length-append items (take (r - l) (drop l cmd) ∷ [])))
                        left_items
                      ∙ ap packed (append_assoc items _ after ∙ ap (λ t. items ++ t) (sym rest_is)))
            ]
      ]
]

-- A line of any length is split into its words, as far as its length modulo 256 reaches: a line of
-- spaces gives NULL, and more than 64 words give a write that leaves no place for the NULL.
pub cmd_split_lem : (cmd : Text) → cmd_split cmd ≡ packed (words (take (u8 (length cmd)) cmd))
unfolding cmd_split
cmd_split_lem cmd =
    let n : ℕ = u8 (length cmd) in
    let low : n ≤ length cmd = omega arith in
    split_loop-packed (suc n) cmd 0 0 n [] (words (take n cmd)) low (omega arith) (λ p. omega arith)
      (omega arith)
      (record {
        inside = λ p. (omega arith, refl);
        outside = λ p. ap words (drop-end cmd 0 n (omega arith));
      })
