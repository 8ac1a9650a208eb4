-- ===== src/Cli/Lines.antt =====
-- A command as a line, from `_cmd_split` to the call of its hook, over mgnt/cli/cli_trie.c.
use misc_c.Base.{
  ◌<◌, ◌≡◌, refl, ◌∙◌, ap, sym, true, Bool-cases, inl, inr, false, Option, none, some, List, [],
  ◌∷◌, ◌++◌, append-nil, append_assoc, length, take, take-all, leb, ◌==◌, arith,
}
use misc_c.Cli.{Text, space, u8, cmd_split, array, item_count_max, to_items}
use misc_c.Cli.Trie.{
  Info, Item, Hook, info, register, insert_tokens, cli_trie_insert, cli_trie_match,
}
use misc_c.Cli.Commands.{
  registered, same_words, same_words_refl, item_at, if_end, command, Room, info_at,
  command-insert_tokens, cli_trie_match_lem,
}
use misc_c.Cli.Args.{called, parse_execute, excute_items, cli_trie_excute}
use misc_c.Cli.Split.{words_after, words, packed, cmd_split_lem}

abbrev pub NoSpace : Text → Type 0
NoSpace [] = Unit
NoSpace (c ∷ cs) = ((c == space) ≡ false) × NoSpace cs

-- The words of a command: none is empty and none holds a space.
abbrev pub AreWords : List Text → Type 0
AreWords [] = Unit
AreWords ([] ∷ ws) = ⊥
AreWords ((c ∷ cs) ∷ ws) = NoSpace (c ∷ cs) × AreWords ws

-- A line of words, with one space after each.
abbrev pub line : List Text → Text
line [] = []
line (w ∷ ws) = w ++ space ∷ line ws

words_after-append :
    (cur w rest : Text) → NoSpace w → words_after cur (w ++ rest) ≡ words_after (cur ++ w) rest
words_after-append cur [] rest n = rw (append-nil cur) refl
words_after-append cur (c ∷ w) rest n = rw n.0 (
    words_after-append (cur ++ c ∷ []) w rest n.1
    ∙ ap (λ t. words_after t rest) (append_assoc cur (c ∷ []) w))

words-line : (ws : List Text) → AreWords ws → words (line ws) ≡ ws
words-line [] a = refl
words-line ([] ∷ ws) a = absurd a
words-line ((c ∷ cs) ∷ ws) a =
    words_after-append [] (c ∷ cs) (space ∷ line ws) a.0
    ∙ ap (λ t. (c ∷ cs) ∷ t) (words-line ws a.1)

-- A line of 1 to 64 words that is shorter than 256 bytes is split into these words.
pub cmd_split-line :
    (w : Text) (ws : List Text)
    → AreWords (w ∷ ws)
    → length ws < item_count_max
    → length (line (w ∷ ws)) < 256
    → cmd_split (line (w ∷ ws)) ≡ array (w ∷ ws)
unfolding to_items
cmd_split-line w ws a few short =
    let whole : u8 (length (line (w ∷ ws))) ≡ length (line (w ∷ ws)) = omega arith in
    let few' : leb (length (w ∷ ws)) item_count_max ≡ true = ground (arith, few) in
    cmd_split_lem (line (w ∷ ws))
    ∙ ap (λ n. packed (words (take n (line (w ∷ ws))))) whole
    ∙ ap (λ t. packed (words t)) (take-all (line (w ∷ ws)) _ (omega arith))
    ∙ ap packed (words-line (w ∷ ws) a)
    ∙ rw (packed, few') refl

if_end-some :
    (o : Option Item) {i : Info}
    → if_end o ≡ some i
    → (c : Item) × (o ≡ some c) × ((info c).is_end ≡ true) × (info c ≡ i)
if_end-some none h = ground (arith, h)
if_end-some (some c) {i} h = elim (Bool-cases (info c).is_end) [
  | inl e ↦ let q : some (info c) ≡ some i = rw (if_end, e) at h in (c, refl, e, ground (arith, q))
  | inr e ↦ let q : none ≡ some i = rw (if_end, e) at h in ground (arith, q)
]

-- The words of a command that takes no parameters call its hook.
excute_items_registered :
    (cmd w : Text) (ws : List Text) (root : Item) {i : Info} {h : Hook}
    → command (w ∷ ws) root ≡ some i
    → i.hook ≡ some h
    → i.params ≡ []
    → excute_items cmd (w ∷ ws) root ≡ called h 0 []
unfolding excute_items parse_execute
excute_items_registered cmd w ws root {i} {h} c k p =
    let (it, at, ends, same) = if_end-some (item_at (w ∷ ws) root) c in
    let hook : (info it).hook ≡ some h = ap (λ j. j.hook) same ∙ k in
    let params : (info it).params ≡ [] = ap (λ j. j.params) same ∙ p in
    let found : cli_trie_match (w ∷ ws) root
        ≡ record { hook = some h; params = []; remain_argv = []; remain_argc = 0 } =
      ap (λ vs. cli_trie_match (w ∷ vs) root) (sym (append-nil ws))
      ∙ cli_trie_match_lem w ws [] root it at ends tt
      ∙ rw hook (rw params refl) in
    rw (excute_items, found) (ap parse_execute found)

-- A line that registers a command without parameters, and the same line executed: the tree takes
-- the command, and executing it calls the hook with no arguments. It asks for a line of 1 to 64
-- words that is shorter than 256 bytes, for room in the tree, and that no parameters were
-- registered for these words before.
pub insert-excute :
    (w : Text) (ws : List Text) (help : Text) (h : Hook) (root : Item)
    → AreWords (w ∷ ws)
    → length ws < item_count_max
    → length (line (w ∷ ws)) < 256
    → Room (w ∷ ws) root
    → (info_at (w ∷ ws) root).params ≡ []
    → (grown : Item) × (cli_trie_insert (line (w ∷ ws)) help [] (some h) root ≡ some grown)
      × (cli_trie_excute (line (w ∷ ws)) grown ≡ some (called h 0 []))
unfolding cli_trie_insert cli_trie_excute register
insert-excute w ws help h root a few short room no_params =
    let split = cmd_split-line w ws a few short in
    let grown : Item = insert_tokens (w ∷ ws) (register help [] (some h)) root in
    let same : same_words (w ∷ ws) (w ∷ ws) ≡ true = same_words_refl (w ∷ ws) in
    let there : command (w ∷ ws) grown
        ≡ some (registered help [] (some h) (info_at (w ∷ ws) root)) =
      command-insert_tokens (w ∷ ws) (w ∷ ws) help [] (some h) root room ∙ ground (arith, same) in
    (
      grown,
      rw (cli_trie_insert, split) refl,
      rw (cli_trie_excute, split)
          (ap some (excute_items_registered (line (w ∷ ws)) w ws grown there refl no_params)),
    )
