-- ===== src/Cli/Commands.antt =====
-- The tree of mgnt/cli/cli_trie.c as a table of commands: what an insertion changes, and what a
-- match finds.
use misc_c.Base.{
  ℕ, suc, ◌-◌, ◌<◌, ◌≡◌, refl, ap, sym, ◌∙◌, inl, inr, Bool, true, false, ◌&&◌, Bool-cases, Option,
  none, some, Option-cases, List, [], ◌∷◌, ◌++◌, length, length-append, drop, if◌then◌else◌, ◌↔◌,
  arith,
}
use misc_c.Cli.{Text, equal}
use misc_c.Cli.Trie.{
  Param, Hook, Info, Item, item, Next, nil, cons, name, info, next, item_new, size, find, update,
  append_item, grow_next, register, enter, insert_tokens, scan, last_end, match_loop, match_info,
  cli_trie_match,
}

pub equal_iff : (a b : Text) → (equal a b ≡ true) ↔ (a ≡ b)
unfolding equal
equal_iff [] [] = ground arith
equal_iff [] (b ∷ bs) = ground arith
equal_iff (a ∷ xs) [] = ground arith
equal_iff (a ∷ xs) (b ∷ ys) = ground (arith, equal_iff xs ys)

-- Whether two lists of words are the same.
abbrev pub same_words : List Text → List Text → Bool
same_words [] [] = true
same_words (u ∷ us) (t ∷ ts) = equal u t && same_words us ts
same_words _ _ = false

pub same_words_refl : (ts : List Text) → same_words ts ts ≡ true
same_words_refl [] = refl
same_words_refl (t ∷ ts) = ground (arith, equal_iff t t, same_words_refl ts)

-- The item that the words lead to, each by its whole name.
unfoldable pub item_at : List Text → Item → Option Item
unfolding find
item_at [] it = some it
item_at (w ∷ ws) it = elim (find w (next it)) [ none ↦ none | some c ↦ item_at ws c ]

abbrev pub if_end : Option Item → Option Info
if_end none = none
if_end (some c) = if (info c).is_end then some (info c) else none

-- The command with these words.
abbrev pub command : List Text → Item → Option Info
command ws it = if_end (item_at ws it)

abbrev pub item_or_new : Text → Option Item → Item
item_or_new token none = item_new token
item_or_new token (some c) = c

-- Each level that the words lead through has the item, or room for it.
abbrev pub Room : List Text → Item → Type 0
Room [] it = Unit
Room (t ∷ ts) it =
    (find t (next it) ≡ none → size (next it) < 255) × Room ts (item_or_new t (find t (next it)))

find-update :
    (u t : Text) (f : Item → Item) (ns : Next)
    → ((c : Item) → name (f c) ≡ name c)
    → find u (update t f ns)
      ≡ (if equal u t then elim (find t ns) [ none ↦ none | some c ↦ some (f c) ] else find u ns)
unfolding find update
find-update u t f nil keeps = ground arith
find-update u t f (cons c cs) keeps = ground (
  arith,
  equal_iff u t,
  equal_iff t (name c),
  equal_iff u (name c),
  keeps c,
  find-update u t f cs keeps,
)

find-append_item :
    (u : Text) (ns : Next) (c : Item)
    → find u (append_item ns c)
      ≡ elim (find u ns) [ some d ↦ some d | none ↦ if equal u (name c) then some c else none ]
unfolding find append_item
find-append_item u nil c = refl
find-append_item u (cons d ds) c = ground (arith, find-append_item u ds c)

-- After one level of the insertion: the item of the token is the changed one, and each other item
-- is the one before.
find-enter :
    (u t : Text) (f : Item → Item) (ns : Next)
    → ((c : Item) → name (f c) ≡ name c)
    → (find t ns ≡ none → size ns < 255)
    → find u (enter t f ns)
      ≡ (if equal u t then some (f (item_or_new t (find t ns))) else find u ns)
unfolding enter grow_next
find-enter u t f ns keeps room = elim (Option-cases (find t ns)) [
  | inl e ↦
      let made : Item = f (item_new t) in
      let grown : grow_next ns made ≡ append_item ns made = ground (arith, room e) in
      rw (enter, e)
        (ap (find u) grown
          ∙ ground (arith, equal_iff u t, keeps (item_new t), find-append_item u ns made, e))
  | inr (c, e) ↦ rw (enter, e) (rw e at (find-update u t f ns keeps))
]

insert_tokens-name :
    (ts : List Text) (g : Info → Info) (c : Item) → name (insert_tokens ts g c) ≡ name c
unfolding insert_tokens
insert_tokens-name [] g (item n i ns) = refl
insert_tokens-name (t ∷ ts) g (item n i ns) = refl

command_new : (ws : List Text) (t : Text) → command ws (item_new t) ≡ none
unfolding item_at find
command_new [] t = refl
command_new (w ∷ ws) t = refl

command-cons :
    (w : Text) (ws : List Text) (it : Item)
    → command (w ∷ ws) it ≡ command ws (item_or_new w (find w (next it)))
unfolding item_at
command-cons w ws it = elim (Option-cases (find w (next it))) [
  | inl e ↦ rw (item_at, e) (sym (command_new ws w))
  | inr (c, e) ↦ rw (item_at, e) refl
]

-- What the item of the words holds, or a new one would.
abbrev pub info_at : List Text → Item → Info
info_at [] it = info it
info_at (t ∷ ts) it = info_at ts (item_or_new t (find t (next it)))

command-insert :
    (g : Info → Info) (ts us : List Text) (it : Item)
    → ((i : Info) → (g i).is_end ≡ true)
    → Room ts it
    → command us (insert_tokens ts g it)
      ≡ (if same_words us ts then some (g (info_at ts it)) else command us it)
unfolding insert_tokens item_at
command-insert g [] [] (item n i ns) ends room = ground (arith, ends i)
command-insert g [] (u ∷ us) (item n i ns) ends room = refl
command-insert g (t ∷ ts) [] (item n i ns) ends room = refl
command-insert g (t ∷ ts) (u ∷ us) (item n i ns) ends room =
    let f : Item → Item = insert_tokens ts g in
    let c : Item = item_or_new t (find t ns) in
    let found = find-enter u t f ns (insert_tokens-name ts g) room.0 in
    let more = command-insert g ts us c ends room.1 in
    let here = command-cons u us (item n i ns) in
    elim (Bool-cases (equal u t)) [
      | inl e ↦
          let q : u ≡ t = ground (arith, equal_iff u t) in
          let before : command (u ∷ us) (item n i ns) ≡ command us c =
            here ∙ ap (λ w. command us (item_or_new w (find w ns))) q in
          let at : find u (enter t f ns) ≡ some (f c) = ground (arith, found, e) in
          command-cons u us (item n i (enter t f ns))
          ∙ ap (λ o. command us (item_or_new u o)) at
          ∙ more
          ∙ rw (e, before) refl
      | inr e ↦
          let at : find u (enter t f ns) ≡ find u ns = ground (arith, found, e) in
          command-cons u us (item n i (enter t f ns))
          ∙ ap (λ o. command us (item_or_new u o)) at
          ∙ sym here
          ∙ rw e refl
    ]

abbrev pub or_before : List Param → List Param → List Param
or_before [] before = before
or_before (p ∷ ps) before = p ∷ ps

-- What the item of a command holds once it is registered.
abbrev pub registered : Text → List Param → Option Hook → Info → Info
registered help param hook before = record {
  help = some help;
  hook = hook;
  is_end = true;
  params = or_before param before.params;
}

-- `_cli_trie_insert` puts one command in the table: with its words there is then its help and its
-- hook, with its parameters or, when it has none, those of before; every other command is as it
-- was. It asks for room on the way: no level that the words reach holds 255 other items.
pub command-insert_tokens :
    (ts us : List Text) (help : Text) (param : List Param) (hook : Option Hook) (root : Item)
    → Room ts root
    → command us (insert_tokens ts (register help param hook) root) ≡ (
        if same_words us ts
        then some (registered help param hook (info_at ts root))
        else command us root)
unfolding register
command-insert_tokens ts us help [] hook root room =
    command-insert (register help [] hook) ts us root (λ i. refl) room
command-insert_tokens ts us help (p ∷ ps) hook root room =
    command-insert (register help (p ∷ ps) hook) ts us root (λ i. refl) room

-- A name is preferred to the names it begins.
pub scan-find :
    (w : Text) (ns : Next) (cnt : ℕ) (last : Option Item) {c : Item}
    → find w ns ≡ some c
    → scan w ns cnt last ≡ some c
unfolding find scan
scan-find w nil cnt last h = ground (arith, h)
scan-find w (cons d ds) cnt last {c} h =
    ground (arith, h, scan-find w ds (suc cnt) (some d) {c = c}, scan-find w ds cnt last {c = c})

-- The match goes no further into the tree than `c`.
abbrev pub Stops : List Text → Item → Type 0
Stops [] c = Unit
Stops (a ∷ _) c = scan a (next c) 0 none ≡ none

match_loop-item_at :
    (ts args : List Text) (it c : Item) (last : Option Item)
    → item_at ts it ≡ some c
    → (info c).is_end ≡ true
    → (ts ≡ [] → last ≡ some c)
    → Stops args c
    → match_loop (ts ++ args) it (length (ts ++ args)) last ≡ (length args, some c)
unfolding item_at match_loop
match_loop-item_at [] [] it c last h e l s = ground (arith, h, l)
match_loop-item_at [] (a ∷ args) it c last h e l s =
    let q : it ≡ c = ground (arith, h) in
    let no : scan a (next it) 0 none ≡ none = rw q s in rw (match_loop, no, l refl) refl
match_loop-item_at (t ∷ ts) args it c last h e l s = elim (Option-cases (find t (next it))) [
  | inl q ↦
      let bad : ◌≡◌ {A = Option Item} none (some c) = rw (item_at, q) at h in ground (arith, bad)
  | inr (d, q) ↦
      let h' : item_at ts d ≡ some c = rw (item_at, q) at h in
      let scanned = scan-find t (next it) 0 none q in
      let one_less : suc (length (ts ++ args)) - 1 ≡ length (ts ++ args) = omega arith in
      let ends : ts ≡ [] → last_end d last ≡ some c = λ p.
        let same : some d ≡ some c = ap (λ w. item_at w d) (sym p) ∙ h' in
        ground (arith, same, e) in
      rw (match_loop, scanned, one_less)
        (match_loop-item_at ts args d c (last_end d last) h' e ends s)
]

drop-append : (ts args : List Text) → drop (length ts) (ts ++ args) ≡ args
drop-append [] args = refl
drop-append (t ∷ ts) args = drop-append ts args

-- The words of a command, and arguments that lead no further into the tree: `_cli_trie_match` finds
-- the command's hook and parameters and leaves the arguments.
pub cli_trie_match_lem :
    (t : Text) (ts args : List Text) (root c : Item)
    → item_at (t ∷ ts) root ≡ some c
    → (info c).is_end ≡ true
    → Stops args c
    → cli_trie_match (t ∷ ts ++ args) root ≡ record {
      hook = (info c).hook;
      params = (info c).params;
      remain_argv = args;
      remain_argc = length args;
    }
unfolding cli_trie_match
cli_trie_match_lem t ts args root c h e s =
    let found = match_loop-item_at (t ∷ ts) args root c none h e (λ p. ground (arith, p)) s in
    let start : length (t ∷ ts ++ args) - length args ≡ length (t ∷ ts) =
      omega (arith, length-append ts args) in
    ap (match_info (t ∷ ts ++ args)) found ∙ rw start (rw (drop-append (t ∷ ts) args) refl)
