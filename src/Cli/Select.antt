-- ===== src/Cli/Select.antt =====
-- Which item of a level a typed word stands for, in `_cli_trie_match` and `_cli_trie_item_get` of
-- mgnt/cli/cli_trie.c.
use misc_c.Base.{
  ℕ, suc, ◌≡◌, refl, ◌∙◌, inl, inr, Option, none, some, Option-cases, List, [], ◌∷◌, ◌==◌,
  if◌then◌else◌, arith,
}
use misc_c.Cli.{Text, is_prefix}
use misc_c.Cli.Trie.{Item, Next, nil, cons, name, find, scan}
use misc_c.Cli.Commands.{scan-find}

-- The items whose names begin with the word.
abbrev pub candidates : Text → Next → List Item
candidates word nil = []
candidates word (cons c cs) =
    if is_prefix word (name c) then c ∷ candidates word cs else candidates word cs

abbrev pub only : List Item → Option Item
only (c ∷ []) = some c
only _ = none

-- A name in full, or else a beginning that fits one name only.
abbrev pub selected : Text → Next → Option Item
selected word ns = elim (find word ns) [ some c ↦ some c | none ↦ only (candidates word ns) ]

chosen : ℕ → Option Item → List Item → Option Item
chosen cnt last [] = if cnt == 1 then last else none
chosen cnt last (c ∷ cs) = chosen (suc cnt) (some c) cs

chosen_many :
    (cs : List Item) (cnt : ℕ) (last : Option Item) → chosen (suc (suc cnt)) last cs ≡ none
unfolding chosen
chosen_many [] cnt last = ground arith
chosen_many (c ∷ cs) cnt last = chosen_many cs (suc cnt) (some c)

chosen-only : (cs : List Item) → chosen 0 none cs ≡ only cs
unfolding chosen
chosen-only [] = refl
chosen-only (c ∷ []) = refl
chosen-only (c ∷ d ∷ cs) = chosen_many cs 0 (some d)

scan-chosen :
    (w : Text) (ns : Next) (cnt : ℕ) (last : Option Item)
    → find w ns ≡ none
    → scan w ns cnt last ≡ chosen cnt last (candidates w ns)
unfolding find scan chosen
scan-chosen w nil cnt last h = refl
scan-chosen w (cons d ds) cnt last h =
    ground (arith, h, scan-chosen w ds (suc cnt) (some d), scan-chosen w ds cnt last)

-- The scan of a level finds the item whose name is the word, or else the item whose name begins
-- with it when there is one such item only.
pub scan-selected : (w : Text) (ns : Next) → scan w ns 0 none ≡ selected w ns
scan-selected w ns = elim (Option-cases (find w ns)) [
  | inl e ↦ rw (selected, e) (scan-chosen w ns 0 none e ∙ chosen-only (candidates w ns))
  | inr (c, e) ↦ rw (selected, e) (scan-find w ns 0 none e)
]
