-- ===== src/Cli/Trie.antt =====
-- mgnt/cli/cli_trie.c: the tree of commands, `_cli_trie_insert`, `_cli_trie_match` and
-- `_cli_trie_item_get`, with the types of mgnt/include/cli/cli_trie.h.
use misc_c.Base.{
  ℕ, suc, ◌-◌, Bool, true, false, Option, none, some, List, [], ◌∷◌, length, drop, ◌==◌,
  if◌then◌else◌,
}
use misc_c.Cli.{Text, equal, is_prefix, null, array, overrun, cmd_split}

-- `cli_param_type_e`
pub data ParamType : Type 0 where
  param_pos param_bool param_value : ParamType

-- `cli_param_t`
pub record Param : Type 0 where
  pub short_name : ℕ
  pub type : ParamType
  pub required : Bool
  pub help : Text

-- A callback, by its address.
abbrev pub Hook : Type 0
Hook = ℕ

-- The fields of a node that its own command sets. `params` is the array with its count
-- `params_cnt`: it is NULL while there are none.
pub record Info : Type 0 where
  pub help : Option Text
  pub hook : Option Hook
  pub is_end : Bool
  pub params : List Param

-- `cli_trie_item_t`; the array `next` holds as many items as `size` says.
mutual
  pub data Item : Type 0 where
    item : Text → Info → Next → Item

  pub data Next : Type 0 where
    nil : Next
    cons : Item → Next → Next

abbrev pub name : Item → Text
name (item n i ns) = n

abbrev pub info : Item → Info
info (item n i ns) = i

abbrev pub next : Item → Next
next (item n i ns) = ns

abbrev pub no_info : Info
no_info = record { help = none; hook = none; is_end = false; params = [] }

-- `mp_calloc(1, sizeof(cli_trie_item_t))` and the name
abbrev pub item_new : Text → Item
item_new token = item token no_info nil

unfoldable pub size : Next → ℕ
size nil = 0
size (cons c cs) = suc (size cs)

-- The first loop of `_cli_trie_insert`: the item of this level with the token's name.
unfoldable pub find : Text → Next → Option Item
find token nil = none
find token (cons c cs) = if equal token (name c) then some c else find token cs

-- What the insertion does to that item, in its place.
unfoldable pub update : Text → (Item → Item) → Next → Next
update token f nil = nil
update token f (cons c cs) =
    if equal token (name c) then cons (f c) cs else cons c (update token f cs)

unfoldable pub append_item : Next → Item → Next
append_item nil c = cons c nil
append_item (cons d ds) c = cons d (append_item ds c)

-- The array grows by one. `size` is an unsigned char: with a 256th item it is 0 again, and no item
-- of the array is seen any more.
unfoldable pub grow_next : Next → Item → Next
unfolding append_item size
grow_next ns c = if size ns == 255 then nil else append_item ns c

-- The end of `_cli_trie_insert`, at the item of the last token.
unfoldable pub register : Text → List Param → Option Hook → Info → Info
register help [] hook i = record i { help = some help; hook = hook; is_end = true }
register help (p ∷ ps) hook i = record {
  help = some help;
  hook = hook;
  is_end = true;
  params = p ∷ ps;
}

-- One level of `_cli_trie_insert`; `f` is what happens to the item that is found or made.
unfoldable pub enter : Text → (Item → Item) → Next → Next
unfolding find update grow_next
enter token f ns = elim (find token ns) [
  | some c ↦ update token f ns
  | none ↦ grow_next ns (f (item_new token))
]

-- `_cli_trie_insert` after the split
unfoldable pub insert_tokens : List Text → (Info → Info) → Item → Item
unfolding enter
insert_tokens [] f (item n i ns) = item n (f i) ns
insert_tokens (t ∷ ts) f (item n i ns) = item n i (enter t (insert_tokens ts f) ns)

-- `_cli_trie_insert`; no tree when the split leaves its array.
unfoldable pub cli_trie_insert : Text → Text → List Param → Option Hook → Item → Option Item
unfolding insert_tokens register
cli_trie_insert cmd help param hook root = elim (cmd_split cmd) [
  | null ↦ some root
  | array items ↦ some (insert_tokens items (register help param hook) root)
  | overrun ↦ none
]

-- The scan of one level in `_cli_trie_match` and `_cli_trie_item_get`: an item with this very name,
-- or else the only item whose name starts with the word. `cnt` and `last` are `prefix_match_cnt`
-- and `prefix_match_item`.
unfoldable pub scan : Text → Next → ℕ → Option Item → Option Item
scan word nil cnt last = if cnt == 1 then last else none
scan word (cons c cs) cnt last =
    if equal word (name c)
    then some c
    else if is_prefix word (name c)
    then scan word cs (suc cnt) (some c)
    else scan word cs cnt last

-- `cli_match_info_t`
pub record MatchInfo : Type 0 where
  pub hook : Option Hook
  pub params : List Param
  pub remain_argv : List Text
  pub remain_argc : ℕ

abbrev pub last_end : Item → Option Item → Option Item
last_end c before = if (info c).is_end then some c else before

-- The loop of `_cli_trie_match`: `remain` and `last_end_item` when it ends.
unfoldable pub match_loop : List Text → Item → ℕ → Option Item → ℕ × Option Item
unfolding scan
match_loop [] it remain last = (remain, last)
match_loop (w ∷ ws) it remain last = elim (scan w (next it) 0 none) [
  | none ↦ (remain, last)
  | some c ↦ match_loop ws c (remain - 1) (last_end c last)
]

abbrev pub no_match : MatchInfo
no_match = record { hook = none; params = []; remain_argv = []; remain_argc = 0 }

abbrev pub match_info : List Text → ℕ × Option Item → MatchInfo
match_info items (remain, none) = no_match
match_info items (remain, some c) = record {
  hook = (info c).hook;
  params = (info c).params;
  remain_argv = drop (length items - remain) items;
  remain_argc = remain;
}

unfoldable pub cli_trie_match : List Text → Item → MatchInfo
unfolding match_loop
cli_trie_match items root = match_info items (match_loop items root (length items) none)

-- The walk of `_cli_trie_item_get`
unfoldable pub get_loop : List Text → Item → Option Item
unfolding scan
get_loop [] it = some it
get_loop (w ∷ ws) it = elim (scan w (next it) 0 none) [ none ↦ none | some c ↦ get_loop ws c ]

-- `_cli_trie_item_get`; the outer option is none when the split leaves its array.
unfoldable pub cli_trie_item_get : Option Text → Item → Option (Option Item)
unfolding get_loop
cli_trie_item_get none root = some (some root)
cli_trie_item_get (some prefix) root = elim (cmd_split prefix) [
  | null ↦ some none
  | array items ↦ some (get_loop items root)
  | overrun ↦ none
]
