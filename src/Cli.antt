-- ===== src/Cli.antt =====
-- mgnt/cli/cli_trie.c: the texts of the command line, and how a line is split into items. A text is
-- the list of its bytes, without the NUL at its end.
pub mod Split
pub mod Trie
pub mod Commands
pub mod Select
pub mod Args
pub mod Filled
pub mod Complete
pub mod Lines
pub mod Number
mod Tests
use misc_c.Base.{
  ℕ, zero, suc, ◌+◌, ◌-◌, ◌*◌, ◌%◌, Bool, true, false, ◌&&◌, Option, none, some, List, [], ◌∷◌,
  ◌++◌, length, get_or, take, drop, ltb, leb, ◌==◌, if◌then◌else◌,
}

abbrev pub Text : Type 0
Text = List ℕ

-- `!strcmp(a, b)`
unfoldable pub equal : Text → Text → Bool
equal [] [] = true
equal (a ∷ xs) (b ∷ ys) = a == b && equal xs ys
equal _ _ = false

-- `!strncmp(a, b, strlen(a))`
unfoldable pub is_prefix : Text → Text → Bool
is_prefix [] b = true
is_prefix (a ∷ xs) [] = false
is_prefix (a ∷ xs) (b ∷ ys) = a == b && is_prefix xs ys

abbrev pub space : ℕ
space = b' '

abbrev pub u8 : ℕ → ℕ
u8 n = n % 256

-- `while(left < cmd_len && cmd[left] == ' ') ++ left`
unfoldable pub skip_spaces : ℕ → Text → ℕ → ℕ → ℕ
skip_spaces zero cmd left n = left
skip_spaces (suc k) cmd left n =
    if ltb left n && get_or cmd left 0 == space then skip_spaces k cmd (u8 (left + 1)) n else left

-- `while(right < cmd_len && cmd[right] != ' ') ++ right`
unfoldable pub find_space : ℕ → Text → ℕ → ℕ → ℕ
find_space zero cmd right n = right
find_space (suc k) cmd right n =
    if ltb right n
    then (if get_or cmd right 0 == space then right else find_space k cmd (u8 (right + 1)) n)
    else right

-- What `_cmd_split` gives: NULL, an array of items that ends with NULL, or a write that leaves no
-- place for that NULL, which the code does not look for.
pub data Items : Type 0 where
  null : Items
  array : List Text → Items
  overrun : Items

abbrev pub item_count_max : ℕ
item_count_max = 64

-- `array[size++] = item`
unfoldable pub store_item : List Text → Text → Option (List Text)
store_item items item =
    if ltb (length items) item_count_max then some (items ++ item ∷ []) else none

pub to_items : List Text → Items
to_items [] = null
to_items (i ∷ is) = array (i ∷ is)

-- The loop over the line; the items found so far are in `items`.
unfoldable pub split_loop : ℕ → Text → ℕ → ℕ → ℕ → List Text → Items
unfolding skip_spaces find_space store_item to_items
split_loop zero cmd left right n items = to_items items
split_loop (suc k) cmd left right n items =
    let l = skip_spaces n cmd left n in
    let r = find_space n cmd (u8 (l + 1)) n in
    let item = take (u8 (r - l)) (drop l cmd) in
    if ltb right n
    then (if leb n l then to_items items else elim (store_item items item) [
      | none ↦ overrun
      | some stored ↦ split_loop k cmd (u8 (r + 1)) r n stored
    ])
    else to_items items

unfoldable pub cmd_split : Text → Items
unfolding split_loop
cmd_split cmd = let n = u8 (length cmd) in split_loop (suc n) cmd 0 0 n []
