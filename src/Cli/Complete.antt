-- ===== src/Cli/Complete.antt =====
-- mgnt/cli/cli_trie.c: `cli_trie_completion`. `mem` is how many of the allocations of the call
-- succeed.
use misc_c.Base.{
  ℕ, zero, suc, ◌+◌, ◌≤◌, ◌≡◌, refl, ap, inl, inr, Bool, true, false, ◌&&◌, Bool-cases, Option,
  none, some, List, [], ◌∷◌, get_or, take, ◌==◌, if◌then◌else◌, arith,
}
use misc_c.Cli.{Text, space, is_prefix}
use misc_c.Cli.Trie.{Item, Next, nil, cons, name, next, size, cli_trie_item_get}

-- `first_text`: there are only spaces before `start`.
unfoldable pub first_text : ℕ → Text → Bool
first_text zero prefix = true
first_text (suc n) prefix = if get_or prefix n 0 == space then first_text n prefix else false

-- The copies of the names that are kept, and the allocations left; none when one fails.
unfoldable pub dup_names : (Text → Bool) → Next → ℕ → Option (List Text × ℕ)
dup_names keep nil mem = some ([], mem)
dup_names keep (cons c cs) zero = if keep (name c) then none else dup_names keep cs zero
dup_names keep (cons c cs) (suc mem) =
    if keep (name c)
    then elim (dup_names keep cs mem) [ none ↦ none | some (ns, m) ↦ some (name c ∷ ns, m) ]
    else dup_names keep cs (suc mem)

-- The last step: a single match takes the first place as well.
unfoldable pub with_lcp : Text → List Text → ℕ → Option (List Text)
with_lcp text (n ∷ []) zero = none
with_lcp text (n ∷ []) (suc mem) = some (n ∷ n ∷ [])
with_lcp text ns mem = some (text ∷ ns)

-- `calloc` of the array and `strdup` of its first place, then the names.
unfoldable pub complete_at : ℕ → Text → Item → Option (List Text)
unfolding dup_names with_lcp size
complete_at (suc (suc mem)) text it =
    if size (next it) == 0 then none else elim (dup_names (is_prefix text) (next it) mem) [
      | none ↦ none
      | some (ns, m) ↦ with_lcp text ns m
    ]
complete_at mem text it = none

-- With no input at all: every name of the first level.
unfoldable pub complete_root : ℕ → Item → Option (List Text)
unfolding dup_names
complete_root (suc (suc mem)) root = elim (dup_names (λ n. true) (next root) mem) [
  | none ↦ none
  | some (ns, m) ↦ some ([] ∷ ns)
]
complete_root mem root = none

-- `cli_trie_completion`; the outer option is none when the split leaves its array.
unfoldable pub cli_trie_completion : ℕ → Text → ℕ → ℕ → Text → Item → Option (Option (List Text))
unfolding first_text complete_at complete_root
cli_trie_completion mem prefix start end text root =
    if first_text start prefix && start == end
    then some (complete_root mem root)
    else if first_text start prefix
    then some (complete_at mem text root)
    else elim (cli_trie_item_get (some (take start prefix)) root) [
      | none ↦ none
      | some none ↦ some none
      | some (some it) ↦ some (complete_at mem text it)
    ]

-- The names that are kept, in their order.
abbrev pub kept : (Text → Bool) → Next → List Text
kept keep nil = []
kept keep (cons c cs) = if keep (name c) then name c ∷ kept keep cs else kept keep cs

dup_names-kept :
    (keep : Text → Bool) (ns : Next) (mem : ℕ)
    → size ns + 1 ≤ mem
    → (m : ℕ) × (dup_names keep ns mem ≡ some (kept keep ns, suc m))
unfolding dup_names size
dup_names-kept keep nil zero h = absurd (omega arith)
dup_names-kept keep nil (suc mem) h = (mem, refl)
dup_names-kept keep (cons c cs) zero h = absurd (omega arith)
dup_names-kept keep (cons c cs) (suc mem) h = elim (Bool-cases (keep (name c))) [
  | inl e ↦
      let (m, q) = dup_names-kept keep cs mem (omega arith) in (m, rw (dup_names, e, q, kept) refl)
  | inr e ↦
      let (m, q) = dup_names-kept keep cs (suc mem) (omega arith) in
      (m, rw (dup_names, e, q, kept) refl)
]

abbrev pub lcp : Text → List Text → Text
lcp text (n ∷ []) = n
lcp text _ = text

with_lcp-lcp :
    (text : Text) (ns : List Text) (m : ℕ) → with_lcp text ns (suc m) ≡ some (lcp text ns ∷ ns)
unfolding with_lcp
with_lcp-lcp text [] m = refl
with_lcp-lcp text (n ∷ []) m = refl
with_lcp-lcp text (n ∷ n' ∷ ns) m = refl

-- What a completion at an item gives.
abbrev pub completed : Text → Next → Option (List Text)
completed text ns =
    let names = kept (is_prefix text) ns in
    if size ns == 0 then none else some (lcp text names ∷ names)

complete_at-completed :
    (mem : ℕ) (text : Text) (it : Item)
    → size (next it) + 3 ≤ mem
    → complete_at mem text it ≡ completed text (next it)
unfolding complete_at
complete_at-completed zero text it h = absurd (omega arith)
complete_at-completed (suc zero) text it h = absurd (omega arith)
complete_at-completed (suc (suc mem)) text it h =
    let (m, q) = dup_names-kept (is_prefix text) (next it) mem (omega arith) in
    rw (complete_at, q) (rw (with_lcp-lcp text (kept (is_prefix text) (next it)) m) refl)

-- The item whose names are completed.
abbrev pub completed_item : Text → ℕ → Item → Option (Option Item)
completed_item prefix start root =
    if first_text start prefix
    then some (some root)
    else cli_trie_item_get (some (take start prefix)) root

-- With memory for three more allocations than there are names, a completion of some text gives the names of
-- the next level that begin with it, in the order of the tree, after the text itself; a name that
-- is the only one takes the place of the text. There is none at an item with no next level. The
-- next level is the root's for the first word, and else the one the words before lead to.
pub cli_trie_completion_lem :
    (mem : ℕ) (prefix : Text) (start end : ℕ) (text : Text) (root it : Item)
    → (first_text start prefix && start == end) ≡ false
    → completed_item prefix start root ≡ some (some it)
    → size (next it) + 3 ≤ mem
    → cli_trie_completion mem prefix start end text root ≡ some (completed text (next it))
unfolding cli_trie_completion
cli_trie_completion_lem mem prefix start end text root it f r h =
    elim (Bool-cases (first_text start prefix)) [
      | inl e ↦
          let same : some (some root) ≡ some (some it) = rw (completed_item, e) at r in
          let q : root ≡ it = ground (arith, same) in
          rw (cli_trie_completion, f, e, q) (ap some (complete_at-completed mem text it h))
      | inr e ↦
          let got : cli_trie_item_get (some (take start prefix)) root ≡ some (some it) =
            rw (completed_item, e) at r in
          rw (cli_trie_completion, f, e, got) (ap some (complete_at-completed mem text it h))
    ]
