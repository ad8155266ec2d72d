-- ===== src/Protocol/AccountName.antt =====
-- `is_valid_account_name` (libraries/protocol/authority.cpp). A string is the list of its bytes. The
-- index `begin` of the loop is the rest of the name from there, `end` the length of the label that
-- starts there: it ends at the next dot, or with the name.
pub mod Grammar
use bmchain_core.Protocol.Config.{min_account_name_length, max_account_name_length}
use bmchain_core.Prelude.{
  zero, suc, ℕ, Bool, List, leb, ◌||◌, Option, false, Result, ◌&&◌, ◌==◌, none, ◌∷◌, err,
  if◌then◌else◌, [], ltb, Error, some, length, suc, ok, true,
}

abbrev pub between : ℕ → ℕ → ℕ → Bool
between a b c = leb a c && leb c b

-- the cases of the `switch` on a first character, on a last one, and on one between them
abbrev pub is_letter : ℕ → Bool
is_letter c = between b'a' b'z' c

abbrev pub is_let_dig : ℕ → Bool
is_let_dig c = is_letter c || between b'0' b'9' c

abbrev pub is_let_dig_hyp : ℕ → Bool
is_let_dig_hyp c = is_let_dig c || (c == b'-')

-- `name.find_first_of( '.', begin )`: what is before the first dot, and after it when there is one
unfoldable pub find_dot : List ℕ → List ℕ × Option (List ℕ)
find_dot [] = ([], none)
find_dot (c ∷ rest) =
    let (label, after) = find_dot rest in if c == b'.' then ([], some rest) else (c ∷ label, after)

-- the characters after the first: all but the last may be hyphens
unfoldable pub is_tail : List ℕ → Bool
is_tail [] = false
is_tail (c ∷ []) = is_let_dig c
is_tail (c ∷ d ∷ rest) = is_tail (d ∷ rest) && is_let_dig_hyp c

-- the body of the loop, up to the test on `end`
unfoldable pub is_label : List ℕ → Bool
unfolding is_tail
is_label [] = false
is_label (c ∷ rest) = if ltb (length (c ∷ rest)) 3 then false else is_letter c && is_tail rest

-- the loop; each round consumes a dot, so that the length of the name is enough fuel
unfoldable pub are_labels : ℕ → List ℕ → Result Bool
are_labels zero rest = err Error.out_of_fuel
are_labels (suc fuel) rest =
    let (label, after) = find_dot rest in
    if is_label label
    then elim after [ none ↦ ok true | some next ↦ are_labels fuel next ]
    else ok false

unfoldable pub is_valid_account_name : List ℕ → Result Bool
is_valid_account_name name =
    if ltb (length name) min_account_name_length
    then ok false
    else if ltb max_account_name_length (length name)
    then ok false
    else are_labels (suc (length name)) name
