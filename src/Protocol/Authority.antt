-- ===== src/Protocol/Authority.antt =====
-- `struct authority` (libraries/protocol/authority.cpp): the accounts and the keys that may act for
-- an account, each with a weight, and the weight that is asked for. A `flat_map` is the list of its
-- entries in the order of their keys; an account name and a public key are numbers.
use bmchain_core.Prelude.{
  ℕ, List, Bool, length, [], ◌∷◌, map, ltb, ◌+◌, true, ◌==◌, ◌%◌, ◌&&◌, ◌^◌, false, set_entry,
}

pub record Authority : Type 0 where
  pub weight_threshold : ℕ
  pub account_auths : List (ℕ × ℕ)
  pub key_auths : List (ℕ × ℕ)

-- the two overloads of `add_authority`
unfoldable pub add_key : ℕ → ℕ → Authority → Authority
add_key k w a = record a { key_auths = set_entry k w a.key_auths }

unfoldable pub add_account : ℕ → ℕ → Authority → Authority
add_account k w a = record a { account_auths = set_entry k w a.account_auths }

unfoldable pub get_keys : Authority → List ℕ
get_keys a = map (λ entry. entry.0) a.key_auths

-- the weights, summed in a `uint64_t`
unfoldable pub add_weights : ℕ → List (ℕ × ℕ) → ℕ
add_weights total [] = total
add_weights total ((k, w) ∷ rest) = add_weights ((total + w) % 2 ^ 64) rest

unfoldable pub is_impossible : Authority → Bool
is_impossible a = ltb (add_weights (add_weights 0 a.account_auths) a.key_auths) a.weight_threshold

unfoldable pub num_auths : Authority → ℕ
num_auths a = (length a.account_auths + length a.key_auths) % 2 ^ 32

unfoldable pub clear : Authority → Authority
clear a = record a { account_auths = []; key_auths = [] }

unfoldable pub entries_eq : List (ℕ × ℕ) → List (ℕ × ℕ) → Bool
entries_eq [] [] = true
entries_eq ((k, v) ∷ rest) ((j, u) ∷ others) = (k == j) && (v == u) && entries_eq rest others
entries_eq _ _ = false

unfoldable pub authority_eq : Authority → Authority → Bool
authority_eq a b =
    (a.weight_threshold == b.weight_threshold)
    && entries_eq a.account_auths b.account_auths
    && entries_eq a.key_auths b.key_auths
