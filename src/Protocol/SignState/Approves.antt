-- ===== src/Protocol/SignState/Approves.antt =====
-- What an authority asks for, without the order of the search, its memory of approved accounts or its
-- depth.

use bmchain_core.Protocol.Authority.{Authority}
use bmchain_core.Prelude.{ℕ, List, Result, [], ◌∷◌, ◌≡◌, ok, ◌≤◌, ◌+◌}

-- what some of the keys, each able to sign, weigh together
pub data KeysWeigh (Signs : ℕ → Type 0) : List (ℕ × ℕ) → ℕ → Type 0 where
  no_keys : KeysWeigh Signs [] 0
  key_signed :
      {k w total : ℕ} {rest : List (ℕ × ℕ)}
      → Signs k
      → KeysWeigh Signs rest total
      → KeysWeigh Signs ((k, w) ∷ rest) (w + total)
  key_unsigned :
      {k w total : ℕ} {rest : List (ℕ × ℕ)}
      → KeysWeigh Signs rest total
      → KeysWeigh Signs ((k, w) ∷ rest) total

pub KeysWeigh-zero : (Signs : ℕ → Type 0) (entries : List (ℕ × ℕ)) → KeysWeigh Signs entries 0
KeysWeigh-zero Signs [] = no_keys
KeysWeigh-zero Signs ((k, w) ∷ rest) = key_unsigned (KeysWeigh-zero Signs rest)

module _ (get_active : ℕ → Result Authority) (Signs Trusted : ℕ → Type 0) where
  -- An account approves when it is trusted at the start, or when keys and approving accounts of its
  -- active authority reach the threshold.
  mutual
    pub data Approves : ℕ → Type 0 where
      trusted : {a : ℕ} → Trusted a → Approves a
      by_authority : {a : ℕ} {auth : Authority} → get_active a ≡ ok auth → Meets auth → Approves a

    pub data Meets : Authority → Type 0 where
      meets :
          {auth : Authority} {keys accounts : ℕ}
          → KeysWeigh Signs auth.key_auths keys
          → AccountsWeigh auth.account_auths accounts
          → auth.weight_threshold ≤ keys + accounts
          → Meets auth

    pub data AccountsWeigh : List (ℕ × ℕ) → ℕ → Type 0 where
      no_accounts : AccountsWeigh [] 0
      account_counted :
          {a w total : ℕ} {rest : List (ℕ × ℕ)}
          → Approves a
          → AccountsWeigh rest total
          → AccountsWeigh ((a, w) ∷ rest) (w + total)
      account_passed :
          {a w total : ℕ} {rest : List (ℕ × ℕ)}
          → AccountsWeigh rest total
          → AccountsWeigh ((a, w) ∷ rest) total
