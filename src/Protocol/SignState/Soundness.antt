-- ===== src/Protocol/SignState/Soundness.antt =====
-- The check of sign_state.cpp returns true only of what `Approves` derives.
use bmchain_core.Protocol.SignState.Approves.{
  KeysWeigh, no_keys, key_signed, key_unsigned, Approves, trusted, by_authority, Meets, meets,
  AccountsWeigh, no_accounts, account_counted, account_passed, KeysWeigh-zero,
}
use bmchain_core.Protocol.Config.{max_sig_check_depth}
use bmchain_core.Protocol.SignState.{
  SignState, signed_by, Round, check_keys, Check, is_key, check_accounts, check_weights, next_check,
  check_authority, check_account, unused_signatures, sign_state, max_sig_check_depth,
}
use bmchain_core.Protocol.Authority.{Authority}
use bmchain_core.Prelude.{
  zero, suc, if◌then◌else◌, none, some, ℕ, List, Result, [], All, ◌∷◌, Option, ◌≡◌, Bool-cases, ok,
  true, ◌≤◌, arith, ◌+◌, some, Option-cases, inl, inr, Gives, find_by, leb, ◌%◌, find_by-selected,
  ◌^◌, All-find_by, gives, Gives-imp, bind-Gives, suc, step-Gives, Bool, ◌||◌, false, refl,
  All-set_entry, All-has_name, All-insert_name, has_name, insert_name,
}
use mathlib.Core.Path.{subst}

-- the value of the last `return`
reached :
    (threshold : ℕ) (early : Bool) (total : ℕ)
    → (early ≡ true → threshold ≤ total)
    → early || leb threshold total ≡ true
    → threshold ≤ total
reached threshold true total h e = h refl
reached threshold false total h e = ground arith

module _ (get_active : ℕ → Result Authority) (Signs Trusted : ℕ → Type 0) where
  abbrev IsApproved : ℕ → Type 0
  IsApproved = Approves get_active Signs Trusted

  abbrev IsMet : Authority → Type 0
  IsMet = Meets get_active Signs Trusted

  abbrev Weigh : List (ℕ × ℕ) → ℕ → Type 0
  Weigh = AccountsWeigh get_active Signs Trusted

  -- what a state of the search remembers is right
  abbrev pub IsSound : SignState → Type 0
  IsSound st =
      ((k : ℕ) → has_name k st.available_keys ≡ true → Signs k)
      × All (λ e. Signs e.0) st.provided_signatures
      × All IsApproved st.approved_by

  -- a check of accounts of which every answer is right
  abbrev IsGood : Option Check → Type 0
  IsGood none = Unit {0}
  IsGood (some run) =
      (a : ℕ) (st : SignState)
      → IsSound st
      → Gives (λ r. IsSound r.1 × (r.0 ≡ true → IsApproved a)) (run a st)

  signed_by-IsSound :
      (k : ℕ) (st : SignState)
      → IsSound st
      → IsSound (signed_by k st).1 × ((signed_by k st).0 ≡ true → Signs k)
  unfolding signed_by
  signed_by-IsSound k st (keys, provided, approved) =
      elim (Option-cases (find_by (is_key k) st.provided_signatures)) [
        | inl new ↦ elim (Bool-cases (has_name k st.available_keys)) [
          | inl known ↦
              rw (signed_by, new, known)
                (
                  (
                    keys,
                    All-set_entry Signs k true st.provided_signatures (keys k known) provided,
                    approved,
                  ),
                  λ e. keys k known,
                )
          | inr unknown ↦ rw (signed_by, new, unknown) ((keys, provided, approved), λ e. cc)
        ]
        | inr (entry, old) ↦
            let same : entry.0 ≡ k =
              ground (arith, find_by-selected (is_key k) st.provided_signatures entry old) in
            let signs : Signs k =
              subst Signs same
                (All-find_by _ (is_key k) st.provided_signatures entry provided old) in
            rw (signed_by, old)
              (
                (keys, All-set_entry Signs k true st.provided_signatures signs provided, approved),
                λ e. signs,
              )
      ]

  -- the keys that a round counted
  abbrev KeysFound : ℕ → List (ℕ × ℕ) → ℕ → Round → Type 0
  KeysFound threshold entries before (early, total, st) =
      IsSound st
      × ((t : ℕ) × KeysWeigh Signs entries t × (total ≤ before + t))
      × (early ≡ true → threshold ≤ total)

  check_keys-KeysFound :
      (threshold : ℕ) (entries : List (ℕ × ℕ)) (before : ℕ) (st : SignState)
      → IsSound st
      → KeysFound threshold entries before (check_keys threshold entries before st)
  unfolding check_keys
  check_keys-KeysFound threshold [] before st sound = (sound, (0, no_keys, omega arith), λ e. cc)
  check_keys-KeysFound threshold ((k, w) ∷ rest) before st sound =
      let (sound', signs) = signed_by-IsSound k st sound in
      elim (Bool-cases (signed_by k st).0) [
        | inl hit ↦ elim (Bool-cases (leb threshold ((before + w) % 2 ^ 32))) [
          | inl enough ↦
              rw (hit, enough)
                (
                  sound',
                  (w + 0, key_signed (signs hit) (KeysWeigh-zero Signs rest), omega arith),
                  λ e. ground arith,
                )
          | inr less ↦
              let (last, (t, weigh, most), stop) =
                check_keys-KeysFound threshold rest ((before + w) % 2 ^ 32) (signed_by k st).1
                  sound' in
              rw (hit, less)
                (last, (w + t, key_signed (signs hit) weigh, omega (arith, most)), stop)
        ]
        | inr miss ↦
            let (last, (t, weigh, most), stop) =
              check_keys-KeysFound threshold rest before (signed_by k st).1 sound' in
            rw miss (last, (t, key_unsigned weigh, most), stop)
      ]

  Weigh-zero : (entries : List (ℕ × ℕ)) → Weigh entries 0
  Weigh-zero [] = no_accounts
  Weigh-zero ((a, w) ∷ rest) = account_passed (Weigh-zero rest)

  -- the accounts that a round counted
  abbrev AccountsFound : ℕ → List (ℕ × ℕ) → ℕ → Round → Type 0
  AccountsFound threshold entries before (early, total, st) =
      IsSound st
      × ((t : ℕ) × Weigh entries t × (total ≤ before + t))
      × (early ≡ true → threshold ≤ total)

  module _ (threshold : ℕ) where
    module _ (a w : ℕ) (rest : List (ℕ × ℕ)) (before : ℕ) (st : SignState) where
      -- a round that counts the account, and one that passes it
      count-Gives :
          {after : ℕ → Result Round}
          → IsSound st
          → IsApproved a
          → ((b : ℕ) → Gives (AccountsFound threshold rest b) (after b))
          → Gives (AccountsFound threshold ((a, w) ∷ rest) before) (
              if leb threshold ((before + w) % 2 ^ 32)
              then ok (true, (before + w) % 2 ^ 32, st)
              else after ((before + w) % 2 ^ 32))
      count-Gives sound approves later = elim (Bool-cases (leb threshold ((before + w) % 2 ^ 32))) [
        | inl enough ↦ rw enough (
            gives (
              sound,
              (w + 0, account_counted approves (Weigh-zero rest), omega arith),
              λ e. ground arith,
            ))
        | inr less ↦ rw less (
            Gives-imp (later ((before + w) % 2 ^ 32))
              λ (early, total, last) (s, (t, weigh, most), stop).
                (s, (w + t, account_counted approves weigh, omega (arith, most)), stop))
      ]

      pass-Gives :
          {m : Result Round}
          → Gives (AccountsFound threshold rest before) m
          → Gives (AccountsFound threshold ((a, w) ∷ rest) before) m
      pass-Gives h = Gives-imp h λ (early, total, last) (s, (t, weigh, most), stop).
          (s, (t, account_passed weigh, most), stop)

    check_accounts-Gives :
        (check : Option Check)
        → IsGood check
        → (entries : List (ℕ × ℕ)) (before : ℕ) (st : SignState) → IsSound st
        → Gives
            (AccountsFound threshold entries before)
            (check_accounts check threshold entries before st)
    unfolding check_accounts
    check_accounts-Gives check good [] before st sound =
        gives (sound, (0, no_accounts, omega arith), λ e. cc)
    check_accounts-Gives none good ((a, w) ∷ rest) before st sound =
        elim (Bool-cases (has_name a st.approved_by)) [
          | inl old ↦ rw old (
              count-Gives a w rest before st sound
                (All-has_name IsApproved a st.approved_by sound.2 old)
                λ b. check_accounts-Gives none good rest b st sound)
          | inr new ↦
              rw new (
                pass-Gives a w rest before st (check_accounts-Gives none good rest before st sound))
        ]
    check_accounts-Gives (some run) good ((a, w) ∷ rest) before st sound =
        elim (Bool-cases (has_name a st.approved_by)) [
          | inl old ↦ rw old (
              count-Gives a w rest before st sound
                (All-has_name IsApproved a st.approved_by sound.2 old)
                λ b. check_accounts-Gives (some run) good rest b st sound)
          | inr new ↦ rw new (
              bind-Gives (good a st sound) λ (answer, st') (sound', approves).
                elim (Bool-cases answer) [
                  | inl hit ↦
                      let s : SignState = record st' {
                        approved_by = insert_name a st'.approved_by;
                      } in
                      let known : IsSound s = (
                        sound'.0,
                        sound'.1,
                        All-insert_name IsApproved a st'.approved_by (approves hit) sound'.2,
                      ) in
                      rw hit (
                        count-Gives a w rest before s known (approves hit)
                          λ b. check_accounts-Gives (some run) good rest b s known)
                  | inr miss ↦ rw miss (
                      pass-Gives a w rest before st'
                        (check_accounts-Gives (some run) good rest before st' sound'))
                ])
        ]

  check_weights-Gives :
      (check : Option Check)
      → IsGood check
      → (auth : Authority) (st : SignState) → IsSound st
      → Gives (λ r. IsSound r.1 × (r.0 ≡ true → IsMet auth)) (check_weights check auth st)
  unfolding check_weights
  check_weights-Gives check good auth st sound =
      let threshold = auth.weight_threshold in
      let (sound', (k, keys, most), stop) =
        check_keys-KeysFound threshold auth.key_auths 0 st sound in
      elim (Bool-cases (check_keys threshold auth.key_auths 0 st).0) [
        | inl early ↦ rw early (
            gives (
              sound',
              λ e. meets keys (Weigh-zero auth.account_auths) (omega (arith, most, stop early)),
            ))
        | inr late ↦ rw late (
            bind-Gives (check_accounts-Gives threshold check good auth.account_auths _ _ sound')
              λ (found, total, last) (s, (t, accounts, sum), enough). gives (
                s,
                λ e.
                    meets keys accounts
                      (omega (arith, most, sum, reached threshold found total enough e)),
              ))
      ]

  next_check-IsGood : (left : ℕ) → IsGood (next_check get_active left)
  unfolding next_check
  next_check-IsGood zero = tt
  next_check-IsGood (suc left) = λ a st sound. step-Gives (get_active a) λ auth active.
      Gives-imp
        (check_weights-Gives (next_check get_active left) (next_check-IsGood left) auth st sound)
        λ (answer, last) (s, met). (s, λ e. by_authority active (met e))

  -- The check returns true only of an authority that is met.
  pub check_authority-IsMet :
      (left : ℕ) (auth : Authority) (st : SignState)
      → IsSound st
      → Gives
          (λ r. IsSound r.1 × (r.0 ≡ true → IsMet auth))
          (check_authority get_active left auth st)
  unfolding check_authority
  check_authority-IsMet left =
      check_weights-Gives (next_check get_active left) (next_check-IsGood left)

  check_account-IsApproved :
      (id : ℕ) (st : SignState)
      → IsSound st
      → Gives (λ r. IsSound r.1 × (r.0 ≡ true → IsApproved id)) (check_account get_active id st)
  unfolding check_account
  check_account-IsApproved id st sound = elim (Bool-cases (has_name id st.approved_by)) [
    | inl old ↦ rw old (gives (sound, λ e. All-has_name IsApproved id st.approved_by sound.2 old))
    | inr new ↦ rw new (
        step-Gives (get_active id) λ auth active.
          Gives-imp (check_authority-IsMet max_sig_check_depth auth st sound)
            λ (answer, last) (s, met). (s, λ e. by_authority active (met e)))
  ]

-- the keys that signed or could, and the name that the constructor approves
abbrev pub IsProvided : List ℕ → List ℕ → ℕ → Type 0
IsProvided sigs keys k = has_name k sigs || has_name k keys ≡ true

unused_signatures-All :
    (P : ℕ → Type 0) (sigs : List ℕ)
    → ((k : ℕ) → has_name k sigs ≡ true → P k)
    → All (λ e. P e.0) (unused_signatures sigs)
unfolding unused_signatures
unused_signatures-All P [] h = tt
unused_signatures-All P (k ∷ rest) h =
    All-set_entry P k false (unused_signatures rest) (h k (ground arith))
      (unused_signatures-All P rest λ j e. h j (ground arith))

-- For every way the active authorities are looked up, signatures and available keys: when the check
-- of an account by a new `sign_state` returns true, there is a derivation that the account approves.
-- It is the account that the constructor approves, or some keys of its active authority, each signed
-- or available, and some of its accounts, each of which approves in turn, reach its threshold.
pub check_account-sign_state :
    (get_active : ℕ → Result Authority) (temp : ℕ) (sigs keys : List ℕ) (id : ℕ)
    → Gives
        (λ r. r.0 ≡ true → Approves get_active (IsProvided sigs keys) (λ a. a ≡ temp) id)
        (check_account get_active id (sign_state temp sigs keys))
unfolding sign_state insert_name
check_account-sign_state get_active temp sigs keys id =
    let sound : IsSound get_active (IsProvided sigs keys) (λ a. a ≡ temp)
        (sign_state temp sigs keys) =
      (
        λ k e. ground (arith, e),
        unused_signatures-All (IsProvided sigs keys) sigs (λ k e. ground (arith, e)),
        (trusted refl, tt),
      ) in
    Gives-imp
      (check_account-IsApproved get_active (IsProvided sigs keys) (λ a. a ≡ temp) id
        (sign_state temp sigs keys) sound)
      λ r h. h.1
