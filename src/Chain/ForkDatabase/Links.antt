-- ===== src/Chain/ForkDatabase/Links.antt =====
-- The invariant of the fork database: a link leads to the item that the block names, one number below.
use mathlib.Core.Path.{subst}
use bmchain_core.Prelude.{
  refl, true, sym, ◌∙◌, ok, ℕ, suc, ◌<◌, ◌≡◌, List, some, find_by, find_by-selected, All,
  All-find_by, arith, Option-cases, inl, inr, ◌∷◌, Option, All-imp, Bool-cases, ltb, ok, ◌≢◌, none,
  Gives, assert-Gives, step-Gives, gives,
}
use bmchain_core.Chain.ForkDatabase.{
  Item, ForkDb, block_num, block_id, is_at, held, lock, longer, insert_item, with_head,
  has_block_id, parent_of, Block, new_item, push_item, in_window,
}

-- What holds of any two live items: one address is one item, and a link is to the previous block.
abbrev pub Coherent : Item → Item → Type 0
Coherent i p =
    (i.address ≡ p.address → i.id ≡ p.id)
    × (i.prev ≡ some p.address → (i.num ≡ suc p.num) × (p.id ≡ i.data_block.previous))

-- What holds of a live item by itself.
abbrev pub IsItem : ℕ → Item → Type 0
IsItem next i =
    (i.num ≡ block_num i.data_block)
    × (i.id ≡ block_id i.data_block)
    × (i.address < next)
    × ((a : ℕ) → i.prev ≡ some a → a < next)

abbrev pub IsLinkedIn : ℕ → List Item → Item → Type 0
IsLinkedIn next t i = IsItem next i × All (Coherent i) t

abbrev pub IsLinked : ForkDb → Type 0
IsLinked db = All (IsLinkedIn db.next_address (held db)) (held db)

-- A link that locks leads to a live item.
pub lock-All :
    (P : Item → Type 0) (db : ForkDb) (i p : Item) → All P (held db) → lock db i ≡ some p → P p
unfolding lock
lock-All P db i p all h = elim (Option-cases i.prev) [
  | inl none_there ↦ ground (arith, none_there)
  | inr (a, there) ↦ All-find_by P (is_at a) (held db) p all (ground arith)
]

-- A link that locks leads to a live item with the previous id, one number below.
pub lock-IsLinkedIn :
    (db : ForkDb) (i p : Item)
    → IsLinked db
    → IsLinkedIn db.next_address (held db) i
    → lock db i ≡ some p
    → IsLinkedIn db.next_address (held db) p × (i.num ≡ suc p.num) × (p.id ≡ i.data_block.previous)
unfolding lock
lock-IsLinkedIn db i p linked own h = elim (Option-cases i.prev) [
  | inl none_there ↦ ground (arith, none_there)
  | inr (a, there) ↦
      let found : find_by (is_at a) (held db) ≡ some p = ground arith in
      let same : p.address ≡ a = ground (arith, find_by-selected (is_at a) (held db) p found) in
      let (below, id) =
        (All-find_by (Coherent i) (is_at a) (held db) p own.1 found).1 (rw same there) in
      (
        All-find_by (IsLinkedIn db.next_address (held db)) (is_at a) (held db) p linked found,
        below,
        id,
      )
]

-- Live items stay linked when an item at a fresh address joins them.
pub joined :
    (next : ℕ) (t : List Item) (new : Item) (u : List Item)
    → new.address ≡ next
    → All (IsLinkedIn next t) u
    → All (IsLinkedIn (suc next) (new ∷ t)) u
joined next t new u e =
    All-imp (IsLinkedIn next t) (IsLinkedIn (suc next) (new ∷ t)) u
      λ i ((num, id, low, links), coherent). (
        (num, id, omega (arith, low), λ a there. omega (arith, links a there)),
        ((λ same. ground (arith, low), λ there. ground (arith, links new.address there)), coherent),
      )

module _ (P : Item → Type 0) (new : Item) (t : List Item) where
  pub All-insert : P new → All P t → All P (insert_item new t)
  unfolding insert_item
  All-insert h k = elim (Option-cases (find_by (has_block_id new.id) t)) [
    | inl fresh ↦ let e : new ∷ t ≡ insert_item new t = ground arith in subst (All P) e (h, k)
    | inr (_, taken) ↦ let e : t ≡ insert_item new t = ground arith in subst (All P) e k
  ]

  All-longer :
      (head : Option Item)
      → All P (new ∷ with_head head t)
      → All P (with_head (longer head new) (insert_item new t))
  unfolding longer
  All-longer none h = (h.0, All-insert h.0 h.1)
  All-longer (some x) h = elim (Bool-cases (ltb x.num new.num)) [
    | inl more ↦
        let e : some new ≡ longer (some x) new = ground arith in
        subst (λ o. All P (with_head o (insert_item new t))) e (h.0, All-insert h.0 h.1.1)
    | inr less ↦
        let e : some x ≡ longer (some x) new = ground arith in
        subst (λ o. All P (with_head o (insert_item new t))) e (h.1.0, All-insert h.0 h.1.1)
  ]

pub All-index :
    (P : Item → Type 0) (head : Option Item) (t : List Item) → All P (with_head head t) → All P t
All-index P none t h = h
All-index P (some x) t h = h.1

parent_of-links :
    (b : Block) (db : ForkDb) (prev : Option ℕ) (a : ℕ)
    → parent_of b db ≡ ok prev
    → prev ≡ some a
    → (q : Item) × (find_by (has_block_id b.previous) db.index ≡ some q)
      × (q.address ≡ a)
      × (db.head ≢ none)
unfolding parent_of
parent_of-links b db prev a h e = elim (Option-cases db.head) [
  | inl none_yet ↦ ground arith
  | inr (x, there) ↦ elim (Option-cases (find_by (has_block_id b.previous) db.index)) [
    | inl missing ↦ ground arith
    | inr (q, found) ↦ (q, found, ground arith, ground arith)
  ]
]

-- A block whose previous block has the number of an item is numbered one above it, short of the
-- wrap-around of a `uint32_t`.
next_num :
    (b : Block) (p : Item)
    → p.num ≡ block_num p.data_block
    → p.id ≡ block_id p.data_block
    → p.id ≡ b.previous
    → 0 < block_num b
    → block_num b ≡ suc p.num
unfolding block_num block_id
next_num b p num id same positive =
    let top : b.previous.num ≡ p.num = rw (← same, id) (sym num) in
    grind (arith, top, num, positive)

-- Items that were all live before are linked as they were.
pub narrowed_links :
    (next : ℕ) (t t' : List Item)
    → ((P : Item → Type 0) → All P t → All P t')
    → All (IsLinkedIn next t) t
    → All (IsLinkedIn next t') t'
narrowed_links next t t' narrow linked = narrow (IsLinkedIn next t') (
    All-imp (IsLinkedIn next t) (IsLinkedIn next t') t
      (λ i (own, coherent). (own, narrow (Coherent i) coherent)) linked)

-- A new item is linked to the live items.
new-IsLinkedIn :
    (b : Block) (db : ForkDb) (prev : Option ℕ)
    → IsLinked db
    → parent_of b db ≡ ok prev
    → (db.head ≢ none → 0 < block_num b)
    → let i = new_item b prev db.next_address in IsLinkedIn (suc db.next_address) (i ∷ held db) i
unfolding new_item
new-IsLinkedIn b db prev linked h positive = (
  (refl, refl, omega arith, λ a e. omega (arith, below a e)),
  (
    (λ _. refl, λ e. ground (arith, below db.next_address e)),
    All-imp (IsLinkedIn db.next_address (held db)) (Coherent (new_item b prev db.next_address))
        (held db)
        (λ p ((num, id, low, links), coherent). (
          λ same. ground (arith, low),
          λ e.
              let (q, found, at, headed) = parent_of-links b db prev p.address h e in
              let to_parent : p.id ≡ q.id =
                (All-find_by (Coherent p) (has_block_id b.previous) db.index q
                    (All-index (Coherent p) db.head db.index coherent) found).0
                  (sym at) in
              let named : q.id ≡ b.previous =
                ground (arith, find_by-selected (has_block_id b.previous) db.index q found) in
              (next_num b p num id (to_parent ∙ named) (positive headed), to_parent ∙ named),
        ))
        linked,
  ),
)
  where
    below : (a : ℕ) → prev ≡ some a → a < db.next_address
    below a e =
        let (q, found, at, _) = parent_of-links b db prev a h e in
        let ((_, _, low, _), _) =
          All-find_by (IsLinkedIn db.next_address (held db)) (has_block_id b.previous) db.index q
            (All-index (IsLinkedIn db.next_address (held db)) db.head db.index linked) found in
        omega (arith, low, at)

in_window-positive :
    (b : Block) (db : ForkDb) → in_window b db ≡ true → db.head ≢ none → 0 < block_num b
unfolding in_window
in_window-positive b db h headed = elim (Option-cases db.head) [
  | inl none_yet ↦ absurd (headed none_yet)
  | inr (x, there) ↦ ground (arith, there)
]

-- A block that `push_block` accepts leaves the database linked.
pub push_item-IsLinked : (b : Block) (db : ForkDb) → IsLinked db → Gives IsLinked (push_item b db)
unfolding push_item
push_item-IsLinked b db linked = assert-Gives (in_window b db) λ passed.
    step-Gives (parent_of b db) λ prev h.
      let i = new_item b prev db.next_address in
      let own = new-IsLinkedIn b db prev linked h (in_window-positive b db passed) in
      gives (
        narrowed_links (suc db.next_address) (i ∷ held db)
          (with_head (longer db.head i) (insert_item i db.index))
          (λ P. All-longer P i db.index db.head)
          (own, joined db.next_address (held db) i (held db) refl linked))
