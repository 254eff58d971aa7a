-- ===== src/Recovery/Effects/Written.antt =====
-- The records that an unfinished operation may have left, said apart from the checks of the code:
-- the document of a sale or a refund, the journal, the stock movements, the item.
use bms_gui.Prelude.{
  String, ◌≡◌, refl, sym, ap, subst, inl, inr, true, Option, none, some, List, [], ◌∷◌, ◌++◌, All,
  All-append, eq_iff, Bool-cases, if◌then◌else◌,
}
use mathlib.Core.List.{append_assoc}
use bms_gui.Json.{
  Value, Values, nil, cons, null, bool, int, str, arr, obj, Payload, get, is_text, as_text,
}
use bms_gui.Store.{
  FilePath, journal_entries, journal_lines, items, stock_movements, invoices, invoice_lines,
  refunds, refund_lines,
}
use bms_gui.Recovery.Effects.{
  Check, check, for_text, journal_checks, movement_check, movement_checks, movement_checks_of,
  billing_invoice_checks, billing_refund_checks, checks_of,
}

-- The payload of the pending record has a text in a field.
abbrev pub Says : Payload → String → String → Type 0
Says payload field_name text = get field_name payload ≡ some (str text)

-- The operations that post a journal, and those that list stock movements.
pub data PostsJournal : String → Type 0 where
  sale_journal : PostsJournal "billing.create_invoice"
  return_journal : PostsJournal "billing.create_refund"
  own_journal : PostsJournal "accounting.post_journal"

pub data MovesStock : String → Type 0 where
  sale_movements : MovesStock "billing.create_invoice"
  return_movements : MovesStock "billing.create_refund"

-- A text of a list of values.
pub data IsListed (text : String) : Values → Type 0 where
  first : {rest : Values} → IsListed text (cons (str text) rest)
  later : {value : Value} {rest : Values} → IsListed text rest → IsListed text (cons value rest)

-- A file, a field and a text that mark a record of the operation.
pub data MayLeave (payload : Payload) : FilePath → String → String → Type 0 where
  invoice :
      {id : String}
      → Says payload "operation" "billing.create_invoice"
      → Says payload "invoice_id" id
      → MayLeave payload invoices "invoice_id" id
  invoice_line :
      {id : String}
      → Says payload "operation" "billing.create_invoice"
      → Says payload "invoice_id" id
      → MayLeave payload invoice_lines "invoice_id" id
  refund :
      {id : String}
      → Says payload "operation" "billing.create_refund"
      → Says payload "refund_id" id
      → MayLeave payload refunds "refund_id" id
  refund_line :
      {id : String}
      → Says payload "operation" "billing.create_refund"
      → Says payload "refund_id" id
      → MayLeave payload refund_lines "refund_id" id
  journal_entry :
      {operation id : String}
      → PostsJournal operation
      → Says payload "operation" operation
      → Says payload "journal_id" id
      → MayLeave payload journal_entries "journal_id" id
  journal_line :
      {operation id : String}
      → PostsJournal operation
      → Says payload "operation" operation
      → Says payload "journal_id" id
      → MayLeave payload journal_lines "journal_id" id
  listed_movement :
      {operation id : String} {ids : Values}
      → MovesStock operation
      → Says payload "operation" operation
      → get "movement_ids" payload ≡ some (arr ids)
      → IsListed id ids
      → MayLeave payload stock_movements "movement_id" id
  movement :
      {id : String}
      → Says payload "operation" "inventory.commit_movement"
      → Says payload "movement_id" id
      → MayLeave payload stock_movements "movement_id" id
  item :
      {id : String}
      → Says payload "operation" "inventory.register_item"
      → Says payload "item_id" id
      → MayLeave payload items "item_id" id

All-left : {A : Type 0} (P : A → Type 0) (xs ys : List A) → All P (xs ++ ys) → All P xs
All-left P [] ys h = tt
All-left P (x ∷ xs) ys h = (h.0, All-left P xs ys h.1)

All-right : {A : Type 0} (P : A → Type 0) (xs ys : List A) → All P (xs ++ ys) → All P ys
All-right P [] ys h = h
All-right P (x ∷ xs) ys h = All-right P xs ys h.1

-- The checks for the document of a sale and of a refund.
abbrev sale_checks : String → List Check
sale_checks id =
    check invoices "invoice_id" id "invoice exists"
    ∷ check invoice_lines "invoice_id" id "invoice lines exist"
    ∷ []

abbrev return_checks : String → List Check
return_checks id =
    check refunds "refund_id" id "refund exists"
    ∷ check refund_lines "refund_id" id "refund lines exist"
    ∷ []

-- What the checks of a payload are, for each operation.
module _ (payload : Payload) where
  -- The checks that a sale and a refund share.
  abbrev shared : List Check
  shared =
      for_text (as_text (get "journal_id" payload)) journal_checks
      ++ movement_checks (get "movement_ids" payload)

  invoice_checks :
      Says payload "operation" "billing.create_invoice"
      → checks_of payload ≡ for_text (as_text (get "invoice_id" payload)) sale_checks ++ shared
  unfolding checks_of billing_invoice_checks
  invoice_checks h = rw h (
      append_assoc (for_text (as_text (get "invoice_id" payload)) sale_checks)
        (for_text (as_text (get "journal_id" payload)) journal_checks)
        (movement_checks (get "movement_ids" payload)))

  refund_checks :
      Says payload "operation" "billing.create_refund"
      → checks_of payload ≡ for_text (as_text (get "refund_id" payload)) return_checks ++ shared
  unfolding checks_of billing_refund_checks
  refund_checks h = rw h (
      append_assoc (for_text (as_text (get "refund_id" payload)) return_checks)
        (for_text (as_text (get "journal_id" payload)) journal_checks)
        (movement_checks (get "movement_ids" payload)))

  post_checks :
      Says payload "operation" "accounting.post_journal"
      → checks_of payload ≡ for_text (as_text (get "journal_id" payload)) journal_checks
  unfolding checks_of
  post_checks h = rw h refl

  movement_checks_are :
      Says payload "operation" "inventory.commit_movement"
      → checks_of payload
        ≡ for_text (as_text (get "movement_id" payload)) (λ id. movement_check id ∷ [])
  unfolding checks_of
  movement_checks_are h = rw h refl

  item_checks :
      Says payload "operation" "inventory.register_item"
      → checks_of payload
        ≡ for_text
            (as_text (get "item_id" payload))
            (λ id. check items "item_id" id "item registration exists" ∷ [])
  unfolding checks_of
  item_checks h = rw h refl

-- Every record that may be left is looked for.
module _ (Q : FilePath → String → String → Type 0) (payload : Payload) where
  abbrev OfCheck : Check → Type 0
  OfCheck c = Q c.path c.field_name c.expected_value

  -- What is looked for at an id that the payload holds.
  at_text :
      (field_name : String) (checks : String → List Check) {id : String}
      → Says payload field_name id
      → All OfCheck (for_text (as_text (get field_name payload)) checks)
      → All OfCheck (checks id)
  at_text field_name checks h all = subst (λ o. All OfCheck (for_text (as_text o) checks)) h all

  listed :
      {id : String} (ids : Values)
      → IsListed id ids
      → All OfCheck (movement_checks_of ids)
      → Q stock_movements "movement_id" id
  listed _ first all = all.0
  listed (cons null rest) (later there) all = listed rest there all
  listed (cons (bool b) rest) (later there) all = listed rest there all
  listed (cons (int n) rest) (later there) all = listed rest there all
  listed (cons (str s) rest) (later there) all = listed rest there all.1
  listed (cons (arr values) rest) (later there) all = listed rest there all
  listed (cons (obj fields) rest) (later there) all = listed rest there all

  at_ids :
      {ids : Values} {id : String}
      → get "movement_ids" payload ≡ some (arr ids)
      → IsListed id ids
      → All OfCheck (movement_checks (get "movement_ids" payload))
      → Q stock_movements "movement_id" id
  at_ids {ids} h there all = listed ids there (subst (λ o. All OfCheck (movement_checks o)) h all)

  of_sale :
      Says payload "operation" "billing.create_invoice"
      → All OfCheck (checks_of payload)
      → All OfCheck (for_text (as_text (get "invoice_id" payload)) sale_checks)
        × All OfCheck (shared payload)
  of_sale op all =
      let parts = subst (All OfCheck) (invoice_checks payload op) all in
      let own = for_text (as_text (get "invoice_id" payload)) sale_checks in
      (All-left OfCheck own (shared payload) parts, All-right OfCheck own (shared payload) parts)

  of_return :
      Says payload "operation" "billing.create_refund"
      → All OfCheck (checks_of payload)
      → All OfCheck (for_text (as_text (get "refund_id" payload)) return_checks)
        × All OfCheck (shared payload)
  of_return op all =
      let parts = subst (All OfCheck) (refund_checks payload op) all in
      let own = for_text (as_text (get "refund_id" payload)) return_checks in
      (All-left OfCheck own (shared payload) parts, All-right OfCheck own (shared payload) parts)

  of_shared :
      All OfCheck (shared payload)
      → All OfCheck (for_text (as_text (get "journal_id" payload)) journal_checks)
        × All OfCheck (movement_checks (get "movement_ids" payload))
  of_shared all =
      let journal = for_text (as_text (get "journal_id" payload)) journal_checks in
      let moves = movement_checks (get "movement_ids" payload) in
      (All-left OfCheck journal moves all, All-right OfCheck journal moves all)

  at_journal :
      {operation id : String}
      → PostsJournal operation
      → Says payload "operation" operation
      → Says payload "journal_id" id
      → All OfCheck (checks_of payload)
      → All OfCheck (journal_checks id)
  at_journal sale_journal op says all =
      at_text "journal_id" journal_checks says (of_shared (of_sale op all).1).0
  at_journal return_journal op says all =
      at_text "journal_id" journal_checks says (of_shared (of_return op all).1).0
  at_journal own_journal op says all =
      at_text "journal_id" journal_checks says (subst (All OfCheck) (post_checks payload op) all)

  at_movements :
      {operation : String}
      → MovesStock operation
      → Says payload "operation" operation
      → All OfCheck (checks_of payload)
      → All OfCheck (movement_checks (get "movement_ids" payload))
  at_movements sale_movements op all = (of_shared (of_sale op all).1).1
  at_movements return_movements op all = (of_shared (of_return op all).1).1

  pub MayLeave-checked :
      (path : FilePath) (field_name id : String)
      → MayLeave payload path field_name id
      → All OfCheck (checks_of payload)
      → Q path field_name id
  MayLeave-checked _ _ _ (invoice op says) all =
      (at_text "invoice_id" sale_checks says (of_sale op all).0).0
  MayLeave-checked _ _ _ (invoice_line op says) all =
      (at_text "invoice_id" sale_checks says (of_sale op all).0).1.0
  MayLeave-checked _ _ _ (refund op says) all =
      (at_text "refund_id" return_checks says (of_return op all).0).0
  MayLeave-checked _ _ _ (refund_line op says) all =
      (at_text "refund_id" return_checks says (of_return op all).0).1.0
  MayLeave-checked _ _ _ (journal_entry posts op says) all = (at_journal posts op says all).0
  MayLeave-checked _ _ _ (journal_line posts op says) all = (at_journal posts op says all).1.0
  MayLeave-checked _ _ _ (listed_movement moves op ids there) all =
      at_ids ids there (at_movements moves op all)
  MayLeave-checked _ _ _ (movement op says) all =
      (at_text "movement_id" (λ id. movement_check id ∷ []) says
        (subst (All OfCheck) (movement_checks_are payload op) all)).0
  MayLeave-checked _ _ _ (item op says) all =
      (at_text "item_id" (λ id. check items "item_id" id "item registration exists" ∷ []) says
        (subst (All OfCheck) (item_checks payload op) all)).0

pub text-says : (o : Option Value) (s : String) → is_text o s ≡ true → o ≡ some (str s)
text-says (some (str t)) s h = ap (λ x. some (str x)) ((eq_iff t s).0 h)
text-says none s h = cc
text-says (some null) s h = cc
text-says (some (bool b)) s h = cc
text-says (some (int n)) s h = cc
text-says (some (arr values)) s h = cc
text-says (some (obj fields)) s h = cc

-- Nothing else is looked for.
module _ (P : Check → Type 0) where
  for_text-All :
      (o : Option Value) (checks : String → List Check)
      → ((id : String) → o ≡ some (str id) → All P (checks id))
      → All P (for_text (as_text o) checks)
  for_text-All (some (str s)) checks h = h s refl
  for_text-All none checks h = tt
  for_text-All (some null) checks h = tt
  for_text-All (some (bool b)) checks h = tt
  for_text-All (some (int n)) checks h = tt
  for_text-All (some (arr values)) checks h = tt
  for_text-All (some (obj fields)) checks h = tt

  movement_checks_of-All :
      (ids : Values)
      → ((id : String) → IsListed id ids → P (movement_check id))
      → All P (movement_checks_of ids)
  movement_checks_of-All nil h = tt
  movement_checks_of-All (cons (str s) rest) h =
      (h s first, movement_checks_of-All rest (λ id there. h id (later there)))
  movement_checks_of-All (cons null rest) h =
      movement_checks_of-All rest (λ id there. h id (later there))
  movement_checks_of-All (cons (bool b) rest) h =
      movement_checks_of-All rest (λ id there. h id (later there))
  movement_checks_of-All (cons (int n) rest) h =
      movement_checks_of-All rest (λ id there. h id (later there))
  movement_checks_of-All (cons (arr values) rest) h =
      movement_checks_of-All rest (λ id there. h id (later there))
  movement_checks_of-All (cons (obj fields) rest) h =
      movement_checks_of-All rest (λ id there. h id (later there))

  movement_checks-All :
      (o : Option Value)
      → ((ids : Values)
          → o ≡ some (arr ids)
          → (id : String) → IsListed id ids
          → P (movement_check id))
      → All P (movement_checks o)
  movement_checks-All (some (arr ids)) h = movement_checks_of-All ids (h ids refl)
  movement_checks-All none h = tt
  movement_checks-All (some null) h = tt
  movement_checks-All (some (bool b)) h = tt
  movement_checks-All (some (int n)) h = tt
  movement_checks-All (some (str s)) h = tt
  movement_checks-All (some (obj fields)) h = tt

module _ (payload : Payload) where
  abbrev Leaves : Check → Type 0
  Leaves c = MayLeave payload c.path c.field_name c.expected_value

  -- The checks of a sale or a refund, but for its own document.
  shared-All :
      (operation : String)
      → PostsJournal operation
      → MovesStock operation
      → Says payload "operation" operation
      → All Leaves (shared payload)
  shared-All operation posts moves op =
      All-append Leaves (for_text (as_text (get "journal_id" payload)) journal_checks)
        (movement_checks (get "movement_ids" payload))
        (for_text-All Leaves (get "journal_id" payload) journal_checks
          (λ id says. (journal_entry posts op says, (journal_line posts op says, tt))))
        (movement_checks-All Leaves (get "movement_ids" payload)
          (λ ids found id there. listed_movement moves op found there))

  -- The operations with one check or with the two of a journal.
  single-MayLeave : All Leaves (
      if is_text (get "operation" payload) "accounting.post_journal"
      then for_text (as_text (get "journal_id" payload)) journal_checks
      else if is_text (get "operation" payload) "inventory.commit_movement"
      then for_text (as_text (get "movement_id" payload)) (λ id. movement_check id ∷ [])
      else if is_text (get "operation" payload) "inventory.register_item"
      then for_text
          (as_text (get "item_id" payload))
          (λ id. check items "item_id" id "item registration exists" ∷ [])
      else [])
  single-MayLeave =
      elim (Bool-cases (is_text (get "operation" payload) "accounting.post_journal")) [
        | inl posts ↦
            let op = text-says _ _ posts in
            rw posts (
              for_text-All Leaves (get "journal_id" payload) _ (λ id says.
                (journal_entry own_journal op says, (journal_line own_journal op says, tt))))
        | inr not_post ↦
            rw not_post
              (elim (Bool-cases (is_text (get "operation" payload) "inventory.commit_movement")) [
                | inl moves ↦ rw moves (
                    for_text-All Leaves (get "movement_id" payload) _
                      (λ id says. (movement (text-says _ _ moves) says, tt)))
                | inr not_move ↦
                    rw not_move
                      (elim (Bool-cases
                        (is_text (get "operation" payload) "inventory.register_item")) [
                          | inl registers ↦ rw registers (
                              for_text-All Leaves (get "item_id" payload) _
                                (λ id says. (item (text-says _ _ registers) says, tt)))
                          | inr unknown ↦ rw unknown tt
                        ])
              ])
      ]

  pub checks_of-MayLeave :
      All (λ c. MayLeave payload c.path c.field_name c.expected_value) (checks_of payload)
  unfolding checks_of
  checks_of-MayLeave =
      elim (Bool-cases (is_text (get "operation" payload) "billing.create_invoice")) [
        | inl sells ↦
            let op = text-says _ _ sells in
            subst (All Leaves) (sym (invoice_checks payload op)) (
              All-append Leaves (for_text (as_text (get "invoice_id" payload)) sale_checks)
                (shared payload)
                (for_text-All Leaves (get "invoice_id" payload) sale_checks
                  (λ id says. (invoice op says, (invoice_line op says, tt))))
                (shared-All _ sale_journal sale_movements op))
        | inr not_sale ↦
            elim (Bool-cases (is_text (get "operation" payload) "billing.create_refund")) [
              | inl refunds_it ↦
                  let op = text-says _ _ refunds_it in
                  subst (All Leaves) (sym (refund_checks payload op)) (
                    All-append Leaves (for_text (as_text (get "refund_id" payload)) return_checks)
                      (shared payload)
                      (for_text-All Leaves (get "refund_id" payload) return_checks
                        (λ id says. (refund op says, (refund_line op says, tt))))
                      (shared-All _ return_journal return_movements op))
              | inr not_refund ↦ rw (not_sale, not_refund) single-MayLeave
            ]
      ]
