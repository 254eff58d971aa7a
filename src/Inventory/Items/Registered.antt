-- ===== src/Inventory/Items/Registered.antt =====
-- What `register_item` has written when it returns, and what `get_items` makes of it.
use bms_gui.Prelude.{
  String, ◌≡◌, refl, sym, ◌∙◌, ap, subst, true, some, List, [], ◌∷◌, ◌++◌, str_eq, if◌then◌else◌,
}
use bms_gui.Dict.{Dict, lookup, insert}
use bms_gui.Dict.Keys.{string_key, sorted_items}
use bms_gui.Dict.Laws.{lookup-insert}
use bms_gui.Dict.Agree.{IsDict, IsDict-insert}
use bms_gui.Dict.Sorted.{lookup-sorted_items}
use bms_gui.Fields.{truthy}
use bms_gui.Json.{Payload}
use bms_gui.Result as R
use bms_gui.Result.{Result, ok, ok-eq, fold_each, fold_each-append}
use bms_gui.Exec.{reads, lift}
use bms_gui.Exec.Outcome.{
  Triple, Triple-ok, Triple-then, Triple-bind, Triple-Keeps, Anything, >>=-eq-ok,
}
use bms_gui.Store.{items, Env, World, payloads, read_payloads}
use bms_gui.Store.Frame.{Holds, store_keeps, uuid4_hex-Keeps, read_payloads-ok}
use bms_gui.Store.Append.{append_record-adds}
use bms_gui.Inventory.Models.{Item}
use bms_gui.Inventory.Items.{
  identity_of, business_unit, active_of, add_item, items_of, validate_item, reject_duplicate_item,
  item_payload, get_items, write_item, register_item,
}

add_item-IsDict :
    (default : Item) (registered : Dict String Item) (payload : Payload) {after : Dict String Item}
    → IsDict default registered
    → add_item registered payload ≡ ok after
    → IsDict default after
unfolding add_item
add_item-IsDict default registered payload d h =
    let (names, _, h1) = R.>>=-eq-ok (identity_of payload) _ h in
    let (unit, _, h2) = R.>>=-eq-ok (business_unit payload) _ h1 in
    let (active, _, h3) = R.>>=-eq-ok (active_of payload) _ h2 in
    subst (IsDict default) (ok-eq h3) (IsDict-insert default names.0 _ registered d)

add_items-IsDict :
    (default : Item) (registered : Dict String Item) (ps : List Payload) {after : Dict String Item}
    → IsDict default registered
    → fold_each add_item registered ps ≡ ok after
    → IsDict default after
unfolding fold_each
add_items-IsDict default registered [] d h = subst (IsDict default) (ok-eq h) d
add_items-IsDict default registered (p ∷ ps) d h =
    let (next, added, h1) = R.>>=-eq-ok (add_item registered p) _ h in
    add_items-IsDict default next ps (add_item-IsDict default registered p d added) h1

-- The payload of an item is read back as the item.
add_item-item_payload :
    (item : Item) (created_at actor_id correlation_id : String) (registered : Dict String Item)
    → truthy item.business_unit ≡ true
    → add_item registered (item_payload item created_at actor_id correlation_id)
      ≡ ok (insert item.item_id item registered)
unfolding add_item identity_of business_unit active_of item_payload
add_item-item_payload item created_at actor_id correlation_id registered given = rw given refl

module _ (env : Env) where
  write_item-adds :
      (item : Item) (actor_id created_at correlation_id : String) (ps : List Payload)
      → Triple
          (Holds items ps)
          (write_item env item actor_id created_at correlation_id)
          (λ _. Holds items (ps ++ item_payload item created_at actor_id correlation_id ∷ []))
          Anything
  unfolding write_item
  write_item-adds item actor_id created_at correlation_id ps =
      Triple-then _ _ (uuid4_hex-Keeps env) (λ _ _. tt)
        λ hex.
          Triple-then _ _ (search (store_keeps, tt)) (λ _ _. tt)
            λ _.
              Triple-bind _ _ _
                (append_record-adds env items (item_payload item created_at actor_id correlation_id)
                  (λ qs e. rw e) (λ _ _. tt) (λ _ _. tt) _ _ _ _ _ _)
                λ _. Triple-Keeps _ (search (store_keeps, tt) depth 20) (λ _ _. tt)

  -- The register of the items before and after, by what each id finds.
  pub record IsRegistered (item : Item) (w w' : World) : Type 0 where
    pub before : Dict String Item
    pub after : Dict String Item
    pub read : items_of (payloads items w) ≡ ok before
    pub read_after : items_of (payloads items w') ≡ ok after
    pub found :
        (item_id : String)
        → lookup item_id after
          ≡ (if str_eq item.item_id item_id then some item else lookup item_id before)

  items_of-append :
      (item : Item) (actor_id created_at correlation_id : String) (w w' : World)
      {before : Dict String Item}
      → truthy item.business_unit ≡ true
      → items_of (payloads items w) ≡ ok before
      → payloads items w'
        ≡ payloads items w ++ item_payload item created_at actor_id correlation_id ∷ []
      → IsRegistered item w w'
  unfolding items_of
  items_of-append item actor_id created_at correlation_id w w' given h grown =
      let ps = payloads items w in
      let p = item_payload item created_at actor_id correlation_id in
      let (registered, folded, sorted) = R.>>=-eq-ok (fold_each add_item [] ps) _ h in
      let is_dict = add_items-IsDict item [] ps tt folded in
      let folded_after : fold_each add_item [] (ps ++ p ∷ [])
          ≡ ok (insert item.item_id item registered) =
        fold_each-append add_item [] ps p
        ∙ ap (λ r. R.◌>>=◌ r λ d. add_item d p) folded
        ∙ add_item-item_payload item created_at actor_id correlation_id registered given in
      record {
        before = sorted_items registered;
        after = sorted_items (insert item.item_id item registered);
        read = ap (λ r. R.◌>>=◌ r λ d. ok (sorted_items d)) folded;
        read_after =
            ap (λ qs. R.◌>>=◌ (fold_each add_item [] qs) λ d. ok (sorted_items d)) grown
            ∙ ap (λ r. R.◌>>=◌ r λ d. ok (sorted_items d)) folded_after;
        found = λ item_id.
            lookup-sorted_items item item_id _
              (IsDict-insert item item.item_id item registered is_dict)
            ∙ lookup-insert item.item_id item_id item registered
            ∙ ap (λ o. if str_eq item.item_id item_id then some item else o)
                (sym (lookup-sorted_items item item_id registered is_dict));
      }

  -- Where `register_item` returned for an item whose business unit is not empty, the register
  -- could be read before, it can be read from the payloads of the file afterwards, and it finds
  -- the item under its id and what it found before under every other id.
  pub register_item-IsRegistered :
      (item : Item) (actor_id created_at correlation_id : String) (w : World) {result : Item}
      {w' : World}
      → truthy item.business_unit ≡ true
      → register_item env item actor_id created_at correlation_id w ≡ (ok result, w')
      → IsRegistered item w w'
  unfolding register_item reads lift get_items
  register_item-IsRegistered item actor_id created_at correlation_id w {w'} given h =
      let (_, _, h1) = >>=-eq-ok (lift (validate_item item)) _ w h in
      let (registered, listed, h2) = >>=-eq-ok (reads (get_items env)) _ w h1 in
      let (_, _, h3) = >>=-eq-ok (lift (reject_duplicate_item item registered)) _ w h2 in
      let (ps, read, parsed) = R.>>=-eq-ok (read_payloads env items w) _ listed in
      items_of-append item actor_id created_at correlation_id w w' {before = registered} given
        (rw (read_payloads-ok env items w read) parsed)
        (Triple-ok _ w (write_item-adds item actor_id created_at correlation_id (payloads items w))
          (record { holds = refl }) h3).holds
