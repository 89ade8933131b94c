-- ===== src/Shell/Selected.antt =====
-- Which item of the menu is shown as selected.
use split_proxy.Base.{
  ◌≡◌, refl, sym, subst, false, List, [], ◌∷◌, All, Member, at_head, in_tail, text_beq,
}
use split_proxy.Shell.Menu.{MenuItem, menu_items, selected_items, AdminLayout, click_item}

All-Member {ℓ κ} :
    {A : Type ℓ} (P : A → Type κ) (xs : List A) {a : A} → All P xs → Member a xs → P a
All-Member P [] h m = elim m [ ]
All-Member P (x ∷ xs) h (at_head e) = subst P (sym e) h.0
All-Member P (x ∷ xs) h (in_tail m) = All-Member P xs h.1 m

abbrev SelectsItself : MenuItem → Type 0
SelectsItself item = selected_items item.to ≡ item ∷ []

menu-SelectsItself : All SelectsItself menu_items
unfolding selected_items menu_items text_beq
menu-SelectsItself = (refl, (refl, (refl, (refl, (refl, tt)))))

-- A click on an item of the menu closes the drawer and goes where that item, and no other, is
-- shown as selected.
pub click_item-selected :
    (item : MenuItem) (l : AdminLayout)
    → Member item menu_items
    → ((click_item item l).mobile_open ≡ false)
      × (selected_items (click_item item l).pathname ≡ item ∷ [])
unfolding click_item
click_item-selected item l m = (refl, All-Member SelectsItself menu_items menu-SelectsItself m)
