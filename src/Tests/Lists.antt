-- ===== src/Tests/Lists.antt =====
-- Runs of include/clist.h on the list of 1, 2 and 3.
use jae_os.Prelude.{◌≡◌, refl, Bool, true, false, [], ◌∷◌, Ptr, Run, ok, Returns, ◌==◌, arith}
use jae_os.Clist.{
  Cursor, clist_delete, clist_foreach, clist_foreach_all, clist_foreach_add, clist_foreach_delete,
}
use jae_os.Clist.Ring.{Ring, SameOutside}
use jae_os.Clist.Scan.{clist_foreach-found, clist_foreach-none}
use jae_os.Clist.Edit.{clist_foreach_delete-append, clist_foreach_add-append}
use jae_os.Clist.Delete.{clist_delete-append}
use jae_os.Tests.Data.{differ, seven_new, three, three_items, three-Ring}

abbrev is_two : Ptr → Run Bool
is_two scan = ok (scan == 2)

abbrev is_nine : Ptr → Run Bool
is_nine scan = ok (scan == 9)

clist_delete-append_example :
    Returns
      (λ (retval, m). (retval ≡ 0) × Ring m (1 ∷ 2 ∷ []) × SameOutside three_items three m)
      (clist_delete 4 3 three)
clist_delete-append_example =
    clist_delete-append 4 3 three three_items three-Ring (omega arith) (1 ∷ 2 ∷ []) [] refl

clist_foreach-found_example :
    clist_foreach 4 is_two three ≡ ok (record { scan = 2; tmp = 1; found = true })
clist_foreach-found_example =
    clist_foreach-found 4 three is_two three_items (1 ∷ []) 2 (3 ∷ []) three-Ring refl (refl, tt)
      refl (omega arith)

clist_foreach-none_example :
    (c : Cursor) × (clist_foreach 4 is_nine three ≡ ok c)
    × (c.found ≡ false)
    × (clist_foreach_all c three ≡ true)
clist_foreach-none_example =
    clist_foreach-none 4 three is_nine three_items three-Ring (refl, (refl, (refl, tt)))
      (omega arith)

clist_foreach_delete-append_example :
    Returns
      (λ m. Ring m (1 ∷ 3 ∷ []) × SameOutside three_items three m)
      (clist_foreach_delete (record { scan = 2; tmp = 1; found = true }) three)
clist_foreach_delete-append_example =
    clist_foreach_delete-append three three_items (1 ∷ []) 2 (3 ∷ []) true three-Ring refl

clist_foreach_add-append_example :
    Returns
      (λ m. Ring m (1 ∷ 7 ∷ 2 ∷ 3 ∷ []) × SameOutside (7 ∷ three_items) three m)
      (clist_foreach_add 7 (record { scan = 2; tmp = 1; found = true }) three)
clist_foreach_add-append_example =
    clist_foreach_add-append 7 three three_items three-Ring (differ 7 0 refl) seven_new (1 ∷ []) 2
      (3 ∷ []) true refl
