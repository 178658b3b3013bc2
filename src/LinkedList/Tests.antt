-- ===== src/LinkedList/Tests.antt =====
-- Runs of List.c, and its theorems at concrete lists.
use deodeok_os.Base.{ℕ, ◌≡◌, refl, inr, none, List, [], ◌∷◌, ◌++◌, ◌==◌, if◌then◌else◌, arith, some}
use deodeok_os.LinkedList.{
  Links, LinkList, add_list_to_tail, remove_list, find_list, remove_list_from_tail,
}
use deodeok_os.LinkedList.Chain.{IsList, find_id, erase_id}
use deodeok_os.LinkedList.Add.{add_tail-append}
use deodeok_os.LinkedList.Search.{Removed, remove_list-Removed}
use deodeok_os.LinkedList.Stale.{find-remove_last}

-- Items 10, 20 and 30 with the IDs 1, 2 and 3.
abbrev links : Links
links = record {
  next = λ a. if a == 10 then 20 else if a == 20 then 30 else 0;
  id = λ a. if a == 10 then 1 else if a == 20 then 2 else if a == 30 then 3 else 0;
}

abbrev three : LinkList
three = record { item_count = 3; header = 10; tail = 30 }

abbrev items : List ℕ
items = 10 ∷ 20 ∷ 30 ∷ []

three-IsList : IsList links three 0 items
three-IsList = record {
  header = refl;
  tail = refl;
  count = refl;
  small = omega arith;
  distinct = omega arith;
  chain = (omega arith, refl, (omega arith, refl, (omega arith, refl, tt)));
}

-- Taking the last item and then asking for it.
find_removed :
    (let r = remove_list_from_tail 9 links three in
      elim r [ none ↦ none | some (p, h, l) ↦ find_list 9 h l 3 ])
    ≡ some 30
unfolding remove_list_from_tail remove_list find_list
find_removed = refl

add_tail-append_example :
    let (h, l) = add_list_to_tail links three 40 in IsList h l 0 (items ++ (40 ∷ []))
add_tail-append_example =
    add_tail-append 40 (omega arith) items three-IsList (omega arith) (omega arith)

remove_list-Removed_example : Removed links three 0 2 items (remove_list 4 links three 2)
remove_list-Removed_example = remove_list-Removed 2 4 items three-IsList (inr refl) (omega arith)

find-remove_last_example :
    (l' : LinkList) × (remove_list 4 links three 3 ≡ some (30, links, l'))
    × IsList links l' 30 (erase_id links.id 3 items)
    × (find_list 4 links l' 3 ≡ some 30)
unfolding find_id
find-remove_last_example = find-remove_last 4 3 10 20 (30 ∷ []) three-IsList refl (omega arith)
