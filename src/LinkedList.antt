-- ===== src/LinkedList.antt =====
-- volumes/02.Kernel64/Source/List.c: the kernel's linked lists. An item begins with a LISTLINK,
-- so an item is its address, and `Links` is the memory of all links. NULL is 0.
pub mod Chain
pub mod Add
pub mod Remove
pub mod Search
pub mod Stale
mod Tests
use deodeok_os.Base.{
  ℕ, zero, suc, ◌+◌, ◌-◌, ◌%◌, ◌^◌, ◌==◌, if◌then◌else◌, Option, none, some, ◌&&◌,
}
use deodeok_os.Base.Cells.{update}

-- LISTLINK: `pvNext` and `qwID` at each address.
pub record Links : Type 0 where
  pub next : ℕ → ℕ
  pub id : ℕ → ℕ

-- LIST
pub record LinkList : Type 0 where
  pub item_count : ℕ
  pub header : ℕ
  pub tail : ℕ

abbrev pub set_next : Links → ℕ → ℕ → Links
set_next h p q = record h { next = update h.next p q }

-- `int` counters: `++` and `--` on 32 bits
abbrev pub inc32 : ℕ → ℕ
inc32 n = (n + 1) % 2 ^ 32

abbrev pub dec32 : ℕ → ℕ
dec32 n = (n + 2 ^ 32 - 1) % 2 ^ 32

unfoldable pub initialize_list : LinkList
initialize_list = record { item_count = 0; header = 0; tail = 0 }

unfoldable pub get_list_count : LinkList → ℕ
get_list_count l = l.item_count

unfoldable pub add_list_to_tail : Links → LinkList → ℕ → Links × LinkList
add_list_to_tail h l item =
    let h' = set_next h item 0 in
    if l.header == 0
    then (h', record { item_count = 1; header = item; tail = item })
    else (set_next h' l.tail item, record l { item_count = inc32 l.item_count; tail = item })

unfoldable pub add_list_to_header : Links → LinkList → ℕ → Links × LinkList
add_list_to_header h l item =
    let h' = set_next h item l.header in
    if l.header == 0
    then (h', record { item_count = 1; header = item; tail = item })
    else (h', record l { item_count = inc32 l.item_count; header = item })

-- The body of kRemoveList's loop for the item that has the ID.
unfoldable pub unlink : Links → LinkList → (prev link : ℕ) → Links × LinkList
unlink h l prev link =
    let n = dec32 l.item_count in
    if (link == l.header) && (link == l.tail)
    then (h, record { item_count = n; header = 0; tail = 0 })
    else if link == l.header
    then (h, record l { item_count = n; header = h.next link })
    else if link == l.tail
    then (h, record l { item_count = n; tail = prev })
    else (set_next h prev (h.next link), record l { item_count = n })

-- The loop, on fuel: `none` means that the fuel ran out. The number returned is the item, or NULL.
unfoldable pub remove_loop :
    ℕ → Links → LinkList → (wanted prev link : ℕ) → Option (ℕ × Links × LinkList)
remove_loop zero h l wanted prev link = none
remove_loop (suc k) h l wanted prev link =
    let rest = remove_loop k h l wanted link (h.next link) in
    let (h', l') = unlink h l prev link in
    if link == 0 then some (0, h, l) else if h.id link == wanted then some (link, h', l') else rest

unfoldable pub remove_list : ℕ → Links → LinkList → ℕ → Option (ℕ × Links × LinkList)
unfolding remove_loop unlink
remove_list fuel h l wanted = remove_loop fuel h l wanted l.header l.header

unfoldable pub remove_list_from_header : ℕ → Links → LinkList → Option (ℕ × Links × LinkList)
remove_list_from_header fuel h l =
    if l.item_count == 0 then some (0, h, l) else remove_list fuel h l (h.id l.header)

unfoldable pub remove_list_from_tail : ℕ → Links → LinkList → Option (ℕ × Links × LinkList)
remove_list_from_tail fuel h l =
    if l.item_count == 0 then some (0, h, l) else remove_list fuel h l (h.id l.tail)

pub find_loop : ℕ → Links → (wanted link : ℕ) → Option ℕ
find_loop zero h wanted link = none
find_loop (suc k) h wanted link =
    let rest = find_loop k h wanted (h.next link) in
    if link == 0 then some 0 else if h.id link == wanted then some link else rest

unfoldable pub find_list : ℕ → Links → LinkList → ℕ → Option ℕ
unfolding find_loop
find_list fuel h l wanted = find_loop fuel h wanted l.header

unfoldable pub get_header_from_list : LinkList → ℕ
get_header_from_list l = l.header

unfoldable pub get_tail_from_list : LinkList → ℕ
get_tail_from_list l = l.tail

unfoldable pub get_next_from_list : Links → ℕ → ℕ
get_next_from_list h current = h.next current
