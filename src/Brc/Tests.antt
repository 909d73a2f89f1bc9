-- ===== src/Brc/Tests.antt =====
-- Runs of the operations on one board's records at concrete inputs.
use brs_bbs.Prelude.{ℕ, ◌<◌, ◌≡◌, refl, Bool, true, false, List, [], ◌∷◌, arith}
use brs_bbs.Brc.{
  BrcRec, addlist, unread_time, search_read, brc_maxnum, has_no_records, Found, no_records,
  brc_addlist,
}
use brs_bbs.Brc.Add.{IsValid, IsSorted, addlist-IsValid, unread_time-brc_addlist}
use brs_bbs.Brc.Frame.{unread_time-addlist_ne}
use brs_bbs.Brc.Nearest.{search_read_nearest, as_found, oldest_newer, newest_older}

abbrev read_at_time : ℕ → BrcRec
read_at_time t = record { create = t; modified = 7 }

abbrev two_read : List BrcRec
two_read = read_at_time 900 ∷ read_at_time 500 ∷ []

abbrev article : BrcRec
article = record { create = 700; modified = 701 }

two_read-IsSorted : IsSorted two_read
unfolding brs_bbs.Brc.biased
two_read-IsSorted = (omega arith, omega arith, (omega arith, tt, tt))

two_read-IsValid : IsValid two_read
two_read-IsValid = record { sorted = two_read-IsSorted; fits = omega arith }

addlist-IsValid_example : IsValid (addlist 100 two_read article).0
addlist-IsValid_example = addlist-IsValid 100 two_read article (omega arith) two_read-IsValid

unread_time-brc_addlist_example : unread_time 100 (brc_addlist 1 100 two_read article).0 700 701 ≡ 0
unread_time-brc_addlist_example = unread_time-brc_addlist 1 100 two_read article (omega arith)

unread_time-addlist_ne_example :
    let after = unread_time 100 (addlist 100 two_read article).0 500 7 in
    (2 < brc_maxnum → after ≡ unread_time 100 two_read 500 7)
    × (unread_time 100 two_read 500 7 ≡ 0 → after ≡ 0)
unread_time-addlist_ne_example =
    unread_time-addlist_ne 100 two_read article 500 7 (omega arith) refl

search_read_nearest_example :
    (has_no_records two_read ≡ false
      → (search_read two_read 700 true ≡ as_found (oldest_newer 700 two_read))
        × (search_read two_read 700 false ≡ as_found (newest_older 700 two_read)))
    × (has_no_records two_read ≡ true
        → (forward : Bool) → search_read two_read 700 forward ≡ no_records)
search_read_nearest_example = search_read_nearest two_read 700 (omega arith) two_read-IsSorted
