-- ===== src/Ulist/Tests.antt =====
-- Runs of the search by process id.
use brs_bbs.Prelude.{ℕ, zero, suc, ◌≡◌, refl, none, some, arith, ◌==◌, if◌then◌else◌}
use brs_bbs.Ulist.{Utmp, search_pid_loop, search_ulist_pid, IsSorted, Answers}
use brs_bbs.Ulist.Search.{search_ulist_pid-Answers}

-- Three users, at the places 5, 2 and 9 of the table.
abbrev place : ℕ → ℕ
place zero = 5
place (suc zero) = 2
place (suc (suc i)) = 9

abbrev pid_at : ℕ → ℕ
pid_at u = if u == 5 then 100 else if u == 2 then 250 else 4000

abbrev three : Utmp
three = record { utmp_number = 3; ulist = place; pid_of = pid_at }

found_last : search_ulist_pid 3 three 4000 ≡ some (some 9)
unfolding search_ulist_pid search_pid_loop
found_last = refl

found_first : search_ulist_pid 3 three 100 ≡ some (some 5)
unfolding search_ulist_pid search_pid_loop
found_first = refl

not_there : search_ulist_pid 3 three 251 ≡ some none
unfolding search_ulist_pid search_pid_loop
not_there = refl

nobody : search_ulist_pid 0 (record three { utmp_number = 0 }) 7 ≡ some none
unfolding search_ulist_pid search_pid_loop
nobody = refl

three-IsSorted : IsSorted three
three-IsSorted zero zero l h = omega arith
three-IsSorted zero (suc zero) l h = omega arith
three-IsSorted zero (suc (suc k)) l h = omega arith
three-IsSorted (suc zero) zero l h = absurd (omega (arith, l))
three-IsSorted (suc zero) (suc zero) l h = omega arith
three-IsSorted (suc zero) (suc (suc k)) l h = omega arith
three-IsSorted (suc (suc i)) zero l h = absurd (omega (arith, l))
three-IsSorted (suc (suc i)) (suc zero) l h = absurd (omega (arith, l))
three-IsSorted (suc (suc i)) (suc (suc k)) l h = omega arith

search_ulist_pid-Answers_example : Answers three 4000 (search_ulist_pid 3 three 4000)
search_ulist_pid-Answers_example =
    search_ulist_pid-Answers 3 three 4000 three-IsSorted (omega arith)
